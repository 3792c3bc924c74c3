-- ===== src/Player/Mail/Room.antt =====
-- Room for a new mail: the mail that `new_mail` drops from a full box.
use mm_server.Prelude.{
  ℕ, suc, ◌≡◌, refl, sym, subst, ◌⊎◌, inl, inr, Bool-cases, true, [], ◌∷◌, arith, ◌||◌,
}
use mm_server.Prelude.Int.{ℤ, pos, ◌≤ℤ◌, ◌<ℤ◌, ltb_ℤ, leb_ℤ, eqb_ℤ, int_eq}
use mm_server.Prelude.Dict.{
  contains, erase, size, HasUniqueKeys, size-erase, AllEntries, contains-head, contains-tail,
}
use mm_server.Player.State.{Mail, MailConfig}
use mm_server.Player.Mail.{Mails, first_id, make_room}

abbrev AtLeast : ℤ → ℤ × Mail → Type 0
AtLeast a (k, _) = a ≤ℤ k

abbrev pub HasPositiveId : ℤ × Mail → Type 0
HasPositiveId (k, _) = pos 0 <ℤ k

-- The least of the ids and of the one at hand.
record IsFirst (acc : ℤ) (ms : Mails) (r : ℤ) : Type 0 where
  positive : pos 0 <ℤ r
  below : r ≤ℤ acc
  least : AllEntries (AtLeast r) ms
  present : (r ≡ acc) ⊎ (contains r ms ≡ true)

first_id-IsFirst :
    (acc : ℤ) (ms : Mails)
    → pos 0 <ℤ acc
    → AllEntries HasPositiveId ms
    → IsFirst acc ms (first_id acc ms)
unfolding first_id
first_id-IsFirst acc [] h all = record {
  positive = h;
  below = omega arith;
  least = tt;
  present = inl refl;
}
first_id-IsFirst acc ((k, m) ∷ ms) h all = elim (Bool-cases (ltb_ℤ k acc || eqb_ℤ acc (pos 0))) [
  | inl less ↦ rw less (
      let r = first_id-IsFirst k ms all.0 all.1 in
      record {
        positive = r.positive;
        below = ground (arith, r.below);
        least = (r.below, r.least);
        present = elim (r.present) [
          | inl same ↦ inr (contains-head (first_id k ms) k m ms same)
          | inr there ↦ inr (contains-tail (first_id k ms) k m ms there)
        ];
      })
  | inr more ↦ rw more (
      let r = first_id-IsFirst acc ms h all.1 in
      record {
        positive = r.positive;
        below = r.below;
        least = (ground (arith, r.below), r.least);
        present = elim (r.present) [
          | inl same ↦ inl same
          | inr there ↦ inr (contains-tail (first_id acc ms) k m ms there)
        ];
      })
]

-- An entry of the box that no other comes before.
abbrev IsFirstOf : Mails → ℤ → Type 0
IsFirstOf ms r = (pos 0 <ℤ r) × AllEntries (AtLeast r) ms × (contains r ms ≡ true)

first_id-start : (k : ℤ) (m : Mail) (ms : Mails) → first_id (pos 0) ((k, m) ∷ ms) ≡ first_id k ms
unfolding first_id
first_id-start k m ms =
    let test : ltb_ℤ k (pos 0) || eqb_ℤ (pos 0) (pos 0) ≡ true = ground arith in rw test refl

-- From the start: a box that holds mails has a first one.
first_id-lem :
    (k : ℤ) (m : Mail) (ms : Mails)
    → AllEntries HasPositiveId ((k, m) ∷ ms)
    → IsFirstOf ((k, m) ∷ ms) (first_id (pos 0) ((k, m) ∷ ms))
first_id-lem k m ms all =
    let r = first_id-IsFirst k ms all.0 all.1 in
    subst (IsFirstOf ((k, m) ∷ ms)) (sym (first_id-start k m ms)) (
      r.positive,
      (r.below, r.least),
      elim (r.present) [
        | inl same ↦ contains-head (first_id k ms) k m ms same
        | inr there ↦ contains-tail (first_id k ms) k m ms there
      ],
    )

-- What making room does: a box that is not full stays; a full one loses the mail with the least id
-- and no other.
pub record Room (cfg : MailConfig) (ms ms' : Mails) : Type 0 where
  pub below : pos (size ms') <ℤ cfg.max_count
  pub kept :
      ((pos (size ms) <ℤ cfg.max_count) × (ms' ≡ ms))
      ⊎ ((first : ℤ) × (cfg.max_count ≤ℤ pos (size ms))
          × AllEntries (λ (x : ℤ × Mail). first ≤ℤ x.0) ms
          × (contains first ms ≡ true)
          × (ms' ≡ erase first ms))

no_room : (n : ℤ) → pos 0 <ℤ n → leb_ℤ n (pos (size {K = ℤ} {V = Mail} [])) ≡ true → ⊥
unfolding size
no_room n h full = ground arith

lt_ltb : (a : ℤ) → pos 0 <ℤ a → ltb_ℤ (pos 0) a ≡ true
lt_ltb a h = ground arith

one_less : (n : ℤ) (a b : ℕ) → pos a ≤ℤ n → a ≡ suc b → pos b <ℤ n
one_less n a b h e = ground arith

full-Room :
    (cfg : MailConfig) (ms : Mails)
    → pos 0 <ℤ cfg.max_count
    → HasUniqueKeys ms
    → AllEntries HasPositiveId ms
    → pos (size ms) ≤ℤ cfg.max_count
    → leb_ℤ cfg.max_count (pos (size ms)) ≡ true
    → Room cfg ms (make_room cfg ms)
unfolding make_room
full-Room cfg [] some_room unique all bounded full = absurd (no_room cfg.max_count some_room full)
full-Room cfg ((k, m) ∷ ms) some_room unique all bounded full =
    let (positive, least, there) = first_id-lem k m ms all in
    let smaller = size-erase (first_id (pos 0) ((k, m) ∷ ms)) ((k, m) ∷ ms) unique in
    rw (full, lt_ltb (first_id (pos 0) ((k, m) ∷ ms)) positive)
      (record {
        below = one_less cfg.max_count _ _ bounded (rw there at smaller);
        kept = inr (_, ground (arith, full), least, there, refl);
      })

pub make_room-Room :
    (cfg : MailConfig) (ms : Mails)
    → pos 0 <ℤ cfg.max_count
    → HasUniqueKeys ms
    → AllEntries HasPositiveId ms
    → pos (size ms) ≤ℤ cfg.max_count
    → Room cfg ms (make_room cfg ms)
unfolding make_room
make_room-Room cfg ms some_room unique all bounded =
    elim (Bool-cases (leb_ℤ cfg.max_count (pos (size ms)))) [
      | inl full ↦ full-Room cfg ms some_room unique all bounded full
      | inr below ↦ rw below (record { below = ground arith; kept = inl (ground arith, refl) })
    ]
