-- ===== src/Player/SignIn/Awards.antt =====
-- Taking the reward of a signed day (`sign_award`).
use mm_server.Prelude.{
  not, ◌≡◌, refl, sym, ap, ◌∙◌, ◌≢◌, ◌⊎◌, inl, inr, Bool-cases, true, false, Option, none, some,
  arith, [],
}
use mm_server.Player.Resources.Total.{IsConfig, add_resources-IsTotal}
use mm_server.Prelude.Fault.{
  IsTotal, IsTotal->>=, if-IsTotal, IsTotal-Returns, Returns, IfReturns, IfReturns-map, ◌>>=◌,
}
use mm_server.Prelude.Int.{ℤ, pos, negsuc, ◌+ℤ◌, ◌≤ℤ◌, ◌<ℤ◌, leb_ℤ, eqb_ℤ, int_eq, int_laws}
use mm_server.Prelude.Int32.{add32, max_int32, add32_fits}
use mm_server.Prelude.Dict.{lookup}
use mm_server.Player.State.{Player, Config, Sign, SignItem, Effect, emit}
use mm_server.Player.Values.{Call}
use mm_server.Player.Resources.{add_resources}
use mm_server.Player.SignIn.{give_award, award_known, sign_award, sum_rewards}
use mm_server.Player.SignIn.Frame.{Keeps, add_resources-Keeps}

-- No reward is taken before its day is signed, the next day has a number, and a player who never
-- signed has no signed day.
pub record IsValid (s : Sign) : Type 0 where
  pub counted : pos 0 ≤ℤ s.award_index
  pub signed : s.award_index ≤ℤ s.signed_index
  pub room : s.signed_index <ℤ max_int32
  pub fresh : s.last_signed_time ≡ pos 0 → s.signed_index ≡ pos 0

-- The next reward, whose day was signed, and the row that the table has for it.
pub record IsDue (cfg : Config) (id : ℤ) (s : Sign) (item : SignItem) : Type 0 where
  pub next : id ≡ s.award_index +ℤ pos 1
  pub was_signed : id ≤ℤ s.signed_index
  pub row : lookup id cfg.signs.sign_map ≡ some item

-- All of a player but the sign-in and the messages to the client.
abbrev pub wealth : Player → Player
wealth p = record p {
  sign = record { last_signed_time = pos 0; signed_index = pos 0; award_index = pos 0 };
  effects = [];
}

abbrev pub SameWealth : Player → Player → Type 0
SameWealth p q = wealth p ≡ wealth q

-- A reward was taken: the player was given its resources, and its day is noted.
pub record Awarded (cfg : Config) (now id : ℤ) (item : SignItem) (p q : Player) : Type 0 where
  pub got : Player
  pub given : add_resources cfg now item.reward p ≡ some got
  pub kept : SameWealth got q
  pub sign : q.sign ≡ record (p.sign) { award_index = id }

-- The outcome of `sign_award`: the reward that is due, or nothing at all where none is.
abbrev pub AwardOutcome : Config → ℤ → ℤ → Player → Call → Type 0
AwardOutcome cfg now id p (q, r) =
    ((item : SignItem) × IsDue cfg id p.sign item × (r ≡ pos 1) × Awarded cfg now id item p q)
    ⊎ (((item : SignItem) → ¬ IsDue cfg id p.sign item) × (r ≢ pos 1) × (q ≡ p))

award_given :
    (cfg : Config) (now id : ℤ) (item : SignItem) (p : Player) (m : Option Player)
    → add_resources cfg now item.reward p ≡ m
    → IfReturns (Keeps p) m
    → IfReturns
        (λ (r : Call). (r.1 ≡ pos 1) × Awarded cfg now id item p r.0)
        (m >>= λ q. some (
          emit
              (Effect.send_sign_award id (sum_rewards item.reward []))
              (record q { sign = record (q.sign) { award_index = id } }),
          pos 1,
        ))
award_given cfg now id item p none given k = tt
award_given cfg now id item p (some got) given k = (
  refl,
  record {
    got = got;
    given = given;
    kept = refl;
    sign = ap (λ (s : Sign). record s { award_index = id }) (k.sign);
  },
)

give_award-Awarded :
    (cfg : Config) (now id : ℤ) (item : SignItem) (p : Player)
    → IfReturns
        (λ (r : Call). (r.1 ≡ pos 1) × Awarded cfg now id item p r.0)
        (give_award cfg now id item p)
unfolding give_award
give_award-Awarded cfg now id item p =
    award_given cfg now id item p (add_resources cfg now item.reward p) refl
      (add_resources-Keeps cfg now item.reward p)

pub add32_next : (a b : ℤ) → pos 0 ≤ℤ a → a ≤ℤ b → b <ℤ max_int32 → add32 a (pos 1) ≡ a +ℤ pos 1
unfolding ◌+ℤ◌
add32_next (pos a) (pos b) h k l =
    add32_fits (pos a) (pos 1) (record { lower = ground arith; upper = ground arith })
add32_next (pos a) (negsuc b) h k l = absurd (omega arith)
add32_next (negsuc a) b h k l = absurd (omega arith)

pub eqb_ℤ→eq : (a b : ℤ) → eqb_ℤ a b ≡ true → a ≡ b
eqb_ℤ→eq a b h = (int_eq.beq_iff a b).0 h

-- The day after one that lies before another is at most that one.
next_le : (a b id : ℤ) → id ≡ a +ℤ pos 1 → leb_ℤ b a ≡ false → id ≤ℤ b
unfolding ◌+ℤ◌
next_le (pos a) b id next h = ground arith
next_le (negsuc a) b id next h = ground arith

award_known-Outcome :
    (cfg : Config) (now id : ℤ) (p : Player) (row : Option SignItem)
    → lookup id cfg.signs.sign_map ≡ row
    → id ≡ p.sign.award_index +ℤ pos 1
    → id ≤ℤ p.sign.signed_index
    → IfReturns (AwardOutcome cfg now id p) (award_known cfg now id row p)
unfolding award_known
award_known-Outcome cfg now id p none there next signed =
    inr (λ item due. absurd (ground (arith, there, due.row)), λ e. absurd (ground arith), refl)
award_known-Outcome cfg now id p (some item) there next signed =
    IfReturns-map (give_award cfg now id item p)
      (λ (r : Call) h.
        inl (item, record { next = next; was_signed = signed; row = there }, h.0, h.1))
      (give_award-Awarded cfg now id item p)

-- A reward that was taken is not due.
taken_before : (id a : ℤ) → leb_ℤ id a ≡ true → id ≡ a +ℤ pos 1 → ⊥
taken_before id a again next = grind (int_laws, arith)

unsigned_day : (id a b : ℤ) → leb_ℤ b a ≡ true → id ≡ a +ℤ pos 1 → id ≤ℤ b → ⊥
unsigned_day id a b unsigned next signed = grind (int_laws, arith)

sign_award-IfReturns :
    (cfg : Config) (now id : ℤ) (p : Player)
    → IsValid p.sign
    → IfReturns (AwardOutcome cfg now id p) (sign_award cfg now id p)
unfolding sign_award
sign_award-IfReturns cfg now id p v =
    let a = p.sign.award_index in
    let b = p.sign.signed_index in
    let sum = add32_next a b (v.counted) (v.signed) (v.room) in
    elim (Bool-cases (leb_ℤ id a)) [
      | inl again ↦
          rw again
            (inr (λ item due. taken_before id a again (due.next), λ e. absurd (ground arith), refl))
      | inr fresh ↦ rw fresh (elim (Bool-cases (eqb_ℤ (add32 a (pos 1)) id)) [
        | inr jumps ↦ rw jumps (
            inr (
              λ item due. absurd (
                  ground
                    (arith, jumps, (int_eq.beq_iff (add32 a (pos 1)) id).1 (sum ∙ sym (due.next)))),
              λ e. absurd (ground arith),
              refl,
            ))
        | inl next ↦ rw next (elim (Bool-cases (leb_ℤ b a)) [
          | inl unsigned ↦ rw unsigned (
              inr (
                λ item due. unsigned_day id a b unsigned (due.next) (due.was_signed),
                λ e. absurd (ground arith),
                refl,
              ))
          | inr was_signed ↦
              let same : id ≡ a +ℤ pos 1 = sym (eqb_ℤ→eq (add32 a (pos 1)) id next) ∙ sum in
              rw was_signed
                (award_known-Outcome cfg now id p _ refl same (next_le a b id same was_signed))
        ])
      ])
    ]

award_known-IsTotal :
    (cfg : Config) (now id : ℤ) (row : Option SignItem) (p : Player)
    → IsConfig cfg
    → IsTotal (award_known cfg now id row p)
unfolding award_known give_award
award_known-IsTotal cfg now id none p c = tt
award_known-IsTotal cfg now id (some item) p c =
    IsTotal->>= (add_resources cfg now item.reward p) _
      (add_resources-IsTotal cfg now item.reward p c) (λ q. tt)

sign_award-IsTotal :
    (cfg : Config) (now id : ℤ) (p : Player) → IsConfig cfg → IsTotal (sign_award cfg now id p)
unfolding sign_award
sign_award-IsTotal cfg now id p c = if-IsTotal (leb_ℤ id p.sign.award_index) _ _ tt (
    if-IsTotal (not (eqb_ℤ (add32 p.sign.award_index (pos 1)) id)) _ _ tt (
      if-IsTotal (leb_ℤ p.sign.signed_index p.sign.award_index) _ _ tt
        (award_known-IsTotal cfg now id _ p c)))

-- With settings under which no gift panics, and a valid sign-in, `sign_award` returns. Where the id is
-- that of the first reward that was not taken, its day was signed and the table has it, the player is
-- given the resources of its row, its day is noted and nothing else changes; any other request fails
-- and changes nothing.
pub sign_award-Outcome :
    (cfg : Config) (now id : ℤ) (p : Player)
    → IsConfig cfg
    → IsValid p.sign
    → Returns (sign_award cfg now id p) (AwardOutcome cfg now id p)
sign_award-Outcome cfg now id p c v =
    IsTotal-Returns (AwardOutcome cfg now id p) (sign_award cfg now id p)
      (sign_award-IsTotal cfg now id p c) (sign_award-IfReturns cfg now id p v)
