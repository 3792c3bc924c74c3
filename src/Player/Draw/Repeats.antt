-- ===== src/Player/Draw/Repeats.antt =====
-- Drawing without repeats (src/game_server/player_draw_card.go, `drop_item` with `check_same`): the
-- loop goes on from an entry that was given before, and round the end of the library.
use mm_server.Prelude.{
  ℕ, zero, suc, ◌+◌, ◌-◌, ◌≤◌, ◌<◌, ◌^◌, ◌≡◌, ◌≢◌, refl, sym, ap, subst, ◌∙◌, Bool, Bool-cases, inl,
  inr, some, List, [], ◌∷◌, ◌++◌, true, false, arith, ◌==◌, if◌then◌else◌,
}
use mathlib.Core.List.{append_assoc}
use mm_server.Prelude.Int.{ℤ, pos, ltb_ℤ, int_eq}
use mm_server.Prelude.Lists.{length, get_elem?, All}
use mm_server.Prelude.Dict.{contains, insert, size}
use mm_server.Prelude.Weights.{total_of}
use mm_server.Player.Draw.{DropCardItem, DropCardTypeLib, Pick, skip_same, use_drop, pick_loop}
use mm_server.Player.Draw.Table.{weight_of, IsWeighted}
use mm_server.Player.Draw.Choice.{
  get_elem?_middle, length_snoc, next_cursor, Used, cursor, round_picks, round_skips, round_misses,
}

-- The loop ends with an entry of the library that was not given before, and it is noted as given.
abbrev pub PicksNew : DropCardTypeLib → Used → Pick → Type 0
PicksNew lib used p =
    (t : DropCardItem) × (k : ℕ) × (get_elem? lib.drop_items k ≡ some t)
    × (contains t.drop_type used ≡ false)
    × (p ≡ Pick.picked t (insert t.drop_type t.weight used))

pub get_elem?_inside :
    (xs : List DropCardItem) (i : ℕ)
    → i < length xs
    → (x : DropCardItem) × (get_elem? xs i ≡ some x)
get_elem?_inside [] i h = absurd (omega arith)
get_elem?_inside (x ∷ xs) zero h = (x, refl)
get_elem?_inside (x ∷ xs) (suc i) h = get_elem?_inside xs i (omega arith)

module _ (lib : DropCardTypeLib) (used : Used) where
  -- The entry that the loop goes on to from one that was given before.
  abbrev pub after : ℕ → ℕ
  after i = suc (if suc i == lib.total_count then 0 else i)

  pub skips_to :
      (i : ℕ) (r : ℤ) (same : Bool)
      → size used ≢ lib.total_count
      → skip_same lib (cursor i r same used) ≡ cursor (after i) r true used
  unfolding skip_same
  skips_to i r same short = ground arith

  new_of_same :
      (i j : ℕ) (t u : DropCardItem)
      → i ≡ j
      → get_elem? lib.drop_items i ≡ some t
      → get_elem? lib.drop_items j ≡ some u
      → contains u.drop_type used ≡ false
      → contains t.drop_type used ≡ true
      → ⊥
  new_of_same i j t u same here found free old = ground arith

  -- Past an entry that was given before, the loop is at one that the player does not have: it takes
  -- the first such entry that it comes to.
  seek-PicksNew :
      (fuel i j : ℕ) (r : ℤ) (u : DropCardItem)
      → lib.total_count ≡ length lib.drop_items
      → size used ≢ lib.total_count
      → i ≤ j
      → j < lib.total_count
      → get_elem? lib.drop_items j ≡ some u
      → contains u.drop_type used ≡ false
      → j < fuel + i
      → PicksNew lib used (pick_loop lib true fuel (cursor i r true used))
  unfolding use_drop
  seek-PicksNew zero i j r u count short le inside found free enough = absurd (omega arith)
  seek-PicksNew (suc n) i j r u count short le inside found free enough =
      let (t, here) = get_elem?_inside lib.drop_items i (omega arith) in
      let c = cursor i r true used in
      elim (Bool-cases (contains t.drop_type used)) [
        | inr new ↦ (
          t,
          i,
          here,
          new,
          round_picks lib true n c t (omega arith) here (ground arith) (ground arith),
        )
        | inl old ↦
            let apart : i ≢ j = λ same. absurd (new_of_same i j t u same here found free old) in
            let on : after i ≡ suc i = ground arith in
            let path : pick_loop lib true (suc n) c
                ≡ pick_loop lib true n (cursor (suc i) r true used) =
              round_skips lib true n c t (omega arith) here (ground arith) (ground arith)
              ∙ ap (pick_loop lib true n) (skips_to i r true short)
              ∙ ap (λ k. pick_loop lib true n (cursor k r true used)) on in
            subst (PicksNew lib used) (sym path) (
              seek-PicksNew n (suc i) j r u count short (omega arith) inside found free
                (omega arith))
      ]

  -- The same from an entry behind the last one that the player does not have: round the end.
  pub wrap-PicksNew :
      (fuel i j : ℕ) (r : ℤ) (u : DropCardItem)
      → lib.total_count ≡ length lib.drop_items
      → size used ≢ lib.total_count
      → 1 ≤ j
      → i < lib.total_count
      → j < lib.total_count
      → get_elem? lib.drop_items j ≡ some u
      → contains u.drop_type used ≡ false
      → lib.total_count + lib.total_count ≤ fuel + i
      → PicksNew lib used (pick_loop lib true fuel (cursor i r true used))
  unfolding use_drop
  wrap-PicksNew zero i j r u count short one within inside found free enough = absurd (omega arith)
  wrap-PicksNew (suc n) i j r u count short one within inside found free enough =
      let (t, here) = get_elem?_inside lib.drop_items i (omega arith) in
      let c = cursor i r true used in
      elim (Bool-cases (contains t.drop_type used)) [
        | inr new ↦ (
          t,
          i,
          here,
          new,
          round_picks lib true n c t (omega arith) here (ground arith) (ground arith),
        )
        | inl old ↦
            let path : pick_loop lib true (suc n) c
                ≡ pick_loop lib true n (cursor (after i) r true used) =
              round_skips lib true n c t (omega arith) here (ground arith) (ground arith)
              ∙ ap (pick_loop lib true n) (skips_to i r true short) in
            subst (PicksNew lib used) (sym path) (elim (Bool-cases (suc i == lib.total_count)) [
              | inl last ↦
                  rw last (seek-PicksNew n 1 j r u count short one inside found free (ground arith))
              | inr inner ↦ rw inner (
                  wrap-PicksNew n (suc i) j r u count short one (ground arith) inside found free
                    (omega arith))
            ])
      ]

-- The round at which the number falls to an entry: where the loop stands then, and in how many rounds
-- it must end.
pub record Hit (lib : DropCardTypeLib) (used : Used) (fuel i r : ℕ) : Type 0 where
  pub rounds : ℕ
  pub place : ℕ
  pub left : ℕ
  pub entry : DropCardItem
  pub behind : i ≤ place
  pub inside : place < lib.total_count
  pub spent : rounds + place ≡ fuel + i
  pub found : get_elem? lib.drop_items place ≡ some entry
  pub falls : ltb_ℤ (pos left) entry.weight ≡ true
  pub path :
      pick_loop lib true fuel (cursor i (pos r) false used)
      ≡ pick_loop lib true rounds (cursor place (pos left) false used)

module _ (lib : DropCardTypeLib) (used : Used) where
  pub hits :
      (fuel : ℕ) (before ts : List DropCardItem) (r : ℕ)
      → lib.drop_items ≡ before ++ ts
      → lib.total_count ≡ length before + length ts
      → All IsWeighted ts
      → total_of weight_of ts < 2 ^ 31
      → r < total_of weight_of ts
      → length ts ≤ fuel
      → Hit lib used fuel (length before) r
  unfolding total_of
  hits fuel before [] r split count all small h enough = absurd (omega arith)
  hits zero before (t ∷ ts) r split count all small h enough = absurd (omega arith)
  hits (suc n) before (t ∷ ts) r split count all small h enough =
      let c = cursor (length before) (pos r) false used in
      let found : get_elem? lib.drop_items (length before) ≡ some t =
        subst (λ xs. get_elem? xs (length before) ≡ some t) (sym split)
          (get_elem?_middle before t ts) in
      elim (Bool-cases (ltb_ℤ (pos r) t.weight)) [
        | inl hit ↦ record {
          rounds = suc n;
          place = length before;
          left = r;
          entry = t;
          behind = omega arith;
          inside = omega arith;
          spent = refl;
          found = found;
          falls = hit;
          path = refl;
        }
        | inr miss ↦
            let past : weight_of t ≤ r = ground arith in
            let grown = length_snoc before t in
            let later =
              hits n (before ++ t ∷ []) ts (r - weight_of t)
                (split ∙ sym (append_assoc before (t ∷ []) ts)) (omega arith) all.1 (omega arith)
                (omega arith) (omega arith) in
            record {
              rounds = later.rounds;
              place = later.place;
              left = later.left;
              entry = later.entry;
              behind = omega (arith, later.behind);
              inside = later.inside;
              spent = omega (arith, later.spent);
              found = later.found;
              falls = later.falls;
              path =
                  round_misses lib true n c t (omega arith) found (ground arith)
                  ∙ next_cursor lib true used n before t r all.0 past (omega arith)
                  ∙ later.path;
            }
      ]
