-- ===== src/Player/Draw/Choice.antt =====
-- Which entry of a library `drop_item` picks (src/game_server/player_draw_card.go).
use mm_server.Prelude.{
  ℕ, zero, suc, ◌+◌, ◌-◌, ◌≤◌, ◌<◌, ◌^◌, ◌≡◌, refl, sym, ap, ap₂, subst, ◌∙◌, Bool, Bool-cases, inl,
  inr, some, List, [], ◌∷◌, ◌++◌, true, false, arith, ◌&&◌, ◌||◌,
}
use mathlib.Core.List.{append_assoc}
use mm_server.Prelude.Int.{ℤ, pos, ltb_ℤ, int_eq}
use mm_server.Prelude.Int32.{sub32, sub32_pos}
use mm_server.Prelude.Lists.{length, get_elem?, All, length-append}
use mm_server.Prelude.Dict.{Dict, contains}
use mm_server.Prelude.Weights.{total_of, FallsTo, later-FallsTo}
use mm_server.Player.Draw.{
  DropCardItem, DropCardTypeLib, Cursor, Pick, turn, visit, skip_same, use_drop, pick_loop,
  pick_drop,
}
use mm_server.Player.Draw.Table.{weight_of, IsWeighted, weighted_cases}

-- What the loader makes sure of, for one library.
pub record IsReady (lib : DropCardTypeLib) : Type 0 where
  pub count : lib.total_count ≡ length lib.drop_items
  pub weighted : All IsWeighted lib.drop_items

abbrev pub Used : Type 0
Used = Dict ℤ ℤ

abbrev pub cursor : ℕ → ℤ → Bool → Used → Cursor
cursor i r same used = record { i = i; rand_val = r; get_same = same; used_drop_ids = used }

pub get_elem?_middle :
    (xs : List DropCardItem) (t : DropCardItem) (ys : List DropCardItem)
    → get_elem? (xs ++ t ∷ ys) (length xs) ≡ some t
get_elem?_middle [] t ys = refl
get_elem?_middle (x ∷ xs) t ys = get_elem?_middle xs t ys

pub length_snoc :
    (xs : List DropCardItem) (t : DropCardItem) → length (xs ++ t ∷ []) ≡ suc (length xs)
length_snoc xs t = omega (arith, length-append {0} xs (t ∷ []))

module _ (lib : DropCardTypeLib) where
  -- The three ways that a round at an entry goes.
  module _ (check_same : Bool) (n : ℕ) (c : Cursor) (t : DropCardItem) where
    pub round_picks :
        c.i < lib.total_count
        → get_elem? lib.drop_items c.i ≡ some t
        → (ltb_ℤ c.rand_val t.weight || c.get_same) ≡ true
        → (check_same && contains t.drop_type c.used_drop_ids) ≡ false
        → pick_loop lib check_same (suc n) c ≡ Pick.picked t (use_drop check_same t c.used_drop_ids)
    unfolding pick_loop turn visit
    round_picks inside found hit free = ground arith

    pub round_skips :
        c.i < lib.total_count
        → get_elem? lib.drop_items c.i ≡ some t
        → (ltb_ℤ c.rand_val t.weight || c.get_same) ≡ true
        → (check_same && contains t.drop_type c.used_drop_ids) ≡ true
        → pick_loop lib check_same (suc n) c ≡ pick_loop lib check_same n (skip_same lib c)
    unfolding pick_loop turn visit
    round_skips inside found hit taken = ground arith

    pub round_misses :
        c.i < lib.total_count
        → get_elem? lib.drop_items c.i ≡ some t
        → (ltb_ℤ c.rand_val t.weight || c.get_same) ≡ false
        → pick_loop lib check_same (suc n) c
          ≡ pick_loop lib check_same n
              (record c { i = suc c.i; rand_val = sub32 c.rand_val t.weight })
    unfolding pick_loop turn visit
    round_misses inside found miss = ground arith

  -- The cursor past an entry that the number does not fall to.
  pub next_cursor :
      (check_same : Bool) (used : Used) (n : ℕ) (before : List DropCardItem) (t : DropCardItem)
      (r : ℕ)
      → IsWeighted t
      → weight_of t ≤ r
      → r < 2 ^ 31
      → pick_loop lib check_same n
          (cursor (suc (length before)) (sub32 (pos r) t.weight) false used)
        ≡ pick_loop lib check_same n
            (cursor (length (before ++ t ∷ [])) (pos (r - weight_of t)) false used)
  next_cursor check_same used n before t r h past small =
      ap₂ (λ i k. pick_loop lib check_same n (cursor i k false used)) (sym (length_snoc before t))
        (ap (sub32 (pos r)) (weighted_cases t h) ∙ sub32_pos r (weight_of t) past small)

  -- Without the test for what was given before, the entry that the number falls to is picked.
  loop-FallsTo :
      (fuel : ℕ) (before ts : List DropCardItem) (r : ℕ) (used : Used)
      → lib.drop_items ≡ before ++ ts
      → lib.total_count ≡ length before + length ts
      → All IsWeighted ts
      → total_of weight_of ts < 2 ^ 31
      → r < total_of weight_of ts
      → length ts ≤ fuel
      → (t : DropCardItem) × (pick_loop lib false fuel (cursor (length before) (pos r) false used)
          ≡ Pick.picked t used)
        × FallsTo weight_of ts r t
  unfolding total_of use_drop
  loop-FallsTo fuel before [] r used split count all small h enough = absurd (omega arith)
  loop-FallsTo zero before (t ∷ ts) r used split count all small h enough = absurd (omega arith)
  loop-FallsTo (suc n) before (t ∷ ts) r used split count all small h enough =
      let c = cursor (length before) (pos r) false used in
      let found : get_elem? lib.drop_items (length before) ≡ some t =
        subst (λ xs. get_elem? xs (length before) ≡ some t) (sym split)
          (get_elem?_middle before t ts) in
      elim (Bool-cases (ltb_ℤ (pos r) t.weight)) [
        | inl hit ↦ (
          t,
          round_picks false n c t (omega arith) found (ground arith) refl,
          record {
            before = [];
            behind = ts;
            split = refl;
            from = omega arith;
            below = ground arith;
          },
        )
        | inr miss ↦
            let past : weight_of t ≤ r = ground arith in
            let (u, picks, falls) =
              loop-FallsTo n (before ++ t ∷ []) ts (r - weight_of t) used
                (split ∙ sym (append_assoc before (t ∷ []) ts))
                (omega (arith, length_snoc before t)) all.1 (omega arith) (omega arith)
                (omega arith) in
            (
              u,
              round_misses false n c t (omega arith) found (ground arith)
                  ∙ next_cursor false used n before t r all.0 past (omega arith)
                  ∙ picks,
              later-FallsTo weight_of t u ts r past falls,
            )
      ]

  -- Of a library that is in order, whose weights have a sum that fits an int32, and where no entry is
  -- tested for having been given before: every random number below the sum picks the entry in whose
  -- part of the sum it lies, in as many rounds as the library has entries.
  pub pick_drop-FallsTo :
      (fuel r : ℕ) (used : Used)
      → IsReady lib
      → total_of weight_of lib.drop_items < 2 ^ 31
      → r < total_of weight_of lib.drop_items
      → lib.total_count ≤ fuel
      → (t : DropCardItem) × (pick_drop lib false fuel (pos r) used ≡ Pick.picked t used)
        × FallsTo weight_of lib.drop_items r t
  unfolding pick_drop
  pick_drop-FallsTo fuel r used ready small h enough =
      loop-FallsTo fuel [] lib.drop_items r used refl (omega (arith, ready.count)) (ready.weighted)
        small h (omega (arith, ready.count))
