-- ===== src/Player/Draw/Hangs.antt =====
-- When drawing without repeats has no end (src/game_server/player_draw_card.go, `drop_item`).
use mm_server.Prelude.{
  ℕ, zero, suc, ◌+◌, ◌-◌, ◌≤◌, ◌<◌, ◌^◌, ◌≡◌, ◌≢◌, refl, sym, ap, subst, ◌∙◌, Bool-cases, inl, inr,
  none, some, List, [], ◌∷◌, ◌++◌, true, false, arith, ◌==◌,
}
use mathlib.Core.List.{append_assoc}
use mm_server.Prelude.Int.{ℤ, pos, ltb_ℤ, int_eq}
use mm_server.Prelude.Lists.{length, get_elem?, All}
use mm_server.Prelude.Dict.{contains, insert, size, lookup, contains-head}
use mm_server.Prelude.Weights.{total_of}
use mm_server.Player.Draw.{DropCardItem, DropCardTypeLib, Pick, use_drop, pick_loop, pick_drop}
use mm_server.Player.Draw.Table.{weight_of, IsWeighted, weighted_cases}
use mm_server.Player.Draw.Choice.{
  get_elem?_middle, length_snoc, next_cursor, IsReady, Used, cursor, round_picks, round_skips,
  round_misses,
}
use mm_server.Player.Draw.Ends.{short_of}
use mm_server.Player.Draw.Repeats.{get_elem?_inside, skips_to}

-- Every entry behind the first was given.
abbrev pub IsWorn : DropCardTypeLib → Used → Type 0
IsWorn lib used =
    (k : ℕ) (t : DropCardItem)
    → get_elem? lib.drop_items (suc k) ≡ some t
    → contains t.drop_type used ≡ true

module _ (lib : DropCardTypeLib) (used : Used) where
  worn_at :
      (i : ℕ) (t : DropCardItem)
      → 1 ≤ i
      → get_elem? lib.drop_items i ≡ some t
      → IsWorn lib used
      → contains t.drop_type used ≡ true
  worn_at zero t one found worn = absurd (omega arith)
  worn_at (suc i) t one found worn = worn i t found

  round_hangs :
      (fuel i : ℕ) (r : ℤ)
      → lib.total_count ≡ length lib.drop_items
      → size used ≢ lib.total_count
      → 1 < lib.total_count
      → IsWorn lib used
      → i + 1 < lib.total_count
      → pick_loop lib true fuel (cursor (suc i) r true used) ≡ Pick.out_of_fuel
  unfolding pick_loop
  round_hangs zero i r count short two worn inside = refl
  round_hangs (suc n) i r count short two worn inside =
      let (t, here) = get_elem?_inside lib.drop_items (suc i) (omega arith) in
      round_skips lib true n (cursor (suc i) r true used) t (omega arith) here (ground arith)
        (worn i t here)
      ∙ ap (pick_loop lib true n) (skips_to lib used (suc i) r true short)
      ∙ elim (Bool-cases (suc (suc i) == lib.total_count)) [
        | inl last ↦ rw last (round_hangs n 0 r count short two worn (omega arith))
        | inr inner ↦ rw inner (round_hangs n (suc i) r count short two worn (ground arith))
      ]

  falls_hangs :
      (fuel : ℕ) (before ts : List DropCardItem) (r : ℕ)
      → lib.total_count ≡ length lib.drop_items
      → size used ≢ lib.total_count
      → 1 < lib.total_count
      → IsWorn lib used
      → 1 ≤ length before
      → lib.drop_items ≡ before ++ ts
      → lib.total_count ≡ length before + length ts
      → All IsWeighted ts
      → total_of weight_of ts < 2 ^ 31
      → r < total_of weight_of ts
      → pick_loop lib true fuel (cursor (length before) (pos r) false used) ≡ Pick.out_of_fuel
  unfolding total_of pick_loop
  falls_hangs fuel before [] r count short two worn one split sum all small h = absurd (omega arith)
  falls_hangs zero before (t ∷ ts) r count short two worn one split sum all small h = refl
  falls_hangs (suc n) before (t ∷ ts) r count short two worn one split sum all small h =
      let c = cursor (length before) (pos r) false used in
      let found : get_elem? lib.drop_items (length before) ≡ some t =
        subst (λ xs. get_elem? xs (length before) ≡ some t) (sym split)
          (get_elem?_middle before t ts) in
      let old : contains t.drop_type used ≡ true = worn_at (length before) t one found worn in
      elim (Bool-cases (ltb_ℤ (pos r) t.weight)) [
        | inl hit ↦
            round_skips lib true n c t (omega arith) found (ground arith) (ground arith)
            ∙ ap (pick_loop lib true n) (skips_to lib used (length before) (pos r) false short)
            ∙ elim (Bool-cases (suc (length before) == lib.total_count)) [
              | inl last ↦ rw last (round_hangs n 0 (pos r) count short two worn (omega arith))
              | inr inner ↦
                  rw inner
                    (round_hangs n (length before) (pos r) count short two worn (ground arith))
            ]
        | inr miss ↦
            let past : weight_of t ≤ r = ground arith in
            round_misses lib true n c t (omega arith) found (ground arith)
            ∙ next_cursor lib true used n before t r all.0 past (omega arith)
            ∙ falls_hangs n (before ++ t ∷ []) ts (r - weight_of t) count short two worn
                (omega (arith, length_snoc before t))
                (split ∙ sym (append_assoc before (t ∷ []) ts))
                (omega (arith, length_snoc before t)) all.1 (omega arith) (omega arith)
      ]

  first_hangs :
      (fuel r : ℕ) (t u : DropCardItem) (ts : List DropCardItem)
      → lib.total_count ≡ length lib.drop_items
      → size used ≢ lib.total_count
      → lib.drop_items ≡ t ∷ u ∷ ts
      → All IsWeighted (t ∷ u ∷ ts)
      → total_of weight_of (t ∷ u ∷ ts) < 2 ^ 31
      → weight_of t ≤ r
      → r < total_of weight_of (t ∷ u ∷ ts)
      → IsWorn lib used
      → pick_loop lib true fuel (cursor 0 (pos r) false used) ≡ Pick.out_of_fuel
  unfolding pick_loop total_of
  first_hangs zero r t u ts count short split all small past h worn = refl
  first_hangs (suc n) r t u ts count short split all small past h worn =
      let size_of : lib.total_count ≡ suc (suc (length ts)) = count ∙ ap length split in
      let here : get_elem? lib.drop_items 0 ≡ some t =
        ap (λ (xs : List DropCardItem). get_elem? xs 0) split in
      let light = weighted_cases t all.0 in
      round_misses lib true n (cursor 0 (pos r) false used) t (omega (arith, size_of)) here
        (ground arith)
      ∙ next_cursor lib true used n [] t r all.0 past (omega arith)
      ∙ falls_hangs n (t ∷ []) (u ∷ ts) (r - weight_of t) count short (omega (arith, size_of)) worn
          (omega arith) split (omega (arith, size_of)) all.1 (omega arith) (omega arith)

-- Where the player was given every entry behind the first, but the number of types given is not the
-- library's size, a number that falls behind the first entry is never done with: in no number of
-- rounds does the loop end.
pub pick_drop_hangs :
    (lib : DropCardTypeLib) (used : Used) (t u : DropCardItem) (ts : List DropCardItem) (fuel r : ℕ)
    → IsReady lib
    → lib.drop_items ≡ t ∷ u ∷ ts
    → total_of weight_of lib.drop_items < 2 ^ 31
    → weight_of t ≤ r
    → r < total_of weight_of lib.drop_items
    → size used ≢ lib.total_count
    → IsWorn lib used
    → pick_drop lib true fuel (pos r) used ≡ Pick.out_of_fuel
unfolding pick_drop
pick_drop_hangs lib used t u ts fuel r ready split small past h short worn =
    rw (short_of used lib short) (
      first_hangs lib used fuel r t u ts (ready.count) short split
        (subst (All IsWeighted) split (ready.weighted))
        (subst (λ xs. total_of weight_of xs < 2 ^ 31) split small) past
        (subst (λ xs. r < total_of weight_of xs) split h) worn)

second_picked :
    (lib : DropCardTypeLib) (t u : DropCardItem) (r : ℕ)
    → lib.total_count ≡ 2
    → lib.drop_items ≡ t ∷ u ∷ []
    → All IsWeighted (t ∷ u ∷ [])
    → total_of weight_of (t ∷ u ∷ []) < 2 ^ 31
    → weight_of t ≤ r
    → r < total_of weight_of (t ∷ u ∷ [])
    → pick_drop lib true 2 (pos r) [] ≡ Pick.picked u ((u.drop_type, u.weight) ∷ [])
unfolding pick_drop size total_of use_drop insert contains lookup
second_picked lib t u r two split all small past h =
    let entry = λ (i : ℕ). ap (λ (xs : List DropCardItem). get_elem? xs i) split in
    let light = weighted_cases t all.0 in
    let heavy = weighted_cases u all.1.0 in
    rw (short_of [] lib (λ same. absurd (omega arith))) (
      round_misses lib true 1 (cursor 0 (pos r) false []) t (omega arith) (entry 0) (ground arith)
      ∙ next_cursor lib true [] 1 [] t r all.0 past (omega arith)
      ∙ round_picks lib true 0 (cursor 1 (pos (r - weight_of t)) false []) u (omega arith) (entry 1)
          (ground arith) refl)

used_up_behind :
    (lib : DropCardTypeLib) (t u : DropCardItem)
    → lib.drop_items ≡ t ∷ u ∷ []
    → IsWorn lib ((u.drop_type, u.weight) ∷ [])
used_up_behind lib t u split zero v found =
    let same : some v ≡ some u = sym found ∙ ap (λ xs. get_elem? xs 1) split in
    contains-head v.drop_type u.drop_type u.weight [] (cc)
used_up_behind lib t u split (suc k) v found =
    let past : none ≡ some v =
      sym (ap (λ (xs : List DropCardItem). get_elem? xs (suc (suc k))) split) ∙ found in
    absurd (ground arith)

-- A library of two entries of different types: a first draw whose number falls to the second entry
-- gives it, and a second draw whose number falls there again is never done with.
pub second_draw_hangs :
    (lib : DropCardTypeLib) (t u : DropCardItem) (fuel first second : ℕ)
    → IsReady lib
    → lib.drop_items ≡ t ∷ u ∷ []
    → total_of weight_of lib.drop_items < 2 ^ 31
    → weight_of t ≤ first
    → first < total_of weight_of lib.drop_items
    → weight_of t ≤ second
    → second < total_of weight_of lib.drop_items
    → (pick_drop lib true 2 (pos first) [] ≡ Pick.picked u ((u.drop_type, u.weight) ∷ []))
      × (pick_drop lib true fuel (pos second) ((u.drop_type, u.weight) ∷ []) ≡ Pick.out_of_fuel)
unfolding size
second_draw_hangs lib t u fuel first second ready split small p q p' q' =
    let two : lib.total_count ≡ 2 = ready.count ∙ ap length split in
    (
      second_picked lib t u first two split (subst (All IsWeighted) split (ready.weighted))
          (subst (λ xs. total_of weight_of xs < 2 ^ 31) split small) p
          (subst (λ xs. first < total_of weight_of xs) split q),
      pick_drop_hangs lib _ t u [] fuel second ready split small p' q'
          (λ same. absurd (omega arith)) (used_up_behind lib t u split),
    )
