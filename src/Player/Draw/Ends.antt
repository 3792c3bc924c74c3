-- ===== src/Player/Draw/Ends.antt =====
-- When drawing without repeats comes to an end (src/game_server/player_draw_card.go, `drop_item`).
use mm_server.Prelude.{
  ℕ, zero, suc, ◌+◌, ◌-◌, ◌*◌, ◌≤◌, ◌<◌, ◌^◌, ◌≡◌, ◌≢◌, refl, sym, ap, subst, ◌∙◌, Bool-cases, inl,
  inr, some, List, [], ◌∷◌, true, false, arith, ◌==◌,
}
use mm_server.Prelude.Int.{pos, ltb_ℤ, int_eq}
use mm_server.Prelude.Lists.{length, get_elem?}
use mm_server.Prelude.Dict.{contains, size}
use mm_server.Prelude.Weights.{total_of}
use mm_server.Player.Draw.{DropCardItem, DropCardTypeLib, use_drop, pick_loop, pick_drop}
use mm_server.Player.Draw.Table.{weight_of}
use mm_server.Player.Draw.Choice.{IsReady, Used, cursor, round_picks, round_skips}
use mm_server.Player.Draw.Repeats.{PicksNew, Hit, hits, after, skips_to, wrap-PicksNew}

module _ (lib : DropCardTypeLib) (used : Used) where
  -- From the round at which the number falls to an entry.
  hit-PicksNew :
      (n b l j : ℕ) (t u : DropCardItem)
      → lib.total_count ≡ length lib.drop_items
      → size used ≢ lib.total_count
      → 1 ≤ j
      → b < lib.total_count
      → j < lib.total_count
      → get_elem? lib.drop_items b ≡ some t
      → get_elem? lib.drop_items j ≡ some u
      → contains u.drop_type used ≡ false
      → ltb_ℤ (pos l) t.weight ≡ true
      → lib.total_count + lib.total_count ≤ n + 1
      → PicksNew lib used (pick_loop lib true (suc n) (cursor b (pos l) false used))
  unfolding use_drop
  hit-PicksNew n b l j t u count short one within inside here found free falls enough =
      let c = cursor b (pos l) false used in
      elim (Bool-cases (contains t.drop_type used)) [
        | inr new ↦
            (t, b, here, new, round_picks lib true n c t within here (ground arith) (ground arith))
        | inl old ↦
            subst (PicksNew lib used)
              (sym (
                round_skips lib true n c t within here (ground arith) (ground arith)
                ∙ ap (pick_loop lib true n) (skips_to lib used b (pos l) false short)))
              (wrap-PicksNew lib used n (after lib used b) j (pos l) u count short one
                (ground arith) inside found free (ground arith))
      ]

  placed-PicksNew :
      (fuel r j : ℕ) (u : DropCardItem)
      → lib.total_count ≡ length lib.drop_items
      → size used ≢ lib.total_count
      → 1 ≤ j
      → j < lib.total_count
      → get_elem? lib.drop_items j ≡ some u
      → contains u.drop_type used ≡ false
      → 3 * lib.total_count ≤ fuel
      → Hit lib used fuel 0 r
      → PicksNew lib used (pick_loop lib true fuel (cursor 0 (pos r) false used))
  placed-PicksNew fuel r j u count short one inside found free enough h =
      subst (PicksNew lib used) (sym (h.path)) (
        subst
          (λ n. PicksNew lib used (pick_loop lib true n (cursor h.place (pos h.left) false used)))
          (omega (arith, h.spent, h.inside))
          (hit-PicksNew (h.rounds - 1) h.place h.left j h.entry u count short one (h.inside) inside
            (h.found) found free (h.falls) (omega (arith, h.spent, h.inside))))

pub short_of :
    (used : Used) (lib : DropCardTypeLib)
    → size used ≢ lib.total_count
    → (size used == lib.total_count) ≡ false
short_of used lib short = ground arith

found_inside :
    (xs : List DropCardItem) (i : ℕ) (x : DropCardItem) → get_elem? xs i ≡ some x → i < length xs
found_inside [] i x h = absurd (ground arith)
found_inside (y ∷ xs) zero x h = omega arith
found_inside (y ∷ xs) (suc i) x h = omega (arith, found_inside xs i x h)

-- Of a library that is in order, whose weights have a sum that fits an int32, with a random number
-- below this sum: where the player was not given as many entries as the library has, and an entry
-- behind the first is not among those given, the loop picks an entry that was not given, within three
-- times the library's size.
pub pick_drop-PicksNew :
    (lib : DropCardTypeLib) (used : Used) (fuel r j : ℕ) (u : DropCardItem)
    → IsReady lib
    → total_of weight_of lib.drop_items < 2 ^ 31
    → r < total_of weight_of lib.drop_items
    → size used ≢ lib.total_count
    → 1 ≤ j
    → get_elem? lib.drop_items j ≡ some u
    → contains u.drop_type used ≡ false
    → 3 * lib.total_count ≤ fuel
    → PicksNew lib used (pick_drop lib true fuel (pos r) used)
unfolding pick_drop
pick_drop-PicksNew lib used fuel r j u ready small h short one found free enough =
    rw (short_of used lib short) (
      placed-PicksNew lib used fuel r j u (ready.count) short one
        (omega (arith, ready.count, found_inside lib.drop_items j u found)) found free enough
        (hits lib used fuel [] lib.drop_items r refl (omega (arith, ready.count)) (ready.weighted)
          small h (omega (arith, ready.count))))
