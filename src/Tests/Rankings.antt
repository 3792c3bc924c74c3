-- ===== src/Tests/Rankings.antt =====
-- A short ranking list of three places.
use mm_server.Prelude.{
  ℕ, zero, suc, ◌≡◌, ◌<◌, ◌≤◌, refl, if◌then◌else◌, ◌==◌, true, false, none, some, List, [], ◌∷◌,
  arith,
}
use mm_server.Prelude.Fault.{◌>>=◌, Returns}
use mm_server.Prelude.Int.{ℤ, pos, int_eq, eqb_ℤ_iff, ◌+ℤ◌}
use mm_server.Prelude.Int32.{add32, wrap32}
use mm_server.Prelude.Dict.{lookup, insert, erase}
use mm_server.Ranks.{
  ShortRankList, Request, init, serve_all, serve, update, delete, get_rank, get_by_rank, add_item,
  update_at, update_item, raise_item, rise, fall, shift_down, shift_up, move_to, put_at, item_at,
  insert_at, shown,
}
use mm_server.Ranks.Order.{IsRanking, view}
use mm_server.Ranks.Update.{Updated, update-Updated}
use mm_server.Ranks.Delete.{Removed, delete-Removed}
use mm_server.Ranks.Runs.{new_list-IsRanking, get_rank-get_by_rank}
use mm_server.Ranks.Items.{
  TestShortRankItem, test_item_ops, test_item-IsOrder, PlayerInt32RankItem, PlayerCatOuqiRankItem,
  less, greater, greater_ranks, cat_less, cat_greater, cat_greater_misses,
}

abbrev entry : ℤ → ℤ → TestShortRankItem
entry id val = record { id = id; val = val }

abbrev calls : List (Request TestShortRankItem ℤ)
calls =
    Request.ask_update (entry (pos 1) (pos 10)) false
    ∷ Request.ask_update (entry (pos 2) (pos 30)) false
    ∷ Request.ask_update (entry (pos 1) (pos 25)) true
    ∷ Request.ask_delete (pos 2)
    ∷ []

new_list-IsRanking_example :
    Returns (init test_item_ops 3 >>= serve_all test_item_ops calls) (IsRanking test_item_ops)
new_list-IsRanking_example =
    new_list-IsRanking test_item_ops test_item-IsOrder 3 calls (omega arith)

-- The first player has 10, then 35, and is the only one left.
ranked_first :
    (init test_item_ops 3 >>= serve_all test_item_ops calls >>= get_by_rank test_item_ops 1)
    ≡ some (some (pos 1, pos 35))
unfolding init serve_all serve update delete get_by_rank add_item update_at update_item raise_item
    rise fall shift_down shift_up move_to put_at item_at insert_at shown lookup insert erase add32
    wrap32 ◌+ℤ◌
ranked_first = refl

abbrev two : ShortRankList TestShortRankItem ℤ
two = record {
  items = λ i.
      if i == 0
      then some (entry (pos 2) (pos 30))
      else if i == 1
      then some (entry (pos 1) (pos 10))
      else none;
  max_num = 3;
  curr_num = 2;
  keys_map = (pos 2, 0) ∷ (pos 1, 1) ∷ [];
}

two_full :
    (i : ℕ)
    → 0 ≤ i
    → i < 2
    → (x : TestShortRankItem) × (two.items i ≡ some x)
      × (lookup (test_item_ops.get_key x) two.keys_map ≡ some i)
unfolding lookup
two_full zero low h = (entry (pos 2) (pos 30), refl, refl)
two_full (suc zero) low h = (entry (pos 1) (pos 10), refl, refl)
two_full (suc (suc i)) low h = absurd (omega arith)

two_back :
    (k : ℤ) (i : ℕ) (x : TestShortRankItem)
    → 0 ≤ i
    → i < 2
    → lookup k two.keys_map ≡ some i
    → two.items i ≡ some x
    → test_item_ops.get_key x ≡ k
unfolding lookup
two_back k zero x low h found here = ground (arith, eqb_ℤ_iff (pos 2) k, eqb_ℤ_iff (pos 1) k)
two_back k (suc zero) x low h found here = ground (arith, eqb_ℤ_iff (pos 2) k, eqb_ℤ_iff (pos 1) k)
two_back k (suc (suc i)) x low h found here = absurd (omega arith)

two-IsRanking : IsRanking test_item_ops two
unfolding lookup
two-IsRanking = record {
  room = omega arith;
  linked = record { full = two_full; back = two_back };
  inside = λ k i found. ground arith;
  sorted = λ i j x y lt h here there. ground arith;
}

-- The second item comes to the front.
update-Updated_example :
    Returns
      (update test_item_ops (entry (pos 1) (pos 25)) true two)
      (Updated test_item_ops (entry (pos 1) (pos 25)) true two (view test_item_ops (pos 1) two))
update-Updated_example =
    update-Updated test_item_ops test_item-IsOrder two (entry (pos 1) (pos 25)) true two-IsRanking

delete-Removed_example :
    Returns
      (delete test_item_ops (pos 2) two)
      (Removed test_item_ops two (pos 2) (view test_item_ops (pos 2) two))
delete-Removed_example = delete-Removed test_item_ops two (pos 2) two-IsRanking

get_rank-get_by_rank_example :
    ((k : ℤ) (x : TestShortRankItem)
      → view test_item_ops k two ≡ some x
      → get_by_rank test_item_ops (get_rank test_item_ops k two) two
        ≡ some (some (k, test_item_ops.get_value x)))
    × ((i : ℕ)
        → i < 2
        → Returns
            (get_by_rank test_item_ops (suc i) two)
            (λ o. Returns o (λ (k, v). get_rank test_item_ops k two ≡ suc i)))
get_rank-get_by_rank_example = get_rank-get_by_rank test_item_ops two two-IsRanking

abbrev first_cat : PlayerCatOuqiRankItem
first_cat = record { player_id = pos 5; cat_id = pos 2; ouqi = pos 70; update_time = pos 9 }

abbrev second_cat : PlayerCatOuqiRankItem
second_cat = record { player_id = pos 5; cat_id = pos 1; ouqi = pos 70; update_time = pos 9 }

cat_greater_misses_example :
    (cat_less first_cat second_cat ≡ true)
    × (cat_greater second_cat first_cat ≡ false)
    × (cat_greater first_cat second_cat ≡ false)
cat_greater_misses_example = cat_greater_misses first_cat second_cat refl refl refl refl

abbrev leader : PlayerInt32RankItem
leader = record { val = pos 9; update_time = pos 5; player_id = pos 1 }

abbrev tied : PlayerInt32RankItem
tied = record leader { player_id = pos 2 }

greater_ranks_example :
    (less tied leader ≡ greater leader tied)
    × (greater tied leader ≡ true → greater leader tied ≡ false)
    × (greater tied leader ≡ false → greater leader leader ≡ false → greater tied leader ≡ false)
greater_ranks_example = greater_ranks tied leader leader
