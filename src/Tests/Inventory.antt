-- ===== src/Tests/Inventory.antt =====
-- Items and sales at concrete players.
use mm_server.Prelude.{◌≡◌, refl, arith, ◌≢◌}
use mm_server.Prelude.Int.{ℤ, pos, negsuc, ◌+ℤ◌, ◌*ℤ◌, int_eq}
use mm_server.Prelude.Dict.{lookup}
use mm_server.Player.State.{Value, value}
use mm_server.Player.Items.{chk_add_item_by_num, chk_remove_item, clamp_to}
use mm_server.Player.Items.Counts.{
  held, IsRemoval, HasPositiveCounts, chk_add_item_by_num-held, chk_remove_item-held,
}
use mm_server.Player.Resources.{sell_item}
use mm_server.Player.Resources.Sales.{Sold, sell_item-Sold, sell_item_negative}
use mm_server.Tests.Data.{config, player, fish, five_fish}

chk_add_item_by_num-held_example :
    let (items, count) =
      chk_add_item_by_num config.item_table (pos 0) (pos 100) (pos 7) player.items in
    (held (pos 100) items ≡ clamp_to (pos 99) (held (pos 100) player.items +ℤ pos 7))
    × (count ≡ held (pos 100) items)
    × ((j : ℤ) → pos 100 ≢ j → lookup j items ≡ lookup j player.items)
unfolding lookup ◌+ℤ◌
chk_add_item_by_num-held_example =
    chk_add_item_by_num-held config.item_table fish (pos 100) refl (pos 0) (pos 7) player.items refl
      (ground arith) (ground arith) (ground arith)

chk_remove_item-held_example :
    IsRemoval
      (pos 100)
      (pos 7)
      player.items
      (lookup (pos 100) player.items)
      (chk_remove_item config.item_table (pos 100) (pos 7) player.items)
unfolding lookup
chk_remove_item-held_example =
    chk_remove_item-held config.item_table fish (pos 100) refl (pos 7) player.items (ground arith)
      (ground arith)

player-HasPositiveCounts : HasPositiveCounts player.items
unfolding lookup
player-HasPositiveCounts k d found = ground arith

sell_item-Sold_example :
    Sold config fish (pos 100) (pos 3) player (sell_item config (pos 0) (pos 100) (pos 3) player)
unfolding lookup ◌*ℤ◌
sell_item-Sold_example =
    sell_item-Sold config fish (pos 0) (pos 100) (pos 3) five_fish player refl refl (ground arith)
      (ground arith)

-- Minus ten fish are sold.
sell_item_negative_example :
    let (q, r) = sell_item config (pos 0) (pos 100) (negsuc 9) player in
    (r ≡ pos 1)
    × (value Value.gold q ≡ value Value.gold player)
    × (held (pos 100) q.items ≡ pos 5 +ℤ pos 10)
unfolding lookup ◌*ℤ◌ ◌+ℤ◌
sell_item_negative_example =
    sell_item_negative config fish (pos 0) (pos 100) 9 five_fish player refl refl (ground arith)
      (ground arith) (ground arith) (ground arith) (ground arith)
