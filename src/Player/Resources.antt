-- ===== src/Player/Resources.antt =====
-- Resources by their id, a counter or an item (src/game_server/player_item.go): the dispatch of
-- `GetItemResourceValue`, `AddItemResource` and `RemoveItemResource`, lists of resources, and the
-- requests to use and to sell an item.
pub mod Payment
pub mod Sales
pub mod Total
use mm_server.Prelude.{
  Bool, true, false, Option, none, some, List, [], ◌∷◌, if◌then◌else◌, ltb, ◌&&◌,
}
use mm_server.Prelude.Fault.{◌>>=◌}
use mm_server.Prelude.Int.{ℤ, pos, negsuc, ltb_ℤ, leb_ℤ, eqb_ℤ, int_eq}
use mm_server.Prelude.Int32.{mul32}
use mm_server.Prelude.Dict.{lookup}
use mm_server.Player.State.{
  Value, Player, Config, Effect, ItemCfg, ItemInfo, value, emit, get_time_item_remain_seconds,
}
use mm_server.Player.Values.{
  Call, add_gold, sub_gold, add_diamond, sub_diamond, add_cat_food, sub_cat_food, add_charm_medal,
  sub_charm_medal, add_charm_val, sub_charm_val, add_friend_points, sub_friend_points,
  add_soul_stone, sub_soul_stone, add_spirit, sub_spirit, calc_spirit,
}
use mm_server.Player.Level.{add_exp}
use mm_server.Player.Items.{
  ResourceId, resource_id, get_item, add_item, remove_item, send_items_update,
}

-- `GetItemResourceValue`. The spirit is computed first, so reading it can change the player.
unfoldable pub resource_value : ResourceId → Config → ℤ → ℤ → Player → Option Call
resource_value ResourceId.rmb cfg now id p = some (p, pos 0)
resource_value ResourceId.gold cfg now id p = some (p, value Value.gold p)
resource_value ResourceId.diamond cfg now id p = some (p, value Value.diamond p)
resource_value ResourceId.cat_food cfg now id p = some (p, value Value.cat_food p)
resource_value ResourceId.spirit cfg now id p = do
  (q, v, _) ← calc_spirit cfg now (pos 0) p
  some (q, v)
resource_value ResourceId.friend_point cfg now id p = some (p, value Value.friend_points p)
resource_value ResourceId.charm_value cfg now id p = some (p, value Value.charm_val p)
resource_value ResourceId.exp_value cfg now id p = some (p, value Value.exp p)
resource_value ResourceId.soul_stone cfg now id p = some (p, value Value.soul_stone p)
resource_value ResourceId.charm_medal cfg now id p = some (p, value Value.charm_medal p)
resource_value ResourceId.item cfg now id p = some (p, get_item id p)

unfoldable pub get_item_resource_value : Config → ℤ → ℤ → Player → Option Call
unfolding resource_value
get_item_resource_value cfg now id p = resource_value (resource_id id) cfg now id p

-- 1, or -1 for the nil of an unknown item.
abbrev pub item_result : Player × Option ItemInfo → Call
item_result (q, none) = (q, negsuc 0)
item_result (q, some _) = (q, pos 1)

unfoldable pub add_resource_of : ResourceId → Config → ℤ → ℤ → ℤ → Player → Option Call
add_resource_of ResourceId.rmb cfg now id num p = some (p, pos 1)
add_resource_of ResourceId.gold cfg now id num p = some (add_gold num p)
add_resource_of ResourceId.diamond cfg now id num p = some (add_diamond num p)
add_resource_of ResourceId.cat_food cfg now id num p = some (add_cat_food num p)
add_resource_of ResourceId.spirit cfg now id num p = add_spirit cfg now num p
add_resource_of ResourceId.friend_point cfg now id num p = some (add_friend_points num p)
add_resource_of ResourceId.charm_value cfg now id num p = some (add_charm_val num p)
add_resource_of ResourceId.exp_value cfg now id num p = do
  (q, _, _) ← add_exp cfg.levels num p
  some (q, pos 1)
add_resource_of ResourceId.soul_stone cfg now id num p = some (add_soul_stone num p)
add_resource_of ResourceId.charm_medal cfg now id num p = some (add_charm_medal num p)
add_resource_of ResourceId.item cfg now id num p =
    some (item_result (add_item cfg now id num true p))

-- `AddItemResource`
unfoldable pub add_item_resource : Config → ℤ → ℤ → ℤ → Player → Option Call
add_item_resource cfg now id num p = add_resource_of (resource_id id) cfg now id num p

unfoldable pub remove_resource_of : ResourceId → Config → ℤ → ℤ → ℤ → Player → Option Call
remove_resource_of ResourceId.rmb cfg now id num p = some (p, pos 1)
remove_resource_of ResourceId.gold cfg now id num p = some (sub_gold num p)
remove_resource_of ResourceId.diamond cfg now id num p = some (sub_diamond num p)
remove_resource_of ResourceId.cat_food cfg now id num p = some (sub_cat_food num p)
remove_resource_of ResourceId.spirit cfg now id num p = sub_spirit cfg now num p
remove_resource_of ResourceId.friend_point cfg now id num p = some (sub_friend_points num p)
remove_resource_of ResourceId.charm_value cfg now id num p = some (sub_charm_val num p)
remove_resource_of ResourceId.exp_value cfg now id num p = some (p, pos 1)
remove_resource_of ResourceId.soul_stone cfg now id num p = some (sub_soul_stone num p)
remove_resource_of ResourceId.charm_medal cfg now id num p = some (sub_charm_medal num p)
remove_resource_of ResourceId.item cfg now id num p =
    some (item_result (remove_item cfg now id num true p))

-- `RemoveItemResource`
unfoldable pub remove_item_resource : Config → ℤ → ℤ → ℤ → Player → Option Call
remove_item_resource cfg now id num p = remove_resource_of (resource_id id) cfg now id num p

-- `ChkResEnough`: each entry by itself. The list holds ids and amounts in turn; an id without an
-- amount is an index out of range.
unfoldable pub chk_res_enough : Config → ℤ → List ℤ → Player → Option (Player × Bool)
chk_res_enough cfg now [] p = some (p, true)
chk_res_enough cfg now (id ∷ []) p = none
chk_res_enough cfg now (id ∷ num ∷ rest) p = do
  (q, have) ← get_item_resource_value cfg now id p
  let further = chk_res_enough cfg now rest q
  if ltb_ℤ have num then some (q, false) else further

-- `RemoveResources`
unfoldable pub remove_resources : Config → ℤ → List ℤ → Player → Option Player
remove_resources cfg now [] p = some p
remove_resources cfg now (id ∷ []) p = none
remove_resources cfg now (id ∷ num ∷ rest) p = do
  (q, _) ← remove_item_resource cfg now id num p
  remove_resources cfg now rest q

-- `AddResources` and `add_resources`, which leave out an id without an amount.
unfoldable pub add_resources : Config → ℤ → List ℤ → Player → Option Player
add_resources cfg now [] p = some p
add_resources cfg now (id ∷ []) p = some p
add_resources cfg now (id ∷ num ∷ rest) p = do
  (q, _) ← add_item_resource cfg now id num p
  add_resources cfg now rest q

-- The part of `sell_item` after the item's removal.
pay_for_item : ItemCfg → ℤ → ℤ → Player × Option ItemInfo → Call
pay_for_item item id count (q, none) = (q, negsuc 0)
pay_for_item item id count (q, some _) =
    let paid = (add_gold (mul32 item.sale_coin count) (send_items_update q)).0 in
    (emit (Effect.send_sell_item id count) paid, pos 1)

-- `sell_item`: the player pays with the item and is given its price in gold.
pub sell_item : Config → ℤ → ℤ → ℤ → Player → Call
sell_item cfg now id count p = elim (lookup id cfg.item_table) [
  | none ↦ (p, negsuc 0)
  | some item ↦ pay_for_item item id count (remove_item cfg now id count false p)
]

-- How `use_item` ends.
finish_use : ℤ → ℤ → Player → Call
finish_use id count q = (emit (Effect.send_use_item id count) (send_items_update q), pos 1)

-- The spirit branch of `use_item`: the item is taken, and what it holds is added.
use_spirit : List ℤ → Config → ℤ → ℤ → ℤ → Player → Option Call
use_spirit (res ∷ amount ∷ _) cfg now id count p = do
  (q, _) ←
      add_item_resource cfg now res (mul32 amount count) (remove_item cfg now id count false p).0
  some (finish_use id count q)
use_spirit _ cfg now id count p = some (p, negsuc 0)

-- `use_item` after its checks: an item of another kind than spirit has no effect.
use_checked : Config → ItemCfg → ℤ → ℤ → ℤ → Player → Option Call
use_checked cfg item now id count p =
    if eqb_ℤ item.item_type (pos 8)
    then use_spirit item.numbers cfg now id count p
    else some (finish_use id count p)

-- `use_item`
unfoldable pub use_item : Config → ℤ → ℤ → ℤ → Player → Option Call
unfolding use_checked use_spirit finish_use
use_item cfg now id count p = elim (lookup id cfg.item_table) [
  | none ↦ some (p, negsuc 0)
  | some item ↦ elim (lookup id p.items) [
    | none ↦ some (p, negsuc 0)
    | some d ↦
        let run = use_checked cfg item now id count p in
        if leb_ℤ count (pos 0)
        then some (p, negsuc 0)
        else if ltb_ℤ d.item_num count
        then some (p, negsuc 0)
        else if ltb_ℤ (pos 0) item.valid_time && eqb_ℤ (get_time_item_remain_seconds now d) (pos 0)
        then some (p, negsuc 0)
        else run
  ]
]
