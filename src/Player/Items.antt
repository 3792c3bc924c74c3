-- ===== src/Player/Items.antt =====
-- The items of a player (src/game_server/a_db_ext.go, `ChkAddItemByNum` and `ChkRemoveItem`;
-- src/game_server/player_item.go, what adds, removes, uses and sells them, and the dispatch of an
-- id to a counter or an item). Time is an argument; the pending changes that `send_items_update`
-- sends are the field `items_update`.
pub mod Counts
use mm_server.Prelude.{
  ℕ, zero, suc, ◌+◌, ◌-◌, Bool, true, false, Option, none, some, List, [], ◌∷◌, if◌then◌else◌, ltb,
}
use mm_server.Prelude.Fault.{◌>>=◌}
use mm_server.Prelude.Int.{ℤ, pos, negsuc, ltb_ℤ, leb_ℤ, eqb_ℤ, int_eq}
use mm_server.Prelude.Int32.{add32, sub32, mul32}
use mm_server.Prelude.Lists.{length, get_elem?}
use mm_server.Prelude.Dict.{Dict, lookup, insert, erase}
use mm_server.Player.State.{
  Value, Player, Config, Effect, ItemData, ItemInfo, ItemCfg, value, emit,
  get_time_item_remain_seconds,
}
use mm_server.Player.Values.{
  Call, add_gold, sub_gold, add_diamond, sub_diamond, add_cat_food, sub_cat_food, add_charm_medal,
  sub_charm_medal, add_charm_val, sub_charm_val, add_friend_points, sub_friend_points,
  add_soul_stone, sub_soul_stone, add_spirit, sub_spirit, calc_spirit,
}
use mm_server.Player.Level.{add_exp}

abbrev Items : Type 0
Items = Dict ℤ ItemData

abbrev pub clamp_to : ℤ → ℤ → ℤ
clamp_to cap n = if ltb_ℤ cap n then cap else n

-- A timed item starts anew.
abbrev pub timed_item : ItemCfg → ℤ → ℤ → ItemData
timed_item cfg now cfgid = record {
  item_cfg_id = cfgid;
  item_num = pos 1;
  start_time_unix = now;
  remain_seconds = mul32 cfg.valid_time (pos 3600);
}

-- The entry that `ChkAddItemByNum` leaves, from the one that was there.
unfoldable pub added_item : ItemCfg → ℤ → ℤ → ℤ → Option ItemData → ItemData
added_item cfg now cfgid num (some d) =
    if eqb_ℤ cfg.valid_time (pos 0)
    then record d { item_num = clamp_to cfg.max_number (add32 d.item_num num) }
    else record (timed_item cfg now cfgid) { item_cfg_id = d.item_cfg_id }
added_item cfg now cfgid num none =
    if eqb_ℤ cfg.valid_time (pos 0)
    then record {
      item_cfg_id = cfgid;
      item_num = clamp_to cfg.max_number num;
      start_time_unix = pos 0;
      remain_seconds = pos 0;
    }
    else timed_item cfg now cfgid

-- `dbPlayerItemColumn.ChkAddItemByNum`: the new column and the item's count.
unfoldable pub chk_add_item_by_num : Dict ℤ ItemCfg → ℤ → ℤ → ℤ → Items → Items × ℤ
chk_add_item_by_num table now cfgid num items = elim (lookup cfgid table) [
  | none ↦ (items, pos 0)
  | some cfg ↦
      let d = added_item cfg now cfgid num (lookup cfgid items) in
      (insert cfgid d items, d.item_num)
]

-- `dbPlayerItemColumn.ChkRemoveItem`: the new column, whether it was done, and what is left. An entry
-- that holds no more than `num` goes, whatever it holds.
unfoldable pub chk_remove_item : Dict ℤ ItemCfg → ℤ → ℤ → Items → Items × Bool × ℤ
chk_remove_item table item_id num items = elim (lookup item_id table) [
  | none ↦ (items, false, pos 0)
  | some _ ↦ elim (lookup item_id items) [
    | none ↦ (items, false, pos 0)
    | some d ↦
        let left = sub32 d.item_num num in
        if ltb_ℤ num d.item_num
        then (insert item_id (record d { item_num = left }) items, true, left)
        else (erase item_id items, true, pos 0)
  ]
]

-- `dbPlayerItemColumn.GetItemNum`; `get_item` is 0 where there is none.
unfoldable pub get_item_num : ℤ → Items → Option ℤ
get_item_num id items = elim (lookup id items) [ none ↦ none | some d ↦ some d.item_num ]

unfoldable pub get_item : ℤ → Player → ℤ
get_item id p = elim (get_item_num id p.items) [ none ↦ pos 0 | some n ↦ n ]

-- What a removed item keeps of the remaining seconds that are pending for it.
abbrev pending_seconds : ℤ → Dict ℤ ItemInfo → ℤ
pending_seconds id m = elim (lookup id m) [ none ↦ pos 0 | some i ↦ i.remain_seconds ]

-- `ItemCatBuildingChangeInfo.item_update`
unfoldable pub item_update : ℤ → ℤ → Player → Player
item_update now id p =
    let info : ItemInfo = elim (lookup id p.items) [
      | none ↦ record {
        item_cfg_id = id;
        item_num = pos 0;
        remain_seconds = pending_seconds id p.items_update;
      }
      | some d ↦ record {
        item_cfg_id = id;
        item_num = d.item_num;
        remain_seconds = get_time_item_remain_seconds now d;
      }
    ] in
    record p { items_update = insert id info p.items_update }

-- `send_items_update`: sends what is pending, and forgets it.
unfoldable pub send_items_update : Player → Player
send_items_update p = elim (p.items_update) [
  | [] ↦ p
  | _ ∷ _ ↦ record (emit (Effect.send_items_update p.items_update) p) { items_update = [] }
]

abbrev item_info : ℤ → ℤ → ItemInfo
item_info id num = record { item_cfg_id = id; item_num = num; remain_seconds = pos 0 }

abbrev send_unless : Bool → ItemInfo → Player → Player
send_unless silence i p = if silence then p else emit (Effect.send_item i) p

abbrev announce : Option ℤ → ℤ → Player → Player
announce none id p = p
announce (some rarity) id p = if leb_ℤ (pos 4) rarity then emit (Effect.announce_foster id) p else p

-- `AddItem`; `none` is the nil that it returns for an unknown item.
unfoldable pub add_item : Config → ℤ → ℤ → ℤ → Bool → Player → Player × Option ItemInfo
add_item cfg now id num silence p = elim (lookup id cfg.item_table) [
  | none ↦ (p, none)
  | some _ ↦
      let (items, new_num) = chk_add_item_by_num cfg.item_table now id num p.items in
      let q = item_update now id (record p { items = items }) in
      (
        announce (cfg.foster_rarity id) id (send_unless silence (item_info id new_num) q),
        some (item_info id new_num),
      )
]

-- `RemoveItem`
unfoldable pub remove_item : Config → ℤ → ℤ → ℤ → Bool → Player → Player × Option ItemInfo
remove_item cfg now id num silence p = elim (lookup id cfg.item_table) [
  | none ↦ (p, none)
  | some _ ↦
      let (items, done, _) = chk_remove_item cfg.item_table id num p.items in
      if done
      then (
        send_unless silence (item_info id num) (item_update now id (record p { items = items })),
        some (item_info id num),
      )
      else (p, none)
]

-- `RemoveItemAll`
unfoldable pub remove_item_all : ℤ → ℤ → Bool → Player → Player
remove_item_all now id silence p = elim (get_item_num id p.items) [
  | none ↦ p
  | some n ↦
      send_unless silence (item_info id n)
        (item_update now id (record p { items = erase id p.items }))
]

-- What the id of a resource stands for: the constants `ITEM_RESOURCE_ID_...`.
pub data ResourceId : Type 0 where
  rmb gold diamond cat_food spirit friend_point charm_value exp_value soul_stone charm_medal :
      ResourceId
  item : ResourceId

unfoldable pub resource_id : ℤ → ResourceId
resource_id c =
    if eqb_ℤ c (pos 1)
    then ResourceId.rmb
    else if eqb_ℤ c (pos 2)
    then ResourceId.gold
    else if eqb_ℤ c (pos 3)
    then ResourceId.diamond
    else if eqb_ℤ c (pos 4)
    then ResourceId.cat_food
    else if eqb_ℤ c (pos 5)
    then ResourceId.spirit
    else if eqb_ℤ c (pos 6)
    then ResourceId.friend_point
    else if eqb_ℤ c (pos 7)
    then ResourceId.charm_value
    else if eqb_ℤ c (pos 8)
    then ResourceId.exp_value
    else if eqb_ℤ c (pos 9)
    then ResourceId.soul_stone
    else if eqb_ℤ c (pos 10)
    then ResourceId.charm_medal
    else ResourceId.item
