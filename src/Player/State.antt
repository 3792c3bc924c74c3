-- ===== src/Player/State.antt =====
-- The state of a player that the modelled handlers read and write (src/game_server/a_db_tables.go,
-- columns Info and Items; src/game_server/player_item.go, the pending item changes), and the
-- tables of game data that they consult (src/tables).
pub use mm_server.Prelude.Text.{Text}
use mm_server.Prelude.{ℕ, Bool, true, Option, List, ◌∷◌, if◌then◌else◌}
use mm_server.Prelude.Int.{ℤ, pos, leb_ℤ, eqb_ℤ}
use mm_server.Prelude.Int32.{sub32}
use mm_server.Prelude.Dict.{Dict}

-- One numeric field of the Info column.
pub data Value : Type 0 where
  gold diamond cat_food spirit friend_points charm_val exp soul_stone charm_medal stars : Value

pub record Info : Type 0 where
  pub gold : ℤ
  pub diamond : ℤ
  pub cat_food : ℤ
  pub spirit : ℤ
  pub friend_points : ℤ
  pub charm_val : ℤ
  pub exp : ℤ
  pub soul_stone : ℤ
  pub charm_medal : ℤ
  pub total_stars : ℤ
  pub save_last_spirit_point_time : ℤ

-- `GetGold`, `GetDiamond`, ...
abbrev pub get_value : Value → Info → ℤ
get_value Value.gold i = i.gold
get_value Value.diamond i = i.diamond
get_value Value.cat_food i = i.cat_food
get_value Value.spirit i = i.spirit
get_value Value.friend_points i = i.friend_points
get_value Value.charm_val i = i.charm_val
get_value Value.exp i = i.exp
get_value Value.soul_stone i = i.soul_stone
get_value Value.charm_medal i = i.charm_medal
get_value Value.stars i = i.total_stars

-- `SetGold`, `SetDiamond`, ...
abbrev pub set_value : Value → ℤ → Info → Info
set_value Value.gold v i = record i { gold = v }
set_value Value.diamond v i = record i { diamond = v }
set_value Value.cat_food v i = record i { cat_food = v }
set_value Value.spirit v i = record i { spirit = v }
set_value Value.friend_points v i = record i { friend_points = v }
set_value Value.charm_val v i = record i { charm_val = v }
set_value Value.exp v i = record i { exp = v }
set_value Value.soul_stone v i = record i { soul_stone = v }
set_value Value.charm_medal v i = record i { charm_medal = v }
set_value Value.stars v i = record i { total_stars = v }

pub record ItemData : Type 0 where
  pub item_cfg_id : ℤ
  pub item_num : ℤ
  pub start_time_unix : ℤ
  pub remain_seconds : ℤ

-- The message that tells the client of an item.
pub record ItemInfo : Type 0 where
  pub item_cfg_id : ℤ
  pub item_num : ℤ
  pub remain_seconds : ℤ

-- Calls into parts that are not modelled, as the trace that they leave, newest first.
pub data Effect : Type 0 where
  send_item : ItemInfo → Effect
  send_items_update : Dict ℤ ItemInfo → Effect
  send_use_item : ℤ → ℤ → Effect
  send_sell_item : ℤ → ℤ → Effect
  task_update : ℤ → ℤ → Effect
  rank_update : ℤ → ℤ → Effect
  base_info_update : Effect
  announce_foster : ℤ → Effect
  send_sign_data : ℤ → ℤ → Effect
  send_sign_award : ℤ → Dict ℤ ℤ → Effect
  send_attached_items : List ℤ → Dict ℤ ℤ → Effect
  send_mail_list : List ℤ → Effect
  send_mail_details : List ℤ → Effect
  send_mails_deleted : List ℤ → Effect
  add_cat : ℤ → Effect
  add_depot_building : ℤ → ℤ → Effect
  send_cats_update : Effect
  send_depot_building_update : Effect
  send_draw_result : Bool → List ItemInfo → List ℤ → Dict ℤ ℤ → Effect
  send_shop_items : ℤ → ℤ → List (Option (ℤ × ℤ)) → Effect
  send_buy_shop_item : ℤ → ℤ → ℤ → Effect

-- The Sign column: how many days were signed, and up to which day the reward was taken.
pub record Sign : Type 0 where
  pub last_signed_time : ℤ
  pub signed_index : ℤ
  pub award_index : ℤ

-- One entry of the Mails column, without the sender's name.
pub record Mail : Type 0 where
  pub id : ℤ
  pub mail_type : ℤ
  pub subtype : ℤ
  pub title : Text
  pub content : Text
  pub send_unix : ℤ
  pub sender_id : ℤ
  pub extra_value : ℤ
  pub attach_item_ids : List ℤ
  pub attach_item_nums : List ℤ
  pub is_read : ℤ
  pub is_get_attached : ℤ

-- The columns Mails and MailCommon, and the ids of the mails that the client was not told of yet.
pub record MailBox : Type 0 where
  pub mails : Dict ℤ Mail
  pub curr_id : ℤ
  pub last_send_player_mail_time : ℤ
  pub new_mail_ids : List ℤ

pub record Player : Type 0 where
  pub level : ℤ
  pub info : Info
  pub items : Dict ℤ ItemData
  pub items_update : Dict ℤ ItemInfo
  pub sign : Sign
  pub mail_box : MailBox
  pub base_prop_chg : Bool
  pub effects : List Effect

-- One row of the item table (src/tables/table_item.go).
pub record ItemCfg : Type 0 where
  pub sale_coin : ℤ
  pub max_number : ℤ
  pub item_type : ℤ
  pub valid_time : ℤ
  pub numbers : List ℤ

-- One row of the level table (src/tables/table_player_level.go).
pub record LevelItem : Type 0 where
  pub level : ℤ
  pub max_exp : ℤ
  pub max_power : ℤ

pub record LevelTable : Type 0 where
  pub level_map : Dict ℤ LevelItem
  pub array : List LevelItem
  pub max_level : ℕ

-- One row of the sign table (src/tables/table_sign.go).
pub record SignItem : Type 0 where
  pub id : ℤ
  pub reward : List ℤ

pub record SignTable : Type 0 where
  pub sign_map : Dict ℤ SignItem
  pub array : List SignItem

-- The settings of src/tables/global_config.go that the mail functions read.
pub record MailConfig : Type 0 where
  pub max_count : ℤ
  pub normal_exist_days : ℤ
  pub attach_exist_days : ℤ
  pub player_send_cooldown : ℤ
  pub title_bytes : ℤ
  pub content_bytes : ℤ
  pub subtypes : List ℤ

pub record Config : Type 0 where
  pub item_table : Dict ℤ ItemCfg
  pub foster_rarity : ℤ → Option ℤ
  pub levels : LevelTable
  pub spirit_grow_point_need_minute : ℤ
  pub signs : SignTable
  pub mail : MailConfig

abbrev pub emit : Effect → Player → Player
emit e p = record p { effects = e ∷ p.effects }

abbrev pub mark_changed : Player → Player
mark_changed p = record p { base_prop_chg = true }

-- `Incby...`: adds in place, and returns the new value. The machine's sum wraps.
abbrev pub put : Value → ℤ → Player → Player
put f v p = record p { info = set_value f v p.info }

abbrev pub value : Value → Player → ℤ
value f p = get_value f p.info

-- `get_time_item_remain_seconds`: what is left of a timed item; three seconds count as none.
unfoldable pub get_time_item_remain_seconds : ℤ → ItemData → ℤ
get_time_item_remain_seconds now item =
    let left = sub32 item.remain_seconds (sub32 now item.start_time_unix) in
    if eqb_ℤ item.start_time_unix (pos 0) then pos 0 else if leb_ℤ left (pos 3) then pos 0 else left
