-- ===== src/Player/Shop.antt =====
-- The shops (src/game_server/player_shop.go, with the rows of src/tables/table_shop.go and
-- src/tables/table_shoplist.go and the column of left numbers of src/game_server/a_db_tables.go).
-- The seconds to the next refresh (src/libs/utils/time_func.go), which hang on the calendar, are an
-- argument, and so is the order in which the map of a shop's items is walked.
pub mod Buy
pub mod Unpaid
use mm_server.Prelude.{
  ℕ, zero, suc, Bool, true, false, Option, none, some, List, [], ◌∷◌, ◌++◌, if◌then◌else◌, not,
  ◌&&◌, ◌||◌,
}
use mm_server.Prelude.Fault.{◌>>=◌}
use mm_server.Prelude.Int.{ℤ, pos, negsuc, ltb_ℤ, leb_ℤ, eqb_ℤ, int_eq}
use mm_server.Prelude.Int32.{add32, mul32, wrap32}
use mm_server.Prelude.Text.{is_empty, same_text}
use mm_server.Prelude.Dict.{Dict, lookup, contains, insert}
use mm_server.Player.State.{Player, Config, Effect, Value, Text, value, emit}
use mm_server.Player.Values.{
  sub_gold, sub_diamond, sub_charm_val, sub_friend_points, sub_charm_medal, sub_soul_stone,
}
use mm_server.Player.Items.{ResourceId, resource_id, send_items_update}
use mm_server.Player.Resources.{add_item_resource}

-- `XmlShopItem`
pub record ShopItem : Type 0 where
  pub id : ℤ
  pub shop_type : ℤ
  pub number : ℤ
  pub cost_resource_id : ℤ
  pub cost_num : ℤ
  pub limited_type : ℤ
  pub limited_number : ℤ
  pub bag_items : List ℤ
  pub bundle_id : Text

pub record ShopData : Type 0 where
  pub items : List ShopItem
  pub limit_num : ℕ

-- `XmlShopTypeItem`
pub record ShopType : Type 0 where
  pub auto_refresh_time : Text
  pub refresh_days : ℤ

pub record ShopTables : Type 0 where
  pub items : Dict ℤ ShopItem
  pub shops : Dict ℤ ShopData
  pub types : Dict ℤ ShopType

-- One entry of the Shops column.
pub record ShopTimes : Type 0 where
  pub first_refresh_time_point : ℤ
  pub lastest_refresh_time_point : ℤ

pub record Shopper : Type 0 where
  pub player : Player
  pub shop_items : Dict ℤ ℤ
  pub shops : Dict ℤ ShopTimes
  pub vip_card_end_day : ℤ

-- `GetRemainSeconds2NextDaysPoint`, now: of the first and the last refresh; `none` is its error.
abbrev pub Remain : Type 0
Remain = ℤ → ℤ → ShopType → Option ℤ

-- `strings.HasSuffix(s, suffix)`
unfoldable pub has_suffix : Text → Text → Bool
unfolding same_text
has_suffix [] suffix = same_text [] suffix
has_suffix (a ∷ s) suffix = same_text (a ∷ s) suffix || has_suffix s suffix

-- The text "mcard".
abbrev pub mcard : Text
mcard = 109 ∷ 99 ∷ 97 ∷ 114 ∷ 100 ∷ []

-- `shop_refresh`: each item has its number again, whether it was noted or not.
unfoldable pub shop_refresh : List ShopItem → Dict ℤ ℤ → Dict ℤ ℤ
shop_refresh [] left = left
shop_refresh (t ∷ ts) left = shop_refresh ts (insert t.id t.limited_number left)

refresh_now : ShopData → Shopper → Shopper
refresh_now shop s = record s { shop_items = shop_refresh shop.items s.shop_items }

-- A shop that was never refreshed.
first_check : ℤ → ℤ → ShopData → Option ℤ → Shopper → Shopper × Bool × ℤ
first_check now shop_id shop none s = (s, false, negsuc 0)
first_check now shop_id shop (some remain) s =
    let times : ShopTimes = record {
      first_refresh_time_point = now;
      lastest_refresh_time_point = pos 0;
    } in
    (refresh_now shop (record s { shops = insert shop_id times s.shops }), true, remain)

later_check : ℤ → ℤ → ShopData → ShopTimes → Option ℤ → Shopper → Shopper × Bool × ℤ
later_check now shop_id shop times none s = (s, false, negsuc 0)
later_check now shop_id shop times (some remain) s =
    let again = record times { lastest_refresh_time_point = now } in
    if leb_ℤ remain (pos 0)
    then (refresh_now shop (record s { shops = insert shop_id again s.shops }), true, remain)
    else (s, false, remain)

-- `check_shop_refresh`
unfoldable pub check_shop_refresh :
    Remain → ShopTables → ℤ → ℤ → ShopData → Shopper → Shopper × Bool × ℤ
unfolding first_check later_check refresh_now
check_shop_refresh remain tabs now shop_id shop s = elim (lookup shop_id tabs.types) [
  | none ↦ (s, false, negsuc 0)
  | some t ↦
      let checked : Shopper × Bool × ℤ = elim (lookup shop_id s.shops) [
        | none ↦ first_check now shop_id shop (remain (pos 0) (pos 0) t) s
        | some times ↦
            later_check now shop_id shop times
              (remain times.first_refresh_time_point times.lastest_refresh_time_point t) s
      ] in
      if is_empty t.auto_refresh_time || eqb_ℤ t.refresh_days (pos 0)
      then (s, false, pos 0)
      else checked
]

-- What `shop_send_items` shows of one item, which it notes if it has to.
shown_left : ShopItem → Dict ℤ ℤ → Dict ℤ ℤ × ℤ
shown_left t left =
    if eqb_ℤ t.limited_type (pos 2)
    then elim (lookup t.id left) [
      | none ↦ (insert t.id t.limited_number left, t.limited_number)
      | some n ↦ (left, n)
    ]
    else if eqb_ℤ t.limited_type (pos 0) || eqb_ℤ t.limited_type (pos 1)
    then (left, pos 0)
    else (left, negsuc 0)

-- The entries of the answer that no item was left for: they stay nil.
abbrev pub nils : ℕ → List (Option (ℤ × ℤ))
nils zero = []
nils (suc n) = none ∷ nils n

-- Its loop, over at most so many items, with the entries of the answer.
send_loop : ℕ → List ShopItem → Dict ℤ ℤ → Dict ℤ ℤ × List (Option (ℤ × ℤ))
unfolding shown_left
send_loop zero ts left = (left, [])
send_loop (suc n) [] left = (left, nils (suc n))
send_loop (suc n) (t ∷ ts) left =
    let (noted, num) = shown_left t left in
    let (rest, lines) = send_loop n ts noted in (rest, some (t.id, num) ∷ lines)

-- `shop_send_items`
unfoldable pub shop_send_items : ℤ → ShopData → ℤ → Shopper → Shopper
unfolding send_loop
shop_send_items shop_id shop remain s =
    let (left, lines) = send_loop shop.limit_num shop.items s.shop_items in
    record s {
      player = emit (Effect.send_shop_items shop_id remain lines) s.player;
      shop_items = left;
    }

-- `E_ERR_SHOP_...`
abbrev pub shop_not_found : ℤ
shop_not_found = negsuc 101500

-- `fetch_shop_limit_items`
unfoldable pub fetch_shop_limit_items : Remain → ShopTables → ℤ → ℤ → Bool → Shopper → Shopper × ℤ
fetch_shop_limit_items remain tabs now shop_id send s = elim (lookup shop_id tabs.shops) [
  | none ↦ (s, shop_not_found)
  | some shop ↦
      let (q, _, left) = check_shop_refresh remain tabs now shop_id shop s in
      let told = if send then shop_send_items shop_id shop (wrap32 left) q else q in
      if ltb_ℤ left (pos 0) then (q, shop_not_found) else (told, pos 1)
]

-- The counter that a shop takes a price from, and the error where there is not enough of it.
unfoldable pub priced_in : ResourceId → Option (Value × ℤ)
priced_in ResourceId.diamond = some (Value.diamond, negsuc 101502)
priced_in ResourceId.gold = some (Value.gold, negsuc 101503)
priced_in ResourceId.charm_value = some (Value.charm_val, negsuc 101504)
priced_in ResourceId.friend_point = some (Value.friend_points, negsuc 101505)
priced_in ResourceId.soul_stone = some (Value.soul_stone, negsuc 101506)
priced_in ResourceId.charm_medal = some (Value.charm_medal, negsuc 101507)
priced_in _ = none

-- The chain of tests of the price: `none` where the player can pay, otherwise the error.
unfoldable pub price_error_of : ResourceId → Option (Value × ℤ) → ℤ → Player → Option ℤ
price_error_of r (some (f, code)) price p = if ltb_ℤ (value f p) price then some code else none
price_error_of ResourceId.rmb none price p = some (negsuc 0)
price_error_of _ none price p = some (negsuc 101508)

unfoldable pub price_error : ShopItem → ℤ → Player → Option ℤ
price_error t num p =
    let r = resource_id t.cost_resource_id in
    price_error_of r (priced_in r) (mul32 num t.cost_num) p

-- What the player gets: pairs of a resource and an amount; an id without an amount is left out.
unfoldable pub give_bag : Config → ℤ → ℤ → List ℤ → Player → Option Player
give_bag cfg now times (id ∷ num ∷ rest) p = do
  (q, _) ← add_item_resource cfg now id (mul32 times num) p
  give_bag cfg now times rest q
give_bag cfg now times _ p = some p

-- The chain that takes the price.
unfoldable pub charge : ResourceId → ℤ → Player → Player
charge ResourceId.gold price p = (sub_gold price p).0
charge ResourceId.diamond price p = (sub_diamond price p).0
charge ResourceId.charm_value price p = (sub_charm_val price p).0
charge ResourceId.friend_point price p = (sub_friend_points price p).0
charge ResourceId.charm_medal price p = (sub_charm_medal price p).0
charge ResourceId.soul_stone price p = (sub_soul_stone price p).0
charge _ price p = p

-- `SendItemsUpdate`, `SendCatsUpdate`, `SendDepotBuildingUpdate`
abbrev pub send_updates : Player → Player
send_updates p =
    emit Effect.send_depot_building_update (emit Effect.send_cats_update (send_items_update p))

-- The end of `buy_item`: the goods, then the price, then the answer.
unfoldable pub hand_over : Config → ℤ → ShopItem → ℤ → Bool → Shopper → Option (Shopper × ℤ)
hand_over cfg now t num send s = do
  got ← give_bag cfg now (mul32 num t.number) t.bag_items s.player
  let paid = charge (resource_id t.cost_resource_id) (mul32 num t.cost_num) (send_updates got)
  let told = if send then emit (Effect.send_buy_shop_item t.shop_type t.id num) paid else paid
  some (record s { player = told }, pos 1)

-- Goods that are limited for each player: one is taken off the number that is left.
unfoldable pub take_own :
    Config → ℤ → ShopItem → ℤ → Bool → Shopper → Option ℤ → Option (Shopper × ℤ)
take_own cfg now t num send s none = some (s, negsuc 101510)
take_own cfg now t num send s (some left) =
    let taken = record s { shop_items = insert t.id (add32 left (negsuc 0)) s.shop_items } in
    let sold = hand_over cfg now t num send taken in
    if ltb_ℤ left (pos 1) then some (s, negsuc 101511) else sold

-- The test of the limit. The table files each row under its id.
unfoldable pub take_limited : Config → ℤ → ShopItem → ℤ → Bool → Shopper → Option (Shopper × ℤ)
take_limited cfg now t num send s =
    let free = hand_over cfg now t num send s in
    let own = take_own cfg now t num send s (lookup t.id s.shop_items) in
    if eqb_ℤ t.limited_type (pos 0) || eqb_ℤ t.limited_type (pos 1)
    then free
    else if eqb_ℤ t.limited_type (pos 2)
    then own
    else some (s, negsuc 101501)

-- A month card of thirty days.
unfoldable pub buy_month_card : ℤ → Shopper → Shopper × ℤ
buy_month_card now s =
    if ltb_ℤ s.vip_card_end_day now
    then (s, negsuc 0)
    else (record s { vip_card_end_day = add32 now (pos 2592000) }, pos 2)

-- What is bought for a price that is tested first.
unfoldable pub buy_tested :
    Config → ℤ → ShopItem → ℤ → Bool → Shopper → Option ℤ → Option (Shopper × ℤ)
buy_tested cfg now t num send s (some code) = some (s, code)
buy_tested cfg now t num send s none = take_limited cfg now t num send s

-- `buy_item` once the shop is refreshed. What belongs to a bundle is not tested for its price.
unfoldable pub buy_row : Config → ℤ → ShopItem → ℤ → Bool → Shopper → Option (Shopper × ℤ)
buy_row cfg now t num send s =
    let taken = take_limited cfg now t num send s in
    let tested = buy_tested cfg now t num send s (price_error t num s.player) in
    if is_empty t.bundle_id
    then tested
    else if has_suffix t.bundle_id mcard
    then some (buy_month_card now s)
    else taken

-- The refresh in `buy_item`, of which the client is told.
unfoldable pub refreshed_for : Remain → ShopTables → ℤ → ShopItem → ShopData → Shopper → Shopper
refreshed_for remain tabs now t shop s =
    let (q, refreshed, left) = check_shop_refresh remain tabs now t.shop_type shop s in
    if refreshed then shop_send_items t.shop_type shop (wrap32 left) q else q

-- `buy_item`
unfoldable pub buy_item :
    Remain → Config → ShopTables → ℤ → ℤ → ℤ → Bool → Shopper → Option (Shopper × ℤ)
buy_item remain cfg tabs now item_id num send s = elim (leb_ℤ num (pos 0)) [
  | true ↦ some (s, negsuc 0)
  | false ↦ elim (lookup item_id tabs.items) [
    | none ↦ some (s, shop_not_found)
    | some t ↦ elim (lookup t.shop_type tabs.shops) [
      | none ↦ some (s, shop_not_found)
      | some shop ↦ buy_row cfg now t num send (refreshed_for remain tabs now t shop s)
    ]
  ]
]
