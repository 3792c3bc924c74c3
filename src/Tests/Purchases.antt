-- ===== src/Tests/Purchases.antt =====
-- Purchases of concrete goods, and ids of players.
use mm_server.Prelude.{◌+◌, ◌*◌, ◌%◌, ◌^◌, ◌≡◌, refl, true, some, [], ◌∷◌, arith}
use mm_server.Prelude.Fault.{Returns}
use mm_server.Prelude.Int.{ℤ, pos, int_eq, ◌*ℤ◌}
use mm_server.Prelude.Int32.{wrap32, mul32}
use mm_server.Prelude.Text.{same_text}
use mm_server.Prelude.Dict.{lookup}
use mm_server.Player.State.{Player, Value, value}
use mm_server.Player.Items.{resource_id, add_item, chk_add_item_by_num, item_update, added_item}
use mm_server.Player.Resources.{add_item_resource, add_resource_of}
use mm_server.Player.Resources.Total.{IsConfig}
use mm_server.Player.Shop.{ShopItem, Shopper, buy_row, give_bag, has_suffix}
use mm_server.Player.Shop.Buy.{Sold, buy_row-Sold}
use mm_server.Player.Shop.Unpaid.{bundle_unpaid, overflow_unpaid}
use mm_server.PlayerIds.{generate_player_id, get_server_id_by_player_id, player_id_round_trip}
use mm_server.Tests.Data.{config, player}

abbrev goods : ShopItem
goods = record {
  id = pos 401;
  shop_type = pos 1;
  number = pos 1;
  cost_resource_id = pos 2;
  cost_num = pos 200;
  limited_type = pos 2;
  limited_number = pos 3;
  bag_items = pos 100 ∷ pos 2 ∷ [];
  bundle_id = [];
}

abbrev shopper : Shopper
shopper = record {
  player = player;
  shop_items = (pos 401, pos 1) ∷ [];
  shops = [];
  vip_card_end_day = pos 0;
}

config-IsConfig : IsConfig config
unfolding mul32 wrap32 ◌*ℤ◌
config-IsConfig = record {
  minutes = λ h. absurd (ground arith);
  period = λ h. absurd (ground arith);
  rows = omega arith;
}

buy_row-Sold_example :
    Returns
      (buy_row config (pos 0) goods (pos 1) true shopper)
      (Sold config (pos 0) goods (pos 1) shopper)
buy_row-Sold_example = buy_row-Sold config (pos 0) goods (pos 1) true shopper config-IsConfig refl

-- The bundle "0", for 200 diamonds.
abbrev bundle : ShopItem
bundle = record goods { cost_resource_id = pos 3; limited_type = pos 0; bundle_id = 48 ∷ [] }

abbrev with_goods : ℤ → Player
with_goods num = (add_item config (pos 0) (pos 100) num true player).0

bundle_given :
    give_bag config (pos 0) (mul32 (pos 1) (pos 1)) bundle.bag_items player
    ≡ some (with_goods (pos 2))
unfolding give_bag add_item_resource add_resource_of resource_id mul32 wrap32 ◌*ℤ◌ add_item lookup
    item_update
bundle_given = refl

bundle_unpaid_example :
    Returns
      (buy_row config (pos 0) bundle (pos 1) true shopper)
      (λ (q, code). (code ≡ pos 1) × (value Value.diamond q.player ≡ pos 0))
unfolding has_suffix same_text resource_id mul32 wrap32 ◌*ℤ◌ add_item lookup chk_add_item_by_num
    item_update added_item
bundle_unpaid_example =
    bundle_unpaid config (pos 0) bundle (pos 1) true shopper (with_goods (pos 2)) refl refl refl
      refl bundle_given (omega arith, omega arith) (omega arith, omega arith) (omega arith)

abbrev unlimited : ShopItem
unlimited = record goods { limited_type = pos 0 }

-- 10737419 * 200 = 2 ^ 31 + 152
many_given :
    give_bag config (pos 0) (mul32 (pos 10737419) (pos 1)) unlimited.bag_items player
    ≡ some (with_goods (pos 21474838))
unfolding give_bag add_item_resource add_resource_of resource_id mul32 wrap32 ◌*ℤ◌ add_item lookup
    item_update
many_given = refl

overflow_unpaid_example :
    Returns (buy_row config (pos 0) unlimited (pos 10737419) true shopper) (λ (q, code).
      (code ≡ pos 1) × (value Value.gold q.player ≡ value Value.gold (with_goods (pos 21474838))))
unfolding resource_id mul32 wrap32 ◌*ℤ◌ add_item lookup chk_add_item_by_num item_update added_item
overflow_unpaid_example =
    overflow_unpaid config (pos 0) unlimited (pos 10737419) true shopper (with_goods (pos 21474838))
      refl refl refl (omega arith) (omega arith) many_given
      (record { lower = omega arith; upper = omega arith })

player_id_round_trip_example :
    (generate_player_id (pos 2051) (pos 77) ≡ pos (2051 % 2 ^ 11 * 2 ^ 20 + 77))
    × (get_server_id_by_player_id (generate_player_id (pos 2051) (pos 77)) ≡ pos (2051 % 2 ^ 11))
player_id_round_trip_example = player_id_round_trip 2051 77 (omega arith)
