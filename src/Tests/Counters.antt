-- ===== src/Tests/Counters.antt =====
-- Counters, spirit, levels and prices at concrete players.
use mm_server.Prelude.{◌+◌, ◌-◌, ◌≡◌, refl, some, true, [], ◌∷◌, arith}
use mm_server.Prelude.Fault.{Returns}
use mm_server.Prelude.Int.{pos, ◌<ℤ◌, ◌+ℤ◌, int_eq}
use mm_server.Prelude.Dict.{lookup}
use mm_server.Player.State.{Value, value}
use mm_server.Player.Values.{add_value, calc_spirit}
use mm_server.Player.Values.Bounds.{IsCount, Updates, saturated_sum, add_value-Updates}
use mm_server.Player.Values.Spirit.{Grown, Reads, due_spirit, saved_time, calc_spirit-Grown}
use mm_server.Player.Level.{add_exp, load_levels}
use mm_server.Player.Level.Progress.{Progressed, add_exp-Progressed}
use mm_server.Player.Resources.{
  chk_res_enough, remove_resources, get_item_resource_value, resource_value,
}
use mm_server.Player.Items.{resource_id}
use mm_server.Player.Resources.Payment.{
  Coin, Price, price_list, Paid, remove_resources-Paid, named_twice_leaves_debt,
}
use mm_server.Tests.Data.{config, player, rows, first_row}

add_value-Updates_example :
    Updates Value.gold player
      (add_value Value.gold (pos 50) player)
      (saturated_sum (pos 100) (pos 50))
add_value-Updates_example =
    add_value-Updates Value.gold (pos 50) player (ground arith) (ground arith)

-- 17 minutes after the last save, with five minutes to a point.
spirit_read : Reads config player 2020 5 20 3 1000
unfolding lookup
spirit_read = record {
  cp = first_row;
  found = refl;
  minutes_read = refl;
  cap_read = refl;
  spirit_read = refl;
  last_read = refl;
  minutes_pos = ground arith;
  period_small = ground arith;
  cap_small = ground arith;
  past = ground arith;
  now_small = ground arith;
}

calc_spirit-Grown_example :
    Returns
      (calc_spirit config (pos 2020) (pos 0) player)
      (Grown player (due_spirit 5 20 3 (2020 - 1000)) (saved_time 5 20 3 1000 2020))
calc_spirit-Grown_example = calc_spirit-Grown config player (pos 0) spirit_read

add_exp-Progressed_example :
    Returns
      (add_exp (load_levels rows) (pos 40) player)
      (Progressed (load_levels rows) 1 (6 + 40) player)
add_exp-Progressed_example =
    add_exp-Progressed rows player 0 6 40 ((10, refl), ((20, refl), ((30, refl), tt))) refl refl
      (ground arith) (ground arith)

abbrev price : Price
price = (Coin.gold, pos 60) ∷ (Coin.soul_stone, pos 8) ∷ []

all_counts : (f : Value) → IsCount (value f player)
all_counts Value.gold = ground arith
all_counts Value.diamond = ground arith
all_counts Value.cat_food = ground arith
all_counts Value.spirit = ground arith
all_counts Value.friend_points = ground arith
all_counts Value.charm_val = ground arith
all_counts Value.exp = ground arith
all_counts Value.soul_stone = ground arith
all_counts Value.charm_medal = ground arith
all_counts Value.stars = ground arith

enough : chk_res_enough config (pos 2020) (price_list price) player ≡ some (player, true)
unfolding chk_res_enough get_item_resource_value resource_value resource_id
enough = refl

remove_resources-Paid_example :
    Returns (remove_resources config (pos 2020) (price_list price) player) (Paid price player)
remove_resources-Paid_example =
    remove_resources-Paid config (pos 2020) price player player ((ground arith, tt), (tt, tt))
      (ground arith, (ground arith, tt)) all_counts enough

named_twice_leaves_debt_example :
    (chk_res_enough config
        (pos 2020)
        (price_list ((Coin.gold, pos 60) ∷ (Coin.gold, pos 60) ∷ []))
        player
      ≡ some (player, true))
    × Returns
        (remove_resources config
          (pos 2020)
          (price_list ((Coin.gold, pos 60) ∷ (Coin.gold, pos 60) ∷ []))
          player)
        (λ q. value Value.gold q <ℤ pos 0)
unfolding ◌+ℤ◌
named_twice_leaves_debt_example =
    named_twice_leaves_debt config (pos 2020) Coin.gold (pos 60) (pos 60) player (ground arith)
      (ground arith) (ground arith) (ground arith) (ground arith) (ground arith)
