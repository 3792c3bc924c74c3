-- ===== src/Player/Level.antt =====
-- Experience and levels (src/game_server/player_item.go, `AddExp`; the table of
-- src/tables/table_player_level.go).
pub mod Progress
use mm_server.Prelude.{
  ℕ, zero, suc, ◌+◌, ◌-◌, Option, none, some, List, [], ◌∷◌, leb, ltb, if◌then◌else◌,
}
use mm_server.Prelude.Fault.{◌>>=◌}
use mm_server.Prelude.Int.{ℤ, pos, negsuc, ltb_ℤ, leb_ℤ, int_eq}
use mm_server.Prelude.Int32.{add32, sub32}
use mm_server.Prelude.Lists.{length, get_elem?}
use mm_server.Prelude.Dict.{Dict, insert}
use mm_server.Player.State.{
  Value, Player, Config, Effect, LevelItem, LevelTable, value, put, mark_changed, emit,
}

-- The loop of `PlayerLevelTableManager.Init` over the rows that the file holds.
load_levels_from : List LevelItem → Dict ℤ LevelItem → Dict ℤ LevelItem
load_levels_from [] m = m
load_levels_from (row ∷ rows) m = load_levels_from rows (insert row.level row m)

unfoldable pub load_levels : List LevelItem → LevelTable
unfolding load_levels_from
load_levels rows = record {
  level_map = load_levels_from rows [];
  array = rows;
  max_level = length rows;
}

-- `for i := cur_lvl; i < MaxLevel; i++`, with the rounds left as fuel: a level is passed while the
-- experience covers it. `cur_lvl` and `i` agree at the head of each round.
unfoldable pub level_loop : List LevelItem → ℕ → ℕ → ℤ → Option (ℕ × ℤ)
level_loop array zero lvl exp = some (lvl, exp)
level_loop array (suc n) lvl exp = do
  row ← get_elem? array (lvl - 1)
  let next = level_loop array n (lvl + 1) (sub32 exp row.max_exp)
  if leb_ℤ row.max_exp exp then next else some (lvl, exp)

-- What `AddExp` writes after the loop.
unfoldable pub store_level : ℕ → Player → ℕ × ℤ → Option (Player × ℤ × ℤ)
store_level lvl p (lvl', exp') =
    let stored = mark_changed (put Value.exp exp' (record p { level = pos lvl' })) in
    some (if ltb lvl lvl' then emit Effect.base_info_update stored else stored, pos lvl', exp')

-- The part of `AddExp` for a player of level 1 or more. At the last level the sum is returned and
-- not stored.
unfoldable pub add_exp_at : LevelTable → ℕ → ℤ → Player → Option (Player × ℤ × ℤ)
unfolding store_level
add_exp_at t lvl exp p =
    if leb (lvl + 1) t.max_level
    then level_loop t.array (t.max_level - lvl) lvl exp >>= store_level lvl p
    else some (mark_changed p, pos lvl, exp)

unfoldable pub add_exp_by : LevelTable → ℤ → ℤ → Player → Option (Player × ℤ × ℤ)
add_exp_by t (pos (suc lvl)) exp p = add_exp_at t (suc lvl) exp p
add_exp_by t _ exp p = some (p, negsuc 0, negsuc 0)

-- `AddExp`: the new player, the level and the experience.
unfoldable pub add_exp : LevelTable → ℤ → Player → Option (Player × ℤ × ℤ)
unfolding add_exp_by
add_exp t add_val p =
    let done = add_exp_by t p.level (add32 (value Value.exp p) add_val) p in
    if ltb_ℤ add_val (pos 0) then some (p, p.level, value Value.exp p) else done
