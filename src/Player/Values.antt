-- ===== src/Player/Values.antt =====
-- The counters of a player (src/game_server/player_item.go): gold, diamonds, spirit and the others,
-- each with a function that adds and one that takes away, and the regrowth of spirit over time.
pub mod Bounds
pub mod Spirit
use mm_server.Prelude.{ℕ, Bool, true, false, Option, none, some, if◌then◌else◌, ◌&&◌}
use mm_server.Prelude.Fault.{◌>>=◌}
use mm_server.Prelude.Int.{ℤ, pos, ltb_ℤ, int_eq}
use mm_server.Prelude.Int32.{add32, sub32, mul32, neg32, quot32, rem32, max_int32}
use mm_server.Prelude.Dict.{lookup}
use mm_server.Player.State.{
  Value, Player, Config, Effect, Info, value, put, mark_changed, emit, LevelItem,
}

-- A call's new player and its result.
abbrev pub Call : Type 0
Call = Player × ℤ

-- `cur := this.db.Info.IncbyX(val); this.b_base_prop_chg = true; return cur`
unfoldable pub inc_value : Value → ℤ → Player → Call
inc_value f val p = let v = add32 (value f p) val in (mark_changed (put f v p), v)

-- The shape that `AddGold`, `AddDiamond`, `AddFriendPoints`, `AddCatFood`, `AddSoulStone` and
-- `AddCharmMedal` share: refuse a negative amount, and stop at the largest int32.
unfoldable pub add_value : Value → ℤ → Player → Call
add_value f val p =
    if ltb_ℤ val (pos 0)
    then (p, value f p)
    else if ltb_ℤ (add32 (value f p) val) (pos 0)
    then (put f max_int32 p, max_int32)
    else inc_value f val p

-- The shape of `SubGold`, `SubFriendPoints`, `SubSoulStone`, `SubCharmMedal` and `SubStar`.
unfoldable pub sub_value : Value → ℤ → Player → Call
sub_value f val p = if ltb_ℤ val (pos 0) then (p, value f p) else inc_value f (neg32 val) p

unfoldable pub add_gold : ℤ → Player → Call
unfolding add_value
add_gold = add_value Value.gold

unfoldable pub sub_gold : ℤ → Player → Call
unfolding sub_value
sub_gold = sub_value Value.gold

unfoldable pub add_diamond : ℤ → Player → Call
unfolding add_value
add_diamond = add_value Value.diamond

-- `dbPlayerInfoColumn.SubDiamond` stops at 0.
unfoldable pub sub_diamond : ℤ → Player → Call
sub_diamond val p =
    let left = sub32 (value Value.diamond p) val in
    let kept = if ltb_ℤ left (pos 0) then pos 0 else left in
    if ltb_ℤ val (pos 0)
    then (p, value Value.diamond p)
    else (mark_changed (put Value.diamond kept p), kept)

unfoldable pub add_friend_points : ℤ → Player → Call
unfolding add_value
add_friend_points = add_value Value.friend_points

unfoldable pub sub_friend_points : ℤ → Player → Call
unfolding sub_value
sub_friend_points = sub_value Value.friend_points

unfoldable pub add_cat_food : ℤ → Player → Call
unfolding add_value
add_cat_food = add_value Value.cat_food

-- The one subtraction that refuses what the player does not have.
unfoldable pub sub_cat_food : ℤ → Player → Call
sub_cat_food food p =
    if ltb_ℤ food (pos 0)
    then (p, value Value.cat_food p)
    else if ltb_ℤ (value Value.cat_food p) food
    then (p, value Value.cat_food p)
    else sub_value Value.cat_food food p

unfoldable pub add_soul_stone : ℤ → Player → Call
unfolding add_value
add_soul_stone = add_value Value.soul_stone

unfoldable pub sub_soul_stone : ℤ → Player → Call
unfolding sub_value
sub_soul_stone = sub_value Value.soul_stone

unfoldable pub add_charm_medal : ℤ → Player → Call
unfolding add_value
add_charm_medal = add_value Value.charm_medal

unfoldable pub sub_charm_medal : ℤ → Player → Call
unfolding sub_value
sub_charm_medal = sub_value Value.charm_medal

-- `tables.TASK_COMPLETE_TYPE_CHARM_VALUE`
abbrev task_charm_value : ℤ
task_charm_value = pos 209

-- `common.RANK_LIST_TYPE_CHARM`
abbrev rank_charm : ℤ
rank_charm = pos 2

-- `tables.TASK_COMPLETE_TYPE_COLLECT_STAR_NUM`
abbrev task_star_num : ℤ
task_star_num = pos 202

-- A change of the charm value is passed on to the ranking list, an increase to the tasks too.
unfoldable pub add_charm_val : ℤ → Player → Call
add_charm_val val p =
    if ltb_ℤ val (pos 0)
    then (p, value Value.charm_val p)
    else if ltb_ℤ (add32 (value Value.charm_val p) val) (pos 0)
    then (put Value.charm_val max_int32 p, max_int32)
    else let (q, v) = inc_value Value.charm_val val p in
      (emit (Effect.rank_update rank_charm v) (emit (Effect.task_update task_charm_value v) q), v)

unfoldable pub sub_charm_val : ℤ → Player → Call
sub_charm_val val p =
    let (q, v) = inc_value Value.charm_val (neg32 val) p in
    if ltb_ℤ val (pos 0)
    then (p, value Value.charm_val p)
    else (emit (Effect.rank_update rank_charm v) q, v)

-- No saturation here: the machine's sum wraps.
unfoldable pub add_star : ℤ → Player → Call
add_star star p =
    let (q, v) = inc_value Value.stars star p in
    if ltb_ℤ star (pos 0)
    then (p, value Value.stars p)
    else (emit (Effect.task_update task_star_num v) q, v)

unfoldable pub sub_star : ℤ → Player → Call
unfolding sub_value
sub_star = sub_value Value.stars

-- The growth in `CalcSpirit`: `used` seconds have gone by since the last save, more than `period`,
-- the seconds that one point takes. `remain` is what `*remain_next_secs` holds.
unfoldable pub grow_spirit : ℤ → LevelItem → ℤ → ℤ → ℤ → ℤ → Player → Option (Player × ℤ × ℤ)
grow_spirit minutes cp now used period remain p = do
  y ← rem32 used minutes
  points ← quot32 used period
  let curr = value Value.spirit p
  let full = ltb_ℤ cp.max_power (add32 curr points)
  let grow_points = if full then sub32 cp.max_power curr else points
  let grown = put Value.spirit (add32 curr grow_points) p
  let saved = record grown {
    info = record (grown.info) { save_last_spirit_point_time = sub32 now y };
  }
  some (
      if ltb_ℤ (pos 0) grow_points
      then (saved, value Value.spirit saved, period)
      else (p, curr, if full then pos 0 else remain))

unfoldable pub calc_spirit_at : Config → LevelItem → ℤ → Player → Option (Player × ℤ × ℤ)
calc_spirit_at cfg cp now p =
    let minutes = cfg.spirit_grow_point_need_minute in
    let period = mul32 minutes (pos 60) in
    let used = sub32 now p.info.save_last_spirit_point_time in
    let left = sub32 period used in
    let remain = if ltb_ℤ left (pos 0) then pos 0 else left in
    if ltb_ℤ (value Value.spirit p) cp.max_power && ltb_ℤ period used
    then grow_spirit minutes cp now used period remain p
    else some (p, value Value.spirit p, remain)

-- `CalcSpirit`: the new player, the spirit, and what `*remain_next_secs` holds afterwards. A caller
-- that passes nil drops the last. A player whose level is not in the table grows none.
unfoldable pub calc_spirit : Config → ℤ → ℤ → Player → Option (Player × ℤ × ℤ)
calc_spirit cfg now remain p = elim (lookup p.level cfg.levels.level_map) [
  | none ↦ some (p, value Value.spirit p, remain)
  | some cp ↦ calc_spirit_at cfg cp now p
]

unfoldable pub add_spirit : Config → ℤ → ℤ → Player → Option Call
add_spirit cfg now val p = do
  (q, _, _) ← calc_spirit cfg now (pos 0) p
  some (add_value Value.spirit val q)

unfoldable pub sub_spirit : Config → ℤ → ℤ → Player → Option Call
sub_spirit cfg now val p = do
  (q, _, _) ← calc_spirit cfg now (pos 0) p
  some (sub_value Value.spirit val q)
