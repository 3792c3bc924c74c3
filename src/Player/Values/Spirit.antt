-- ===== src/Player/Values/Spirit.antt =====
-- How `CalcSpirit` grows the spirit, against a description in numbers.
use mm_server.Prelude.{
  ℕ, ◌+◌, ◌-◌, ◌*◌, ◌/◌, ◌%◌, ◌≤◌, ◌<◌, ◌^◌, ◌≡◌, refl, some, arith, ltb, ◌&&◌, if◌then◌else◌, min,
  max, Bool-cases, inl, inr,
}
use mm_server.Prelude.Fault.{Returns}
use mm_server.Prelude.Int.{ℤ, pos, ltb_ℤ, int_eq}
use mm_server.Prelude.Int32.{sub32, mul32, add32_pos, sub32_pos, mul32_pos, quot32_pos, rem32_pos}
use mm_server.Prelude.Dict.{lookup}
use mm_server.Player.State.{Value, Player, Config, LevelItem, value}
use mm_server.Player.Values.{grow_spirit, calc_spirit_at, calc_spirit}

-- The spirit that is due `used` seconds after the last save, where a point takes `minutes` minutes.
pub due_spirit : ℕ → ℕ → ℕ → ℕ → ℕ
due_spirit minutes cap spirit used =
    if ltb spirit cap && ltb (minutes * 60) used
    then min cap (spirit + used / (minutes * 60))
    else spirit

-- A save moves the time on by less than the whole of what went by.
pub saved_time : ℕ → ℕ → ℕ → ℕ → ℕ → ℕ
saved_time minutes cap spirit last now =
    if ltb spirit cap && ltb (minutes * 60) (now - last) then now - (now - last) % minutes else last

pub record Grown (p : Player) (spirit last : ℕ) (c : Player × ℤ × ℤ) : Type 0 where
  pub stored : value Value.spirit c.0 ≡ pos spirit
  pub result : c.1 ≡ pos spirit
  pub time : c.0.info.save_last_spirit_point_time ≡ pos last
  pub level : c.0.level ≡ p.level
  pub items : c.0.items ≡ p.items

points_pos : (period used : ℕ) → 0 < period → period < used → 0 < used / period
points_pos period used h k = grind arith

points_le : (period used : ℕ) → 60 ≤ period → used / period * 60 ≤ used
points_le period used h = grind arith

-- The growth itself: here the time since the last save is more than a point takes.
grow_spirit-Grown :
    (cp : LevelItem) (p : Player) (minutes cap spirit used now : ℕ) (m u period remain : ℤ)
    → m ≡ pos minutes
    → u ≡ pos used
    → period ≡ pos (minutes * 60)
    → cp.max_power ≡ pos cap
    → value Value.spirit p ≡ pos spirit
    → 0 < minutes
    → cap < 2 ^ 30
    → spirit < cap
    → minutes * 60 < used
    → used ≤ now
    → now < 2 ^ 31
    → Returns
        (grow_spirit m cp (pos now) u period remain p)
        (Grown p (min cap (spirit + used / (minutes * 60))) (now - used % minutes))
unfolding grow_spirit
grow_spirit-Grown cp p minutes cap spirit used now m u period remain hm hu hp hc hs c c0 c1 c2 c3
      c4 =
    rw (hm, hu, hp, rem32_pos used minutes c, quot32_pos used (minutes * 60) (omega arith), hc, hs)
      (ground (
        arith,
        points_pos (minutes * 60) used,
        points_le (minutes * 60) used,
        add32_pos spirit (used / (minutes * 60)),
        sub32_pos cap spirit,
        add32_pos spirit (cap - spirit),
        sub32_pos now (used % minutes),
      ))

-- The numbers that a call of `CalcSpirit` reads, in ranges where the machine's sums are exact.
pub record Reads (cfg : Config) (p : Player) (now minutes cap spirit last : ℕ) : Type 0 where
  pub cp : LevelItem
  pub found : lookup p.level cfg.levels.level_map ≡ some cp
  pub minutes_read : cfg.spirit_grow_point_need_minute ≡ pos minutes
  pub cap_read : cp.max_power ≡ pos cap
  pub spirit_read : value Value.spirit p ≡ pos spirit
  pub last_read : p.info.save_last_spirit_point_time ≡ pos last
  pub minutes_pos : 0 < minutes
  pub period_small : minutes * 60 < 2 ^ 31
  pub cap_small : cap < 2 ^ 30
  pub past : last ≤ now
  pub now_small : now < 2 ^ 31

calc_spirit_at-Grown :
    (cfg : Config) (p : Player) {now minutes cap spirit last : ℕ}
    (r : Reads cfg p now minutes cap spirit last)
    → Returns (calc_spirit_at cfg r.cp (pos now) p) (
        Grown p
          (due_spirit minutes cap spirit (now - last))
          (saved_time minutes cap spirit last now))
unfolding calc_spirit_at due_spirit saved_time
calc_spirit_at-Grown cfg p {now} {minutes} {cap} {spirit} {last} r =
    rw same_test (elim (Bool-cases (ltb spirit cap && ltb (minutes * 60) (now - last))) [
      | inl due ↦ rw due (
          grow_spirit-Grown r.cp p minutes cap spirit (now - last) now _ _ _ _ r.minutes_read used
            period r.cap_read r.spirit_read r.minutes_pos r.cap_small (ground arith) (ground arith)
            (omega arith) r.now_small)
      | inr not_due ↦ rw not_due (record {
        stored = r.spirit_read;
        result = r.spirit_read;
        time = r.last_read;
        level = refl;
        items = refl;
      })
    ])
  where
    used : sub32 (pos now) p.info.save_last_spirit_point_time ≡ pos (now - last)
    used = rw (r.last_read) (sub32_pos now last r.past r.now_small)

    period : mul32 cfg.spirit_grow_point_need_minute (pos 60) ≡ pos (minutes * 60)
    period = rw (r.minutes_read) (mul32_pos minutes 60 r.period_small)

    same_test :
        (ltb_ℤ (value Value.spirit p) r.cp.max_power
          && ltb_ℤ
              (mul32 cfg.spirit_grow_point_need_minute (pos 60))
              (sub32 (pos now) p.info.save_last_spirit_point_time))
        ≡ (ltb spirit cap && ltb (minutes * 60) (now - last))
    same_test = rw (used, period, r.spirit_read, r.cap_read) (ground arith)

-- Where a point takes at least a minute, the player's level is in the table, the spirit and its
-- maximum are not negative, the maximum is below 2 ^ 30, and the last save lies before now, after
-- 1970 and in the range of an int32: `CalcSpirit` does not panic. It leaves the spirit alone where
-- it has reached the level's maximum or too little time has passed, and else adds the points that
-- are due, up to the maximum; the time of the last save moves on only then. It returns the spirit
-- that it leaves.
pub calc_spirit-Grown :
    (cfg : Config) (p : Player) (remain : ℤ) {now minutes cap spirit last : ℕ}
    → Reads cfg p now minutes cap spirit last
    → Returns (calc_spirit cfg (pos now) remain p) (
        Grown p
          (due_spirit minutes cap spirit (now - last))
          (saved_time minutes cap spirit last now))
unfolding calc_spirit
calc_spirit-Grown cfg p remain r = rw (r.found, calc_spirit) (calc_spirit_at-Grown cfg p r)

-- The spirit never falls by waiting, and waiting takes no one above the level's maximum.
pub due_spirit_bounds :
    (minutes cap spirit used : ℕ)
    → (spirit ≤ due_spirit minutes cap spirit used)
      × (due_spirit minutes cap spirit used ≤ max spirit cap)
unfolding due_spirit
due_spirit_bounds minutes cap spirit used = ground arith
