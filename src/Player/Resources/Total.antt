-- ===== src/Player/Resources/Total.antt =====
-- Where giving resources (AddItemResource) could panic: what it divides by, and the rows that it
-- looks up.
use mm_server.Prelude.{
  ℕ, zero, suc, ◌+◌, ◌-◌, ◌≤◌, ◌<◌, refl, ◌≢◌, Bool-cases, ◌&&◌, List, [], ◌∷◌, arith, leb, inl,
  inr, if◌then◌else◌, Option-cases,
}
use mm_server.Prelude.Fault.{IsTotal, IsTotal->>=, if-IsTotal}
use mm_server.Prelude.Int.{ℤ, pos, negsuc, ltb_ℤ, leb_ℤ, int_eq}
use mm_server.Prelude.Int32.{mul32, sub32, quot32, rem32}
use mm_server.Prelude.Lists.{length, get_elem?}
use mm_server.Prelude.Dict.{lookup}
use mm_server.Player.State.{Player, Config, LevelItem, LevelTable, value, Value}
use mm_server.Player.Values.{add_spirit, calc_spirit, calc_spirit_at, grow_spirit}
use mm_server.Player.Level.{add_exp, add_exp_by, add_exp_at, store_level, level_loop}
use mm_server.Player.Items.{ResourceId, resource_id}
use mm_server.Player.Resources.{add_resource_of, add_item_resource, add_resources}

-- What the tables and settings of the game have for these calls.
pub record IsConfig (cfg : Config) : Type 0 where
  pub minutes : cfg.spirit_grow_point_need_minute ≢ pos 0
  pub period : mul32 cfg.spirit_grow_point_need_minute (pos 60) ≢ pos 0
  pub rows : cfg.levels.max_level ≤ length cfg.levels.array

rem32-IsTotal : (a b : ℤ) → b ≢ pos 0 → IsTotal (rem32 a b)
unfolding rem32
rem32-IsTotal a (pos zero) h = absurd (h refl)
rem32-IsTotal (pos m) (pos (suc n)) h = tt
rem32-IsTotal (negsuc m) (pos (suc n)) h = tt
rem32-IsTotal (pos m) (negsuc n) h = tt
rem32-IsTotal (negsuc m) (negsuc n) h = tt

quot32-IsTotal : (a b : ℤ) → b ≢ pos 0 → IsTotal (quot32 a b)
unfolding quot32
quot32-IsTotal a (pos zero) h = absurd (h refl)
quot32-IsTotal (pos m) (pos (suc n)) h = tt
quot32-IsTotal (negsuc m) (pos (suc n)) h = tt
quot32-IsTotal (pos m) (negsuc n) h = tt
quot32-IsTotal (negsuc m) (negsuc n) h = tt

get_elem?-IsTotal : {A : Type 0} (xs : List A) (i : ℕ) → i < length xs → IsTotal (get_elem? xs i)
get_elem?-IsTotal [] i h = absurd (omega arith)
get_elem?-IsTotal (x ∷ xs) zero h = tt
get_elem?-IsTotal (x ∷ xs) (suc i) h = get_elem?-IsTotal xs i (omega arith)

grow_spirit-IsTotal :
    (minutes : ℤ) (cp : LevelItem) (now used period remain : ℤ) (p : Player)
    → minutes ≢ pos 0
    → period ≢ pos 0
    → IsTotal (grow_spirit minutes cp now used period remain p)
unfolding grow_spirit
grow_spirit-IsTotal minutes cp now used period remain p h k =
    IsTotal->>= (rem32 used minutes) _ (rem32-IsTotal used minutes h)
      (λ y. IsTotal->>= (quot32 used period) _ (quot32-IsTotal used period k) (λ n. tt))

calc_spirit_at-IsTotal :
    (cfg : Config) (cp : LevelItem) (now : ℤ) (p : Player)
    → IsConfig cfg
    → IsTotal (calc_spirit_at cfg cp now p)
unfolding calc_spirit_at
calc_spirit_at-IsTotal cfg cp now p c =
    let period = mul32 cfg.spirit_grow_point_need_minute (pos 60) in
    let used = sub32 now p.info.save_last_spirit_point_time in
    let left = sub32 period used in
    elim (Bool-cases (ltb_ℤ (value Value.spirit p) cp.max_power && ltb_ℤ period used)) [
      | inl due ↦ rw due (
          grow_spirit-IsTotal cfg.spirit_grow_point_need_minute cp now used period
            (if ltb_ℤ left (pos 0) then pos 0 else left) p (c.minutes) (c.period))
      | inr rest ↦ rw rest tt
    ]

pub calc_spirit-IsTotal :
    (cfg : Config) (now remain : ℤ) (p : Player)
    → IsConfig cfg
    → IsTotal (calc_spirit cfg now remain p)
unfolding calc_spirit
calc_spirit-IsTotal cfg now remain p c = elim (Option-cases (lookup p.level cfg.levels.level_map)) [
  | inl missing ↦ rw (missing, calc_spirit) tt
  | inr (cp, found) ↦ rw (found, calc_spirit) (calc_spirit_at-IsTotal cfg cp now p c)
]

level_loop-IsTotal :
    (array : List LevelItem) (n lvl : ℕ) (exp : ℤ)
    → 0 < lvl
    → lvl + n ≤ length array + 1
    → IsTotal (level_loop array n lvl exp)
unfolding level_loop
level_loop-IsTotal array zero lvl exp one h = tt
level_loop-IsTotal array (suc n) lvl exp one h =
    IsTotal->>= (get_elem? array (lvl - 1)) _ (get_elem?-IsTotal array (lvl - 1) (omega arith))
      (λ row.
        if-IsTotal (leb_ℤ row.max_exp exp) _ _
          (level_loop-IsTotal array n (lvl + 1) _ (omega arith) (omega arith)) tt)

add_exp_at-IsTotal :
    (t : LevelTable) (lvl : ℕ) (exp : ℤ) (p : Player)
    → t.max_level ≤ length t.array
    → IsTotal (add_exp_at t (suc lvl) exp p)
unfolding add_exp_at store_level
add_exp_at-IsTotal t lvl exp p h = elim (Bool-cases (leb (suc lvl + 1) t.max_level)) [
  | inl below ↦ rw below (
      IsTotal->>= (level_loop t.array (t.max_level - suc lvl) (suc lvl) exp) _
        (level_loop-IsTotal t.array (t.max_level - suc lvl) (suc lvl) exp (omega arith)
          (ground arith))
        (λ (l, e). tt))
  | inr last ↦ rw last tt
]

by_level :
    (t : LevelTable) (exp : ℤ) (p : Player) (l : ℤ)
    → t.max_level ≤ length t.array
    → IsTotal (add_exp_by t l exp p)
unfolding add_exp_by
by_level t exp p (pos zero) h = tt
by_level t exp p (pos (suc l)) h = add_exp_at-IsTotal t l exp p h
by_level t exp p (negsuc l) h = tt

add_exp-IsTotal :
    (t : LevelTable) (v : ℤ) (p : Player) → t.max_level ≤ length t.array → IsTotal (add_exp t v p)
unfolding add_exp
add_exp-IsTotal t v p h = if-IsTotal (ltb_ℤ v (pos 0)) _ _ tt (by_level t _ p p.level h)

add_spirit-IsTotal :
    (cfg : Config) (now v : ℤ) (p : Player) → IsConfig cfg → IsTotal (add_spirit cfg now v p)
unfolding add_spirit
add_spirit-IsTotal cfg now v p c =
    IsTotal->>= (calc_spirit cfg now (pos 0) p) _ (calc_spirit-IsTotal cfg now (pos 0) p c)
      (λ r. tt)

pub add_item_resource-IsTotal :
    (r : ResourceId) (cfg : Config) (now id num : ℤ) (p : Player)
    → IsConfig cfg
    → IsTotal (add_resource_of r cfg now id num p)
unfolding add_resource_of
add_item_resource-IsTotal ResourceId.spirit cfg now id num p c = add_spirit-IsTotal cfg now num p c
add_item_resource-IsTotal ResourceId.exp_value cfg now id num p c =
    IsTotal->>= (add_exp cfg.levels num p) _ (add_exp-IsTotal cfg.levels num p (c.rows)) (λ r. tt)
add_item_resource-IsTotal ResourceId.rmb cfg now id num p c = tt
add_item_resource-IsTotal ResourceId.gold cfg now id num p c = tt
add_item_resource-IsTotal ResourceId.diamond cfg now id num p c = tt
add_item_resource-IsTotal ResourceId.cat_food cfg now id num p c = tt
add_item_resource-IsTotal ResourceId.friend_point cfg now id num p c = tt
add_item_resource-IsTotal ResourceId.charm_value cfg now id num p c = tt
add_item_resource-IsTotal ResourceId.soul_stone cfg now id num p c = tt
add_item_resource-IsTotal ResourceId.charm_medal cfg now id num p c = tt
add_item_resource-IsTotal ResourceId.item cfg now id num p c = tt

pub add_resources-IsTotal :
    (cfg : Config) (now : ℤ) (res : List ℤ) (p : Player)
    → IsConfig cfg
    → IsTotal (add_resources cfg now res p)
unfolding add_resources add_item_resource
add_resources-IsTotal cfg now [] p c = tt
add_resources-IsTotal cfg now (id ∷ []) p c = tt
add_resources-IsTotal cfg now (id ∷ num ∷ rest) p c =
    IsTotal->>= (add_resource_of (resource_id id) cfg now id num p) _
      (add_item_resource-IsTotal (resource_id id) cfg now id num p c)
      (λ r. add_resources-IsTotal cfg now rest r.0 c)
