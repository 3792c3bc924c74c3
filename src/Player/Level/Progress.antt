-- ===== src/Player/Level/Progress.antt =====
-- No experience is lost between levels, and a player stops where the next level is not covered.
use mm_server.Prelude.{
  ℕ, zero, suc, ◌+◌, ◌-◌, ◌≤◌, ◌<◌, ◌^◌, ◌≡◌, refl, ◌⊎◌, inl, inr, none, some, List, arith,
  Bool-cases, true, false, leb, leb→le, ap,
}
use mm_server.Prelude.Fault.{Returns, Returns-map, Returns->>=}
use mm_server.Prelude.Int.{ℤ, pos, pos_part, ltb_ℤ, leb_ℤ}
use mm_server.Prelude.Int32.{add32, sub32_pos, add32_pos}
use mm_server.Prelude.Lists.{length, get_elem?, All, get_elem?-All}
use mm_server.Player.State.{Value, Player, LevelItem, LevelTable, value}
use mm_server.Player.Level.{level_loop, store_level, add_exp_by, add_exp_at, load_levels, add_exp}

-- Each row asks for a number of points that is not negative.
abbrev pub IsLevelRow : LevelItem → Type 0
IsLevelRow row = (m : ℕ) × (row.max_exp ≡ pos m)

-- The points that level `lvl` asks for; 0 past the table.
pub needed : List LevelItem → ℕ → ℕ
needed array lvl = elim (get_elem? array (lvl - 1)) [ none ↦ 0 | some row ↦ pos_part row.max_exp ]

-- The points that the `n` levels from `lvl` ask for together.
pub span : List LevelItem → ℕ → ℕ → ℕ
span array lvl zero = 0
span array lvl (suc n) = needed array lvl + span array (lvl + 1) n

-- A player who stood at `lvl` with `e` points has passed `passed` of at most `n` levels.
pub record Advanced (array : List LevelItem) (n lvl e : ℕ) (lvl' : ℕ) (exp' : ℤ) : Type 0 where
  pub passed : ℕ
  pub left : ℕ
  pub level_reached : lvl' ≡ lvl + passed
  pub exp_left : exp' ≡ pos left
  pub within : passed ≤ n
  pub conserved : e ≡ span array lvl passed + left
  pub stopped : (passed ≡ n) ⊎ (left < needed array lvl')

next_level :
    (array : List LevelItem) (n lvl m e : ℕ)
    → needed array lvl ≡ m
    → m ≤ e
    → (r : ℕ × ℤ) → Advanced array n (lvl + 1) (e - m) r.0 r.1
    → Advanced array (suc n) lvl e r.0 r.1
unfolding span
next_level array n lvl m e price covered r a = record {
  passed = suc a.passed;
  left = a.left;
  level_reached = omega (arith, a.level_reached);
  exp_left = a.exp_left;
  within = omega (arith, a.within);
  conserved = omega (arith, a.conserved, price);
  stopped = elim (a.stopped) [ inl last ↦ inl (ap suc last) | inr short ↦ inr short ];
}

needed_lem :
    (array : List LevelItem) (lvl m : ℕ) (row : LevelItem)
    → get_elem? array (lvl - 1) ≡ some row
    → row.max_exp ≡ pos m
    → needed array lvl ≡ m
unfolding needed
needed_lem array lvl m row found asks = rw (found, needed) (rw asks)

-- One round of the loop, from what the later rounds do.
level_round :
    (array : List LevelItem) (n lvl e m : ℕ) (row : LevelItem)
    → get_elem? array (lvl - 1) ≡ some row
    → row.max_exp ≡ pos m
    → e < 2 ^ 31
    → (m ≤ e
        → Returns
            (level_loop array n (lvl + 1) (pos (e - m)))
            (λ r. Advanced array n (lvl + 1) (e - m) r.0 r.1))
    → Returns (level_loop array (suc n) lvl (pos e)) (λ r. Advanced array (suc n) lvl e r.0 r.1)
unfolding level_loop span
level_round array n lvl e m row found asks small rest =
    rw (found, asks)
      (elim (Bool-cases (leb m e)) [
        | inl covered ↦
            let le = leb→le m e covered in
            rw (passes covered, sub32_pos e m le small)
              (Returns-map _ (next_level array n lvl m e price le) (rest le))
        | inr short ↦ rw (stops short) (record {
          passed = 0;
          left = e;
          level_reached = omega arith;
          exp_left = refl;
          within = omega arith;
          conserved = omega arith;
          stopped = inr (rw price (ground arith));
        })
      ])
  where
    price : needed array lvl ≡ m
    price = needed_lem array lvl m row found asks

    passes : leb m e ≡ true → leb_ℤ (pos m) (pos e) ≡ true
    passes h = ground arith

    stops : leb m e ≡ false → leb_ℤ (pos m) (pos e) ≡ false
    stops h = ground arith

level_loop-Advanced :
    (array : List LevelItem) (n lvl e : ℕ)
    → All IsLevelRow array
    → 0 < lvl
    → lvl - 1 + n ≤ length array
    → e < 2 ^ 31
    → Returns (level_loop array n lvl (pos e)) (λ r. Advanced array n lvl e r.0 r.1)
unfolding level_loop span
level_loop-Advanced array zero lvl e rows h len small = record {
  passed = 0;
  left = e;
  level_reached = omega arith;
  exp_left = refl;
  within = omega arith;
  conserved = omega arith;
  stopped = inl refl;
}
level_loop-Advanced array (suc n) lvl e rows h len small =
    let (row, found, (m, asks)) = get_elem?-All IsLevelRow array (lvl - 1) rows (omega arith) in
    level_round array n lvl e m row found asks small λ le.
      level_loop-Advanced array n (lvl + 1) (e - m) rows (omega arith) (omega arith) (omega arith)

-- What a call of `AddExp` that loops leaves behind.
pub record Progressed (t : LevelTable) (lvl e : ℕ) (p : Player) (r : Player × ℤ × ℤ) : Type 0 where
  pub level : ℕ
  pub level_result : r.1 ≡ pos level
  pub advanced : Advanced t.array (t.max_level - lvl) lvl e level r.2
  pub stored_level : r.0.level ≡ r.1
  pub stored_exp : value Value.exp r.0 ≡ r.2
  pub items : r.0.items ≡ p.items

store_level-Progressed :
    (t : LevelTable) (lvl e : ℕ) (p : Player) (r : ℕ × ℤ)
    → Advanced t.array (t.max_level - lvl) lvl e r.0 r.1
    → Returns (store_level lvl p r) (Progressed t lvl e p)
unfolding store_level
store_level-Progressed t lvl e p (lvl', exp') a = record {
  level = lvl';
  level_result = refl;
  advanced = a;
  stored_level = ground arith;
  stored_exp = ground arith;
  items = ground arith;
}

add_exp_at-Progressed :
    (t : LevelTable) (p : Player) (lvl e : ℕ)
    → All IsLevelRow t.array
    → t.max_level ≡ length t.array
    → 0 < lvl
    → lvl < t.max_level
    → e < 2 ^ 31
    → Returns (add_exp_at t lvl (pos e) p) (Progressed t lvl e p)
unfolding add_exp_at
add_exp_at-Progressed t p lvl e rows len h below small =
    let more : leb (lvl + 1) t.max_level ≡ true = ground arith in
    rw more (
      Returns->>= (Progressed t lvl e p) _ (store_level lvl p)
        (level_loop-Advanced t.array (t.max_level - lvl) lvl e rows h (omega arith) small)
        (store_level-Progressed t lvl e p))

add_exp_by_lem :
    (t : LevelTable) (lvl : ℕ) (l exp exp' : ℤ) (p : Player)
    → l ≡ pos (suc lvl)
    → exp ≡ exp'
    → add_exp_by t l exp p ≡ add_exp_at t (suc lvl) exp' p
unfolding add_exp_by
add_exp_by_lem t lvl l exp exp' p e f = rw (e, f)

-- `AddExp` of an amount that is not negative, for a player below the last level of a table that was
-- loaded from a file, where the sum of the points fits: it does not panic; the points that the passed
-- levels ask for and those that are left are together what the player had and what was added; the
-- player stops at the last level, or where the points do not cover the next one; level and points
-- are stored as they are returned, and no item changes.
pub add_exp-Progressed :
    (rows : List LevelItem) (p : Player) (lvl had add_val : ℕ)
    → All IsLevelRow rows
    → p.level ≡ pos (suc lvl)
    → value Value.exp p ≡ pos had
    → suc lvl < length rows
    → had + add_val < 2 ^ 31
    → Returns
        (add_exp (load_levels rows) (pos add_val) p)
        (Progressed (load_levels rows) (suc lvl) (had + add_val) p)
unfolding add_exp load_levels
add_exp-Progressed rows p lvl had add_val h hl hv below small =
    let nonneg : ltb_ℤ (pos add_val) (pos 0) ≡ false = ground arith in
    let sum : add32 (value Value.exp p) (pos add_val) ≡ pos (had + add_val) =
      rw hv (add32_pos had add_val small) in
    rw (nonneg, add_exp_by_lem (load_levels rows) lvl p.level _ _ p hl sum)
      (add_exp_at-Progressed (load_levels rows) p (suc lvl) (had + add_val) h refl (omega arith)
        below small)
