-- ===== src/Player/Values/Bounds.antt =====
-- The counters' arithmetic: an addition saturates, and which subtractions can leave a debt.
use mm_server.Prelude.{
  ◌≡◌, ◌||◌, ◌≢◌, refl, subst, ◌⊎◌, ◌↔◌, inl, inr, true, false, arith, if◌then◌else◌, Bool-cases,
}
use mm_server.Prelude.Int.{
  ℤ, pos, negsuc, ◌+ℤ◌, ◌-ℤ◌, ◌≤ℤ◌, ◌<ℤ◌, int_laws, +ℤ_parts, -ℤ_parts, eq_of_parts, ltb_ℤ,
}
use mm_server.Prelude.Int32.{
  add32, sub32, neg32, wrap32, max_int32, IsInt32, add32_fits, sub32_fits,
}
use mm_server.Player.State.{Value, Player, Info, get_value, set_value, value, put}
use mm_server.Player.Values.{Call, inc_value, add_value, sub_value, sub_diamond, sub_cat_food}

-- A counter that is not in debt: 0 ≤ v < 2^31.
abbrev pub IsCount : ℤ → Type 0
IsCount v = (pos 0 ≤ℤ v) × (v ≤ℤ max_int32)

pub get_value-set_value : (f : Value) (v : ℤ) (i : Info) → get_value f (set_value f v i) ≡ v
get_value-set_value Value.gold v i = refl
get_value-set_value _ v i = refl

pub get_value-set_value_ne :
    (f g : Value) (v : ℤ) (i : Info) → f ≢ g → get_value g (set_value f v i) ≡ get_value g i
get_value-set_value_ne Value.gold Value.gold v i h = absurd (h refl)
get_value-set_value_ne Value.diamond Value.diamond v i h = absurd (h refl)
get_value-set_value_ne Value.cat_food Value.cat_food v i h = absurd (h refl)
get_value-set_value_ne Value.spirit Value.spirit v i h = absurd (h refl)
get_value-set_value_ne Value.friend_points Value.friend_points v i h = absurd (h refl)
get_value-set_value_ne Value.charm_val Value.charm_val v i h = absurd (h refl)
get_value-set_value_ne Value.exp Value.exp v i h = absurd (h refl)
get_value-set_value_ne Value.soul_stone Value.soul_stone v i h = absurd (h refl)
get_value-set_value_ne Value.charm_medal Value.charm_medal v i h = absurd (h refl)
get_value-set_value_ne Value.stars Value.stars v i h = absurd (h refl)
get_value-set_value_ne _ _ v i h = refl

-- The sum of two counters in the machine: the true sum, or negative.
pub add32_counts :
    (a b : ℤ)
    → IsCount a
    → IsCount b
    → ((a +ℤ b ≤ℤ max_int32) × (add32 a b ≡ a +ℤ b))
      ⊎ ((max_int32 <ℤ a +ℤ b) × (add32 a b <ℤ pos 0))
unfolding add32 wrap32 ◌+ℤ◌
add32_counts (pos m) (pos n) h k = ground arith
add32_counts (negsuc m) b h k = absurd (omega arith)
add32_counts (pos m) (negsuc n) h k = absurd (omega arith)

-- The difference of two counters always fits.
pub sub32_counts : (a b : ℤ) → IsCount a → IsCount b → sub32 a b ≡ a -ℤ b
sub32_counts a b h k = sub32_fits a b (omega int_laws)

-- What an addition is to leave in a counter that holds `c`.
unfoldable pub capped_sum : ℤ → ℤ → ℤ
capped_sum c val =
    if ltb_ℤ val (pos 0) then c else if ltb_ℤ max_int32 (c +ℤ val) then max_int32 else c +ℤ val

pub capped_sum-IsCount : (c val : ℤ) → IsCount c → IsCount (capped_sum c val)
unfolding capped_sum ◌+ℤ◌
capped_sum-IsCount c val h = ground arith

-- What a call does to the counter `f`, to the others, and to the rest of the player.
pub record Updates (f : Value) (p : Player) (c : Call) (v : ℤ) : Type 0 where
  pub stored : value f c.0 ≡ v
  pub result : c.1 ≡ v
  pub others : (g : Value) → f ≢ g → value g c.0 ≡ value g p
  pub level : c.0.level ≡ p.level
  pub items : c.0.items ≡ p.items

put-Updates : (f : Value) (v : ℤ) (p : Player) → Updates f p (put f v p, v) v
put-Updates f v p = record {
  stored = get_value-set_value f v p.info;
  result = refl;
  others = λ g h. get_value-set_value_ne f g v p.info h;
  level = refl;
  items = refl;
}

inc_value-Updates :
    (f : Value) (val : ℤ) (p : Player) → Updates f p (inc_value f val p) (add32 (value f p) val)
unfolding inc_value
inc_value-Updates f val p = record {
  stored = get_value-set_value f _ p.info;
  result = refl;
  others = λ g h. get_value-set_value_ne f g _ p.info h;
  level = refl;
  items = refl;
}

same-Updates : (f : Value) (p : Player) → Updates f p (p, value f p) (value f p)
same-Updates f p = record {
  stored = refl;
  result = refl;
  others = λ g h. refl;
  level = refl;
  items = refl;
}

Updates-eq :
    {f : Value} {p : Player} {c : Call} {v w : ℤ} → v ≡ w → Updates f p c v → Updates f p c w
Updates-eq {f} {p} {c} e u = subst (λ x. Updates f p c x) e u

-- A counter that is not in debt.
pub add_value_counts :
    (f : Value) (val : ℤ) (p : Player)
    → IsCount (value f p)
    → IsInt32 val
    → Updates f p (add_value f val p) (capped_sum (value f p) val)
unfolding add_value capped_sum
add_value_counts f val p h k = elim (Bool-cases (ltb_ℤ val (pos 0))) [
  | inl neg ↦ rw neg (same-Updates f p)
  | inr nonneg ↦ rw nonneg (elim (add32_counts (value f p) val h (ground arith, k.upper)) [
    | inl (fits, sum) ↦
        let inc = inc_value-Updates f val p in
        let no_wrap : ltb_ℤ (add32 (value f p) val) (pos 0) ≡ false =
          rw sum (ground (arith, +ℤ_parts (value f p) val)) in
        let no_cap : ltb_ℤ max_int32 (value f p +ℤ val) ≡ false = ground arith in
        rw (no_wrap, no_cap) (Updates-eq sum inc)
    | inr (over, wrapped) ↦
        let wrap : ltb_ℤ (add32 (value f p) val) (pos 0) ≡ true = ground arith in
        let cap : ltb_ℤ max_int32 (value f p +ℤ val) ≡ true = ground arith in
        rw (wrap, cap) (put-Updates f max_int32 p)
  ])
]

-- What an addition leaves in any counter: a sum that is negative is taken for one that is too large.
unfoldable pub saturated_sum : ℤ → ℤ → ℤ
saturated_sum c val =
    if ltb_ℤ val (pos 0)
    then c
    else if ltb_ℤ (c +ℤ val) (pos 0) || ltb_ℤ max_int32 (c +ℤ val)
    then max_int32
    else c +ℤ val

saturated_counts : (c val : ℤ) → IsCount c → capped_sum c val ≡ saturated_sum c val
unfolding capped_sum saturated_sum ◌+ℤ◌
saturated_counts c val h = ground arith

pub add_value-Updates :
    (f : Value) (val : ℤ) (p : Player)
    → IsInt32 (value f p)
    → IsInt32 val
    → Updates f p (add_value f val p) (saturated_sum (value f p) val)
unfolding add_value saturated_sum
add_value-Updates f val p h k =
    let lower = h.lower in
    let upper = h.upper in
    elim (Bool-cases (ltb_ℤ (value f p) (pos 0))) [
      | inr count ↦
          let c : IsCount (value f p) = (ground arith, upper) in
          Updates-eq (saturated_counts (value f p) val c) (add_value_counts f val p c k)
      | inl debt ↦ elim (Bool-cases (ltb_ℤ val (pos 0))) [
        | inl neg ↦ rw neg (same-Updates f p)
        | inr nonneg ↦
            let below = k.upper in
            let amount : pos 0 ≤ℤ val = ground arith in
            let owed : value f p <ℤ pos 0 = ground arith in
            let fits : IsInt32 (value f p +ℤ val) = omega int_laws in
            let sum = add32_fits (value f p) val fits in
            let inc = inc_value-Updates f val p in
            let no_cap : ltb_ℤ max_int32 (value f p +ℤ val) ≡ false = ground arith in
            elim (Bool-cases (ltb_ℤ (value f p +ℤ val) (pos 0))) [
              | inl under ↦ rw (nonneg, sum, under) (put-Updates f max_int32 p)
              | inr fine ↦ rw (nonneg, sum, fine, no_cap) (Updates-eq sum inc)
            ]
      ]
    ]

-- An addition never turns a counter into a debt.
pub add_value-IsCount :
    (f : Value) (val : ℤ) (p : Player)
    → IsCount (value f p)
    → IsInt32 val
    → IsCount (value f (add_value f val p).0)
unfolding capped_sum
add_value-IsCount f val p h k =
    let u = add_value_counts f val p h k in rw (u.stored) (grind (int_laws, h))

pub neg32_counts : (a b : ℤ) → IsCount a → IsCount b → add32 a (neg32 b) ≡ a -ℤ b
neg32_counts a b h k =
    let flipped : neg32 b ≡ pos 0 -ℤ b = unfold neg32 in sub32_counts (pos 0) b (omega arith) k in
    let fits : IsInt32 (a +ℤ (pos 0 -ℤ b)) = omega int_laws in
    rw (flipped, add32_fits a (pos 0 -ℤ b) fits) (omega int_laws)

-- What a subtraction without a check leaves.
unfoldable pub debt : ℤ → ℤ → ℤ
debt c val = if ltb_ℤ val (pos 0) then c else c -ℤ val

-- A subtraction of a non-negative amount takes the whole amount, whether or not the counter covers
-- it; a negative amount changes nothing. No other counter and no item changes.
pub sub_value-Updates :
    (f : Value) (val : ℤ) (p : Player)
    → IsCount (value f p)
    → IsInt32 val
    → Updates f p (sub_value f val p) (debt (value f p) val)
unfolding sub_value debt
sub_value-Updates f val p h k = elim (Bool-cases (ltb_ℤ val (pos 0))) [
  | inl neg ↦ rw neg (same-Updates f p)
  | inr nonneg ↦
      let inc = inc_value-Updates f (neg32 val) p in
      rw nonneg (Updates-eq (neg32_counts (value f p) val h (ground arith, k.upper)) inc)
]

-- A subtraction of a non-negative amount leaves no debt exactly when the counter covers the amount.
sub_value_debt :
    (f : Value) (val : ℤ) (p : Player)
    → IsCount (value f p)
    → IsCount val
    → IsCount (value f (sub_value f val p).0) ↔ (val ≤ℤ value f p)
unfolding debt
sub_value_debt f val p h k =
    let u = sub_value-Updates f val p h (record { lower = omega arith; upper = k.1 }) in
    let nonneg : ltb_ℤ val (pos 0) ≡ false = ground arith in
    let left : debt (value f p) val ≡ value f p -ℤ val = rw nonneg in
    rw (u.stored, left) (λ c. omega int_laws, λ c. (omega int_laws, omega int_laws))

-- A subtraction of diamonds takes the amount if the counter covers it, and else leaves 0.
pub sub_diamond_clamps :
    (val : ℤ) (p : Player)
    → IsCount (value Value.diamond p)
    → IsCount val
    → IsCount (value Value.diamond (sub_diamond val p).0)
      × ((val ≤ℤ value Value.diamond p
          → value Value.diamond (sub_diamond val p).0 ≡ value Value.diamond p -ℤ val))
      × ((value Value.diamond p <ℤ val) → value Value.diamond (sub_diamond val p).0 ≡ pos 0)
unfolding sub_diamond
sub_diamond_clamps val p h k =
    ground (arith, sub32_counts p.info.diamond val h k, -ℤ_parts p.info.diamond val)

-- Cat food is taken whole, or not at all where there is less; no other counter and no item changes.
sub_cat_food_all_or_nothing :
    (val : ℤ) (p : Player)
    → IsCount (value Value.cat_food p)
    → IsCount val
    → Updates Value.cat_food p (sub_cat_food val p) (
        if ltb_ℤ (value Value.cat_food p) val
        then value Value.cat_food p
        else value Value.cat_food p -ℤ val)
unfolding sub_cat_food debt
sub_cat_food_all_or_nothing val p h k = elim (Bool-cases (ltb_ℤ (value Value.cat_food p) val)) [
  | inl short ↦ rw short (rw nonneg (same-Updates Value.cat_food p))
  | inr covered ↦
      rw (nonneg, covered)
        (Updates-eq (rw nonneg)
          (sub_value-Updates Value.cat_food val p h (record { lower = omega arith; upper = k.1 })))
]
  where
    nonneg : ltb_ℤ val (pos 0) ≡ false
    nonneg = ground arith

pub capped_sum_nonpos : (c val : ℤ) → IsCount c → val ≤ℤ pos 0 → capped_sum c val ≡ c
unfolding capped_sum
capped_sum_nonpos c val h k = elim (Bool-cases (ltb_ℤ val (pos 0))) [
  | inl neg ↦ rw neg
  | inr zero ↦
      let same : c +ℤ val ≡ c = ground (arith, +ℤ_parts c val, eq_of_parts (c +ℤ val) c) in
      let fits : ltb_ℤ max_int32 c ≡ false = ground arith in rw (zero, same, fits)
]
