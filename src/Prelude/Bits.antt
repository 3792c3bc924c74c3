-- ===== src/Prelude/Bits.antt =====
-- Facts about `bit_and` and `bit_or` at variables.
use Prim.Native.Nat.{
  ℕ, zero, suc, ◌+◌, ◌*◌, ◌/◌, ◌%◌, ◌≤◌, ◌<◌, ◌^◌, min, max, bit_and, bit_or, digits,
  bit_and-bitwise, bit_or-bitwise,
}
use mathlib.Core.Path.{◌≡◌, refl, ◌∙◌, sym, ap, ap₂}
use native.Mathlib.Omega.{arith}
use native.Mathlib.Nat.{pow-suc, mod-lt, mod-add-div', mod-eq_of_lt, add-mul-mod_self_right}

-- What holds of 0, and of a number where it holds of its half, holds of each number.
halves_below :
    (P : ℕ → Type 0) → P 0 → ((a : ℕ) → P (a / 2) → P a) → (bound a : ℕ) → a < bound → P a
halves_below P base step zero a h = absurd (omega arith)
halves_below P base step (suc bound) zero h = base
halves_below P base step (suc bound) (suc a) h =
    step (suc a) (halves_below P base step bound (suc a / 2) (omega arith))

by_halves : (P : ℕ → Type 0) → P 0 → ((a : ℕ) → P (a / 2) → P a) → (a : ℕ) → P a
by_halves P base step a = halves_below P base step (suc a) a (omega arith)

module _ (alone : ℕ → ℕ) (join : ℕ → ℕ → ℕ) where
  -- Rounds that are left over change nothing.
  spare_rounds :
      (rounds used x y : ℕ)
      → used ≤ rounds
      → x ≤ used
      → digits alone join rounds x y ≡ digits alone join used x y
  spare_rounds zero zero zero y more h = refl
  spare_rounds (suc rounds) zero zero y more h = refl
  spare_rounds rounds zero (suc x) y more h = absurd (omega arith)
  spare_rounds zero (suc used) x y more h = absurd (omega arith)
  spare_rounds (suc rounds) (suc used) zero y more h = refl
  spare_rounds (suc rounds) (suc used) (suc x) y more h =
      let rest = spare_rounds rounds used (suc x / 2) (y / 2) (omega arith) (omega arith) in
      ap (λ r. r * 2 + join (suc x % 2) (y % 2)) rest

  lowest_digit :
      (x y : ℕ)
      → digits alone join (suc x) (suc x) y
        ≡ digits alone join (suc x / 2) (suc x / 2) (y / 2) * 2 + join (suc x % 2) (y % 2)
  lowest_digit x y =
      let half = suc x / 2 in
      ap (λ r. r * 2 + join (suc x % 2) (y % 2))
        (spare_rounds x half half (y / 2) (omega arith) (omega arith))

pub bit_and_step : (a b : ℕ) → bit_and a b ≡ bit_and (a / 2) (b / 2) * 2 + min (a % 2) (b % 2)
bit_and_step zero b =
    let none_left = bit_and-bitwise 0 (b / 2) in omega (arith, none_left, bit_and-bitwise 0 b)
bit_and_step (suc a) b =
    bit_and-bitwise (suc a) b
    ∙ lowest_digit (λ y. zero) min a b
    ∙ ap (λ r. r * 2 + min (suc a % 2) (b % 2)) (sym (bit_and-bitwise (suc a / 2) (b / 2)))

pub bit_or_step : (a b : ℕ) → bit_or a b ≡ bit_or (a / 2) (b / 2) * 2 + max (a % 2) (b % 2)
bit_or_step zero b =
    let other_left = bit_or-bitwise 0 (b / 2) in omega (arith, other_left, bit_or-bitwise 0 b)
bit_or_step (suc a) b =
    bit_or-bitwise (suc a) b
    ∙ lowest_digit (λ y. y) max a b
    ∙ ap (λ r. r * 2 + max (suc a % 2) (b % 2)) (sym (bit_or-bitwise (suc a / 2) (b / 2)))

with_none : (a : ℕ) → bit_or a 0 ≡ a
with_none = by_halves (λ a. bit_or a 0 ≡ a) refl (λ a half. omega (arith, bit_or_step a 0, half))

pow_double : (k : ℕ) → 2 ^ suc k ≡ 2 ^ k * 2
pow_double k = pow-suc 2 k

scaled : (k a : ℕ) → a * 2 ^ suc k ≡ a * 2 ^ k * 2
scaled k a = ap (λ p. a * p) (pow_double k) ∙ grind arith

-- Digits that stand apart are put together by `bit_or`.
pub bit_or_disjoint : (k a b : ℕ) → b < 2 ^ k → bit_or (a * 2 ^ k) b ≡ a * 2 ^ k + b
bit_or_disjoint zero a zero h = with_none (a * 1) ∙ omega arith
bit_or_disjoint zero a (suc b) h = absurd (omega arith)
bit_or_disjoint (suc k) a b h =
    let half = bit_or_disjoint k a (b / 2) (omega (arith, pow_double k)) in
    let whole = bit_or_step (a * 2 ^ k * 2) b in
    let at_half : bit_or (a * 2 ^ k * 2 / 2) (b / 2) ≡ a * 2 ^ k + b / 2 =
      ap (λ x. bit_or x (b / 2)) (omega arith) ∙ half in
    ap (λ x. bit_or x b) (scaled k a) ∙ omega (arith, whole, at_half, scaled k a)

halved : (x : ℕ) → x * 2 / 2 ≡ x
halved x = omega arith

-- Digits that a mask leaves out.
pub bit_and_shifted : (k a b : ℕ) → bit_and (a * 2 ^ k) (b * 2 ^ k) ≡ bit_and a b * 2 ^ k
bit_and_shifted zero a b =
    let left : a * 1 ≡ a = omega arith in
    let right : b * 1 ≡ b = omega arith in omega (arith, ap₂ bit_and left right)
bit_and_shifted (suc k) a b =
    let half = bit_and_shifted k a b in
    let whole = bit_and_step (a * 2 ^ k * 2) (b * 2 ^ k * 2) in
    let at_half : bit_and (a * 2 ^ k * 2 / 2) (b * 2 ^ k * 2 / 2) ≡ bit_and a b * 2 ^ k =
      ap₂ bit_and (halved (a * 2 ^ k)) (halved (b * 2 ^ k)) ∙ half in
    ap₂ bit_and (scaled k a) (scaled k b) ∙ omega (arith, whole, at_half, scaled k (bit_and a b))

abbrev pub IsMask : ℕ → Type 0
IsMask m = (a : ℕ) → bit_and a m ≡ a % suc m

mod_double : (a n : ℕ) → 0 < n → a / 2 % n * 2 + a % 2 ≡ a % (n * 2)
mod_double a n h =
    let r = a / 2 % n * 2 + a % 2 in
    let q = a / 2 / n in
    let small : r < n * 2 = omega (arith, mod-lt (a / 2) {m = n} h) in
    let parts : a / 2 % n + a / 2 / n * n ≡ a / 2 = mod-add-div' (a / 2) n in
    let whole : r + q * (n * 2) ≡ a = grind arith in
    sym (mod-eq_of_lt small)
    ∙ sym (add-mul-mod_self_right r q (n * 2))
    ∙ ap (λ x. x % (n * 2)) whole

pub grow : (m : ℕ) → IsMask m → IsMask (suc (m * 2))
grow m h a =
    let step = bit_and_step a (suc (m * 2)) in
    let at_half : bit_and (a / 2) (suc (m * 2) / 2) ≡ a / 2 % suc m =
      ap (bit_and (a / 2)) (omega arith) ∙ h (a / 2) in
    let doubled = mod_double a (suc m) (omega arith) in
    let masked : bit_and a (suc (m * 2)) ≡ a % (suc m * 2) =
      omega (arith, step, at_half, doubled) in
    let same : suc m * 2 ≡ suc (suc (m * 2)) = omega arith in masked ∙ ap (λ n. a % n) same

-- The mask of no digits.
pub low_digits : IsMask 0
low_digits a =
    let nothing =
      by_halves (λ a. bit_and a 0 ≡ 0) refl (λ a half. omega (arith, bit_and_step a 0, half)) in
    omega (arith, nothing a)
