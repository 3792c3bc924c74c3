-- ===== src/Prelude/Int32.antt =====
-- Go's int32: an integer in [-2^31, 2^31), with the wrap-around of `+`, `-` and `*`.
use Prim.Native.Nat.{ℕ, zero, suc, ◌+◌, ◌-◌, ◌*◌, ◌/◌, ◌%◌, ◌^◌, ◌≤◌, ◌<◌}
use mathlib.Core.Path.{◌≡◌, refl}
use mathlib.Core.Option.{Option, none, some}
use native.Mathlib.Omega.{arith}
use mm_server.Prelude.Tests.{ltb, if◌then◌else◌}
use mm_server.Prelude.Int.{ℤ, pos, negsuc, sub_ℕ, ◌+ℤ◌, ◌-ℤ◌, ◌*ℤ◌, ◌≤ℤ◌}

-- The integer that a bit pattern below 2 ^ 32 stands for.
abbrev pub signed32 : ℕ → ℤ
signed32 w = if ltb w (2 ^ 31) then pos w else negsuc (2 ^ 32 - w - 1)

unfoldable pub wrap32 : ℤ → ℤ
wrap32 (pos n) = signed32 (n % 2 ^ 32)
wrap32 (negsuc n) = signed32 (2 ^ 32 - 1 - n % 2 ^ 32)

-- Go's `int8(a)`.
unfoldable pub wrap8 : ℤ → ℤ
wrap8 (pos n) = if ltb (n % 2 ^ 8) (2 ^ 7) then pos (n % 2 ^ 8) else negsuc (2 ^ 8 - n % 2 ^ 8 - 1)
wrap8 (negsuc n) =
    if ltb (n % 2 ^ 8) (2 ^ 7) then negsuc (n % 2 ^ 8) else pos (2 ^ 8 - 1 - n % 2 ^ 8)

abbrev pub max_int32 : ℤ
max_int32 = pos 0x7fffffff

pub record IsInt32 (a : ℤ) : Type 0 where
  pub lower : negsuc 0x7fffffff ≤ℤ a
  pub upper : a ≤ℤ max_int32

unfoldable pub add32 : ℤ → ℤ → ℤ
add32 a b = wrap32 (a +ℤ b)

unfoldable pub sub32 : ℤ → ℤ → ℤ
sub32 a b = wrap32 (a -ℤ b)

unfoldable pub mul32 : ℤ → ℤ → ℤ
mul32 a b = wrap32 (a *ℤ b)

unfoldable pub neg32 : ℤ → ℤ
unfolding sub32
neg32 a = sub32 (pos 0) a

pub wrap32-IsInt32 : (a : ℤ) → IsInt32 (wrap32 a)
unfolding wrap32
wrap32-IsInt32 (pos n) = ground arith
wrap32-IsInt32 (negsuc n) = ground arith

pub wrap32_id : (a : ℤ) → IsInt32 a → wrap32 a ≡ a
unfolding wrap32
wrap32_id (pos n) h = ground arith
wrap32_id (negsuc n) h = ground arith

-- Where the true result fits, the machine's is the true one.
pub add32_fits : (a b : ℤ) → IsInt32 (a +ℤ b) → add32 a b ≡ a +ℤ b
unfolding add32
add32_fits a b h = wrap32_id (a +ℤ b) h

pub sub32_fits : (a b : ℤ) → IsInt32 (a -ℤ b) → sub32 a b ≡ a -ℤ b
unfolding sub32
sub32_fits a b h = wrap32_id (a -ℤ b) h

pub mul32_fits : (a b : ℤ) → IsInt32 (a *ℤ b) → mul32 a b ≡ a *ℤ b
unfolding mul32
mul32_fits a b h = wrap32_id (a *ℤ b) h

pub add32-IsInt32 : (a b : ℤ) → IsInt32 (add32 a b)
unfolding add32
add32-IsInt32 a b = wrap32-IsInt32 (a +ℤ b)

pub sub32-IsInt32 : (a b : ℤ) → IsInt32 (sub32 a b)
unfolding sub32
sub32-IsInt32 a b = wrap32-IsInt32 (a -ℤ b)

pub mul32-IsInt32 : (a b : ℤ) → IsInt32 (mul32 a b)
unfolding mul32
mul32-IsInt32 a b = wrap32-IsInt32 (a *ℤ b)

-- The sum of two int32 that are not negative either fits, or comes out negative: the test by
-- which Go code notices an overflow.
pub add32_overflow :
    (m n : ℕ)
    → m < 2 ^ 31
    → n < 2 ^ 31
    → add32 (pos m) (pos n)
      ≡ (if ltb (m + n) (2 ^ 31) then pos (m + n) else negsuc (2 ^ 32 - (m + n) - 1))
unfolding add32 wrap32 ◌+ℤ◌
add32_overflow m n hm hn = ground arith

-- Go's `/` and `%`, which truncate towards zero and panic on a zero divisor.
unfoldable pub quot32 : ℤ → ℤ → Option ℤ
quot32 a (pos zero) = none
quot32 (pos m) (pos (suc n)) = some (pos (m / suc n))
quot32 (pos m) (negsuc n) = some (sub_ℕ 0 (m / suc n))
quot32 (negsuc m) (pos (suc n)) = some (sub_ℕ 0 (suc m / suc n))
quot32 (negsuc m) (negsuc n) = some (wrap32 (pos (suc m / suc n)))

unfoldable pub rem32 : ℤ → ℤ → Option ℤ
rem32 a (pos zero) = none
rem32 (pos m) (pos (suc n)) = some (pos (m % suc n))
rem32 (pos m) (negsuc n) = some (pos (m % suc n))
rem32 (negsuc m) (pos (suc n)) = some (sub_ℕ 0 (suc m % suc n))
rem32 (negsuc m) (negsuc n) = some (sub_ℕ 0 (suc m % suc n))

-- The operations at numbers that are not negative, where the result fits.
pub add32_pos : (m n : ℕ) → m + n < 2 ^ 31 → add32 (pos m) (pos n) ≡ pos (m + n)
unfolding add32 wrap32 ◌+ℤ◌
add32_pos m n h = ground arith

pub sub32_pos : (m n : ℕ) → n ≤ m → m < 2 ^ 31 → sub32 (pos m) (pos n) ≡ pos (m - n)
unfolding sub32 wrap32 ◌-ℤ◌
sub32_pos m n h k = ground arith

pub mul32_pos : (m n : ℕ) → m * n < 2 ^ 31 → mul32 (pos m) (pos n) ≡ pos (m * n)
unfolding mul32 wrap32 ◌*ℤ◌
mul32_pos m n h = grind arith

pub quot32_pos : (m n : ℕ) → 0 < n → quot32 (pos m) (pos n) ≡ some (pos (m / n))
unfolding quot32
quot32_pos m zero h = absurd (omega arith)
quot32_pos m (suc n) h = refl

pub rem32_pos : (m n : ℕ) → 0 < n → rem32 (pos m) (pos n) ≡ some (pos (m % n))
unfolding rem32
rem32_pos m zero h = absurd (omega arith)
rem32_pos m (suc n) h = refl
