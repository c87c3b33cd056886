-- ===== src/Base/Words.antt =====
-- Machine words: `f32` by its bit pattern, and `i32` as a signed integer.
use Prim.Native.Nat.{ℕ, ◌-◌, ◌%◌, ◌^◌, ◌<◌}
use mathlib.Core.Path.{◌≡◌}
use mathlib.Core.Bool.{Bool, true, false, not, ◌||◌, ◌&&◌}
use native.Mathlib.Omega.{arith}
use wwe_modify.Base.Tests.{◌==◌, ltb}

-- The 32 bits of an IEEE 754 single.
abbrev pub F32 : Type 0
F32 = ℕ

abbrev pub f32_zero : F32
f32_zero = 0

abbrev pub f32_half : F32
f32_half = 0x3f000000

abbrev pub f32_hundred : F32
f32_hundred = 0x42c80000

abbrev pub f32_one : F32
f32_one = 0x3f800000

abbrev pub f32_infinity : F32
f32_infinity = 0x7f800000

-- All exponent bits are set, and some bit of the mantissa.
unfoldable pub is_nan : F32 → Bool
is_nan a = ltb f32_infinity (a % 2 ^ 31)

-- `PartialEq`: no NaN equals anything, and the two zeros are equal.
unfoldable pub f32_eq : F32 → F32 → Bool
f32_eq a b = not (is_nan a) && not (is_nan b) && (a == b || a % 2 ^ 31 == 0 && b % 2 ^ 31 == 0)

pub f32_eq_refl : (a : F32) → is_nan a ≡ false → f32_eq a a ≡ true
unfolding f32_eq
f32_eq_refl a h = ground arith

-- `negsuc n` is -(n + 1).
pub data ℤ : Type 0 where
  pos : ℕ → ℤ
  negsuc : ℕ → ℤ

unfoldable pub eq_ℤ : ℤ → ℤ → Bool
eq_ℤ (pos a) (pos b) = a == b
eq_ℤ (negsuc a) (negsuc b) = a == b
eq_ℤ _ _ = false

pub eq_ℤ_refl : (a : ℤ) → eq_ℤ a a ≡ true
unfolding eq_ℤ
eq_ℤ_refl (pos a) = ground arith
eq_ℤ_refl (negsuc a) = ground arith

-- `rem_euclid` by a positive number.
unfoldable pub rem_euclid : ℤ → ℕ → ℕ
rem_euclid (pos a) n = a % n
rem_euclid (negsuc a) n = n - 1 - a % n

pub rem_euclid-lt : (a : ℤ) (n : ℕ) → 0 < n → rem_euclid a n < n
unfolding rem_euclid
rem_euclid-lt (pos a) n h = omega arith
rem_euclid-lt (negsuc a) n h = omega arith
