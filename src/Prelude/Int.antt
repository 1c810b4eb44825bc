-- ===== src/Prelude/Int.antt =====
-- Signed 32-bit values that the source tests for their sign: descriptors, process ids, signals.
use Prim.Native.Nat.{ℕ, ◌+◌, ◌-◌, ◌%◌, ◌^◌, ◌<◌, min}
use mathlib.Core.Bool.{Bool, true, false}
use mathlib.Core.Path.{◌≡◌}
use mathlib.Core.Logic.{◌↔◌, ◌≢◌}
use native.Mathlib.Omega.{arith}
use wasmux.Prelude.Tests.{ltb, ◌==◌, if◌then◌else◌}

-- `negsuc n` is -(n + 1).
pub data ℤ : Type 0 where
  pos : ℕ → ℤ
  negsuc : ℕ → ℤ

-- `n as i32`: the 32 low bits, read as a two's complement number.
abbrev pub wrap_i32 : ℕ → ℤ
wrap_i32 w = if ltb w (2 ^ 31) then pos w else negsuc (2 ^ 32 - w - 1)

abbrev pub as_i32 : ℕ → ℤ
as_i32 n = wrap_i32 (n % 2 ^ 32)

-- `z as u32`, for a value of an `i32`.
abbrev pub as_u32 : ℤ → ℕ
as_u32 (pos n) = n
as_u32 (negsuc n) = 2 ^ 32 - n - 1

abbrev pub eq_ℤ : ℤ → ℤ → Bool
eq_ℤ (pos m) (pos n) = m == n
eq_ℤ (pos m) (negsuc n) = false
eq_ℤ (negsuc m) (pos n) = false
eq_ℤ (negsuc m) (negsuc n) = m == n

pub as_i32-pos : (n : ℕ) → n < 2 ^ 31 → as_i32 n ≡ pos n
as_i32-pos n h = ground arith

-- The cast to `u32` and back gives the same `i32`.
pub as_i32-as_u32 : (n : ℕ) → n < 2 ^ 32 → as_u32 (as_i32 n) ≡ n
as_i32-as_u32 n h = ground arith

pub eq_ℤ_iff : (a b : ℤ) → (eq_ℤ a b ≡ true) ↔ (a ≡ b)
eq_ℤ_iff (pos m) (pos n) = ground arith
eq_ℤ_iff (pos m) (negsuc n) = ground arith
eq_ℤ_iff (negsuc m) (pos n) = ground arith
eq_ℤ_iff (negsuc m) (negsuc n) = ground arith

pub eq_ℤ-ne : (a b : ℤ) → a ≢ b → eq_ℤ a b ≡ false
eq_ℤ-ne a b ne = ground (arith, eq_ℤ_iff a b)

-- `n as i64` of a `u64`.
abbrev pub as_i64 : ℕ → ℤ
as_i64 n = if ltb n (2 ^ 63) then pos n else negsuc (2 ^ 64 - n - 1)

-- `i64::saturating_add`
abbrev pub add_i64 : ℤ → ℤ → ℤ
add_i64 (pos a) (pos b) = pos (min (a + b) (2 ^ 63 - 1))
add_i64 (pos a) (negsuc b) = if ltb b a then pos (a - b - 1) else negsuc (b - a)
add_i64 (negsuc a) (pos b) = if ltb a b then pos (b - a - 1) else negsuc (a - b)
add_i64 (negsuc a) (negsuc b) = negsuc (min (a + b + 1) (2 ^ 63 - 1))
