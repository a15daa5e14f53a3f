-- ===== src/Prelude/Int.antt =====
-- Signed integers of fixed width: Go's `int`, `int64` and `int32` values, and the conversion
-- `int32(x)`, which keeps the low 32 bits and reads them as a signed number.
use Prim.Native.Nat.{ℕ, ◌-◌, ◌%◌, ◌+◌, ◌<◌}
use mathlib.Core.Path.{◌≡◌}
use mathlib.Core.Bool.{Bool, true, false}
use mathlib.Core.Logic.{◌↔◌}
use native.Mathlib.Omega.{arith}
use go_cloud_k8s_auth.Prelude.Tests.{ltb, eqb, if◌then◌else◌}
use go_cloud_k8s_auth.Prelude.Equal.{Comparable}

-- `negsuc n` is -(n + 1).
pub data ℤ : Type 0 where
  pos : ℕ → ℤ
  negsuc : ℕ → ℤ

unfoldable pub int_beq : ℤ → ℤ → Bool
int_beq (pos a) (pos b) = eqb a b
int_beq (negsuc a) (negsuc b) = eqb a b
int_beq _ _ = false

pub int_beq_iff : (a b : ℤ) → (int_beq a b ≡ true) ↔ (a ≡ b)
unfolding int_beq
int_beq_iff (pos a) (pos b) = ground arith
int_beq_iff (negsuc a) (negsuc b) = ground arith
int_beq_iff (pos a) (negsuc b) = ground arith
int_beq_iff (negsuc a) (pos b) = ground arith

instance abbrev pub int_eq : Comparable ℤ
int_eq = record { decides = int_beq_iff; same = int_beq }

-- `x > 0`
abbrev pub is_positive : ℤ → Bool
is_positive (pos n) = ltb 0 n
is_positive (negsuc n) = false

-- `x < 0`
abbrev pub is_negative : ℤ → Bool
is_negative (pos n) = false
is_negative (negsuc n) = true

abbrev pub int32_mod : ℕ
int32_mod = 4294967296

-- The low 32 bits of a number in two's complement.
abbrev pub low32 : ℤ → ℕ
low32 (pos n) = n % int32_mod
low32 (negsuc n) = int32_mod - 1 - n % int32_mod

abbrev pub signed32 : ℕ → ℤ
signed32 w = if ltb w 2147483648 then pos w else negsuc (int32_mod - 1 - w)

unfoldable pub to_int32 : ℤ → ℤ
to_int32 z = signed32 (low32 z)

-- What lies in the range of an int32 is kept.
pub to_int32_small : (n : ℕ) → n < 2147483648 → to_int32 (pos n) ≡ pos n
unfolding to_int32
to_int32_small n h = ground arith

-- Whole multiples of 2^32 are lost.
pub to_int32_wraps : (n : ℕ) → to_int32 (pos (n + int32_mod)) ≡ to_int32 (pos n)
unfolding to_int32
to_int32_wraps n = ground arith
