-- ===== src/Common/Int.antt =====
-- The C++ types `int` and `long int` where the source tests their sign.
use Prim.Native.Nat.{ℕ, ◌-◌, ◌^◌}
use mathlib.Core.Path.{◌≡◌, refl}
use mathlib.Core.Bool.{Bool, true, false}
use native.Mathlib.Omega.{arith}
use at_work_central_factory.Common.Tests.{leb, ltb, ◌==◌, ==_refl, if◌then◌else◌}

-- `negsuc n` is -(n + 1).
pub data ℤ : Type 0 where
  pos : ℕ → ℤ
  negsuc : ℕ → ℤ

-- The value of a 32-bit pattern as an `int`.
abbrev pub signed32 : ℕ → ℤ
signed32 bits = if leb (2 ^ 31) bits then negsuc (2 ^ 32 - 1 - bits) else pos bits

-- The tests `==` and `<`.
abbrev pub int_eq : ℤ → ℤ → Bool
int_eq (pos a) (pos b) = a == b
int_eq (pos a) (negsuc b) = false
int_eq (negsuc a) (pos b) = false
int_eq (negsuc a) (negsuc b) = a == b

abbrev pub int_ltb : ℤ → ℤ → Bool
int_ltb (pos a) (pos b) = ltb a b
int_ltb (pos a) (negsuc b) = false
int_ltb (negsuc a) (pos b) = true
int_ltb (negsuc a) (negsuc b) = ltb b a

pub int_eq_refl : (a : ℤ) → int_eq a a ≡ true
int_eq_refl (pos a) = ==_refl a
int_eq_refl (negsuc a) = ==_refl a

pub int_eq_comm : (a b : ℤ) → int_eq a b ≡ int_eq b a
int_eq_comm (pos a) (pos b) = ground arith
int_eq_comm (pos a) (negsuc b) = refl
int_eq_comm (negsuc a) (pos b) = refl
int_eq_comm (negsuc a) (negsuc b) = ground arith
