-- ===== src/Common/Int.antt =====
-- The C type int: integers, with the casts from and to uint32_t.
use Prim.Native.Nat.{ℕ, ◌-◌, ◌<◌}
use mathlib.Core.Path.{◌≡◌, ap}
use mathlib.Core.Bool.{Bool, true, false}
use native.Mathlib.Omega.{arith}
use ssoo.Common.Tests.{ltb, ◌==◌, if◌then◌else◌}

-- `negsuc n` is `- (n + 1)`.
pub data ℤ : Type 0 where
  pos : ℕ → ℤ
  negsuc : ℕ → ℤ

-- The constant -1.
abbrev pub menos_uno : ℤ
menos_uno = negsuc 0

abbrev pub int_max : ℤ
int_max = pos 2147483647

abbrev pub int_eq : ℤ → ℤ → Bool
int_eq (pos a) (pos b) = a == b
int_eq (pos a) (negsuc b) = false
int_eq (negsuc a) (pos b) = false
int_eq (negsuc a) (negsuc b) = a == b

abbrev pub int_ltb : ℤ → ℤ → Bool
int_ltb (pos a) (pos b) = ltb a b
int_ltb (pos a) (negsuc b) = false
int_ltb (negsuc a) (pos b) = true
int_ltb (negsuc a) (negsuc b) = ltb b a

-- (int) n
abbrev pub a_int : ℕ → ℤ
a_int n = if ltb n 2147483648 then pos n else negsuc (4294967295 - n)

pub a_int-pos : (n : ℕ) → n < 2147483648 → a_int n ≡ pos n
a_int-pos n h = ground arith

-- The order of integers.
abbrev pub IntLe : ℤ → ℤ → Type 0
IntLe a b = int_ltb b a ≡ false

pub IntLe-refl : (a : ℤ) → IntLe a a
IntLe-refl (pos a) = ground arith
IntLe-refl (negsuc a) = ground arith

pub IntLe-lt : (a b : ℤ) → int_ltb a b ≡ true → IntLe a b
IntLe-lt (pos a) (pos b) h = ground arith
IntLe-lt (pos a) (negsuc b) h = ground arith
IntLe-lt (negsuc a) (pos b) h = ground arith
IntLe-lt (negsuc a) (negsuc b) h = ground arith

pub IntLe-trans : (a b c : ℤ) → IntLe a b → IntLe b c → IntLe a c
IntLe-trans (pos a) (pos b) (pos c) h k = ground arith
IntLe-trans (pos a) (pos b) (negsuc c) h k = ground arith
IntLe-trans (pos a) (negsuc b) (pos c) h k = ground arith
IntLe-trans (pos a) (negsuc b) (negsuc c) h k = ground arith
IntLe-trans (negsuc a) (pos b) (pos c) h k = ground arith
IntLe-trans (negsuc a) (pos b) (negsuc c) h k = ground arith
IntLe-trans (negsuc a) (negsuc b) (pos c) h k = ground arith
IntLe-trans (negsuc a) (negsuc b) (negsuc c) h k = ground arith

pub int_eq_refl : (a : ℤ) → int_eq a a ≡ true
int_eq_refl (pos n) = ground arith
int_eq_refl (negsuc n) = ground arith

pub int_eq→eq : (a b : ℤ) → int_eq a b ≡ true → a ≡ b
int_eq→eq (pos a) (pos b) h = ap pos (ground arith)
int_eq→eq (pos a) (negsuc b) h = absurd (cc)
int_eq→eq (negsuc a) (pos b) h = absurd (cc)
int_eq→eq (negsuc a) (negsuc b) h = ap negsuc (ground arith)
