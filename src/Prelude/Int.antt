-- ===== src/Prelude/Int.antt =====
-- Signed integers: a Go `int64` is a value of ℤ in its range, which the code tests where it parses.
use Prim.Native.Nat.{ℕ}
use mathlib.Core.Path.{◌≡◌}
use mathlib.Core.Bool.{Bool, true, false}
use native.Mathlib.Omega.{arith}
use etcd_cloud_operator.Prelude.Tests.{ltb, ◌==◌}

-- `negsuc n` is -(n + 1).
pub data ℤ : Type 0 where
  pos : ℕ → ℤ
  negsuc : ℕ → ℤ

-- a < b.
unfoldable pub lt_int : ℤ → ℤ → Bool
lt_int (pos a) (pos b) = ltb a b
lt_int (pos a) (negsuc b) = false
lt_int (negsuc a) (pos b) = true
lt_int (negsuc a) (negsuc b) = ltb b a

unfoldable pub eq_int : ℤ → ℤ → Bool
eq_int (pos a) (pos b) = a == b
eq_int (pos a) (negsuc b) = false
eq_int (negsuc a) (pos b) = false
eq_int (negsuc a) (negsuc b) = a == b

pub eq_int→eq : (a b : ℤ) → eq_int a b ≡ true → a ≡ b
unfolding eq_int
eq_int→eq (pos a) (pos b) h = ground arith
eq_int→eq (pos a) (negsuc b) h = ground arith
eq_int→eq (negsuc a) (pos b) h = ground arith
eq_int→eq (negsuc a) (negsuc b) h = ground arith

pub eq_int_refl : (a : ℤ) → eq_int a a ≡ true
unfolding eq_int
eq_int_refl (pos a) = ground arith
eq_int_refl (negsuc a) = ground arith

pub lt_int_asym : (a b : ℤ) → lt_int a b ≡ true → lt_int b a ≡ false
unfolding lt_int
lt_int_asym (pos a) (pos b) h = ground arith
lt_int_asym (pos a) (negsuc b) h = ground arith
lt_int_asym (negsuc a) (pos b) h = ground arith
lt_int_asym (negsuc a) (negsuc b) h = ground arith

-- "not below" is transitive.
pub lt_int-false_trans : (a b c : ℤ) → lt_int b a ≡ false → lt_int c b ≡ false → lt_int c a ≡ false
unfolding lt_int
lt_int-false_trans (pos a) (pos b) (pos c) h k = ground arith
lt_int-false_trans (pos a) (pos b) (negsuc c) h k = ground arith
lt_int-false_trans (pos a) (negsuc b) c h k = ground arith
lt_int-false_trans (negsuc a) (pos b) (pos c) h k = ground arith
lt_int-false_trans (negsuc a) (pos b) (negsuc c) h k = ground arith
lt_int-false_trans (negsuc a) (negsuc b) (pos c) h k = ground arith
lt_int-false_trans (negsuc a) (negsuc b) (negsuc c) h k = ground arith

pub lt_int_connex : (a b : ℤ) → lt_int a b ≡ false → lt_int b a ≡ false → a ≡ b
unfolding lt_int
lt_int_connex (pos a) (pos b) h k = ground arith
lt_int_connex (pos a) (negsuc b) h k = ground arith
lt_int_connex (negsuc a) (pos b) h k = ground arith
lt_int_connex (negsuc a) (negsuc b) h k = ground arith

pub lt_int_irrefl : (a : ℤ) → lt_int a a ≡ false
unfolding lt_int
lt_int_irrefl (pos a) = ground arith
lt_int_irrefl (negsuc a) = ground arith
