-- ===== src/Base/Floats.antt =====
-- Go's `float64`, as far as the program computes with it: the operations, and laws of IEEE 754
-- arithmetic that the proofs use. The values are those that are numbers (no NaN), with -0 and +0
-- taken as one. The laws are those of correct rounding: every operation is monotone, and exact where
-- the exact result is a `float64`.
use honryu.Base.Ints.{ℤ, pos, ◌≤ℤ◌}
use Prim.Native.Nat.{ℕ, ◌^◌, ◌≤◌, ◌<◌}
use mathlib.Core.Path.{◌≡◌}
use mathlib.Core.Logic.{◌↔◌}
use mathlib.Core.Bool.{Bool, true, false, not}

pub record Float64 : Type 1 where
  pub F : Type 0
  -- `float64(n)`, and a literal: `lit m k` is m / 10^k.
  pub of_int : ℤ → F
  pub lit : ℕ → ℕ → F
  pub add : F → F → F
  pub sub : F → F → F
  pub mul : F → F → F
  pub div : F → F → F
  pub le : F → F → Bool
  pub lt : F → F → Bool
  pub eqb : F → F → Bool
  -- `int(math.Round(x))` and `int(math.Ceil(x))`
  pub round : F → ℤ
  pub ceil : F → ℤ
  pub le_refl : (a : F) → le a a ≡ true
  pub le_trans : (a b c : F) → le a b ≡ true → le b c ≡ true → le a c ≡ true
  pub le_total : (a b : F) → le a b ≡ false → le b a ≡ true
  pub lt_not_le : (a b : F) → lt a b ≡ not (le b a)
  pub eqb_iff : (a b : F) → (eqb a b ≡ true) ↔ (a ≡ b)
  pub of_int_mono : (x y : ℤ) → x ≤ℤ y → le (of_int x) (of_int y) ≡ true
  pub zero_lt_of_int : (n : ℕ) → 0 < n → le (of_int (pos n)) (of_int (pos 0)) ≡ false
  pub lit_unit : (m k : ℕ) → m ≤ 10 ^ k → le (lit m k) (of_int (pos 1)) ≡ true
  pub lit_positive : (m k : ℕ) → 0 < m → k ≤ 3 → le (lit m k) (of_int (pos 0)) ≡ false
  pub mul_mono :
      (a b c : F) → le (of_int (pos 0)) a ≡ true → le b c ≡ true → le (mul a b) (mul a c) ≡ true
  pub mul_mono_left :
      (a b c : F) → le (of_int (pos 0)) c ≡ true → le a b ≡ true → le (mul a c) (mul b c) ≡ true
  pub one_mul : (a : F) → mul (of_int (pos 1)) a ≡ a
  pub mul_one : (a : F) → mul a (of_int (pos 1)) ≡ a
  pub mul_nonneg :
      (a b : F)
      → le (of_int (pos 0)) a ≡ true
      → le (of_int (pos 0)) b ≡ true
      → le (of_int (pos 0)) (mul a b) ≡ true
  pub div_mono :
      (a b c : F) → le a b ≡ true → le c (of_int (pos 0)) ≡ false → le (div a c) (div b c) ≡ true
  pub div_self : (a : F) → le a (of_int (pos 0)) ≡ false → div a a ≡ of_int (pos 1)
  pub div_nonneg :
      (a b : F)
      → le (of_int (pos 0)) a ≡ true
      → le b (of_int (pos 0)) ≡ false
      → le (of_int (pos 0)) (div a b) ≡ true
  pub sub_nonneg : (a b : F) → le b a ≡ true → le (of_int (pos 0)) (sub a b) ≡ true
  pub sub_nonpos : (a b : F) → le a b ≡ true → le (sub a b) (of_int (pos 0)) ≡ true
  pub zero_mul : (a : F) → mul (of_int (pos 0)) a ≡ of_int (pos 0)
  pub zero_div : (a : F) → le a (of_int (pos 0)) ≡ false → div (of_int (pos 0)) a ≡ of_int (pos 0)
  -- Halfway from a up to b lies between them.
  pub half_way_lower :
      (a b : F) → le a b ≡ true → le a (add a (div (sub b a) (of_int (pos 2)))) ≡ true
  pub half_way_upper :
      (a b : F) → le a b ≡ true → le (add a (div (sub b a) (of_int (pos 2)))) b ≡ true
  -- Up to 2^53 an integer is exact and the conversions back are in range.
  pub round_mono :
      (a b : F)
      → le (of_int (pos 0)) a ≡ true
      → le a b ≡ true
      → le b (of_int (pos (2 ^ 53))) ≡ true
      → round a ≤ℤ round b
  pub round_of_int : (n : ℕ) → n ≤ 2 ^ 53 → round (of_int (pos n)) ≡ pos n
  pub ceil_mono :
      (a b : F)
      → le (of_int (pos 0)) a ≡ true
      → le a b ≡ true
      → le b (of_int (pos (2 ^ 53))) ≡ true
      → ceil a ≤ℤ ceil b
  pub ceil_of_int : (n : ℕ) → n ≤ 2 ^ 53 → ceil (of_int (pos n)) ≡ pos n
