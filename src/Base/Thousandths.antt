-- ===== src/Base/Thousandths.antt =====
-- Numbers in thousandths, rounded down: arithmetic that meets the laws of `Float64`.
use honryu.Base.Tests.{leb, ltb, leb→le, ◌==◌}
use honryu.Base.Ints.{ℤ, pos, pos_part, ◌≤ℤ◌}
use honryu.Base.Floats.{Float64}
use Prim.Native.Nat.{ℕ, zero, suc, ◌+◌, ◌-◌, ◌*◌, ◌/◌, ◌^◌, ◌≤◌, ◌<◌}
use mathlib.Core.Path.{◌≡◌, ap, subst}
use mathlib.Core.Logic.{◌↔◌}
use mathlib.Core.Bool.{true, false, not}
use native.Mathlib.Nat.{mul_comm, pow-suc}
use native.Mathlib.Omega.{arith}

pub le-leb : (m n : ℕ) → m ≤ n → leb m n ≡ true
le-leb m n h = ground arith

pub lt-leb : (m n : ℕ) → n < m → leb m n ≡ false
lt-leb m n h = ground arith

quotient_mono : (a b c : ℕ) → a ≤ b → 0 < c → a / c ≤ b / c
quotient_mono a b c h k = grind arith

div-cancel : (a c : ℕ) → 0 < c → a * c / c ≡ a
div-cancel a c h = grind arith

pub ltb-not-leb : (m n : ℕ) → ltb m n ≡ not (leb n m)
ltb-not-leb m n = ground arith

pub leb_trans : (a b c : ℕ) → leb a b ≡ true → leb b c ≡ true → leb a c ≡ true
leb_trans a b c h k = ground arith

pub leb_total : (a b : ℕ) → leb a b ≡ false → leb b a ≡ true
leb_total a b h = ground arith

pub leb_refl : (a : ℕ) → leb a a ≡ true
leb_refl a = ground arith

pub mul_le : (a b c : ℕ) → leb b c ≡ true → leb (a * b / 1000) (a * c / 1000) ≡ true
mul_le a b c h =
    le-leb _ _ (quotient_mono (a * b) (a * c) 1000 (grind (arith, leb→le b c h)) (omega arith))

pow_positive : (k : ℕ) → 0 < 10 ^ k
pow_positive zero = omega arith
pow_positive (suc k) = grind (arith, pow-suc, pow_positive k)

pub lit_le_one : (m k : ℕ) → m ≤ 10 ^ k → leb (m * 1000 / 10 ^ k) (1 * 1000) ≡ true
lit_le_one m k h = le-leb _ _ (
    subst (λ n. m * 1000 / 10 ^ k ≤ n) (div-cancel 1000 (10 ^ k) (pow_positive k))
      (quotient_mono (m * 1000) (1000 * 10 ^ k) (10 ^ k) (omega arith) (pow_positive k)))

pub lit_above_zero : (m k : ℕ) → 0 < m → k ≤ 3 → leb (m * 1000 / 10 ^ k) (0 * 1000) ≡ false
lit_above_zero m zero h k = ground arith
lit_above_zero m (suc zero) h k = ground arith
lit_above_zero m (suc (suc zero)) h k = ground arith
lit_above_zero m (suc (suc (suc zero))) h k = ground arith
lit_above_zero m (suc (suc (suc (suc j)))) h k = absurd (omega arith)

pub quotient_le :
    (a b c : ℕ)
    → leb a b ≡ true
    → leb c (0 * 1000) ≡ false
    → leb (a * 1000 / c) (b * 1000 / c) ≡ true
quotient_le a b c h k =
    le-leb _ _ (quotient_mono (a * 1000) (b * 1000) c (omega (arith, leb→le a b h)) (ground arith))

pub quotient_self : (a : ℕ) → leb a (0 * 1000) ≡ false → a * 1000 / a ≡ 1 * 1000
quotient_self a h = rw mul_comm (div-cancel 1000 a (ground arith))

pub scaled_le : (x y : ℤ) → x ≤ℤ y → leb (pos_part x * 1000) (pos_part y * 1000) ≡ true
scaled_le x y h = ground arith

pub times_one : (a : ℕ) → a * (1 * 1000) / 1000 ≡ a
times_one a = div-cancel a 1000 (omega arith)

pub one_times : (a : ℕ) → 1 * 1000 * a / 1000 ≡ a
one_times a = rw mul_comm (div-cancel a 1000 (omega arith))

pub mul_le_left : (a b c : ℕ) → leb a b ≡ true → leb (a * c / 1000) (b * c / 1000) ≡ true
mul_le_left a b c h =
    le-leb _ _ (quotient_mono (a * c) (b * c) 1000 (grind (arith, leb→le a b h)) (omega arith))

pub same_iff : (a b : ℕ) → ((a == b) ≡ true) ↔ (a ≡ b)
same_iff a b = ground arith

pub zero_times : (a : ℕ) → 0 * 1000 * a / 1000 ≡ 0 * 1000
zero_times a = ground arith

pub nothing_over : (c : ℕ) → leb c (0 * 1000) ≡ false → 0 * 1000 * 1000 / c ≡ 0 * 1000
nothing_over c h = ground arith

abbrev pub thousandths : Float64
thousandths = record {
  F = ℕ;
  of_int = λ x. pos_part x * 1000;
  lit = λ m k. m * 1000 / 10 ^ k;
  add = λ a b. a + b;
  sub = λ a b. a - b;
  mul = λ a b. a * b / 1000;
  div = λ a b. a * 1000 / b;
  le = leb;
  lt = ltb;
  eqb = ◌==◌;
  round = λ a. pos ((a + 500) / 1000);
  ceil = λ a. pos ((a + 999) / 1000);
  le_refl = leb_refl;
  le_trans = leb_trans;
  le_total = leb_total;
  lt_not_le = ltb-not-leb;
  eqb_iff = same_iff;
  of_int_mono = λ x y h. scaled_le x y h;
  zero_lt_of_int = λ n h. lt-leb _ _ (omega arith);
  lit_unit = lit_le_one;
  lit_positive = lit_above_zero;
  mul_mono = λ a b c _. mul_le a b c;
  mul_mono_left = λ a b c _. mul_le_left a b c;
  one_mul = one_times;
  mul_one = times_one;
  mul_nonneg = λ a b _ _. le-leb _ _ (omega arith);
  div_mono = quotient_le;
  div_self = quotient_self;
  div_nonneg = λ a b _ _. le-leb _ _ (omega arith);
  sub_nonneg = λ a b _. le-leb _ _ (omega arith);
  sub_nonpos = λ a b h. le-leb _ _ (omega (arith, leb→le a b h));
  zero_mul = λ a. zero_times a;
  zero_div = λ a h. nothing_over a h;
  half_way_lower = λ a b h. le-leb _ _ (omega arith);
  half_way_upper = λ a b h. le-leb _ _ (omega (arith, leb→le a b h));
  round_mono = λ a b _ h _. omega (arith, leb→le a b h);
  round_of_int = λ n _. ap pos (omega arith);
  ceil_mono = λ a b _ h _. omega (arith, leb→le a b h);
  ceil_of_int = λ n _. ap pos (omega arith);
}
