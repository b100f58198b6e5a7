-- ===== src/Base/Wrap.antt =====
-- Sums of `int`s, whose wrap-around may be left to the end.
use honryu.Base.Ints.{ℤ, pos, ◌+ℤ◌, wrap64, pos_part, neg_part, sub_ℕ}
use Prim.Native.Nat.{◌^◌, ◌*◌, ◌+◌, ℕ, ◌<◌, ◌%◌}
use mathlib.Core.Path.{◌≡◌, ap, ◌∙◌, sym}
use native.Mathlib.Omega.{arith}

pub +ℤ_assoc : (x y z : ℤ) → x +ℤ y +ℤ z ≡ x +ℤ (y +ℤ z)
unfolding ◌+ℤ◌
+ℤ_assoc x y z = ground arith

pub +ℤ_comm : (x y : ℤ) → x +ℤ y ≡ y +ℤ x
unfolding ◌+ℤ◌
+ℤ_comm x y = ground arith

pub +ℤ_zero : (x : ℤ) → x +ℤ pos 0 ≡ x
unfolding ◌+ℤ◌
+ℤ_zero x = ground arith

-- The wrap-around of a difference, as a remainder.
wrap64-sub_ℕ :
    (m n : ℕ)
    → wrap64 (sub_ℕ m n) ≡ sub_ℕ ((m + 18446744073709551615 * n + 2 ^ 63) % 2 ^ 64) (2 ^ 63)
unfolding wrap64
wrap64-sub_ℕ m n = ground arith

wrap64-parts :
    (x : ℤ)
    → wrap64 x ≡ sub_ℕ ((pos_part x + 18446744073709551615 * neg_part x + 2 ^ 63) % 2 ^ 64) (2 ^ 63)
unfolding wrap64
wrap64-parts x = ground arith

sub_ℕ-parts :
    (r : ℕ)
    → r < 2 ^ 64
    → (pos_part (sub_ℕ r (2 ^ 63)) + 18446744073709551615 * neg_part (sub_ℕ r (2 ^ 63)) + 2 ^ 63)
        % 2 ^ 64
      ≡ r
sub_ℕ-parts r h = ground arith

residue :
    (x : ℤ)
    → (pos_part (wrap64 x) + 18446744073709551615 * neg_part (wrap64 x) + 2 ^ 63) % 2 ^ 64
      ≡ (pos_part x + 18446744073709551615 * neg_part x + 2 ^ 63) % 2 ^ 64
residue x =
    ap (λ w. (pos_part w + 18446744073709551615 * neg_part w + 2 ^ 63) % 2 ^ 64) (wrap64-parts x)
    ∙ sub_ℕ-parts ((pos_part x + 18446744073709551615 * neg_part x + 2 ^ 63) % 2 ^ 64) (omega arith)

residue_add :
    (p n px nx py ny : ℕ)
    → (p + 18446744073709551615 * n + 2 ^ 63) % 2 ^ 64
      ≡ (px + 18446744073709551615 * nx + 2 ^ 63) % 2 ^ 64
    → (p + py + 18446744073709551615 * (n + ny) + 2 ^ 63) % 2 ^ 64
      ≡ (px + py + 18446744073709551615 * (nx + ny) + 2 ^ 63) % 2 ^ 64
residue_add p n px nx py ny h = omega arith

pub wrap64-+ℤ : (x y : ℤ) → wrap64 (wrap64 x +ℤ y) ≡ wrap64 (x +ℤ y)
unfolding ◌+ℤ◌
wrap64-+ℤ x y =
    wrap64-sub_ℕ (pos_part (wrap64 x) + pos_part y) (neg_part (wrap64 x) + neg_part y)
    ∙ ap (λ r. sub_ℕ r (2 ^ 63))
        (residue_add (pos_part (wrap64 x)) (neg_part (wrap64 x)) (pos_part x) (neg_part x)
          (pos_part y) (neg_part y) (residue x))
    ∙ sym (wrap64-sub_ℕ (pos_part x + pos_part y) (neg_part x + neg_part y))

pub wrap64-+ℤ-right : (x y : ℤ) → wrap64 (x +ℤ wrap64 y) ≡ wrap64 (x +ℤ y)
wrap64-+ℤ-right x y = ap wrap64 (+ℤ_comm x (wrap64 y)) ∙ wrap64-+ℤ y x ∙ ap wrap64 (+ℤ_comm y x)

pub wrap64-wrap64 : (x : ℤ) → wrap64 (wrap64 x) ≡ wrap64 x
unfolding wrap64
wrap64-wrap64 x = ground arith
