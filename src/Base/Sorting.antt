-- ===== src/Base/Sorting.antt =====
-- `sort.Slice` by a `less` function. Go's order of equal elements is unspecified; here they keep
-- theirs.
use honryu.Base.Tests.{if◌then◌else◌, Bool-cases}
use honryu.Base.Lists.{All}
use Prim.Native.Nat.{ℕ, ◌+◌}
use mathlib.Core.Path.{◌≡◌, refl}
use mathlib.Core.Logic.{inl, inr}
use mathlib.Core.Bool.{Bool, true, false}
use mathlib.Core.List.{List, [], ◌∷◌}
use native.Mathlib.Omega.{arith}

module _ {ℓ} {A : Type ℓ} where
  unfoldable pub insert_by : (A → A → Bool) → A → List A → List A
  insert_by less x [] = x ∷ []
  insert_by less x (y ∷ ys) = if less y x then y ∷ insert_by less x ys else x ∷ y ∷ ys

  unfoldable pub sort_by : (A → A → Bool) → List A → List A
  sort_by less [] = []
  sort_by less (x ∷ xs) = insert_by less x (sort_by less xs)

  -- The sum of a measure over a list.
  abbrev pub sum_of : (A → ℕ) → List A → ℕ
  sum_of f [] = 0
  sum_of f (x ∷ xs) = f x + sum_of f xs

  -- Sorting keeps every sum over the elements.
  sum_of-insert_by :
      (f : A → ℕ) (less : A → A → Bool) (x : A) (ys : List A)
      → sum_of f (insert_by less x ys) ≡ f x + sum_of f ys
  unfolding insert_by
  sum_of-insert_by f less x [] = refl
  sum_of-insert_by f less x (y ∷ ys) = ground (arith, sum_of-insert_by f less x ys)

  pub sum_of-sort_by :
      (f : A → ℕ) (less : A → A → Bool) (xs : List A) → sum_of f (sort_by less xs) ≡ sum_of f xs
  unfolding sort_by
  sum_of-sort_by f less [] = refl
  sum_of-sort_by f less (x ∷ xs) =
      omega (arith, sum_of-insert_by f less x (sort_by less xs), sum_of-sort_by f less xs)

  pub All-insert_by {κ} :
      (P : A → Type κ) (less : A → A → Bool) (x : A) (ys : List A)
      → P x
      → All P ys
      → All P (insert_by less x ys)
  unfolding insert_by
  All-insert_by P less x [] px all = (px, tt)
  All-insert_by P less x (y ∷ ys) px all = elim (Bool-cases (less y x)) [
    | inl e ↦ rw (e, insert_by) (all.0, All-insert_by P less x ys px all.1)
    | inr e ↦ rw (e, insert_by) (px, all)
  ]

  pub All-sort_by {κ} :
      (P : A → Type κ) (less : A → A → Bool) (xs : List A) → All P xs → All P (sort_by less xs)
  unfolding sort_by
  All-sort_by P less [] all = tt
  All-sort_by P less (x ∷ xs) all =
      All-insert_by P less x (sort_by less xs) all.0 (All-sort_by P less xs all.1)

-- No element comes before an earlier one.
abbrev pub IsSorted {ℓ} : {A : Type ℓ} → (A → A → Bool) → List A → Type 0
IsSorted less [] = Unit
IsSorted less (x ∷ xs) = All (λ y. less y x ≡ false) xs × IsSorted less xs

module _ {ℓ} {A : Type ℓ} (less : A → A → Bool)
    (not_less_trans : (x y z : A) → less y x ≡ false → less z y ≡ false → less z x ≡ false)
    (asym : (x y : A) → less y x ≡ true → less x y ≡ false) where
  All-not_less :
      (x y : A) (zs : List A)
      → less y x ≡ false
      → All (λ z. less z y ≡ false) zs
      → All (λ z. less z x ≡ false) zs
  All-not_less x y [] h all = tt
  All-not_less x y (z ∷ zs) h all = (not_less_trans x y z h all.0, All-not_less x y zs h all.1)

  insert_by-IsSorted :
      (x : A) (ys : List A) → IsSorted less ys → IsSorted less (insert_by less x ys)
  unfolding insert_by
  insert_by-IsSorted x [] s = (tt, tt)
  insert_by-IsSorted x (y ∷ ys) s = elim (Bool-cases (less y x)) [
    | inl e ↦
        rw (e, insert_by)
          (
            All-insert_by (λ z. less z y ≡ false) less x ys (asym x y e) s.0,
            insert_by-IsSorted x ys s.1,
          )
    | inr e ↦ rw (e, insert_by) ((e, All-not_less x y ys e s.0), s)
  ]

  pub sort_by-IsSorted : (xs : List A) → IsSorted less (sort_by less xs)
  unfolding sort_by
  sort_by-IsSorted [] = tt
  sort_by-IsSorted (x ∷ xs) = insert_by-IsSorted x (sort_by less xs) (sort_by-IsSorted xs)
