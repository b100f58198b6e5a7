-- ===== src/Metrics/Merged.antt =====
-- The merge of two histograms.
use honryu.Base.{
  ℕ, ◌+◌, ◌^◌, ◌<◌, ◌≡◌, refl, ap, sym, ◌∙◌, subst, inl, inr, Bool, true, false, List, [], ◌∷◌,
  arith, All, Bool-cases,
}
use honryu.Base.Ints.{ℤ, pos, pos_part, ◌+ℤ◌, wrap64, wrap64-fits, pos-+ℤ-pos, pos-of_nonneg, ltb_ℤ}
use honryu.Base.Floats.{Float64}
use honryu.Base.Maps.{lookup_or, store, store-there, lookup_or-there}
use honryu.Base.Sorting.{sum_of}
use honryu.Metrics.{Histogram, add_at, count, count_from, merge_counts}
use honryu.Metrics.Nearest.{count_from-sum_of}

module _ {ℓ} {K : Type ℓ} (eq : K → K → Bool) where
  abbrev counted : K × ℤ → ℕ
  counted b = pos_part b.1

  abbrev IsCounted : K × ℤ → Type 0
  IsCounted b = ltb_ℤ b.1 (pos 0) ≡ false

  -- `m[k] += n` at an entry.
  add_at-here :
      (k j : K) (n v : ℤ) (m : List (K × ℤ))
      → eq j k ≡ true
      → add_at eq k n ((j, v) ∷ m) ≡ (j, wrap64 (v +ℤ n)) ∷ m
  unfolding add_at store lookup_or
  add_at-here k j n v m h = simp h refl

  pub add_at-there :
      (k j : K) (n v : ℤ) (m : List (K × ℤ))
      → eq j k ≡ false
      → add_at eq k n ((j, v) ∷ m) ≡ (j, v) ∷ add_at eq k n m
  unfolding add_at
  add_at-there k j n v m h =
      ap (λ x. store eq k (wrap64 (x +ℤ n)) ((j, v) ∷ m)) (lookup_or-there eq (pos 0) k j v m h)
      ∙ store-there eq k j (wrap64 (lookup_or eq (pos 0) k m +ℤ n)) v m h

  add_counted :
      (v n : ℤ)
      → ltb_ℤ v (pos 0) ≡ false
      → ltb_ℤ n (pos 0) ≡ false
      → pos_part v + pos_part n < 2 ^ 63
      → wrap64 (v +ℤ n) ≡ pos (pos_part v + pos_part n)
  add_counted v n h k room =
      ap (λ x. wrap64 (x +ℤ n)) (pos-of_nonneg v h)
      ∙ ap (λ x. wrap64 (pos (pos_part v) +ℤ x)) (pos-of_nonneg n k)
      ∙ ap wrap64 (pos-+ℤ-pos (pos_part v) (pos_part n))
      ∙ wrap64-fits (pos_part v + pos_part n) room

  abbrev Grown : ℕ → List (K × ℤ) → Type 0
  Grown total m = (sum_of counted m ≡ total) × All IsCounted m

  add_at-Grown :
      (k : K) (n : ℤ) (m : List (K × ℤ))
      → All IsCounted m
      → ltb_ℤ n (pos 0) ≡ false
      → sum_of counted m + pos_part n < 2 ^ 63
      → Grown (sum_of counted m + pos_part n) (add_at eq k n m)
  add_at-Grown k n [] all h room =
      let sum = add_counted (pos 0) n refl h (omega arith) in
      unfold add_at in
      unfold store in
      unfold lookup_or in
      (
        ap (λ x. pos_part x + 0) sum ∙ omega arith,
        (subst (λ x. ltb_ℤ x (pos 0) ≡ false) (sym sum) (ground arith), tt),
      )
  add_at-Grown k n ((j, v) ∷ m) all h room = elim (Bool-cases (eq j k)) [
    | inl here ↦
        let sum = add_counted v n all.0 h (omega arith) in
        subst (Grown (pos_part v + sum_of counted m + pos_part n))
          (sym (add_at-here k j n v m here))
          (
            ap (λ x. pos_part x + sum_of counted m) sum ∙ omega arith,
            (subst (λ x. ltb_ℤ x (pos 0) ≡ false) (sym sum) (ground arith), all.1),
          )
    | inr elsewhere ↦
        let (rest, counts) = add_at-Grown k n m all.1 h (omega arith) in
        subst (Grown (pos_part v + sum_of counted m + pos_part n))
          (sym (add_at-there k j n v m elsewhere)) (omega (arith, rest), (all.0, counts))
  ]

  pub merge_counts-Grown :
      (m other : List (K × ℤ))
      → All IsCounted m
      → All IsCounted other
      → sum_of counted m + sum_of counted other < 2 ^ 63
      → Grown (sum_of counted m + sum_of counted other) (merge_counts eq m other)
  unfolding merge_counts
  merge_counts-Grown m [] all others room = (omega arith, all)
  merge_counts-Grown m ((k, n) ∷ other) all others room =
      let (sum, counts) = add_at-Grown k n m all others.0 (omega arith) in
      let (rest, kept) = merge_counts-Grown (add_at eq k n m) other counts others.1 (omega arith) in
      (omega arith, kept)

module _ (fl : Float64) where
  open fl use {F, eqb}

  -- Merging one histogram into another counts the samples of both, where their numbers are not
  -- negative and sum to less than 2^63: a pod's samples are neither dropped nor counted twice.
  pub count-merge_counts :
      (h other : Histogram F)
      → All (IsCounted eqb) h
      → All (IsCounted eqb) other
      → sum_of (counted eqb) h + sum_of (counted eqb) other < 2 ^ 63
      → count fl (merge_counts eqb h other) ≡ count fl h +ℤ count fl other
  unfolding count
  count-merge_counts h other a b room =
      let (sum, counts) = merge_counts-Grown eqb h other a b room in
      count_from-sum_of fl 0 (merge_counts eqb h other) counts (omega arith)
      ∙ ap pos (ap (λ x. 0 + x) sum)
      ∙ sym (
          ap (λ x. x +ℤ count_from fl (pos 0) other) (count_from-sum_of fl 0 h a (omega arith))
          ∙ ap (λ x. pos (0 + sum_of (counted eqb) h) +ℤ x)
              (count_from-sum_of fl 0 other b (omega arith))
          ∙ pos-+ℤ-pos _ _
          ∙ ap pos (omega arith))
