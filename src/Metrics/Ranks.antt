-- ===== src/Metrics/Ranks.antt =====
-- The rank of a percentile.
use honryu.Base.{ℕ, ◌^◌, ◌≤◌, ◌≡◌, true, arith, subst}
use honryu.Base.Ints.{pos, ◌≤ℤ◌}
use honryu.Base.Floats.{Float64}
use honryu.Metrics.{clamp_percentile, rank_of}

module _ (fl : Float64) where
  open fl use {F, of_int, mul, div, le, ceil}

  abbrev hundred : F
  hundred = of_int (pos 100)

  abbrev zero_f : F
  zero_f = of_int (pos 0)

  clamp-nonneg : (p : F) → le zero_f (clamp_percentile fl p) ≡ true
  unfolding clamp_percentile
  clamp-nonneg p = ground (
    arith,
    fl.le_refl zero_f,
    fl.le_total p zero_f,
    fl.of_int_mono (pos 0) (pos 100) (omega arith),
  )

  clamp-le-hundred : (p : F) → le (clamp_percentile fl p) hundred ≡ true
  unfolding clamp_percentile
  clamp-le-hundred p = ground (
    arith,
    fl.le_refl hundred,
    fl.le_total hundred p,
    fl.le_total hundred zero_f,
    fl.of_int_mono (pos 0) (pos 100) (omega arith),
  )

  clamp_mono : (p q : F) → le p q ≡ true → le (clamp_percentile fl p) (clamp_percentile fl q) ≡ true
  unfolding clamp_percentile
  clamp_mono p q h = ground (
    arith,
    fl.le_refl hundred,
    fl.le_refl zero_f,
    fl.le_total p zero_f,
    fl.le_total q zero_f,
    fl.le_total hundred p,
    fl.le_total hundred q,
    fl.le_total hundred zero_f,
    fl.le_trans p q zero_f,
    fl.le_trans hundred p q,
    fl.zero_lt_of_int 100 (omega arith),
    fl.of_int_mono (pos 0) (pos 100) (omega arith),
  )

  -- The share of the samples that a clamped percentile stands for.
  abbrev share : F → F
  share p = div (clamp_percentile fl p) hundred

  share-nonneg : (p : F) → le zero_f (share p) ≡ true
  share-nonneg p = fl.div_nonneg _ _ (clamp-nonneg p) (fl.zero_lt_of_int 100 (omega arith))

  share-le-one : (p : F) → le (share p) (of_int (pos 1)) ≡ true
  share-le-one p =
      let positive = fl.zero_lt_of_int 100 (omega arith) in
      subst (λ x. le (share p) x ≡ true) (fl.div_self hundred positive)
        (fl.div_mono _ _ _ (clamp-le-hundred p) positive)

  -- A percentile's rank is no higher than that of a higher percentile, among at most 2^53 samples.
  pub rank_mono :
      (total : ℕ) (p q : F)
      → total ≤ 2 ^ 53
      → le p q ≡ true
      → rank_of fl (pos total) p ≤ℤ rank_of fl (pos total) q
  unfolding rank_of
  rank_mono total p q room h =
      let samples = of_int (pos total) in
      let some_samples = fl.of_int_mono (pos 0) (pos total) (omega arith) in
      let rise =
        fl.mul_mono_left (share p) (share q) samples some_samples
          (fl.div_mono _ _ _ (clamp_mono p q h) (fl.zero_lt_of_int 100 (omega arith))) in
      let top : le (mul (share q) samples) samples ≡ true =
        subst (λ x. le (mul (share q) samples) x ≡ true) (fl.one_mul samples)
          (fl.mul_mono_left (share q) (of_int (pos 1)) samples some_samples (share-le-one q)) in
      let fits = fl.le_trans _ _ _ top (fl.of_int_mono (pos total) (pos (2 ^ 53)) (omega arith)) in
      ground (arith, fl.ceil_mono _ _ (fl.mul_nonneg _ _ (share-nonneg p) some_samples) rise fits)

  -- A rank lies among the samples.
  pub rank_bounds :
      (total : ℕ) (p : F)
      → 1 ≤ total
      → total ≤ 2 ^ 53
      → (pos 1 ≤ℤ rank_of fl (pos total) p) × (rank_of fl (pos total) p ≤ℤ pos total)
  unfolding rank_of
  rank_bounds total p some_samples room =
      let samples = of_int (pos total) in
      let nonneg = fl.of_int_mono (pos 0) (pos total) (omega arith) in
      let top : le (mul (share p) samples) samples ≡ true =
        subst (λ x. le (mul (share p) samples) x ≡ true) (fl.one_mul samples)
          (fl.mul_mono_left (share p) (of_int (pos 1)) samples nonneg (share-le-one p)) in
      let capped : ceil (mul (share p) samples) ≤ℤ pos total =
        subst (λ x. ceil (mul (share p) samples) ≤ℤ x) (fl.ceil_of_int total room)
          (fl.ceil_mono _ _ (fl.mul_nonneg _ _ (share-nonneg p) nonneg) top
            (fl.of_int_mono (pos total) (pos (2 ^ 53)) (omega arith))) in
      ground arith
