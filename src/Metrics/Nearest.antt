-- ===== src/Metrics/Nearest.antt =====
-- `Percentile` and the nearest rank over the sorted buckets.
use honryu.Base.{
  ℕ, ◌+◌, ◌^◌, ◌≤◌, ◌<◌, ◌≡◌, refl, ap, ◌∙◌, inl, inr, false, [], ◌∷◌, ◌++◌, arith, All, Bool-cases,
}
use honryu.Base.Ints.{
  ℤ, pos, pos_part, ◌≤ℤ◌, ◌<ℤ◌, ◌+ℤ◌, wrap64, wrap64-fits, pos-+ℤ-pos, pos-of_nonneg, leb_ℤ, ltb_ℤ,
  eqb_ℤ,
}
use honryu.Base.Floats.{Float64}
use honryu.Base.Sorting.{sort_by, sum_of, sum_of-sort_by, All-sort_by}
use honryu.Metrics.{
  Histogram, count_from, count, rank_of, earlier_bucket, percentile_from, percentile,
}
use honryu.Metrics.Ranks.{rank_bounds}

module _ (fl : Float64) where
  open fl use {F, of_int, le, lt}

  abbrev pub samples_of : F × ℤ → ℕ
  samples_of b = pos_part b.1

  abbrev pub IsCount : F × ℤ → Type 0
  IsCount b = ltb_ℤ b.1 (pos 0) ≡ false

  add_samples :
      (n : ℕ) (b : F × ℤ)
      → IsCount b
      → n + samples_of b < 2 ^ 63
      → wrap64 (pos n +ℤ b.1) ≡ pos (n + samples_of b)
  add_samples n b c h =
      rw (ap (λ x. wrap64 (pos n +ℤ x)) (pos-of_nonneg b.1 c), pos-+ℤ-pos)
        (wrap64-fits (n + samples_of b) h)

  pub count_from-sum_of :
      (n : ℕ) (h : Histogram F)
      → All IsCount h
      → n + sum_of samples_of h < 2 ^ 63
      → count_from fl (pos n) h ≡ pos (n + sum_of samples_of h)
  unfolding count_from
  count_from-sum_of n [] all k = let same : n + 0 ≡ n = omega arith in rw same
  count_from-sum_of n (b ∷ h) all k =
      rw (add_samples n b all.0 (omega arith))
        (count_from-sum_of (n + samples_of b) h all.1 (omega arith) ∙ ap pos (omega arith))

  -- The bucket at which the running count first reaches the rank.
  pub record Reaches (rank : ℤ) (seen : ℕ) (buckets : Histogram F) (rt : F) : Type 0 where
    pub before : Histogram F
    pub here : ℤ
    pub behind : Histogram F
    pub split : buckets ≡ before ++ (rt, here) ∷ behind
    pub below : pos (seen + sum_of samples_of before) <ℤ rank
    pub reached : rank ≤ℤ pos (seen + sum_of samples_of before + pos_part here)

  percentile_from-Reaches :
      (rank : ℤ) (seen : ℕ) (last : F) (buckets : Histogram F)
      → All IsCount buckets
      → seen + sum_of samples_of buckets < 2 ^ 63
      → pos seen <ℤ rank
      → rank ≤ℤ pos (seen + sum_of samples_of buckets)
      → Reaches rank seen buckets (percentile_from fl rank (pos seen) last buckets)
  unfolding percentile_from
  percentile_from-Reaches rank seen last [] all room low high = absurd (omega arith)
  percentile_from-Reaches rank seen last ((rt, n) ∷ buckets) all room low high =
      let step = add_samples seen (rt, n) all.0 (omega arith) in
      let seen' = seen + pos_part n in
      elim (Bool-cases (leb_ℤ rank (pos seen'))) [
        | inl enough ↦
            rw (step, enough)
              (record {
                before = [];
                here = n;
                behind = buckets;
                split = refl;
                below = omega arith;
                reached = ground arith;
              })
        | inr short ↦
            let later =
              percentile_from-Reaches rank seen' rt buckets all.1 (omega arith) (ground arith)
                (omega arith) in
            rw (step, short)
              (record {
                before = (rt, n) ∷ later.before;
                here = later.here;
                behind = later.behind;
                split = ap (λ l. (rt, n) ∷ l) later.split;
                below = omega (arith, later.below);
                reached = omega (arith, later.reached);
              })
      ]

  -- The percentile of a histogram of 1 to 2^53 samples is the nearest rank: in ascending order of
  -- response times, the buckets before it hold fewer samples than the percentile's rank, and with
  -- its own they reach it.
  pub percentile-Reaches :
      (h : Histogram F) (p : F)
      → All IsCount h
      → 1 ≤ sum_of samples_of h
      → sum_of samples_of h ≤ 2 ^ 53
      → Reaches (rank_of fl (count fl h) p) 0 (sort_by (earlier_bucket fl) h) (percentile fl h p)
  unfolding percentile count
  percentile-Reaches h p all some_samples room =
      let total = sum_of samples_of h in
      let sorted = sum_of-sort_by samples_of (earlier_bucket fl) h in
      let counted : count_from fl (pos 0) h ≡ pos total =
        count_from-sum_of 0 h all (omega arith) ∙ ap pos (omega arith) in
      let (low, high) = rank_bounds fl total p some_samples room in
      let nonzero : eqb_ℤ (pos total) (pos 0) ≡ false = ground arith in
      rw (counted, nonzero)
        (percentile_from-Reaches (rank_of fl (pos total) p) 0 (of_int (pos 0))
          (sort_by (earlier_bucket fl) h) (All-sort_by IsCount (earlier_bucket fl) h all)
          (omega (arith, sorted)) (omega (arith, low)) (omega (arith, high, sorted)))
