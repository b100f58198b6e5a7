-- ===== src/Examples/Samples.antt =====
-- Response times in thousandths.
use honryu.Base.{ℕ, ◌≡◌, refl, [], ◌∷◌, map, arith}
use honryu.Base.Ints.{pos, wrap64, ◌+ℤ◌, ◌≤ℤ◌}
use honryu.Base.Sorting.{sort_by}
use honryu.Base.Thousandths.{thousandths}
use honryu.Metrics.{Histogram, count, count_from, rank_of, percentile, percentiles}
use honryu.Metrics.Ranks.{rank_mono}
use honryu.Metrics.Percentiles.{percentiles-percentile}

-- Five samples at 200 ms, four at 100 ms and one at 900 ms.
abbrev latencies : Histogram ℕ
latencies = (200, pos 5) ∷ (100, pos 4) ∷ (900, pos 1) ∷ []

ten_samples : count thousandths latencies ≡ pos 10
unfolding count count_from wrap64 ◌+ℤ◌
ten_samples = refl

percentiles-percentile_example :
    percentiles thousandths latencies (95000 ∷ 50000 ∷ [])
    ≡ map
        (λ p. (p, percentile thousandths latencies p))
        (sort_by thousandths.lt (95000 ∷ 50000 ∷ []))
percentiles-percentile_example =
    percentiles-percentile thousandths latencies (95000 ∷ 50000 ∷ []) 10 ten_samples (omega arith)

rank_mono_example : rank_of thousandths (pos 10) 50000 ≤ℤ rank_of thousandths (pos 10) 95000
rank_mono_example = rank_mono thousandths 10 50000 95000 (omega arith) refl
