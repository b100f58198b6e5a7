-- ===== src/Report/Soak.antt =====
-- internal/domain/report/soak.go: whether response times rose over a run.
pub mod Halves
use honryu.Base.{
  ℕ, zero, suc, ◌+◌, ◌/◌, Bool, true, false, ◌&&◌, List, [], ◌∷◌, ◌++◌, Option, none, some, String,
  str_eq, if◌then◌else◌, length, ltb,
}
use honryu.Base.Ints.{ℤ, pos, ◌+ℤ◌, ◌-ℤ◌, wrap64, ltb_ℤ, eqb_ℤ, nonpos}
use honryu.Base.Floats.{Float64}
use honryu.Base.Maps.{lookup_or, store}
use honryu.Base.Sorting.{sort_by}
use honryu.Base.Text.{chars, text_lt}
use honryu.Report.Accumulator.{SecondState, LabelLatencyTally}

abbrev pub min_sampled_seconds : ℕ
min_sampled_seconds = 120

pub record SecondMean (F : Type 0) : Type 0 where
  pub ts : ℤ
  pub sum : F
  pub samples : ℤ

-- The figures and the verdict of a trend.
pub record Figures (F : Type 0) : Type 0 where
  pub first_half_ms : F
  pub second_half_ms : F
  pub slope_ms_per_min : F
  pub leak_suspected : Bool

pub record SoakTrend (F : Type 0) : Type 0 where
  pub figures : Figures F
  pub labels : List (String × Figures F)

-- The tallies of the two halves, and the sums of the regression.
pub record HalfSums (F : Type 0) : Type 0 where
  pub first_sum : F
  pub first_n : ℤ
  pub second_sum : F
  pub second_n : ℤ

pub record Regression (F : Type 0) : Type 0 where
  pub x : F
  pub y : F
  pub xy : F
  pub xx : F

abbrev pub earlier_mean : {F : Type 0} → SecondMean F → SecondMean F → Bool
earlier_mean s t = ltb_ℤ s.ts t.ts

module _ (fl : Float64) where
  open fl use {F, of_int, lit, add, sub, mul, div, lt, le}

  abbrev pub zero_f : F
  zero_f = of_int (pos 0)

  abbrev pub float_lt : F → F → Bool
  float_lt a b = lt a b

  unfoldable pub mean_ms : F → ℤ → F
  mean_ms sum n = if nonpos n then zero_f else mul (div sum (of_int n)) (of_int (pos 1000))

  -- The second at index `i` of the loop over the halves.
  unfoldable pub half_step : ℕ → ℕ → SecondMean F → HalfSums F → HalfSums F
  half_step half i sec h =
      if ltb i half
      then record h {
        first_sum = add h.first_sum sec.sum;
        first_n = wrap64 (h.first_n +ℤ sec.samples);
      }
      else record h {
        second_sum = add h.second_sum sec.sum;
        second_n = wrap64 (h.second_n +ℤ sec.samples);
      }

  unfoldable pub half_sums : ℕ → ℕ → HalfSums F → List (SecondMean F) → HalfSums F
  unfolding half_step
  half_sums half i h [] = h
  half_sums half i h (sec ∷ sampled) = half_sums half (suc i) (half_step half i sec h) sampled

  unfoldable pub regression : ℤ → Regression F → List (SecondMean F) → Regression F
  regression base r [] = r
  regression base r (sec ∷ sampled) =
      let x = of_int (wrap64 (sec.ts -ℤ base)) in
      let y = div sec.sum (of_int sec.samples) in
      regression base
        (record { x = add r.x x; y = add r.y y; xy = add r.xy (mul x y); xx = add r.xx (mul x x) })
        sampled

  abbrev pub no_halves : HalfSums F
  no_halves = record { first_sum = zero_f; first_n = pos 0; second_sum = zero_f; second_n = pos 0 }

  -- `sampled[0].ts`; the callers' lists are not empty.
  unfoldable pub base_of : List (SecondMean F) → ℤ
  base_of [] = pos 0
  base_of (sec ∷ _) = sec.ts

  unfoldable pub slope : List (SecondMean F) → F
  unfolding regression base_of
  slope sampled =
      let r =
        regression (base_of sampled) (record { x = zero_f; y = zero_f; xy = zero_f; xx = zero_f })
          sampled in
      let n = of_int (pos (length sampled)) in
      let var_x = sub r.xx (div (mul r.x r.x) n) in
      let per_second = div (sub r.xy (div (mul r.x r.y) n)) var_x in
      if float_lt zero_f var_x
      then mul (mul per_second (of_int (pos 1000))) (of_int (pos 60))
      else zero_f

  unfoldable pub soak_figures : List (SecondMean F) → Figures F
  unfolding half_sums mean_ms slope
  soak_figures sampled =
      let h = half_sums (length sampled / 2) 0 no_halves sampled in
      let first = mean_ms h.first_sum h.first_n in
      let second = mean_ms h.second_sum h.second_n in
      let rise = slope sampled in
      record {
        first_half_ms = first;
        second_half_ms = second;
        slope_ms_per_min = rise;
        leak_suspected =
            float_lt zero_f first && float_lt (mul (lit 15 1) first) second && float_lt zero_f rise;
      }

  -- The seconds with samples.
  unfoldable pub sampled_seconds : List (ℤ × SecondState F) → List (SecondMean F)
  sampled_seconds [] = []
  sampled_seconds ((ts, sec) ∷ seconds) =
      let rest = sampled_seconds seconds in
      if ltb_ℤ (pos 0) sec.lat_samples
      then record { ts = ts; sum = sec.lat_sum; samples = sec.lat_samples } ∷ rest
      else rest

  -- Both trends: none from too few seconds, and else the figures of the seconds in order.
  unfoldable pub trend_of : List (SecondMean F) → Option (Figures F)
  unfolding soak_figures
  trend_of sampled =
      if ltb (length sampled) min_sampled_seconds
      then none
      else some (soak_figures (sort_by earlier_mean sampled))

  unfoldable pub soak_trend : List (ℤ × SecondState F) → Option (Figures F)
  unfolding trend_of sampled_seconds
  soak_trend seconds = trend_of (sampled_seconds seconds)

  -- The loop of `soakTrendLabels` over a second's labels, and that over the seconds.
  unfoldable pub collect_labels :
      ℤ
      → List (String × LabelLatencyTally F)
      → List (String × List (SecondMean F))
      → List (String × List (SecondMean F))
  unfolding lookup_or store
  collect_labels ts [] collected = collected
  collect_labels ts ((name, lat) ∷ tallies) collected = collect_labels ts tallies (
      if ltb_ℤ (pos 0) lat.samples
      then store str_eq name
          (lookup_or str_eq [] name collected
            ++ record { ts = ts; sum = lat.sum; samples = lat.samples } ∷ [])
          collected
      else collected)

  unfoldable pub collect_seconds :
      List (ℤ × SecondState F)
      → List (String × List (SecondMean F))
      → List (String × List (SecondMean F))
  unfolding collect_labels
  collect_seconds [] collected = collected
  collect_seconds ((ts, sec) ∷ seconds) collected =
      collect_seconds seconds (collect_labels ts sec.label_latency collected)

  abbrev pub earlier_name : String × List (SecondMean F) → String × List (SecondMean F) → Bool
  earlier_name a b = text_lt (chars a.0) (chars b.0)

  -- The labels in order that have a trend of their own.
  unfoldable pub trends_of : List (String × List (SecondMean F)) → List (String × Figures F)
  unfolding trend_of
  trends_of [] = []
  trends_of ((name, pts) ∷ collected) =
      let rest = trends_of collected in
      elim (trend_of pts) [ none ↦ rest | some figures ↦ (name, figures) ∷ rest ]

  unfoldable pub soak_trend_labels : List (ℤ × SecondState F) → List (String × Figures F)
  unfolding trends_of collect_seconds
  soak_trend_labels seconds = trends_of (sort_by earlier_name (collect_seconds seconds []))
