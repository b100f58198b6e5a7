-- ===== src/Report/Series/Stored.antt =====
-- The accumulator and the series as the working state keeps them.
use honryu.Base.{◌≡◌, ap, ◌∙◌, List, []}
use honryu.Base.Ints.{ℤ, eqb_ℤ, eqb_ℤ_iff}
use honryu.Base.Floats.{Float64}
use honryu.Base.Maps.{lookup_or, store, lookup_or-same, store-store}
use honryu.Metrics.{Interval}
use honryu.Progress.{Tally}
use honryu.Report.Accumulator.{Accumulator, new_accumulator, add_interval}
use honryu.Report.Series.{SeriesSecond, absorb_series, absorb_seconds, group_seconds}

module _ (fl : Float64) where
  open fl use {F}

  -- A batch with nothing new leaves the series as it is.
  pub absorb_series-nothing :
      (run : ℤ) (ivs : List (Interval F)) (series : List (ℤ × List (ℤ × SeriesSecond F)))
      → absorb_series fl run [] (absorb_series fl run ivs series) ≡ absorb_series fl run ivs series
  unfolding absorb_series absorb_seconds group_seconds
  absorb_series-nothing run ivs series =
      let seconds : List (ℤ × SeriesSecond F) =
        absorb_seconds fl (group_seconds [] ivs) (lookup_or eqb_ℤ [] run series) in
      ap (λ s. store eqb_ℤ run s (store eqb_ℤ run seconds series))
        (lookup_or-same eqb_ℤ eqb_ℤ_iff [] run seconds series)
      ∙ store-store eqb_ℤ eqb_ℤ_iff run seconds seconds series

  abbrev pub report_tally : Tally F
  report_tally = record {
    Acc = Accumulator F;
    Series = List (ℤ × List (ℤ × SeriesSecond F));
    new_accumulator = new_accumulator;
    add = add_interval fl;
    absorb_series = absorb_series fl;
    absorb_nothing = absorb_series-nothing;
  }
