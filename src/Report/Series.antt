-- ===== src/Report/Series.antt =====
-- internal/domain/report/second.go and internal/ports/fake/interval_repository.go: a run's permanent
-- measurements, one row for each second.
pub mod Sums
pub mod Agree
pub mod Stored
use honryu.Base.{
  Bool, true, false, List, [], ◌∷◌, ◌++◌, Option, none, some, String, str_eq, if◌then◌else◌,
}
use honryu.Base.Ints.{ℤ, pos, ◌+ℤ◌, wrap64, eqb_ℤ, ltb_ℤ}
use honryu.Base.Floats.{Float64}
use honryu.Base.Maps.{lookup_or, store}
use honryu.Base.Sorting.{sort_by}
use honryu.Metrics.{Interval, Histogram, merge_counts}
use honryu.Report.{total_label}

pub record SeriesSecond (F : Type 0) : Type 0 where
  pub engine : ℤ
  pub labels : ℤ
  pub samples : ℤ
  pub failed : ℤ
  pub bytes : ℤ
  pub latency : Histogram F

module _ {F : Type 0} where
  abbrev pub no_row : SeriesSecond F
  no_row = record {
    engine = pos 0;
    labels = pos 0;
    samples = pos 0;
    failed = pos 0;
    bytes = pos 0;
    latency = [];
  }

  -- Go's zero `Interval`.
  abbrev pub no_interval : Interval F
  no_interval = record {
    seq = pos 0;
    timestamp = pos 0;
    label = "";
    concurrency = pos 0;
    samples = pos 0;
    succeeded = pos 0;
    failed = pos 0;
    bytes = pos 0;
    latency = [];
    response_codes = [];
    errors = [];
  }

  -- `bySecond[iv.Timestamp] = append(bySecond[iv.Timestamp], iv)`, for each interval.
  unfoldable pub group_seconds :
      List (ℤ × List (Interval F)) → List (Interval F) → List (ℤ × List (Interval F))
  unfolding lookup_or store
  group_seconds groups [] = groups
  group_seconds groups (iv ∷ ivs) =
      group_seconds
        (store eqb_ℤ iv.timestamp (lookup_or eqb_ℤ [] iv.timestamp groups ++ iv ∷ []) groups) ivs

  abbrev pub earlier_interval : Interval F → Interval F → Bool
  earlier_interval a b = ltb_ℤ a.timestamp b.timestamp

  -- A row as `ListIntervalsByRun` returns it.
  unfoldable pub interval_of : ℤ × SeriesSecond F → Interval F
  interval_of (ts, row) = record no_interval {
    timestamp = ts;
    samples = row.samples;
    failed = row.failed;
    bytes = row.bytes;
    concurrency = if ltb_ℤ row.labels row.engine then row.engine else row.labels;
    latency = row.latency;
  }

  -- The loop of `ListIntervalsByRun`.
  unfoldable pub intervals_of : List (ℤ × SeriesSecond F) → List (Interval F)
  unfolding interval_of
  intervals_of [] = []
  intervals_of (second ∷ seconds) = interval_of second ∷ intervals_of seconds

  unfoldable pub list_intervals_by_run :
      ℤ → List (ℤ × List (ℤ × SeriesSecond F)) → List (Interval F)
  unfolding intervals_of lookup_or
  list_intervals_by_run run series =
      sort_by earlier_interval (intervals_of (lookup_or eqb_ℤ [] run series))

module _ (fl : Float64) where
  open fl use {F, eqb}

  -- One row of `MergeSecond`: what is merged, and the engine's own reading of concurrency.
  unfoldable pub merge_row : Interval F → Interval F × ℤ → Interval F × ℤ
  unfolding merge_counts
  merge_row row (merged, engine) =
      if str_eq row.label total_label then (merged, wrap64 (engine +ℤ row.concurrency)) else (
        record merged {
          concurrency = wrap64 (merged.concurrency +ℤ row.concurrency);
          samples = wrap64 (merged.samples +ℤ row.samples);
          succeeded = wrap64 (merged.succeeded +ℤ row.succeeded);
          failed = wrap64 (merged.failed +ℤ row.failed);
          bytes = wrap64 (merged.bytes +ℤ row.bytes);
          latency = merge_counts eqb merged.latency row.latency;
        },
        engine,
      )

  unfoldable pub merge_second_from : Interval F × ℤ → List (Interval F) → Interval F × ℤ
  unfolding merge_row
  merge_second_from merged [] = merged
  merge_second_from merged (row ∷ rows) = merge_second_from (merge_row row merged) rows

  unfoldable pub merge_second : List (Interval F) → Interval F × ℤ
  unfolding merge_second_from
  merge_second rows = merge_second_from (no_interval, pos 0) rows

  -- A second's new measurements, merged into its row.
  unfoldable pub absorb_row : List (Interval F) → SeriesSecond F → SeriesSecond F
  unfolding merge_second merge_counts
  absorb_row rows row =
      let (merged, engine) = merge_second rows in
      record {
        engine = wrap64 (row.engine +ℤ engine);
        labels = wrap64 (row.labels +ℤ merged.concurrency);
        samples = wrap64 (row.samples +ℤ merged.samples);
        failed = wrap64 (row.failed +ℤ merged.failed);
        bytes = wrap64 (row.bytes +ℤ merged.bytes);
        latency = merge_counts eqb row.latency merged.latency;
      }

  -- The loop of `absorbSeries` over the seconds of a batch.
  unfoldable pub absorb_seconds :
      List (ℤ × List (Interval F)) → List (ℤ × SeriesSecond F) → List (ℤ × SeriesSecond F)
  unfolding absorb_row lookup_or store
  absorb_seconds [] seconds = seconds
  absorb_seconds ((ts, rows) ∷ groups) seconds =
      absorb_seconds groups
        (store eqb_ℤ ts (absorb_row rows (lookup_or eqb_ℤ no_row ts seconds)) seconds)

  unfoldable pub absorb_series :
      ℤ
      → List (Interval F)
      → List (ℤ × List (ℤ × SeriesSecond F))
      → List (ℤ × List (ℤ × SeriesSecond F))
  unfolding group_seconds absorb_seconds lookup_or store
  absorb_series run fresh series =
      store eqb_ℤ run (absorb_seconds (group_seconds [] fresh) (lookup_or eqb_ℤ [] run series))
        series
