-- ===== src/Control.antt =====
-- internal/app/metricsapp: the service that absorbs measurements and ends runs, with the stores that it
-- works on (internal/ports/fake). What Ingest does with one interval is here; the end of a run is in
-- Finalize, and Ingest itself in Ingest.
pub mod Finalize
pub mod Ingest
pub mod Live
pub mod Closing
pub mod Once
pub mod Ends
pub mod Apart
use honryu.Base.{
  ℕ, Bool, true, false, ◌&&◌, ◌||◌, not, List, [], ◌∷◌, ◌++◌, map, Option, none, some, String,
  str_eq, if◌then◌else◌, is_empty,
}
use honryu.Base.Ints.{ℤ, pos, ◌+ℤ◌, wrap64, eqb_ℤ, ltb_ℤ}
use honryu.Base.Floats.{Float64}
use honryu.Base.Maps.{lookup, lookup_or, store, delete}
use honryu.Base.Sorting.{sort_by}
use honryu.Base.Text.{Text, chars, itoa, same_text, text_lt}
use honryu.Base.Times.{Time}
use honryu.Execution.{Execution}
use honryu.LoadProfile.{Entry}
use honryu.Metrics.{Batch, Interval, percentile}
use honryu.Progress.{ProgressError, ReportProgress}
use honryu.Report.Accumulator.{Accumulator}
use honryu.Report.Series.{SeriesSecond}
use honryu.Report.Summary.{Report, ReportError}

pub record RunRecord : Type 0 where
  pub run_id : ℤ
  pub execution_id : ℤ
  pub started_time : Time
  pub end_time : Option Time
  pub correlation_id : Text

pub record OrphanKey : Type 0 where
  pub scenario_id : ℤ
  pub shard : ℤ

pub record OrphanCompletion : Type 0 where
  pub execution_id : ℤ
  pub scenario_id : ℤ
  pub shard_index : ℤ
  pub exit_code : Option ℤ
  pub finished_at : Time

abbrev pub same_orphan : OrphanKey → OrphanKey → Bool
same_orphan j k = eqb_ℤ j.scenario_id k.scenario_id && eqb_ℤ j.shard k.shard

-- A measurement as the live view shows it; its `Raw` is empty.
pub record Metric (F : Type 0) : Type 0 where
  pub threads : F
  pub latency : F
  pub label : String
  pub status : String
  pub execution_id : Text
  pub scenario_id : Text
  pub engine_id : Text
  pub run_id : Text

pub record ClusterCounts : Type 0 where
  pub samples : ℤ
  pub failed : ℤ

-- The errors, with the values that their messages quote.
pub data ControlError : Type 0 where
  no_active_run : ℤ → ControlError
  stale_run : ℤ → ℤ → ControlError
  not_found : ControlError
  progress_err : ProgressError → ControlError
  report_err : ReportError → ControlError
  save_err threshold_err : String → ControlError

-- The in-memory state of the service and of its stores. The sink and the bus keep what was sent to
-- them, and so does the notifier.
pub record Control (F : Type 0) : Type 0 where
  pub current_runs : List (ℤ × ℤ)
  pub run_history : List (ℤ × RunRecord)
  pub profiles : List (ℤ × List Entry)
  pub executions : List (ℤ × Execution)
  pub orphans : List (ℤ × List (OrphanKey × OrphanCompletion))
  pub last_activity : List (ℤ × Time)
  pub progress : ReportProgress (Accumulator F) (List (ℤ × List (ℤ × SeriesSecond F)))
  pub reports : List (ℤ × Report F)
  pub save_fails : Option String
  pub get_fails : Option String
  pub seen : List (ℤ × List Text)
  pub tally : List (ℤ × List (String × ClusterCounts))
  pub recorded : List (Metric F)
  pub notified : List (ℤ × Report F)

-- What an operation returns: its error, if any, and the state that it leaves.
abbrev pub StepResult : Type 0 → Type 0
StepResult F = Option ControlError × Control F

abbrev pub and_then : {F : Type 0} → StepResult F → (Control F → StepResult F) → StepResult F
and_then (none, s) next = next s
and_then (some e, s) next = (some e, s)

unfoldable pub seen_key : Text → List Text → Bool
unfolding same_text
seen_key key [] = false
seen_key key (k ∷ keys) = same_text k key || seen_key key keys

-- `seen.mark`: whether the key is new, and the keys with it.
unfoldable pub mark : ℤ → Text → List (ℤ × List Text) → Bool × List (ℤ × List Text)
unfolding seen_key lookup_or store
mark execution key runs =
    let keys = lookup_or eqb_ℤ [] execution runs in
    if seen_key key keys then (false, runs) else (true, store eqb_ℤ execution (key ∷ keys) runs)

abbrev pub no_counts : ClusterCounts
no_counts = record { samples = pos 0; failed = pos 0 }

unfoldable pub interval_key : {F : Type 0} → Batch F → Interval F → Text
unfolding itoa
interval_key b iv =
    chars b.cluster
    ++ chars "|"
    ++ itoa b.shard_index
    ++ chars "|"
    ++ itoa b.scenario_id
    ++ chars "|"
    ++ itoa iv.timestamp
    ++ chars "|"
    ++ chars iv.label

module _ {F : Type 0} where
  -- `clusterTally.add`
  unfoldable pub add_counts : Interval F → ClusterCounts → ClusterCounts
  add_counts iv cur = record {
    samples = wrap64 (cur.samples +ℤ iv.samples);
    failed = wrap64 (cur.failed +ℤ iv.failed);
  }

  unfoldable pub add_to_tally :
      ℤ
      → String
      → Interval F
      → List (ℤ × List (String × ClusterCounts))
      → List (ℤ × List (String × ClusterCounts))
  unfolding add_counts lookup_or store
  add_to_tally run cluster iv runs =
      let counts = lookup_or eqb_ℤ [] run runs in
      store eqb_ℤ run
        (store str_eq cluster (add_counts iv (lookup_or str_eq no_counts cluster counts)) counts)
        runs

module _ (fl : Float64) where
  open fl use {F, of_int}

  -- `record`: the measurement that is forwarded.
  unfoldable pub metric_of : Batch F → Interval F → ℤ → Metric F
  unfolding itoa
  metric_of b iv run =
      let index : Text = itoa b.shard_index in
      record {
        label = iv.label;
        latency = percentile fl iv.latency (of_int (pos 50));
        threads = of_int iv.concurrency;
        status = if ltb_ℤ (pos 0) iv.failed && eqb_ℤ iv.succeeded (pos 0) then "500" else "200";
        execution_id = itoa b.execution_id;
        scenario_id = itoa b.scenario_id;
        engine_id =
            if not (str_eq b.cluster "") then chars b.cluster ++ chars "/" ++ index else index;
        run_id = itoa run;
      }

  -- One turn of `Ingest`'s loop over the intervals.
  unfoldable pub show : Batch F → ℤ → Interval F → Control F → Control F
  unfolding mark interval_key add_to_tally metric_of
  show b run iv s =
      let marked = mark b.execution_id (interval_key b iv) s.seen in
      if marked.0
      then record s {
        seen = marked.1;
        tally = add_to_tally run b.cluster iv s.tally;
        recorded = s.recorded ++ metric_of b iv run ∷ [];
      }
      else s

  unfoldable pub show_all : Batch F → ℤ → List (Interval F) → Control F → Control F
  unfolding show
  show_all b run [] s = s
  show_all b run (iv ∷ ivs) s = show_all b run ivs (show b run iv s)
