-- ===== src/Report/Summary.antt =====
-- internal/domain/report/report.go and accumulate.go: the report that a run is judged on.
pub mod Samples
pub mod Short
use honryu.Base.{
  ℕ, Bool, true, false, ◌&&◌, List, [], ◌∷◌, map, Option, none, some, String, if◌then◌else◌,
  is_empty,
}
use honryu.Base.Ints.{ℤ, pos, pos_part, ◌+ℤ◌, ◌-ℤ◌, ◌≤ℤ◌, wrap64, nonpos, eqb_ℤ, ltb_ℤ, quot, rem}
use honryu.Base.Floats.{Float64}
use honryu.Base.Sorting.{sort_by}
use honryu.Base.Text.{Text, chars, text_lt}
use honryu.Base.Times.{Time, after, time_sub, max_duration}
use honryu.Metrics.{Histogram, Interval, merge_counts, percentiles}
use honryu.Taurus.{Outcome}
use honryu.Report.Failures.{Attribution}
use honryu.Report.Accumulator.{
  LabelState, Accumulator, new_accumulator, add_interval, peak, measured_span_seconds, attribution,
}
use honryu.Report.Snapshots.{ErrorSignature, failure_row, signature_text}
use honryu.Report.Soak.{Figures, SoakTrend, soak_trend, soak_trend_labels}

pub record StepLoad (F : Type 0) : Type 0 where
  pub index : ℤ
  pub throughput : F
  pub concurrency : ℤ
  pub duration_seconds : ℤ

pub record Load (F : Type 0) : Type 0 where
  pub concurrency : ℤ
  pub throughput : F
  pub duration_seconds : ℤ
  pub steps : List (StepLoad F)
  pub samples : ℤ
  pub failed : ℤ

pub record StatusLabel : Type 0 where
  pub code : String
  pub count : ℤ

-- `Percentiles` are the list of their entries.
pub record LabelSummary (F : Type 0) : Type 0 where
  pub label : String
  pub samples : ℤ
  pub failed : ℤ
  pub error_rate : F
  pub latency : List (F × F)
  pub statuses : List StatusLabel

-- A run's identity and intent. `started_at` and `ended_at` are `none` for Go's zero time.
pub record Meta (F : Type 0) : Type 0 where
  pub execution_id : ℤ
  pub scenario_id : ℤ
  pub run_id : ℤ
  pub engine : String
  pub cluster : Text
  pub correlation_id : Text
  pub started_at : Option Time
  pub ended_at : Option Time
  pub requested : Load F
  pub outcome : Outcome

pub record ClusterResult : Type 0 where
  pub cluster : String
  pub outcome : Outcome
  pub samples : ℤ
  pub failed : ℤ

-- A `Report`, its first ten fields being those of its `Meta`.
pub record Report (F : Type 0) : Type 0 where
  pub identity : Meta F
  pub achieved : Load F
  pub error_rate : F
  pub latency : List (F × F)
  pub attribution : Attribution
  pub errors : List ErrorSignature
  pub labels : List (LabelSummary F)
  pub cluster_results : List ClusterResult
  pub soak_trend : Option (SoakTrend F)
  pub starred : Bool
  pub note : Text

abbrev pub second : ℕ
second = 1000000000

-- `d.Round(time.Second)` of a positive duration: halves are rounded up, and what exceeds the largest
-- duration is that.
unfoldable pub round_second : ℤ → ℤ
round_second d =
    let r = rem d second in
    let up = d -ℤ r +ℤ pos second in
    if ltb_ℤ (r +ℤ r) (pos second)
    then d -ℤ r
    else if ltb_ℤ max_duration up
    then max_duration
    else up

unfoldable pub meta_seconds : {F : Type 0} → Meta F → ℤ
unfolding round_second
meta_seconds m = elim m.started_at [
  | none ↦ m.requested.duration_seconds
  | some started ↦ elim m.ended_at [
    | none ↦ m.requested.duration_seconds
    | some ended ↦
        let secs = quot (round_second (time_sub ended started)) second in
        if after ended started && ltb_ℤ (pos 0) secs then secs else m.requested.duration_seconds
  ]
]

unfoldable pub statuses_of : List (String × ℤ) → List StatusLabel
statuses_of [] = []
statuses_of ((code, n) ∷ codes) = record { code = code; count = n } ∷ statuses_of codes

abbrev pub dominant_status : StatusLabel → StatusLabel → Bool
dominant_status a b =
    if eqb_ℤ a.count b.count then text_lt (chars a.code) (chars b.code) else ltb_ℤ b.count a.count

unfoldable pub status_labels : List (String × ℤ) → List StatusLabel
unfolding statuses_of
status_labels codes = sort_by dominant_status (statuses_of codes)

abbrev pub dominant_failure : ErrorSignature → ErrorSignature → Bool
dominant_failure a b =
    if eqb_ℤ a.failures.count b.failures.count
    then text_lt (signature_text a.signature) (signature_text b.signature)
    else ltb_ℤ b.failures.count a.failures.count

-- What `Report` sums over the labels: the samples, the failures and the response times.
pub record Totals (F : Type 0) : Type 0 where
  pub samples : ℤ
  pub failed : ℤ
  pub latency : Histogram F

abbrev pub earlier_label_name : {F : Type 0} → String × LabelState F → String × LabelState F → Bool
earlier_label_name a b = text_lt (chars a.0) (chars b.0)

module _ (fl : Float64) where
  open fl use {F, of_int, lit, add, mul, div, lt, le, eqb}

  abbrev pub reported_percentiles : List F
  reported_percentiles = of_int (pos 50) ∷ of_int (pos 90) ∷ of_int (pos 95) ∷ of_int (pos 99) ∷ []

  unfoldable pub rate : ℤ → ℤ → F
  rate part whole = if nonpos whole then of_int (pos 0) else div (of_int part) (of_int whole)

  unfoldable pub per_second : ℤ → ℤ → F
  per_second samples seconds =
      if nonpos seconds then of_int (pos 0) else div (of_int samples) (of_int seconds)

  unfoldable pub add_totals : LabelState F → Totals F → Totals F
  add_totals st t = record {
    samples = wrap64 (t.samples +ℤ st.samples);
    failed = wrap64 (t.failed +ℤ st.failed);
    latency = merge_counts eqb t.latency st.latency;
  }

  unfoldable pub totals_from : Totals F → List (String × LabelState F) → Totals F
  unfolding add_totals
  totals_from t [] = t
  totals_from t (l ∷ labels) = totals_from (add_totals l.1 t) labels

  abbrev pub no_totals : Totals F
  no_totals = record { samples = pos 0; failed = pos 0; latency = [] }

  unfoldable pub label_summary : String × LabelState F → LabelSummary F
  unfolding rate status_labels
  label_summary (name, st) = record {
    label = name;
    samples = st.samples;
    failed = st.failed;
    error_rate = rate st.failed st.samples;
    latency = percentiles fl st.latency reported_percentiles;
    statuses = status_labels st.codes;
  }

  unfoldable pub achieved_seconds : Accumulator F → Meta F → ℤ
  unfolding meta_seconds
  achieved_seconds a m = elim (measured_span_seconds fl a) [
    | some span ↦ span
    | none ↦ meta_seconds m
  ]

  unfoldable pub soak_trend_of : Accumulator F → Option (SoakTrend F)
  unfolding soak_trend soak_trend_labels
  soak_trend_of a = elim (soak_trend fl a.seconds) [
    | none ↦ none
    | some figures ↦ some (record { figures = figures; labels = soak_trend_labels fl a.seconds })
  ]

  -- `Accumulator.Report`
  unfoldable pub report : Accumulator F → Meta F → Report F
  unfolding totals_from label_summary achieved_seconds soak_trend_of per_second rate
  report a m =
      let t = totals_from no_totals a.labels in
      let seconds = achieved_seconds a m in
      record {
        identity = m;
        achieved = record {
          concurrency = peak fl a;
          throughput = per_second t.samples seconds;
          duration_seconds = seconds;
          steps = [];
          samples = t.samples;
          failed = t.failed;
        };
        error_rate = rate t.failed t.samples;
        latency = percentiles fl t.latency reported_percentiles;
        attribution = attribution a.signatures;
        errors = sort_by dominant_failure (map failure_row a.signatures);
        labels = map label_summary (sort_by earlier_label_name a.labels);
        cluster_results = [];
        soak_trend = soak_trend_of a;
        starred = false;
        note = [];
      }

  -- The loop of `Build`.
  unfoldable pub add_intervals : Accumulator F → List (Interval F) → Accumulator F
  add_intervals a [] = a
  add_intervals a (iv ∷ ivs) = add_intervals (add_interval fl iv a) ivs

  unfoldable pub build : Meta F → List (Interval F) → Report F
  unfolding report add_intervals
  build m ivs = report (add_intervals new_accumulator ivs) m

  -- The loop of `meanRequestedRate`: the work of the steps and their seconds.
  unfoldable pub step_work : F → ℤ → List (StepLoad F) → F × ℤ
  step_work samples secs [] = (samples, secs)
  step_work samples secs (s ∷ steps) =
      step_work (add samples (mul s.throughput (of_int s.duration_seconds)))
        (wrap64 (secs +ℤ s.duration_seconds)) steps

  unfoldable pub mean_requested_rate : Load F → F
  unfolding step_work
  mean_requested_rate l =
      let (samples, secs) = step_work (of_int (pos 0)) (pos 0) l.steps in
      if is_empty l.steps
      then l.throughput
      else if nonpos secs
      then l.throughput
      else div samples (of_int secs)

  abbrev pub float_le : F → F → Bool
  float_le a b = le a b

  abbrev pub float_lt : F → F → Bool
  float_lt a b = lt a b

  -- `ShortOfRequest` and `ShortOfVolume`, of the load requested and that achieved.
  unfoldable pub short_of_request : Load F → Load F → Bool
  unfolding mean_requested_rate
  short_of_request requested achieved =
      if float_le requested.throughput (of_int (pos 0))
      then false
      else float_lt achieved.throughput (mul (mean_requested_rate requested) (lit 95 2))

  unfoldable pub short_of_volume : Load F → Load F → Bool
  unfolding mean_requested_rate
  short_of_volume requested achieved =
      if float_le requested.throughput (of_int (pos 0))
      then false
      else float_lt (of_int achieved.samples)
          (mul (mul (mean_requested_rate requested) (of_int requested.duration_seconds)) (lit 95 2))

  -- `TargetErrorRate`
  unfoldable pub target_error_rate : Report F → F
  unfolding rate
  target_error_rate r =
      if nonpos r.achieved.samples
      then of_int (pos 0)
      else div (of_int r.attribution.target) (of_int r.achieved.samples)

pub data ReportError : Type 0 where
  execution_required run_required : ReportError

-- `Validate`; the four outcomes are all that there are.
unfoldable pub validate : {F : Type 0} → Report F → Option ReportError
validate r =
    if nonpos r.identity.execution_id
    then some execution_required
    else if nonpos r.identity.run_id
    then some run_required
    else none
