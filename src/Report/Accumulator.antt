-- ===== src/Report/Accumulator.antt =====
-- internal/domain/report/accumulate.go: a run's report while it is measured, with what it keeps for
-- each label, second and failure. A nil map is the empty list: a map is made only when an entry is.
pub mod Counts
pub mod Peak
use honryu.Base.{
  ℕ, Bool, true, false, List, [], ◌∷◌, Option, none, some, String, str_eq, if◌then◌else◌, is_empty,
}
use honryu.Base.Ints.{ℤ, pos, ◌+ℤ◌, ◌-ℤ◌, wrap64, eqb_ℤ, ltb_ℤ}
use honryu.Base.Floats.{Float64}
use honryu.Base.Maps.{lookup_or, store}
use honryu.Base.Sorting.{sort_by}
use honryu.Metrics.{Interval, Histogram, ErrorGroup, merge_counts, earlier_bucket}
use honryu.Report.{total_label}
use honryu.Report.Failures.{
  Side, target, engine, unknown, Signature, same_signature, new_signature, ErrorCount, add_exemplar,
  Attribution,
}

pub record LabelState (F : Type 0) : Type 0 where
  pub codes : List (String × ℤ)
  pub samples : ℤ
  pub failed : ℤ
  pub latency : Histogram F

pub record LabelLatencyTally (F : Type 0) : Type 0 where
  pub sum : F
  pub samples : ℤ

pub record SecondState (F : Type 0) : Type 0 where
  pub engine : ℤ
  pub labels : ℤ
  pub lat_sum : F
  pub lat_samples : ℤ
  pub label_latency : List (String × LabelLatencyTally F)

pub record Accumulator (F : Type 0) : Type 0 where
  pub labels : List (String × LabelState F)
  pub seconds : List (ℤ × SecondState F)
  pub signatures : List (Signature × ErrorCount)

abbrev pub new_accumulator : {F : Type 0} → Accumulator F
new_accumulator = record { labels = []; seconds = []; signatures = [] }

abbrev pub no_errors : ErrorCount
no_errors = record { count = pos 0; exemplars = [] }

-- One turn of the loop over an interval's errors.
unfoldable pub add_error :
    String → ErrorGroup → List (Signature × ErrorCount) → List (Signature × ErrorCount)
unfolding new_signature add_exemplar lookup_or store
add_error label e signatures =
    let sig = new_signature label e in
    let existing = lookup_or same_signature no_errors sig signatures in
    store same_signature sig
      (record {
        count = wrap64 (existing.count +ℤ e.count);
        exemplars = add_exemplar e.message existing.exemplars;
      })
      signatures

unfoldable pub add_errors :
    String → List ErrorGroup → List (Signature × ErrorCount) → List (Signature × ErrorCount)
unfolding add_error
add_errors label [] signatures = signatures
add_errors label (e ∷ es) signatures = add_errors label es (add_error label e signatures)

abbrev pub no_label : {F : Type 0} → LabelState F
no_label = record { codes = []; samples = pos 0; failed = pos 0; latency = [] }

module _ (fl : Float64) where
  open fl use {F, of_int, add, mul, eqb}

  abbrev pub no_tally : LabelLatencyTally F
  no_tally = record { sum = of_int (pos 0); samples = pos 0 }

  abbrev pub no_second : SecondState F
  no_second = record {
    engine = pos 0;
    labels = pos 0;
    lat_sum = of_int (pos 0);
    lat_samples = pos 0;
    label_latency = [];
  }

  -- The loop over an interval's buckets: the second's tally and its label's.
  unfoldable pub tally_buckets :
      Histogram F
      → LabelLatencyTally F × LabelLatencyTally F
      → LabelLatencyTally F × LabelLatencyTally F
  tally_buckets [] tallies = tallies
  tally_buckets ((rt, n) ∷ buckets) (second, label) =
      let sum = mul rt (of_int n) in
      tally_buckets buckets (
        record { sum = add second.sum sum; samples = wrap64 (second.samples +ℤ n) },
        record { sum = add label.sum sum; samples = wrap64 (label.samples +ℤ n) },
      )

  unfoldable pub add_latency : Interval F → SecondState F → SecondState F
  unfolding tally_buckets lookup_or store
  add_latency iv sec =
      let of_second : LabelLatencyTally F = record {
        sum = sec.lat_sum;
        samples = sec.lat_samples;
      } in
      let of_label : LabelLatencyTally F = lookup_or str_eq no_tally iv.label sec.label_latency in
      let (second, label) =
        tally_buckets (sort_by (earlier_bucket fl) iv.latency) (of_second, of_label) in
      if is_empty iv.latency then sec else record sec {
        lat_sum = second.sum;
        lat_samples = second.samples;
        label_latency = store str_eq iv.label label sec.label_latency;
      }

  unfoldable pub add_label : Interval F → LabelState F → LabelState F
  unfolding merge_counts
  add_label iv st = record {
    samples = wrap64 (st.samples +ℤ iv.samples);
    failed = wrap64 (st.failed +ℤ iv.failed);
    latency = merge_counts eqb st.latency iv.latency;
    codes = merge_counts str_eq st.codes iv.response_codes;
  }

  -- What `Add` makes of the interval's second.
  unfoldable pub add_second : Interval F → SecondState F → SecondState F
  unfolding add_latency
  add_second iv sec =
      if str_eq iv.label total_label
      then record sec { engine = wrap64 (sec.engine +ℤ iv.concurrency) }
      else add_latency iv (record sec { labels = wrap64 (sec.labels +ℤ iv.concurrency) })

  unfoldable pub add_interval : Interval F → Accumulator F → Accumulator F
  unfolding add_second add_label add_errors lookup_or store
  add_interval iv a =
      let sec = add_second iv (lookup_or eqb_ℤ no_second iv.timestamp a.seconds) in
      let st = add_label iv (lookup_or str_eq no_label iv.label a.labels) in
      let counted : Accumulator F = record a { seconds = store eqb_ℤ iv.timestamp sec a.seconds } in
      if str_eq iv.label total_label then counted else record counted {
        labels = store str_eq iv.label st a.labels;
        signatures = add_errors iv.label iv.errors a.signatures;
      }

  -- `second.engine` or `second.labels`, whichever is larger.
  abbrev pub virtual_users : SecondState F → ℤ
  virtual_users sec = if ltb_ℤ sec.labels sec.engine then sec.engine else sec.labels

  -- The loop of `peak`.
  unfoldable pub peak_from : ℤ → List (ℤ × SecondState F) → ℤ
  peak_from highest [] = highest
  peak_from highest ((ts, sec) ∷ seconds) =
      peak_from (if ltb_ℤ highest (virtual_users sec) then virtual_users sec else highest) seconds

  unfoldable pub peak : Accumulator F → ℤ
  unfolding peak_from
  peak a = peak_from (pos 0) a.seconds

  -- The loop of `measuredSpanSeconds` past its first second.
  unfoldable pub span_from : ℤ → ℤ → List (ℤ × SecondState F) → ℤ × ℤ
  span_from lo hi [] = (lo, hi)
  span_from lo hi ((ts, sec) ∷ seconds) =
      span_from (if ltb_ℤ ts lo then ts else lo) (if ltb_ℤ hi ts then ts else hi) seconds

  unfoldable pub measured_span_seconds : Accumulator F → Option ℤ
  unfolding span_from
  measured_span_seconds a = elim a.seconds [
    | [] ↦ none
    | (ts, sec) ∷ seconds ↦
        let (lo, hi) = span_from ts ts seconds in some (wrap64 (wrap64 (hi -ℤ lo) +ℤ pos 1))
  ]

-- The loop of `errors` over the failures.
unfoldable pub attribute_from : Attribution → List (Signature × ErrorCount) → Attribution
attribute_from a [] = a
attribute_from a ((sig, e) ∷ signatures) =
    attribute_from
      (elim sig.side [
        | target ↦ record a { target = wrap64 (a.target +ℤ e.count) }
        | engine ↦ record a { engine = wrap64 (a.engine +ℤ e.count) }
        | unknown ↦ record a { unknown = wrap64 (a.unknown +ℤ e.count) }
      ])
      signatures

unfoldable pub attribution : List (Signature × ErrorCount) → Attribution
unfolding attribute_from
attribution signatures =
    attribute_from (record { target = pos 0; engine = pos 0; unknown = pos 0 }) signatures
