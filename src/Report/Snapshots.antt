-- ===== src/Report/Snapshots.antt =====
-- internal/domain/report/accumulate.go: Snapshot and Restore, what is written down of a run that is
-- being measured.
pub mod Valid
pub mod Roundtrip
use honryu.Base.{ℕ, Bool, true, false, List, [], ◌∷◌, ◌++◌, map, String}
use honryu.Base.Ints.{ℤ, ltb_ℤ, eqb_ℤ}
use honryu.Base.{str_eq}
use honryu.Base.Floats.{Float64}
use honryu.Base.Rebuilt.{store_rows}
use honryu.Base.Sorting.{sort_by}
use honryu.Base.Text.{Text, chars, text_lt}
use honryu.Metrics.{Histogram, merge_counts}
use honryu.Report.Failures.{Side, target, engine, unknown, Signature, same_signature, ErrorCount}
use honryu.Report.Accumulator.{LabelState, LabelLatencyTally, SecondState, Accumulator}

pub record LabelProgress (F : Type 0) : Type 0 where
  pub label : String
  pub samples : ℤ
  pub failed : ℤ
  pub latency : Histogram F
  pub codes : List (String × ℤ)

pub record SecondProgress (F : Type 0) : Type 0 where
  pub second : ℤ
  pub engine : ℤ
  pub labels : ℤ
  pub latency_sum : F
  pub latency_samples : ℤ
  pub label_latency : List (String × LabelLatencyTally F)

-- An `ErrorSignature`.
pub record ErrorSignature : Type 0 where
  pub signature : Signature
  pub failures : ErrorCount

pub record Snapshot (F : Type 0) : Type 0 where
  pub labels : List (LabelProgress F)
  pub seconds : List (SecondProgress F)
  pub signatures : List ErrorSignature

abbrev pub side_text : Side → Text
side_text target = chars "target"
side_text engine = chars "engine"
side_text unknown = chars "unknown"

-- `Signature.String`
unfoldable pub signature_text : Signature → Text
signature_text s = side_text s.side ++ chars "|" ++ s.response_code ++ chars "|" ++ chars s.label

abbrev pub earlier_failure : ErrorSignature → ErrorSignature → Bool
earlier_failure e f = text_lt (signature_text e.signature) (signature_text f.signature)

abbrev pub failure_row : Signature × ErrorCount → ErrorSignature
failure_row e = record { signature = e.0; failures = e.1 }

module _ {F : Type 0} where
  abbrev pub earlier_label : LabelProgress F → LabelProgress F → Bool
  earlier_label l m = text_lt (chars l.label) (chars m.label)

  abbrev pub earlier_second : SecondProgress F → SecondProgress F → Bool
  earlier_second s t = ltb_ℤ s.second t.second

  unfoldable pub label_row : String × LabelState F → LabelProgress F
  label_row (name, st) = record {
    label = name;
    samples = st.samples;
    failed = st.failed;
    latency = st.latency;
    codes = st.codes;
  }

  unfoldable pub second_row : ℤ × SecondState F → SecondProgress F
  second_row (ts, sec) = record {
    second = ts;
    engine = sec.engine;
    labels = sec.labels;
    latency_sum = sec.lat_sum;
    latency_samples = sec.lat_samples;
    label_latency = sec.label_latency;
  }

  -- `Snapshot`
  unfoldable pub snapshot : Accumulator F → Snapshot F
  unfolding label_row second_row text_lt signature_text
  snapshot a = record {
    labels = sort_by earlier_label (map label_row a.labels);
    seconds = sort_by earlier_second (map second_row a.seconds);
    signatures = sort_by earlier_failure (map failure_row a.signatures);
  }

  unfoldable pub second_state : SecondProgress F → SecondState F
  second_state sec = record {
    engine = sec.engine;
    labels = sec.labels;
    lat_sum = sec.latency_sum;
    lat_samples = sec.latency_samples;
    label_latency = sec.label_latency;
  }

module _ (fl : Float64) where
  open fl use {F, eqb}

  unfoldable pub label_state : LabelProgress F → LabelState F
  unfolding merge_counts
  label_state l = record {
    samples = l.samples;
    failed = l.failed;
    latency = merge_counts eqb [] l.latency;
    codes = l.codes;
  }

  -- `Restore`: its three loops.
  unfoldable pub restore : Snapshot F → Accumulator F
  unfolding label_state second_state store_rows
  restore s = record {
    labels = store_rows str_eq (λ l. l.label) label_state s.labels [];
    seconds = store_rows eqb_ℤ (λ s. s.second) second_state s.seconds [];
    signatures = store_rows same_signature (λ e. e.signature) (λ e. e.failures) s.signatures [];
  }
