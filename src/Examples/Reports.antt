-- ===== src/Examples/Reports.antt =====
-- A run of two pods, with response times in thousandths.
use honryu.Base.{ℕ, ◌≡◌, refl, str_eq, List, [], ◌∷◌, none, true}
use honryu.Base.Ints.{pos, eqb_ℤ, wrap64, ◌+ℤ◌}
use honryu.Base.Maps.{lookup, lookup_or, store}
use honryu.Base.Sorting.{sort_by, insert_by}
use honryu.Base.Text.{
  chars, same_text, trim_space, trim_left, is_space, to_lower, contains, has_prefix, atoi, unsigned,
  digits_from,
}
use honryu.Base.Thousandths.{thousandths}
use honryu.Metrics.{Interval, ErrorGroup}
use honryu.Taurus.{
  passed, failed, combine_outcomes, worst_outcome, seen_outcome, outcome_from_exit_code,
}
use honryu.Report.Failures.{
  target, engine, Signature, same_signature, attribute_error, is_response_code, any_phrase, wording,
  seen_exemplar, merge_exemplars, add_exemplars, add_exemplar, total,
}
use honryu.Report.Accumulator.{
  Accumulator, new_accumulator, add_interval, add_second, add_latency, tally_buckets, add_errors,
  no_second, peak, peak_from, attribution,
}
use honryu.Report.Accumulator.Counts.{attribution-add_errors, failures}
use honryu.Report.Snapshots.{snapshot, restore}
use honryu.Report.Snapshots.Valid.{new-IsValid, add_interval-IsValid}
use honryu.Report.Snapshots.Roundtrip.{restore-snapshot}
use honryu.Report.Series.Sums.{sum_all}
use honryu.Report.Summary.{Load, Meta, build, mean_requested_rate, step_work, short_of_volume}
use honryu.Report.Summary.Samples.{build-samples, counted}
use honryu.Report.Series.{no_interval, no_row}
use honryu.Report.Series.Agree.{series-accumulator, add_batches, absorb_batches}

abbrev refused : ErrorGroup
refused = record {
  message = chars "dial tcp: Connection Refused";
  response_code = [];
  count = pos 2;
}

abbrev sockets : ErrorGroup
sockets = record {
  message = chars "connection refused: too many open files";
  response_code = [];
  count = pos 1;
}

abbrev missing : ErrorGroup
missing = record { message = chars "Not Found"; response_code = chars "404"; count = pos 3 }

abbrev checkout : Interval ℕ
checkout = record no_interval {
  timestamp = pos 7;
  label = "/checkout";
  concurrency = pos 4;
  samples = pos 10;
  failed = pos 6;
  latency = (200, pos 6) ∷ (300, pos 4) ∷ [];
  errors = refused ∷ sockets ∷ missing ∷ [];
}

abbrev whole : Interval ℕ
whole = record no_interval { timestamp = pos 7; label = "__total__"; concurrency = pos 5 }

abbrev measured : Accumulator ℕ
measured = add_interval thousandths whole (add_interval thousandths checkout new_accumulator)

sides :
    attribute_error refused ∷ attribute_error sockets ∷ attribute_error missing ∷ []
    ≡ target ∷ engine ∷ target ∷ []
unfolding attribute_error is_response_code any_phrase to_lower contains has_prefix atoi unsigned
    digits_from trim_space trim_left is_space
sides = refl

abbrev not_found : Signature
not_found = record { label = "/checkout"; response_code = chars "404"; side = target }

restore-snapshot_example :
    (lookup str_eq "/checkout" (restore thousandths (snapshot measured)).labels
      ≡ lookup str_eq "/checkout" measured.labels)
    × (lookup eqb_ℤ (pos 7) (restore thousandths (snapshot measured)).seconds
        ≡ lookup eqb_ℤ (pos 7) measured.seconds)
    × (lookup same_signature not_found (restore thousandths (snapshot measured)).signatures
        ≡ lookup same_signature not_found measured.signatures)
restore-snapshot_example = restore-snapshot thousandths measured "/checkout" (pos 7) not_found (
    add_interval-IsValid thousandths whole (add_interval thousandths checkout new_accumulator)
      (add_interval-IsValid thousandths checkout new_accumulator (new-IsValid thousandths)))

abbrev pods : List (List (Interval ℕ))
pods = (checkout ∷ whole ∷ []) ∷ (whole ∷ checkout ∷ checkout ∷ []) ∷ []

series-accumulator_example :
    let row =
      lookup_or eqb_ℤ no_row
        (pos 7)
        (lookup_or eqb_ℤ [] (pos 1) (absorb_batches thousandths (pos 1) [] pods)) in
    let sec =
      lookup_or eqb_ℤ
        (no_second thousandths)
        (pos 7)
        (add_batches thousandths new_accumulator pods).seconds in
    (row.engine ≡ sec.engine) × (row.labels ≡ sec.labels)
series-accumulator_example = series-accumulator thousandths (pos 1) (pos 7) pods

attribution-add_errors_example :
    total (attribution (add_errors "/checkout" checkout.errors measured.signatures))
    ≡ wrap64 (total (attribution measured.signatures) +ℤ failures checkout.errors)
attribution-add_errors_example =
    attribution-add_errors "/checkout" checkout.errors measured.signatures

first_three :
    merge_exemplars (chars "a" ∷ chars "b" ∷ []) (chars " a " ∷ chars "c" ∷ chars "d" ∷ [])
    ≡ chars "a" ∷ chars "b" ∷ chars "c" ∷ []
unfolding merge_exemplars add_exemplars add_exemplar wording seen_exemplar same_text trim_space
    trim_left is_space
first_three = refl

criteria_failed : combine_outcomes (pos 0 ∷ pos 3 ∷ []) ≡ failed
unfolding combine_outcomes worst_outcome seen_outcome outcome_from_exit_code
criteria_failed = refl

five_users : peak thousandths measured ≡ pos 5
unfolding peak peak_from add_interval add_second add_latency tally_buckets lookup_or store wrap64
    ◌+ℤ◌ sort_by insert_by
five_users = refl

abbrev minute : Load ℕ
minute = record {
  concurrency = pos 5;
  throughput = 10000;
  duration_seconds = pos 60;
  steps = [];
  samples = pos 0;
  failed = pos 0;
}

short_of_a_tenth : short_of_volume thousandths minute (record minute { samples = pos 540 }) ≡ true
unfolding short_of_volume mean_requested_rate step_work
short_of_a_tenth = refl

abbrev intent : Meta ℕ
intent = record {
  execution_id = pos 1;
  scenario_id = pos 2;
  run_id = pos 3;
  engine = "k6";
  cluster = [];
  correlation_id = [];
  started_at = none;
  ended_at = none;
  requested = minute;
  outcome = passed;
}

build-samples_example :
    (build thousandths intent (checkout ∷ whole ∷ checkout ∷ [])).achieved.samples
    ≡ wrap64 (sum_all (counted thousandths) (checkout ∷ whole ∷ checkout ∷ []))
build-samples_example = build-samples thousandths intent (checkout ∷ whole ∷ checkout ∷ [])
