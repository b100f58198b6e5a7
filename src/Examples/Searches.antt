-- ===== src/Examples/Searches.antt =====
-- A calibration search in thousandths of a request per second.
use honryu.Base.{ℕ, ◌≡◌, refl, ◌≢◌, ◌⊎◌, true, false, Option, none, some}
use honryu.Base.Ints.{pos, ◌≤ℤ◌}
use honryu.Base.Thousandths.{thousandths}
use honryu.Calibration.{
  Spec, Job, Action, Result, Classification, engine_saturated, clean, Phase, bracketing, bisecting,
  done, engine, start, next, finish, double_or_finish, bisect_or_finish, classify_step,
  leave_bracketing, validate, with_defaults, max_qps_invalid, bisection_tolerance_qps,
}
use honryu.Calibration.Search.{Reach, begins, goes_on, prescribed_in_bounds}
use honryu.Calibration.Drive.{drive, drive_ends}
use honryu.Calibration.Pod.{
  outcome_at, Climbs, climb_begins, climb_goes_on, engine_verdict_brackets,
}

-- Three steps from 10 requests per second up to 100.
abbrev spec : Spec ℕ
spec = record {
  criterion = "p95<500ms for 10s";
  cpu = "1";
  memory = "1Gi";
  seed_qps = 10000;
  max_qps = 100000;
  max_steps = pos 3;
  hold_seconds = pos 30;
}

valid_spec : validate thousandths spec ≡ none
unfolding validate
valid_spec = refl

abbrev job_at : Phase → ℕ → ℕ → ℕ → ℕ → Option (Result ℕ) → Job ℕ
job_at phase lo achieved hi count result = record {
  spec = spec;
  phase = phase;
  bracket_lo_requested = lo;
  bracket_lo_achieved = achieved;
  bracket_hi_requested = hi;
  step_count = count;
  result = result;
}

abbrev ask : ℕ → Action ℕ
ask q = record { next_requested_qps = q; finished = false }

abbrev over : Action ℕ
over = record { next_requested_qps = 0; finished = true }

abbrev answer : Result ℕ
answer = record { saturated_by = engine; per_pod_qps = 15000 }

abbrev after_one : Job ℕ
after_one = job_at bracketing 10000 10000 0 1 none

abbrev after_two : Job ℕ
after_two = job_at bisecting 10000 10000 20000 2 none

abbrev after_three : Job ℕ
after_three = job_at done 15000 15000 20000 3 (some answer)

-- The pod sustains 15 requests per second.
climb_two : Climbs thousandths 15000 spec after_two (ask 15000)
unfolding start next classify_step double_or_finish bisect_or_finish leave_bracketing finish
climb_two =
    climb_goes_on after_one (ask 20000) 18000
      (climb_goes_on (job_at bracketing 0 0 0 0 none) (ask 10000) 10000 (climb_begins refl refl)
        refl refl refl)
      refl refl refl

climb_three : Climbs thousandths 15000 spec after_three over
unfolding start next classify_step double_or_finish bisect_or_finish leave_bracketing finish
climb_three = climb_goes_on after_two (ask 15000) 15000 climb_two refl refl refl

engine_verdict_brackets_example :
    (15000 ≡ after_three.bracket_lo_achieved)
    × (thousandths.le 15000 15000 ≡ true)
    × (thousandths.le 20000 15000 ≡ false)
    × ((thousandths.le 5000 (bisection_tolerance_qps thousandths) ≡ true) ⊎ (pos 3 ≤ℤ pos 3))
engine_verdict_brackets_example =
    engine_verdict_brackets thousandths 15000 spec after_three over answer valid_spec refl
      climb_three refl refl

-- The same steps, with outcomes that no capacity explains.
second_step : Reach thousandths spec after_two (ask 15000)
unfolding start next classify_step double_or_finish bisect_or_finish leave_bracketing finish
second_step =
    goes_on after_one (ask 20000) engine_saturated 18000
      (goes_on (job_at bracketing 0 0 0 0 none) (ask 10000) clean 10000 (begins refl refl) refl refl
        refl)
      refl refl refl

prescribed_in_bounds_example :
    (thousandths.le 15000 100000 ≡ true)
    × (thousandths.le 10000 15000 ≡ true)
    × ((bisecting ≡ bracketing) ⊎ ((bisecting ≡ bisecting) × (thousandths.le 15000 20000 ≡ true)))
prescribed_in_bounds_example =
    prescribed_in_bounds thousandths spec after_two (ask 15000) valid_spec second_step refl

abbrev slow_pod : Job ℕ → Action ℕ → Classification × ℕ
slow_pod job asked = (outcome_at thousandths 15000 asked.next_requested_qps, 15000)

drive_ends_example :
    drive thousandths 3 slow_pod (start thousandths spec).0 (start thousandths spec).1 ≢ none
drive_ends_example = drive_ends thousandths spec slow_pod valid_spec

abbrev low_ceiling : Spec ℕ
low_ceiling = record spec { max_qps = 5000 }

refused : validate thousandths (with_defaults thousandths low_ceiling) ≡ some max_qps_invalid
unfolding validate with_defaults
refused = refl
