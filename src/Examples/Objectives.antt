-- ===== src/Examples/Objectives.antt =====
-- Thresholds, service levels, a trend and a campaign's verdict, with numbers in thousandths.
use honryu.Base.{ℕ, ◌≡◌, ◌↔◌, refl, List, [], ◌∷◌, All, none, some, String, true, false, ok, ◌*◌}
use honryu.Base.Ints.{ℤ, pos}
use honryu.Base.Maps.{lookup, store}
use honryu.Base.Sorting.{sort_by, insert_by, IsSorted}
use honryu.Base.Text.{chars}
use honryu.Base.Thousandths.{thousandths}
use honryu.Taurus.{passed}
use honryu.Report.Summary.{Report, Meta, Load, build, short_of_request, mean_requested_rate}
use honryu.Report.Trend.{build_trend}
use honryu.Report.Trend.Baselines.{Regressions, build_trend-Regressions}
use honryu.Threshold.{Threshold, validate, evaluate, metric_throughput_qps, comparison_gt}
use honryu.Threshold.Graded.{IsStrict, figure_of, evaluate-IsStrict}
use honryu.Reservation.{Reservation}
use honryu.Execution.{Execution}
use honryu.Campaign.{Campaign}
use honryu.Campaign.Verdict.{
  Repository, OtherLoad, CampaignVerdict, verdict, verdict_for, roll_up, roll_up_service,
  count_service, service_verdict, verdict_of, with_criteria, is_go, is_passed, other_load,
  merge_reservations, merge_launches, is_designated, merge, merge_known, earlier_load,
}
use honryu.Campaign.Verdict.Ready.{IsReady, verdict-Ready}
use honryu.Campaign.Verdict.Others.{IsOther, other_load-Others}
use honryu.Slo as Slo
use honryu.Slo.{Slo as Objective, Actual, Budget}
use honryu.Slo.Compliant.{AtMost, AtLeast, evaluate-compliant}

abbrev requested : Load ℕ
requested = record {
  concurrency = pos 10;
  throughput = 100 * 1000;
  duration_seconds = pos 60;
  steps = [];
  samples = pos 0;
  failed = pos 0;
}

abbrev run_of : ℤ → Meta ℕ
run_of run = record {
  execution_id = pos 1;
  scenario_id = pos 2;
  run_id = run;
  engine = "jmeter";
  cluster = chars "east";
  correlation_id = [];
  started_at = none;
  ended_at = none;
  requested = requested;
  outcome = passed;
}

-- A run that achieved so many requests per second.
abbrev achieved : ℤ → ℕ → Report ℕ
achieved run qps = record (build thousandths (run_of run) []) {
  achieved = record requested { throughput = qps * 1000 };
  latency = (95 * 1000, 400) ∷ [];
}

abbrev history : List (Report ℕ)
history = achieved (pos 3) 50 ∷ achieved (pos 2) 100 ∷ achieved (pos 1) 90 ∷ []

build_trend-Regressions_example :
    Regressions thousandths history (build_trend thousandths history).points
build_trend-Regressions_example = build_trend-Regressions thousandths history

abbrev at_least_60 : Threshold ℕ
at_least_60 = record {
  id = pos 4;
  scenario_id = pos 2;
  metric = metric_throughput_qps;
  comparison = comparison_gt;
  value = 60 * 1000;
  created_time = none;
}

evaluate-IsStrict_example :
    IsStrict thousandths at_least_60
      (figure_of thousandths (achieved (pos 3) 50) metric_throughput_qps)
      (evaluate thousandths at_least_60 (achieved (pos 3) 50) (pos 9))
unfolding validate
evaluate-IsStrict_example =
    evaluate-IsStrict thousandths at_least_60 (achieved (pos 3) 50) (pos 9) refl

-- 300 ms at the 95th percentile, and one request in a hundred.
abbrev objective : Objective ℕ
objective = record {
  id = pos 1;
  project_id = pos 1;
  name = chars "checkout";
  target_p95_ms = some (300 * 1000);
  target_error_rate = some 10;
  target_success_ratio = none;
  created_time = pos 0;
}

abbrev week : Actual ℕ
week = record { p95_ms = some (270 * 1000); error_rate = some 15; success_ratio = some 900 }

evaluate-compliant_example :
    ((Slo.evaluate thousandths objective week).compliant ≡ true)
    ↔ AtMost thousandths (some (300 * 1000)) (some (270 * 1000))
      × AtMost thousandths (some 10) (some 15)
      × AtLeast thousandths none (some 900)
evaluate-compliant_example = evaluate-compliant thousandths objective week

abbrev readiness : Campaign
readiness = record {
  id = pos 5;
  name = "spring";
  tenant_id = pos 1;
  window = record { start = pos 0; end = pos 100 };
  services = record { project_id = pos 1; execution_id = pos 11 } ∷ [];
  aborted_at = none;
}

abbrev shop : Execution
shop = record {
  id = pos 11;
  name = chars "shop";
  project_id = pos 1;
  engine = "jmeter";
  kind = "normal";
  cpu = "";
  memory = "";
  cluster = chars "east";
  fan_out_targets = [];
  csv_split = false;
  tenant_id = none;
  created_by = "";
  updated_by = "";
}

abbrev booking : ℤ → ℤ → Reservation
booking execution engines = record {
  id = execution;
  tenant_id = pos 1;
  cluster = "east";
  engine_count = engines;
  start = pos 10;
  end = pos 20;
  execution_id = execution;
}

-- A repository with one campaign, whose service reached its rate, and two reservations beside it.
abbrev repo : Repository String ℕ
repo = record {
  get_campaign = λ id. ok readiness;
  get_execution = λ id. ok shop;
  project_tenant = λ id. ok (some (pos 1));
  latest_report = λ id. ok (some (achieved (pos 2) 100));
  criteria_for = λ id. ok [];
  reservations_in_window = λ tenant cluster start end.
      ok (booking (pos 12) (pos 3) ∷ booking (pos 11) (pos 2) ∷ booking (pos 9) (pos 4) ∷ []);
  launch_history = λ from to. ok [];
}

abbrev loads : List OtherLoad
loads =
    record { execution_id = pos 9; start = pos 10; end = pos 20; engine_count = pos 4 }
    ∷ record { execution_id = pos 12; start = pos 10; end = pos 20; engine_count = pos 3 }
    ∷ []

abbrev spring : CampaignVerdict ℕ String
spring = record {
  campaign_id = pos 5;
  services =
      record {
        project_id = pos 1;
        execution_id = pos 11;
        has_report = true;
        outcome = some passed;
        failing_criteria = [];
        short_of_target_qps = false;
        requested_throughput = 100 * 1000;
        achieved_throughput = 100 * 1000;
      }
      ∷ [];
  go = true;
  other_load = loads;
}

verdict-Ready_example :
    (spring.go ≡ true) ↔ All (IsReady thousandths repo (λ r criteria. criteria)) readiness.services
unfolding verdict verdict_for roll_up roll_up_service count_service service_verdict verdict_of
    with_criteria is_go is_passed other_load merge_reservations merge_launches is_designated merge
    merge_known earlier_load sort_by insert_by lookup store short_of_request mean_requested_rate
    build
verdict-Ready_example =
    verdict-Ready thousandths repo (λ r criteria. criteria) (pos 5) readiness spring refl refl

other_load-Others_example : All (IsOther readiness.services) loads × IsSorted earlier_load loads
unfolding other_load merge_reservations merge_launches is_designated merge merge_known earlier_load
    sort_by insert_by lookup store
other_load-Others_example = other_load-Others repo readiness loads refl
