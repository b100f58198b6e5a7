-- ===== src/Threshold.antt =====
-- internal/domain/threshold/threshold.go, and the thresholds that internal/domain/loadmode/loadmode.go
-- suggests. Metrics and comparisons are the texts that the wire carries.
pub mod Suggested
pub mod Graded
use honryu.Base.{
  Bool, true, false, ◌||◌, not, List, [], ◌∷◌, ◌++◌, Option, none, some, String, str_eq,
  if◌then◌else◌,
}
use honryu.Base.Ints.{ℤ, pos, nonpos}
use honryu.Base.Floats.{Float64}
use honryu.Base.Maps.{lookup}
use honryu.Base.Text.{Text, chars}
use honryu.Base.Times.{Time}
use honryu.LoadMode.{mode_burst, mode_ramp, mode_soak, mode_staircase}
use honryu.Report.Summary.{Report}

pub data ThresholdError : Type 0 where
  metric_unknown : String → ThresholdError
  comparison_unknown : String → ThresholdError
  value_not_positive value_out_of_range scenario_required : ThresholdError

abbrev pub metric_http_p95_ms : String
metric_http_p95_ms = "http_p95_ms"

abbrev pub metric_http_p99_ms : String
metric_http_p99_ms = "http_p99_ms"

abbrev pub metric_error_rate : String
metric_error_rate = "error_rate"

abbrev pub metric_throughput_qps : String
metric_throughput_qps = "throughput_qps"

unfoldable pub metric_valid : String → Bool
metric_valid m =
    str_eq m metric_http_p95_ms
    || str_eq m metric_http_p99_ms
    || str_eq m metric_error_rate
    || str_eq m metric_throughput_qps

unfoldable pub is_fractional : String → Bool
is_fractional m = str_eq m metric_error_rate

abbrev pub comparison_lt : String
comparison_lt = "lt"

abbrev pub comparison_gt : String
comparison_gt = "gt"

unfoldable pub comparison_valid : String → Bool
comparison_valid c = str_eq c comparison_lt || str_eq c comparison_gt

-- The store assigns `created_time`.
pub record Threshold (F : Type 0) : Type 0 where
  pub id : ℤ
  pub scenario_id : ℤ
  pub metric : String
  pub comparison : String
  pub value : F
  pub created_time : Option Time

pub record Result (F : Type 0) : Type 0 where
  pub threshold_id : ℤ
  pub execution_id : ℤ
  pub run_id : ℤ
  pub metric : String
  pub comparison : String
  pub value : F
  pub observed : Option F
  pub satisfied : Option Bool
  pub reason : Text
  pub evaluated_at : Time

-- What `Observe` returns: a figure, or why there is none.
pub data Observed (F : Type 0) : Type 0 where
  figure : F → Observed F
  missing : Text → Observed F

module _ (fl : Float64) where
  open fl use {F, of_int, lit, mul, le, lt, eqb}

  unfoldable pub validate_value : Threshold F → Option ThresholdError
  unfolding is_fractional
  validate_value t =
      if is_fractional t.metric
      then if lt t.value (of_int (pos 0)) || lt (of_int (pos 1)) t.value
        then some value_out_of_range
        else none
      else if le t.value (of_int (pos 0))
      then some value_not_positive
      else none

  unfoldable pub validate : Threshold F → Option ThresholdError
  unfolding metric_valid comparison_valid validate_value
  validate t =
      if nonpos t.scenario_id
      then some scenario_required
      else if not (metric_valid t.metric)
      then some (metric_unknown t.metric)
      else if not (comparison_valid t.comparison)
      then some (comparison_unknown t.comparison)
      else validate_value t

  -- A latency of the report, in milliseconds.
  unfoldable pub observe_latency : Text → Option F → Observed F
  observe_latency why none = missing why
  observe_latency why (some secs) = figure (mul secs (of_int (pos 1000)))

  unfoldable pub observe : Report F → String → Observed F
  unfolding observe_latency
  observe rep m =
      if str_eq m metric_http_p95_ms
      then observe_latency (chars "no p95 latency in the report")
          (lookup eqb (of_int (pos 95)) rep.latency)
      else if str_eq m metric_http_p99_ms
      then observe_latency (chars "no p99 latency in the report")
          (lookup eqb (of_int (pos 99)) rep.latency)
      else if str_eq m metric_error_rate
      then figure rep.error_rate
      else if str_eq m metric_throughput_qps
      then figure rep.achieved.throughput
      else missing (chars "unknown metric " ++ chars m)

  unfoldable pub is_satisfied : String → F → F → Bool
  is_satisfied c observed value =
      if str_eq c comparison_gt then lt value observed else lt observed value

  -- The result before the figure is read.
  abbrev pub ungraded : Threshold F → Report F → Time → Result F
  ungraded t rep now = record {
    threshold_id = t.id;
    execution_id = rep.identity.execution_id;
    run_id = rep.identity.run_id;
    metric = t.metric;
    comparison = t.comparison;
    value = t.value;
    observed = none;
    satisfied = none;
    reason = [];
    evaluated_at = now;
  }

  unfoldable pub grade_observed : Threshold F → Result F → Observed F → Result F
  unfolding is_satisfied
  grade_observed t res (missing why) = record res { reason = why }
  grade_observed t res (figure x) = record res {
    observed = some x;
    satisfied = some (is_satisfied t.comparison x t.value);
  }

  unfoldable pub evaluate : Threshold F → Report F → Time → Result F
  unfolding grade_observed observe
  evaluate t rep now = grade_observed t (ungraded t rep now) (observe rep t.metric)

  -- A suggestion: the caller fills in the rest.
  abbrev pub bound_on : String → String → F → Threshold F
  bound_on m c v = record {
    id = pos 0;
    scenario_id = pos 0;
    metric = m;
    comparison = c;
    value = v;
    created_time = none;
  }

  abbrev pub suggested_pair : F → ℤ → List (Threshold F)
  suggested_pair error_rate p95_ms =
      bound_on metric_error_rate comparison_lt error_rate
      ∷ bound_on metric_http_p95_ms comparison_lt (of_int p95_ms)
      ∷ []

  -- The floor that `ModeSoak` adds where there is a rate to undershoot.
  unfoldable pub throughput_floor : F → List (Threshold F)
  throughput_floor target_qps =
      if lt (of_int (pos 0)) target_qps
      then bound_on metric_throughput_qps comparison_gt (mul target_qps (lit 9 1)) ∷ []
      else []

  unfoldable pub suggested_thresholds : String → F → List (Threshold F)
  unfolding throughput_floor
  suggested_thresholds m target_qps =
      if str_eq m mode_burst
      then suggested_pair (lit 1 2) (pos 500)
      else if str_eq m mode_staircase
      then suggested_pair (lit 1 2) (pos 1000)
      else if str_eq m mode_ramp
      then suggested_pair (lit 1 2) (pos 800)
      else if str_eq m mode_soak
      then suggested_pair (lit 5 3) (pos 600) ++ throughput_floor target_qps
      else []
