-- ===== src/Slo.antt =====
-- internal/domain/slo/slo.go
pub mod Compliant
pub mod Worst
use honryu.Base.{
  ℕ, Bool, true, false, ◌&&◌, ◌||◌, List, [], ◌∷◌, ◌++◌, Option, none, some, String, str_eq, length,
  ltb, is_empty, ◌+◌, if◌then◌else◌, Result, ok, err,
}
use honryu.Base.Ints.{ℤ, pos, nonpos}
use honryu.Base.Floats.{Float64}
use honryu.Base.Text.{Text, byte_length, trim_space}
use honryu.Base.Times.{Time}

abbrev pub max_name_length : ℕ
max_name_length = 128

abbrev pub window_1d : String
window_1d = "1d"

abbrev pub window_7d : String
window_7d = "7d"

abbrev pub window_30d : String
window_30d = "30d"

pub data SloError : Type 0 where
  project_required name_required name_too_long no_targets p95_not_positive : SloError
  error_rate_range success_ratio_range window_invalid : SloError

-- A target is `none` where it is not tracked.
pub record Slo (F : Type 0) : Type 0 where
  pub id : ℤ
  pub project_id : ℤ
  pub name : Text
  pub target_p95_ms : Option F
  pub target_error_rate : Option F
  pub target_success_ratio : Option F
  pub created_time : Time

-- In seconds.
unfoldable pub parse_window : String → Result SloError ℕ
parse_window raw =
    if str_eq raw window_1d
    then ok 86400
    else if str_eq raw window_7d
    then ok 604800
    else if str_eq raw window_30d
    then ok 2592000
    else err window_invalid

abbrev pub metric_p95_ms : String
metric_p95_ms = "p95_ms"

abbrev pub metric_error_rate : String
metric_error_rate = "error_rate"

abbrev pub metric_success_ratio : String
metric_success_ratio = "success_ratio"

pub record Actual (F : Type 0) : Type 0 where
  pub p95_ms : Option F
  pub error_rate : Option F
  pub success_ratio : Option F

pub record MetricBudget (F : Type 0) : Type 0 where
  pub metric : String
  pub target : F
  pub actual : Option F
  pub compliant : Bool
  pub budget_remaining_pct : Option F

pub record Budget (F : Type 0) : Type 0 where
  pub metrics : List (MetricBudget F)
  pub compliant : Bool

unfoldable pub tracks_none : {F : Type 0} → Option F → Option F → Option F → Bool
tracks_none none none none = true
tracks_none (some _) _ _ = false
tracks_none none (some _) _ = false
tracks_none none none (some _) = false

module _ (fl : Float64) where
  open fl use {F, of_int, add, sub, mul, div, le, lt}

  -- A value is a number: neither `NaN` nor an infinity.
  unfoldable pub bad01 : F → Bool
  bad01 v = lt v (of_int (pos 0)) || lt (of_int (pos 1)) v

  unfoldable pub bad_p95 : Option F → Bool
  bad_p95 none = false
  bad_p95 (some v) = le v (of_int (pos 0))

  unfoldable pub bad_ratio : Option F → Bool
  unfolding bad01
  bad_ratio none = false
  bad_ratio (some v) = bad01 v

  unfoldable pub validate : Slo F → Option SloError
  unfolding bad_p95 bad_ratio tracks_none byte_length
  validate s =
      if nonpos s.project_id
      then some project_required
      else if is_empty (trim_space s.name)
      then some name_required
      else if ltb max_name_length (byte_length s.name)
      then some name_too_long
      else if tracks_none s.target_p95_ms s.target_error_rate s.target_success_ratio
      then some no_targets
      else if bad_p95 s.target_p95_ms
      then some p95_not_positive
      else if bad_ratio s.target_error_rate
      then some error_rate_range
      else if bad_ratio s.target_success_ratio
      then some success_ratio_range
      else none

  unfoldable pub remaining : F → F → Bool → F
  remaining target got lower_is_better =
      if lower_is_better
      then mul (div (sub target got) target) (of_int (pos 100))
      else mul (div (sub got target) target) (of_int (pos 100))

  unfoldable pub within : F → F → Bool → Bool
  within target got lower_is_better = if lower_is_better then le got target else le target got

  -- `line`: the line of a target.
  unfoldable pub line : String → F → Option F → Bool → MetricBudget F
  line m t none lower_is_better = record {
    metric = m;
    target = t;
    actual = none;
    compliant = true;
    budget_remaining_pct = none;
  }
  line m t (some got) lower_is_better = record {
    metric = m;
    target = t;
    actual = some got;
    compliant = within t got lower_is_better;
    budget_remaining_pct = some (remaining t got lower_is_better);
  }

  -- The budget with a line for a target that is configured.
  unfoldable pub add_line : String → Option F → Option F → Bool → Budget F → Budget F
  unfolding line
  add_line m none got lower_is_better b = b
  add_line m (some t) got lower_is_better b =
      let added : MetricBudget F = line m t got lower_is_better in
      record { metrics = b.metrics ++ added ∷ []; compliant = b.compliant && added.compliant }

  abbrev pub no_lines : Budget F
  no_lines = record { metrics = []; compliant = true }

  unfoldable pub evaluate : Slo F → Actual F → Budget F
  unfolding add_line
  evaluate s actual =
      add_line metric_success_ratio s.target_success_ratio actual.success_ratio false (
        add_line metric_error_rate s.target_error_rate actual.error_rate true
          (add_line metric_p95_ms s.target_p95_ms actual.p95_ms true no_lines))

  -- The line to lead with and what remains of its budget, after one more line.
  unfoldable pub keep_worse :
      Option F
      → Option F
      → MetricBudget F
      → Option (MetricBudget F × F)
      → Option (MetricBudget F × F)
  keep_worse none _ m worst = worst
  keep_worse (some _) none m worst = worst
  keep_worse (some _) (some left) m none = some (m, left)
  keep_worse (some _) (some left) m (some (w, least)) =
      if lt left least then some (m, left) else some (w, least)

  unfoldable pub worst_from :
      Option (MetricBudget F × F) → List (MetricBudget F) → Option (MetricBudget F × F)
  unfolding keep_worse
  worst_from worst [] = worst
  worst_from worst (m ∷ ms) = worst_from (keep_worse m.actual m.budget_remaining_pct m worst) ms

  unfoldable pub worst_line : Option (MetricBudget F × F) → Option (MetricBudget F)
  worst_line none = none
  worst_line (some (m, _)) = some m

  unfoldable pub worst : Budget F → Option (MetricBudget F)
  unfolding worst_from worst_line
  worst b = worst_line (worst_from none b.metrics)

  unfoldable pub sum_from : F → List F → F
  sum_from sum [] = sum
  sum_from sum (v ∷ vals) = sum_from (add sum v) vals

  unfoldable pub window_mean : List F → Option F
  unfolding sum_from
  window_mean [] = none
  window_mean (v ∷ vals) =
      some (div (sum_from (of_int (pos 0)) (v ∷ vals)) (of_int (pos (length (v ∷ vals)))))
