-- ===== src/Calibration.antt =====
-- internal/domain/calibration/calibration.go: the search for an engine's capacity.
pub mod Search
pub mod Drive
pub mod Pod
pub mod Specs
use honryu.Base.{ℕ, suc, Bool, true, false, ◌||◌, Option, none, some, String, str_eq, if◌then◌else◌}
use honryu.Base.Ints.{ℤ, pos, leb_ℤ, nonpos}
use honryu.Base.Floats.{Float64}

pub data SpecError : Type 0 where
  criterion_required pod_size_required seed_qps_invalid max_qps_invalid : SpecError
  max_steps_invalid hold_invalid : SpecError

pub record Spec (F : Type 0) : Type 0 where
  pub criterion : String
  pub cpu : String
  pub memory : String
  pub seed_qps : F
  pub max_qps : F
  pub max_steps : ℤ
  pub hold_seconds : ℤ

abbrev pub default_max_steps : ℤ
default_max_steps = pos 20

abbrev pub default_hold_seconds : ℤ
default_hold_seconds = pos 30

pub data Classification : Type 0 where
  engine_saturated target_saturated clean : Classification

pub data SaturatedBy : Type 0 where
  engine target neither : SaturatedBy

pub data Phase : Type 0 where
  pending bracketing bisecting done failed : Phase

pub record Step (F : Type 0) : Type 0 where
  pub requested_qps : F
  pub achieved_qps : F
  pub classification : Classification

pub record Result (F : Type 0) : Type 0 where
  pub saturated_by : SaturatedBy
  pub per_pod_qps : F

-- `StepCount` counts from zero to at most `MaxSteps`, an `int`, so it does not wrap.
pub record Job (F : Type 0) : Type 0 where
  pub spec : Spec F
  pub phase : Phase
  pub step_count : ℕ
  pub bracket_lo_requested : F
  pub bracket_lo_achieved : F
  pub bracket_hi_requested : F
  pub result : Option (Result F)

pub record Action (F : Type 0) : Type 0 where
  pub finished : Bool
  pub next_requested_qps : F

-- `if job.Phase == PhaseBracketing { job.Phase = PhaseBisecting }`
unfoldable pub leave_bracketing : Phase → Phase
leave_bracketing bracketing = bisecting
leave_bracketing p = p

abbrev pub is_bracketing : Phase → Bool
is_bracketing bracketing = true
is_bracketing p = false

module _ (fl : Float64) where
  open fl use {F, of_int, add, sub, mul, div, le, lt}

  abbrev pub zero_qps : F
  zero_qps = of_int (pos 0)

  abbrev pub default_seed_qps : F
  default_seed_qps = of_int (pos 10)

  abbrev pub default_max_qps : F
  default_max_qps = of_int (pos 10000)

  abbrev pub bisection_tolerance_qps : F
  bisection_tolerance_qps = of_int (pos 1)

  unfoldable pub with_defaults : Spec F → Spec F
  with_defaults s = record s {
    seed_qps = if le s.seed_qps zero_qps then default_seed_qps else s.seed_qps;
    max_qps = if le s.max_qps zero_qps then default_max_qps else s.max_qps;
    max_steps = if nonpos s.max_steps then default_max_steps else s.max_steps;
    hold_seconds = if nonpos s.hold_seconds then default_hold_seconds else s.hold_seconds;
  }

  unfoldable pub validate : Spec F → Option SpecError
  validate s =
      if str_eq s.criterion ""
      then some criterion_required
      else if str_eq s.cpu "" || str_eq s.memory ""
      then some pod_size_required
      else if le s.seed_qps zero_qps
      then some seed_qps_invalid
      else if le s.max_qps s.seed_qps
      then some max_qps_invalid
      else if nonpos s.max_steps
      then some max_steps_invalid
      else if nonpos s.hold_seconds
      then some hold_invalid
      else none

  unfoldable pub start : Spec F → Job F × Action F
  start spec = (
    record {
      spec = spec;
      phase = bracketing;
      step_count = 0;
      bracket_lo_requested = zero_qps;
      bracket_lo_achieved = zero_qps;
      bracket_hi_requested = zero_qps;
      result = none;
    },
    record { finished = false; next_requested_qps = spec.seed_qps },
  )

  -- `job.Phase = PhaseDone` with a result, and `Action{Done: true}`.
  unfoldable pub finish : Job F → SaturatedBy → F → Job F × Action F
  finish job by qps = (
    record job { phase = done; result = some (record { saturated_by = by; per_pod_qps = qps }) },
    record { finished = true; next_requested_qps = zero_qps },
  )

  abbrev pub continue_at : Job F → F → Job F × Action F
  continue_at job qps = (job, record { finished = false; next_requested_qps = qps })

  abbrev pub budget_spent : Job F → Bool
  budget_spent job = leb_ℤ job.spec.max_steps (pos job.step_count)

  unfoldable pub double_or_finish : Job F → Job F × Action F
  unfolding finish
  double_or_finish job =
      let next = mul job.bracket_lo_requested (of_int (pos 2)) in
      if lt job.spec.max_qps next || budget_spent job
      then finish job neither job.bracket_lo_achieved
      else continue_at job next

  unfoldable pub bisect_or_finish : Job F → Job F × Action F
  unfolding finish
  bisect_or_finish job =
      let width = sub job.bracket_hi_requested job.bracket_lo_requested in
      let mid = add job.bracket_lo_requested (div width (of_int (pos 2))) in
      if le width bisection_tolerance_qps || budget_spent job
      then finish job engine job.bracket_lo_achieved
      else continue_at job mid

  -- The `switch` of `Next`, on the job whose step is counted already.
  unfoldable pub classify_step : Classification → Job F → Step F → Job F × Action F
  unfolding finish double_or_finish bisect_or_finish leave_bracketing
  classify_step target_saturated job step = finish job target step.achieved_qps
  classify_step engine_saturated job step =
      bisect_or_finish (record job {
        phase = leave_bracketing job.phase;
        bracket_hi_requested = step.requested_qps;
      })
  classify_step clean job step =
      let raised : Job F = record job {
        bracket_lo_requested = step.requested_qps;
        bracket_lo_achieved = step.achieved_qps;
      } in
      if is_bracketing job.phase then double_or_finish raised else bisect_or_finish raised

  unfoldable pub next : Job F → Step F → Job F × Action F
  unfolding classify_step
  next job step =
      classify_step step.classification (record job { step_count = suc job.step_count }) step
