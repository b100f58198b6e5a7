-- ===== src/Calibration/Drive.antt =====
-- The loop that runs a search's steps, which internal/app/calibrationapp/service.go makes one tick at a
-- time.
use honryu.Base.{
  ℕ, zero, suc, ◌+◌, ◌≡◌, ◌≢◌, inl, inr, Option, none, arith, Bool-cases, if◌then◌else◌,
}
use honryu.Base.Ints.{pos, pos_part, ◌≤ℤ◌}
use honryu.Base.Floats.{Float64}
use honryu.Calibration.{Spec, Job, Action, Step, Result, Classification, start, next, validate}
use honryu.Calibration.Search.{run_step, IsSearch, start-IsSearch, next-IsSearch}

module _ (fl : Float64) where
  open fl use {F}

  -- The caller's loop, on fuel: `none` means that the fuel ran out.
  pub drive : ℕ → (Job F → Action F → Classification × F) → Job F → Action F → Option (Result F)
  drive zero pod job act = if act.finished then job.result else none
  drive (suc fuel) pod job act =
      let after = next fl job (run_step fl act (pod job act).0 (pod job act).1) in
      let rest = drive fuel pod after.0 after.1 in if act.finished then job.result else rest

  step_count-next :
      (job : Job F) (step : Step F) → (next fl job step).0.step_count ≡ suc job.step_count
  unfolding next
  step_count-next job step = ground arith

  drive-ends :
      (spec : Spec F) (fuel : ℕ) (pod : Job F → Action F → Classification × F) (job : Job F)
      (act : Action F)
      → IsSearch fl spec job act
      → spec.max_steps ≤ℤ pos (job.step_count + fuel)
      → drive fuel pod job act ≢ none
  unfolding drive
  drive-ends spec zero pod job act v h = elim (Bool-cases act.finished) [
    | inl over ↦ rw over (v.answered over).1
    | inr still ↦ absurd (omega (arith, v.budget still))
  ]
  drive-ends spec (suc fuel) pod job act v h = elim (Bool-cases act.finished) [
    | inl over ↦ rw over (v.answered over).1
    | inr still ↦
        let (outcome, achieved) = pod job act in
        let step = run_step fl act outcome achieved in
        simp still (
          drive-ends spec fuel pod (next fl job step).0 (next fl job step).1
            (next-IsSearch fl spec job act outcome achieved still v)
            (rw step_count-next (omega arith)))
  ]

  -- Whatever the pod answers, a search of a valid spec has a result within `MaxSteps` steps.
  pub drive_ends :
      (spec : Spec F) (pod : Job F → Action F → Classification × F)
      → validate fl spec ≡ none
      → drive (pos_part spec.max_steps) pod (start fl spec).0 (start fl spec).1 ≢ none
  unfolding start
  drive_ends spec pod valid =
      drive-ends spec (pos_part spec.max_steps) pod _ _
        (unfold start in start-IsSearch fl spec valid) (omega arith)
