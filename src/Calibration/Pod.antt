-- ===== src/Calibration/Pod.antt =====
-- The search against a pod that sustains exactly the rates up to a capacity.
use honryu.Base.{◌≡◌, ◌≢◌, ◌⊎◌, true, false, none, some, arith, if◌then◌else◌}
use honryu.Base.Ints.{pos, ◌≤ℤ◌}
use honryu.Base.Floats.{Float64}
use honryu.Calibration.{
  Spec, Job, Action, Result, Classification, engine_saturated, clean, bisecting, engine, target,
  start, next, validate, bisection_tolerance_qps,
}
use honryu.Calibration.Search.{run_step, IsSearch, start-IsSearch, next-IsSearch}

module _ (fl : Float64) where
  open fl use {F, of_int, sub, le}

  module _ (capacity : F) where
    -- A rate above the capacity saturates the engine; any other is clean.
    abbrev pub outcome_at : F → Classification
    outcome_at q = if le q capacity then clean else engine_saturated

    pub data Climbs (spec : Spec F) : Job F → Action F → Type 0 where
      climb_begins :
          {job : Job F} {act : Action F}
          → job ≡ (start fl spec).0
          → act ≡ (start fl spec).1
          → Climbs spec job act
      climb_goes_on :
          {job : Job F} {act : Action F} (before : Job F) (asked : Action F) (achieved : F)
          → Climbs spec before asked
          → asked.finished ≡ false
          → job
            ≡ (next fl before (run_step fl asked (outcome_at asked.next_requested_qps) achieved)).0
          → act
            ≡ (next fl before (run_step fl asked (outcome_at asked.next_requested_qps) achieved)).1
          → Climbs spec job act

    -- The bracket holds the capacity: the floor is sustained, the ceiling is not.
    pub record Brackets (job : Job F) : Type 0 where
      pub floor : le job.bracket_lo_requested capacity ≡ true
      pub ceiling : job.phase ≡ bisecting → le job.bracket_hi_requested capacity ≡ false
      pub by_engine :
          (r : Result F)
          → job.result ≡ some r
          → (r.saturated_by ≢ target)
            × (r.per_pod_qps ≡ job.bracket_lo_achieved)
            × (r.saturated_by ≡ engine
                → (le job.bracket_hi_requested capacity ≡ false)
                  × ((le
                          (sub job.bracket_hi_requested job.bracket_lo_requested)
                          (bisection_tolerance_qps fl)
                        ≡ true)
                      ⊎ (job.spec.max_steps ≤ℤ pos job.step_count)))

    start-Brackets :
        (spec : Spec F) → le (of_int (pos 0)) capacity ≡ true → Brackets (start fl spec).0
    unfolding start
    start-Brackets spec h = record { floor = h; ceiling = λ e. cc; by_engine = λ r e. cc }

    next-Brackets :
        (spec : Spec F) (before : Job F) (asked : Action F) (achieved : F)
        → asked.finished ≡ false
        → IsSearch fl spec before asked
        → Brackets before
        → Brackets
            (next fl before (run_step fl asked (outcome_at asked.next_requested_qps) achieved)).0
    unfolding next
    next-Brackets spec before asked achieved h v b =
        let ph = v.open_phase h in
        let un = v.unanswered h in
        let top = b.ceiling in
        record {
          floor = ground (arith, b.floor);
          ceiling = λ e. ground (arith, top, ph);
          by_engine = λ r e. (
            ground (arith, un),
            ground (arith, un),
            λ eng. (ground (arith, un, ph, top), ground (arith, un, ph, top)),
          );
        }

    Climbs-Brackets :
        (spec : Spec F) {job : Job F} {act : Action F}
        → validate fl spec ≡ none
        → le (of_int (pos 0)) capacity ≡ true
        → Climbs spec job act
        → IsSearch fl spec job act × Brackets job
    Climbs-Brackets spec valid nonneg (climb_begins ej ea) =
        rw (ej, ea) (start-IsSearch fl spec valid, start-Brackets spec nonneg)
    Climbs-Brackets spec valid nonneg (climb_goes_on before asked achieved r h ej ea) =
        let (v, b) = Climbs-Brackets spec valid nonneg r in
        rw (ej, ea)
          (
            next-IsSearch fl spec before asked (outcome_at asked.next_requested_qps) achieved h v,
            next-Brackets spec before asked achieved h v b,
          )

    -- Against a pod that sustains exactly the rates up to a capacity that is not negative, a search that
    -- ends on the engine has bracketed the capacity: the rate it reports on is at most the capacity, the
    -- lowest saturated rate is above it, and the two are within the tolerance of 1 request per second or
    -- `MaxSteps` steps were run. It reports what the pod achieved at the lower rate.
    pub engine_verdict_brackets :
        (spec : Spec F) (job : Job F) (act : Action F) (r : Result F)
        → validate fl spec ≡ none
        → le (of_int (pos 0)) capacity ≡ true
        → Climbs spec job act
        → job.result ≡ some r
        → r.saturated_by ≡ engine
        → (r.per_pod_qps ≡ job.bracket_lo_achieved)
          × (le job.bracket_lo_requested capacity ≡ true)
          × (le job.bracket_hi_requested capacity ≡ false)
          × ((le
                  (sub job.bracket_hi_requested job.bracket_lo_requested)
                  (bisection_tolerance_qps fl)
                ≡ true)
              ⊎ (job.spec.max_steps ≤ℤ pos job.step_count))
    engine_verdict_brackets spec job act r valid nonneg climbs has by =
        let b = (Climbs-Brackets spec valid nonneg climbs).1 in
        let (_, reported, verdict) = b.by_engine r has in
        (reported, b.floor, (verdict by).0, (verdict by).1)
