-- ===== src/Calibration/Search.antt =====
-- A whole search: each step is run at the rate that the last action prescribes.
use honryu.Base.{Bool-cases, ◌≢◌, ◌≡◌, ◌⊎◌, inl, inr, ◌↔◌, true, false, none, arith, subst}
use honryu.Base.Ints.{pos, ◌<ℤ◌}
use honryu.Base.Floats.{Float64}
use honryu.Calibration.{
  Spec, Job, Action, Step, Classification, engine_saturated, target_saturated, clean, bracketing,
  bisecting, done, start, next, zero_qps, validate,
}

module _ (fl : Float64) where
  open fl use {F, of_int, add, sub, mul, div, le}

  -- A step that was run at the prescribed rate.
  abbrev pub run_step : Action F → Classification → F → Step F
  run_step asked outcome achieved = record {
    requested_qps = asked.next_requested_qps;
    achieved_qps = achieved;
    classification = outcome;
  }

  -- The searches of a spec, whatever the steps' outcomes.
  pub data Reach (spec : Spec F) : Job F → Action F → Type 0 where
    begins :
        {job : Job F} {act : Action F}
        → job ≡ (start fl spec).0
        → act ≡ (start fl spec).1
        → Reach spec job act
    goes_on :
        {job : Job F} {act : Action F} (before : Job F) (asked : Action F)
        (outcome : Classification) (achieved : F)
        → Reach spec before asked
        → asked.finished ≡ false
        → job ≡ (next fl before (run_step asked outcome achieved)).0
        → act ≡ (next fl before (run_step asked outcome achieved)).1
        → Reach spec job act

  -- What holds of a job between two steps, with the rate that comes next.
  pub record IsSearch (spec : Spec F) (job : Job F) (act : Action F) : Type 0 where
    pub same_spec : job.spec ≡ spec
    pub lo_nonneg : le (zero_qps fl) job.bracket_lo_requested ≡ true
    pub open_phase : act.finished ≡ false → (job.phase ≡ bracketing) ⊎ (job.phase ≡ bisecting)
    pub unanswered : act.finished ≡ false → job.result ≡ none
    pub ordered : act.finished ≡ false → le job.bracket_lo_requested act.next_requested_qps ≡ true
    pub within : act.finished ≡ false → le act.next_requested_qps spec.max_qps ≡ true
    pub bracket :
        act.finished ≡ false
        → job.phase ≡ bisecting
        → (le job.bracket_lo_requested job.bracket_hi_requested ≡ true)
          × (le act.next_requested_qps job.bracket_hi_requested ≡ true)
          × (le job.bracket_hi_requested spec.max_qps ≡ true)
    pub budget : act.finished ≡ false → pos job.step_count <ℤ spec.max_steps
    pub answered : act.finished ≡ true → (job.phase ≡ done) × (job.result ≢ none)

  pub start-IsSearch :
      (spec : Spec F) → validate fl spec ≡ none → IsSearch spec (start fl spec).0 (start fl spec).1
  unfolding start validate
  start-IsSearch spec valid = ground (
    arith,
    fl.le_refl (of_int (pos 0)),
    fl.le_total spec.seed_qps (of_int (pos 0)),
    fl.le_total spec.max_qps spec.seed_qps,
  )

  le-double : (q : F) → le (of_int (pos 0)) q ≡ true → le q (mul q (of_int (pos 2))) ≡ true
  le-double q h =
      subst (λ x. le x (mul q (of_int (pos 2))) ≡ true) (fl.mul_one q)
        (fl.mul_mono q (of_int (pos 1)) (of_int (pos 2)) h (fl.of_int_mono _ _ (omega arith)))

  pub next-IsSearch :
      (spec : Spec F) (before : Job F) (asked : Action F) (outcome : Classification) (achieved : F)
      → asked.finished ≡ false
      → IsSearch spec before asked
      → let after = next fl before (run_step asked outcome achieved) in
        IsSearch spec after.0 after.1
  unfolding next
  next-IsSearch spec before asked target_saturated achieved h v = ground (arith)
  next-IsSearch spec before asked engine_saturated achieved h v =
      let lo = before.bracket_lo_requested in
      let q = asked.next_requested_qps in
      let o = v.ordered h in
      let w = v.within h in
      let ph = v.open_phase h in
      let un = v.unanswered h in
      ground (
        arith,
        fl.half_way_lower lo q o,
        fl.half_way_upper lo q o,
        fl.le_trans (add lo (div (sub q lo) (of_int (pos 2)))) q spec.max_qps,
      )
  next-IsSearch spec before asked clean achieved h v =
      let lo = before.bracket_lo_requested in
      let hi = before.bracket_hi_requested in
      let q = asked.next_requested_qps in
      let o = v.ordered h in
      let ph = v.open_phase h in
      let un = v.unanswered h in
      let positive = fl.le_trans (of_int (pos 0)) lo q v.lo_nonneg o in
      let br = v.bracket h in
      ground (
        arith,
        br,
        le-double q positive,
        fl.lt_not_le spec.max_qps (mul q (of_int (pos 2))),
        fl.half_way_lower q hi,
        fl.half_way_upper q hi,
        fl.le_trans (add q (div (sub hi q) (of_int (pos 2)))) hi spec.max_qps,
      )

  pub Reach-IsSearch :
      (spec : Spec F) {job : Job F} {act : Action F}
      → validate fl spec ≡ none
      → Reach spec job act
      → IsSearch spec job act
  Reach-IsSearch spec valid (begins ej ea) = rw (ej, ea) (start-IsSearch spec valid)
  Reach-IsSearch spec valid (goes_on before asked outcome achieved r h ej ea) =
      rw (ej, ea) (next-IsSearch spec before asked outcome achieved h (Reach-IsSearch spec valid r))

  -- Every rate that a search of a valid spec prescribes is at most `MaxQPS` and at least the highest
  -- rate found clean so far; while it bisects, it is also at most the lowest rate found saturated.
  pub prescribed_in_bounds :
      (spec : Spec F) (job : Job F) (act : Action F)
      → validate fl spec ≡ none
      → Reach spec job act
      → act.finished ≡ false
      → (le act.next_requested_qps spec.max_qps ≡ true)
        × (le job.bracket_lo_requested act.next_requested_qps ≡ true)
        × ((job.phase ≡ bracketing)
            ⊎ ((job.phase ≡ bisecting)
                × (le act.next_requested_qps job.bracket_hi_requested ≡ true)))
  prescribed_in_bounds spec job act valid r h =
      let v = Reach-IsSearch spec valid r in
      let b = v.bracket h in
      let ph = v.open_phase h in (v.within h, v.ordered h, ground (arith, b, ph))

  -- A search is over exactly when its job is done, and exactly then it has a result; until then fewer
  -- than `MaxSteps` steps were run.
  pub search_answers :
      (spec : Spec F) (job : Job F) (act : Action F)
      → validate fl spec ≡ none
      → Reach spec job act
      → ((act.finished ≡ true) ↔ (job.phase ≡ done))
        × ((act.finished ≡ true) ↔ (job.result ≢ none))
        × ((act.finished ≡ true) ⊎ (pos job.step_count <ℤ spec.max_steps))
  search_answers spec job act valid r = by_end (Bool-cases act.finished)
    where
      v : IsSearch spec job act
      v = Reach-IsSearch spec valid r

      by_end :
          (act.finished ≡ true) ⊎ (act.finished ≡ false)
          → ((act.finished ≡ true) ↔ (job.phase ≡ done))
            × ((act.finished ≡ true) ↔ (job.result ≢ none))
            × ((act.finished ≡ true) ⊎ (pos job.step_count <ℤ spec.max_steps))
      by_end (inl over) = (
        ((λ _. (v.answered over).0), (λ _. over)),
        ((λ _. (v.answered over).1), (λ _. over)),
        inl over,
      )
      by_end (inr still) = (
        ((λ o. cc), (λ d. absurd (not_done (v.open_phase still) d))),
        ((λ o. cc), (λ some_result. absurd (some_result (v.unanswered still)))),
        inr (v.budget still),
      )
        where
          not_done : (job.phase ≡ bracketing) ⊎ (job.phase ≡ bisecting) → job.phase ≡ done → ⊥
          not_done (inl b) d = cc
          not_done (inr b) d = cc
