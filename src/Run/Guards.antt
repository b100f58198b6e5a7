-- ===== src/Run/Guards.antt =====
-- Which operation each phase permits.
use honryu.Base.{◌≡◌, ◌↔◌, ◌≢◌, Bool, true, false, List, [], ◌∷◌, none, arith, refl}
use honryu.Base.Ints.{ℤ, pos, ◌≤ℤ◌}
use honryu.LoadProfile.{Profile, Entry, total_engines}
use honryu.Run.{Phase, deployed, derive_phase, can_deploy, can_trigger, can_stop}

trigger_tests :
    (phase : Phase) (ec : Profile) (ready : ℤ) (tests : List Entry)
    → ec.tests ≡ tests
    → (can_trigger phase ec ready ≡ none)
      ↔ ((tests ≢ []) × (phase ≡ deployed) × (total_engines ec ≤ℤ ready))
unfolding can_trigger
trigger_tests phase ec ready [] e = ((λ h. ground arith), (λ h. absurd (h.0 refl)))
trigger_tests phase ec ready (ep ∷ eps) e =
    ((λ h. ((λ c. cc), ground arith, ground arith)), (λ h. ground arith))

-- A run may be triggered exactly when the profile has an entry, engines are deployed with no run in
-- progress, and at least as many engines are ready as the profile asks for.
pub can_trigger-none :
    (phase : Phase) (ec : Profile) (ready : ℤ)
    → (can_trigger phase ec ready ≡ none)
      ↔ ((ec.tests ≢ []) × (phase ≡ deployed) × (total_engines ec ≤ℤ ready))
can_trigger-none phase ec ready = trigger_tests phase ec ready ec.tests refl

-- Over the facts that a phase is derived from: a run in progress is what may be stopped and what bars
-- a deployment, and a trigger is permitted exactly when the profile has an entry, engines are deployed,
-- no run is in progress and enough engines are ready.
pub derived_guards :
    (engines : ℤ) (is_running : Bool) (ec : Profile) (ready : ℤ)
    → let phase = derive_phase engines is_running in
      ((can_stop phase ≡ none) ↔ (is_running ≡ true))
      × ((can_deploy phase ≡ none) ↔ (is_running ≡ false))
      × ((can_trigger phase ec ready ≡ none) ↔ (
          (ec.tests ≢ [])
          × (is_running ≡ false)
          × (pos 1 ≤ℤ engines)
          × (total_engines ec ≤ℤ ready)))
unfolding derive_phase can_stop can_deploy
derived_guards engines is_running ec ready =
    let trigger = can_trigger-none (derive_phase engines is_running) ec ready in
    (
      ((λ h. ground arith), (λ h. ground arith)),
      ((λ h. ground arith), (λ h. ground arith)),
      (
        (λ h.
            let (some_test, d, enough) = trigger.0 h in
            (some_test, ground arith, ground arith, enough)),
        (λ v.
            let (some_test, is_idle, some_engines, enough) = v in
            trigger.1 (some_test, ground arith, enough)),
      ),
    )
