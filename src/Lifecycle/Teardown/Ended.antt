-- ===== src/Lifecycle/Teardown/Ended.antt =====
-- What Stop leaves.
use honryu.Base.{◌≡◌, refl, sym, ap, ◌∙◌, List, Option, none, some, Result, ok, err, failed_not_ok}
use honryu.Base.Ints.{ℤ, pos}
use honryu.LoadProfile.{Entry}
use honryu.Run.{derive_phase, can_stop, not_running}
use honryu.Lifecycle.Ports.{Ports, PortError}
use honryu.Lifecycle.Actions.{LifecycleError, Done, run_err, ported, and_do, replied, reading, ◌>>◌}
use honryu.Lifecycle.Chains.{and_do-ok, replied-ok}
use honryu.Lifecycle.Check.{is_running, phase_permits}
use honryu.Lifecycle.Laws.{RunLaws}
use honryu.Lifecycle.Teardown.{clear_each, close_down, teardown, stop}

module _ {W : Type 0} (p : Ports W) (laws : RunLaws p) (e : ℤ) where
  marker_closed :
      (v : W)
      → (replied (p.stop_run e v)).0 ≡ ok tt
      → p.current_run e (replied (p.stop_run e v)).1 ≡ ok none
  marker_closed v h =
      let (fine, same) = replied-ok (p.stop_run e v) tt h in
      ap (p.current_run e) same ∙ laws.stopped e v fine

  close_down-Ended :
      (scenarios : List Entry) (w : W)
      → (close_down p scenarios e w).0 ≡ ok tt
      → p.current_run e (close_down p scenarios e w).1 ≡ ok none
  unfolding close_down
  close_down-Ended scenarios w h = marker_closed _ h

  teardown-Ended :
      (w : W) → (teardown p e w).0 ≡ ok tt → p.current_run e (teardown p e w).1 ≡ ok none
  unfolding teardown
  teardown-Ended w h =
      let touched : W = (p.touch_activity e w).1 in
      let (scenarios, _, first) =
        and_do-ok (ported (p.load_profile_for e touched), touched)
          (λ es. clear_each p es e >> close_down p es e) tt h in
      let cleared : Result LifecycleError Done × W = clear_each p scenarios e touched in
      let (d, _, second) =
        and_do-ok cleared (λ _. close_down p scenarios e) tt (ap (λ r. r.0) (sym first) ∙ h) in
      let whole = first ∙ second in
      ap (λ r. p.current_run e r.1) whole
      ∙ close_down-Ended scenarios cleared.1 (ap (λ r. r.0) (sym whole) ∙ h)

  -- Stop is refused, with nothing changed, where nothing runs; where it succeeds, the execution ran
  -- something and runs nothing any more.
  pub stop-Ended :
      (w : W)
      → (p.current_run e w ≡ ok none → stop p e w ≡ (err (run_err not_running), w))
        × ((stop p e w).0 ≡ ok tt
            → ((run : ℤ) × (p.current_run e w ≡ ok (some run)))
              × (p.current_run e (stop p e w).1 ≡ ok none))
  unfolding stop can_stop derive_phase
  stop-Ended w = (refusing, stopping (p.current_run e w) refl)
    where
      from_current : Result PortError (Option ℤ) → Result LifecycleError Done × W
      from_current current =
          and_do (ported current, w)
            (λ o.
              reading (λ _. phase_permits (can_stop (derive_phase (pos 0) (is_running o))))
              >> teardown p e)

      refusing :
          p.current_run e w ≡ ok none
          → from_current (p.current_run e w) ≡ (err (run_err not_running), w)
      refusing h = ap from_current h

      stopping :
          (current : Result PortError (Option ℤ))
          → p.current_run e w ≡ current
          → (from_current current).0 ≡ ok tt
          → ((run : ℤ) × (p.current_run e w ≡ ok (some run)))
            × (p.current_run e (from_current current).1 ≡ ok none)
      stopping (err x) known h = absurd (failed_not_ok h)
      stopping (ok none) known h = absurd (failed_not_ok h)
      stopping (ok (some run)) known h = ((run, known), teardown-Ended w h)
