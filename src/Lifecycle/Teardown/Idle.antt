-- ===== src/Lifecycle/Teardown/Idle.antt =====
-- What stopping one execution does to another that runs nothing.
use honryu.Base.{◌∙◌, List, [], ◌∷◌, Option, none, some, Result, ok, err}
use honryu.Base.Ints.{ℤ, pos}
use honryu.LoadProfile.{Entry}
use honryu.Run.{derive_phase, can_stop, virtual_users}
use honryu.Lifecycle.Ports.{Ports, PortError}
use honryu.Lifecycle.Actions.{
  LifecycleError, Done, Action, ported, and_do, replied, reading, run, ◌>>◌,
}
use honryu.Lifecycle.Check.{is_running, phase_permits}
use honryu.Lifecycle.Laws.{RunLaws}
use honryu.Lifecycle.Marker.{IsIdle}
use honryu.Lifecycle.Teardown.{tests_of, clear_each, finalize_open, close_down, teardown, stop}

module _ {W : Type 0} (p : Ports W) (laws : RunLaws p) (e : ℤ) where
  Idle : W → Type 0
  Idle w = IsIdle p laws e w

  after :
      {A B : Type 0} (r : Result LifecycleError A × W) (k : A → Action W B)
      → Idle r.1
      → ((a : A) (w : W) → Idle w → Idle (k a w).1)
      → Idle (and_do r k).1
  after (err x, w) k idle next = idle
  after (ok a, w) k idle next = next a w idle

  answered : (r : Option PortError × W) → Idle r.1 → Idle (replied r).1
  answered (none, w) idle = idle
  answered (some x, w) idle = idle

  clear_each-Idle :
      (scenarios : List Entry) (x : ℤ) (w : W) → Idle w → Idle (clear_each p scenarios x w).1
  unfolding clear_each Idle
  clear_each-Idle [] x w idle = idle
  clear_each-Idle (ep ∷ scenarios) x w idle =
      after (run (p.clear_scenario_running x ep.scenario_id) w) (λ _. clear_each p scenarios x)
        (answered (p.clear_scenario_running x ep.scenario_id w)
          (laws.clear_keeps e x ep.scenario_id w ∙ idle))
        (λ _ v. clear_each-Idle scenarios x v)

  finalize_open-Idle :
      (x : ℤ) (current : Result PortError (Option ℤ)) (w : W)
      → Idle w
      → Idle (finalize_open p x current w)
  unfolding finalize_open Idle
  finalize_open-Idle x (err f) w idle = idle
  finalize_open-Idle x (ok none) w idle = idle
  finalize_open-Idle x (ok (some run_id)) w idle = laws.finalize_idle e x run_id w idle

  close_down-Idle :
      (scenarios : List Entry) (x : ℤ) (w : W) → Idle w → Idle (close_down p scenarios x w).1
  unfolding close_down Idle
  close_down-Idle scenarios x w idle =
      let finished : W = (p.record_finish x (virtual_users (tests_of scenarios)) w).1 in
      let released : W = (p.release x finished).1 in
      let final : W = finalize_open p x (p.current_run x released) released in
      answered (p.stop_run x final) (
        laws.stop_idle e x final (
          finalize_open-Idle x (p.current_run x released) released (
            laws.release_keeps e x finished
            ∙ (laws.finish_keeps e x (virtual_users (tests_of scenarios)) w ∙ idle))))

  teardown-Idle : (x : ℤ) (w : W) → Idle w → Idle (teardown p x w).1
  unfolding teardown Idle
  teardown-Idle x w idle =
      let touched : W = (p.touch_activity x w).1 in
      after {A = List Entry} (ported (p.load_profile_for x touched), touched)
        (λ scenarios. clear_each p scenarios x >> close_down p scenarios x)
        (laws.touch_keeps e x w ∙ idle)
        (λ scenarios v still.
          after (clear_each p scenarios x v) (λ _. close_down p scenarios x)
            (clear_each-Idle scenarios x v still) (λ _ u. close_down-Idle scenarios x u))

  -- Stopping an execution opens no run of another.
  pub stop-IsIdle : (x : ℤ) (w : W) → IsIdle p laws e w → IsIdle p laws e (stop p x w).1
  unfolding stop Idle
  stop-IsIdle x w idle =
      after {A = Option ℤ} (ported (p.current_run x w), w)
        (λ current.
          reading (λ _. phase_permits (can_stop (derive_phase (pos 0) (is_running current))))
          >> teardown p x)
        idle
        (λ current v still.
          after {A = Done} (phase_permits (can_stop (derive_phase (pos 0) (is_running current))), v)
            (λ _. teardown p x) still (λ _ u. teardown-Idle x u))
