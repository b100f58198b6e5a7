-- ===== src/Lifecycle/Store/Markers.antt =====
-- What the in-memory ports keep of the run markers.
use honryu.Base.{
  ◌≡◌, refl, sym, ap, ◌∙◌, Bool, false, if◌then◌else◌, List, [], ◌∷◌, Option, none, some, arith,
  Result, ok, err, same_ok, failed_not_ok,
}
use honryu.Base.Ints.{ℤ, pos, ◌+ℤ◌, wrap64, eqb_ℤ, eqb_ℤ_iff}
use honryu.Base.Maps.{lookup, lookup_or, delete, lookup-store, lookup-delete, lookup-same}
use honryu.Base.Text.{Text}
use honryu.Base.Times.{Time}
use honryu.Execution.{Execution}
use honryu.Lifecycle.Ports.{PortError}
use honryu.Lifecycle.Actions.{LifecycleError, Done, and_do}
use honryu.Lifecycle.Laws.{RunLaws}
use honryu.Lifecycle.Marker.{IsIdle}
use honryu.Lifecycle.Teardown.{stop}
use honryu.Lifecycle.Teardown.Idle.{stop-IsIdle}
use honryu.Lifecycle.Store.{
  Store, Services, start_over, stop_over, start_run, current_run, stop_run,
}
use honryu.Lifecycle.Store.Engines.{
  mark_over, mark_running, clear_left, clear_over, clear_running, deploy_scenario,
}
use honryu.Lifecycle.Store.Filled.{
  set_pending, set_pending_correlation_id, reclaim_each, admit_after, bare_ports, store_ports,
}

module _ {U : Type 0} where
  start_run-started :
      (e run : ℤ) (c : Text) (s : Store U)
      → (start_run e c s).0 ≡ ok run
      → current_run e (start_run e c s).1 ≡ ok (some run)
  unfolding start_run start_over current_run
  start_run-started e run c s = by_active (lookup eqb_ℤ e s.active)
    where
      by_active :
          (o : Option ℤ)
          → (start_over e c s o).0 ≡ ok run
          → current_run e (start_over e c s o).1 ≡ ok (some run)
      by_active (some r) h = absurd (failed_not_ok h)
      by_active none h = ap ok (
          lookup-same eqb_ℤ eqb_ℤ_iff e (wrap64 (s.run_seq +ℤ pos 1)) s.active
          ∙ ap some (same_ok h))

  start_run-refused :
      (e : ℤ) (c : Text) (s : Store U) (x : PortError)
      → (start_run e c s).0 ≡ err x
      → current_run e (start_run e c s).1 ≡ current_run e s
  unfolding start_run start_over
  start_run-refused e c s x = by_active (lookup eqb_ℤ e s.active)
    where
      by_active :
          (o : Option ℤ)
          → (start_over e c s o).0 ≡ err x
          → current_run e (start_over e c s o).1 ≡ current_run e s
      by_active (some r) h = refl
      by_active none h = absurd (failed_not_ok (sym h))

  stop_run-stopped : (e : ℤ) (s : Store U) → current_run e (stop_run e s).1 ≡ ok none
  unfolding stop_run stop_over current_run
  stop_run-stopped e s = by_active (lookup eqb_ℤ e s.active) refl
    where
      gone : lookup eqb_ℤ e (delete eqb_ℤ e s.active) ≡ none
      gone = ground (arith, lookup-delete eqb_ℤ eqb_ℤ_iff e e s.active, eqb_ℤ_iff e e)

      by_active :
          (o : Option ℤ) → lookup eqb_ℤ e s.active ≡ o → current_run e (stop_over e s o).1 ≡ ok none
      by_active none h = ap ok h
      by_active (some run) h = ap ok gone

  pub stop_run-none : (e : ℤ) (s : Store U) → (stop_run e s).0 ≡ none
  unfolding stop_run stop_over
  stop_run-none e s = by_active (lookup eqb_ℤ e s.active)
    where
      by_active : (o : Option ℤ) → (stop_over e s o).0 ≡ none
      by_active none = refl
      by_active (some run) = refl

  mark_running-Same :
      (e x i : ℤ) (s : Store U) → current_run e (mark_running x i s).1 ≡ current_run e s
  unfolding mark_running mark_over current_run
  mark_running-Same e x i s = by_mark (lookup eqb_ℤ i (lookup_or eqb_ℤ [] x s.running))
    where
      by_mark :
          (o : Option Time)
          → current_run e (mark_over x i (lookup_or eqb_ℤ [] x s.running) s o) ≡ current_run e s
      by_mark none = refl
      by_mark (some started) = refl

  start_over-others :
      (e x : ℤ) (c : Text) (s : Store U) (o : Option ℤ)
      → eqb_ℤ x e ≡ false
      → current_run e (start_over x c s o).1 ≡ current_run e s
  unfolding start_over current_run
  start_over-others e x c s (some r) apart = refl
  start_over-others e x c s none apart = ap ok (
      lookup-store eqb_ℤ eqb_ℤ_iff x e (wrap64 (s.run_seq +ℤ pos 1)) s.active
      ∙ ap (λ (b : Bool). if b then some (wrap64 (s.run_seq +ℤ pos 1)) else lookup eqb_ℤ e s.active)
          apart)

  start_run-others :
      (e x : ℤ) (c : Text) (s : Store U)
      → eqb_ℤ x e ≡ false
      → current_run e (start_run x c s).1 ≡ current_run e s
  unfolding start_run
  start_run-others e x c s apart = start_over-others e x c s (lookup eqb_ℤ x s.active) apart

  stop_run-others :
      (e x : ℤ) (s : Store U) → eqb_ℤ x e ≡ false → current_run e (stop_run x s).1 ≡ current_run e s
  unfolding stop_run stop_over current_run
  stop_run-others e x s apart = by_active (lookup eqb_ℤ x s.active)
    where
      spared : lookup eqb_ℤ e (delete eqb_ℤ x s.active) ≡ lookup eqb_ℤ e s.active
      spared = ground (arith, lookup-delete eqb_ℤ eqb_ℤ_iff x e s.active)

      by_active : (o : Option ℤ) → current_run e (stop_over x s o).1 ≡ current_run e s
      by_active none = refl
      by_active (some run) = ap ok spared

  stop_run-idle :
      (e x : ℤ) (s : Store U) → current_run e s ≡ ok none → current_run e (stop_run x s).1 ≡ ok none
  unfolding stop_run stop_over current_run
  stop_run-idle e x s idle = by_active (lookup eqb_ℤ x s.active)
    where
      gone : lookup eqb_ℤ e (delete eqb_ℤ x s.active) ≡ none
      gone = ground (arith, lookup-delete eqb_ℤ eqb_ℤ_iff x e s.active, same_ok idle)

      by_active : (o : Option ℤ) → current_run e (stop_over x s o).1 ≡ ok none
      by_active none = idle
      by_active (some run) = ap ok gone

  clear_running-Same :
      (e x i : ℤ) (s : Store U) → current_run e (clear_running x i s).1 ≡ current_run e s
  unfolding clear_running clear_over clear_left current_run
  clear_running-Same e x i s = by_scenarios (lookup eqb_ℤ x s.running)
    where
      by_left : (left : List (ℤ × Time)) → current_run e (clear_left x left s) ≡ current_run e s
      by_left [] = refl
      by_left (j ∷ left) = refl

      by_scenarios :
          (o : Option (List (ℤ × Time))) → current_run e (clear_over x i s o) ≡ current_run e s
      by_scenarios none = refl
      by_scenarios (some scenarios) = by_left (delete eqb_ℤ i scenarios)

  set_pending-Same :
      (e x : ℤ) (c : Text) (s : Store U)
      → current_run e (set_pending_correlation_id x c s).1 ≡ current_run e s
  unfolding set_pending_correlation_id set_pending current_run
  set_pending-Same e x c s = by_execution (lookup eqb_ℤ x s.executions)
    where
      by_execution :
          (o : Option Execution) → current_run e (set_pending x c s o).1 ≡ current_run e s
      by_execution none = refl
      by_execution (some exe) = refl

  module _ (sv : Services U) where
    bare_ports-RunLaws : RunLaws (bare_ports sv)
    unfolding bare_ports current_run deploy_scenario
    bare_ports-RunLaws = record {
      started = start_run-started;
      refused = start_run-refused;
      others = start_run-others;
      stopped = λ e s h. stop_run-stopped e s;
      stop_idle = stop_run-idle;
      stop_others = stop_run-others;
      touch_keeps = λ e x s. refl;
      mark_keeps = mark_running-Same;
      clear_keeps = clear_running-Same;
      upload_keeps = λ e k v s. refl;
      launch_keeps = λ e x n vu owner s. refl;
      finish_keeps = λ e x vu s. refl;
      reserve_idle = λ e tenant n x c from to s idle. idle;
      release_keeps = λ e x s. refl;
      purge_keeps = λ e x c s. refl;
      deploy_keeps = λ e spec s. refl;
      metrics_keep = λ e x s. refl;
      correlation_keeps = set_pending-Same;
      orphans_keep = λ e x s. refl;
      finalize_idle = λ e x run s idle. idle;
      orphaned_idle = λ e x run orphans s idle. idle;
    }

    reclaim_each-IsIdle :
        (e : ℤ) (xs : List ℤ) (s : Store U)
        → IsIdle (bare_ports sv) bare_ports-RunLaws e s
        → IsIdle (bare_ports sv) bare_ports-RunLaws e (reclaim_each sv xs s).1
    unfolding reclaim_each
    reclaim_each-IsIdle e [] s idle = idle
    reclaim_each-IsIdle e (x ∷ xs) s idle =
        stopped (stop (bare_ports sv) x s)
          (stop-IsIdle (bare_ports sv) bare_ports-RunLaws e x s idle)
          (λ s'. reclaim_each-IsIdle e xs s')
      where
        stopped :
            (r : Result LifecycleError Done × Store U)
            → IsIdle (bare_ports sv) bare_ports-RunLaws e r.1
            → ((s' : Store U)
                → IsIdle (bare_ports sv) bare_ports-RunLaws e s'
                → IsIdle (bare_ports sv) bare_ports-RunLaws e (reclaim_each sv xs s').1)
            → IsIdle (bare_ports sv) bare_ports-RunLaws e (and_do r (λ _. reclaim_each sv xs)).1
        stopped (err f, s') still next = still
        stopped (ok d, s') still next = next s' still

    admit_after-idle :
        (e : ℤ) (r : Result LifecycleError Done × Store U) (admit : U → Option PortError × U)
        → current_run e r.1 ≡ ok none
        → current_run e (admit_after r admit).1 ≡ ok none
    unfolding admit_after current_run
    admit_after-idle e (err f, s) admit idle = idle
    admit_after-idle e (ok d, s) admit idle = idle

    -- The in-memory ports, with a quota that stops the executions whose capacity it reclaims, keep the run
    -- markers as the lifecycle relies on. A start opens the execution's run, or where it is refused changes
    -- no marker of it; a stop closes it, and neither touches another execution's. A finalisation and a
    -- reservation open no run; every other command leaves the markers as they are.
    pub store_ports-RunLaws : RunLaws (store_ports sv)
    unfolding store_ports bare_ports current_run deploy_scenario
    store_ports-RunLaws = record {
      started = start_run-started;
      refused = start_run-refused;
      others = start_run-others;
      stopped = λ e s h. stop_run-stopped e s;
      stop_idle = stop_run-idle;
      stop_others = stop_run-others;
      touch_keeps = λ e x s. refl;
      mark_keeps = mark_running-Same;
      clear_keeps = clear_running-Same;
      upload_keeps = λ e k v s. refl;
      launch_keeps = λ e x n vu owner s. refl;
      finish_keeps = λ e x vu s. refl;
      reserve_idle = λ e tenant n x c from to s idle.
          admit_after-idle e (reclaim_each sv (sv.reclaims tenant c n from to s) s)
            (sv.reserve tenant c n from to x)
            (reclaim_each-IsIdle e (sv.reclaims tenant c n from to s) s idle);
      release_keeps = λ e x s. refl;
      purge_keeps = λ e x c s. refl;
      deploy_keeps = λ e spec s. refl;
      metrics_keep = λ e x s. refl;
      correlation_keeps = set_pending-Same;
      orphans_keep = λ e x s. refl;
      finalize_idle = λ e x run s idle. idle;
      orphaned_idle = λ e x run orphans s idle. idle;
    }
