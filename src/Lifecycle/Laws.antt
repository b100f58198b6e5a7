-- ===== src/Lifecycle/Laws.antt =====
-- What the lifecycle relies on of the run markers (internal/ports/run_repository.go). Starting a run opens
-- its marker and stopping closes it, and neither touches another execution's. A finalisation and a
-- reservation, which may stop the runs that have overrun theirs (internal/app/quotaapp/service.go), open
-- no run; every other command leaves the markers as they are.
use honryu.Base.{false, ◌≡◌, none, some, List, String, ok, err}
use honryu.Base.Ints.{ℤ, eqb_ℤ}
use honryu.Base.Text.{Text}
use honryu.Base.Times.{Time}
use honryu.Control.{OrphanCompletion}
use honryu.Lifecycle.Ports.{Ports, PortError, DeploySpec}

pub record RunLaws {W : Type 0} (p : Ports W) : Type 0 where
  pub started :
      (e run : ℤ) (c : Text) (w : W)
      → (p.start_run e c w).0 ≡ ok run
      → p.current_run e (p.start_run e c w).1 ≡ ok (some run)
  pub refused :
      (e : ℤ) (c : Text) (w : W) (x : PortError)
      → (p.start_run e c w).0 ≡ err x
      → p.current_run e (p.start_run e c w).1 ≡ p.current_run e w
  pub others :
      (e x : ℤ) (c : Text) (w : W)
      → eqb_ℤ x e ≡ false
      → p.current_run e (p.start_run x c w).1 ≡ p.current_run e w
  pub stopped :
      (e : ℤ) (w : W) → (p.stop_run e w).0 ≡ none → p.current_run e (p.stop_run e w).1 ≡ ok none
  pub touch_keeps : (e x : ℤ) (w : W) → p.current_run e (p.touch_activity x w).1 ≡ p.current_run e w
  pub mark_keeps :
      (e x s : ℤ) (w : W) → p.current_run e (p.mark_scenario_running x s w).1 ≡ p.current_run e w
  pub upload_keeps :
      (e : ℤ) (k v : Text) (w : W) → p.current_run e (p.upload k v w).1 ≡ p.current_run e w
  pub launch_keeps :
      (e x n vu : ℤ) (owner : String) (w : W)
      → p.current_run e (p.record_start x owner n vu w).1 ≡ p.current_run e w
  pub release_keeps : (e x : ℤ) (w : W) → p.current_run e (p.release x w).1 ≡ p.current_run e w
  pub purge_keeps :
      (e x : ℤ) (c : Text) (w : W) → p.current_run e (p.purge_execution c x w).1 ≡ p.current_run e w
  pub metrics_keep : (e x : ℤ) (w : W) → p.current_run e (p.purge_metrics x w) ≡ p.current_run e w
  pub correlation_keeps :
      (e x : ℤ) (c : Text) (w : W)
      → p.current_run e (p.set_pending_correlation_id x c w).1 ≡ p.current_run e w
  pub orphans_keep :
      (e x : ℤ) (w : W) → p.current_run e (p.clear_orphan_completions x w).1 ≡ p.current_run e w
  pub clear_keeps :
      (e x s : ℤ) (w : W) → p.current_run e (p.clear_scenario_running x s w).1 ≡ p.current_run e w
  pub deploy_keeps :
      (e : ℤ) (spec : DeploySpec) (w : W)
      → p.current_run e (p.deploy_scenario spec w).1 ≡ p.current_run e w
  pub finish_keeps :
      (e x vu : ℤ) (w : W) → p.current_run e (p.record_finish x vu w).1 ≡ p.current_run e w
  pub stop_others :
      (e x : ℤ) (w : W) → eqb_ℤ x e ≡ false → p.current_run e (p.stop_run x w).1 ≡ p.current_run e w
  pub stop_idle :
      (e x : ℤ) (w : W) → p.current_run e w ≡ ok none → p.current_run e (p.stop_run x w).1 ≡ ok none
  pub reserve_idle :
      (e tenant n x : ℤ) (c : Text) (from to : Time) (w : W)
      → p.current_run e w ≡ ok none
      → p.current_run e (p.reserve tenant c n from to x w).1 ≡ ok none
  pub finalize_idle :
      (e x run : ℤ) (w : W)
      → p.current_run e w ≡ ok none
      → p.current_run e (p.finalize x run w).1 ≡ ok none
  pub orphaned_idle :
      (e x run : ℤ) (orphans : List OrphanCompletion) (w : W)
      → p.current_run e w ≡ ok none
      → p.current_run e (p.finalize_orphaned x run orphans w).1 ≡ ok none
