-- ===== src/Lifecycle/Views/Same.antt =====
-- The views of an execution that runs on one cluster.
use honryu.Base.{◌≡◌, refl, ap, false, ok, and_then, List, [], ◌∷◌, Option, none, some}
use honryu.Base.Ints.{ℤ, eqb_ℤ}
use honryu.Base.Text.{same_text_iff}
use honryu.Execution.{Execution, clusters, is_fan_out, already_seen}
use honryu.Lifecycle.Actions.{ported}
use honryu.Lifecycle.Ports.{Ports, ScenarioReadiness, ExecutionStatus, RunningScenario}
use honryu.Lifecycle.Check.{plan_refs, execution_status_across, status_of_clusters}
use honryu.Base.Maps.{lookup}
use honryu.Base.Times.{Time}
use honryu.Lifecycle.Views.{
  Status, view, start_times, status_for, scenario_status, scenario_statuses, cluster_scenario,
  cluster_scenarios, cluster_view, status, cluster_status,
}

cluster_scenario-same :
    (pr : ScenarioReadiness) (at : Option Time) → cluster_scenario pr at ≡ scenario_status pr at
unfolding cluster_scenario scenario_status
cluster_scenario-same pr none = refl
cluster_scenario-same pr (some started) = refl

cluster_scenarios-same :
    (scenarios : List ScenarioReadiness) (times : List (ℤ × Time))
    → cluster_scenarios scenarios times ≡ scenario_statuses scenarios times
unfolding cluster_scenarios scenario_statuses
cluster_scenarios-same [] times = refl
cluster_scenarios-same (pr ∷ scenarios) times =
    rw
      (
        cluster_scenario-same pr (lookup eqb_ℤ pr.scenario_id times),
        cluster_scenarios-same scenarios times,
      )
      refl

cluster_view-same :
    (sched : ExecutionStatus) (current : Option ℤ) (rps : List RunningScenario)
    → cluster_view sched current rps ≡ status_for sched current rps
unfolding cluster_view status_for
cluster_view-same sched current rps =
    rw (cluster_scenarios-same sched.scenarios (start_times rps [])) refl

module _ {W : Type 0} (p : Ports W) where
  -- An execution that does not fan out has the same status on its own cluster as it has in all.
  pub cluster_status-status :
      (execution : ℤ) (coll : Execution) (w : W)
      → p.get_execution execution w ≡ ok coll
      → is_fan_out coll ≡ false
      → cluster_status p execution coll.cluster w ≡ status p execution w
  unfolding cluster_status status view execution_status_across status_of_clusters clusters
      already_seen
  cluster_status-status execution coll w known single =
      rw (known, single, (same_text_iff coll.cluster coll.cluster).1 refl)
        (ap
          (λ (end : ExecutionStatus → Option ℤ → List RunningScenario → Status).
            and_then (ported (p.load_profile_for execution w)) (λ scenarios.
              and_then (ported (p.execution_status coll.cluster execution (plan_refs scenarios) w))
                (λ sched. and_then (ported (p.current_run execution w)) (λ current.
                  and_then (ported (p.running_by_execution execution w))
                    (λ rps. ok (end sched current rps))))))
          (λ i. λ sched current rps. cluster_view-same sched current rps i))
