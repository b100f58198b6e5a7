-- ===== src/Lifecycle/Views.antt =====
-- What the lifecycle shows of an execution (internal/app/lifecycleapp/service.go): Status, ClusterStatus,
-- EnginesDetail, PodLog, RunExecutionID and Resume. A time that is not set is `none`.
pub mod Same
use honryu.Base.{
  Bool, true, false, not, List, [], ◌∷◌, ◌++◌, Option, none, some, String, if◌then◌else◌, is_empty,
  and_then, Result, ok, err,
}
use honryu.Base.Ints.{ℤ, pos, eqb_ℤ}
use honryu.Base.Maps.{lookup, store}
use honryu.Base.Text.{Text, chars}
use honryu.Base.Times.{Time}
use honryu.Control.{RunRecord}
use honryu.Execution.{Execution, clusters, is_fan_out, already_seen}
use honryu.Run.{Phase, derive_phase}
use honryu.Lifecycle.Ports.{
  Ports, ScenarioReadiness, ExecutionStatus, EngineDetail, ExecutionDetail, RunningScenario, Query,
}
use honryu.Lifecycle.Actions.{LifecycleError, not_on_cluster, ported, at_cluster}
use honryu.Lifecycle.Check.{plan_refs, is_running, execution_status_across}

pub record ScenarioStatus : Type 0 where
  pub scenario_id : ℤ
  pub engines_wanted : ℤ
  pub engines_deployed : ℤ
  pub reachable : Bool
  pub in_progress : Bool
  pub started_time : Option Time

pub record Status : Type 0 where
  pub phase : Phase
  pub pool_size : ℤ
  pub scenarios : List ScenarioStatus

-- The loop of `runningByScenario`.
unfoldable pub start_times : List RunningScenario → List (ℤ × Time) → List (ℤ × Time)
unfolding store
start_times [] times = times
start_times (rp ∷ rps) times = start_times rps (store eqb_ℤ rp.scenario_id rp.started_time times)

unfoldable pub scenario_status : ScenarioReadiness → Option Time → ScenarioStatus
scenario_status pr started = record {
  scenario_id = pr.scenario_id;
  engines_wanted = pr.engines_wanted;
  engines_deployed = pr.engines_deployed;
  reachable = pr.reachable;
  in_progress = elim started [ none ↦ false | some at ↦ true ];
  started_time = started;
}

unfoldable pub scenario_statuses : List ScenarioReadiness → List (ℤ × Time) → List ScenarioStatus
unfolding lookup scenario_status
scenario_statuses [] times = []
scenario_statuses (pr ∷ scenarios) times =
    scenario_status pr (lookup eqb_ℤ pr.scenario_id times) ∷ scenario_statuses scenarios times

-- The end of Status.
unfoldable pub status_for : ExecutionStatus → Option ℤ → List RunningScenario → Status
unfolding start_times scenario_statuses
status_for sched current rps = record {
  phase = derive_phase sched.pool_size (is_running current);
  pool_size = sched.pool_size;
  scenarios = scenario_statuses sched.scenarios (start_times rps []);
}

-- The loop and the end of ClusterStatus.
unfoldable pub cluster_scenario : ScenarioReadiness → Option Time → ScenarioStatus
cluster_scenario pr none = record {
  scenario_id = pr.scenario_id;
  engines_wanted = pr.engines_wanted;
  engines_deployed = pr.engines_deployed;
  reachable = pr.reachable;
  in_progress = false;
  started_time = none;
}
cluster_scenario pr (some started) = record {
  scenario_id = pr.scenario_id;
  engines_wanted = pr.engines_wanted;
  engines_deployed = pr.engines_deployed;
  reachable = pr.reachable;
  in_progress = true;
  started_time = some started;
}

unfoldable pub cluster_scenarios : List ScenarioReadiness → List (ℤ × Time) → List ScenarioStatus
unfolding lookup cluster_scenario
cluster_scenarios [] times = []
cluster_scenarios (pr ∷ scenarios) times =
    cluster_scenario pr (lookup eqb_ℤ pr.scenario_id times) ∷ cluster_scenarios scenarios times

unfoldable pub cluster_view : ExecutionStatus → Option ℤ → List RunningScenario → Status
unfolding start_times cluster_scenarios
cluster_view sched current rps = record {
  phase = derive_phase sched.pool_size (is_running current);
  pool_size = sched.pool_size;
  scenarios = cluster_scenarios sched.scenarios (start_times rps []);
}

-- An engine's name with its cluster's.
unfoldable pub named_engines : Text → List EngineDetail → List EngineDetail
named_engines cluster [] = []
named_engines cluster (e ∷ engines) =
    record e { name = cluster ++ chars "/" ++ e.name } ∷ named_engines cluster engines

unfoldable pub add_detail : Text → ExecutionDetail → ExecutionDetail → ExecutionDetail
unfolding named_engines
add_detail cluster d out = record {
  ingress_ip = if is_empty out.ingress_ip then d.ingress_ip else out.ingress_ip;
  engines = out.engines ++ named_engines cluster d.engines;
}

unfoldable pub cluster_of : Execution → Text
unfolding is_fan_out
cluster_of coll =
    if is_fan_out coll
    then elim coll.fan_out_targets [ [] ↦ [] | target ∷ targets ↦ target ]
    else coll.cluster

module _ {W : Type 0} (p : Ports W) where
  unfoldable pub run_execution_id : ℤ → W → Result LifecycleError ℤ
  run_execution_id run w = and_then (ported (p.run_history run w)) (λ rec. ok rec.execution_id)

  unfoldable pub view : ℤ → ExecutionStatus → W → Result LifecycleError Status
  unfolding status_for
  view execution sched w = and_then (ported (p.current_run execution w)) (λ current.
      and_then (ported (p.running_by_execution execution w))
        (λ rps. ok (status_for sched current rps)))

  unfoldable pub status : ℤ → W → Result LifecycleError Status
  unfolding execution_status_across view
  status execution w = and_then (ported (p.get_execution execution w)) (λ coll.
      and_then (ported (p.load_profile_for execution w)) (λ scenarios.
        and_then (execution_status_across p coll execution (plan_refs scenarios) w)
          (λ sched. view execution sched w)))

  unfoldable pub cluster_status : ℤ → Text → W → Result LifecycleError Status
  unfolding cluster_view already_seen
  cluster_status execution cluster w = and_then (ported (p.get_execution execution w)) (λ coll.
      if not (already_seen cluster (clusters coll))
      then err (not_on_cluster execution cluster)
      else and_then (ported (p.load_profile_for execution w)) (λ scenarios.
        and_then (ported (p.execution_status cluster execution (plan_refs scenarios) w)) (λ sched.
          and_then (ported (p.current_run execution w)) (λ current.
            and_then (ported (p.running_by_execution execution w))
              (λ rps. ok (cluster_view sched current rps))))))

  -- The loop of EnginesDetail.
  unfoldable pub sum_detail :
      List Text → ℤ → ℤ → ExecutionDetail → W → Result LifecycleError ExecutionDetail
  unfolding add_detail
  sum_detail [] project execution out w = ok out
  sum_detail (cluster ∷ rest) project execution out w =
      and_then (at_cluster cluster (p.engine_detail cluster project execution w))
        (λ d. sum_detail rest project execution (add_detail cluster d out) w)

  unfoldable pub detail_of : List Text → ℤ → ℤ → W → Result LifecycleError ExecutionDetail
  unfolding sum_detail
  detail_of (cluster ∷ []) project execution w =
      ported (p.engine_detail cluster project execution w)
  detail_of all project execution w =
      sum_detail all project execution (record { ingress_ip = []; engines = [] }) w

  unfoldable pub engines_detail : ℤ → ℤ → W → Result LifecycleError ExecutionDetail
  unfolding detail_of
  engines_detail project execution w =
      and_then (ported (p.get_execution execution w))
        (λ coll. detail_of (clusters coll) project execution w)

  -- `clusterFor`
  unfoldable pub cluster_for : ℤ → W → Result LifecycleError Text
  unfolding cluster_of
  cluster_for execution w =
      and_then (ported (p.get_execution execution w)) (λ coll. ok (cluster_of coll))

  unfoldable pub show_log : ℤ → ℤ → Text → W → Result LifecycleError Text
  unfolding cluster_for
  show_log execution scenario cluster w =
      and_then (if is_empty cluster then cluster_for execution w else ok cluster)
        (λ ref. ported (p.pod_log ref execution scenario (pos 0) w))

  unfoldable pub resume : W → Result LifecycleError (List RunningScenario)
  resume w = ported (p.running_scenarios w)
