-- ===== src/Lifecycle/Store/Engines.antt =====
-- The running markers and orphans of the in-memory store (internal/ports/fake: run_repository.go,
-- orphan_repository.go), and the in-memory scheduler (scheduler.go).
use honryu.Base.{
  ℕ, zero, suc, Bool, true, false, ◌||◌, not, List, [], ◌∷◌, ◌++◌, map, Option, none, some,
  if◌then◌else◌, length, Result, ok, err,
}
use honryu.Base.Ints.{ℤ, pos, ◌+ℤ◌, wrap64, eqb_ℤ, ltb_ℤ}
use honryu.Base.Maps.{lookup, lookup_or, store, delete}
use honryu.Base.Sorting.{sort_by}
use honryu.Base.Text.{Text, chars, itoa}
use honryu.Base.Times.{Time, before}
use honryu.Control.{OrphanKey, OrphanCompletion}
use honryu.Lifecycle.Ports.{
  PortError, failure, ScenarioRef, ScenarioReadiness, ExecutionStatus, EngineDetail,
  RunningScenario, DeploySpec, Command,
}
use honryu.Lifecycle.Store.{SchedDeploy, Store}

unfoldable pub runs_of : ℤ → List (ℤ × Time) → List RunningScenario
runs_of execution [] = []
runs_of execution ((scenario, started) ∷ scenarios) =
    (record { execution_id = execution; scenario_id = scenario; started_time = started })
    ∷ runs_of execution scenarios

unfoldable pub all_runs : List (ℤ × List (ℤ × Time)) → List RunningScenario
unfolding runs_of
all_runs [] = []
all_runs ((execution, scenarios) ∷ running) = runs_of execution scenarios ++ all_runs running

unfoldable pub running_before : RunningScenario → RunningScenario → Bool
running_before a b =
    if eqb_ℤ a.execution_id b.execution_id
    then ltb_ℤ a.scenario_id b.scenario_id
    else ltb_ℤ a.execution_id b.execution_id

unfoldable pub orphan_before : OrphanCompletion → OrphanCompletion → Bool
orphan_before a b =
    if eqb_ℤ a.scenario_id b.scenario_id
    then ltb_ℤ a.shard_index b.shard_index
    else ltb_ℤ a.scenario_id b.scenario_id

unfoldable pub completions : List (OrphanKey × OrphanCompletion) → List OrphanCompletion
unfolding sort_by orphan_before
completions by_shard = sort_by orphan_before (map (λ (k, oc). oc) by_shard)

unfoldable pub readiness : List (ℤ × SchedDeploy) → ScenarioRef → ScenarioReadiness
unfolding lookup
readiness deployed ref = elim (lookup eqb_ℤ ref.scenario_id deployed) [
  | none ↦ record {
    scenario_id = ref.scenario_id;
    engines_wanted = ref.shards;
    engines_deployed = pos 0;
    reachable = false;
  }
  | some d ↦ record {
    scenario_id = ref.scenario_id;
    engines_wanted = ref.shards;
    engines_deployed = pos (length d.spec.shards);
    reachable = true;
  }
]

unfoldable pub status_of : List (ℤ × SchedDeploy) → ℤ → List ScenarioRef → ExecutionStatus
unfolding readiness
status_of deployed pool [] = record { scenarios = []; pool_size = pool }
status_of deployed pool (ref ∷ refs) =
    let pr = readiness deployed ref in
    let rest = status_of deployed (wrap64 (pool +ℤ pr.engines_deployed)) refs in
    record rest { scenarios = pr ∷ rest.scenarios }

unfoldable pub engines_of : ℤ → ℤ → SchedDeploy → ℕ → ℕ → List EngineDetail
unfolding itoa
engines_of execution scenario d i zero = []
engines_of execution scenario d i (suc left) =
    (record {
      name =
          chars "engine-"
          ++ itoa d.spec.project_id
          ++ chars "-"
          ++ itoa execution
          ++ chars "-"
          ++ itoa scenario
          ++ chars "-"
          ++ itoa (pos i);
      status = "Running";
      created_time = d.deploy_at;
    })
    ∷ engines_of execution scenario d (suc i) left

unfoldable pub all_engines : ℤ → List (ℤ × SchedDeploy) → List EngineDetail
unfolding engines_of
all_engines execution [] = []
all_engines execution ((scenario, d) ∷ deployed) =
    engines_of execution scenario d 0 (length d.spec.shards) ++ all_engines execution deployed

abbrev pub scenario_before : ℤ × SchedDeploy → ℤ × SchedDeploy → Bool
scenario_before (j, d) (k, e) = ltb_ℤ j k

unfoldable pub pod_log : Option SchedDeploy → ℤ → Result PortError Text
unfolding itoa
pod_log none shard = err (failure "ports: engines unreachable")
pod_log (some d) shard =
    if ltb_ℤ shard (pos 0) || not (ltb_ℤ shard (pos (length d.spec.shards)))
    then err (failure "ports: engines unreachable")
    else ok (chars "fake engine log" ++ chars " (shard " ++ itoa shard ++ chars ")")

unfoldable pub earliest : List (ℤ × SchedDeploy) → Option Time → Option Time
earliest [] at = at
earliest ((scenario, d) ∷ deployed) none = earliest deployed (some d.deploy_at)
earliest ((scenario, d) ∷ deployed) (some cur) =
    earliest deployed (some (if before d.deploy_at cur then d.deploy_at else cur))

unfoldable pub deployed_times : List (ℤ × List (ℤ × SchedDeploy)) → List (ℤ × Time)
unfolding earliest
deployed_times [] = []
deployed_times ((execution, deployed) ∷ deployments) =
    let rest = deployed_times deployments in
    elim (earliest deployed none) [ none ↦ rest | some at ↦ (execution, at) ∷ rest ]

module _ {U : Type 0} where
  abbrev pub set_running : ℤ → List (ℤ × Time) → Store U → Store U
  set_running execution scenarios s = record s {
    running = store eqb_ℤ execution scenarios s.running;
  }

  -- `MarkScenarioRunning`, by the mark that is there, and `ClearScenarioRunning`.
  unfoldable pub mark_over : ℤ → ℤ → List (ℤ × Time) → Store U → Option Time → Store U
  unfolding store
  mark_over execution scenario scenarios s (some started) = set_running execution scenarios s
  mark_over execution scenario scenarios s none =
      set_running execution (store eqb_ℤ scenario s.now scenarios) s

  unfoldable pub mark_running : ℤ → ℤ → Command (Store U)
  unfolding lookup lookup_or mark_over
  mark_running execution scenario s =
      let scenarios = lookup_or eqb_ℤ [] execution s.running in
      (none, mark_over execution scenario scenarios s (lookup eqb_ℤ scenario scenarios))

  unfoldable pub clear_left : ℤ → List (ℤ × Time) → Store U → Store U
  unfolding store delete
  clear_left execution [] s = record s { running = delete eqb_ℤ execution s.running }
  clear_left execution (scenario ∷ left) s = set_running execution (scenario ∷ left) s

  unfoldable pub clear_over : ℤ → ℤ → Store U → Option (List (ℤ × Time)) → Store U
  unfolding delete clear_left
  clear_over execution scenario s none = s
  clear_over execution scenario s (some scenarios) =
      clear_left execution (delete eqb_ℤ scenario scenarios) s

  unfoldable pub clear_running : ℤ → ℤ → Command (Store U)
  unfolding lookup clear_over
  clear_running execution scenario s =
      (none, clear_over execution scenario s (lookup eqb_ℤ execution s.running))

  -- The scheduler: `DeployScenario`, `ExecutionStatus`, `EngineDetail`, `PodLog`, `DeployedExecutions`. It
  -- keeps no clusters apart.
  unfoldable pub deploy_scenario : DeploySpec → Command (Store U)
  unfolding lookup lookup_or store
  deploy_scenario spec s =
      let scenarios = lookup_or eqb_ℤ [] spec.execution_id s.deployments in
      let at : Time = elim (lookup eqb_ℤ spec.scenario_id scenarios) [
        | none ↦ s.now
        | some d ↦ d.deploy_at
      ] in
      (
        none,
        record s {
          deployments =
              store eqb_ℤ spec.execution_id
                (store eqb_ℤ spec.scenario_id (record { spec = spec; deploy_at = at }) scenarios)
                s.deployments;
        },
      )
