-- ===== src/Lifecycle/Store.antt =====
-- The in-memory repository, scheduler and object store (internal/ports/fake: repository.go,
-- run_repository.go, orphan_repository.go, scheduler.go, objectstore.go) as the lifecycle's ports. The
-- other services keep a state of their own, U. A failure that a test injects is not modelled.
pub mod Engines
pub mod Filled
pub mod Markers
use honryu.Base.{
  ℕ, zero, suc, Bool, true, false, ◌&&◌, ◌||◌, List, [], ◌∷◌, ◌++◌, map, Option, none, some, String,
  if◌then◌else◌, length, Result, ok, err, is_empty,
}
use honryu.Base.Ints.{ℤ, pos, ◌+ℤ◌, wrap64, eqb_ℤ, ltb_ℤ}
use honryu.Base.Maps.{lookup, lookup_or, store, delete}
use honryu.Base.Sorting.{sort_by}
use honryu.Base.Text.{Text, chars, itoa, same_text}
use honryu.Base.Times.{Time, before, after}
use honryu.Calibration.{Phase}
use honryu.Control.{OrphanKey, OrphanCompletion, RunRecord}
use honryu.Execution.{Execution}
use honryu.LoadProfile.{Entry}
use honryu.Lifecycle.Ports.{
  Ports, PortError, not_found, run_active, failure, ScenarioRef, ScenarioReadiness, ExecutionStatus,
  EngineDetail, ExecutionDetail, RunningScenario, OpenRun, ScenarioFiles, DeploySpec, TraceContext,
  Command, Query,
}

pub record SchedDeploy : Type 0 where
  pub spec : DeploySpec
  pub deploy_at : Time

pub record Store (U : Type 0) : Type 0 where
  pub now : Time
  pub native : List (ℤ × Bool)
  pub scenario_files : List (ℤ × ScenarioFiles)
  pub scenario_requests : List (ℤ × Text)
  pub executions : List (ℤ × Execution)
  pub exec : List (ℤ × List Entry)
  pub exec_criteria : List (ℤ × List String)
  pub pending_correlation : List (ℤ × Text)
  pub activity : List (ℤ × Time)
  pub run_seq : ℤ
  pub active : List (ℤ × ℤ)
  pub history : List (ℤ × RunRecord)
  pub running : List (ℤ × List (ℤ × Time))
  pub orphans : List (ℤ × List (OrphanKey × OrphanCompletion))
  pub deployments : List (ℤ × List (ℤ × SchedDeploy))
  pub objects : List (Text × Text)
  pub services : U

-- The services that are not in the store, over their own state. A reservation first stops the executions
-- that it reclaims capacity from, which depend on what runs.
pub record Services (U : Type 0) : Type 0 where
  pub project_owner : ℤ → U → Result PortError String
  pub calibration_phases : ℤ → U → Result PortError (List Phase)
  pub has_report : ℤ → U → Result PortError Bool
  pub is_frozen : ℤ → ℤ → U → Result PortError (Option String)
  pub image : String → U → Result PortError String
  pub trace_context : U → Result PortError TraceContext
  pub finalize : ℤ → ℤ → Command U
  pub finalize_orphaned : ℤ → ℤ → List OrphanCompletion → Command U
  pub purge_metrics : ℤ → U → U
  pub record_start : ℤ → String → ℤ → ℤ → Command U
  pub record_finish : ℤ → ℤ → Command U
  pub reclaims : ℤ → Text → ℤ → Time → Time → Store U → List ℤ
  pub reserve : ℤ → Text → ℤ → Time → Time → ℤ → Command U
  pub release : ℤ → Command U

abbrev pub found : {A : Type 0} → Option A → Result PortError A
found none = err not_found
found (some a) = ok a

unfoldable pub open_before : OpenRun → OpenRun → Bool
open_before a b =
    if eqb_ℤ a.started_time b.started_time
    then ltb_ℤ a.run_id b.run_id
    else before a.started_time b.started_time

unfoldable pub ended : Time → RunRecord → RunRecord
ended at rec = elim rec.end_time [ none ↦ record rec { end_time = some at } | some end ↦ rec ]

unfoldable pub end_history : Time → ℤ → List (ℤ × RunRecord) → List (ℤ × RunRecord)
unfolding lookup store ended
end_history at run history = elim (lookup eqb_ℤ run history) [
  | none ↦ history
  | some rec ↦ store eqb_ℤ run (ended at rec) history
]

unfoldable pub is_later : RunRecord → RunRecord → Bool
is_later rec latest =
    after rec.started_time latest.started_time
    || (eqb_ℤ rec.started_time latest.started_time && ltb_ℤ latest.run_id rec.run_id)

unfoldable pub latest_of : ℤ → Option RunRecord → List (ℤ × RunRecord) → Option RunRecord
unfolding is_later
latest_of execution latest [] = latest
latest_of execution none ((run, rec) ∷ history) =
    latest_of execution (if eqb_ℤ rec.execution_id execution then some rec else none) history
latest_of execution (some l) ((run, rec) ∷ history) =
    latest_of execution
      (some (if eqb_ℤ rec.execution_id execution && is_later rec l then rec else l)) history

module _ {U : Type 0} where
  -- `StartRun`, by the run that is active; `CurrentRun`, `OpenRuns` and `StopRun`.
  unfoldable pub start_over : ℤ → Text → Store U → Option ℤ → Result PortError ℤ × Store U
  unfolding store
  start_over execution correlation s (some run) = (err run_active, s)
  start_over execution correlation s none =
      let run = wrap64 (s.run_seq +ℤ pos 1) in
      (
        ok run,
        record s {
          run_seq = run;
          active = store eqb_ℤ execution run s.active;
          history =
              store eqb_ℤ run
                (record {
                  run_id = run;
                  execution_id = execution;
                  started_time = s.now;
                  end_time = none;
                  correlation_id = correlation;
                })
                s.history;
        },
      )

  unfoldable pub start_run : ℤ → Text → Store U → Result PortError ℤ × Store U
  unfolding lookup start_over
  start_run execution correlation s =
      start_over execution correlation s (lookup eqb_ℤ execution s.active)

  unfoldable pub current_run : ℤ → Store U → Result PortError (Option ℤ)
  unfolding lookup
  current_run execution s = ok (lookup eqb_ℤ execution s.active)

  unfoldable pub open_run_of : Store U → ℤ × ℤ → OpenRun
  unfolding lookup
  open_run_of s (execution, run) = record {
    execution_id = execution;
    run_id = run;
    started_time = elim (lookup eqb_ℤ run s.history) [ none ↦ pos 0 | some rec ↦ rec.started_time ];
  }

  unfoldable pub open_runs : Store U → Result PortError (List OpenRun)
  unfolding open_run_of sort_by open_before
  open_runs s = ok (sort_by open_before (map (open_run_of s) s.active))

  unfoldable pub stop_over : ℤ → Store U → Option ℤ → Option PortError × Store U
  unfolding delete end_history
  stop_over execution s none = (none, s)
  stop_over execution s (some run) = (
    none,
    record s {
      history = end_history s.now run s.history;
      active = delete eqb_ℤ execution s.active;
    },
  )

  unfoldable pub stop_run : ℤ → Command (Store U)
  unfolding lookup stop_over
  stop_run execution s = stop_over execution s (lookup eqb_ℤ execution s.active)
