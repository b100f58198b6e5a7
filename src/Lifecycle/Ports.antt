-- ===== src/Lifecycle/Ports.antt =====
-- What the lifecycle asks of the repository, the scheduler, the object store and the other services
-- (internal/ports and the interfaces of internal/app/lifecycleapp/service.go), over a world W that they
-- keep. A query leaves the world as it is; a command may change it even where it fails.
use honryu.Base.{ℕ, Bool, List, Option, String, Result}
use honryu.Base.Ints.{ℤ}
use honryu.Base.Text.{Text}
use honryu.Base.Times.{Time}
use honryu.Calibration.{Phase}
use honryu.Control.{OrphanCompletion, RunRecord}
use honryu.Execution.{Execution}
use honryu.LoadProfile.{Entry}

pub data PortError : Type 0 where
  not_found run_active : PortError
  failure : String → PortError

pub record ScenarioRef : Type 0 where
  pub scenario_id : ℤ
  pub shards : ℤ

pub record ScenarioReadiness : Type 0 where
  pub scenario_id : ℤ
  pub engines_wanted : ℤ
  pub engines_deployed : ℤ
  pub reachable : Bool

pub record ExecutionStatus : Type 0 where
  pub scenarios : List ScenarioReadiness
  pub pool_size : ℤ

pub record EngineDetail : Type 0 where
  pub name : Text
  pub status : String
  pub created_time : Time

pub record ExecutionDetail : Type 0 where
  pub ingress_ip : Text
  pub engines : List EngineDetail

pub record RunningScenario : Type 0 where
  pub execution_id : ℤ
  pub scenario_id : ℤ
  pub started_time : Time

pub record OpenRun : Type 0 where
  pub execution_id : ℤ
  pub run_id : ℤ
  pub started_time : Time

pub record ScenarioFiles : Type 0 where
  pub test_file : Text
  pub data_files : List Text

pub record ShardSpec : Type 0 where
  pub index : ℕ
  pub config : Text
  pub concurrency : ℤ

pub record DeploySpec : Type 0 where
  pub cluster : Text
  pub project_id : ℤ
  pub execution_id : ℤ
  pub scenario_id : ℤ
  pub image : String
  pub cpu : String
  pub memory : String
  pub shards : List ShardSpec
  pub scenario_files : List (Text × Text)

pub record TraceContext : Type 0 where
  pub trace_id : Text
  pub parent_id : Text

-- A command's error, if any, and the world that it leaves.
abbrev pub Command : Type 0 → Type 0
Command W = W → Option PortError × W

abbrev pub Query : Type 0 → Type 0 → Type 0
Query W A = W → Result PortError A

-- Of a project its owner is read, of a scenario whether its kind is native, of a stored report only
-- whether it is there, and of a calibration job its phase.
pub record Ports (W : Type 0) : Type 0 where
  pub project_owner : ℤ → Query W String
  pub get_execution : ℤ → Query W Execution
  pub load_profile_for : ℤ → Query W (List Entry)
  pub is_native : ℤ → Query W Bool
  pub scenario_files_for : ℤ → Query W ScenarioFiles
  pub get_scenario_requests : ℤ → Query W Text
  pub criteria_for : ℤ → Query W (List String)
  pub pending_correlation_id : ℤ → Query W Text
  pub last_activity : ℤ → Query W (Option Time)
  pub calibration_phases : ℤ → Query W (List Phase)
  pub has_report : ℤ → Query W Bool
  pub orphan_completions : ℤ → Query W (List OrphanCompletion)
  pub current_run : ℤ → Query W (Option ℤ)
  pub open_runs : Query W (List OpenRun)
  pub last_run : ℤ → Query W RunRecord
  pub run_history : ℤ → Query W RunRecord
  pub running_scenarios : Query W (List RunningScenario)
  pub running_by_execution : ℤ → Query W (List RunningScenario)
  pub execution_status : Text → ℤ → List ScenarioRef → Query W ExecutionStatus
  pub engine_detail : Text → ℤ → ℤ → Query W ExecutionDetail
  pub pod_log : Text → ℤ → ℤ → ℤ → Query W Text
  pub deployed_executions : Text → Query W (List (ℤ × Time))
  pub is_frozen : ℤ → ℤ → Query W (Option String)
  pub image : String → Query W String
  pub trace_context : Query W TraceContext
  pub download : Text → Query W Text
  pub set_pending_correlation_id : ℤ → Text → Command W
  pub touch_activity : ℤ → Command W
  pub clear_orphan_completions : ℤ → Command W
  pub start_run : ℤ → Text → W → Result PortError ℤ × W
  pub stop_run : ℤ → Command W
  pub mark_scenario_running : ℤ → ℤ → Command W
  pub clear_scenario_running : ℤ → ℤ → Command W
  pub deploy_scenario : DeploySpec → Command W
  pub purge_execution : Text → ℤ → Command W
  pub upload : Text → Text → Command W
  pub finalize : ℤ → ℤ → Command W
  pub finalize_orphaned : ℤ → ℤ → List OrphanCompletion → Command W
  pub purge_metrics : ℤ → W → W
  pub record_start : ℤ → String → ℤ → ℤ → Command W
  pub record_finish : ℤ → ℤ → Command W
  pub reserve : ℤ → Text → ℤ → Time → Time → ℤ → Command W
  pub release : ℤ → Command W
