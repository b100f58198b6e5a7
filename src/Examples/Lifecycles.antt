-- ===== src/Examples/Lifecycles.antt =====
-- An execution of one scenario on the in-memory ports: deployed, triggered and stopped.
use honryu.Base.{
  ℕ, ◌≡◌, ◌↔◌, refl, List, [], ◌∷◌, true, false, Option, none, some, All, Result, ok, err, arith,
}
use honryu.Base.Ints.{ℤ, pos, wrap64, ◌+ℤ◌}
use honryu.Base.Text.{chars}
use honryu.Base.Thousandths.{thousandths}
use honryu.Execution.{Execution, clusters}
use honryu.LoadProfile.{Entry, total_engines}
use honryu.Run.{can_deploy, can_trigger, can_stop, derive_phase, not_running}
use honryu.Shard.{Shard, plan, shard_at, shards_from, shard_count}
use honryu.Lifecycle.Ports.{Ports, PortError, ShardSpec}
use honryu.Lifecycle.Laws.{RunLaws}
use honryu.Lifecycle.Actions.{LifecycleError, Done, run_err}
use honryu.Lifecycle.Check.{check_trigger}
use honryu.Lifecycle.Trigger.{Quantities, trigger}
use honryu.Lifecycle.Trigger.Ready.{MayStart, check_trigger-MayStart}
use honryu.Lifecycle.Teardown.{stop}
use honryu.Lifecycle.Teardown.Ended.{stop-Ended}
use honryu.Lifecycle.Deploy.{Compiler, compile_shards, deploy}
use honryu.Lifecycle.Deploy.Shares.{
  IsShareOf, IsCompiledFrom, load_from, compile_shards-IsCompiledFrom,
}
use honryu.LoadMode.Staircase.{StaircaseStep, staircase_steps}
use honryu.Lifecycle.Store.{Store, Services, current_run, start_run, stop_run}
use honryu.Lifecycle.Store.Engines.{
  mark_running, clear_running, deploy_scenario, status_of, completions,
}
use honryu.Lifecycle.Store.Filled.{
  download, store_ports, set_pending_correlation_id, pending_correlation_id, bare_ports,
}
use honryu.Lifecycle.Store.Markers.{store_ports-RunLaws}

abbrev pub shop : Execution
shop = record {
  id = pos 1;
  name = chars "shop";
  project_id = pos 9;
  engine = "k6";
  kind = "normal";
  cpu = "";
  memory = "";
  cluster = chars "eu";
  fan_out_targets = [];
  csv_split = false;
  tenant_id = none;
  created_by = "";
  updated_by = "";
}

abbrev pub browse : Entry
browse = record {
  name = "browse";
  scenario_id = pos 2;
  concurrency = pos 5;
  rampup = pos 0;
  engines = pos 2;
  throughput = pos 10;
  duration = pos 60;
  csv_split = false;
  mode = "";
  steps = pos 0;
}

-- Services that grant everything and keep no state.
abbrev grants_all : Unit {0} → Option PortError × Unit {0}
grants_all u = (none, u)

abbrev services : Services (Unit {0})
services = record {
  project_owner = λ project u. ok "team";
  calibration_phases = λ execution u. ok [];
  has_report = λ run u. ok true;
  is_frozen = λ project execution u. ok none;
  image = λ engine u. ok "honryu/k6";
  trace_context = λ u. ok (record { trace_id = chars "4bf9"; parent_id = chars "00f0" });
  finalize = λ execution run. grants_all;
  finalize_orphaned = λ execution run orphans. grants_all;
  purge_metrics = λ execution u. u;
  record_start = λ execution owner engines vu. grants_all;
  record_finish = λ execution vu. grants_all;
  reclaims = λ tenant cluster units from to s. [];
  reserve = λ tenant cluster units from to execution. grants_all;
  release = λ execution. grants_all;
}

abbrev pub ports : Ports (Store (Unit {0}))
ports = store_ports services

abbrev fresh : Store (Unit {0})
fresh = record {
  now = pos 0;
  native = (pos 2, false) ∷ [];
  scenario_files = [];
  scenario_requests = [];
  executions = (pos 1, shop) ∷ [];
  exec = (pos 1, browse ∷ []) ∷ [];
  exec_criteria = [];
  pending_correlation = [];
  activity = [];
  run_seq = pos 0;
  active = [];
  history = [];
  running = [];
  orphans = [];
  deployments = [];
  objects = [];
  services = tt;
}

abbrev compiler : Compiler
compiler = record { parse = λ raw. none; compile = λ input. ok (chars "execution: []") }

abbrev pub deployed : Store (Unit {0})
deployed = (deploy thousandths ports compiler "jmeter" (pos 1) fresh).1

deployed_well : (deploy thousandths ports compiler "jmeter" (pos 1) fresh).0 ≡ ok tt
unfolding deploy store_ports bare_ports current_run can_deploy derive_phase
    set_pending_correlation_id plan shards_from shard_count clusters deploy_scenario
deployed_well = refl

abbrev quantities : Quantities
quantities = record { milli_value = λ q. none; value = λ q. none }

abbrev pub begun : Result LifecycleError Done × Store (Unit {0})
begun = trigger ports thousandths quantities (pos 0) (pos 1) deployed

check_trigger-MayStart_example :
    (check_trigger ports (pos 1) deployed ≡ ok (shop, browse ∷ []))
    ↔ MayStart ports (pos 1) deployed shop (browse ∷ [])
check_trigger-MayStart_example = check_trigger-MayStart ports (pos 1) deployed shop (browse ∷ [])

checked_well : check_trigger ports (pos 1) deployed ≡ ok (shop, browse ∷ [])
unfolding check_trigger deploy store_ports bare_ports current_run can_deploy derive_phase
    set_pending_correlation_id plan shards_from shard_count clusters deploy_scenario can_trigger
    status_of wrap64 ◌+ℤ◌ total_engines completions
checked_well = refl

triggered_well : begun.0 ≡ ok tt
unfolding trigger check_trigger deploy store_ports bare_ports current_run can_deploy derive_phase
    set_pending_correlation_id plan shards_from shard_count clusters deploy_scenario can_trigger
    status_of wrap64 ◌+ℤ◌ total_engines completions start_run pending_correlation_id mark_running
triggered_well = refl

abbrev ended : Result LifecycleError Done × Store (Unit {0})
ended = stop ports (pos 1) begun.1

stop-Ended_example :
    (ports.current_run (pos 1) begun.1 ≡ ok none → ended ≡ (err (run_err not_running), begun.1))
    × (ended.0 ≡ ok tt
        → ((run : ℤ) × (ports.current_run (pos 1) begun.1 ≡ ok (some run)))
          × (ports.current_run (pos 1) ended.1 ≡ ok none))
stop-Ended_example = stop-Ended ports (store_ports-RunLaws services) (pos 1) begun.1

stopped_well : ended.0 ≡ ok tt
unfolding stop trigger check_trigger deploy store_ports bare_ports current_run can_deploy
    derive_phase set_pending_correlation_id plan shards_from shard_count clusters deploy_scenario
    can_trigger status_of wrap64 ◌+ℤ◌ total_engines completions start_run pending_correlation_id
    mark_running stop_run can_stop clear_running download shard_at
stopped_well = refl

abbrev stairs : Entry
stairs = record browse { mode = "staircase"; steps = pos 3 }

-- The second of its three plateaus.
abbrev second : StaircaseStep
second = record { index = 1; concurrency = pos 4; throughput = pos 7 }

abbrev pod : ℕ → Shard
pod i = record {
  index = i;
  concurrency = pos 2;
  throughput = pos 5;
  rampup_seconds = pos 0;
  duration_seconds = pos 60;
}

abbrev table : List StaircaseStep
table = staircase_steps thousandths (pos 5) (pos 10) (pos 3)

-- Five users on two pods: three on the first and two on the second.
abbrev three_and_two : List ShardSpec
three_and_two =
    (record { index = 0; config = chars "execution: []"; concurrency = pos 3 })
    ∷ (record { index = 1; config = chars "execution: []"; concurrency = pos 2 })
    ∷ []

abbrev pods : List Shard
pods =
    (record {
      index = 0;
      concurrency = pos 3;
      throughput = pos 5;
      rampup_seconds = pos 0;
      duration_seconds = pos 60;
    })
    ∷ (record {
      index = 1;
      concurrency = pos 2;
      throughput = pos 5;
      rampup_seconds = pos 0;
      duration_seconds = pos 60;
    })
    ∷ []

compile_shards-IsCompiledFrom_example :
    (ts : List Entry) × IsCompiledFrom compiler [] ts three_and_two
    × All (IsShareOf browse) ts
    × (load_from (pos 0) (pos 0) ts ≡ (pos 5, pos 10))
unfolding compile_shards store_ports bare_ports plan shards_from shard_count shard_at ◌+ℤ◌
compile_shards-IsCompiledFrom_example =
    compile_shards-IsCompiledFrom thousandths ports compiler shop browse pods "k6" [] three_and_two
      [] fresh refl refl refl (omega arith) (omega arith) refl

-- A quota that stops the first execution for the sake of another.
abbrev reclaiming : Services (Unit {0})
reclaiming = record services { reclaims = λ tenant cluster units from to s. pos 1 ∷ [] }

store_ports-RunLaws_example : RunLaws (store_ports reclaiming)
store_ports-RunLaws_example = store_ports-RunLaws reclaiming

reclaimed_well :
    current_run
      (pos 1)
      ((store_ports reclaiming).reserve
        (pos 4)
        (chars "eu")
        (pos 2)
        (pos 0)
        (pos 60)
        (pos 7)
        begun.1).1
    ≡ ok none
unfolding stop trigger check_trigger deploy store_ports bare_ports current_run can_deploy
    derive_phase set_pending_correlation_id plan shards_from shard_count clusters deploy_scenario
    can_trigger status_of wrap64 ◌+ℤ◌ total_engines completions start_run pending_correlation_id
    mark_running stop_run can_stop clear_running download shard_at
reclaimed_well = refl
