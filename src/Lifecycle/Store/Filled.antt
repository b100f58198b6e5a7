-- ===== src/Lifecycle/Store/Filled.antt =====
-- The in-memory ports (internal/ports/fake) as the lifecycle's ports, with a quota that admits everything and
-- with one that reclaims (internal/app/quotaapp/service.go).
use honryu.Base.{List, [], ◌∷◌, Option, none, some, Result, ok, err}
use honryu.Base.Ints.{ℤ, pos, eqb_ℤ}
use honryu.Base.Maps.{lookup, lookup_or, store, delete}
use honryu.Base.Sorting.{sort_by}
use honryu.Base.Text.{Text, chars, same_text}
use honryu.Base.Times.{Time}
use honryu.Control.{RunRecord}
use honryu.Execution.{Execution}
use honryu.Lifecycle.Ports.{Ports, PortError, not_found, failure, ExecutionDetail, Command}
use honryu.Lifecycle.Actions.{LifecycleError, Done, Action, pure, ◌>>◌}
use honryu.Lifecycle.Teardown.{stop}
use honryu.Lifecycle.Store.{
  Store, Services, found, start_run, current_run, open_runs, stop_run, latest_of,
}
use honryu.Lifecycle.Store.Engines.{
  mark_running, clear_running, runs_of, all_runs, running_before, completions, deploy_scenario,
  status_of, all_engines, scenario_before, pod_log, deployed_times,
}

module _ {U : Type 0} where
  -- A service's command, on its own state.
  abbrev pub at_services : {A : Type 0} → Store U → A × U → A × Store U
  at_services s (a, u) = (a, record s { services = u })

  -- An execution that is not there has no pending correlation id, and none to be set.
  unfoldable pub pending_correlation_id : ℤ → Store U → Result PortError Text
  unfolding lookup lookup_or
  pending_correlation_id execution s = elim (lookup eqb_ℤ execution s.executions) [
    | none ↦ err not_found
    | some exe ↦ ok (lookup_or eqb_ℤ [] execution s.pending_correlation)
  ]

  unfoldable pub set_pending : ℤ → Text → Store U → Option Execution → Option PortError × Store U
  unfolding store
  set_pending execution correlation s none = (some not_found, s)
  set_pending execution correlation s (some exe) = (
    none,
    record s { pending_correlation = store eqb_ℤ execution correlation s.pending_correlation },
  )

  unfoldable pub set_pending_correlation_id : ℤ → Text → Command (Store U)
  unfolding lookup set_pending
  set_pending_correlation_id execution correlation s =
      set_pending execution correlation s (lookup eqb_ℤ execution s.executions)

  unfoldable pub last_activity : ℤ → Store U → Result PortError (Option Time)
  unfolding lookup
  last_activity execution s = elim (lookup eqb_ℤ execution s.executions) [
    | none ↦ ok none
    | some exe ↦ ok (lookup eqb_ℤ execution s.activity)
  ]

  unfoldable pub download : Text → Store U → Result PortError Text
  unfolding lookup same_text
  download key s = elim (lookup same_text key s.objects) [
    | none ↦ err (failure "ports: object not found")
    | some content ↦ ok content
  ]

  unfoldable pub engine_detail : ℤ → Store U → Result PortError ExecutionDetail
  unfolding lookup_or sort_by all_engines
  engine_detail execution s = ok (record {
    ingress_ip = chars "10.0.0.1";
    engines =
        all_engines execution
          (sort_by scenario_before (lookup_or eqb_ℤ [] execution s.deployments));
  })

  unfoldable pub last_run : ℤ → Store U → Result PortError RunRecord
  unfolding latest_of
  last_run execution s = found (latest_of execution none s.history)

  -- The ports of a lifecycle whose quota is `noopQuota`.
  unfoldable pub bare_ports : Services U → Ports (Store U)
  unfolding lookup lookup_or store delete sort_by same_text
  bare_ports sv = record {
    project_owner = λ project s. sv.project_owner project s.services;
    get_execution = λ execution s. found (lookup eqb_ℤ execution s.executions);
    load_profile_for = λ execution s. ok (lookup_or eqb_ℤ [] execution s.exec);
    is_native = λ scenario s. found (lookup eqb_ℤ scenario s.native);
    scenario_files_for = λ scenario s.
        ok (lookup_or eqb_ℤ (record { test_file = []; data_files = [] }) scenario s.scenario_files);
    get_scenario_requests = λ scenario s. found (lookup eqb_ℤ scenario s.scenario_requests);
    criteria_for = λ execution s. ok (lookup_or eqb_ℤ [] execution s.exec_criteria);
    pending_correlation_id = pending_correlation_id;
    last_activity = last_activity;
    calibration_phases = λ execution s. sv.calibration_phases execution s.services;
    has_report = λ run s. sv.has_report run s.services;
    orphan_completions = λ execution s. ok (completions (lookup_or eqb_ℤ [] execution s.orphans));
    current_run = current_run;
    open_runs = open_runs;
    last_run = last_run;
    run_history = λ run s. found (lookup eqb_ℤ run s.history);
    running_scenarios = λ s. ok (sort_by running_before (all_runs s.running));
    running_by_execution = λ execution s.
        ok (sort_by running_before (runs_of execution (lookup_or eqb_ℤ [] execution s.running)));
    execution_status = λ cluster execution refs s.
        ok (status_of (lookup_or eqb_ℤ [] execution s.deployments) (pos 0) refs);
    engine_detail = λ cluster project execution s. engine_detail execution s;
    pod_log = λ cluster execution scenario shard s.
        pod_log (lookup eqb_ℤ scenario (lookup_or eqb_ℤ [] execution s.deployments)) shard;
    deployed_executions = λ cluster s. ok (deployed_times s.deployments);
    is_frozen = λ project execution s. sv.is_frozen project execution s.services;
    image = λ engine s. sv.image engine s.services;
    trace_context = λ s. sv.trace_context s.services;
    download = download;
    set_pending_correlation_id = set_pending_correlation_id;
    touch_activity =
        λ execution s. (none, record s { activity = store eqb_ℤ execution s.now s.activity });
    clear_orphan_completions =
        λ execution s. (none, record s { orphans = delete eqb_ℤ execution s.orphans });
    start_run = start_run;
    stop_run = stop_run;
    mark_scenario_running = mark_running;
    clear_scenario_running = clear_running;
    deploy_scenario = deploy_scenario;
    purge_execution = λ cluster execution s.
        (none, record s { deployments = delete eqb_ℤ execution s.deployments });
    upload = λ key content s. (none, record s { objects = store same_text key content s.objects });
    finalize = λ execution run s. at_services s (sv.finalize execution run s.services);
    finalize_orphaned = λ execution run orphans s.
        at_services s (sv.finalize_orphaned execution run orphans s.services);
    purge_metrics = λ execution s. record s { services = sv.purge_metrics execution s.services };
    record_start = λ execution owner engines vu s.
        at_services s (sv.record_start execution owner engines vu s.services);
    record_finish = λ execution vu s. at_services s (sv.record_finish execution vu s.services);
    reserve = λ tenant cluster units from to execution s. (none, s);
    release = λ execution s. at_services s (sv.release execution s.services);
  }

  -- The loop of `reclaimOverrun`: each execution is stopped through the lifecycle.
  unfoldable pub reclaim_each : Services U → List ℤ → Action (Store U) Done
  unfolding bare_ports stop
  reclaim_each sv [] = pure tt
  reclaim_each sv (execution ∷ rest) = stop (bare_ports sv) execution >> reclaim_each sv rest

  -- The admission, or the failure of a stop.
  unfoldable pub admit_after :
      Result LifecycleError Done × Store U → (U → Option PortError × U) → Option PortError × Store U
  admit_after (err e, s) admit = (some (failure "reclaim"), s)
  admit_after (ok d, s) admit = at_services s (admit s.services)

  -- The ports of a lifecycle whose quota reclaims what has overrun.
  unfoldable pub store_ports : Services U → Ports (Store U)
  unfolding bare_ports reclaim_each admit_after
  store_ports sv = record (bare_ports sv) {
    reserve = λ tenant cluster units from to execution s.
        admit_after (reclaim_each sv (sv.reclaims tenant cluster units from to s) s)
          (sv.reserve tenant cluster units from to execution);
  }
