-- ===== src/Control/Finalize.antt =====
-- internal/app/metricsapp/service.go and ingest.go: how a run ends.
use honryu.Base.{
  Bool, true, false, ◌||◌, not, List, [], ◌∷◌, ◌++◌, map, Option, none, some, String, str_eq,
  if◌then◌else◌, is_empty,
}
use honryu.Base.Ints.{ℤ, pos, negsuc, ◌*ℤ◌, wrap64, eqb_ℤ, ltb_ℤ}
use honryu.Base.Floats.{Float64}
use honryu.Base.Maps.{lookup, lookup_or, store, delete}
use honryu.Base.Sorting.{sort_by}
use honryu.Base.Text.{chars, text_lt}
use honryu.Base.Times.{Time}
use honryu.Execution.{Execution}
use honryu.LoadMode.Staircase.{StaircaseStep, staircase_steps}
use honryu.LoadProfile.{Entry}
use honryu.Progress.{ProgressError, ShardState, shard_states, discard}
use honryu.Taurus.{Outcome, aborted, worst_outcome, outcome_from_exit_code, combine_outcomes}
use honryu.Run.{virtual_users_from}
use honryu.Report.Accumulator.{Accumulator}
use honryu.Report.Snapshots.{snapshot, restore}
use honryu.Report.Summary.{
  Load, StepLoad, Meta, Report, ClusterResult, ReportError, report, validate,
}
use honryu.Control.{
  Control, StepResult, RunRecord, OrphanCompletion, ClusterCounts, and_then, not_found,
  progress_err, report_err, save_err, threshold_err,
}

-- The exit code of a finished shard whose own never arrived.
abbrev pub exit_code_unknown : ℤ
exit_code_unknown = negsuc 0

abbrev pub code_or_unknown : Option ℤ → ℤ
code_or_unknown none = exit_code_unknown
code_or_unknown (some code) = code

-- The loop of `finalizeCompleted`.
unfoldable pub exit_codes : List ShardState → List ℤ
exit_codes [] = []
exit_codes (st ∷ states) = code_or_unknown st.exit_code ∷ exit_codes states

-- The loop of `stopOutcome`.
unfoldable pub finished_outcomes : List ShardState → List Outcome
finished_outcomes [] = []
finished_outcomes (st ∷ states) =
    let rest = finished_outcomes states in
    elim st.exit_code [
      | none ↦ rest
      | some code ↦ if st.finished then outcome_from_exit_code code ∷ rest else rest
    ]

-- The loop of `FinalizeOrphaned`.
unfoldable pub orphan_outcomes : List OrphanCompletion → List Outcome
orphan_outcomes [] = []
orphan_outcomes (oc ∷ orphans) =
    outcome_from_exit_code (code_or_unknown oc.exit_code) ∷ orphan_outcomes orphans

unfoldable pub has_named_cluster : List ClusterResult → Bool
has_named_cluster [] = false
has_named_cluster (r ∷ rows) = not (str_eq r.cluster "") || has_named_cluster rows

abbrev pub earlier_cluster : String × ClusterCounts → String × ClusterCounts → Bool
earlier_cluster a b = text_lt (chars a.0) (chars b.0)

-- A row of `clusterTally.snapshot`, with the outcome that `finalize` writes into it.
abbrev pub cluster_row : Outcome → String × ClusterCounts → ClusterResult
cluster_row outcome (cluster, counts) = record {
  cluster = cluster;
  outcome = outcome;
  samples = counts.samples;
  failed = counts.failed;
}

unfoldable pub tally_rows :
    Outcome → ℤ → List (ℤ × List (String × ClusterCounts)) → List ClusterResult
unfolding lookup_or
tally_rows outcome run runs =
    map (cluster_row outcome) (sort_by earlier_cluster (lookup_or eqb_ℤ [] run runs))

module _ (fl : Float64) where
  open fl use {F, of_int, add}

  -- The plateaus of an entry.
  unfoldable pub step_loads : Entry → List StaircaseStep → List (StepLoad F)
  step_loads e [] = []
  step_loads e (st ∷ steps) =
      record {
        index = pos st.index;
        throughput = of_int st.throughput;
        concurrency = wrap64 (st.concurrency *ℤ e.engines);
        duration_seconds = e.duration;
      }
      ∷ step_loads e steps

  abbrev pub longer : ℤ → ℤ → ℤ
  longer d longest = if ltb_ℤ longest d then d else longest

  -- One entry of `requestedLoad`'s loop.
  unfoldable pub request_entry : Entry → Load F → Load F
  unfolding step_loads
  request_entry e load =
      let throughput = add load.throughput (of_int e.throughput) in
      if ltb_ℤ (pos 1) e.steps
      then record load {
        throughput = throughput;
        steps = load.steps ++ step_loads e (staircase_steps fl e.concurrency e.throughput e.steps);
        duration_seconds = longer (wrap64 (e.duration *ℤ e.steps)) load.duration_seconds;
      }
      else record load {
        throughput = throughput;
        duration_seconds = longer e.duration load.duration_seconds;
      }

  unfoldable pub request_from : Load F → List Entry → Load F
  unfolding request_entry
  request_from load [] = load
  request_from load (e ∷ profile) = request_from (request_entry e load) profile

  unfoldable pub requested_load : List Entry → Load F
  unfolding request_from
  requested_load profile =
      request_from
        (record {
          concurrency = virtual_users_from (pos 0) profile;
          throughput = of_int (pos 0);
          duration_seconds = pos 0;
          steps = [];
          samples = pos 0;
          failed = pos 0;
        })
        profile

  -- `progress.Snapshot`, restored: of a run with no working state the empty one.
  unfoldable pub restored : ℤ → Control F → Accumulator F
  unfolding restore snapshot lookup
  restored run s = elim (lookup eqb_ℤ run s.progress.runs) [
    | none ↦ restore fl (record { labels = []; seconds = []; signatures = [] })
    | some r ↦ restore fl (snapshot r.acc)
  ]

  unfoldable pub meta_of : ℤ → ℤ → Outcome → Time → List Entry → RunRecord → Execution → Meta F
  unfolding requested_load
  meta_of execution run outcome now profile history exe = record {
    execution_id = execution;
    run_id = run;
    engine = exe.engine;
    cluster = exe.cluster;
    correlation_id = history.correlation_id;
    started_at = some history.started_time;
    ended_at = some now;
    requested = requested_load profile;
    outcome = outcome;
    scenario_id = elim profile [
      | [] ↦ pos 0
      | e ∷ rest ↦ if is_empty rest then e.scenario_id else pos 0
    ];
  }

  -- The report that `finalize` builds.
  unfoldable pub final_report : Meta F → Control F → Report F
  unfolding restored report tally_rows has_named_cluster
  final_report m s =
      let rep = report fl (restored m.run_id s) m in
      let rows = tally_rows m.outcome m.run_id s.tally in
      if has_named_cluster rows then record rep { cluster_results = rows } else rep

  -- `SaveReport`: the first report of a run is the one that survives.
  unfoldable pub save_checked :
      Option String → Option ReportError → Option (Report F) → Report F → Control F → StepResult F
  unfolding store
  save_checked (some e) invalid there rep s = (some (save_err e), s)
  save_checked none (some e) there rep s = (some (report_err e), s)
  save_checked none none (some _) rep s = (none, s)
  save_checked none none none rep s =
      let kept : Report F = record rep { starred = false; note = [] } in
      (none, record s { reports = store eqb_ℤ rep.identity.run_id kept s.reports })

  unfoldable pub save_report : Report F → Control F → StepResult F
  unfolding save_checked validate lookup
  save_report rep s =
      save_checked s.save_fails (validate rep) (lookup eqb_ℤ rep.identity.run_id s.reports) rep s

  -- `GetReport` without an error.
  unfoldable pub got_report : Option String → Option (Report F) → Bool
  got_report (some _) there = false
  got_report none none = false
  got_report none (some _) = true

  -- `StopRun`
  unfoldable pub end_record : Time → ℤ → Option RunRecord → Control F → Control F
  unfolding store
  end_record now run none s = s
  end_record now run (some rec) s =
      let ended : Option Time = elim rec.end_time [ none ↦ some now | some t ↦ some t ] in
      record s { run_history = store eqb_ℤ run (record rec { end_time = ended }) s.run_history }

  unfoldable pub stop_current : Time → ℤ → Option ℤ → Control F → Control F
  unfolding end_record lookup delete
  stop_current now execution none s = s
  stop_current now execution (some run) s =
      let ended : Control F = end_record now run (lookup eqb_ℤ run s.run_history) s in
      record ended { current_runs = delete eqb_ℤ execution s.current_runs }

  unfoldable pub stop_run : Time → ℤ → Control F → Control F
  unfolding stop_current lookup
  stop_run now execution s = stop_current now execution (lookup eqb_ℤ execution s.current_runs) s

  unfoldable pub close_current : Time → ℤ → ℤ → Option ℤ → Control F → Control F
  unfolding stop_run
  close_current now execution run none s = s
  close_current now execution run (some current) s =
      if eqb_ℤ current run then stop_run now execution s else s

  unfoldable pub close_run : Time → ℤ → ℤ → Control F → Control F
  unfolding close_current lookup
  close_run now execution run s =
      close_current now execution run (lookup eqb_ℤ execution s.current_runs) s

  -- What follows the discarding of the working state: the idle clock and the run's marker.
  unfoldable pub discarded : Time → ℤ → ℤ → Option ProgressError → Control F → StepResult F
  unfolding close_run store
  discarded now execution run (some e) s = (some (progress_err e), s)
  discarded now execution run none s =
      let touched : Control F = record s {
        last_activity = store eqb_ℤ execution now s.last_activity;
      } in
      (none, close_run now execution run touched)

  unfoldable pub clean_up : Time → ℤ → ℤ → Control F → StepResult F
  unfolding discard discarded
  clean_up now execution run s =
      let (e, progress) = discard run s.progress in
      discarded now execution run e (record s { progress = progress })

  -- The notifier and the grader of thresholds, which is another use case: what it returns is an
  -- argument.
  unfoldable pub announce : Bool → Option String → ℤ → Report F → Control F → StepResult F
  announce true graded project rep s = (none, s)
  announce false none project rep s =
      (none, record s { notified = s.notified ++ (project, rep) ∷ [] })
  announce false (some e) project rep s =
      (some (threshold_err e), record s { notified = s.notified ++ (project, rep) ∷ [] })

  -- `finalize` past its reads.
  unfoldable pub finalize_with :
      (Report F → Option String) → Time → ℤ → ℤ → Execution → Report F → Control F → StepResult F
  unfolding save_report announce clean_up got_report lookup
  finalize_with grade now execution run exe rep s =
      let again = got_report s.get_fails (lookup eqb_ℤ run s.reports) in
      and_then (and_then (save_report rep s) (announce again (grade rep) exe.project_id rep))
        (clean_up now execution run)

  unfoldable pub finalize_found :
      (Report F → Option String)
      → Time
      → ℤ
      → ℤ
      → Outcome
      → Option RunRecord
      → Option Execution
      → Control F
      → StepResult F
  unfolding finalize_with final_report meta_of lookup_or
  finalize_found grade now execution run outcome none exe s = (some not_found, s)
  finalize_found grade now execution run outcome (some history) none s = (some not_found, s)
  finalize_found grade now execution run outcome (some history) (some exe) s =
      let profile = lookup_or eqb_ℤ [] execution s.profiles in
      let m = meta_of execution run outcome now profile history exe in
      finalize_with grade now execution run exe (final_report m s) s

  unfoldable pub finalize :
      (Report F → Option String) → Time → ℤ → ℤ → Outcome → Control F → StepResult F
  unfolding finalize_found lookup
  finalize grade now execution run outcome s =
      finalize_found grade now execution run outcome (lookup eqb_ℤ run s.run_history)
        (lookup eqb_ℤ execution s.executions) s

  -- `finalizeCompleted`
  unfoldable pub finalize_completed :
      (Report F → Option String) → Time → ℤ → ℤ → Control F → StepResult F
  unfolding finalize exit_codes shard_states combine_outcomes
  finalize_completed grade now execution run s =
      finalize grade now execution run (combine_outcomes (exit_codes (shard_states run s.progress)))
        s

  unfoldable pub stop_outcome : ℤ → Control F → Outcome
  unfolding finished_outcomes shard_states worst_outcome
  stop_outcome run s = worst_outcome (aborted ∷ finished_outcomes (shard_states run s.progress))

  -- `Finalize` and `FinalizeOrphaned`
  unfoldable pub finalize_stopped :
      (Report F → Option String) → Time → ℤ → ℤ → Control F → StepResult F
  unfolding finalize stop_outcome
  finalize_stopped grade now execution run s =
      finalize grade now execution run (stop_outcome run s) s

  unfoldable pub finalize_orphaned :
      (Report F → Option String) → Time → ℤ → ℤ → List OrphanCompletion → Control F → StepResult F
  unfolding finalize orphan_outcomes worst_outcome
  finalize_orphaned grade now execution run orphans s =
      finalize grade now execution run (worst_outcome (aborted ∷ orphan_outcomes orphans)) s
