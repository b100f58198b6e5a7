-- ===== src/Control/Ingest.antt =====
-- internal/app/metricsapp/ingest.go: Ingest, which absorbs a pod's batch and ends the run with the last
-- of them.
use honryu.Base.{
  ℕ, ◌+◌, Bool, true, false, ◌&&◌, not, List, [], ◌∷◌, Option, none, some, String, if◌then◌else◌,
  length,
}
use honryu.Base.Ints.{ℤ, pos, ◌+ℤ◌, ◌*ℤ◌, wrap64, eqb_ℤ, leb_ℤ}
use honryu.Base.Floats.{Float64}
use honryu.Base.Maps.{lookup, lookup_or, store, delete}
use honryu.Base.Times.{Time}
use honryu.Delivery.{progress_batch}
use honryu.Execution.{Execution, is_fan_out}
use honryu.LoadProfile.{Entry}
use honryu.Metrics.{Batch}
use mathlib.Core.Option.{map}
use honryu.Progress.{ProgressError, ShardState, shard_states, absorb}
use honryu.Progress as Progress
use honryu.Report.Series.Stored.{report_tally}
use honryu.Report.Summary.{Report}
use honryu.Control.{
  Control, StepResult, OrphanKey, OrphanCompletion, and_then, same_orphan, show_all, no_active_run,
  stale_run, not_found, progress_err,
}
use honryu.Control.Finalize.{finalize_completed}

-- The loops of `allShardsFinished`.
unfoldable pub finished_shards : ℕ → List ShardState → ℕ
finished_shards n [] = n
finished_shards n (st ∷ states) = finished_shards (if st.finished then n + 1 else n) states

unfoldable pub planned_engines : ℤ → List Entry → ℤ
planned_engines n [] = n
planned_engines n (e ∷ profile) = planned_engines (wrap64 (n +ℤ e.engines)) profile

-- The shards that a run waits for: those of its profile, on every target cluster.
unfoldable pub awaited : ℤ → Execution → ℤ
unfolding is_fan_out
awaited planned exe =
    if is_fan_out exe then wrap64 (planned *ℤ pos (length exe.fan_out_targets)) else planned

-- The comparison that ends `allShardsFinished`: `none` where the execution is not found.
unfoldable pub enough : ℤ → ℤ → Option Execution → Option Bool
unfolding awaited
enough planned finished none = none
enough planned finished (some exe) = some (leb_ℤ (awaited planned exe) finished)

module _ {F : Type 0} where
  unfoldable pub all_shards_finished : ℤ → ℤ → Control F → Option Bool
  unfolding finished_shards planned_engines shard_states enough lookup lookup_or
  all_shards_finished execution run s =
      let finished = pos (finished_shards 0 (shard_states run s.progress)) in
      let planned = planned_engines (pos 0) (lookup_or eqb_ℤ [] execution s.profiles) in
      let comparison = enough planned finished (lookup eqb_ℤ execution s.executions) in
      if eqb_ℤ planned (pos 0) then some false else comparison

  -- `RecordOrphanCompletion`, of a batch that is final.
  unfoldable pub record_orphan : Time → Batch F → Control F → Control F
  unfolding lookup_or store
  record_orphan now b s =
      let by_shard = lookup_or eqb_ℤ [] b.execution_id s.orphans in
      let oc : OrphanCompletion = record {
        execution_id = b.execution_id;
        scenario_id = b.scenario_id;
        shard_index = b.shard_index;
        exit_code = b.exit_code;
        finished_at = now;
      } in
      let key : OrphanKey = record { scenario_id = b.scenario_id; shard = b.shard_index } in
      if b.final
      then record s {
        orphans = store eqb_ℤ b.execution_id (store same_orphan key oc by_shard) s.orphans;
      }
      else s

  -- What the service forgets of a run that is over.
  unfoldable pub forget : ℤ → ℤ → Control F → Control F
  unfolding delete
  forget execution run s = record s {
    seen = delete eqb_ℤ execution s.seen;
    tally = delete eqb_ℤ run s.tally;
  }

module _ (fl : Float64) (grade : Report fl.F → Option String) where
  open fl use {F}

  unfoldable pub absorb_batch : Batch F → ℤ → Control F → StepResult F
  unfolding absorb progress_batch
  absorb_batch b run s =
      let (e, progress) = absorb (report_tally fl) (progress_batch run b) s.progress in
      (map progress_err e, record s { progress = progress })

  -- The end of a run with the last batch of its last shard.
  unfoldable pub complete_if : Time → ℤ → ℤ → Option Bool → Control F → StepResult F
  unfolding finalize_completed forget
  complete_if now execution run none s = (some not_found, s)
  complete_if now execution run (some false) s = (none, s)
  complete_if now execution run (some true) s =
      and_then (finalize_completed fl grade now execution run s)
        (λ s. (none, forget execution run s))

  unfoldable pub complete : Bool → Time → ℤ → ℤ → Control F → StepResult F
  unfolding complete_if all_shards_finished
  complete false now execution run s = (none, s)
  complete true now execution run s =
      complete_if now execution run (all_shards_finished execution run s) s

  unfoldable pub ingest_valid : Option ProgressError → Time → Batch F → ℤ → Control F → StepResult F
  unfolding show_all absorb_batch complete
  ingest_valid (some e) now b run s = (some (progress_err e), s)
  ingest_valid none now b run s =
      and_then (absorb_batch b run (show_all fl b run b.intervals s))
        (complete b.final now b.execution_id run)

  unfoldable pub ingest_run : Option ℤ → Time → Batch F → Control F → StepResult F
  unfolding ingest_valid progress_batch Progress.validate record_orphan
  ingest_run none now b s = (some (no_active_run b.execution_id), record_orphan now b s)
  ingest_run (some run) now b s =
      if not (eqb_ℤ b.run_id (pos 0)) && not (eqb_ℤ b.run_id run)
      then (some (stale_run b.run_id run), s)
      else ingest_valid (Progress.validate (progress_batch run b)) now b run s

  -- `Ingest`
  unfoldable pub ingest : Time → Batch F → Control F → StepResult F
  unfolding ingest_run lookup
  ingest now b s = ingest_run (lookup eqb_ℤ b.execution_id s.current_runs) now b s
