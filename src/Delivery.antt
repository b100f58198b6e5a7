-- ===== src/Delivery.antt =====
-- A sidecar of internal/sidecar/sidecar.go that pushes to the working state of
-- internal/ports/fake/reportprogress.go, by way of internal/app/metricsapp/ingest.go.
pub mod Numbers
pub mod Tracks
pub mod Steps
pub mod Once
use honryu.Base.{◌≡◌, List, [], ◌∷◌, ◌++◌, Option, none, some, String, Bool, length}
use honryu.Base.Ints.{ℤ}
use honryu.Base.Maps.{lookup}
use honryu.Base.Text.{Text}
use honryu.Metrics.{Interval, Batch}
use honryu.Progress.{Tally, ProgressBatch, ProgressRun, ShardKey, absorb_run, same_shard}
use honryu.Sidecar.{Identity, Sidecar, batch_of, drop, read, settle}

-- What `Ingest` hands on of a batch for the execution's current run.
module _ {F : Type 0} where
  unfoldable pub progress_batch : ℤ → Batch F → ProgressBatch F
  progress_batch run_id b = record {
    run_id = run_id;
    scenario_id = b.scenario_id;
    shard_index = b.shard_index;
    cluster = b.cluster;
    stream_id = b.stream_id;
    final = b.final;
    exit_code = b.exit_code;
    intervals = b.intervals;
  }

module _ {F : Type 0} (t : Tally F) where
  open t use {Acc}

  -- The pod of a sidecar in its run.
  abbrev pub key_of : Identity → ShardKey
  key_of id = record { scenario_id = id.scenario_id; cluster = ""; shard_index = id.shard_index }

  abbrev pub absorb_batch : ℤ → Batch F → ProgressRun Acc → ProgressRun Acc × List (Interval F)
  absorb_batch run_id b run = absorb_run t (progress_batch run_id b) run

  module _ (unmarshal : Text → Option (Interval F)) (label_map : List (String × String))
      (id : Identity) (run_id : ℤ) where
    -- A sidecar and a run, from the sidecar's start on, with the intervals that were counted of it and
    -- those that it measured, in order. A push may be lost on its way, which changes nothing; it may be
    -- absorbed and its answer be lost; or it is absorbed and answered. Between its pushes the run
    -- absorbs other pods' batches.
    pub data Delivers
        : Sidecar F → ProgressRun Acc → List (Interval F) → List (Interval F) → Type 0 where
      starts :
          {s : Sidecar F} {run : ProgressRun Acc} {counted measured : List (Interval F)}
          → s.pending ≡ []
          → s.seq ≡ 0
          → lookup same_shard (key_of id) run.shards ≡ none
          → counted ≡ []
          → measured ≡ []
          → Delivers s run counted measured
      reads :
          {s : Sidecar F} {run : ProgressRun Acc} {counted measured : List (Interval F)}
          (before : Sidecar F) (already : List (Interval F)) (bytes : Text)
          → Delivers before run counted already
          → s ≡ read unmarshal label_map bytes before
          → measured ≡ already ++ drop (length before.pending) s.pending
          → Delivers s run counted measured
      others :
          {s : Sidecar F} {run : ProgressRun Acc} {counted measured : List (Interval F)}
          (before : ProgressRun Acc)
          → Delivers s before counted measured
          → lookup same_shard (key_of id) run.shards ≡ lookup same_shard (key_of id) before.shards
          → Delivers s run counted measured
      answer_lost :
          {s : Sidecar F} {run : ProgressRun Acc} {counted measured : List (Interval F)}
          (before : ProgressRun Acc) (already : List (Interval F)) (final : Bool) (b : Batch F)
          → Delivers s before already measured
          → batch_of id final s ≡ some b
          → run ≡ (absorb_batch run_id b before).0
          → counted ≡ already ++ (absorb_batch run_id b before).1
          → Delivers s run counted measured
      answered :
          {s : Sidecar F} {run : ProgressRun Acc} {counted measured : List (Interval F)}
          (sender : Sidecar F) (before : ProgressRun Acc) (already : List (Interval F))
          (final : Bool) (b : Batch F)
          → Delivers sender before already measured
          → batch_of id final sender ≡ some b
          → s ≡ settle b.intervals sender
          → run ≡ (absorb_batch run_id b before).0
          → counted ≡ already ++ (absorb_batch run_id b before).1
          → Delivers s run counted measured
