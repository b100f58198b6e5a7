-- ===== src/Progress/Streams.antt =====
-- A shard's stream, as a batch finds it and as it leaves it.
use honryu.Base.{String, str_eq_iff, ap, ◌≡◌, refl, List, Option, none, some, arith, ◌∙◌}
use honryu.Base.Ints.{ℤ}
use honryu.Base.Maps.{lookup-same, lookup, store}
use honryu.Metrics.{Interval}
use honryu.Progress.{
  ProgressBatch, ProgressRun, ShardStream, Tally, absorb_from, stream_of, close, absorb_run,
  shard_key, same_shard,
}
use honryu.Progress.Keyed.{same_shard_iff}

module _ {F : Type 0} (t : Tally F) where
  open t use {Acc, Series, absorb_series}

  -- What absorbing a batch leaves of a run, in terms of the shard's stream as it is found.
  abbrev pub absorbed_at :
      ProgressBatch F → ProgressRun Acc → ShardStream → ProgressRun Acc × List (Interval F)
  absorbed_at b run shard =
      let (seq, acc, fresh) = absorb_from t shard.seq run.acc b.intervals in
      (
        record {
          acc = acc;
          shards = store same_shard (shard_key t b) (close t b seq shard) run.shards;
        },
        fresh,
      )

  abbrev pub stream_before : ProgressBatch F → ProgressRun Acc → ShardStream
  stream_before b run = stream_of t b.stream_id (lookup same_shard (shard_key t b) run.shards)

  pub absorb_run-absorbed_at :
      (b : ProgressBatch F) (run : ProgressRun Acc) (shard : ShardStream)
      → stream_before b run ≡ shard
      → absorb_run t b run ≡ absorbed_at b run shard
  unfolding absorb_run
  absorb_run-absorbed_at b run shard e = ap (absorbed_at b run) e

  pub stream_of-stream_id :
      (stream : String) (o : Option ShardStream) → (stream_of t stream o).stream_id ≡ stream
  unfolding stream_of
  stream_of-stream_id stream none = refl
  stream_of-stream_id stream (some shard) = ground (arith, str_eq_iff shard.stream_id stream)

  stream_of-same :
      (stream : String) (shard : ShardStream)
      → shard.stream_id ≡ stream
      → stream_of t stream (some shard) ≡ shard
  unfolding stream_of
  stream_of-same stream shard e = ground (arith, str_eq_iff shard.stream_id stream)

  -- The stream that a batch leaves is the one that the next batch of its sidecar finds.
  pub stream_left :
      (b : ProgressBatch F) (run : ProgressRun Acc)
      → let shard = stream_before b run in
        stream_before b (absorb_run t b run).0
        ≡ close t b (absorb_from t shard.seq run.acc b.intervals).0 shard
  unfolding absorb_run close
  stream_left b run =
      let shard = stream_before b run in
      let left = close t b (absorb_from t shard.seq run.acc b.intervals).0 shard in
      ap (stream_of t b.stream_id)
        (lookup-same same_shard same_shard_iff (shard_key t b) left run.shards)
      ∙ stream_of-same b.stream_id left
          (stream_of-stream_id b.stream_id (lookup same_shard (shard_key t b) run.shards))

  pub close-close :
      (b : ProgressBatch F) (w : ℤ) (shard : ShardStream)
      → close t b w (close t b w shard) ≡ close t b w shard
  unfolding close
  close-close b w shard = ground arith
