-- ===== src/Progress.antt =====
-- internal/ports/reportprogress.go and internal/ports/fake/reportprogress.go: the working state of a
-- run's report, which the shards' batches are absorbed into.
pub mod Keyed
pub mod Watermark
pub mod Streams
pub mod Retry
use honryu.Base.{
  Bool, true, false, ◌&&◌, not, map, List, [], ◌∷◌, Option, none, some, ◌≡◌, String, str_eq,
  if◌then◌else◌,
}
use honryu.Base.Ints.{ℤ, pos, eqb_ℤ, leb_ℤ, ltb_ℤ, nonpos}
use honryu.Base.Sorting.{sort_by}
use honryu.Base.Text.{chars, text_lt}
use honryu.Base.Maps.{lookup, store, delete}
use honryu.Metrics.{Interval}

pub record ProgressBatch (F : Type 0) : Type 0 where
  pub run_id : ℤ
  pub scenario_id : ℤ
  pub shard_index : ℤ
  pub cluster : String
  pub stream_id : String
  pub final : Bool
  pub exit_code : Option ℤ
  pub intervals : List (Interval F)

-- The errors of `Validate`, the last with the values that it quotes, and the error that a test may
-- set on the store.
pub data ProgressError : Type 0 where
  run_required scenario_required : ProgressError
  unsequenced_batch : ℤ → ℤ → String → ProgressError
  absorb_err : String → ProgressError

module _ {F : Type 0} where
  -- The loop of `Validate`.
  unfoldable pub validate_intervals : ℤ → List (Interval F) → Option ProgressError
  validate_intervals shard [] = none
  validate_intervals shard (iv ∷ ivs) =
      let rest = validate_intervals shard ivs in
      if nonpos iv.seq then some (unsequenced_batch shard iv.timestamp iv.label) else rest

  unfoldable pub validate : ProgressBatch F → Option ProgressError
  unfolding validate_intervals
  validate b =
      if nonpos b.run_id
      then some run_required
      else if nonpos b.scenario_id
      then some scenario_required
      else validate_intervals b.shard_index b.intervals

pub record ShardKey : Type 0 where
  pub scenario_id : ℤ
  pub cluster : String
  pub shard_index : ℤ

abbrev pub same_shard : ShardKey → ShardKey → Bool
same_shard j k =
    eqb_ℤ j.scenario_id k.scenario_id
    && str_eq j.cluster k.cluster
    && eqb_ℤ j.shard_index k.shard_index

pub record ShardStream : Type 0 where
  pub stream_id : String
  pub seq : ℤ
  pub finished : Bool
  pub exit_code : Option ℤ

pub record ProgressRun (A : Type 0) : Type 0 where
  pub acc : A
  pub shards : List (ShardKey × ShardStream)

-- What the store keeps of measurements: a run's accumulator and the permanent series of all runs.
-- Extending a series by nothing changes none that was extended before.
pub record Tally (F : Type 0) : Type 1 where
  pub Acc : Type 0
  pub Series : Type 0
  pub new_accumulator : Acc
  pub add : Interval F → Acc → Acc
  pub absorb_series : ℤ → List (Interval F) → Series → Series
  pub absorb_nothing :
      (run : ℤ) (ivs : List (Interval F)) (s : Series)
      → absorb_series run [] (absorb_series run ivs s) ≡ absorb_series run ivs s

pub record ReportProgress (A S : Type 0) : Type 0 where
  pub runs : List (ℤ × ProgressRun A)
  pub series : S
  pub fails : Option String
  pub discard_fails : Option String

module _ {F : Type 0} (t : Tally F) where
  open t use {Acc, Series, new_accumulator, add, absorb_series}

  -- The loop of `Absorb`: the watermark, the accumulator and the fresh intervals.
  unfoldable pub absorb_from : ℤ → Acc → List (Interval F) → ℤ × Acc × List (Interval F)
  absorb_from seq acc [] = (seq, acc, [])
  absorb_from seq acc (iv ∷ ivs) = elim (leb_ℤ iv.seq seq) [
    | true ↦ absorb_from seq acc ivs
    | false ↦
        let (seq', acc', fresh) = absorb_from iv.seq (add iv acc) ivs in (seq', acc', iv ∷ fresh)
  ]

  -- The run and the shard's stream that `Absorb` finds or makes, the latter reset when the batch comes
  -- from another stream.
  unfoldable pub run_of : Option (ProgressRun Acc) → ProgressRun Acc
  run_of (some run) = run
  run_of none = record { acc = new_accumulator; shards = [] }

  unfoldable pub stream_of : String → Option ShardStream → ShardStream
  stream_of stream none = record {
    stream_id = stream;
    seq = pos 0;
    finished = false;
    exit_code = none;
  }
  stream_of stream (some shard) =
      if str_eq shard.stream_id stream
      then shard
      else record shard { stream_id = stream; seq = pos 0 }

  abbrev pub shard_key : ProgressBatch F → ShardKey
  shard_key b = record {
    scenario_id = b.scenario_id;
    cluster = b.cluster;
    shard_index = b.shard_index;
  }

  -- The two last assignments of `Absorb`.
  unfoldable pub close : ProgressBatch F → ℤ → ShardStream → ShardStream
  close b seq shard = record shard {
    seq = seq;
    finished = if b.final then true else shard.finished;
    exit_code = elim b.exit_code [ some code ↦ some code | none ↦ shard.exit_code ];
  }

  -- A valid batch, absorbed into a run.
  unfoldable pub absorb_run :
      ProgressBatch F → ProgressRun Acc → ProgressRun Acc × List (Interval F)
  unfolding absorb_from stream_of close lookup store
  absorb_run b run =
      let shard = stream_of b.stream_id (lookup same_shard (shard_key b) run.shards) in
      let (seq, acc, fresh) = absorb_from shard.seq run.acc b.intervals in
      (
        record {
          acc = acc;
          shards = store same_shard (shard_key b) (close b seq shard) run.shards;
        },
        fresh,
      )

  -- `Absorb` past its checks.
  unfoldable pub absorb_valid :
      ProgressBatch F → ReportProgress Acc Series → ReportProgress Acc Series
  unfolding absorb_run run_of lookup store
  absorb_valid b p =
      let (run, fresh) = absorb_run b (run_of (lookup eqb_ℤ b.run_id p.runs)) in
      record p {
        runs = store eqb_ℤ b.run_id run p.runs;
        series = absorb_series b.run_id fresh p.series;
      }

  unfoldable pub absorb_checked :
      Option String
      → Option ProgressError
      → ProgressBatch F
      → ReportProgress Acc Series
      → Option ProgressError × ReportProgress Acc Series
  unfolding absorb_valid
  absorb_checked (some e) invalid b p = (some (absorb_err e), p)
  absorb_checked none (some e) b p = (some e, p)
  absorb_checked none none b p = (none, absorb_valid b p)

  unfoldable pub absorb :
      ProgressBatch F → ReportProgress Acc Series → Option ProgressError × ReportProgress Acc Series
  unfolding absorb_checked validate
  absorb b p = absorb_checked p.fails (validate b) b p

-- A `ShardState`.
pub record ShardState : Type 0 where
  pub scenario_id : ℤ
  pub cluster : String
  pub shard_index : ℤ
  pub finished : Bool
  pub exit_code : Option ℤ

abbrev pub shard_state : ShardKey × ShardStream → ShardState
shard_state (key, shard) = record {
  scenario_id = key.scenario_id;
  cluster = key.cluster;
  shard_index = key.shard_index;
  finished = shard.finished;
  exit_code = shard.exit_code;
}

abbrev pub earlier_shard : ShardState → ShardState → Bool
earlier_shard a b =
    if not (eqb_ℤ a.scenario_id b.scenario_id)
    then ltb_ℤ a.scenario_id b.scenario_id
    else if not (str_eq a.cluster b.cluster)
    then text_lt (chars a.cluster) (chars b.cluster)
    else ltb_ℤ a.shard_index b.shard_index

module _ {A S : Type 0} where
  unfoldable pub shard_states : ℤ → ReportProgress A S → List ShardState
  unfolding lookup
  shard_states run p = elim (lookup eqb_ℤ run p.runs) [
    | none ↦ []
    | some r ↦ sort_by earlier_shard (map shard_state r.shards)
  ]

  unfoldable pub discard_with :
      Option String → ℤ → ReportProgress A S → Option ProgressError × ReportProgress A S
  unfolding delete
  discard_with (some e) run p = (some (absorb_err e), p)
  discard_with none run p = (none, record p { runs = delete eqb_ℤ run p.runs })

  unfoldable pub discard : ℤ → ReportProgress A S → Option ProgressError × ReportProgress A S
  unfolding discard_with
  discard run p = discard_with p.discard_fails run p
