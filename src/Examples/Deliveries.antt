-- ===== src/Examples/Deliveries.antt =====
-- A sidecar whose push is absorbed twice. A line of n characters reads as a measurement of second n.
use mathlib.Core.List.{append-nil}
use honryu.Base.{ℕ, ◌≡◌, refl, false, List, [], ◌∷◌, ◌++◌, Option, none, some, length}
use honryu.Base.Ints.{ℤ, pos}
use honryu.Base.Maps.{lookup, store}
use honryu.Base.Text.{Text, is_space, trim_left, trim_space}
use honryu.Metrics.{Interval, Batch}
use honryu.Progress.{
  Tally, ProgressBatch, ProgressRun, ReportProgress, absorb, absorb_from, absorb_run, stream_of,
  close,
}
use honryu.Progress.Retry.{absorb-twice}
use honryu.Sidecar.{
  Identity, Sidecar, batch_of, consume, consume_from, drain, drop, read, relabel, stamp,
}
use honryu.Sidecar.Chunks.{concat, drain-concat}
use honryu.Delivery.{Delivers, starts, reads, answer_lost, progress_batch}
use honryu.Delivery.Once.{exactly_once}

abbrev sample : ℕ → ℤ → Interval ℕ
sample second seq = record {
  seq = seq;
  timestamp = pos second;
  label = "home";
  concurrency = pos 1;
  samples = pos 1;
  succeeded = pos 1;
  failed = pos 0;
  bytes = pos 100;
  latency = [];
  response_codes = [];
  errors = [];
}

abbrev unmarshal : Text → Option (Interval ℕ)
unmarshal line = some (sample (length line) (pos 0))

-- Everything that was counted, in order.
abbrev journal : Tally ℕ
journal = record {
  Acc = List (Interval ℕ);
  Series = List (Interval ℕ);
  new_accumulator = [];
  add = λ iv acc. acc ++ iv ∷ [];
  absorb_series = λ run ivs s. s ++ ivs;
  absorb_nothing = λ run ivs s. append-nil (s ++ ivs);
}

abbrev pod : Identity
pod = record { execution_id = pos 1; scenario_id = pos 2; run_id = pos 3; shard_index = pos 0 }

abbrev sidecar : List (Interval ℕ) → Text → ℕ → Sidecar ℕ
sidecar pending carry seq = record {
  pending = pending;
  carry = carry;
  sent = 0;
  seq = seq;
  stream_id = "first";
  exit_code = none;
}

-- Two characters, the end of their line, and the beginning of another line.
abbrev bytes : Text
bytes = 97 ∷ 97 ∷ 10 ∷ 98 ∷ []

abbrev one : List (Interval ℕ)
one = sample 2 (pos 1) ∷ []

abbrev two : List (Interval ℕ)
two = sample 2 (pos 1) ∷ sample 1 (pos 2) ∷ []

drain-concat_example :
    drain unmarshal [] (bytes ∷ (10 ∷ []) ∷ []) (sidecar [] [] 0)
    ≡ read unmarshal [] (concat (bytes ∷ (10 ∷ []) ∷ [])) (sidecar [] [] 0)
drain-concat_example = drain-concat unmarshal [] (bytes ∷ (10 ∷ []) ∷ []) (sidecar [] [] 0) tt

first_line : sidecar one (98 ∷ []) 1 ≡ read unmarshal [] bytes (sidecar [] [] 0)
unfolding read consume_from consume stamp relabel lookup trim_space trim_left is_space
first_line = refl

second_line : sidecar two [] 2 ≡ read unmarshal [] (10 ∷ []) (sidecar one (98 ∷ []) 1)
unfolding read consume_from consume stamp relabel lookup trim_space trim_left is_space
second_line = refl

abbrev push : List (Interval ℕ) → Batch ℕ
push ivs = record {
  execution_id = pos 1;
  scenario_id = pos 2;
  run_id = pos 3;
  shard_index = pos 0;
  stream_id = "first";
  intervals = ivs;
  cluster = "";
  final = false;
  exit_code = none;
}

sends_one : batch_of pod false (sidecar one (98 ∷ []) 1) ≡ some (push one)
unfolding batch_of
sends_one = refl

sends_two : batch_of pod false (sidecar two [] 2) ≡ some (push two)
unfolding batch_of
sends_two = refl

abbrev run : List (Interval ℕ) → ℤ → ProgressRun (List (Interval ℕ))
run acc seq = record {
  acc = acc;
  shards =
      (
        record { scenario_id = pos 2; cluster = ""; shard_index = pos 0 },
        record { stream_id = "first"; seq = seq; finished = false; exit_code = none },
      )
      ∷ [];
}

abbrev new_run : ProgressRun (List (Interval ℕ))
new_run = record { acc = []; shards = [] }

-- The push of the first interval is absorbed, and its answer is lost.
lost : Delivers journal unmarshal [] pod (pos 3) (sidecar one (98 ∷ []) 1) (run one (pos 1)) one one
unfolding absorb_run absorb_from stream_of close lookup store progress_batch drop
lost =
    answer_lost new_run [] false (push one)
      (reads (sidecar [] [] 0) [] bytes (starts refl refl refl refl refl) first_line refl) sends_one
      refl refl

retried : Delivers journal unmarshal [] pod (pos 3) (sidecar two [] 2) (run one (pos 1)) one two
unfolding drop
retried = reads (sidecar one (98 ∷ []) 1) one (10 ∷ []) lost second_line refl

exactly_once_example :
    (rest : List (Interval ℕ)) × (already : List (Interval ℕ)) × (two ≡ one ++ rest)
    × (two ≡ already ++ rest)
exactly_once_example =
    exactly_once journal pod unmarshal [] (pos 3) (sidecar two [] 2) (run one (pos 1)) one two
      retried

abbrev first_batch : ProgressBatch ℕ
first_batch = record {
  run_id = pos 3;
  scenario_id = pos 2;
  shard_index = pos 0;
  cluster = "";
  stream_id = "first";
  final = false;
  exit_code = none;
  intervals = one;
}

abbrev empty_store : ReportProgress (List (Interval ℕ)) (List (Interval ℕ))
empty_store = record { runs = []; series = []; fails = none; discard_fails = none }

absorb-twice_example :
    absorb journal first_batch (absorb journal first_batch empty_store).1
    ≡ absorb journal first_batch empty_store
absorb-twice_example = absorb-twice journal first_batch empty_store
