-- ===== src/Sidecar.antt =====
-- internal/sidecar/sidecar.go: the process beside an engine that reads its stream of measurements and
-- pushes them to the control plane in batches.
pub mod Chunks
use honryu.Base.{
  ℕ, zero, suc, ◌+◌, ◌-◌, ◌*◌, ◌^◌, Bool, true, false, ◌&&◌, not, List, [], ◌∷◌, ◌++◌, Option, none,
  some, String, str_eq, if◌then◌else◌, is_empty, leb, ltb, ◌==◌, length, ap,
}
use honryu.Base.Ints.{ℤ, pos, negsuc, sub_ℕ}
use honryu.Base.Maps.{lookup}
use honryu.Base.Text.{atoi, Text, newline, trim_space}
use honryu.Metrics.{Interval, Batch}

pub record Identity : Type 0 where
  pub execution_id : ℤ
  pub scenario_id : ℤ
  pub run_id : ℤ
  pub shard_index : ℤ

-- The state; `seq` counts from one and stays far below the largest `int64`.
pub record Sidecar (F : Type 0) : Type 0 where
  pub pending : List (Interval F)
  pub carry : Text
  pub sent : ℕ
  pub seq : ℕ
  pub stream_id : String
  pub exit_code : Option ℤ

module _ {F : Type 0} where
  -- The file's code, once it holds one.
  unfoldable pub observe_exit : Option ℤ → Sidecar F → Bool × Sidecar F
  observe_exit none s = (false, s)
  observe_exit (some code) s = (true, record s { exit_code = some code })

  -- `checkExitCode`, with the configured path and what reading the file gives.
  unfoldable pub check_exit_code : String → Option Text → Sidecar F → Bool × Sidecar F
  unfolding atoi trim_space observe_exit
  check_exit_code path none s = (false, s)
  check_exit_code path (some raw) s =
      if str_eq path "" then (false, s) else observe_exit (atoi (trim_space raw)) s

  -- What `flush` sends, if it sends anything.
  unfoldable pub batch_of : Identity → Bool → Sidecar F → Option (Batch F)
  batch_of id final s =
      if is_empty s.pending && not final
      then none
      else some (record {
        execution_id = id.execution_id;
        scenario_id = id.scenario_id;
        run_id = id.run_id;
        shard_index = id.shard_index;
        stream_id = s.stream_id;
        intervals = s.pending;
        cluster = "";
        final = final;
        exit_code = s.exit_code;
      })

  unfoldable pub drop : ℕ → List (Interval F) → List (Interval F)
  drop zero ivs = ivs
  drop (suc n) [] = []
  drop (suc n) (iv ∷ ivs) = drop n ivs

  -- The end of `flush`, after a push that was answered with success: what was sent is dropped.
  unfoldable pub settle : List (Interval F) → Sidecar F → Sidecar F
  unfolding drop
  settle intervals s = record s {
    pending =
        if leb (length intervals) (length s.pending) then drop (length intervals) s.pending else [];
    sent = suc s.sent;
  }

  -- `json.Unmarshal` of an interval, and the configured label map.
  module _ (unmarshal : Text → Option (Interval F)) (label_map : List (String × String)) where
    unfoldable pub relabel : String → String
    unfolding lookup
    relabel label = elim (lookup str_eq label label_map) [ some mapped ↦ mapped | none ↦ label ]

    unfoldable pub stamp : Interval F → Sidecar F → Sidecar F
    unfolding relabel
    stamp iv s =
        let numbered = record iv { label = relabel iv.label; seq = pos (suc s.seq) } in
        record s { seq = suc s.seq; pending = s.pending ++ numbered ∷ [] }

    unfoldable pub consume : Text → Sidecar F → Sidecar F
    unfolding trim_space stamp
    consume line s =
        let trimmed = trim_space line in
        if is_empty trimmed then s else elim (unmarshal trimmed) [ none ↦ s | some iv ↦ stamp iv s ]

    -- `consumeLines`, with the beginning of the current line and the rest of the carry buffer.
    unfoldable pub consume_from : Text → Text → Sidecar F → Sidecar F
    unfolding consume
    consume_from line [] s = record s { carry = line }
    consume_from line (c ∷ cs) s = elim (c == newline) [
      | true ↦ consume_from [] cs (consume line s)
      | false ↦ consume_from (line ++ c ∷ []) cs s
    ]

    -- One read of `drain`: the bytes join the carry buffer, and its complete lines are consumed.
    unfoldable pub read : Text → Sidecar F → Sidecar F
    unfolding consume_from
    read bytes s = consume_from [] (s.carry ++ bytes) s

    -- `drain`, with the bytes of each read.
    unfoldable pub drain : List Text → Sidecar F → Sidecar F
    unfolding read
    drain [] s = s
    drain (bytes ∷ reads) s = drain reads (read bytes s)
