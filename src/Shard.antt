-- ===== src/Shard.antt =====
-- internal/domain/shard/shard.go: one scenario's load divided across engine pods.
pub mod Share
pub mod Totals
pub mod Pods
use honryu.Base.{
  ℕ, zero, suc, ◌+◌, Bool, true, false, List, [], ◌∷◌, if◌then◌else◌, Result, ok, err,
}
use honryu.Base.Ints.{ℤ, pos, pos_part, ◌+ℤ◌, ltb_ℤ, nonpos, quot, rem, wrap64}
use honryu.LoadProfile.{Entry}

-- `ErrShardsInvalid` and `ErrConcurrencyInvalid`, with the value that the message quotes.
pub data ShardError : Type 0 where
  shards_invalid : ℤ → ShardError
  concurrency_invalid : ℤ → ShardError

pub record Shard : Type 0 where
  pub index : ℕ
  pub concurrency : ℤ
  pub throughput : ℤ
  pub rampup_seconds : ℤ
  pub duration_seconds : ℤ

-- `Split(total, n, i)`; its callers pass a positive count and an index. `share++` is made only where
-- the remainder is positive, so the share is far from the largest `int`.
unfoldable pub split : ℤ → ℕ → ℕ → ℤ
split total n i =
    let base = quot total n in
    let extra = rem total n in if ltb_ℤ (pos i) extra then base +ℤ pos 1 else base

-- The body of `Plan`'s loop.
unfoldable pub shard_at : Entry → ℕ → ℕ → Shard
shard_at e n i = record {
  index = i;
  concurrency = split e.concurrency n i;
  throughput = split e.throughput n i;
  rampup_seconds = e.rampup;
  duration_seconds = e.duration;
}

-- `for i := range shards`, from index i on, with k rounds left.
unfoldable pub shards_from : Entry → ℕ → ℕ → ℕ → List Shard
shards_from e n i zero = []
shards_from e n i (suc k) = shard_at e n i ∷ shards_from e n (suc i) k

-- The count that `Plan` uses: no more shards than virtual users.
unfoldable pub shard_count : Entry → ℤ → ℕ
shard_count e n = pos_part (if ltb_ℤ e.concurrency n then e.concurrency else n)

unfoldable pub plan : Entry → ℤ → Result ShardError (List Shard)
plan e n =
    if nonpos n
    then err (shards_invalid n)
    else if nonpos e.concurrency
    then err (concurrency_invalid e.concurrency)
    else ok (shards_from e (shard_count e n) 0 (shard_count e n))

-- `Total`, with the loop's two sums as arguments.
unfoldable pub total_from : ℤ → ℤ → List Shard → ℤ × ℤ
total_from concurrency throughput [] = (concurrency, throughput)
total_from concurrency throughput (s ∷ ss) =
    total_from (wrap64 (concurrency +ℤ s.concurrency)) (wrap64 (throughput +ℤ s.throughput)) ss

unfoldable pub total : List Shard → ℤ × ℤ
unfolding total_from
total ss = total_from (pos 0) (pos 0) ss
