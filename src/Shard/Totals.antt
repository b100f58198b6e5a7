-- ===== src/Shard/Totals.antt =====
-- The sums over the shards of a plan.
use honryu.Base.{ℕ, zero, suc, ◌+◌, ◌^◌, ◌≤◌, ◌<◌, ◌≡◌, List, arith, ok, false}
use honryu.Base.Ints.{
  ℤ, pos, pos_part, ◌+ℤ◌, ltb_ℤ, nonpos, wrap64, wrap64-fits, pos-+ℤ-pos, pos-of_positive,
  pos-of_nonneg,
}
use honryu.LoadProfile.{Entry}
use honryu.Shard.{Shard, split, shard_at, shards_from, shard_count, plan, total_from, total}
use honryu.Shard.Share.{prefix, split-pos, split-prefix, prefix-total, prefix-le}

-- One round of `Total`'s sum over a non-negative total that fits an `int`.
round_of_total :
    (t n i : ℕ)
    → i < n
    → t < 2 ^ 63
    → wrap64 (pos (prefix t n i) +ℤ split (pos t) n i) ≡ pos (prefix t n (suc i))
round_of_total t n i h k =
    rw (split-pos t n i, pos-+ℤ-pos, split-prefix t n i)
      (wrap64-fits _ (omega (arith, prefix-le t n (suc i) (omega arith) h)))

total_from-shards_from :
    (e : Entry) (c t n i k : ℕ)
    → e.concurrency ≡ pos c
    → e.throughput ≡ pos t
    → c < 2 ^ 63
    → t < 2 ^ 63
    → 0 < n
    → i + k ≡ n
    → total_from (pos (prefix c n i)) (pos (prefix t n i)) (shards_from e n i k)
      ≡ (pos (prefix c n n), pos (prefix t n n))
unfolding total_from shards_from shard_at
total_from-shards_from e c t n i zero ec et hc ht hn hk = let i-n : i ≡ n = omega arith in rw i-n
total_from-shards_from e c t n i (suc k) ec et hc ht hn hk =
    rw (ec, et, round_of_total c n i (omega arith) hc, round_of_total t n i (omega arith) ht)
      (total_from-shards_from e c t n (suc i) k ec et hc ht hn (omega arith))

-- What an accepted request says of the entry and of the shards.
pub plan_accepted :
    (e : Entry) (n : ℤ) (ss : List Shard)
    → plan e n ≡ ok ss
    → (nonpos n ≡ false)
      × (nonpos e.concurrency ≡ false)
      × (shards_from e (shard_count e n) 0 (shard_count e n) ≡ ss)
unfolding plan
plan_accepted e n ss h = ground arith

-- The count used is positive, no larger than asked for and no larger than the virtual users.
pub shard_count_bounds :
    (e : Entry) (n : ℤ)
    → nonpos n ≡ false
    → nonpos e.concurrency ≡ false
    → (0 < shard_count e n)
      × (shard_count e n ≤ pos_part n)
      × (shard_count e n ≤ pos_part e.concurrency)
unfolding shard_count
shard_count_bounds e n h k = ground arith

-- Whenever `Plan` accepts an entry whose throughput is not negative, the shards' virtual users sum to
-- the entry's concurrency and their rates to its throughput: no load is dropped and none is added.
-- (Both numbers are `int`s, so they are below 2^63.)
pub total-plan :
    (e : Entry) (n : ℤ) (ss : List Shard)
    → plan e n ≡ ok ss
    → ltb_ℤ e.throughput (pos 0) ≡ false
    → pos_part e.concurrency < 2 ^ 63
    → pos_part e.throughput < 2 ^ 63
    → total ss ≡ (e.concurrency, e.throughput)
unfolding total
total-plan e n ss h nonneg hc ht =
    let (hn, hk, shards) = plan_accepted e n ss h in
    let count = shard_count e n in
    let positive = (shard_count_bounds e n hn hk).0 in
    let c = pos_part e.concurrency in
    let t = pos_part e.throughput in
    let ec = (pos-of_positive e.concurrency hk).0 in
    let et = pos-of_nonneg e.throughput nonneg in
    let start : (u : ℕ) → prefix u count 0 ≡ 0 = λ u. omega arith in
    let sums = total_from-shards_from e c t count 0 count ec et hc ht positive (omega arith) in
    rw
      (
        start c,
        start t,
        prefix-total c count positive,
        prefix-total t count positive,
        shards,
        ← ec,
        ← et,
      )
      at sums
