-- ===== src/Shard/Pods.antt =====
-- The shards of an accepted plan one by one.
use Prim.Native.Nat.{min}
use native.Mathlib.Nat.{le-div_iff_mul-le, zero-add}
use honryu.Base.{
  ◌/◌, ℕ, zero, suc, ◌+◌, ◌≤◌, ◌<◌, ◌≡◌, refl, sym, subst, List, some, arith, ok, length, get_elem?,
}
use honryu.Base.Ints.{ℤ, pos, pos_part, ◌+ℤ◌, ◌≤ℤ◌, pos-of_positive}
use honryu.LoadProfile.{Entry}
use honryu.Shard.{Shard, split, shard_at, shards_from, shard_count, plan}
use honryu.Shard.Share.{split_balanced}
use honryu.Shard.Totals.{plan_accepted, shard_count_bounds}

length-shards_from : (e : Entry) (n i k : ℕ) → length (shards_from e n i k) ≡ k
unfolding shards_from
length-shards_from e n i zero = refl
length-shards_from e n i (suc k) = omega (arith, length-shards_from e n (suc i) k)

get_elem?-shards_from :
    (e : Entry) (n i k j : ℕ)
    → j < k
    → get_elem? (shards_from e n i k) j ≡ some (shard_at e n (i + j))
unfolding shards_from
get_elem?-shards_from e n i zero j h = elim h [ ]
get_elem?-shards_from e n i (suc k) zero h = let same : i + 0 ≡ i = omega arith in rw same
get_elem?-shards_from e n i (suc k) (suc j) h =
    let shift : i + suc j ≡ suc i + j = omega arith in
    rw shift (get_elem?-shards_from e n (suc i) k j (omega arith))

shards_from-get_elem? :
    (e : Entry) (n i k j : ℕ) {s : Shard}
    → get_elem? (shards_from e n i k) j ≡ some s
    → s ≡ shard_at e n (i + j)
unfolding shards_from
shards_from-get_elem? e n i zero j h = cc
shards_from-get_elem? e n i (suc k) zero h =
    let same : i + 0 ≡ i = omega arith in rw same (ground arith)
shards_from-get_elem? e n i (suc k) (suc j) h =
    let shift : i + suc j ≡ suc i + j = omega arith in
    rw shift (shards_from-get_elem? e n (suc i) k j h)

plan-get_elem? :
    (e : Entry) (n : ℤ) (ss : List Shard) (j : ℕ) {s : Shard}
    → plan e n ≡ ok ss
    → get_elem? ss j ≡ some s
    → s ≡ shard_at e (shard_count e n) j
plan-get_elem? e n ss j {s} h at_j =
    let (_, _, shards) = plan_accepted e n ss h in
    let count = shard_count e n in
    let here : s ≡ shard_at e count (0 + j) =
      shards_from-get_elem? e count 0 count j (rw shards at_j) in
    rw zero-add at here

one_each : (c n : ℕ) → 0 < n → n ≤ c → 1 ≤ c / n
one_each c n h k = (le-div_iff_mul-le h).1 (omega arith)

-- Where there are at least as many users as shards, each shard has one.
split_some : (c n i : ℕ) → 0 < n → n ≤ c → pos 1 ≤ℤ split (pos c) n i
unfolding split ◌+ℤ◌
split_some c n i h k = ground (arith, one_each c n h k)

-- An accepted plan has as many shards as asked for, or as there are virtual users if those are fewer.
pub length-plan :
    (e : Entry) (n : ℤ) (ss : List Shard)
    → plan e n ≡ ok ss
    → length ss ≡ min (pos_part n) (pos_part e.concurrency)
unfolding shard_count
length-plan e n ss h =
    let (hn, hk, shards) = plan_accepted e n ss h in
    let count = length-shards_from e (shard_count e n) 0 (shard_count e n) in
    rw (← shards, count) (ground (arith, hn, hk))

-- In an accepted plan the shard at position j carries index j and the entry's ramp-up and hold, and
-- has at least one virtual user.
pub plan_pods :
    (e : Entry) (n : ℤ) (ss : List Shard) (j : ℕ) (s : Shard)
    → plan e n ≡ ok ss
    → get_elem? ss j ≡ some s
    → (s.index ≡ j)
      × (s.rampup_seconds ≡ e.rampup)
      × (s.duration_seconds ≡ e.duration)
      × (pos 1 ≤ℤ s.concurrency)
unfolding shard_at
plan_pods e n ss j s h at_j =
    let (hn, hk, _) = plan_accepted e n ss h in
    let (some_shard, _, enough) = shard_count_bounds e n hn hk in
    let count = shard_count e n in
    let c = pos_part e.concurrency in
    let share : pos 1 ≤ℤ split (pos c) count j = split_some c count j some_shard enough in
    rw (plan-get_elem? e n ss j h at_j) (
      refl,
      refl,
      refl,
      subst (λ x. pos 1 ≤ℤ split x count j) (sym (pos-of_positive e.concurrency hk).0) share,
    )

-- In an accepted plan no shard has fewer virtual users than a later one, nor more than one above it.
pub plan_balanced :
    (e : Entry) (n : ℤ) (ss : List Shard) (i j : ℕ) (s t : Shard)
    → plan e n ≡ ok ss
    → get_elem? ss i ≡ some s
    → get_elem? ss j ≡ some t
    → i ≤ j
    → (t.concurrency ≤ℤ s.concurrency) × (s.concurrency ≤ℤ t.concurrency +ℤ pos 1)
unfolding shard_at
plan_balanced e n ss i j s t h at_i at_j le =
    let (_, hk, _) = plan_accepted e n ss h in
    let count = shard_count e n in
    let s-at = plan-get_elem? e n ss i h at_i in
    let t-at = plan-get_elem? e n ss j h at_j in
    let c = pos_part e.concurrency in
    rw (s-at, t-at)
      (subst
        (λ x. (split x count j ≤ℤ split x count i) × (split x count i ≤ℤ split x count j +ℤ pos 1))
        (sym (pos-of_positive e.concurrency hk).0) (split_balanced c count i j le))
