-- ===== src/Shard/Share.antt =====
-- The shares that `Split` hands out: their prefix sums and their balance.
use honryu.Base.{ℕ, suc, ◌+◌, ◌*◌, ◌/◌, ◌%◌, ◌≤◌, ◌<◌, ◌≡◌, arith}
use honryu.Base.Ints.{pos, pos_part, ◌≤ℤ◌, ◌+ℤ◌}
use honryu.Shard.{split}
use Prim.Native.Nat.{min}

-- What the first i of n shards carry of a total t.
abbrev pub prefix : ℕ → ℕ → ℕ → ℕ
prefix t n i = i * (t / n) + min i (t % n)

-- A share of a non-negative total is a non-negative number.
pub split-pos : (t n i : ℕ) → split (pos t) n i ≡ pos (pos_part (split (pos t) n i))
unfolding split ◌+ℤ◌
split-pos t n i = ground arith

pub split-prefix : (t n i : ℕ) → prefix t n i + pos_part (split (pos t) n i) ≡ prefix t n (suc i)
unfolding split ◌+ℤ◌
split-prefix t n i = ground arith

pub prefix-total : (t n : ℕ) → 0 < n → prefix t n n ≡ t
prefix-total t n h = grind arith

pub prefix-le : (t n i : ℕ) → 0 < n → i ≤ n → prefix t n i ≤ t
prefix-le t n i h k = grind arith

-- A later share is never larger than an earlier one, and at most one below it.
pub split_balanced :
    (t n i j : ℕ)
    → i ≤ j
    → (split (pos t) n j ≤ℤ split (pos t) n i) × (split (pos t) n i ≤ℤ split (pos t) n j +ℤ pos 1)
unfolding split ◌+ℤ◌
split_balanced t n i j h = ground arith
