-- ===== src/Progress/Keyed.antt =====
-- Reading and writing the store's maps.
use honryu.Base.{◌≡◌, ◌↔◌, true, arith, str_eq_iff}
use honryu.Base.Ints.{eqb_ℤ_iff}
use honryu.Progress.{ShardKey, same_shard}

pub same_shard_iff : (j k : ShardKey) → (same_shard j k ≡ true) ↔ (j ≡ k)
same_shard_iff j k = (
  (λ h. ground (
    arith,
    eqb_ℤ_iff j.scenario_id k.scenario_id,
    str_eq_iff j.cluster k.cluster,
    eqb_ℤ_iff j.shard_index k.shard_index,
  )),
  (λ h. ground (
    arith,
    eqb_ℤ_iff j.scenario_id k.scenario_id,
    str_eq_iff j.cluster k.cluster,
    eqb_ℤ_iff j.shard_index k.shard_index,
  )),
)
