-- ===== src/Lifecycle/Sweeps/Covered.antt =====
-- When orphans cover a profile.
use honryu.Base.{
  ℕ, zero, suc, ◌+◌, ◌<◌, ◌≡◌, ◌↔◌, ◌⊎◌, refl, subst, Bool, true, false, ◌&&◌, not, List, [], ◌∷◌,
  is_empty, All, arith,
}
use honryu.Base.Ints.{ℤ, pos, pos_part, eqb_ℤ_iff}
use honryu.Control.{OrphanCompletion}
use honryu.LoadProfile.{Entry}
use honryu.Lifecycle.Sweeps.{has_orphan, covers_shards, covers_entries, orphans_cover_profile}

both : (a b : Bool) → (a && b ≡ true) ↔ (a ≡ true) × (b ≡ true)
both a b = ground arith

unset : (b : Bool) → (not b ≡ true) ↔ (b ≡ false)
unset b = ground arith

-- The shard of a scenario has a completion among the orphans.
abbrev pub IsOrphan : ℤ → ℤ → List OrphanCompletion → Type 0
IsOrphan scenario shard [] = ⊥
IsOrphan scenario shard (oc ∷ orphans) =
    ((oc.scenario_id ≡ scenario) × (oc.shard_index ≡ shard)) ⊎ IsOrphan scenario shard orphans

has_orphan-Iff :
    (scenario shard : ℤ) (orphans : List OrphanCompletion)
    → (has_orphan scenario shard orphans ≡ true) ↔ IsOrphan scenario shard orphans
unfolding has_orphan
has_orphan-Iff scenario shard [] = ground arith
has_orphan-Iff scenario shard (oc ∷ orphans) = ground (
  arith,
  has_orphan-Iff scenario shard orphans,
  eqb_ℤ_iff oc.scenario_id scenario,
  eqb_ℤ_iff oc.shard_index shard,
)

covers_shards-Iff :
    (orphans : List OrphanCompletion) (scenario : ℤ) (i left : ℕ)
    → (covers_shards orphans scenario i left ≡ true)
      ↔ ((k : ℕ) → k < left → IsOrphan scenario (pos (i + k)) orphans)
unfolding covers_shards
covers_shards-Iff orphans scenario i zero = (λ h k lt. absurd (omega arith), λ h. refl)
covers_shards-Iff orphans scenario i (suc left) =
    let here = has_orphan-Iff scenario (pos i) orphans in
    let rest = covers_shards-Iff orphans scenario (suc i) left in
    let split =
      both (has_orphan scenario (pos i) orphans) (covers_shards orphans scenario (suc i) left) in
    (
      λ h. from_both (here.0 (split.0 h).0) (rest.0 (split.0 h).1),
      λ h. split.1 (
        here.1 (subst At (omega arith) (h 0 (omega arith))),
        rest.1 (λ k lt. subst At (omega arith) (h (suc k) (omega arith))),
      ),
    )
  where
    At : ℕ → Type 0
    At n = IsOrphan scenario (pos n) orphans

    from_both : At i → ((k : ℕ) → k < left → At (suc i + k)) → (k : ℕ) → k < suc left → At (i + k)
    from_both one more zero lt = subst At (omega arith) one
    from_both one more (suc k) lt = subst At (omega arith) (more k (omega arith))

-- Every shard of an entry has a completion among the orphans.
abbrev pub IsCovered : List OrphanCompletion → Entry → Type 0
IsCovered orphans e = (k : ℕ) → k < pos_part e.engines → IsOrphan e.scenario_id (pos k) orphans

covers_entries-Iff :
    (orphans : List OrphanCompletion) (profile : List Entry)
    → (covers_entries orphans profile ≡ true) ↔ All (IsCovered orphans) profile
unfolding covers_entries
covers_entries-Iff orphans [] = (λ h. tt, λ h. refl)
covers_entries-Iff orphans (e ∷ profile) =
    let here = covers_shards-Iff orphans e.scenario_id 0 (pos_part e.engines) in
    let rest = covers_entries-Iff orphans profile in
    let split =
      both (covers_shards orphans e.scenario_id 0 (pos_part e.engines))
        (covers_entries orphans profile) in
    (
      λ h. (λ k lt. subst At (omega arith) (here.0 (split.0 h).0 k lt), rest.0 (split.0 h).1),
      λ (one, more). split.1 (here.1 (λ k lt. subst At (omega arith) (one k lt)), rest.1 more),
    )
  where
    At : ℕ → Type 0
    At n = IsOrphan e.scenario_id (pos n) orphans

-- The evidence that Reconcile closes a run on is that of its whole profile, which is not empty: each
-- planned shard of each entry has completed.
pub orphans_cover_profile-Covered :
    (orphans : List OrphanCompletion) (profile : List Entry)
    → (orphans_cover_profile orphans profile ≡ true)
      ↔ All (IsCovered orphans) profile × (is_empty profile ≡ false)
unfolding orphans_cover_profile
orphans_cover_profile-Covered orphans profile =
    let entries = covers_entries-Iff orphans profile in
    let split = both (covers_entries orphans profile) (not (is_empty profile)) in
    (
      λ h. (entries.0 (split.0 h).0, (unset (is_empty profile)).0 (split.0 h).1),
      λ (all, some_entry). split.1 (entries.1 all, (unset (is_empty profile)).1 some_entry),
    )
