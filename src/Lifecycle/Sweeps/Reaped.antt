-- ===== src/Lifecycle/Sweeps/Reaped.antt =====
-- What a whole pass of the reaper answers.
use honryu.Base.{
  Bool-cases, inl, inr, subst, ℕ, ◌+◌, ◌≤◌, ◌≡◌, refl, Bool, true, false, List, [], ◌∷◌, ◌++◌,
  Option, none, some, if◌then◌else◌, arith, Result, ok, err,
}
use honryu.Base.Ints.{ℤ, eqb_ℤ, eqb_ℤ_iff, ltb_ℤ, nonpos}
use honryu.Base.Sorting.{sum_of, sum_of-sort_by}
use honryu.Base.Text.{Text}
use honryu.Base.Times.{Time}
use honryu.Lifecycle.Ports.{Ports, PortError}
use honryu.Lifecycle.Actions.{LifecycleError, port_err}
use honryu.Lifecycle.Sweeps.{
  Reaping, seen_already, count_reaped, reap_if_idle, reap_deployed, reap_clusters, reap_idle,
  sorted_ids,
}

abbrev pub is_one : ℤ → ℤ → ℕ
is_one execution e = if eqb_ℤ e execution then 1 else 0

-- How often an execution stands in a list.
abbrev pub times : ℤ → List ℤ → ℕ
times execution ids = sum_of (is_one execution) ids

times_append : (n m : ℤ) (ids : List ℤ) → times n (ids ++ m ∷ []) ≡ times n ids + is_one n m
times_append n m [] = ground arith
times_append n m (i ∷ ids) = ground (arith, times_append n m ids)

-- An execution is counted at most once, and only if it is seen.
SeenIfCounted : ℤ → Reaping → Type 0
SeenIfCounted n acc =
    (times n acc.reaped ≤ 1) × (seen_already n acc.seen ≡ false → times n acc.reaped ≡ 0)

unseen :
    (n e : ℤ) (seen : List ℤ)
    → seen_already n (e ∷ seen) ≡ false
    → (eqb_ℤ e n ≡ false) × (seen_already n seen ≡ false)
unfolding seen_already
unseen n e seen h = (ground arith, ground arith)

unseen_alike :
    (n e : ℤ) (seen : List ℤ)
    → eqb_ℤ e n ≡ true
    → seen_already e seen ≡ false
    → seen_already n seen ≡ false
unseen_alike n e seen same fresh =
    subst (λ i. seen_already i seen ≡ false) ((eqb_ℤ_iff e n).0 same) fresh

SeenIfCounted-kept :
    (n e : ℤ) (acc : Reaping)
    → SeenIfCounted n acc
    → (times n acc.reaped ≤ 1) × (seen_already n (e ∷ acc.seen) ≡ false → times n acc.reaped ≡ 0)
unfolding SeenIfCounted
SeenIfCounted-kept n e acc (most, none_yet) = (most, λ h. none_yet (unseen n e acc.seen h).1)

SeenIfCounted-counted :
    (n e : ℤ) (r : Result LifecycleError Bool) (acc : Reaping)
    → seen_already e acc.seen ≡ false
    → SeenIfCounted n acc
    → SeenIfCounted n (count_reaped e r (record acc { seen = e ∷ acc.seen }))
unfolding SeenIfCounted count_reaped
SeenIfCounted-counted n e (err x) acc fresh once = SeenIfCounted-kept n e acc once
SeenIfCounted-counted n e (ok false) acc fresh once = SeenIfCounted-kept n e acc once
SeenIfCounted-counted n e (ok true) acc fresh (most, none_yet) = elim (Bool-cases (eqb_ℤ e n)) [
  | inl same ↦ (
    ground (arith, times_append n e acc.reaped, none_yet (unseen_alike n e acc.seen same fresh)),
    λ h. absurd (apart (same) (unseen n e acc.seen h).0),
  )
  | inr other ↦ (
    ground (arith, times_append n e acc.reaped),
    λ h. ground (arith, times_append n e acc.reaped, none_yet (unseen n e acc.seen h).1),
  )
]
  where
    apart : eqb_ℤ e n ≡ true → eqb_ℤ e n ≡ false → ⊥
    apart g h = cc

module _ {W : Type 0} (p : Ports W) (now : Time) (n ttl : ℤ) where
  either :
      (e : ℤ) (r : Result LifecycleError Bool) (acc : Reaping) (w w' : W) (b : Bool)
      → seen_already e acc.seen ≡ b
      → SeenIfCounted n acc
      → let state : Reaping × W =
          if b then (acc, w) else (count_reaped e r (record acc { seen = e ∷ acc.seen }), w') in
        SeenIfCounted n state.0
  either e r acc w w' true known once = once
  either e r acc w w' false known once = SeenIfCounted-counted n e r acc known once

  reap_deployed-SeenIfCounted :
      (cluster : Text) (deployed : List (ℤ × Time)) (state : Reaping × W)
      → SeenIfCounted n state.0
      → SeenIfCounted n (reap_deployed p now ttl cluster deployed state).0
  unfolding reap_deployed
  reap_deployed-SeenIfCounted cluster [] (acc, w) once = once
  reap_deployed-SeenIfCounted cluster ((e, at) ∷ deployed) (acc, w) once =
      let r = reap_if_idle p now ttl e cluster at w in
      reap_deployed-SeenIfCounted cluster deployed _
        (either e r.0 acc w r.1 (seen_already e acc.seen) refl once)

  reap_clusters_once :
      (clusters : List Text) (state : Reaping × W)
      → SeenIfCounted n state.0
      → times n (reap_clusters p now ttl clusters state).0.0 ≤ 1
  unfolding reap_clusters sorted_ids SeenIfCounted
  reap_clusters_once [] (acc, w) (most, none_yet) =
      omega (arith, sum_of-sort_by (is_one n) ltb_ℤ acc.reaped)
  reap_clusters_once (cluster ∷ clusters) (acc, w) once =
      listed (p.deployed_executions cluster w) (λ deployed.
        reap_clusters_once clusters (reap_deployed p now ttl cluster deployed (acc, w))
          (reap_deployed-SeenIfCounted cluster deployed (acc, w) once))
    where
      next : List (ℤ × Time) → (List ℤ × Option LifecycleError) × W
      next deployed =
          reap_clusters p now ttl clusters (reap_deployed p now ttl cluster deployed (acc, w))

      listed :
          (r : Result PortError (List (ℤ × Time)))
          → ((deployed : List (ℤ × Time)) → times n (next deployed).0.0 ≤ 1)
          → times n
              (elim r as (λ x. (List ℤ × Option LifecycleError) × W) [
                | err e ↦ ((acc.reaped, some (port_err e)), w)
                | ok deployed ↦ next deployed
              ]).0.0
            ≤ 1
      listed (err e) rest = once.0
      listed (ok deployed) rest = rest deployed

  -- A pass answers with each execution at most once, however many clusters it is deployed on.
  pub reap_idle_once :
      (clusters : List Text) (w : W) → times n (reap_idle p now ttl clusters w).0.0 ≤ 1
  unfolding reap_idle SeenIfCounted
  reap_idle_once clusters w = enabled (nonpos ttl) (
      reap_clusters_once clusters (record { seen = []; reaped = []; reap_err = none }, w)
        (omega arith, λ h. refl))
    where
      pass : (List ℤ × Option LifecycleError) × W
      pass =
          reap_clusters p now ttl clusters (record { seen = []; reaped = []; reap_err = none }, w)

      enabled :
          (b : Bool)
          → times n pass.0.0 ≤ 1
          → let res : (List ℤ × Option LifecycleError) × W = if b then (([], none), w) else pass in
            times n res.0.0 ≤ 1
      enabled true h = omega arith
      enabled false h = h
