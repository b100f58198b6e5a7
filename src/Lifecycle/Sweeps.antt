-- ===== src/Lifecycle/Sweeps.antt =====
-- The passes over what is deployed and open: Reconcile, ReconcileAbandoned and ReapIdle.
pub mod Reaped
pub mod Covered
pub mod Spared
use honryu.Base.{
  ℕ, zero, suc, Bool, true, false, ◌&&◌, ◌||◌, not, List, [], ◌∷◌, ◌++◌, Option, none, some,
  if◌then◌else◌, is_empty, Result, ok, err, and_then,
}
use honryu.Base.Ints.{ℤ, pos, pos_part, nonpos, eqb_ℤ, ltb_ℤ}
use honryu.Base.Sorting.{sort_by}
use honryu.Base.Text.{Text}
use honryu.Base.Times.{Time, time_sub}
use honryu.Calibration.{Phase, pending, bracketing, bisecting, done, failed}
use honryu.Control.{OrphanCompletion}
use honryu.Execution.{Execution}
use honryu.LoadProfile.{Entry}
use honryu.Lifecycle.Ports.{Ports, PortError, OpenRun, not_found, run_active, failure}
use honryu.Lifecycle.Actions.{
  LifecycleError, Done, Action, port_err, ported, pure, and_do, reading, read, run, ◌>>=◌, ◌>>◌,
}
use honryu.Lifecycle.Check.{plan_refs, execution_status_across, is_running}
use honryu.Lifecycle.Teardown.{teardown_and_capture}

-- `seen[shardKey{...}]`
unfoldable pub has_orphan : ℤ → ℤ → List OrphanCompletion → Bool
has_orphan scenario shard [] = false
has_orphan scenario shard (oc ∷ orphans) =
    (eqb_ℤ oc.scenario_id scenario && eqb_ℤ oc.shard_index shard)
    || has_orphan scenario shard orphans

-- The shards of an entry from i on.
unfoldable pub covers_shards : List OrphanCompletion → ℤ → ℕ → ℕ → Bool
unfolding has_orphan
covers_shards orphans scenario i zero = true
covers_shards orphans scenario i (suc left) =
    has_orphan scenario (pos i) orphans && covers_shards orphans scenario (suc i) left

unfoldable pub covers_entries : List OrphanCompletion → List Entry → Bool
unfolding covers_shards
covers_entries orphans [] = true
covers_entries orphans (e ∷ profile) =
    covers_shards orphans e.scenario_id 0 (pos_part e.engines) && covers_entries orphans profile

unfoldable pub orphans_cover_profile : List OrphanCompletion → List Entry → Bool
unfolding covers_entries
orphans_cover_profile orphans profile = covers_entries orphans profile && not (is_empty profile)

-- A job that is neither done nor failed.
unfoldable pub is_active : Phase → Bool
is_active pending = true
is_active bracketing = true
is_active bisecting = true
is_active done = false
is_active failed = false

unfoldable pub any_active : List Phase → Bool
unfolding is_active
any_active [] = false
any_active (phase ∷ phases) = is_active phase || any_active phases

unfoldable pub seen_already : ℤ → List ℤ → Bool
seen_already execution [] = false
seen_already execution (e ∷ seen) = eqb_ℤ e execution || seen_already execution seen

abbrev pub last_or : Time → Option Time → Time
last_or deployed_at none = deployed_at
last_or deployed_at (some last) = last

unfoldable pub sorted_ids : List ℤ → List ℤ
sorted_ids ids = sort_by ltb_ℤ ids

-- The pass so far: what is seen, what is reaped and the first failure.
pub record Reaping : Type 0 where
  pub seen : List ℤ
  pub reaped : List ℤ
  pub reap_err : Option LifecycleError

abbrev pub first_err : Option LifecycleError → LifecycleError → Option LifecycleError
first_err none e = some e
first_err (some first) e = some first

unfoldable pub count_reaped : ℤ → Result LifecycleError Bool → Reaping → Reaping
count_reaped execution (err e) acc = record acc { reap_err = first_err acc.reap_err e }
count_reaped execution (ok true) acc = record acc { reaped = acc.reaped ++ execution ∷ [] }
count_reaped execution (ok false) acc = acc

module _ {W : Type 0} (p : Ports W) where
  -- One open run, with the orphans of its execution.
  unfoldable pub close_stranded : OpenRun → List OrphanCompletion → Action W Done
  unfolding orphans_cover_profile
  close_stranded orun [] = pure tt
  close_stranded orun (oc ∷ orphans) = read (p.load_profile_for orun.execution_id) >>= λ profile w.
      if orphans_cover_profile (oc ∷ orphans) profile
      then (run (p.finalize_orphaned orun.execution_id orun.run_id (oc ∷ orphans))
            >> run (p.stop_run orun.execution_id))
          w
      else (ok tt, w)

  unfoldable pub reconcile_each : List OpenRun → Action W Done
  unfolding close_stranded
  reconcile_each [] = pure tt
  reconcile_each (orun ∷ open_list) =
      (read (p.orphan_completions orun.execution_id) >>= close_stranded orun)
      >> reconcile_each open_list

  unfoldable pub reconcile : Action W Done
  unfolding reconcile_each
  reconcile = read p.open_runs >>= reconcile_each

  -- An execution's engines, or `none` where the execution is gone.
  unfoldable pub pool_of : ℤ → Result PortError Execution → W → Result LifecycleError (Option ℤ)
  pool_of execution (err not_found) w = ok none
  pool_of execution (err run_active) w = err (port_err run_active)
  pool_of execution (err (failure e)) w = err (port_err (failure e))
  pool_of execution (ok coll) w = and_then (ported (p.load_profile_for execution w)) (λ scenarios.
      and_then (execution_status_across p coll execution (plan_refs scenarios) w)
        (λ status. ok (some status.pool_size)))

  -- The marker of a run is closed; and a run is closed with its report.
  unfoldable pub close_marker : OpenRun → Action W Bool
  close_marker orun = run (p.stop_run orun.execution_id) >> pure true

  unfoldable pub end_run : OpenRun → Action W Bool
  unfolding close_marker
  end_run orun = run (p.finalize orun.execution_id orun.run_id) >> close_marker orun

  -- A run without a report: closed where its execution has no engines.
  unfoldable pub close_pool : OpenRun → Option ℤ → Action W Bool
  unfolding end_run
  close_pool orun none w = (ok false, w)
  close_pool orun (some pool) w = if ltb_ℤ (pos 0) pool then (ok false, w) else end_run orun w

  unfoldable pub close_reported : OpenRun → Bool → Action W Bool
  unfolding pool_of close_marker close_pool
  close_reported orun true w = close_marker orun w
  close_reported orun false w =
      and_do (pool_of orun.execution_id (p.get_execution orun.execution_id w) w, w)
        (close_pool orun)

  -- No calibration of the execution is active, and it runs nothing.
  unfoldable pub is_uncalibrated : ℤ → W → Result LifecycleError Bool
  unfolding any_active
  is_uncalibrated execution w =
      and_then (ported (p.calibration_phases execution w)) (λ phases. ok (not (any_active phases)))

  unfoldable pub is_free : ℤ → W → Option ℤ → Result LifecycleError Bool
  unfolding is_uncalibrated
  is_free execution w current = if is_running current then ok false else is_uncalibrated execution w

  unfoldable pub reap : ℤ → Text → Action W Bool
  unfolding teardown_and_capture
  reap execution cluster =
      teardown_and_capture p execution
      >> (run (p.purge_execution cluster execution)
          >> (run (p.clear_orphan_completions execution) >> pure true))

  unfoldable pub reap_where : ℤ → Text → Bool → Action W Bool
  unfolding reap
  reap_where execution cluster true w = reap execution cluster w
  reap_where execution cluster false w = (ok false, w)

  module _ (now : Time) where
    -- Whether an open run is closed.
    unfoldable pub close_abandoned : ℤ → OpenRun → Action W Bool
    unfolding close_reported
    close_abandoned limit orun w =
        if ltb_ℤ (time_sub now orun.started_time) limit
        then (ok false, w)
        else and_do (ported (p.has_report orun.run_id w), w) (close_reported orun)

    unfoldable pub abandoned_each : ℤ → List OpenRun → List OpenRun → Action W (List OpenRun)
    unfolding close_abandoned
    abandoned_each limit closed [] = pure closed
    abandoned_each limit closed (orun ∷ open_list) = close_abandoned limit orun >>= λ is_closed.
        abandoned_each limit (if is_closed then closed ++ orun ∷ [] else closed) open_list

    unfoldable pub reconcile_abandoned : ℤ → Action W (List OpenRun)
    unfolding abandoned_each
    reconcile_abandoned limit w =
        if nonpos limit then (ok [], w) else (read p.open_runs >>= abandoned_each limit []) w

    unfoldable pub is_unused : ℤ → ℤ → Time → W → Option Time → Result LifecycleError Bool
    unfolding is_free
    is_unused ttl execution deployed_at w last =
        if ltb_ℤ (time_sub now (last_or deployed_at last)) ttl
        then ok false
        else and_then (ported (p.current_run execution w)) (is_free execution w)

    -- The guards of `reapIfIdle`.
    unfoldable pub is_idle : ℤ → ℤ → Time → W → Result LifecycleError Bool
    unfolding is_unused
    is_idle ttl execution deployed_at w =
        and_then (ported (p.last_activity execution w)) (is_unused ttl execution deployed_at w)

    unfoldable pub reap_if_idle : ℤ → ℤ → Text → Time → Action W Bool
    unfolding is_idle reap_where
    reap_if_idle ttl execution cluster deployed_at =
        reading (is_idle ttl execution deployed_at) >>= reap_where execution cluster

    -- The loop over what is deployed on a cluster.
    unfoldable pub reap_deployed : ℤ → Text → List (ℤ × Time) → Reaping × W → Reaping × W
    unfolding reap_if_idle count_reaped seen_already
    reap_deployed ttl cluster [] state = state
    reap_deployed ttl cluster ((execution, at) ∷ deployed) (acc, w) =
        let (res, w') = reap_if_idle ttl execution cluster at w in
        let counted : Reaping =
          count_reaped execution res (record acc { seen = execution ∷ acc.seen }) in
        reap_deployed ttl cluster deployed
          (if seen_already execution acc.seen then (acc, w) else (counted, w'))

    -- The loop over the clusters. A cluster that cannot be listed ends the pass, with what is reaped.
    unfoldable pub reap_clusters :
        ℤ → List Text → Reaping × W → (List ℤ × Option LifecycleError) × W
    unfolding reap_deployed sorted_ids
    reap_clusters ttl [] (acc, w) = ((sorted_ids acc.reaped, acc.reap_err), w)
    reap_clusters ttl (cluster ∷ clusters) (acc, w) = elim (p.deployed_executions cluster w) [
      | err e ↦ ((acc.reaped, some (port_err e)), w)
      | ok deployed ↦ reap_clusters ttl clusters (reap_deployed ttl cluster deployed (acc, w))
    ]

    unfoldable pub reap_idle : ℤ → List Text → W → (List ℤ × Option LifecycleError) × W
    unfolding reap_clusters
    reap_idle ttl clusters w =
        if nonpos ttl
        then (([], none), w)
        else reap_clusters ttl clusters (record { seen = []; reaped = []; reap_err = none }, w)
