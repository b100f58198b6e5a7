-- ===== src/Lifecycle/Sweeps/Spared.antt =====
-- What the passes leave alone.
use honryu.Base.{
  List, ◌≡◌, ◌⊎◌, refl, sym, subst, inl, inr, Bool, true, false, not, Option, none, some,
  if◌then◌else◌, arith, Result, ok, err, and_then, failed_not_ok, same_ok,
}
use honryu.Base.Ints.{ℤ, pos, ◌≤ℤ◌, ltb_ℤ}
use honryu.Base.Text.{Text}
use honryu.Base.Times.{Time, time_sub}
use honryu.Calibration.{Phase}
use honryu.Lifecycle.Ports.{Ports, PortError, OpenRun}
use honryu.Lifecycle.Actions.{LifecycleError, Done, port_err, ported, and_do, run, pure, ◌>>◌}
use honryu.Lifecycle.Chains.{query_then-ok, if_skipped, at_least}
use honryu.Lifecycle.Check.{is_running}
use honryu.Lifecycle.Teardown.{teardown_and_capture}
use honryu.Lifecycle.Sweeps.{
  any_active, pool_of, close_pool, close_reported, close_abandoned, is_idle, last_or,
  is_uncalibrated, is_free, is_unused, reap, reap_where, reap_if_idle, close_marker, end_run,
}

never : true ≡ false → ⊥
never e = cc

none_running : (o : Option ℤ) → is_running o ≡ false → o ≡ none
none_running none h = refl
none_running (some run) h = cc

module _ {W : Type 0} (p : Ports W) (now : Time) where
  -- What the reaper asks for: an execution that has been idle for the whole time, runs nothing and is
  -- not being calibrated.
  abbrev pub IsIdle : ℤ → ℤ → Time → W → Type 0
  IsIdle ttl execution deployed_at w =
      ((last : Option Time) × (p.last_activity execution w ≡ ok last)
        × (ttl ≤ℤ time_sub now (last_or deployed_at last)))
      × (p.current_run execution w ≡ ok none)
      × ((phases : List Phase) × (p.calibration_phases execution w ≡ ok phases)
          × (any_active phases ≡ false))

  is_idle-IsIdle :
      (ttl execution : ℤ) (deployed_at : Time) (w : W)
      → is_idle p now ttl execution deployed_at w ≡ ok true
      → IsIdle ttl execution deployed_at w
  unfolding is_idle
  is_idle-IsIdle ttl execution deployed_at w h =
      let (last, known, a) =
        (query_then-ok (p.last_activity execution w) (is_unused p now ttl execution deployed_at w)
            true).0
          h in
      let age : ℤ = time_sub now (last_or deployed_at last) in
      let (old, b) =
        (if_skipped (ltb_ℤ age ttl)
            (and_then (ported (p.current_run execution w)) (is_free p execution w))).0
          a in
      let (current, found, c) =
        (query_then-ok (p.current_run execution w) (is_free p execution w) true).0 b in
      let (idle, d) = (if_skipped (is_running current) (is_uncalibrated p execution w)).0 c in
      let (phases, read, e) =
        (query_then-ok (p.calibration_phases execution w) (λ ph. ok (not (any_active ph))) true).0
          d in
      (
        (last, known, (at_least age ttl).0 old),
        subst (λ o. p.current_run execution w ≡ ok o) (none_running current idle) found,
        (phases, read, inactive (any_active phases) (same_ok e)),
      )
    where
      inactive : (b : Bool) → not b ≡ true → b ≡ false
      inactive b h = ground arith

  -- What ends in `true` where it succeeds does not answer `false`.
  Affirms : (W → Result LifecycleError Bool × W) → Type 0
  Affirms k = (v : W) → (k v).0 ≡ ok false → ⊥

  Affirms-after :
      (m : Result LifecycleError Done × W) (k : W → Result LifecycleError Bool × W)
      → Affirms k
      → (and_do m (λ _. k)).0 ≡ ok false
      → ⊥
  unfolding Affirms
  Affirms-after (err e, w) k affirms h = failed_not_ok h
  Affirms-after (ok d, w) k affirms h = affirms w h

  Affirms-pure : Affirms (pure true)
  unfolding Affirms
  Affirms-pure v h = never (same_ok h)

  Affirms-command : (c : W → Result LifecycleError Done × W) → Affirms (c >> pure true)
  unfolding Affirms
  Affirms-command c v h = Affirms-after (c v) (pure true) Affirms-pure h

  Affirms-reap : (execution : ℤ) (cluster : Text) → Affirms (reap p execution cluster)
  unfolding Affirms reap
  Affirms-reap execution cluster v h =
      Affirms-after (teardown_and_capture p execution v)
        (run (p.purge_execution cluster execution)
          >> (run (p.clear_orphan_completions execution) >> pure true))
        (λ u g.
          Affirms-after (run (p.purge_execution cluster execution) u)
            (run (p.clear_orphan_completions execution) >> pure true)
            (Affirms-command (run (p.clear_orphan_completions execution))) g)
        h

  Affirms-end_run : (orun : OpenRun) → Affirms (end_run p orun)
  unfolding Affirms end_run close_marker
  Affirms-end_run orun v h =
      Affirms-after (run (p.finalize orun.execution_id orun.run_id) v)
        (run (p.stop_run orun.execution_id) >> pure true)
        (Affirms-command (run (p.stop_run orun.execution_id))) h

  -- Where it answers `true` the world allowed it, and where it answers `false` the world is kept.
  abbrev Justified : Type 0 → W → Result LifecycleError Bool × W → Type 0
  Justified Allowed w r = (r.0 ≡ ok true → Allowed) × (r.0 ≡ ok false → r.1 ≡ w)

  kept : {Allowed : Type 0} (w : W) → Justified Allowed w (ok false, w)
  kept w = (λ h. absurd (never (sym (same_ok h))), λ h. refl)

  refused : {Allowed : Type 0} (w : W) (e : LifecycleError) → Justified Allowed w (err e, w)
  refused w e = (λ h. absurd (failed_not_ok h), λ h. absurd (failed_not_ok h))

  affirmed :
      {Allowed : Type 0} (w : W) (k : W → Result LifecycleError Bool × W)
      → Allowed
      → Affirms k
      → Justified Allowed w (k w)
  unfolding Affirms
  affirmed w k allowed affirms = (λ h. allowed, λ h. absurd (affirms w h))

  -- Where reapIfIdle answers that it reaped an execution, the execution was idle; where it answers that it did
  -- not, nothing is changed. (An error may come after a part of the reaping is done.)
  pub reap_if_idle-Spares :
      (ttl execution : ℤ) (cluster : Text) (deployed_at : Time) (w : W)
      → let r = reap_if_idle p now ttl execution cluster deployed_at w in
        (r.0 ≡ ok true → IsIdle ttl execution deployed_at w) × (r.0 ≡ ok false → r.1 ≡ w)
  unfolding reap_if_idle reap_where
  reap_if_idle-Spares ttl execution cluster deployed_at w =
      tested (is_idle p now ttl execution deployed_at w) refl
    where
      tested :
          (idle : Result LifecycleError Bool)
          → is_idle p now ttl execution deployed_at w ≡ idle
          → Justified
              (IsIdle ttl execution deployed_at w)
              w
              (and_do (idle, w) (reap_where p execution cluster))
      tested (err e) known = refused w e
      tested (ok true) known =
          affirmed w (reap p execution cluster) (is_idle-IsIdle ttl execution deployed_at w known)
            (Affirms-reap execution cluster)
      tested (ok false) known = kept w

  -- The run has a report, or its execution is there and has no engines on any cluster.
  abbrev pub IsOver : OpenRun → W → Type 0
  IsOver orun w =
      (p.has_report orun.run_id w ≡ ok true)
      ⊎ ((p.has_report orun.run_id w ≡ ok false)
          × ((pool : ℤ) × (pool_of p orun.execution_id (p.get_execution orun.execution_id w) w
                ≡ ok (some pool))
              × (pool ≤ℤ pos 0)))

  -- A run that has been open for so long, and is over.
  abbrev pub IsAbandoned : ℤ → OpenRun → W → Type 0
  IsAbandoned limit orun w = (limit ≤ℤ time_sub now orun.started_time) × IsOver orun w

  close_reported-Justified :
      (orun : OpenRun) (reported : Bool) (w : W)
      → p.has_report orun.run_id w ≡ ok reported
      → Justified (IsOver orun w) w (close_reported p orun reported w)
  unfolding close_reported close_marker
  close_reported-Justified orun true w known =
      affirmed w (run (p.stop_run orun.execution_id) >> pure true) (inl known)
        (Affirms-command (run (p.stop_run orun.execution_id)))
  close_reported-Justified orun false w known =
      by_pool (pool_of p orun.execution_id (p.get_execution orun.execution_id w) w) refl
    where
      emptied :
          (pool : ℤ)
          → pool_of p orun.execution_id (p.get_execution orun.execution_id w) w ≡ ok (some pool)
          → (b : Bool) → ltb_ℤ (pos 0) pool ≡ b
          → Justified (IsOver orun w) w (if b then (ok false, w) else end_run p orun w)
      emptied pool read true e = kept w
      emptied pool read false e =
          affirmed w (end_run p orun) (inr (known, (pool, read, (at_least (pos 0) pool).0 e)))
            (Affirms-end_run orun)

      by_pool :
          (pool : Result LifecycleError (Option ℤ))
          → pool_of p orun.execution_id (p.get_execution orun.execution_id w) w ≡ pool
          → Justified (IsOver orun w) w (and_do (pool, w) (close_pool p orun))
      by_pool (err e) read = refused w e
      by_pool (ok none) read = kept w
      by_pool (ok (some pool)) read = emptied pool read (ltb_ℤ (pos 0) pool) refl

  -- Where the sweep answers that it closed a run, the run had been open for as long as the limit and either had
  -- a report or belonged to an execution without engines; where it answers that it did not, nothing is
  -- changed. (An error may come after the report is written.)
  pub close_abandoned-Spares :
      (limit : ℤ) (orun : OpenRun) (w : W)
      → let r = close_abandoned p now limit orun w in
        (r.0 ≡ ok true → IsAbandoned limit orun w) × (r.0 ≡ ok false → r.1 ≡ w)
  unfolding close_abandoned
  close_abandoned-Spares limit orun w = aged (ltb_ℤ age limit) refl
    where
      age : ℤ
      age = time_sub now orun.started_time

      by_report :
          (limit ≤ℤ age)
          → (reported : Result PortError Bool) → p.has_report orun.run_id w ≡ reported
          → Justified
              (IsAbandoned limit orun w)
              w
              (and_do (ported reported, w) (close_reported p orun))
      by_report old (err e) read = refused w (port_err e)
      by_report old (ok reported) read =
          let (allowed, same) = close_reported-Justified orun reported w read in
          (λ h. (old, allowed h), same)

      aged :
          (b : Bool)
          → ltb_ℤ age limit ≡ b
          → Justified (IsAbandoned limit orun w) w (
              if b
              then (ok false, w)
              else and_do (ported (p.has_report orun.run_id w), w) (close_reported p orun))
      aged true young = kept w
      aged false old = by_report ((at_least age limit).0 old) (p.has_report orun.run_id w) refl
