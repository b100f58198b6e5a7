-- ===== src/Lifecycle/Teardown.antt =====
-- Ending a run: teardown, Stop, Purge and the engine logs that they keep.
pub mod Ended
pub mod Idle
use honryu.Base.{
  ℕ, zero, suc, Bool, true, false, List, [], ◌∷◌, Option, none, some, if◌then◌else◌, Result, ok,
  err,
}
use honryu.Base.Ints.{ℤ, pos, pos_part}
use honryu.Base.Text.{Text, chars}
use honryu.Control.{RunRecord}
use honryu.Execution.{Execution, is_fan_out, clusters}
use honryu.LoadProfile.{Entry, Profile}
use honryu.Run.{derive_phase, can_stop, virtual_users}
use honryu.Lifecycle.Ports.{Ports, PortError}
use honryu.Lifecycle.Actions.{
  LifecycleError, Done, Action, port_err, on_cluster, ported, pure, and_do, reading, read, run,
  best_effort, cluster_failed, ◌>>=◌, ◌>>◌,
}
use honryu.Lifecycle.Check.{is_running, phase_permits}
use honryu.Lifecycle.Trigger.{run_shard_key, run_shard_cluster_key, upload_read}

-- The profile whose users `teardown` counts.
abbrev pub tests_of : List Entry → Profile
tests_of scenarios = record {
  name = "";
  project_id = pos 0;
  execution_id = pos 0;
  tests = scenarios;
  csv_split = false;
  criteria = [];
}

module _ {W : Type 0} (p : Ports W) where
  -- The loop of `teardown` that clears the markers: it ends at the first failure.
  unfoldable pub clear_each : List Entry → ℤ → Action W Done
  clear_each [] execution = pure tt
  clear_each (ep ∷ scenarios) execution =
      run (p.clear_scenario_running execution ep.scenario_id) >> clear_each scenarios execution

  -- The report of the run that is open, if it can be read that one is.
  unfoldable pub finalize_open : ℤ → Result PortError (Option ℤ) → W → W
  finalize_open execution (err e) w = w
  finalize_open execution (ok none) w = w
  finalize_open execution (ok (some run_id)) w = (p.finalize execution run_id w).1

  -- What `teardown` does once the markers are cleared.
  unfoldable pub close_down : List Entry → ℤ → Action W Done
  unfolding finalize_open
  close_down scenarios execution w =
      let finished = (p.record_finish execution (virtual_users (tests_of scenarios)) w).1 in
      let released = (p.release execution finished).1 in
      run (p.stop_run execution)
        (finalize_open execution (p.current_run execution released) released)

  unfoldable pub teardown : ℤ → Action W Done
  unfolding clear_each close_down
  teardown execution =
      best_effort (p.touch_activity execution)
      >> (read (p.load_profile_for execution) >>= λ scenarios.
          clear_each scenarios execution >> close_down scenarios execution)

  unfoldable pub stop : ℤ → Action W Done
  unfolding teardown
  stop execution = read (p.current_run execution) >>= λ current.
      reading (λ _. phase_permits (can_stop (derive_phase (pos 0) (is_running current))))
      >> teardown execution

  abbrev pub log_key : Bool → ℤ → ℤ → ℤ → Text → Text
  log_key fan_out run_id scenario shard cluster =
      if fan_out
      then run_shard_cluster_key run_id scenario shard cluster (chars "log")
      else run_shard_key run_id scenario shard (chars "log")

  unfoldable pub capture_shards : Bool → Text → ℤ → ℤ → ℤ → ℕ → ℕ → W → W
  unfolding upload_read
  capture_shards fan_out cluster execution run_id scenario i zero w = w
  capture_shards fan_out cluster execution run_id scenario i (suc left) w =
      capture_shards fan_out cluster execution run_id scenario (suc i) left (
        upload_read p (log_key fan_out run_id scenario (pos i) cluster)
          (p.pod_log cluster execution scenario (pos i) w) w)

  unfoldable pub capture_scenarios : Bool → Text → ℤ → ℤ → List Entry → W → W
  unfolding capture_shards
  capture_scenarios fan_out cluster execution run_id [] w = w
  capture_scenarios fan_out cluster execution run_id (ep ∷ scenarios) w =
      capture_scenarios fan_out cluster execution run_id scenarios
        (capture_shards fan_out cluster execution run_id ep.scenario_id 0 (pos_part ep.engines) w)

  unfoldable pub capture_clusters : Bool → List Text → ℤ → ℤ → List Entry → W → W
  unfolding capture_scenarios
  capture_clusters fan_out [] execution run_id scenarios w = w
  capture_clusters fan_out (cluster ∷ rest) execution run_id scenarios w =
      capture_clusters fan_out rest execution run_id scenarios
        (capture_scenarios fan_out cluster execution run_id scenarios w)

  unfoldable pub capture_read :
      ℤ → ℤ → Result PortError Execution → Result PortError (List Entry) → W → W
  unfolding capture_clusters
  capture_read execution run_id (err e) entries w = w
  capture_read execution run_id (ok coll) (err e) w = w
  capture_read execution run_id (ok coll) (ok scenarios) w =
      capture_clusters (is_fan_out coll) (clusters coll) execution run_id scenarios w

  -- `captureLogs`, one shard after the other.
  unfoldable pub capture_logs : ℤ → ℤ → W → W
  unfolding capture_read
  capture_logs execution run_id w =
      capture_read execution run_id (p.get_execution execution w) (p.load_profile_for execution w) w

  abbrev pub captured : ℤ → ℤ → Action W Done
  captured execution run_id w = (ok tt, capture_logs execution run_id w)

  -- The last run of an execution that runs nothing.
  unfoldable pub end_last : ℤ → Result PortError RunRecord → Action W Done
  unfolding teardown capture_logs
  end_last execution (err e) = pure tt
  end_last execution (ok last) = teardown execution >> captured execution last.run_id

  unfoldable pub end_current : ℤ → Option ℤ → Action W Done
  unfolding end_last
  end_current execution (some run_id) w = (teardown execution >> captured execution run_id) w
  end_current execution none w = end_last execution (p.last_run execution w) w

  unfoldable pub teardown_and_capture : ℤ → Action W Done
  unfolding end_current
  teardown_and_capture execution = read (p.current_run execution) >>= end_current execution

  unfoldable pub purge_each : List Text → ℤ → Action W Done
  purge_each [] execution = pure tt
  purge_each (cluster ∷ rest) execution =
      (λ w. cluster_failed cluster (p.purge_execution cluster execution w))
      >> purge_each rest execution

  unfoldable pub purge : ℤ → Action W Done
  unfolding teardown_and_capture purge_each
  purge execution = read (p.get_execution execution) >>= λ coll.
      teardown_and_capture execution
      >> (purge_each (clusters coll) execution >> λ w. (ok tt, p.purge_metrics execution w))
