-- ===== src/Lifecycle/Trigger.antt =====
-- Trigger: the capacity that it reserves, the run that it opens and what it records.
pub mod Engines
pub mod Ready
pub mod Opens
use honryu.Base.{
  ℕ, zero, suc, Bool, true, false, List, [], ◌∷◌, ◌++◌, Option, none, some, String, str_eq,
  if◌then◌else◌, is_empty, length, ◌==◌, Result, ok, err, and_then,
}
use honryu.Base.Ints.{ℤ, pos, pos_part, ◌+ℤ◌, ◌*ℤ◌, wrap64}
use honryu.Base.Floats.{Float64}
use honryu.Base.Text.{Text, chars, itoa}
use honryu.Base.Times.{Time}
use honryu.Execution.{Execution, is_fan_out, clusters}
use honryu.LoadProfile.{Entry, Profile, total_engines, longest_duration_seconds}
use honryu.Run.{virtual_users}
use honryu.Lifecycle.Ports.{Ports, PortError, Command}
use honryu.Lifecycle.Actions.{
  LifecycleError, Done, Action, parse_quantity, trigger_errs, port_err, pure, and_do, reading, read,
  run, replied, best_effort, ◌>>=◌, ◌>>◌,
}
use honryu.Lifecycle.Check.{check_trigger, profile_of}

-- `RunShardKey`, `RunShardClusterKey` and `deployedConfigKey`
unfoldable pub run_shard_key : ℤ → ℤ → ℤ → Text → Text
unfolding itoa
run_shard_key run scenario shard ext =
    chars "run/"
    ++ itoa run
    ++ chars "/scenario-"
    ++ itoa scenario
    ++ chars "-shard-"
    ++ itoa shard
    ++ chars "."
    ++ ext

unfoldable pub run_shard_cluster_key : ℤ → ℤ → ℤ → Text → Text → Text
unfolding itoa
run_shard_cluster_key run scenario shard cluster ext =
    chars "run/"
    ++ itoa run
    ++ chars "/cluster-"
    ++ cluster
    ++ chars "/scenario-"
    ++ itoa scenario
    ++ chars "-shard-"
    ++ itoa shard
    ++ chars "."
    ++ ext

unfoldable pub deployed_config_key : ℤ → ℤ → Text
unfolding itoa
deployed_config_key scenario shard =
    chars "scenario/" ++ itoa scenario ++ chars "/compiled/shard-" ++ itoa shard ++ chars ".yml"

-- The quantities of Kubernetes' resource package: thousandths of a CPU, and bytes.
pub record Quantities : Type 0 where
  pub milli_value : String → Option ℤ
  pub value : String → Option ℤ

-- The baseline's 500m and 512Mi.
abbrev pub baseline_engine_milli : ℕ
baseline_engine_milli = 500

abbrev pub baseline_engine_bytes : ℕ
baseline_engine_bytes = 536870912

module _ (fl : Float64) where
  open fl use {F, of_int, div, lt, ceil}

  -- One dimension of a pinned pod against the ratio so far.
  unfoldable pub larger_ratio : String → Option ℤ → ℕ → F → Result LifecycleError F
  larger_ratio text none baseline ratio = err (parse_quantity text)
  larger_ratio text (some q) baseline ratio =
      let r = div (of_int q) (of_int (pos baseline)) in ok (if lt ratio r then r else ratio)

  unfoldable pub pinned_ratio : String → Option ℤ → ℕ → F → Result LifecycleError F
  unfolding larger_ratio
  pinned_ratio text q baseline ratio =
      if str_eq text "" then ok ratio else larger_ratio text q baseline ratio

  unfoldable pub size_ratio : Quantities → String → String → Result LifecycleError F
  unfolding pinned_ratio
  size_ratio quantities cpu memory =
      and_then
        (pinned_ratio cpu (quantities.milli_value cpu) baseline_engine_milli (of_int (pos 1)))
        (λ ratio. pinned_ratio memory (quantities.value memory) baseline_engine_bytes ratio)

  unfoldable pub engine_equivalents : Quantities → String → String → ℤ → Result LifecycleError ℤ
  unfolding size_ratio
  engine_equivalents quantities cpu memory pods =
      and_then (size_ratio quantities cpu memory) (λ ratio. ok (wrap64 (ceil ratio *ℤ pods)))

unfoldable pub fan_out_engines : ℤ → Execution → ℤ
unfolding is_fan_out
fan_out_engines engines exe =
    if is_fan_out exe then wrap64 (engines *ℤ pos (length exe.fan_out_targets)) else engines

-- A duration of whole seconds, in nanoseconds.
abbrev pub seconds : ℤ → ℤ
seconds n = wrap64 (n *ℤ pos 1000000000)

module _ {W : Type 0} (p : Ports W) where
  -- A refusal gives back what is reserved.
  unfoldable pub or_release :
      ℤ → Option PortError × W → Action W Done → Result LifecycleError Done × W
  or_release execution (none, w) next = next w
  or_release execution (some e, w) next = (err (port_err e), (p.release execution w).1)

  -- The loop over the clusters.
  unfoldable pub reserve_each : List Text → ℤ → ℤ → Time → Time → ℤ → Action W Done
  unfolding or_release
  reserve_each [] tenant units start end execution w = (ok tt, w)
  reserve_each (cluster ∷ rest) tenant units start end execution w =
      or_release execution (p.reserve tenant cluster units start end execution w)
        (reserve_each rest tenant units start end execution)

  -- What is read is stored, where it can be read.
  unfoldable pub upload_read : Text → Result PortError Text → W → W
  upload_read key (err e) w = w
  upload_read key (ok raw) w = (p.upload key raw w).1

  -- The copy of one shard's config under the run's own key.
  unfoldable pub snapshot_config : ℤ → ℤ → ℤ → W → W
  unfolding run_shard_key deployed_config_key upload_read
  snapshot_config run scenario shard w =
      upload_read (run_shard_key run scenario shard (chars "yml"))
        (p.download (deployed_config_key scenario shard) w) w

  unfoldable pub snapshot_shards : ℤ → ℤ → ℕ → ℕ → W → W
  unfolding snapshot_config
  snapshot_shards run scenario i zero w = w
  snapshot_shards run scenario i (suc left) w =
      snapshot_shards run scenario (suc i) left (snapshot_config run scenario (pos i) w)

  -- `snapshotConfigs`, one shard after the other.
  unfoldable pub snapshot_configs : ℤ → List Entry → W → W
  unfolding snapshot_shards
  snapshot_configs run [] w = w
  snapshot_configs run (ep ∷ scenarios) w =
      snapshot_configs run scenarios (snapshot_shards run ep.scenario_id 0 (pos_part ep.engines) w)

  -- The loop that marks the scenarios, with the errors in their order.
  unfoldable pub mark_each : ℤ → List Entry → W → List PortError × W
  mark_each execution [] w = ([], w)
  mark_each execution (ep ∷ scenarios) w =
      let (e, w') = p.mark_scenario_running execution ep.scenario_id w in
      let (errors, w'') = mark_each execution scenarios w' in
      (elim e [ none ↦ errors | some x ↦ x ∷ errors ], w'')

  -- The usage launch of a project's owner, where the project can be read.
  unfoldable pub record_owner : Result PortError String → Execution → Profile → ℤ → W → W
  unfolding fan_out_engines
  record_owner (err e) coll ec execution w = w
  record_owner (ok owner) coll ec execution w =
      (p.record_start execution owner (fan_out_engines (total_engines ec) coll) (virtual_users ec)
        w).1

  unfoldable pub record_launch : Execution → Profile → ℤ → Action W Done
  unfolding record_owner
  record_launch coll ec execution w =
      (ok tt, record_owner (p.project_owner coll.project_id w) coll ec execution w)

  -- The end of Trigger: its errors, or the launch.
  unfoldable pub report_marks : Execution → List Entry → ℤ → List PortError → Action W Done
  unfolding record_launch
  report_marks coll scenarios execution [] w =
      record_launch coll (profile_of execution coll scenarios) execution w
  report_marks coll scenarios execution (e ∷ errors) w = (err (trigger_errs (e ∷ errors)), w)

  -- What becomes of the run once its scenarios are marked: where none could be, it is stopped.
  unfoldable pub settle_run : Execution → List Entry → ℤ → List PortError → Action W Done
  unfolding report_marks
  settle_run coll scenarios execution errors w =
      report_marks coll scenarios execution errors
        (if length errors == length scenarios then (p.stop_run execution w).1 else w)

  -- The run once it is started, or the refusal to start it.
  unfoldable pub start_scenarios :
      Execution → List Entry → ℤ → Result PortError ℤ × W → Result LifecycleError Done × W
  unfolding snapshot_configs mark_each settle_run
  start_scenarios coll scenarios execution (err e, w) = (err (port_err e), w)
  start_scenarios coll scenarios execution (ok run_id, w) =
      let touched = (p.touch_activity execution w).1 in
      let (errors, marked) =
        mark_each execution scenarios (snapshot_configs run_id scenarios touched) in
      settle_run coll scenarios execution errors marked

  unfoldable pub open_run : Execution → List Entry → ℤ → Action W Done
  unfolding start_scenarios
  open_run coll scenarios execution = read (p.pending_correlation_id execution) >>= λ correlation w.
      start_scenarios coll scenarios execution (p.start_run execution correlation w)

  module _ (fl : Float64) (quantities : Quantities) (now : Time) where
    unfoldable pub reserve_for : Option ℤ → Execution → Profile → ℤ → Action W Done
    unfolding engine_equivalents reserve_each
    reserve_for none coll ec execution = pure tt
    reserve_for (some tenant) coll ec execution =
        reading (λ _. engine_equivalents fl quantities coll.cpu coll.memory (total_engines ec))
        >>= λ units.
            reserve_each (clusters coll) tenant units now
              (now +ℤ seconds (longest_duration_seconds ec)) execution

    unfoldable pub reserve_quota : Execution → List Entry → ℤ → Action W Done
    unfolding reserve_for
    reserve_quota coll scenarios execution =
        reserve_for coll.tenant_id coll (profile_of execution coll scenarios) execution

    unfoldable pub trigger : ℤ → Action W Done
    unfolding check_trigger reserve_quota open_run
    trigger execution = reading (check_trigger p execution) >>= λ checked.
        let (coll, scenarios) = checked in
        reserve_quota coll scenarios execution >> open_run coll scenarios execution
