-- ===== src/Examples/Passes.antt =====
-- The passes over the in-memory ports, and what is shown of a run.
use honryu.Base.{
  ◌≤◌, is_ok, ℕ, ◌≡◌, Bool, ◌↔◌, refl, List, [], ◌∷◌, true, false, none, some, All, Result, ok,
}
use honryu.Base.Ints.{pos, wrap64, ◌+ℤ◌, ◌-ℤ◌}
use honryu.Base.Sorting.{sort_by, insert_by}
use honryu.Base.Times.{time_sub}
use honryu.Base.Text.{Text, chars}
use honryu.Control.{OrphanCompletion}
use honryu.Execution.{clusters, is_fan_out}
use honryu.LoadProfile.{total_engines}
use honryu.Run.{can_deploy, can_trigger, derive_phase}
use honryu.Shard.{plan, shard_at, shards_from, shard_count}
use honryu.Lifecycle.Ports.{OpenRun}
use honryu.Lifecycle.Actions.{LifecycleError}
use honryu.Lifecycle.Check.{check_trigger}
use honryu.Lifecycle.Trigger.{trigger}
use honryu.Lifecycle.Deploy.{deploy}
use honryu.Lifecycle.Sweeps.{reap_idle, orphans_cover_profile, reap_if_idle, close_abandoned}
use honryu.Lifecycle.Sweeps.Covered.{IsCovered, orphans_cover_profile-Covered}
use honryu.Lifecycle.Sweeps.Spared.{
  IsIdle, IsAbandoned, reap_if_idle-Spares, close_abandoned-Spares,
}
use honryu.Lifecycle.Views.{status, cluster_status}
use honryu.Lifecycle.Views.Same.{cluster_status-status}
use honryu.Lifecycle.Sweeps.Reaped.{times, reap_idle_once}
use honryu.Lifecycle.Store.{Store, current_run, start_run, stop_run}
use honryu.Lifecycle.Store.Engines.{
  deployed_times, mark_running, deploy_scenario, status_of, completions,
}
use honryu.Lifecycle.Store.Filled.{
  download, last_activity, last_run, store_ports, set_pending_correlation_id,
  pending_correlation_id, bare_ports,
}
use honryu.Examples.Lifecycles.{shop, browse, ports, deployed, begun}

abbrev orphan : ℕ → OrphanCompletion
orphan shard = record {
  execution_id = pos 1;
  scenario_id = pos 2;
  shard_index = pos shard;
  exit_code = some (pos 0);
  finished_at = pos 0;
}

orphans_cover_profile-Covered_example :
    (orphans_cover_profile (orphan 1 ∷ orphan 0 ∷ []) (browse ∷ []) ≡ true)
    ↔ All (IsCovered (orphan 1 ∷ orphan 0 ∷ [])) (browse ∷ []) × (false ≡ false)
orphans_cover_profile-Covered_example =
    orphans_cover_profile-Covered (orphan 1 ∷ orphan 0 ∷ []) (browse ∷ [])

abbrev swept : Result LifecycleError Bool × Store (Unit {0})
swept = reap_if_idle ports (pos 600) (pos 300) (pos 1) (chars "eu") (pos 0) deployed

reap_if_idle-Spares_example :
    (swept.0 ≡ ok true → IsIdle ports (pos 600) (pos 300) (pos 1) (pos 0) deployed)
    × (swept.0 ≡ ok false → swept.1 ≡ deployed)
reap_if_idle-Spares_example =
    reap_if_idle-Spares ports (pos 600) (pos 300) (pos 1) (chars "eu") (pos 0) deployed

swept_well : swept.0 ≡ ok true
unfolding reap_if_idle last_activity time_sub ◌-ℤ◌ deploy store_ports bare_ports current_run
    can_deploy derive_phase set_pending_correlation_id plan shards_from shard_count clusters
    deploy_scenario download shard_at last_run
swept_well = refl

abbrev left_open : OpenRun
left_open = record { execution_id = pos 1; run_id = pos 1; started_time = pos 0 }

abbrev closed : Result LifecycleError Bool × Store (Unit {0})
closed = close_abandoned ports (pos 900) (pos 600) left_open begun.1

close_abandoned-Spares_example :
    (closed.0 ≡ ok true → IsAbandoned ports (pos 900) (pos 600) left_open begun.1)
    × (closed.0 ≡ ok false → closed.1 ≡ begun.1)
close_abandoned-Spares_example = close_abandoned-Spares ports (pos 900) (pos 600) left_open begun.1

closed_well : closed.0 ≡ ok true
unfolding close_abandoned time_sub ◌-ℤ◌ trigger check_trigger deploy store_ports bare_ports
    current_run can_deploy derive_phase set_pending_correlation_id plan shards_from shard_count
    clusters deploy_scenario can_trigger status_of wrap64 ◌+ℤ◌ total_engines completions start_run
    pending_correlation_id mark_running stop_run shard_at download
closed_well = refl

-- The status of the run that is under way, on its one cluster.
cluster_status-status_example :
    cluster_status ports (pos 1) (chars "eu") begun.1 ≡ status ports (pos 1) begun.1
unfolding trigger check_trigger deploy store_ports bare_ports current_run can_deploy derive_phase
    set_pending_correlation_id plan shards_from shard_count clusters deploy_scenario can_trigger
    status_of wrap64 ◌+ℤ◌ total_engines completions start_run pending_correlation_id mark_running
    download shard_at is_fan_out
cluster_status-status_example = cluster_status-status ports (pos 1) shop begun.1 refl refl

shown_well : is_ok (status ports (pos 1) begun.1) ≡ true
unfolding status trigger check_trigger deploy store_ports bare_ports current_run can_deploy
    derive_phase set_pending_correlation_id plan shards_from shard_count clusters deploy_scenario
    can_trigger status_of wrap64 ◌+ℤ◌ total_engines completions start_run pending_correlation_id
    mark_running download shard_at
shown_well = refl

-- Two clusters that list the same execution.
abbrev both_clusters : List Text
both_clusters = chars "eu" ∷ chars "us" ∷ []

reap_idle_once_example :
    times (pos 1) (reap_idle ports (pos 600) (pos 300) both_clusters deployed).0.0 ≤ 1
reap_idle_once_example = reap_idle_once ports (pos 600) (pos 1) (pos 300) both_clusters deployed

reaped_well : (reap_idle ports (pos 600) (pos 300) both_clusters deployed).0 ≡ (pos 1 ∷ [], none)
unfolding reap_idle sort_by insert_by deployed_times last_activity time_sub ◌-ℤ◌ deploy store_ports
    bare_ports current_run can_deploy derive_phase set_pending_correlation_id plan shards_from
    shard_count clusters deploy_scenario download shard_at last_run
reaped_well = refl
