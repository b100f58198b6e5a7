-- ===== src/Lifecycle/Check.antt =====
-- What Trigger reads before it changes anything, and the status of an execution across its clusters.
use honryu.Base.{
  Bool, true, false, List, [], ◌∷◌, Option, none, some, String, if◌then◌else◌, is_empty, length,
  Result, ok, err, and_then,
}
use honryu.Base.Ints.{ℤ, pos, ◌+ℤ◌, wrap64, eqb_ℤ, ltb_ℤ}
use honryu.Base.Maps.{lookup_or, store}
use honryu.Base.Text.{Text}
use honryu.Execution.{Execution, is_fan_out, clusters}
use honryu.LoadProfile.{Entry, Profile}
use honryu.Run.{RunError, derive_phase, can_trigger}
use honryu.Lifecycle.Ports.{Ports, ScenarioRef, ScenarioReadiness, ScenarioFiles, ExecutionStatus}
use honryu.Lifecycle.Actions.{
  LifecycleError, Done, run_err, campaign_frozen, engines_finished, no_test_file, short_cluster,
  ported, at_cluster,
}

unfoldable pub plan_refs : List Entry → List ScenarioRef
plan_refs [] = []
plan_refs (ep ∷ scenarios) =
    record { scenario_id = ep.scenario_id; shards = ep.engines } ∷ plan_refs scenarios

abbrev pub is_running : Option ℤ → Bool
is_running none = false
is_running (some _) = true

-- The profile that Trigger reads: its name, its project and its criteria are left empty.
abbrev pub profile_of : ℤ → Execution → List Entry → Profile
profile_of execution coll scenarios = record {
  name = "";
  project_id = pos 0;
  execution_id = execution;
  tests = scenarios;
  csv_split = coll.csv_split;
  criteria = [];
}

-- One cluster's readiness of a scenario, added to what is deployed of it and to whether all are
-- reachable.
unfoldable pub add_readiness : List ScenarioReadiness → List (ℤ × ℤ) × Bool → List (ℤ × ℤ) × Bool
unfolding lookup_or store
add_readiness [] total = total
add_readiness (pr ∷ scenarios) (deployed, reachable) = add_readiness scenarios (
  store eqb_ℤ pr.scenario_id
      (wrap64 (lookup_or eqb_ℤ (pos 0) pr.scenario_id deployed +ℤ pr.engines_deployed)) deployed,
  if pr.reachable then reachable else false,
)

-- The scenarios of the summed status.
unfoldable pub readiness_of : List ScenarioRef → List (ℤ × ℤ) → Bool → List ScenarioReadiness
unfolding lookup_or
readiness_of [] deployed reachable = []
readiness_of (ref ∷ refs) deployed reachable =
    record {
      scenario_id = ref.scenario_id;
      engines_wanted = ref.shards;
      engines_deployed = lookup_or eqb_ℤ (pos 0) ref.scenario_id deployed;
      reachable = reachable;
    }
    ∷ readiness_of refs deployed reachable

unfoldable pub sum_shards : ℤ → List ScenarioRef → ℤ
sum_shards wanted [] = wanted
sum_shards wanted (ref ∷ refs) = sum_shards (wrap64 (wanted +ℤ ref.shards)) refs

abbrev pub has_test_file : ℤ → ScenarioFiles → Result LifecycleError Done
has_test_file scenario pf =
    if is_empty pf.test_file then err (no_test_file (some scenario)) else ok tt

abbrev pub not_frozen : Option String → Result LifecycleError Done
not_frozen none = ok tt
not_frozen (some campaign) = err (campaign_frozen campaign)

abbrev pub phase_permits : Option RunError → Result LifecycleError Done
phase_permits none = ok tt
phase_permits (some e) = err (run_err e)

-- `OrphanCompletions` and the refusal where there are some.
abbrev pub no_orphans : {A : Type 0} → List A → Result LifecycleError Done
no_orphans [] = ok tt
no_orphans (oc ∷ orphans) = err (engines_finished (length (oc ∷ orphans)))

module _ {W : Type 0} (p : Ports W) where
  -- The loop over the clusters: the pool, what is deployed and whether all of it is reachable.
  unfoldable pub sum_status :
      List Text
      → ℤ
      → List ScenarioRef
      → ℤ × (List (ℤ × ℤ) × Bool)
      → W
      → Result LifecycleError (ℤ × (List (ℤ × ℤ) × Bool))
  unfolding add_readiness
  sum_status [] execution refs total w = ok total
  sum_status (cluster ∷ rest) execution refs (pool, counts) w =
      and_then (at_cluster cluster (p.execution_status cluster execution refs w)) (λ st.
        sum_status rest execution refs
          (wrap64 (pool +ℤ st.pool_size), add_readiness st.scenarios counts) w)

  unfoldable pub status_of_clusters :
      List Text → ℤ → List ScenarioRef → W → Result LifecycleError ExecutionStatus
  unfolding sum_status readiness_of
  status_of_clusters (cluster ∷ []) execution refs w =
      ported (p.execution_status cluster execution refs w)
  status_of_clusters all execution refs w =
      and_then (sum_status all execution refs (pos 0, ([], true)) w)
        (λ (pool, (deployed, reachable)).
          ok (record { scenarios = readiness_of refs deployed reachable; pool_size = pool }))

  -- `executionStatusAcross`
  unfoldable pub execution_status_across :
      Execution → ℤ → List ScenarioRef → W → Result LifecycleError ExecutionStatus
  unfolding status_of_clusters
  execution_status_across exe execution refs w = status_of_clusters (clusters exe) execution refs w

  -- The loop of `requireEveryClusterReady`.
  unfoldable pub require_ready :
      List Text → ℤ → List ScenarioRef → ℤ → W → Result LifecycleError Done
  require_ready [] execution refs wanted w = ok tt
  require_ready (cluster ∷ rest) execution refs wanted w =
      and_then (at_cluster cluster (p.execution_status cluster execution refs w)) (λ st.
        if ltb_ℤ st.pool_size wanted
        then err (short_cluster cluster st.pool_size wanted)
        else require_ready rest execution refs wanted w)

  unfoldable pub require_every_cluster_ready :
      Execution → ℤ → List ScenarioRef → W → Result LifecycleError Done
  unfolding require_ready sum_shards
  require_every_cluster_ready exe execution refs w =
      require_ready exe.fan_out_targets execution refs (sum_shards (pos 0) refs) w

  unfoldable pub ensure_test_file : ℤ → Bool → W → Result LifecycleError Done
  ensure_test_file scenario false w = ok tt
  ensure_test_file scenario true w =
      and_then (ported (p.scenario_files_for scenario w)) (has_test_file scenario)

  unfoldable pub ensure_test_files : List Entry → W → Result LifecycleError Done
  unfolding ensure_test_file
  ensure_test_files [] w = ok tt
  ensure_test_files (ep ∷ scenarios) w = and_then (ported (p.is_native ep.scenario_id w)) (λ native.
      and_then (ensure_test_file ep.scenario_id native w) (λ _. ensure_test_files scenarios w))

  -- The checks on the engines whose status is read.
  unfoldable pub check_pool :
      ℤ → Execution → List Entry → Option ℤ → ExecutionStatus → W → Result LifecycleError Done
  unfolding require_every_cluster_ready plan_refs
  check_pool execution coll scenarios current status w =
      and_then
        (if is_fan_out coll
          then require_every_cluster_ready coll execution (plan_refs scenarios) w
          else ok tt)
        (λ _.
          and_then
            (phase_permits (
              can_trigger (derive_phase status.pool_size (is_running current))
                (profile_of execution coll scenarios) status.pool_size))
            (λ _. and_then (ported (p.orphan_completions execution w)) no_orphans))

  unfoldable pub check_engines : ℤ → Execution → List Entry → W → Result LifecycleError Done
  unfolding execution_status_across check_pool
  check_engines execution coll scenarios w =
      and_then (ported (p.current_run execution w)) (λ current.
        and_then (execution_status_across coll execution (plan_refs scenarios) w)
          (λ status. check_pool execution coll scenarios current status w))

  unfoldable pub check_profile :
      ℤ → Execution → W → List Entry → Result LifecycleError (Execution × List Entry)
  unfolding ensure_test_files check_engines
  check_profile execution coll w scenarios =
      and_then (ensure_test_files scenarios w)
        (λ _. and_then (check_engines execution coll scenarios w) (λ _. ok (coll, scenarios)))

  unfoldable pub check_freeze :
      ℤ → Execution → W → Option String → Result LifecycleError (Execution × List Entry)
  unfolding check_profile
  check_freeze execution coll w blocked =
      and_then (not_frozen blocked)
        (λ _. and_then (ported (p.load_profile_for execution w)) (check_profile execution coll w))

  -- The execution and its profile, where the run may start.
  unfoldable pub check_trigger : ℤ → W → Result LifecycleError (Execution × List Entry)
  unfolding check_freeze
  check_trigger execution w = and_then (ported (p.get_execution execution w)) (λ coll.
      and_then (ported (p.is_frozen coll.project_id execution w)) (check_freeze execution coll w))
