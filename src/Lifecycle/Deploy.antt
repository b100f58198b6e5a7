-- ===== src/Lifecycle/Deploy.antt =====
-- Deploy: the engines of every scenario on every cluster, each with its share of the load.
pub mod Shares
pub mod Plateaus
use honryu.Base.{
  ℕ, suc, Bool, true, false, ◌&&◌, ◌||◌, not, List, [], ◌∷◌, ◌++◌, map, Option, none, some, String,
  str_eq, if◌then◌else◌, is_empty, length, Result, ok, err,
}
use honryu.Base.Ints.{ℤ, pos, ltb_ℤ}
use honryu.Base.Floats.{Float64}
use honryu.Base.Maps.{store}
use honryu.Base.Text.{Text, chars, itoa, same_text}
use honryu.Execution.{Execution, clusters}
use honryu.LoadMode.Staircase.{StaircaseStep, staircase_steps}
use honryu.LoadProfile.{Entry}
use honryu.Run.{derive_phase, can_deploy, no_scenarios}
use honryu.Shard.{Shard, split, plan}
use honryu.Lifecycle.Ports.{
  Ports, PortError, not_found, run_active, failure, ScenarioFiles, ShardSpec, DeploySpec,
  TraceContext,
}
use honryu.Lifecycle.Actions.{
  LifecycleError, Done, Action, port_err, run_err, shard_err, no_test_file, missing_file,
  bad_requests, compile_err, pure, and_do, reading, read, run, cluster_failed, ◌>>=◌, ◌>>◌,
}
use honryu.Lifecycle.Check.{is_running, phase_permits}
use honryu.Lifecycle.Trigger.{deployed_config_key}

-- `Baggage` and `Headers` of internal/domain/telemetry/telemetry.go. A run's correlation id is its trace
-- id.
unfoldable pub baggage : Option ℤ → ℤ → ℤ → Text → Text
unfolding itoa
baggage tenant project execution correlation =
    elim tenant [ none ↦ [] | some t ↦ chars "honryu.tenant=" ++ itoa t ++ chars "," ]
    ++ chars "honryu.service="
    ++ itoa project
    ++ chars ",honryu.execution="
    ++ itoa execution
    ++ chars ",honryu.run="
    ++ correlation

unfoldable pub headers : TraceContext → Option ℤ → ℤ → ℤ → List (Text × Text)
unfolding baggage
headers tc tenant project execution =
    (chars "traceparent", chars "00-" ++ tc.trace_id ++ chars "-" ++ tc.parent_id ++ chars "-00")
    ∷ (chars "baggage", baggage tenant project execution tc.trace_id)
    ∷ []

-- A scenario as it is compiled; a fragment is its text.
pub record ScenarioInput : Type 0 where
  pub scenario_id : ℤ
  pub script_path : Text
  pub fragment : Option Text
  pub data_paths : List Text

pub record CompileInput : Type 0 where
  pub execution : Execution
  pub tests : List Entry
  pub engine : String
  pub scenario : ScenarioInput
  pub headers : List (Text × Text)
  pub criteria : List String
  pub sequential : Bool

-- The YAML package and the compiler to Taurus: whether a fragment parses, and a shard's encoded config.
pub record Compiler : Type 0 where
  pub parse : Text → Option String
  pub compile : CompileInput → Result String Text

unfoldable pub engine_of : Execution → String → String
engine_of exe fallback = if not (str_eq exe.engine "") then exe.engine else fallback

abbrev pub at_least_one : ℤ → ℤ
at_least_one n = if ltb_ℤ n (pos 1) then pos 1 else n

abbrev pub in_pod : Text → Text
in_pod name = chars "/honryu/config/scenario/" ++ name

unfoldable pub scenario_key : ℤ → Text → Text
unfolding itoa
scenario_key scenario name = chars "scenario/" ++ itoa scenario ++ chars "/" ++ name

-- A pod's share of one plateau.
unfoldable pub step_entry : Entry → ℕ → ℕ → StaircaseStep → Entry
unfolding split
step_entry entry pods i st = record entry {
  concurrency = at_least_one (split st.concurrency pods i);
  throughput = at_least_one (split st.throughput pods i);
  rampup = pos 0;
}

unfoldable pub step_entries : Entry → ℕ → ℕ → List StaircaseStep → List Entry
unfolding step_entry
step_entries entry pods i [] = []
step_entries entry pods i (st ∷ steps) =
    step_entry entry pods i st ∷ step_entries entry pods i steps

abbrev pub planned : Entry → Result LifecycleError (List Shard)
planned ep = elim (plan ep ep.engines) [ err e ↦ err (shard_err e) | ok shards ↦ ok shards ]

abbrev pub some_scenarios : List Entry → Result LifecycleError Done
some_scenarios scenarios = if is_empty scenarios then err (run_err no_scenarios) else ok tt

module _ (fl : Float64) where
  -- What a pod runs: its share of the entry, or of each of its plateaus in turn.
  unfoldable pub shard_tests : Entry → ℕ → ℕ → Shard → List Entry
  unfolding step_entries
  shard_tests entry pods i sh =
      if ltb_ℤ (pos 1) entry.steps
      then step_entries entry pods i
          (staircase_steps fl entry.concurrency entry.throughput entry.steps)
      else record entry { concurrency = sh.concurrency; throughput = sh.throughput } ∷ []

  module _ {W : Type 0} (p : Ports W) (compiler : Compiler) where
    -- The files of a scenario, by name; an empty name is passed over.
    unfoldable pub download_files : ℤ → List Text → W → Result LifecycleError (List (Text × Text))
    unfolding scenario_key store same_text
    download_files scenario [] w = ok []
    download_files scenario (name ∷ names) w =
        let rest = download_files scenario names w in
        if is_empty name then rest else elim (p.download (scenario_key scenario name) w) [
          | err e ↦ err (missing_file scenario name e)
          | ok content ↦ elim rest [
            | err e ↦ err e
            | ok files ↦ ok (store same_text name content files)
          ]
        ]

    -- A portable scenario's fragment; one that is not there is left to the compiler.
    unfoldable pub fragment_of : ℤ → Result PortError Text → Result LifecycleError (Option Text)
    fragment_of scenario (err not_found) = ok none
    fragment_of scenario (err run_active) = err (bad_requests scenario run_active)
    fragment_of scenario (err (failure e)) = err (bad_requests scenario (failure e))
    fragment_of scenario (ok raw) = elim (compiler.parse raw) [
      | none ↦ ok (some raw)
      | some e ↦ err (bad_requests scenario (failure e))
    ]

    unfoldable pub scenario_input :
        ℤ → Bool → ScenarioFiles → W → Result LifecycleError ScenarioInput
    unfolding fragment_of
    scenario_input scenario true pf w = ok (record {
      scenario_id = scenario;
      script_path = in_pod pf.test_file;
      fragment = none;
      data_paths = map in_pod pf.data_files;
    })
    scenario_input scenario false pf w =
        elim (fragment_of scenario (p.get_scenario_requests scenario w)) [
          | err e ↦ err e
          | ok fragment ↦ ok (record {
            scenario_id = scenario;
            script_path = [];
            fragment = fragment;
            data_paths = map in_pod pf.data_files;
          })
        ]

    -- One pod's spec, its config staged.
    unfoldable pub staged : ℤ → Shard → Result String Text → Action W ShardSpec
    unfolding deployed_config_key
    staged scenario sh (err e) w = (err (compile_err e), w)
    staged scenario sh (ok raw) w = (
      ok (record { index = sh.index; config = raw; concurrency = sh.concurrency }),
      (p.upload (deployed_config_key scenario (pos sh.index)) raw w).1,
    )

    -- The loop over the shards. The input's tests are set for each.
    unfoldable pub compile_each :
        Entry → ℕ → ℕ → CompileInput → List Shard → Action W (List ShardSpec)
    unfolding staged shard_tests
    compile_each entry pods i input [] = pure []
    compile_each entry pods i input (sh ∷ shards) =
        staged entry.scenario_id sh (
          compiler.compile (record input {
            tests = shard_tests entry pods i sh;
            sequential = ltb_ℤ (pos 1) entry.steps;
          }))
        >>= λ spec. compile_each entry pods (suc i) input shards >>= λ specs. pure (spec ∷ specs)

    unfoldable pub compile_shards :
        Execution
        → Entry
        → List Shard
        → String
        → List (Text × Text)
        → Action W (List ShardSpec × List (Text × Text))
    unfolding download_files scenario_input compile_each
    compile_shards exe entry shards engine tracing =
        let scenario = entry.scenario_id in
        read (p.is_native scenario) >>= λ native. read (p.scenario_files_for scenario) >>= λ pf.
        reading
          (λ _. if native && is_empty pf.test_file then err (no_test_file none) else ok (tt {0}))
        >> (reading (download_files scenario (pf.test_file ∷ pf.data_files)) >>= λ files.
            reading (scenario_input scenario native pf) >>= λ si.
            read (p.criteria_for exe.id) >>= λ criteria.
            let input : CompileInput = record {
              execution = exe;
              tests = [];
              engine = engine;
              scenario = si;
              headers = tracing;
              criteria = criteria;
              sequential = false;
            } in
            compile_each entry (length shards) 0 input shards >>= λ specs. pure (specs, files))

    unfoldable pub deploy_clusters : List Text → DeploySpec → Action W Done
    deploy_clusters [] spec = pure tt
    deploy_clusters (cluster ∷ rest) spec =
        (λ w. cluster_failed cluster (p.deploy_scenario (record spec { cluster = cluster }) w))
        >> deploy_clusters rest spec

    unfoldable pub deploy_each :
        Execution → String → String → List (Text × Text) → ℤ → List Entry → Action W Done
    unfolding compile_shards deploy_clusters
    deploy_each coll image engine tracing execution [] = pure tt
    deploy_each coll image engine tracing execution (ep ∷ scenarios) =
        (reading (λ _. planned ep) >>= λ shards.
        compile_shards coll ep shards engine tracing >>= λ compiled.
        let (specs, files) = compiled in
        deploy_clusters (clusters coll) (record {
          cluster = [];
          project_id = coll.project_id;
          execution_id = execution;
          scenario_id = ep.scenario_id;
          image = image;
          cpu = coll.cpu;
          memory = coll.memory;
          shards = specs;
          scenario_files = files;
        }))
        >> deploy_each coll image engine tracing execution scenarios

    unfoldable pub deploy : String → ℤ → Action W Done
    unfolding deploy_each headers engine_of
    deploy default_engine execution = read (p.get_execution execution) >>= λ coll.
        read (p.load_profile_for execution) >>= λ scenarios.
        reading (λ _. some_scenarios scenarios)
        >> (read (p.current_run execution) >>= λ current.
            reading (λ _. phase_permits (can_deploy (derive_phase (pos 0) (is_running current))))
            >> (read (p.image coll.engine) >>= λ image. read p.trace_context >>= λ tc.
                run (p.set_pending_correlation_id execution tc.trace_id)
                >> (run (p.clear_orphan_completions execution)
                    >> (run (p.touch_activity execution)
                        >> deploy_each coll image (engine_of coll default_engine)
                            (headers tc coll.tenant_id coll.project_id execution) execution
                            scenarios))))
