-- ===== src/Lifecycle/Deploy/Shares.antt =====
-- What is compiled for the pods of a scenario without a staircase.
use honryu.Base.{
  map, suc, ℕ, ◌≡◌, refl, sym, ap, ◌∙◌, subst, Bool, false, List, [], ◌∷◌, String, length, All,
  Result, ok, err, same_ok, ◌<◌, ◌^◌, ◌&&◌, is_empty, none, failed_not_ok, if◌then◌else◌,
}
use honryu.Base.Ints.{ℤ, pos, ◌+ℤ◌, wrap64, ltb_ℤ, pos_part}
use honryu.Base.Floats.{Float64}
use honryu.Base.Text.{Text}
use honryu.Execution.{Execution}
use honryu.LoadProfile.{Entry}
use honryu.Shard.{Shard, ShardError, plan, total, total_from}
use honryu.Shard.Totals.{total-plan}
use honryu.Lifecycle.Ports.{Ports, ShardSpec, ScenarioFiles}
use honryu.Lifecycle.Actions.{
  LifecycleError, Done, Action, shard_err, no_test_file, read, reading, and_do, pure, ◌>>=◌,
}
use honryu.Lifecycle.Chains.{and_do-ok}
use honryu.Lifecycle.Deploy.{
  Compiler, CompileInput, ScenarioInput, shard_tests, staged, compile_each, compile_shards, planned,
  download_files, scenario_input,
}

-- The users and the rate of a list of entries, summed as `Total` sums the shards'.
abbrev pub load_from : ℤ → ℤ → List Entry → ℤ × ℤ
load_from users rate [] = (users, rate)
load_from users rate (t ∷ ts) =
    load_from (wrap64 (users +ℤ t.concurrency)) (wrap64 (rate +ℤ t.throughput)) ts

-- An entry that is another but for its load.
abbrev pub IsShareOf : Entry → Entry → Type 0
IsShareOf entry t =
    record t { concurrency = entry.concurrency; throughput = entry.throughput } ≡ entry

-- Each spec's config is compiled from one of the entries alone, with the trace headers, and counts its users.
abbrev pub IsCompiledFrom : Compiler → List (Text × Text) → List Entry → List ShardSpec → Type 0
IsCompiledFrom compiler tracing [] [] = Unit
IsCompiledFrom compiler tracing [] (spec ∷ specs) = ⊥
IsCompiledFrom compiler tracing (t ∷ ts) [] = ⊥
IsCompiledFrom compiler tracing (t ∷ ts) (spec ∷ specs) =
    ((input : CompileInput) × (compiler.compile input ≡ ok spec.config)
      × (input.tests ≡ t ∷ [])
      × (input.headers ≡ tracing)
      × (spec.concurrency ≡ t.concurrency))
    × IsCompiledFrom compiler tracing ts specs

share : Entry → Shard → Entry
share entry sh = record entry { concurrency = sh.concurrency; throughput = sh.throughput }

shares-IsShareOf :
    (entry : Entry) (shards : List Shard) → All (IsShareOf entry) (map (share entry) shards)
unfolding share
shares-IsShareOf entry [] = tt
shares-IsShareOf entry (sh ∷ shards) = (refl, shares-IsShareOf entry shards)

load_from-shares :
    (entry : Entry) (shards : List Shard) (users rate : ℤ)
    → load_from users rate (map (share entry) shards) ≡ total_from users rate shards
unfolding share total_from
load_from-shares entry [] users rate = refl
load_from-shares entry (sh ∷ shards) users rate =
    load_from-shares entry shards (wrap64 (users +ℤ sh.concurrency))
      (wrap64 (rate +ℤ sh.throughput))

planned-plan :
    (ep : Entry) (shards : List Shard) → planned ep ≡ ok shards → plan ep ep.engines ≡ ok shards
planned-plan ep shards h = by_plan (plan ep ep.engines) h
  where
    by_plan :
        (r : Result ShardError (List Shard))
        → Path
            (Result LifecycleError (List Shard))
            (elim r [ err e ↦ err (shard_err e) | ok ss ↦ ok ss ])
            (ok shards)
        → r ≡ ok shards
    by_plan (err e) g = absurd (failed_not_ok g)
    by_plan (ok ss) g = ap ok (same_ok g)

planned-load :
    (entry : Entry) (shards : List Shard)
    → planned entry ≡ ok shards
    → ltb_ℤ entry.throughput (pos 0) ≡ false
    → pos_part entry.concurrency < 2 ^ 63
    → pos_part entry.throughput < 2 ^ 63
    → total_from (pos 0) (pos 0) shards ≡ (entry.concurrency, entry.throughput)
unfolding total
planned-load entry shards plans nonneg hc ht =
    total-plan entry entry.engines shards (planned-plan entry shards plans) nonneg hc ht

shard_tests-share :
    (fl : Float64) (entry : Entry) (pods i : ℕ) (sh : Shard)
    → ltb_ℤ (pos 1) entry.steps ≡ false
    → shard_tests fl entry pods i sh ≡ share entry sh ∷ []
unfolding shard_tests share
shard_tests-share fl entry pods i sh flat = simp flat refl

module _ (fl : Float64) {W : Type 0} (p : Ports W) (compiler : Compiler) where
  staged-compiled :
      (scenario : ℤ) (sh : Shard) (r : Result String Text) (spec : ShardSpec) (w : W)
      → (staged fl p compiler scenario sh r w).0 ≡ ok spec
      → (r ≡ ok spec.config) × (spec.concurrency ≡ sh.concurrency)
  unfolding staged
  staged-compiled scenario sh (err e) spec w h = absurd (failed_not_ok h)
  staged-compiled scenario sh (ok raw) spec w h =
      (ap (λ s. ok s.config) (same_ok h), ap (λ s. s.concurrency) (sym (same_ok h)))

  compile_each-IsCompiledFrom :
      (entry : Entry) (pods i : ℕ) (input : CompileInput) (shards : List Shard)
      (specs : List ShardSpec) (w : W)
      → ltb_ℤ (pos 1) entry.steps ≡ false
      → (compile_each fl p compiler entry pods i input shards w).0 ≡ ok specs
      → IsCompiledFrom compiler input.headers (map (share entry) shards) specs
  unfolding compile_each share
  compile_each-IsCompiledFrom entry pods i input [] specs w flat h =
      subst (IsCompiledFrom compiler input.headers []) (same_ok h) tt
  compile_each-IsCompiledFrom entry pods i input (sh ∷ shards) specs w flat h =
      let (spec, g, same) =
        and_do-ok (one w) (λ spec. rest >>= λ specs. pure (spec ∷ specs)) specs h in
      let h' = subst (λ r. r.0 ≡ ok specs) same h in
      let (specs', g', same') =
        and_do-ok (rest (one w).1) (λ specs. pure (spec ∷ specs)) specs h' in
      let h'' = subst (λ r. r.0 ≡ ok specs) same' h' in
      let (from, users) = staged-compiled entry.scenario_id sh (compiler.compile mine) spec w g in
      subst (IsCompiledFrom compiler input.headers (map (share entry) (sh ∷ shards))) (same_ok h'')
        (
          (mine, from, shard_tests-share fl entry pods i sh flat, refl, users),
          compile_each-IsCompiledFrom entry pods (suc i) input shards specs' (one w).1 flat g',
        )
    where
      mine : CompileInput
      mine = record input {
        tests = shard_tests fl entry pods i sh;
        sequential = ltb_ℤ (pos 1) entry.steps;
      }

      one : Action W ShardSpec
      one = staged fl p compiler entry.scenario_id sh (compiler.compile mine)

      rest : Action W (List ShardSpec)
      rest = compile_each fl p compiler entry pods (suc i) input shards

  -- A step of a chain that succeeds, and the rest of it.
  step_ok :
      {A B : Type 0} (r : Result LifecycleError A × W) (k : A → Action W B) (b : B)
      → (and_do r k).0 ≡ ok b
      → (a : A) × (w : W) × ((k a w).0 ≡ ok b)
  step_ok r k b h = let (a, _, same) = and_do-ok r k b h in (a, r.1, subst (λ x. x.0 ≡ ok b) same h)

  -- The configs of a planned entry's pods, where it is no staircase, are compiled each from an entry of its own
  -- that differs from the planned one in its load only, and with the trace headers; between them those
  -- entries carry the planned entry's users and its rate.
  pub compile_shards-IsCompiledFrom :
      (exe : Execution) (entry : Entry) (shards : List Shard) (engine : String)
      (tracing : List (Text × Text)) (specs : List ShardSpec) (files : List (Text × Text)) (w : W)
      → planned entry ≡ ok shards
      → ltb_ℤ (pos 1) entry.steps ≡ false
      → ltb_ℤ entry.throughput (pos 0) ≡ false
      → pos_part entry.concurrency < 2 ^ 63
      → pos_part entry.throughput < 2 ^ 63
      → (compile_shards fl p compiler exe entry shards engine tracing w).0 ≡ ok (specs, files)
      → (ts : List Entry) × IsCompiledFrom compiler tracing ts specs
        × All (IsShareOf entry) ts
        × (load_from (pos 0) (pos 0) ts ≡ (entry.concurrency, entry.throughput))
  unfolding compile_shards
  compile_shards-IsCompiledFrom exe entry shards engine tracing specs files w plans flat nonneg hc
        ht h =
      let (native, w1, h1) =
        step_ok (read (p.is_native entry.scenario_id) w) after_native (specs, files) h in
      let (pf, w2, h2) =
        step_ok (read (p.scenario_files_for entry.scenario_id) w1) (after_files native)
          (specs, files) h1 in
      let (d, w3, h3) =
        step_ok (reading (λ _. has_script native pf) w2) (λ _. after_script native pf)
          (specs, files) h2 in
      let (fs, w4, h4) =
        step_ok
          (reading (download_files fl p compiler entry.scenario_id (pf.test_file ∷ pf.data_files))
            w3)
          (after_download native pf) (specs, files) h3 in
      let (si, w5, h5) =
        step_ok (reading (scenario_input fl p compiler entry.scenario_id native pf) w4)
          (after_input fs) (specs, files) h4 in
      let (criteria, w6, h6) =
        step_ok (read (p.criteria_for exe.id) w5) (after_criteria fs si) (specs, files) h5 in
      let (specs', g, same) =
        and_do-ok (compiled si criteria w6) (λ ss. pure (ss, fs)) (specs, files) h6 in
      let shape = same_ok (subst (λ r. r.0 ≡ ok (specs, files)) same h6) in
      (
        map (share entry) shards,
        subst
            (λ (r : List ShardSpec × List (Text × Text)).
              IsCompiledFrom compiler tracing (map (share entry) shards) r.0)
            shape
            (compile_each-IsCompiledFrom entry (length shards) 0 (input si criteria) shards specs'
              w6 flat g),
        shares-IsShareOf entry shards,
        load_from-shares entry shards (pos 0) (pos 0)
            ∙ planned-load entry shards plans nonneg hc ht,
      )
    where
      input : ScenarioInput → List String → CompileInput
      input si criteria = record {
        execution = exe;
        tests = [];
        engine = engine;
        scenario = si;
        headers = tracing;
        criteria = criteria;
        sequential = false;
      }

      compiled : ScenarioInput → List String → Action W (List ShardSpec)
      compiled si criteria =
          compile_each fl p compiler entry (length shards) 0 (input si criteria) shards

      after_criteria :
          List (Text × Text)
          → ScenarioInput
          → List String
          → Action W (List ShardSpec × List (Text × Text))
      after_criteria fs si criteria = compiled si criteria >>= λ ss. pure (ss, fs)

      after_input :
          List (Text × Text) → ScenarioInput → Action W (List ShardSpec × List (Text × Text))
      after_input fs si = read (p.criteria_for exe.id) >>= after_criteria fs si

      after_download :
          Bool → ScenarioFiles → List (Text × Text) → Action W (List ShardSpec × List (Text × Text))
      after_download native pf fs =
          reading (scenario_input fl p compiler entry.scenario_id native pf) >>= after_input fs

      after_script : Bool → ScenarioFiles → Action W (List ShardSpec × List (Text × Text))
      after_script native pf =
          reading (download_files fl p compiler entry.scenario_id (pf.test_file ∷ pf.data_files))
          >>= after_download native pf

      has_script : Bool → ScenarioFiles → Result LifecycleError Done
      has_script native pf =
          if native && is_empty pf.test_file then err (no_test_file none) else ok (tt {0})

      after_files : Bool → ScenarioFiles → Action W (List ShardSpec × List (Text × Text))
      after_files native pf = reading (λ _. has_script native pf) >>= λ _. after_script native pf

      after_native : Bool → Action W (List ShardSpec × List (Text × Text))
      after_native native = read (p.scenario_files_for entry.scenario_id) >>= after_files native
