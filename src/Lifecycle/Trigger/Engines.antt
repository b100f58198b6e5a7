-- ===== src/Lifecycle/Trigger/Engines.antt =====
-- When the files and the engines of a profile are ready.
use honryu.Base.{
  ◌≡◌, ◌⊎◌, ◌↔◌, refl, sym, ◌∙◌, subst, inl, inr, Bool, true, false, List, [], ◌∷◌, Option, none,
  some, if◌then◌else◌, is_empty, All, arith, ok, err, and_then, and_then-ok, same_ok,
}
use honryu.Base.Ints.{ℤ, pos, ◌<ℤ◌, ◌≤ℤ◌, ltb_ℤ}
use honryu.Base.Text.{Text}
use honryu.Execution.{Execution, is_fan_out}
use honryu.LoadProfile.{Entry, Profile, total_engines}
use honryu.Run.{derive_phase, can_trigger, trigger_in}
use honryu.Lifecycle.Ports.{Ports, ScenarioFiles, ExecutionStatus}
use honryu.Lifecycle.Actions.{ported, no_test_file, short_cluster}
use honryu.Lifecycle.Check.{
  plan_refs, profile_of, sum_shards, execution_status_across, require_ready,
  require_every_cluster_ready, has_test_file, ensure_test_file, ensure_test_files, phase_permits,
  no_orphans, check_pool, check_engines, is_running,
}
use honryu.Lifecycle.Chains.{
  no_orphans-empty, permits, query_then-ok, cluster_then-ok, check_then-ok, if_checked, at_least,
  if_refused,
}

can_trigger-Iff :
    (pool : ℤ) (runs : Bool) (ec : Profile)
    → (can_trigger (derive_phase pool runs) ec pool ≡ none)
      ↔ (runs ≡ false) × (is_empty ec.tests ≡ false) × (pos 0 <ℤ pool) × (total_engines ec ≤ℤ pool)
unfolding can_trigger trigger_in derive_phase
can_trigger-Iff pool true ec = ground arith
can_trigger-Iff pool false ec = ground arith

module _ {W : Type 0} (p : Ports W) (execution : ℤ) (w : W) where
  -- A scenario is portable, or it has a test file.
  abbrev pub HasFile : Entry → Type 0
  HasFile ep =
      (p.is_native ep.scenario_id w ≡ ok false)
      ⊎ ((p.is_native ep.scenario_id w ≡ ok true)
          × ((pf : ScenarioFiles) × (p.scenario_files_for ep.scenario_id w ≡ ok pf)
              × (is_empty pf.test_file ≡ false)))

  -- A cluster's own pool has the engines of the whole profile.
  abbrev pub IsReady : List Entry → Text → Type 0
  IsReady scenarios cluster =
      (st : ExecutionStatus) × (p.execution_status cluster execution (plan_refs scenarios) w
        ≡ ok st)
      × (sum_shards (pos 0) (plan_refs scenarios) ≤ℤ st.pool_size)

  -- The engines of a profile: nothing runs on them, there are as many as it counts, on every target
  -- cluster too, and none has finished.
  abbrev pub EnginesReady : Execution → List Entry → Type 0
  EnginesReady coll scenarios =
      (p.current_run execution w ≡ ok none)
      × ((status : ExecutionStatus) × (execution_status_across p coll execution
              (plan_refs scenarios) w
            ≡ ok status)
          × (pos 0 <ℤ status.pool_size)
          × (total_engines (profile_of execution coll scenarios) ≤ℤ status.pool_size))
      × (is_empty scenarios ≡ false)
      × (is_fan_out coll ≡ true → All (IsReady scenarios) coll.fan_out_targets)
      × (p.orphan_completions execution w ≡ ok [])

  file_present :
      (s : ℤ) (pf : ScenarioFiles) → (has_test_file s pf ≡ ok tt) ↔ (is_empty pf.test_file ≡ false)
  file_present s pf =
      let either = if_refused (is_empty pf.test_file) (no_test_file (some s)) (ok tt) tt in
      (λ h. (either.0 h).0, λ h. either.1 (h, refl))

  ensure_test_file-HasFile :
      (ep : Entry) (native : Bool)
      → p.is_native ep.scenario_id w ≡ ok native
      → (ensure_test_file p ep.scenario_id native w ≡ ok tt) ↔ HasFile ep
  unfolding ensure_test_file
  ensure_test_file-HasFile ep false known = (λ h. inl known, λ h. refl)
  ensure_test_file-HasFile ep true known =
      let chain =
        query_then-ok (p.scenario_files_for ep.scenario_id w) (has_test_file ep.scenario_id) tt in
      (
        λ h.
            let (pf, found, here) = chain.0 h in
            inr (known, (pf, found, (file_present ep.scenario_id pf).0 here)),
        λ h. chain.1 (found_of h),
      )
    where
      found_of :
          HasFile ep
          → (pf : ScenarioFiles) × (p.scenario_files_for ep.scenario_id w ≡ ok pf)
            × (has_test_file ep.scenario_id pf ≡ ok tt)
      found_of (inl portable) = absurd (native_clash (same_ok (sym portable ∙ known)))
        where
          native_clash : false ≡ true → ⊥
          native_clash e = cc
      found_of (inr (_, (pf, found, here))) = (pf, found, (file_present ep.scenario_id pf).1 here)

  pub ensure_test_files-HasFile :
      (scenarios : List Entry) → (ensure_test_files p scenarios w ≡ ok tt) ↔ All HasFile scenarios
  unfolding ensure_test_files
  ensure_test_files-HasFile [] = (λ h. tt, λ h. refl)
  ensure_test_files-HasFile (ep ∷ scenarios) =
      let each = λ (native : Bool).
        check_then-ok (ensure_test_file p ep.scenario_id native w) (ensure_test_files p scenarios w)
          tt in
      let chain =
        query_then-ok (p.is_native ep.scenario_id w)
          (λ native.
            and_then (ensure_test_file p ep.scenario_id native w)
              (λ _. ensure_test_files p scenarios w))
          tt in
      let rest = ensure_test_files-HasFile scenarios in
      (
        λ h.
            let (native, known, more) = chain.0 h in
            let (one, others) = (each native).0 more in
            ((ensure_test_file-HasFile ep native known).0 one, rest.0 others),
        λ (one, others).
            let (native, known) = kind_of one in
            chain.1 (
              native,
              known,
              (each native).1 ((ensure_test_file-HasFile ep native known).1 one, rest.1 others),
            ),
      )
    where
      kind_of : HasFile ep → (native : Bool) × (p.is_native ep.scenario_id w ≡ ok native)
      kind_of (inl portable) = (false, portable)
      kind_of (inr (native, _)) = (true, native)

  require_ready-IsReady :
      (scenarios : List Entry) (targets : List Text)
      → (require_ready p targets execution
            (plan_refs scenarios)
            (sum_shards (pos 0) (plan_refs scenarios))
            w
          ≡ ok tt)
        ↔ All (IsReady scenarios) targets
  unfolding require_ready
  require_ready-IsReady scenarios [] = (λ h. tt, λ h. refl)
  require_ready-IsReady scenarios (c ∷ targets) =
      let refs = plan_refs scenarios in
      let wanted : ℤ = sum_shards (pos 0) refs in
      let rest = require_ready-IsReady scenarios targets in
      let more = require_ready p targets execution refs wanted w in
      let each = λ (st : ExecutionStatus).
        if_refused (ltb_ℤ st.pool_size wanted) (short_cluster c st.pool_size wanted) more tt in
      let chain =
        cluster_then-ok c (p.execution_status c execution refs w)
          (λ st.
            if ltb_ℤ st.pool_size wanted then err (short_cluster c st.pool_size wanted) else more)
          tt in
      (
        λ h.
            let (st, found, here) = chain.0 h in
            let (enough, others) = (each st).0 here in
            ((st, found, (at_least st.pool_size wanted).0 enough), rest.0 others),
        λ ((st, found, enough), others).
            chain.1
              (st, found, (each st).1 ((at_least st.pool_size wanted).1 enough, rest.1 others)),
      )

  -- What `check_pool` asks for.
  abbrev PoolReady : Execution → List Entry → Option ℤ → ExecutionStatus → Type 0
  PoolReady coll scenarios current status =
      (is_fan_out coll ≡ true → All (IsReady scenarios) coll.fan_out_targets)
      × ((is_running current ≡ false)
          × (is_empty scenarios ≡ false)
          × (pos 0 <ℤ status.pool_size)
          × (total_engines (profile_of execution coll scenarios) ≤ℤ status.pool_size))
      × (p.orphan_completions execution w ≡ ok [])

  check_pool-PoolReady :
      (coll : Execution) (scenarios : List Entry) (current : Option ℤ) (status : ExecutionStatus)
      → (check_pool p execution coll scenarios current status w ≡ ok tt)
        ↔ PoolReady coll scenarios current status
  unfolding check_pool require_every_cluster_ready
  check_pool-PoolReady coll scenarios current status =
      let every = require_every_cluster_ready p coll execution (plan_refs scenarios) w in
      let phase =
        can_trigger (derive_phase status.pool_size (is_running current))
          (profile_of execution coll scenarios) status.pool_size in
      let last = and_then (ported (p.orphan_completions execution w)) no_orphans in
      let fan =
        check_then-ok (if is_fan_out coll then every else ok tt)
          (and_then (phase_permits phase) (λ _. last)) tt in
      let may = check_then-ok (phase_permits phase) last tt in
      let orphans = query_then-ok (p.orphan_completions execution w) no_orphans tt in
      let targets = require_ready-IsReady scenarios coll.fan_out_targets in
      let guard =
        can_trigger-Iff status.pool_size (is_running current)
          (profile_of execution coll scenarios) in
      let fanned = if_checked (is_fan_out coll) every in
      (
        λ h.
            let (all, rest) = fan.0 h in
            let (go, more) = may.0 rest in
            let (found, known, none_left) = orphans.0 more in
            (
              λ e. targets.0 (fanned.0 all e),
              guard.0 ((permits phase tt).0 go),
              subst (λ o. p.orphan_completions execution w ≡ ok o)
                  ((no_orphans-empty found tt).0 none_left) known,
            ),
        λ (all, pool, none_left). fan.1 (
          fanned.1 (λ e. targets.1 (all e)),
          may.1 ((permits phase tt).1 (guard.1 pool), orphans.1 ([], none_left, refl)),
        ),
      )

  none_running : (o : Option ℤ) → is_running o ≡ false → o ≡ none
  none_running none h = refl
  none_running (some run) h = cc

  pub check_engines-EnginesReady :
      (coll : Execution) (scenarios : List Entry)
      → (check_engines p execution coll scenarios w ≡ ok tt) ↔ EnginesReady coll scenarios
  unfolding check_engines
  check_engines-EnginesReady coll scenarios =
      let refs = plan_refs scenarios in
      let across = execution_status_across p coll execution refs w in
      let outer =
        query_then-ok (p.current_run execution w)
          (λ current.
            and_then across (λ status. check_pool p execution coll scenarios current status w))
          tt in
      let inner = λ (current : Option ℤ).
        and_then-ok across (λ status. check_pool p execution coll scenarios current status w) tt in
      (
        λ h.
            let (current, known, more) = outer.0 h in
            let (status, found, rest) = (inner current).0 more in
            let (all, (idle, some_scenario, some_engine, enough), none_left) =
              (check_pool-PoolReady coll scenarios current status).0 rest in
            (
              subst (λ o. p.current_run execution w ≡ ok o) (none_running current idle) known,
              (status, found, some_engine, enough),
              some_scenario,
              all,
              none_left,
            ),
        λ (idle, (status, found, some_engine, enough), some_scenario, all, none_left). outer.1 (
          none,
          idle,
          (inner none).1 (
            status,
            found,
            (check_pool-PoolReady coll scenarios none status).1
                (all, (refl, some_scenario, some_engine, enough), none_left),
          ),
        ),
      )
