-- ===== src/Lifecycle/Trigger/Ready.antt =====
-- When a run may start.
use honryu.Base.{◌≡◌, ◌↔◌, refl, subst, List, Option, none, String, All, ok, and_then, same_ok}
use honryu.Base.Ints.{ℤ}
use honryu.Execution.{Execution}
use honryu.LoadProfile.{Entry}
use honryu.Lifecycle.Ports.{Ports}
use honryu.Lifecycle.Actions.{ported}
use honryu.Lifecycle.Check.{
  ensure_test_files, not_frozen, check_engines, check_profile, check_freeze, check_trigger,
}
use honryu.Lifecycle.Chains.{not_frozen-none, query_then-ok, check_then-ok}
use honryu.Lifecycle.Trigger.Engines.{
  HasFile, EnginesReady, ensure_test_files-HasFile, check_engines-EnginesReady,
}

module _ {W : Type 0} (p : Ports W) (execution : ℤ) (w : W) where
  -- What Trigger asks for.
  abbrev pub MayStart : Execution → List Entry → Type 0
  MayStart coll scenarios =
      (p.get_execution execution w ≡ ok coll)
      × (p.is_frozen coll.project_id execution w ≡ ok none)
      × (p.load_profile_for execution w ≡ ok scenarios)
      × All (HasFile p execution w) scenarios
      × EnginesReady p execution w coll scenarios

  -- Trigger goes on with an execution and its profile exactly when no campaign freezes them, every native
  -- scenario has a test file, nothing runs, there are engines, as many as the profile counts, on each
  -- target cluster of a fan-out too, and none of them has finished.
  pub check_trigger-MayStart :
      (coll : Execution) (scenarios : List Entry)
      → (check_trigger p execution w ≡ ok (coll, scenarios)) ↔ MayStart coll scenarios
  unfolding check_trigger check_freeze check_profile
  check_trigger-MayStart coll scenarios =
      let both : Execution × List Entry = (coll, scenarios) in
      let execution_read =
        query_then-ok (p.get_execution execution w)
          (λ c.
            and_then (ported (p.is_frozen c.project_id execution w)) (check_freeze p execution c w))
          both in
      let freeze_read = λ (c : Execution).
        query_then-ok (p.is_frozen c.project_id execution w) (check_freeze p execution c w) both in
      let freeze = λ (c : Execution) (o : Option String).
        check_then-ok (not_frozen o)
          (and_then (ported (p.load_profile_for execution w)) (check_profile p execution c w))
          both in
      let profile_read = λ (c : Execution).
        query_then-ok (p.load_profile_for execution w) (check_profile p execution c w) both in
      let files = λ (c : Execution) (es : List Entry).
        check_then-ok (ensure_test_files p es w)
          (and_then (check_engines p execution c es w) (λ _. ok (c, es))) both in
      let engines = λ (c : Execution) (es : List Entry).
        check_then-ok (check_engines p execution c es w) (ok (c, es)) both in
      (
        λ h.
            let (c, known, a) = execution_read.0 h in
            let (blocked, free, b) = (freeze_read c).0 a in
            let (thawed, d) = (freeze c blocked).0 b in
            let (es, profile, g) = (profile_read c).0 d in
            let (with_files, k) = (files c es).0 g in
            let (ready, same) = (engines c es).0 k in
            subst (λ x. MayStart x.0 x.1) (same_ok same)
              (
                known,
                subst (λ o. p.is_frozen c.project_id execution w ≡ ok o)
                    ((not_frozen-none blocked tt).0 thawed) free,
                profile,
                (ensure_test_files-HasFile p execution w es).0 with_files,
                (check_engines-EnginesReady p execution w c es).0 ready,
              ),
        λ (known, free, profile, with_files, ready). execution_read.1 (
          coll,
          known,
          (freeze_read coll).1 (
            none,
            free,
            (freeze coll none).1 (
              refl,
              (profile_read coll).1 (
                scenarios,
                profile,
                (files coll scenarios).1 (
                  (ensure_test_files-HasFile p execution w scenarios).1 with_files,
                  (engines coll scenarios).1
                      ((check_engines-EnginesReady p execution w coll scenarios).1 ready, refl),
                ),
              ),
            ),
          ),
        ),
      )
