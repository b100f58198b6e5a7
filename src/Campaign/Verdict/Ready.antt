-- ===== src/Campaign/Verdict/Ready.antt =====
-- When a campaign is a go.
use honryu.Base.{
  ◌≡◌, ◌↔◌, ◌⊎◌, refl, sym, ap, ◌∙◌, subst, inl, inr, Bool, true, false, ◌&&◌, not, List, [], ◌∷◌,
  Option, none, some, String, str_eq, str_eq_iff, Bool-cases, arith, if◌then◌else◌, Result, ok, err,
  and_then, failed_not_ok, same_ok, All,
}
use honryu.Base.Ints.{ℤ}
use honryu.Base.Floats.{Float64}
use honryu.Campaign.{Campaign, Service}
use honryu.Campaign.Verdict.{
  Repository, OtherLoad, ServiceVerdict, CampaignVerdict, is_passed, is_go, count_service,
  of_report, with_criteria, verdict_of, service_verdict, roll_up_service, roll_up, verdict_for,
  verdict, other_load, kind_calibrate_engine,
}
use honryu.Execution.{Execution}
use honryu.Report.Summary.{Report, short_of_request}
use honryu.Taurus.{Outcome, passed, failed, aborted, error}

same_some :
    {E A : Type 0} {a b : A} → Path (Result E (Option A)) (ok (some a)) (ok (some b)) → a ≡ b
same_some h = cc

none_not_some : {E A : Type 0} {a : A} → Path (Result E (Option A)) (ok none) (ok (some a)) → ⊥
none_not_some h = cc

contradiction : false ≡ true → ⊥
contradiction e = cc

unset : (b : Bool) → (not b ≡ true) ↔ (b ≡ false)
unset b = ground arith

met : (a b : Bool) → ((if a then b else false) ≡ true) ↔ (b ≡ true) × (a ≡ true)
met a b = ground arith

module _ (fl : Float64) {E C : Type 0} (repo : Repository E fl.F)
    (evaluate_criteria : Report fl.F → List String → List C) where
  open fl use {F}

  -- The latest report of an execution passed, at its target rate.
  abbrev pub Passes : Result E (Option (Report F)) → Type 0
  Passes latest =
      (r : Report F) × (latest ≡ ok (some r))
      × (r.identity.outcome ≡ passed)
      × (short_of_request fl r.identity.requested r.achieved ≡ false)

  -- A service is ready, or its execution measures the rig and not the target.
  abbrev pub IsReady : Service → Type 0
  IsReady svc =
      (exe : Execution) × (repo.get_execution svc.execution_id ≡ ok exe)
      × ((exe.kind ≡ kind_calibrate_engine) ⊎ Passes (repo.latest_report svc.execution_id))

  abbrev Verdicts : Type 0
  Verdicts = List (ServiceVerdict F C) × Bool

  go_of : ServiceVerdict F C → Bool
  go_of sv = is_go fl repo evaluate_criteria sv

  count-go :
      (res : Result E (ServiceVerdict F C)) (counted next : Verdicts)
      → count_service fl repo evaluate_criteria res counted ≡ ok next
      → (sv : ServiceVerdict F C) × (res ≡ ok sv)
        × ((next.1 ≡ true) ↔ (counted.1 ≡ true) × (go_of sv ≡ true))
  unfolding count_service go_of
  count-go (err e) counted next h = absurd (failed_not_ok h)
  count-go (ok sv) (verdicts, go) next h = (
    sv,
    refl,
    subst (λ n. (n.1 ≡ true) ↔ (go ≡ true) × (go_of sv ≡ true)) (same_ok h) (met (go_of sv) go),
  )

  criteria-go :
      (o : Outcome) (r : Report F) (criteria : Result E (List String)) (sv out : ServiceVerdict F C)
      → with_criteria fl repo evaluate_criteria o r criteria sv ≡ ok out
      → go_of sv ≡ go_of out
  unfolding with_criteria go_of is_go
  criteria-go passed r criteria sv out h = ap go_of (same_ok h)
  criteria-go aborted r criteria sv out h = ap go_of (same_ok h)
  criteria-go error r criteria sv out h = ap go_of (same_ok h)
  criteria-go failed r (err e) sv out h = absurd (failed_not_ok h)
  criteria-go failed r (ok criteria) sv out h = ap go_of (same_ok h)

  passed_only :
      (o : Outcome) (short : Bool)
      → (is_passed (some o) && not short ≡ true) ↔ (o ≡ passed) × (short ≡ false)
  unfolding is_passed
  passed_only passed short = (λ h. (refl, (unset short).0 h), λ (_, e). (unset short).1 e)
  passed_only failed short = (λ h. absurd (contradiction h), λ (e, _). cc)
  passed_only aborted short = (λ h. absurd (contradiction h), λ (e, _). cc)
  passed_only error short = (λ h. absurd (contradiction h), λ (e, _). cc)

  verdict_of-go :
      (svc : Service) (latest : Result E (Option (Report F))) (sv : ServiceVerdict F C)
      → verdict_of fl repo evaluate_criteria svc latest ≡ ok sv
      → (go_of sv ≡ true) ↔ Passes latest
  unfolding verdict_of go_of is_go
  verdict_of-go svc (err e) sv h = absurd (failed_not_ok h)
  verdict_of-go svc (ok none) sv h = (
    λ e. absurd (contradiction (ap go_of (same_ok h) ∙ e)),
    λ (q, found, _, _). absurd (none_not_some found),
  )
  verdict_of-go svc (ok (some r)) sv h =
      let same =
        criteria-go r.identity.outcome r (repo.criteria_for svc.execution_id)
          (of_report fl repo evaluate_criteria svc r) sv h in
      let only =
        passed_only r.identity.outcome (short_of_request fl r.identity.requested r.achieved) in
      (
        λ e. (r, refl, (only.0 (same ∙ e)).0, (only.0 (same ∙ e)).1),
        λ (q, found, passes, long).
            let one = sym (same_some found) in
            sym same
            ∙ only.1 (
              subst (λ x. x.identity.outcome ≡ passed) one passes,
              subst (λ x. short_of_request fl x.identity.requested x.achieved ≡ false) one long,
            ),
      )

  roll_up_service-go :
      (svc : Service) (exe : Result E Execution) (counted next : Verdicts)
      → repo.get_execution svc.execution_id ≡ exe
      → roll_up_service fl repo evaluate_criteria svc exe counted ≡ ok next
      → (next.1 ≡ true) ↔ (counted.1 ≡ true) × IsReady svc
  unfolding roll_up_service service_verdict
  roll_up_service-go svc (err e) counted next found h = absurd (failed_not_ok h)
  roll_up_service-go svc (ok exe) counted next found h =
      elim (Bool-cases (str_eq exe.kind kind_calibrate_engine)) [
        | inl rig ↦
            let same = same_ok (subst Counts rig h) in
            (
              λ e. (
                ap (λ n. n.1) same ∙ e,
                (exe, found, inl ((str_eq_iff exe.kind kind_calibrate_engine).0 rig)),
              ),
              λ (e, _). sym (ap (λ n. n.1) same) ∙ e,
            )
        | inr target ↦
            let (sv, got, either) =
              count-go (service_verdict fl repo evaluate_criteria svc) counted next
                (subst Counts target h) in
            let only = verdict_of-go svc (repo.latest_report svc.execution_id) sv got in
            (
              λ e. let (before, go) = either.0 e in (before, (exe, found, inr (only.0 go))),
              λ (before, ready). either.1 (before, only.1 (passes target ready)),
            )
      ]
    where
      Counts : Bool → Type 0
      Counts rig =
          (if rig
            then ok counted
            else count_service fl repo evaluate_criteria
                (service_verdict fl repo evaluate_criteria svc) counted)
          ≡ ok next

      passes :
          str_eq exe.kind kind_calibrate_engine ≡ false
          → IsReady svc
          → Passes (repo.latest_report svc.execution_id)
      passes target (x, known, inr pass) = pass
      passes target (x, known, inl rig) = absurd (
          contradiction (
            sym target
            ∙ (str_eq_iff exe.kind kind_calibrate_engine).1
                (ap (λ y. y.kind) (same_ok (sym found ∙ known)) ∙ rig)))

  roll_up-go :
      (services : List Service) (counted out : Verdicts)
      → roll_up fl repo evaluate_criteria services counted ≡ ok out
      → (out.1 ≡ true) ↔ (counted.1 ≡ true) × All IsReady services
  unfolding roll_up
  roll_up-go [] counted out h =
      let same = ap (λ n. n.1) (same_ok h) in (λ e. (same ∙ e, tt), λ (e, _). sym same ∙ e)
  roll_up-go (svc ∷ services) counted out h =
      after_one
        (roll_up_service fl repo evaluate_criteria svc (repo.get_execution svc.execution_id)
          counted)
        refl h (λ next. roll_up-go services next out)
    where
      after_one :
          (res : Result E Verdicts)
          → roll_up_service fl repo evaluate_criteria svc
              (repo.get_execution svc.execution_id)
              counted
            ≡ res
          → and_then res (λ next. roll_up fl repo evaluate_criteria services next) ≡ ok out
          → ((next : Verdicts)
              → roll_up fl repo evaluate_criteria services next ≡ ok out
              → (out.1 ≡ true) ↔ (next.1 ≡ true) × All IsReady services)
          → (out.1 ≡ true) ↔ (counted.1 ≡ true) × All IsReady (svc ∷ services)
      after_one (err e) known g others_of = absurd (failed_not_ok g)
      after_one (ok next) known g others_of =
          let one =
            roll_up_service-go svc (repo.get_execution svc.execution_id) counted next refl known in
          let rest = others_of next g in
          (
            λ e.
                let (now, others) = rest.0 e in
                let (before, ready) = one.0 now in (before, (ready, others)),
            λ (before, (ready, others)). rest.1 (one.1 (before, ready), others),
          )

  -- The verdict, of what the services counted and of the other load.
  of_loads : ℤ → Verdicts → Result E (List OtherLoad) → Result E (CampaignVerdict F C)
  of_loads id (services, go) loads =
      and_then loads
        (λ ols. ok (record { campaign_id = id; services = services; go = go; other_load = ols }))

  of_loads-go :
      (id : ℤ) (counted : Verdicts) (loads : Result E (List OtherLoad)) (v : CampaignVerdict F C)
      → of_loads id counted loads ≡ ok v
      → counted.1 ≡ v.go
  unfolding of_loads
  of_loads-go id (services, go) (err e) v h = absurd (failed_not_ok h)
  of_loads-go id (services, go) (ok loads) v h = ap (λ x. x.go) (same_ok h)

  verdict_for-go :
      (id : ℤ) (c : Campaign) (rolled : Result E Verdicts) (v : CampaignVerdict F C)
      → roll_up fl repo evaluate_criteria c.services ([], true) ≡ rolled
      → and_then rolled (λ counted. of_loads id counted (other_load repo c)) ≡ ok v
      → (v.go ≡ true) ↔ All IsReady c.services
  verdict_for-go id c (err e) v known h = absurd (failed_not_ok h)
  verdict_for-go id c (ok counted) v known h =
      let same = of_loads-go id counted (other_load repo c) v h in
      let all = roll_up-go c.services ([], true) counted known in
      (λ e. (all.0 (same ∙ e)).1, λ ready. sym same ∙ all.1 (refl, ready))

  -- The verdict that a campaign gets is a go exactly when each of its services has an execution that
  -- measures the rig and not the target, or whose latest report passed and is not short of the rate it
  -- requested.
  pub verdict-Ready :
      (id : ℤ) (c : Campaign) (v : CampaignVerdict F C)
      → repo.get_campaign id ≡ ok c
      → verdict fl repo evaluate_criteria id ≡ ok v
      → (v.go ≡ true) ↔ All IsReady c.services
  unfolding verdict verdict_for of_loads
  verdict-Ready id c v found h =
      verdict_for-go id c (roll_up fl repo evaluate_criteria c.services ([], true)) v refl
        (subst (λ o. and_then o (verdict_for fl repo evaluate_criteria id) ≡ ok v) found h)
