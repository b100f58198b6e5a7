-- ===== src/Campaign/Verdict.antt =====
-- internal/app/campaignapp/verdict.go
pub mod Ready
pub mod Others
use honryu.Base.{
  ℕ, Bool, true, false, ◌&&◌, ◌||◌, not, List, [], ◌∷◌, ◌++◌, map, Option, none, some, String,
  str_eq, if◌then◌else◌, Result, ok, err, and_then,
}
use honryu.Base.Ints.{ℤ, pos, eqb_ℤ, ltb_ℤ}
use honryu.Base.Floats.{Float64}
use honryu.Base.Maps.{lookup, store}
use honryu.Base.Sorting.{sort_by}
use honryu.Base.Times.{Time, before, after}
use honryu.Campaign.{Campaign, Service}
use honryu.Execution.{Execution}
use honryu.Reservation.{Reservation}
use honryu.Report.Summary.{Report, short_of_request}
use honryu.Taurus.{Outcome, passed, failed, aborted, error}

-- `LaunchRecord` of internal/ports/usage_repository.go
pub record LaunchRecord : Type 0 where
  pub execution_id : ℤ
  pub deployment : String
  pub owner : String
  pub engines : ℤ
  pub vu : ℤ
  pub started_time : Time
  pub end_time : Option Time

-- What the service asks of its repository, with errors in E: `ListReports` is asked for one report. A
-- project is read for its tenant.
pub record Repository (E F : Type 0) : Type 0 where
  pub get_campaign : ℤ → Result E Campaign
  pub get_execution : ℤ → Result E Execution
  pub project_tenant : ℤ → Result E (Option ℤ)
  pub latest_report : ℤ → Result E (Option (Report F))
  pub criteria_for : ℤ → Result E (List String)
  pub reservations_in_window : ℤ → String → Time → Time → Result E (List Reservation)
  pub launch_history : Time → Time → Result E (List LaunchRecord)

-- `outcome` is `none` for Go's empty text. C is a criterion that failed.
pub record ServiceVerdict (F C : Type 0) : Type 0 where
  pub project_id : ℤ
  pub execution_id : ℤ
  pub has_report : Bool
  pub outcome : Option Outcome
  pub failing_criteria : List C
  pub short_of_target_qps : Bool
  pub requested_throughput : F
  pub achieved_throughput : F

pub record OtherLoad : Type 0 where
  pub execution_id : ℤ
  pub start : Time
  pub end : Time
  pub engine_count : ℤ

pub record CampaignVerdict (F C : Type 0) : Type 0 where
  pub campaign_id : ℤ
  pub services : List (ServiceVerdict F C)
  pub go : Bool
  pub other_load : List OtherLoad

abbrev pub kind_calibrate_engine : String
kind_calibrate_engine = "calibrate_engine"

unfoldable pub is_passed : Option Outcome → Bool
is_passed (some passed) = true
is_passed (some failed) = false
is_passed (some aborted) = false
is_passed (some error) = false
is_passed none = false

unfoldable pub is_designated : ℤ → List Service → Bool
is_designated execution [] = false
is_designated execution (svc ∷ services) =
    eqb_ℤ svc.execution_id execution || is_designated execution services

-- `merge`: the span and the size of what is known of an execution.
unfoldable pub widen : OtherLoad → OtherLoad → OtherLoad
widen ol existing = record existing {
  start = if before ol.start existing.start then ol.start else existing.start;
  end = if after ol.end existing.end then ol.end else existing.end;
  engine_count =
      if ltb_ℤ existing.engine_count ol.engine_count
      then ol.engine_count
      else existing.engine_count;
}

unfoldable pub merge_known :
    OtherLoad → Option OtherLoad → List (ℤ × OtherLoad) → List (ℤ × OtherLoad)
unfolding widen
merge_known ol none loads = store eqb_ℤ ol.execution_id ol loads
merge_known ol (some existing) loads = store eqb_ℤ ol.execution_id (widen ol existing) loads

unfoldable pub merge : OtherLoad → List (ℤ × OtherLoad) → List (ℤ × OtherLoad)
unfolding merge_known
merge ol loads = merge_known ol (lookup eqb_ℤ ol.execution_id loads) loads

unfoldable pub merge_reservations :
    List Service → List Reservation → List (ℤ × OtherLoad) → List (ℤ × OtherLoad)
unfolding is_designated merge
merge_reservations services [] loads = loads
merge_reservations services (r ∷ reservations) loads =
    let ol : OtherLoad = record {
      execution_id = r.execution_id;
      start = r.start;
      end = r.end;
      engine_count = r.engine_count;
    } in
    merge_reservations services reservations
      (if is_designated r.execution_id services then loads else merge ol loads)

abbrev pub load_of_launch : LaunchRecord → Time → OtherLoad
load_of_launch l end = record {
  execution_id = l.execution_id;
  start = l.started_time;
  end = end;
  engine_count = l.engines;
}

unfoldable pub earlier_load : OtherLoad → OtherLoad → Bool
earlier_load a b = ltb_ℤ a.execution_id b.execution_id

abbrev pub load_at : ℤ × OtherLoad → OtherLoad
load_at (_, ol) = ol

module _ {E F : Type 0} (repo : Repository E F) where
  -- A launch that ended, of an execution whose project is the tenant's; an execution or a project that
  -- is gone is passed over.
  unfoldable pub is_tenant : ℤ → Result E (Option ℤ) → Bool
  is_tenant tenant (err _) = false
  is_tenant tenant (ok none) = false
  is_tenant tenant (ok (some t)) = eqb_ℤ t tenant

  unfoldable pub of_tenant : ℤ → Result E Execution → Bool
  unfolding is_tenant
  of_tenant tenant (err _) = false
  of_tenant tenant (ok exe) = is_tenant tenant (repo.project_tenant exe.project_id)

  unfoldable pub merge_launch :
      Campaign → LaunchRecord → Option Time → List (ℤ × OtherLoad) → List (ℤ × OtherLoad)
  unfolding is_designated of_tenant merge
  merge_launch c l none loads = loads
  merge_launch c l (some end) loads =
      if is_designated l.execution_id c.services
      then loads
      else if of_tenant c.tenant_id (repo.get_execution l.execution_id)
      then merge (load_of_launch l end) loads
      else loads

  unfoldable pub merge_launches :
      Campaign → List LaunchRecord → List (ℤ × OtherLoad) → List (ℤ × OtherLoad)
  unfolding merge_launch
  merge_launches c [] loads = loads
  merge_launches c (l ∷ launches) loads =
      merge_launches c launches (merge_launch c l l.end_time loads)

  unfoldable pub other_load : Campaign → Result E (List OtherLoad)
  unfolding merge_reservations merge_launches earlier_load
  other_load c =
      and_then (repo.reservations_in_window c.tenant_id "" c.window.start c.window.end)
        (λ reservations. and_then (repo.launch_history c.window.start c.window.end) (λ launches.
          ok (
            sort_by earlier_load (
              map load_at
                (merge_launches c launches (merge_reservations c.services reservations []))))))

module _ (fl : Float64) {E C : Type 0} (repo : Repository E fl.F)
    (evaluate_criteria : Report fl.F → List String → List C) where
  open fl use {F, of_int}

  abbrev pub no_report : Service → ServiceVerdict F C
  no_report svc = record {
    project_id = svc.project_id;
    execution_id = svc.execution_id;
    has_report = false;
    outcome = none;
    failing_criteria = [];
    short_of_target_qps = false;
    requested_throughput = of_int (pos 0);
    achieved_throughput = of_int (pos 0);
  }

  abbrev pub of_report : Service → Report F → ServiceVerdict F C
  of_report svc r = record {
    project_id = svc.project_id;
    execution_id = svc.execution_id;
    has_report = true;
    outcome = some r.identity.outcome;
    failing_criteria = [];
    short_of_target_qps = short_of_request fl r.identity.requested r.achieved;
    requested_throughput = r.identity.requested.throughput;
    achieved_throughput = r.achieved.throughput;
  }

  -- With the criteria that a failed run triggered.
  unfoldable pub with_criteria :
      Outcome
      → Report F
      → Result E (List String)
      → ServiceVerdict F C
      → Result E (ServiceVerdict F C)
  with_criteria failed r (err e) sv = err e
  with_criteria failed r (ok criteria) sv =
      ok (record sv { failing_criteria = evaluate_criteria r criteria })
  with_criteria passed r _ sv = ok sv
  with_criteria aborted r _ sv = ok sv
  with_criteria error r _ sv = ok sv

  unfoldable pub verdict_of : Service → Result E (Option (Report F)) → Result E (ServiceVerdict F C)
  unfolding with_criteria
  verdict_of svc (err e) = err e
  verdict_of svc (ok none) = ok (no_report svc)
  verdict_of svc (ok (some r)) =
      with_criteria r.identity.outcome r (repo.criteria_for svc.execution_id) (of_report svc r)

  unfoldable pub service_verdict : Service → Result E (ServiceVerdict F C)
  unfolding verdict_of
  service_verdict svc = verdict_of svc (repo.latest_report svc.execution_id)

  unfoldable pub is_go : ServiceVerdict F C → Bool
  unfolding is_passed
  is_go sv = sv.has_report && is_passed sv.outcome && not sv.short_of_target_qps

  -- A service's verdict, counted.
  unfoldable pub count_service :
      Result E (ServiceVerdict F C)
      → List (ServiceVerdict F C) × Bool
      → Result E (List (ServiceVerdict F C) × Bool)
  unfolding is_go
  count_service (err e) counted = err e
  count_service (ok sv) (verdicts, go) = ok (verdicts ++ sv ∷ [], if is_go sv then go else false)

  unfoldable pub roll_up_service :
      Service
      → Result E Execution
      → List (ServiceVerdict F C) × Bool
      → Result E (List (ServiceVerdict F C) × Bool)
  unfolding count_service service_verdict
  roll_up_service svc (err e) counted = err e
  roll_up_service svc (ok exe) counted =
      if str_eq exe.kind kind_calibrate_engine
      then ok counted
      else count_service (service_verdict svc) counted

  unfoldable pub roll_up :
      List Service → List (ServiceVerdict F C) × Bool → Result E (List (ServiceVerdict F C) × Bool)
  unfolding roll_up_service
  roll_up [] counted = ok counted
  roll_up (svc ∷ services) counted =
      and_then (roll_up_service svc (repo.get_execution svc.execution_id) counted)
        (λ after_one. roll_up services after_one)

  unfoldable pub verdict_for : ℤ → Campaign → Result E (CampaignVerdict F C)
  unfolding roll_up other_load
  verdict_for campaign_id c = and_then (roll_up c.services ([], true)) (λ (services, go).
      and_then (other_load repo c) (λ loads.
        ok
          (record { campaign_id = campaign_id; services = services; go = go; other_load = loads })))

  unfoldable pub verdict : ℤ → Result E (CampaignVerdict F C)
  unfolding verdict_for
  verdict campaign_id = and_then (repo.get_campaign campaign_id) (verdict_for campaign_id)
