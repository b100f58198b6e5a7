-- ===== src/Campaign.antt =====
-- internal/domain/campaign/campaign.go: a readiness window, the projects that take part in it, and the
-- execution that each of them designates.
pub mod Valid
pub mod Verdict
use honryu.Base.{
  Bool, true, false, ◌&&◌, ◌||◌, not, List, [], ◌∷◌, Option, none, some, String, str_eq,
  if◌then◌else◌, is_empty,
}
use honryu.Base.Ints.{ℤ, eqb_ℤ, nonpos}
use honryu.Base.Times.{Time, before, after}

pub data CampaignError : Type 0 where
  name_required window_invalid services_required duplicate_service : CampaignError
  project_required service_execution_invalid : CampaignError

pub record Window : Type 0 where
  pub start : Time
  pub end : Time

pub record Service : Type 0 where
  pub project_id : ℤ
  pub execution_id : ℤ

pub record Campaign : Type 0 where
  pub id : ℤ
  pub name : String
  pub tenant_id : ℤ
  pub window : Window
  pub services : List Service
  pub aborted_at : Option Time

-- `_, dup := seen[svc.ProjectID]`
unfoldable pub seen_before : ℤ → List ℤ → Bool
seen_before project [] = false
seen_before project (p ∷ seen) = eqb_ℤ p project || seen_before project seen

-- The loop of `Validate`, with the projects seen so far.
unfoldable pub validate_services : List ℤ → List Service → Option CampaignError
unfolding seen_before
validate_services seen [] = none
validate_services seen (svc ∷ services) =
    let rest = validate_services (svc.project_id ∷ seen) services in
    if nonpos svc.project_id
    then some project_required
    else if nonpos svc.execution_id
    then some service_execution_invalid
    else if seen_before svc.project_id seen
    then some duplicate_service
    else rest

unfoldable pub validate : Campaign → Option CampaignError
unfolding validate_services
validate c =
    if str_eq c.name ""
    then some name_required
    else if not (after c.window.end c.window.start)
    then some window_invalid
    else if is_empty c.services
    then some services_required
    else validate_services [] c.services

unfoldable pub is_active : Campaign → Time → Bool
is_active c now = elim c.aborted_at [
  | some _ ↦ false
  | none ↦ not (before now c.window.start) && before now c.window.end
]

-- The loop of `DesignatedExecution`.
unfoldable pub designated_in : ℤ → List Service → Option ℤ
designated_in project [] = none
designated_in project (svc ∷ services) =
    let rest = designated_in project services in
    if eqb_ℤ svc.project_id project then some svc.execution_id else rest

unfoldable pub designated_execution : Campaign → ℤ → Option ℤ
unfolding designated_in
designated_execution c project = designated_in project c.services
