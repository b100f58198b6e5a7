-- ===== src/Campaign/Valid.antt =====
-- `Validate` and `DesignatedExecution`.
use honryu.Base.{
  ◌≡◌, refl, sym, subst, ◌≢◌, ◌↔◌, ◌⊎◌, inl, inr, true, false, List, [], ◌∷◌, Option, none, some,
  str_eq_iff, if◌then◌else◌, is_empty, All, arith, Bool-cases,
}
use honryu.Base.Ints.{eqb_ℤ_iff, ℤ, pos, eqb_ℤ, ◌≤ℤ◌, ◌<ℤ◌}
use honryu.Campaign.{
  Campaign, CampaignError, services_required, Service, designated_execution, designated_in,
  seen_before, validate, validate_services,
}

-- No project takes part twice, nor is one of those seen already.
abbrev pub Apart : List ℤ → List Service → Type 0
Apart seen [] = Unit
Apart seen (svc ∷ services) =
    (seen_before svc.project_id seen ≡ false) × Apart (svc.project_id ∷ seen) services

abbrev pub HasIds : Service → Type 0
HasIds svc = (pos 1 ≤ℤ svc.project_id) × (pos 1 ≤ℤ svc.execution_id)

validate_services-none :
    (seen : List ℤ) (services : List Service)
    → (validate_services seen services ≡ none) ↔ (All HasIds services × Apart seen services)
unfolding validate_services
validate_services-none seen [] = ((λ h. (tt, tt)), (λ v. refl))
validate_services-none seen (svc ∷ services) =
    let rest = validate_services-none (svc.project_id ∷ seen) services in
    (
      (λ h.
          let later : validate_services (svc.project_id ∷ seen) services ≡ none = ground arith in
          let (ids, apart) = rest.0 later in
          (((ground arith, ground arith), ids), (ground arith, apart))),
      (λ v.
          let ((has_project, has_execution), ids) = v.0 in
          let (new, apart) = v.1 in let later = rest.1 (ids, apart) in ground arith),
    )

-- A project takes part with an execution.
abbrev pub TakesPart : ℤ → ℤ → List Service → Type 0
TakesPart project execution [] = ⊥
TakesPart project execution (svc ∷ services) =
    ((svc.project_id ≡ project) × (svc.execution_id ≡ execution))
    ⊎ TakesPart project execution services

-- The checks of `Validate` on the services.
abbrev services_checks : List Service → Option CampaignError
services_checks services =
    if is_empty services then some services_required else validate_services [] services

services_checks-Apart :
    (services : List Service)
    → (services_checks services ≡ none)
      ↔ ((services ≢ []) × All HasIds services × Apart [] services)
services_checks-Apart [] = ((λ h. cc), (λ v. absurd (v.0 refl)))
services_checks-Apart (svc ∷ services) =
    let rest = validate_services-none [] (svc ∷ services) in
    (
      (λ h. let (ids, apart) = rest.0 h in ((λ e. cc), ids, apart)),
      (λ v. let (_, ids, apart) = v in rest.1 (ids, apart)),
    )

-- `Validate` accepts exactly the campaigns with a name, a window that is not empty and services, each
-- with ids of its own and no project twice.
pub validate-Apart :
    (c : Campaign)
    → (validate c ≡ none) ↔ (
        (c.name ≢ "")
        × (c.window.start <ℤ c.window.end)
        × (c.services ≢ [])
        × All HasIds c.services
        × Apart [] c.services)
unfolding validate
validate-Apart c =
    let rest = services_checks-Apart c.services in
    (
      (λ h.
          let later : services_checks c.services ≡ none = ground (arith, str_eq_iff c.name "") in
          let (some_service, ids, apart) = rest.0 later in
          (
            (λ blank. ground (arith, str_eq_iff c.name "")),
            ground (arith, str_eq_iff c.name ""),
            some_service,
            ids,
            apart,
          )),
      (λ v.
          let (named, spans, some_service, ids, apart) = v in
          let later = rest.1 (some_service, ids, apart) in ground (arith, str_eq_iff c.name "")),
    )

seen_excludes :
    (project execution : ℤ) (seen : List ℤ) (services : List Service)
    → seen_before project seen ≡ true
    → Apart seen services
    → TakesPart project execution services
    → ⊥
unfolding seen_before
seen_excludes project execution seen [] h apart takes = elim takes [ ]
seen_excludes project execution seen (svc ∷ services) h apart (inl (p, e)) =
    let new = apart.0 in
    let same : seen_before svc.project_id seen ≡ true =
      subst (λ q. seen_before q seen ≡ true) (sym p) h in
    cc
seen_excludes project execution seen (svc ∷ services) h apart (inr later) =
    seen_excludes project execution (svc.project_id ∷ seen) services (ground arith) apart.1 later

designated_in-TakesPart :
    (project execution : ℤ) (seen : List ℤ) (services : List Service)
    → Apart seen services
    → (designated_in project services ≡ some execution) ↔ TakesPart project execution services
unfolding designated_in seen_before
designated_in-TakesPart project execution seen [] apart = ((λ h. cc), (λ t. absurd t))
designated_in-TakesPart project execution seen (svc ∷ services) apart =
    let rest = designated_in-TakesPart project execution (svc.project_id ∷ seen) services apart.1 in
    let same = eqb_ℤ_iff svc.project_id project in
    elim (Bool-cases (eqb_ℤ svc.project_id project)) [
      | inl here ↦
          let at = same.0 here in
          let seen_here : seen_before project (svc.project_id ∷ seen) ≡ true = ground arith in
          let none_later =
            seen_excludes project execution (svc.project_id ∷ seen) services seen_here apart.1 in
          (
            (λ h. inl (at, ground arith)),
            (λ t. elim t [ inl e ↦ ground arith | inr later ↦ absurd (none_later later) ]),
          )
      | inr elsewhere ↦ (
        (λ h. inr (rest.0 (ground arith))),
        (λ t. elim t [
          | inl e ↦ absurd (ground (arith, same))
          | inr later ↦ let found = rest.1 later in ground arith
        ]),
      )
    ]

-- In a valid campaign, `DesignatedExecution` finds an execution for a project exactly when that
-- project takes part with that execution.
pub designated_execution-TakesPart :
    (c : Campaign) (project execution : ℤ)
    → validate c ≡ none
    → (designated_execution c project ≡ some execution) ↔ TakesPart project execution c.services
unfolding designated_execution
designated_execution-TakesPart c project execution valid =
    let (_, _, _, _, apart) = (validate-Apart c).0 valid in
    designated_in-TakesPart project execution [] c.services apart
