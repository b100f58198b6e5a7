-- ===== src/Rbac/Builtin.antt =====
-- What the built-in roles permit.
use honryu.Base.{◌≡◌, subst, ◌⊎◌, inl, inr, true, [], ◌∷◌, Option, String, str_eq_iff, arith}
use honryu.Base.Ints.{ℤ}
use honryu.Base.Maps.{lookup}
use honryu.Rbac.Decide.{Among, tenant_roles, authorize-rule}
use honryu.Rbac.{
  Account, authorize, Request, granted, can, any_allows, allows, permits, default_catalog,
}

abbrev on_system : String → Option ℤ → Request
on_system action tenant = record { resource = "system"; action = action; tenant_id = tenant }

provider_only :
    (action : String) (tenant : Option ℤ) (name : String)
    → granted default_catalog (on_system action tenant) name ≡ true
    → name ≡ "service_provider_admin"
unfolding granted can any_allows allows permits default_catalog lookup
provider_only action tenant name h = ground (arith, str_eq_iff "service_provider_admin" name)

system_provider_only :
    (req : Request) (name : String)
    → req.resource ≡ "system"
    → granted default_catalog req name ≡ true
    → name ≡ "service_provider_admin"
system_provider_only req name at_system h = provider_only req.action req.tenant_id name (
    subst
      (λ resource.
        granted default_catalog
          (record { resource = resource; action = req.action; tenant_id = req.tenant_id }) name
        ≡ true)
      at_system h)

viewer_reads :
    (req : Request)
    → granted default_catalog req "tenant_viewer" ≡ true
    → (req.action ≡ "read") ⊎ (req.action ≡ "list")
unfolding granted can any_allows allows permits default_catalog lookup
viewer_reads req h = ground (arith, str_eq_iff "read" req.action, str_eq_iff "list" req.action)

-- Under the built-in roles, whoever is allowed anything on the system holds the service provider's
-- role, globally or in the request's tenant.
pub system_needs_provider :
    (acct : Account) (req : Request)
    → req.resource ≡ "system"
    → (authorize acct default_catalog req).allowed ≡ true
    → Among "service_provider_admin" acct.global_roles
      ⊎ Among "service_provider_admin" (tenant_roles acct req)
system_needs_provider acct req at_system h =
    let (grants, among) = authorize-rule acct default_catalog req h in
    let provider = system_provider_only req _ at_system grants in
    subst (λ name. Among name acct.global_roles ⊎ Among name (tenant_roles acct req)) provider among

-- Under the built-in roles, an account with no global role, and no role but the viewer's in the
-- request's tenant, is allowed only to read and to list.
pub viewer_only_reads :
    (acct : Account) (req : Request)
    → acct.global_roles ≡ []
    → tenant_roles acct req ≡ "tenant_viewer" ∷ []
    → (authorize acct default_catalog req).allowed ≡ true
    → (req.action ≡ "read") ⊎ (req.action ≡ "list")
viewer_only_reads acct req none_global viewer h =
    let rule = (authorize acct default_catalog req).rule in
    let (grants, among) = authorize-rule acct default_catalog req h in
    let held : Among rule [] ⊎ Among rule ("tenant_viewer" ∷ []) =
      subst (λ names. Among rule [] ⊎ Among rule names) viewer
        (subst (λ names. Among rule names ⊎ Among rule (tenant_roles acct req)) none_global
          among) in
    elim held [
      | inl never ↦ absurd never
      | inr (inl e) ↦
          viewer_reads req (subst (λ name. granted default_catalog req name ≡ true) e grants)
      | inr (inr never) ↦ absurd never
    ]
