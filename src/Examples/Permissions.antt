-- ===== src/Examples/Permissions.antt =====
-- Accounts and their requests.
use honryu.Base.{◌≡◌, refl, ◌↔◌, ◌⊎◌, true, List, [], ◌∷◌, none, some, String}
use honryu.Base.Ints.{pos}
use honryu.Base.Maps.{lookup, lookup_or}
use honryu.Rbac.{
  Account, Request, authorize, default_catalog, first_grant, granted, can, any_allows, allows,
  permits, roles_in_tenant, tenant_decision,
}
use honryu.Rbac.Decide.{Grants, tenant_roles, authorize-Grants}

abbrev account : List String → List String → Account
account global_roles in_tenant = record {
  subject = "u1";
  email = "u1@example.com";
  name = "User";
  global_roles = global_roles;
  tenants = (pos 7, in_tenant) ∷ [];
}

abbrev provider : Account
provider = account ("service_provider_admin" ∷ []) []

abbrev viewer : Account
viewer = account [] ("tenant_viewer" ∷ [])

abbrev administers : Request
administers = record { resource = "system"; action = "admin"; tenant_id = none }

abbrev reads_report : Request
reads_report = record { resource = "report"; action = "read"; tenant_id = some (pos 7) }

system_request_allowed : (authorize provider default_catalog administers).allowed ≡ true
unfolding authorize first_grant granted can any_allows allows permits default_catalog lookup
    tenant_decision
system_request_allowed = refl

viewer_allowed : (authorize viewer default_catalog reads_report).allowed ≡ true
unfolding authorize first_grant granted can any_allows allows permits default_catalog lookup
    tenant_decision roles_in_tenant lookup_or
viewer_allowed = refl

viewer_role : tenant_roles viewer reads_report ≡ "tenant_viewer" ∷ []
unfolding roles_in_tenant lookup_or
viewer_role = refl

authorize-Grants_example : ((authorize viewer default_catalog reads_report).allowed ≡ true) ↔ (
    Grants default_catalog reads_report []
    ⊎ Grants default_catalog reads_report (tenant_roles viewer reads_report))
authorize-Grants_example = authorize-Grants viewer default_catalog reads_report
