-- ===== src/Rbac.antt =====
-- internal/domain/rbac/rbac.go over internal/domain/account/account.go.
pub mod Decide
pub mod Builtin
use honryu.Base.{
  Bool, true, false, ◌&&◌, ◌||◌, not, List, [], ◌∷◌, Option, none, some, String, str_eq,
  if◌then◌else◌,
}
use honryu.Base.Ints.{ℤ, eqb_ℤ}
use honryu.Base.Maps.{lookup, lookup_or}

abbrev pub wildcard : String
wildcard = "*"

pub record Permission : Type 0 where
  pub resource : String
  pub actions : List String

-- The loop of `Allows`.
unfoldable pub permits : String → List String → Bool
permits action [] = false
permits action (a ∷ actions) = str_eq a wildcard || str_eq a action || permits action actions

unfoldable pub allows : Permission → String → String → Bool
unfolding permits
allows p resource action =
    if not (str_eq p.resource wildcard) && not (str_eq p.resource resource)
    then false
    else permits action p.actions

pub record Role : Type 0 where
  pub name : String
  pub permissions : List Permission
  pub tenant_scoped : Bool

-- The loop of `Can`.
unfoldable pub any_allows : List Permission → String → String → Bool
unfolding allows
any_allows [] resource action = false
any_allows (p ∷ ps) resource action = allows p resource action || any_allows ps resource action

unfoldable pub can : Role → String → String → Bool
unfolding any_allows
can r resource action = any_allows r.permissions resource action

pub record Account : Type 0 where
  pub subject : String
  pub email : String
  pub name : String
  pub global_roles : List String
  pub tenants : List (ℤ × List String)

unfoldable pub roles_in_tenant : Account → ℤ → List String
unfolding lookup_or
roles_in_tenant a tenant = lookup_or eqb_ℤ [] tenant a.tenants

unfoldable pub has_tenant_access : Account → ℤ → Bool
unfolding roles_in_tenant
has_tenant_access a tenant = elim (roles_in_tenant a tenant) [ [] ↦ false | _ ∷ _ ↦ true ]

pub record Request : Type 0 where
  pub resource : String
  pub action : String
  pub tenant_id : Option ℤ

pub record Decision : Type 0 where
  pub allowed : Bool
  pub reason : String
  pub rule : String

abbrev pub Catalog : Type 0
Catalog = List (String × Role)

-- `role, ok := catalog[name]; ok && role.Can(req.Resource, req.Action)`
unfoldable pub granted : Catalog → Request → String → Bool
unfolding lookup can
granted catalog req name = elim (lookup str_eq name catalog) [
  | some role ↦ can role req.resource req.action
  | none ↦ false
]

-- The two loops of `Authorize`: the first role that grants the request, or the rest.
unfoldable pub first_grant : Catalog → Request → String → List String → Decision → Decision
unfolding granted
first_grant catalog req reason [] rest = rest
first_grant catalog req reason (name ∷ names) rest =
    let later = first_grant catalog req reason names rest in
    if granted catalog req name
    then record { allowed = true; reason = reason; rule = name }
    else later

abbrev pub denied : Decision
denied = record { allowed = false; reason = "no role grants this action"; rule = "" }

unfoldable pub tenant_decision : Account → Catalog → Request → Decision
unfolding first_grant roles_in_tenant
tenant_decision acct catalog req = elim req.tenant_id [
  | some tenant ↦
      first_grant catalog req "granted by tenant role" (roles_in_tenant acct tenant) denied
  | none ↦ denied
]

unfoldable pub authorize : Account → Catalog → Request → Decision
unfolding first_grant tenant_decision
authorize acct catalog req =
    first_grant catalog req "granted by global role" acct.global_roles
      (tenant_decision acct catalog req)

abbrev all : List String
all = "create" ∷ "read" ∷ "update" ∷ "delete" ∷ "list" ∷ "admin" ∷ []

abbrev write : List String
write = "create" ∷ "read" ∷ "update" ∷ "delete" ∷ "list" ∷ []

abbrev read : List String
read = "read" ∷ "list" ∷ []

abbrev on : String → List String → Permission
on resource actions = record { resource = resource; actions = actions }

abbrev tenant_role : String → List Permission → String × Role
tenant_role name permissions =
    (name, record { name = name; permissions = permissions; tenant_scoped = true })

unfoldable pub default_catalog : Catalog
default_catalog =
    (
      "service_provider_admin",
      record {
        name = "service_provider_admin";
        permissions = on wildcard (wildcard ∷ []) ∷ [];
        tenant_scoped = false;
      },
    )
    ∷ tenant_role "tenant_admin" (
        on "project" all
        ∷ on "execution" all
        ∷ on "scenario" all
        ∷ on "run" all
        ∷ on "schedule" all
        ∷ on "report" all
        ∷ on "tenant" ("admin" ∷ [])
        ∷ [])
    ∷ tenant_role "tenant_editor" (
        on "project" write
        ∷ on "execution" write
        ∷ on "scenario" write
        ∷ on "run" write
        ∷ on "schedule" write
        ∷ on "report" read
        ∷ [])
    ∷ tenant_role "tenant_viewer" (
        on "project" read
        ∷ on "execution" read
        ∷ on "scenario" read
        ∷ on "run" read
        ∷ on "schedule" read
        ∷ on "report" read
        ∷ [])
    ∷ tenant_role "campaign_manager" (
        on "campaign" all
        ∷ on "project" read
        ∷ on "execution" read
        ∷ on "schedule" read
        ∷ on "report" read
        ∷ [])
    ∷ []
