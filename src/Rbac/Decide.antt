-- ===== src/Rbac/Decide.antt =====
-- What `Authorize` grants, and by which role.
use honryu.Base.{
  ◌≡◌, refl, subst, sym, ◌↔◌, ◌⊎◌, inl, inr, true, List, [], ◌∷◌, Option, none, some, String, arith,
}
use honryu.Base.Ints.{ℤ}
use honryu.Rbac.{
  Account, Catalog, Decision, Request, authorize, denied, first_grant, granted, roles_in_tenant,
  tenant_decision,
}

-- One of a list of role names grants a request.
abbrev pub Grants : Catalog → Request → List String → Type 0
Grants catalog req [] = ⊥
Grants catalog req (name ∷ names) = (granted catalog req name ≡ true) ⊎ Grants catalog req names

first_grant-Grants :
    (catalog : Catalog) (req : Request) (reason : String) (names : List String) (rest : Decision)
    → ((first_grant catalog req reason names rest).allowed ≡ true)
      ↔ (Grants catalog req names ⊎ (rest.allowed ≡ true))
unfolding first_grant
first_grant-Grants catalog req reason [] rest =
    (inr, (λ h. elim h [ inl g ↦ absurd g | inr r ↦ r ]))
first_grant-Grants catalog req reason (name ∷ names) rest =
    let later = first_grant-Grants catalog req reason names rest in
    ((λ h. ground (arith, later)), (λ h. ground (arith, later)))

-- The roles that count for a request: the global ones, and those in the request's tenant.
abbrev pub tenant_roles : Account → Request → List String
tenant_roles acct req = elim req.tenant_id [ some tenant ↦ roles_in_tenant acct tenant | none ↦ [] ]

tenant_decision-Grants :
    (acct : Account) (catalog : Catalog) (req : Request) (tenant : Option ℤ)
    → req.tenant_id ≡ tenant
    → ((tenant_decision acct catalog req).allowed ≡ true)
      ↔ Grants catalog req (tenant_roles acct req)
unfolding tenant_decision
tenant_decision-Grants acct catalog req none e =
    rw (e, tenant_decision) ((λ h. cc), (λ g. absurd g))
tenant_decision-Grants acct catalog req (some tenant) e =
    let first =
      first_grant-Grants catalog req "granted by tenant role" (roles_in_tenant acct tenant)
        denied in
    rw (e, tenant_decision)
      ((λ h. elim (first.0 h) [ inl g ↦ g | inr r ↦ cc ]), (λ g. first.1 (inl g)))

-- `Authorize` allows a request exactly when a role that the account holds globally grants it, or the
-- request names a tenant and a role that the account holds in that tenant does: roles held in another
-- tenant never count.
pub authorize-Grants :
    (acct : Account) (catalog : Catalog) (req : Request)
    → ((authorize acct catalog req).allowed ≡ true)
      ↔ (Grants catalog req acct.global_roles ⊎ Grants catalog req (tenant_roles acct req))
unfolding authorize
authorize-Grants acct catalog req =
    let first =
      first_grant-Grants catalog req "granted by global role" acct.global_roles
        (tenant_decision acct catalog req) in
    let second = tenant_decision-Grants acct catalog req req.tenant_id refl in
    (
      (λ h. elim (first.0 h) [ inl g ↦ inl g | inr r ↦ inr (second.0 r) ]),
      (λ h. first.1 (elim h [ inl g ↦ inl g | inr g ↦ inr (second.1 g) ])),
    )

-- A name of a list of role names.
abbrev pub Among : String → List String → Type 0
Among name [] = ⊥
Among name (n ∷ names) = (name ≡ n) ⊎ Among name names

first_grant-rule :
    (catalog : Catalog) (req : Request) (reason : String) (names : List String) (rest : Decision)
    → let d = first_grant catalog req reason names rest in
      ((granted catalog req d.rule ≡ true) × Among d.rule names) ⊎ (d ≡ rest)
unfolding first_grant
first_grant-rule catalog req reason [] rest = inr refl
first_grant-rule catalog req reason (name ∷ names) rest =
    let later = first_grant-rule catalog req reason names rest in ground (arith, later)

abbrev Ruled : Account → Catalog → Request → Decision → Type 0
Ruled acct catalog req d =
    d.allowed ≡ true
    → (granted catalog req d.rule ≡ true)
      × (Among d.rule acct.global_roles ⊎ Among d.rule (tenant_roles acct req))

tenant_decision-Ruled :
    (acct : Account) (catalog : Catalog) (req : Request) (tenant : Option ℤ)
    → req.tenant_id ≡ tenant
    → Ruled acct catalog req (tenant_decision acct catalog req)
unfolding tenant_decision
tenant_decision-Ruled acct catalog req none e = rw (e, tenant_decision) (λ h. cc)
tenant_decision-Ruled acct catalog req (some tenant) e =
    let names = roles_in_tenant acct tenant in
    rw (e, tenant_decision)
      (λ h. elim (first_grant-rule catalog req "granted by tenant role" names denied) [
        | inl (grants, among) ↦ (grants, inr among)
        | inr same ↦ cc
      ])

-- The rule that an allowing decision names is a role that the account holds globally or in the
-- request's tenant, and that grants the request.
pub authorize-rule :
    (acct : Account) (catalog : Catalog) (req : Request)
    → (authorize acct catalog req).allowed ≡ true
    → let rule = (authorize acct catalog req).rule in
      (granted catalog req rule ≡ true)
      × (Among rule acct.global_roles ⊎ Among rule (tenant_roles acct req))
unfolding authorize
authorize-rule acct catalog req h =
    let reason : String = "granted by global role" in
    let rest = tenant_decision acct catalog req in
    elim (first_grant-rule catalog req reason acct.global_roles rest) [
      | inl (grants, among) ↦ (grants, inl among)
      | inr same ↦
          subst (Ruled acct catalog req) (sym same)
            (tenant_decision-Ruled acct catalog req req.tenant_id refl) h
    ]
