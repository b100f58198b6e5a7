-- ===== src/Lifecycle/Chains.antt =====
-- When a chain of queries, checks and commands succeeds.
use honryu.Base.{
  ◌≡◌, ◌↔◌, refl, sym, subst, Bool, true, false, List, [], ◌∷◌, Option, none, some, String,
  if◌then◌else◌, arith, Result, ok, err, and_then, failed_not_ok, same_ok,
}
use honryu.Base.Ints.{ℤ, ◌≤ℤ◌, ltb_ℤ}
use honryu.Base.Text.{Text}
use honryu.Run.{RunError}
use honryu.Lifecycle.Ports.{PortError}
use honryu.Lifecycle.Actions.{LifecycleError, Done, ported, at_cluster, and_do, replied}
use honryu.Lifecycle.Check.{not_frozen, phase_permits, no_orphans}

-- A chain that starts with a query, with a query of a cluster, and with a check.
pub query_then-ok :
    {A B : Type 0} (r : Result PortError A) (k : A → Result LifecycleError B) (b : B)
    → (and_then (ported r) k ≡ ok b) ↔ (a : A) × (r ≡ ok a) × (k a ≡ ok b)
query_then-ok (err e) k b = (λ h. absurd (failed_not_ok h), λ (a, g, h). absurd (failed_not_ok g))
query_then-ok (ok x) k b =
    (λ h. (x, refl, h), λ (a, g, h). subst (λ y. k y ≡ ok b) (sym (same_ok g)) h)

pub cluster_then-ok :
    {A B : Type 0} (c : Text) (r : Result PortError A) (k : A → Result LifecycleError B) (b : B)
    → (and_then (at_cluster c r) k ≡ ok b) ↔ (a : A) × (r ≡ ok a) × (k a ≡ ok b)
cluster_then-ok c (err e) k b =
    (λ h. absurd (failed_not_ok h), λ (a, g, h). absurd (failed_not_ok g))
cluster_then-ok c (ok x) k b =
    (λ h. (x, refl, h), λ (a, g, h). subst (λ y. k y ≡ ok b) (sym (same_ok g)) h)

pub check_then-ok :
    {B : Type 0} (r : Result LifecycleError Done) (k : Result LifecycleError B) (b : B)
    → (and_then r (λ _. k) ≡ ok b) ↔ (r ≡ ok tt) × (k ≡ ok b)
check_then-ok (err e) k b = (λ h. absurd (failed_not_ok h), λ (g, h). absurd (failed_not_ok g))
check_then-ok (ok d) k b = (λ h. (refl, h), λ (g, h). h)

pub if_checked :
    (b : Bool) (r : Result LifecycleError Done)
    → ((if b then r else ok tt) ≡ ok tt) ↔ (b ≡ true → r ≡ ok tt)
if_checked true r = (λ h e. h, λ h. h refl)
if_checked false r = (λ h e. absurd (never e), λ h. refl)
  where
    never : false ≡ true → ⊥
    never e = cc

pub at_least : (x y : ℤ) → (ltb_ℤ x y ≡ false) ↔ (y ≤ℤ x)
at_least x y = ground arith

pub if_refused :
    {B : Type 0} (t : Bool) (e : LifecycleError) (r : Result LifecycleError B) (b : B)
    → ((if t then err e else r) ≡ ok b) ↔ (t ≡ false) × (r ≡ ok b)
if_refused true e r b = (λ h. absurd (failed_not_ok h), λ (g, h). absurd (never g))
  where
    never : true ≡ false → ⊥
    never e = cc
if_refused false e r b = (λ h. (refl, h), λ (g, h). h)

pub not_frozen-none : (o : Option String) (d : Done) → (not_frozen o ≡ ok d) ↔ (o ≡ none)
not_frozen-none none d = (λ h. refl, λ h. refl)
not_frozen-none (some c) d = (λ h. absurd (failed_not_ok h), λ h. cc)

pub no_orphans-empty : {A : Type 0} (xs : List A) (d : Done) → (no_orphans xs ≡ ok d) ↔ (xs ≡ [])
no_orphans-empty [] d = (λ h. refl, λ h. refl)
no_orphans-empty (x ∷ xs) d = (λ h. absurd (failed_not_ok h), λ h. cc)

pub permits : (o : Option RunError) (d : Done) → (phase_permits o ≡ ok d) ↔ (o ≡ none)
permits none d = (λ h. refl, λ h. refl)
permits (some c) d = (λ h. absurd (failed_not_ok h), λ h. cc)

-- An action that succeeds is its first step, that succeeds, and the rest after it.
pub and_do-ok :
    {W A B : Type 0} (r : Result LifecycleError A × W) (k : A → W → Result LifecycleError B × W)
    (b : B)
    → (and_do r k).0 ≡ ok b
    → (a : A) × (r.0 ≡ ok a) × (and_do r k ≡ k a r.1)
and_do-ok (err e, w) k b h = absurd (failed_not_ok h)
and_do-ok (ok a, w) k b h = (a, refl, refl)

pub replied-ok :
    {W : Type 0} (c : Option PortError × W) (d : Done)
    → (replied c).0 ≡ ok d
    → (c.0 ≡ none) × ((replied c).1 ≡ c.1)
replied-ok (none, w) d h = (refl, refl)
replied-ok (some e, w) d h = absurd (failed_not_ok h)

pub if_skipped :
    (t : Bool) (r : Result LifecycleError Bool)
    → ((if t then ok false else r) ≡ ok true) ↔ (t ≡ false) × (r ≡ ok true)
if_skipped true r = (λ h. absurd (never (same_ok h)), λ (g, h). absurd (never (sym g)))
  where
    never : false ≡ true → ⊥
    never e = cc
if_skipped false r = (λ h. (refl, h), λ (g, h). h)
