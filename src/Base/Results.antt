-- ===== src/Base/Results.antt =====
-- Go's `(value, error)` as one value; an operation that returns only an `error` is an `Option`.
use mathlib.Core.Bool.{Bool, true, false}
use mathlib.Core.Path.{◌≡◌, refl, sym, subst}
use mathlib.Core.Logic.{◌↔◌}

pub data Result {ℓ κ} (E : Type ℓ) (A : Type κ) : Type (ℓ ⊔ κ) where
  ok : A → Result E A
  err : E → Result E A

-- `err == nil`
abbrev pub is_ok {ℓ κ} : {E : Type ℓ} {A : Type κ} → Result E A → Bool
is_ok (ok _) = true
is_ok (err _) = false

-- `if err != nil { return err }`
abbrev pub and_then {ℓ κ μ} :
    {E : Type ℓ} {A : Type κ} {B : Type μ} → Result E A → (A → Result E B) → Result E B
and_then (err e) k = err e
and_then (ok a) k = k a

pub failed_not_ok : {E A : Type 0} {e : E} {a : A} → err e ≡ ok a → ⊥
failed_not_ok h = cc

pub same_ok : {E A : Type 0} {a b : A} → Path (Result E A) (ok a) (ok b) → a ≡ b
same_ok h = cc

-- A chain succeeds exactly when its first step does, and the rest on what that gives.
pub and_then-ok :
    {E A B : Type 0} (r : Result E A) (k : A → Result E B) (b : B)
    → (and_then r k ≡ ok b) ↔ (a : A) × (r ≡ ok a) × (k a ≡ ok b)
and_then-ok (err e) k b = (λ h. absurd (failed_not_ok h), λ (a, g, h). absurd (failed_not_ok g))
and_then-ok (ok a) k b =
    (λ h. (a, refl, h), λ (c, g, h). subst (λ x. k x ≡ ok b) (sym (same_ok g)) h)
