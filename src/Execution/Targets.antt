-- ===== src/Execution/Targets.antt =====
-- What `NormalizeFanOutTargets` makes of a list of targets.
use mathlib.Core.List.{append_assoc, append-nil}
use honryu.Base.{
  ◌≡◌, refl, sym, ap, ◌∙◌, subst, ◌↔◌, inl, inr, true, false, List, [], ◌∷◌, ◌++◌, Result, ok, err,
  Bool-cases, is_empty, if◌then◌else◌,
}
use honryu.Base.Text.{Text, trim_space}
use honryu.Execution.{
  ExecutionError, fan_out_target_duplicate, already_seen, normalize_from, normalize_fan_out_targets,
}

-- The targets' names: trimmed, without the blank ones.
unfoldable pub named : List Text → List Text
named [] = []
named (target ∷ targets) =
    let rest = named targets in
    if is_empty (trim_space target) then rest else trim_space target ∷ rest

-- No name stands twice in a list, nor in the list of those seen before.
abbrev pub Apart : List Text → List Text → Type 0
Apart seen [] = Unit
Apart seen (t ∷ ts) = (already_seen t seen ≡ false) × Apart (t ∷ seen) ts

named-blank :
    (target : Text) (targets : List Text)
    → is_empty (trim_space target) ≡ true
    → named (target ∷ targets) ≡ named targets
unfolding named
named-blank target targets h = rw h refl

named-name :
    (target : Text) (targets : List Text)
    → is_empty (trim_space target) ≡ false
    → named (target ∷ targets) ≡ trim_space target ∷ named targets
unfolding named
named-name target targets h = rw h refl

normalize_from-blank :
    (seen out : List Text) (target : Text) (targets : List Text)
    → is_empty (trim_space target) ≡ true
    → normalize_from seen out (target ∷ targets) ≡ normalize_from seen out targets
unfolding normalize_from
normalize_from-blank seen out target targets h = rw (h, normalize_from) refl

normalize_from-duplicate :
    (seen out : List Text) (target : Text) (targets : List Text)
    → is_empty (trim_space target) ≡ false
    → already_seen (trim_space target) seen ≡ true
    → normalize_from seen out (target ∷ targets)
      ≡ err (fan_out_target_duplicate (trim_space target))
unfolding normalize_from
normalize_from-duplicate seen out target targets h k = rw (h, k, normalize_from) refl

normalize_from-name :
    (seen out : List Text) (target : Text) (targets : List Text)
    → is_empty (trim_space target) ≡ false
    → already_seen (trim_space target) seen ≡ false
    → normalize_from seen out (target ∷ targets)
      ≡ normalize_from (trim_space target ∷ seen) (out ++ trim_space target ∷ []) targets
unfolding normalize_from
normalize_from-name seen out target targets h k = rw (h, k, normalize_from) refl

-- The loop's outcome: all names behind those collected, or the first name that stands twice.
abbrev Outcome : List Text → List Text → List Text → Result ExecutionError (List Text) → Type 0
Outcome seen out names (ok r) = Apart seen names × (r ≡ out ++ names)
Outcome seen out names (err e) = Apart seen names → ⊥

Outcome-step :
    (seen out ns : List Text) (t : Text) (r : Result ExecutionError (List Text))
    → already_seen t seen ≡ false
    → Outcome (t ∷ seen) (out ++ t ∷ []) ns r
    → Outcome seen out (t ∷ ns) r
Outcome-step seen out ns t (ok r) new (apart, same) =
    ((new, apart), same ∙ append_assoc out (t ∷ []) ns)
Outcome-step seen out ns t (err e) new fails = λ apart. fails apart.1

normalize_from-Outcome :
    (seen out targets : List Text)
    → Outcome seen out (named targets) (normalize_from seen out targets)
normalize_from-Outcome seen out [] =
    unfold normalize_from in unfold named in (tt, sym (append-nil out))
normalize_from-Outcome seen out (target ∷ targets) =
    elim (Bool-cases (is_empty (trim_space target))) [
      | inl blank ↦
          subst (λ names. Outcome seen out names (normalize_from seen out (target ∷ targets)))
            (sym (named-blank target targets blank))
            (subst (Outcome seen out (named targets))
              (sym (normalize_from-blank seen out target targets blank))
              (normalize_from-Outcome seen out targets))
      | inr name ↦
          let t = trim_space target in
          let run = normalize_from seen out (target ∷ targets) in
          subst (λ names. Outcome seen out names run) (sym (named-name target targets name))
            (elim (Bool-cases (already_seen t seen)) [
              | inl twice ↦
                  subst (Outcome seen out (t ∷ named targets))
                    (sym (normalize_from-duplicate seen out target targets name twice))
                    (λ apart. let new = apart.0 in cc)
              | inr new ↦
                  subst (Outcome seen out (t ∷ named targets))
                    (sym (normalize_from-name seen out target targets name new))
                    (Outcome-step seen out (named targets) t _ new
                      (normalize_from-Outcome (t ∷ seen) (out ++ t ∷ []) targets))
            ])
    ]

accepted :
    (targets out : List Text) (r : Result ExecutionError (List Text))
    → Outcome [] [] (named targets) r
    → (r ≡ ok out) ↔ (Apart [] (named targets) × (out ≡ named targets))
accepted targets out (ok r) (apart, same) =
    ((λ h. let e : r ≡ out = cc in (apart, sym e ∙ same)), (λ v. ap ok (same ∙ sym v.1)))
accepted targets out (err e) fails = ((λ h. cc), (λ v. absurd (fails v.0)))

-- `NormalizeFanOutTargets` returns the names among the targets, trimmed and in order, without the
-- blank ones, and it does so exactly when no name stands there twice.
pub normalize_fan_out_targets-Apart :
    (targets out : List Text)
    → (normalize_fan_out_targets targets ≡ ok out)
      ↔ (Apart [] (named targets) × (out ≡ named targets))
unfolding normalize_fan_out_targets
normalize_fan_out_targets-Apart targets out =
    accepted targets out (normalize_from [] [] targets) (normalize_from-Outcome [] [] targets)
