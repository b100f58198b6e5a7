-- ===== src/LoadProfile/Valid.antt =====
-- `Entry.Validate` against a description of the entries that it accepts, and `Profile.Validate`.
use honryu.Base.{
  subst, sym, ap, length, ◌++◌, ◌≢◌, is_empty, if◌then◌else◌, ℕ, suc, ◌+◌, ◌≡◌, refl, ◌↔◌, ◌⊎◌, inl,
  inr, true, false, List, [], ◌∷◌, Option, none, some, str_eq, str_eq_iff, arith, All, Option-cases,
}
use honryu.Base.Ints.{pos, ◌≤ℤ◌}
use honryu.LoadMode.{valid, mode_staircase}
use honryu.LoadProfile.{
  ProfileError, in_scenario, no_scenarios, Entry, Profile, validate_entry, validate_from, validate,
}

-- What the package asks of an entry, clause by clause.
pub record IsValidEntry (ep : Entry) : Type 0 where
  pub scenario : pos 1 ≤ℤ ep.scenario_id
  pub engines : pos 1 ≤ℤ ep.engines
  pub concurrency : pos 1 ≤ℤ ep.concurrency
  pub duration : pos 1 ≤ℤ ep.duration
  pub throughput : pos 0 ≤ℤ ep.throughput
  pub mode : (ep.mode ≡ "") ⊎ ((valid ep.mode ≡ true) × (pos 1 ≤ℤ ep.throughput))
  pub flat : (ep.steps ≡ pos 0) ⊎ (ep.mode ≡ mode_staircase)
  pub plateaus :
      (str_eq ep.mode mode_staircase ≡ false)
      ⊎ ((pos 2 ≤ℤ ep.steps) × (ep.steps ≤ℤ pos 10) × (pos 60 ≤ℤ ep.duration))

-- `Entry.Validate` accepts exactly the entries with a scenario, engines, users and a hold, a rate that
-- is not negative, a known mode with a positive rate or no mode, steps only on a staircase, and on a
-- staircase 2 to 10 steps of at least 60 seconds.
pub validate_entry-IsValidEntry : (ep : Entry) → (validate_entry ep ≡ none) ↔ IsValidEntry ep
unfolding validate_entry
validate_entry-IsValidEntry ep = (
  (λ h. ground (arith, str_eq_iff ep.mode "", str_eq_iff ep.mode mode_staircase)),
  (λ v. ground (arith, str_eq_iff ep.mode "", str_eq_iff ep.mode mode_staircase)),
)

-- Whether a list of checks from position i on passes, or names its first failing entry.
abbrev pub Reports : ℕ → List Entry → Option ProfileError → Type 0
Reports i eps none = All IsValidEntry eps
Reports i eps (some e) =
    (before : List Entry) × (ep : Entry) × (after : List Entry) × (cause : ProfileError) × (eps
      ≡ before ++ (ep ∷ after))
    × All IsValidEntry before
    × (validate_entry ep ≡ some cause)
    × (e ≡ in_scenario (i + length before) ep.scenario_id cause)

Reports-step :
    (i : ℕ) (ep : Entry) (eps : List Entry) (r : Option ProfileError)
    → validate_entry ep ≡ none
    → Reports (suc i) eps r
    → Reports i (ep ∷ eps) r
Reports-step i ep eps none h all = ((validate_entry-IsValidEntry ep).0 h, all)
Reports-step i ep eps (some e) h (before, bad, after, cause, at, valid_before, why, eq) = (
  ep ∷ before,
  bad,
  after,
  cause,
  ap (λ rest. ep ∷ rest) at,
  ((validate_entry-IsValidEntry ep).0 h, valid_before),
  why,
  (let shift : i + suc (length before) ≡ suc i + length before = omega arith in rw shift eq),
)

validate_from-Reports : (i : ℕ) (eps : List Entry) → Reports i eps (validate_from i eps)
unfolding validate_from
validate_from-Reports i [] = tt
validate_from-Reports i (ep ∷ eps) = elim (Option-cases (validate_entry ep)) [
  | inl valid_here ↦
      rw (valid_here, validate_from)
        (Reports-step i ep eps (validate_from (suc i) eps) valid_here
          (validate_from-Reports (suc i) eps))
  | inr (cause, why) ↦
      rw (why, validate_from)
        ([], ep, eps, cause, refl, tt, why, (let same : i + 0 ≡ i = omega arith in rw same))
]

-- The checks of `Profile.Validate` over its list of entries.
abbrev checks : List Entry → Option ProfileError
checks eps = if is_empty eps then some no_scenarios else validate_from 0 eps

validate_from-none : (i : ℕ) (eps : List Entry) → All IsValidEntry eps → validate_from i eps ≡ none
unfolding validate_from
validate_from-none i [] all = refl
validate_from-none i (ep ∷ eps) all =
    rw ((validate_entry-IsValidEntry ep).1 all.0, validate_from)
      (validate_from-none (suc i) eps all.1)

checks-none : (eps : List Entry) → (checks eps ≡ none) ↔ ((eps ≢ []) × All IsValidEntry eps)
checks-none [] = ((λ h. cc), (λ v. absurd (v.0 refl)))
checks-none (ep ∷ eps) = (
  (λ h. ((λ e. cc), subst (Reports 0 (ep ∷ eps)) h (validate_from-Reports 0 (ep ∷ eps)))),
  (λ v. validate_from-none 0 (ep ∷ eps) v.1),
)

checks-some :
    (eps : List Entry) (e : ProfileError) → eps ≢ [] → checks eps ≡ some e → Reports 0 eps (some e)
checks-some [] e some_test h = absurd (some_test refl)
checks-some (ep ∷ eps) e some_test h =
    subst (Reports 0 (ep ∷ eps)) h (validate_from-Reports 0 (ep ∷ eps))

-- `Profile.Validate` accepts a profile exactly when it has an entry and every entry is valid.
pub validate-All :
    (ec : Profile) → (validate ec ≡ none) ↔ ((ec.tests ≢ []) × All IsValidEntry ec.tests)
unfolding validate
validate-All ec = checks-none ec.tests

-- A profile with an entry that is refused is refused for its first invalid entry: the error names
-- that entry's position, its scenario and the cause that `Entry.Validate` gives, and every entry
-- before it is valid.
pub validate_names_first :
    (ec : Profile)
    → (All IsValidEntry ec.tests → ⊥)
    → (e : ProfileError) × (validate ec ≡ some e) × Reports 0 ec.tests (some e)
unfolding validate
validate_names_first ec invalid = elim (Option-cases (checks ec.tests)) [
  | inl accepted ↦ absurd (invalid ((checks-none ec.tests).0 accepted).1)
  | inr (e, refused) ↦ (e, refused, checks-some ec.tests e some_test refused)
]
  where
    some_test : ec.tests ≢ []
    some_test h = invalid (subst (All IsValidEntry) (sym h) tt)
