-- ===== src/LoadProfile/Longest.antt =====
-- How long a profile runs.
use honryu.Base.{
  ◌≡◌, refl, sym, subst, ◌⊎◌, inl, inr, List, [], ◌∷◌, All, arith, Bool-cases, if◌then◌else◌,
}
use honryu.Base.Ints.{ℤ, pos, ◌≤ℤ◌, ltb_ℤ}
use honryu.LoadProfile.{Entry, Profile, entry_seconds, longest_from, longest_duration_seconds}

-- An entry of the list runs for so many seconds.
abbrev pub Runs : ℤ → List Entry → Type 0
Runs d [] = ⊥
Runs d (ep ∷ eps) = (entry_seconds ep ≡ d) ⊎ Runs d eps

abbrev pub Covers : ℤ → List Entry → Type 0
Covers d = All (λ ep. entry_seconds ep ≤ℤ d)

abbrev IsLongest : ℤ → List Entry → ℤ → Type 0
IsLongest longest eps d = (longest ≤ℤ d) × Covers d eps × ((d ≡ longest) ⊎ Runs d eps)

longest_from-IsLongest :
    (longest : ℤ) (eps : List Entry) → IsLongest longest eps (longest_from longest eps)
unfolding longest_from
longest_from-IsLongest longest [] = (omega arith, tt, inl refl)
longest_from-IsLongest longest (ep ∷ eps) = elim (Bool-cases (ltb_ℤ longest (entry_seconds ep))) [
  | inl longer ↦
      let (up, covers, runs) = longest_from-IsLongest (entry_seconds ep) eps in
      let d = longest_from (entry_seconds ep) eps in
      let over : longest ≤ℤ d = ground (arith, up) in
      subst
        (λ b.
          IsLongest longest (ep ∷ eps) (longest_from (if b then entry_seconds ep else longest) eps))
        (sym longer)
        (
          over,
          (up, covers),
          elim runs [ inl same ↦ inr (inl (sym same)) | inr later ↦ inr (inr later) ],
        )
  | inr shorter ↦
      let (up, covers, runs) = longest_from-IsLongest longest eps in
      let d = longest_from longest eps in
      let here : entry_seconds ep ≤ℤ d = ground (arith, up) in
      subst
        (λ b.
          IsLongest longest (ep ∷ eps) (longest_from (if b then entry_seconds ep else longest) eps))
        (sym shorter)
        (up, (here, covers), elim runs [ inl same ↦ inl same | inr later ↦ inr (inr later) ])
]

-- `LongestDurationSeconds` covers every entry's run, ramp-up and all plateaus of a staircase included,
-- and no more than needed: it is the run of one of the entries, or 0.
pub longest_duration_seconds-Covers :
    (ec : Profile)
    → let d = longest_duration_seconds ec in
      (pos 0 ≤ℤ d) × Covers d ec.tests × ((d ≡ pos 0) ⊎ Runs d ec.tests)
unfolding longest_duration_seconds
longest_duration_seconds-Covers ec = longest_from-IsLongest (pos 0) ec.tests
