-- ===== src/Report/Trend/Baselines.antt =====
-- What a run's trend holds it to.
use honryu.Base.{
  ◌≡◌, ◌↔◌, ◌⊎◌, refl, sym, inl, inr, Bool, true, false, ◌&&◌, not, List, [], ◌∷◌, Bool-cases,
  subst, arith, if◌then◌else◌,
}
use honryu.Base.Floats.{Float64}
use honryu.Report.Summary.{Report}
use honryu.Report.Trend.{TrendPoint, comparable, short, against, point_of, points_of, build_trend}

contradiction : false ≡ true → ⊥
contradiction e = cc

apart : (b : Bool) → b ≡ true → b ≡ false → ⊥
apart b h k = cc

module _ (fl : Float64) where
  open fl use {F}

  -- The nearest of the earlier reports that is comparable to a run's, and what is said of it.
  abbrev pub Nearest : Report F → (Report F → Type 0) → List (Report F) → Type 0
  Nearest r P [] = ⊥
  Nearest r P (other ∷ rest) =
      ((comparable fl r other ≡ true) × P other)
      ⊎ ((comparable fl r other ≡ false) × Nearest r P rest)

  abbrev pub HasBaseline : Report F → List (Report F) → Type 0
  HasBaseline r rest = Nearest r (λ other. Unit) rest

  -- The run is short of its target, and the nearest comparable one was not.
  abbrev pub IsWorse : Report F → List (Report F) → Type 0
  IsWorse r rest = (short fl r ≡ true) × Nearest r (λ other. short fl other ≡ false) rest

  worse : (a b : Bool) → (a && not b ≡ true) ↔ (a ≡ true) × (b ≡ false)
  worse a b = ground arith

  abbrev Told : Report F → List (Report F) → Bool × Bool → Type 0
  Told r rest flags = ((flags.0 ≡ true) ↔ HasBaseline r rest) × ((flags.1 ≡ true) ↔ IsWorse r rest)

  Told-past :
      (r other : Report F) (rest : List (Report F)) (flags : Bool × Bool)
      → comparable fl r other ≡ false
      → Told r rest flags
      → Told r (other ∷ rest) flags
  Told-past r other rest flags unlike ((has, had), (lost, was)) = (
    (λ e. inr (unlike, has e), λ near. had (further (λ o. Unit) near)),
    (
      λ e. let (now, near) = lost e in (now, inr (unlike, near)),
      λ (now, near). was (now, further (λ o. short fl o ≡ false) near),
    ),
  )
    where
      further : (P : Report F → Type 0) → Nearest r P (other ∷ rest) → Nearest r P rest
      further P (inl (same, _)) = absurd (apart (comparable fl r other) same unlike)
      further P (inr (_, near)) = near

  Told-here :
      (r other : Report F) (rest : List (Report F))
      → comparable fl r other ≡ true
      → Told r (other ∷ rest) (true, short fl r && not (short fl other))
  Told-here r other rest same = (
    (λ e. inl (same, tt), λ e. refl),
    (
      λ e.
          let (now, before) = (worse (short fl r) (short fl other)).0 e in
          (now, inl (same, before)),
      λ (now, near). found now near,
    ),
  )
    where
      found :
          short fl r ≡ true
          → Nearest r (λ o. short fl o ≡ false) (other ∷ rest)
          → short fl r && not (short fl other) ≡ true
      found now (inl (_, before)) = (worse (short fl r) (short fl other)).1 (now, before)
      found now (inr (unlike, _)) = absurd (apart (comparable fl r other) same unlike)

  against-Told : (r : Report F) (rest : List (Report F)) → Told r rest (against fl r rest)
  unfolding against
  against-Told r [] =
      ((λ e. contradiction e, λ e. absurd e), (λ e. absurd (contradiction e), λ (_, e). absurd e))
  against-Told r (other ∷ rest) = elim (Bool-cases (comparable fl r other)) [
    | inl same ↦ subst Tells (sym same) (Told-here r other rest same)
    | inr unlike ↦
        subst Tells (sym unlike)
          (Told-past r other rest (against fl r rest) unlike (against-Told r rest))
  ]
    where
      Tells : Bool → Type 0
      Tells same =
          Told r (other ∷ rest)
            (if same then (true, short fl r && not (short fl other)) else against fl r rest)

  -- The points of a trend say of each run whether it has a baseline and whether it is worse.
  abbrev pub Regressions : List (Report F) → List (TrendPoint F) → Type 0
  Regressions [] [] = Unit
  Regressions [] (p ∷ points) = ⊥
  Regressions (r ∷ rest) [] = ⊥
  Regressions (r ∷ rest) (p ∷ points) =
      ((p.has_comparable_predecessor ≡ true) ↔ HasBaseline r rest)
      × ((p.regressed ≡ true) ↔ IsWorse r rest)
      × Regressions rest points

  points_of-Regressions : (reports : List (Report F)) → Regressions reports (points_of fl reports)
  unfolding points_of point_of
  points_of-Regressions [] = tt
  points_of-Regressions (r ∷ rest) =
      let (has, worse_of) = against-Told r rest in (has, worse_of, points_of-Regressions rest)

  -- A trend has a point for each report, in their order. It names a baseline exactly when an earlier
  -- report is comparable, and says that the run regressed exactly when it is short of its target and
  -- the nearest comparable earlier report is not.
  pub build_trend-Regressions :
      (reports : List (Report F)) → Regressions reports (build_trend fl reports).points
  unfolding build_trend
  build_trend-Regressions [] = tt
  build_trend-Regressions (r ∷ rest) = points_of-Regressions (r ∷ rest)
