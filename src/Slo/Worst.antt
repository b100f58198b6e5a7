-- ===== src/Slo/Worst.antt =====
-- The line that a digest of a budget leads with.
use honryu.Base.{
  ◌≡◌, ◌⊎◌, refl, inl, inr, true, false, List, [], ◌∷◌, Option, none, some, Bool-cases, subst,
  arith,
}
use honryu.Base.Floats.{Float64}
use honryu.Slo.{MetricBudget, Budget, keep_worse, worst_from, worst_line, worst}

module _ (fl : Float64) where
  open fl use {F, le, lt, le_refl, le_trans, le_total, lt_not_le}

  abbrev pub Line : Type 0
  Line = MetricBudget F

  -- A line has a measurement, with so much of its budget remaining.
  abbrev pub Measures : Line → F → Type 0
  Measures m left = (got : F) × (m.actual ≡ some got) × (m.budget_remaining_pct ≡ some left)

  abbrev pub IsIn : Line → List Line → Type 0
  IsIn m [] = ⊥
  IsIn m (x ∷ ms) = (m ≡ x) ⊎ IsIn m ms

  -- The line of a set that has the least remaining, or none where no line is measured.
  abbrev Leads : Option (Line × F) → (Line → Type 0) → Type 0
  Leads none P = (m : Line) (left : F) → P m → Measures m left → ⊥
  Leads (some (w, least)) P =
      P w
      × Measures w least
      × ((m : Line) (left : F) → P m → Measures m left → le least left ≡ true)

  abbrev pub IsWorst : Option Line → List Line → Type 0
  IsWorst none ms = (m : Line) (left : F) → IsIn m ms → Measures m left → ⊥
  IsWorst (some w) ms =
      (least : F) × IsIn w ms
      × Measures w least
      × ((m : Line) (left : F) → IsIn m ms → Measures m left → le least left ≡ true)

  abbrev Or : (Line → Type 0) → Line → Line → Type 0
  Or P m y = P y ⊎ (y ≡ m)

  same_left :
      (m y : Line) (l k : F) → y ≡ m → m.budget_remaining_pct ≡ some l → Measures y k → l ≡ k
  same_left m y l k e h (got, a, r) = cc

  unmeasured : (m y : Line) (k : F) → y ≡ m → m.actual ≡ none → Measures y k → ⊥
  unmeasured m y k e h (got, a, r) = cc

  unread : (m y : Line) (k : F) → y ≡ m → m.budget_remaining_pct ≡ none → Measures y k → ⊥
  unread m y k e h (got, a, r) = cc

  Leads-ignored :
      (m : Line) (acc : Option (Line × F)) (P : Line → Type 0)
      → ((y : Line) (k : F) → y ≡ m → Measures y k → ⊥)
      → Leads acc P
      → Leads acc (Or P m)
  Leads-ignored m none P never h = unmeasured_all
    where
      unmeasured_all : (y : Line) (k : F) → Or P m y → Measures y k → ⊥
      unmeasured_all y k (inl p) = h y k p
      unmeasured_all y k (inr e) = never y k e
  Leads-ignored m (some (w, least)) P never (p, here, all) = (inl p, here, below)
    where
      below : (y : Line) (k : F) → Or P m y → Measures y k → le least k ≡ true
      below y k (inl q) g = all y k q g
      below y k (inr e) g = absurd (never y k e g)

  Leads-least :
      (m : Line) (got left : F) (acc : Option (Line × F)) (P : Line → Type 0)
      → m.actual ≡ some got
      → m.budget_remaining_pct ≡ some left
      → Leads acc P
      → Leads (keep_worse fl (some got) (some left) m acc) (Or P m)
  unfolding keep_worse
  Leads-least m got left none P a r h = (inr refl, (got, a, r), below)
    where
      below : (y : Line) (k : F) → Or P m y → Measures y k → le left k ≡ true
      below y k (inl q) g = absurd (h y k q g)
      below y k (inr e) g =
          subst (λ x. le left x ≡ true) (same_left m y left k e r g) (le_refl left)
  Leads-least m got left (some (w, least)) P a r (p, here, all) =
      elim (Bool-cases (lt left least)) [
        | inl less ↦ simp less (inr refl, (got, a, r), below_new (total less))
        | inr more ↦ simp more (inl p, here, below_old (other more))
      ]
    where
      total : lt left least ≡ true → le left least ≡ true
      total e = grind (arith, lt_not_le left least, le_total least left)

      other : lt left least ≡ false → le least left ≡ true
      other e = grind (arith, lt_not_le left least)

      below_new :
          le left least ≡ true → (y : Line) (k : F) → Or P m y → Measures y k → le left k ≡ true
      below_new d y k (inl q) g = le_trans left least k d (all y k q g)
      below_new d y k (inr e) g =
          subst (λ x. le left x ≡ true) (same_left m y left k e r g) (le_refl left)

      below_old :
          le least left ≡ true → (y : Line) (k : F) → Or P m y → Measures y k → le least k ≡ true
      below_old d y k (inl q) g = all y k q g
      below_old d y k (inr e) g = subst (λ x. le least x ≡ true) (same_left m y left k e r g) d

  keep_worse-Leads :
      (m : Line) (a r : Option F) (acc : Option (Line × F)) (P : Line → Type 0)
      → m.actual ≡ a
      → m.budget_remaining_pct ≡ r
      → Leads acc P
      → Leads (keep_worse fl a r m acc) (Or P m)
  unfolding keep_worse
  keep_worse-Leads m none r acc P a e h = Leads-ignored m acc P (λ y k s. unmeasured m y k s a) h
  keep_worse-Leads m (some got) none acc P a e h =
      Leads-ignored m acc P (λ y k s. unread m y k s e) h
  keep_worse-Leads m (some got) (some left) acc P a e h = Leads-least m got left acc P a e h

  Leads-IsWorst :
      (acc : Option (Line × F)) (P : Line → Type 0) (ms : List Line)
      → ((y : Line) → P y → IsIn y ms)
      → ((y : Line) → IsIn y ms → P y)
      → Leads acc P
      → IsWorst (worst_line fl acc) ms
  unfolding worst_line
  Leads-IsWorst none P ms to from h = λ m left i. h m left (from m i)
  Leads-IsWorst (some (w, least)) P ms to from (p, here, all) =
      (least, to w p, here, λ m left i. all m left (from m i))

  worst_from-IsWorst :
      (acc : Option (Line × F)) (P : Line → Type 0) (ms all : List Line)
      → ((y : Line) → P y ⊎ IsIn y ms → IsIn y all)
      → ((y : Line) → IsIn y all → P y ⊎ IsIn y ms)
      → Leads acc P
      → IsWorst (worst_line fl (worst_from fl acc ms)) all
  unfolding worst_from
  worst_from-IsWorst acc P [] all to from h = Leads-IsWorst acc P all (λ y p. to y (inl p)) back h
    where
      back : (y : Line) → IsIn y all → P y
      back y i = elim (from y i) [ inl p ↦ p | inr e ↦ absurd e ]
  worst_from-IsWorst acc P (m ∷ ms) all to from h =
      worst_from-IsWorst (keep_worse fl m.actual m.budget_remaining_pct m acc) (Or P m) ms all there
        back (keep_worse-Leads m m.actual m.budget_remaining_pct acc P refl refl h)
    where
      there : (y : Line) → Or P m y ⊎ IsIn y ms → IsIn y all
      there y (inl (inl p)) = to y (inl p)
      there y (inl (inr e)) = to y (inr (inl e))
      there y (inr i) = to y (inr (inr i))

      regroup : (y : Line) → P y ⊎ IsIn y (m ∷ ms) → Or P m y ⊎ IsIn y ms
      regroup y (inl p) = inl (inl p)
      regroup y (inr (inl e)) = inl (inr e)
      regroup y (inr (inr i)) = inr i

      back : (y : Line) → IsIn y all → Or P m y ⊎ IsIn y ms
      back y i = regroup y (from y i)

  -- `Worst` of a budget is a measured line of it with no more remaining than any measured line has, and
  -- there is no such line only where none is measured.
  pub worst-IsWorst : (b : Budget F) → IsWorst (worst fl b) b.metrics
  unfolding worst
  worst-IsWorst b =
      worst_from-IsWorst none (λ y. ⊥) b.metrics b.metrics (λ y p. in_list y p) (λ y i. inr i)
        (λ m left e g. e)
    where
      in_list : (y : Line) → ⊥ ⊎ IsIn y b.metrics → IsIn y b.metrics
      in_list y (inl e) = absurd e
      in_list y (inr i) = i
