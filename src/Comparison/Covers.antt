-- ===== src/Comparison/Covers.antt =====
-- The projects that a comparison lists.
use honryu.Base.{
  ◌≡◌, subst, Bool-cases, ◌↔◌, ◌⊎◌, inl, inr, Bool, true, List, [], ◌∷◌, if◌then◌else◌, arith,
}
use honryu.Base.Ints.{ℤ, eqb_ℤ, ltb_ℤ, eqb_ℤ_iff}
use honryu.Base.Maps.{store}
use honryu.Base.Sorting.{insert_by, sort_by}
use honryu.Comparison.{
  ServiceSignal, ServiceComparison, add_ids, compare, has_id, index_from, rows_of, row_of,
}

abbrev Has : ℤ → List ℤ → Type 0
Has x [] = ⊥
Has x (y ∷ ys) = (y ≡ x) ⊎ Has x ys

abbrev HasKey : ℤ → List (ℤ × Bool) → Type 0
HasKey x [] = ⊥
HasKey x ((k, _) ∷ m) = (k ≡ x) ⊎ HasKey x m

-- A project is among the signals, or among the rows.
abbrev pub Signals : ℤ → List ServiceSignal → Type 0
Signals x [] = ⊥
Signals x (s ∷ signals) = (s.project_id ≡ x) ⊎ Signals x signals

abbrev pub Lists : ℤ → List ServiceComparison → Type 0
Lists x [] = ⊥
Lists x (row ∷ rows) = (row.project_id ≡ x) ⊎ Lists x rows

Has-insert_by : (x y : ℤ) (ys : List ℤ) → Has x (insert_by ltb_ℤ y ys) ↔ ((y ≡ x) ⊎ Has x ys)
unfolding insert_by
Has-insert_by x y [] = ((λ h. h), (λ h. h))
Has-insert_by x y (z ∷ ys) =
    let rest = Has-insert_by x y ys in ((λ h. ground (arith, rest)), (λ h. ground (arith, rest)))

Has-sort_by : (x : ℤ) (ys : List ℤ) → Has x (sort_by ltb_ℤ ys) ↔ Has x ys
unfolding sort_by
Has-sort_by x [] = ((λ h. h), (λ h. h))
Has-sort_by x (y ∷ ys) =
    let rest = Has-sort_by x ys in
    let here = Has-insert_by x y (sort_by ltb_ℤ ys) in
    ((λ h. ground (arith, rest, here)), (λ h. ground (arith, rest, here)))

HasKey-store :
    (x k : ℤ) (v : Bool) (m : List (ℤ × Bool))
    → HasKey x (store eqb_ℤ k v m) ↔ ((k ≡ x) ⊎ HasKey x m)
unfolding store
HasKey-store x k v [] = ((λ h. h), (λ h. h))
HasKey-store x k v ((j, w) ∷ m) =
    let rest = HasKey-store x k v m in
    let same = eqb_ℤ_iff j k in
    ((λ h. ground (arith, rest, same)), (λ h. ground (arith, rest, same)))

HasKey-index_from :
    (x : ℤ) (m : List (ℤ × Bool)) (signals : List ServiceSignal)
    → HasKey x (index_from m signals) ↔ (Signals x signals ⊎ HasKey x m)
unfolding index_from
HasKey-index_from x m [] = (inr, (λ h. ground arith))
HasKey-index_from x m (s ∷ signals) =
    let rest = HasKey-index_from x (store eqb_ℤ s.project_id s.is_go m) signals in
    let here = HasKey-store x s.project_id s.is_go m in
    ((λ h. ground (arith, rest, here)), (λ h. ground (arith, rest, here)))

has_id-Has : (x : ℤ) (ids : List ℤ) → (has_id x ids ≡ true) ↔ Has x ids
unfolding has_id
has_id-Has x [] = ((λ h. cc), (λ h. absurd h))
has_id-Has x (i ∷ ids) =
    let rest = has_id-Has x ids in
    let same = eqb_ℤ_iff i x in
    ((λ h. ground (arith, rest, same)), (λ h. ground (arith, rest, same)))

Has-add_id :
    (x k : ℤ) (ids : List ℤ) → Has x (if has_id k ids then ids else k ∷ ids) ↔ ((k ≡ x) ⊎ Has x ids)
Has-add_id x k ids = elim (Bool-cases (has_id k ids)) [
  | inl known ↦ rw known (
    inr,
    (λ h. elim h [
      | inl same ↦ subst (λ y. Has y ids) same ((has_id-Has k ids).0 known)
      | inr there ↦ there
    ]),
  )
  | inr new ↦ rw new ((λ h. h), (λ h. h))
]

Has-add_ids :
    (x : ℤ) (ids : List ℤ) (m : List (ℤ × Bool)) → Has x (add_ids ids m) ↔ (Has x ids ⊎ HasKey x m)
unfolding add_ids
Has-add_ids x ids [] = (inl, (λ h. ground arith))
Has-add_ids x ids ((k, v) ∷ m) =
    let rest = Has-add_ids x (if has_id k ids then ids else k ∷ ids) m in
    let grown = Has-add_id x k ids in
    ((λ h. ground (arith, rest, grown)), (λ h. ground (arith, rest, grown)))

Lists-rows_of :
    (x : ℤ) (curr base : List (ℤ × Bool)) (ids : List ℤ)
    → Lists x (rows_of curr base ids) ↔ Has x ids
unfolding rows_of row_of
Lists-rows_of x curr base [] = ((λ h. h), (λ h. h))
Lists-rows_of x curr base (id ∷ ids) =
    let rest = Lists-rows_of x curr base ids in
    ((λ h. ground (arith, rest)), (λ h. ground (arith, rest)))

-- A comparison lists exactly the projects that take part in the campaign or in its baseline.
pub compare-Lists :
    (current baseline : List ServiceSignal) (project : ℤ)
    → Lists project (compare current baseline)
      ↔ (Signals project current ⊎ Signals project baseline)
unfolding compare
compare-Lists current baseline project =
    let curr = index_from [] current in
    let base = index_from [] baseline in
    let ids = add_ids (add_ids [] curr) base in
    let rows = Lists-rows_of project curr base (sort_by ltb_ℤ ids) in
    let sorted = Has-sort_by project ids in
    let added = Has-add_ids project (add_ids [] curr) base in
    let first = Has-add_ids project [] curr in
    let in_current = HasKey-index_from project [] current in
    let in_baseline = HasKey-index_from project [] baseline in
    (
      (λ h. ground (arith, rows, sorted, added, first, in_current, in_baseline)),
      (λ h. ground (arith, rows, sorted, added, first, in_current, in_baseline)),
    )
