-- ===== src/Base/Rebuilt.antt =====
-- A map written down as a list of rows, and a map made of such rows.
use honryu.Base.Tests.{if◌then◌else◌, Bool-cases}
use honryu.Base.Lists.{All}
use honryu.Base.Maps.{lookup, store, lookup_or, lookup-store}
use honryu.Base.Sorting.{insert_by, sort_by, All-insert_by, All-sort_by}
use mathlib.Core.Path.{◌≡◌, refl, ap, ◌∙◌}
use mathlib.Core.Logic.{◌↔◌, inl, inr}
use mathlib.Core.Bool.{Bool, true, false}
use mathlib.Core.Option.{Option, none, some}
use mathlib.Core.List.{List, [], ◌∷◌, map}
use native.Mathlib.Omega.{arith}

module _ {ℓ κ μ} {K : Type ℓ} {V : Type κ} {A : Type μ} (eq : K → K → Bool) (key : A → K)
    (value : A → V) where
  -- The loop that stores each row.
  unfoldable pub store_rows : List A → List (K × V) → List (K × V)
  unfolding store
  store_rows [] m = m
  store_rows (r ∷ rows) m = store_rows rows (store eq (key r) (value r) m)

  -- What the first row of a key holds.
  unfoldable pub row_at : K → List A → Option V
  row_at k [] = none
  row_at k (r ∷ rows) = if eq (key r) k then some (value r) else row_at k rows

  abbrev pub IsOther : A → A → Type 0
  IsOther r q = eq (key q) (key r) ≡ false

  -- No two rows have the same key.
  abbrev pub Apart : List A → Type μ
  Apart [] = Unit
  Apart (r ∷ rows) = All (IsOther r) rows × Apart rows

  module _ (eq_iff : (a b : K) → (eq a b ≡ true) ↔ (a ≡ b)) where
    row_at-other :
        (k : K) (r : A) (rows : List A)
        → eq (key r) k ≡ true
        → All (IsOther r) rows
        → row_at k rows ≡ none
    unfolding row_at
    row_at-other k r [] h all = refl
    row_at-other k r (q ∷ rows) h all = ground (
      arith,
      row_at-other k r rows h all.1,
      eq_iff (key r) k,
      eq_iff (key q) k,
      eq_iff (key q) (key r),
    )

    abbrev or_else : Option V → Option V → Option V
    or_else (some v) o = some v
    or_else none o = o

    lookup-store_rows :
        (k : K) (rows : List A) (m : List (K × V))
        → Apart rows
        → lookup eq k (store_rows rows m) ≡ or_else (row_at k rows) (lookup eq k m)
    unfolding store_rows row_at
    lookup-store_rows k [] m h = refl
    lookup-store_rows k (r ∷ rows) m h =
        lookup-store_rows k rows (store eq (key r) (value r) m) h.1
        ∙ ap (or_else (row_at k rows)) (lookup-store eq eq_iff (key r) k (value r) m)
        ∙ elim (Bool-cases (eq (key r) k)) [
          | inl here ↦ rw (row_at-other k r rows here h.0, here) refl
          | inr elsewhere ↦ rw elsewhere refl
        ]

    row_at-insert_by :
        (k : K) (less : A → A → Bool) (r : A) (rows : List A)
        → All (IsOther r) rows
        → row_at k (insert_by less r rows) ≡ row_at k (r ∷ rows)
    unfolding insert_by row_at
    row_at-insert_by k less r [] h = refl
    row_at-insert_by k less r (q ∷ rows) h = ground (
      arith,
      row_at-insert_by k less r rows h.1,
      eq_iff (key r) k,
      eq_iff (key q) k,
      eq_iff (key q) (key r),
    )

    row_at-sort_by :
        (k : K) (less : A → A → Bool) (rows : List A)
        → Apart rows
        → row_at k (sort_by less rows) ≡ row_at k rows
    unfolding sort_by row_at
    row_at-sort_by k less [] h = refl
    row_at-sort_by k less (r ∷ rows) h =
        row_at-insert_by k less r (sort_by less rows) (All-sort_by (IsOther r) less rows h.0)
        ∙ ap (λ o. if eq (key r) k then some (value r) else o) (row_at-sort_by k less rows h.1)

    IsOther-sym : (r q : A) → IsOther r q → IsOther q r
    IsOther-sym r q h = ground (arith, eq_iff (key r) (key q), eq_iff (key q) (key r))

    insert_by-Apart :
        (less : A → A → Bool) (r : A) (rows : List A)
        → All (IsOther r) rows
        → Apart rows
        → Apart (insert_by less r rows)
    unfolding insert_by
    insert_by-Apart less r [] h k = (tt, tt)
    insert_by-Apart less r (q ∷ rows) h k = elim (Bool-cases (less q r)) [
      | inl e ↦
          rw (e, insert_by)
            (
              All-insert_by (IsOther q) less r rows (IsOther-sym r q h.0) k.0,
              insert_by-Apart less r rows h.1 k.1,
            )
      | inr e ↦ rw (e, insert_by) (h, k)
    ]

    sort_by-Apart : (less : A → A → Bool) (rows : List A) → Apart rows → Apart (sort_by less rows)
    unfolding sort_by
    sort_by-Apart less [] h = tt
    sort_by-Apart less (r ∷ rows) h =
        insert_by-Apart less r (sort_by less rows) (All-sort_by (IsOther r) less rows h.0)
          (sort_by-Apart less rows h.1)

    -- A map made of sorted rows holds what the rows hold.
    pub lookup-store_rows-sort_by :
        (k : K) (less : A → A → Bool) (rows : List A)
        → Apart rows
        → lookup eq k (store_rows (sort_by less rows) []) ≡ row_at k rows
    unfolding lookup
    lookup-store_rows-sort_by k less rows h =
        lookup-store_rows k (sort_by less rows) [] (sort_by-Apart less rows h)
        ∙ or_else_none (row_at k (sort_by less rows))
        ∙ row_at-sort_by k less rows h
      where
        or_else_none : (o : Option V) → or_else o none ≡ o
        or_else_none none = refl
        or_else_none (some v) = refl

module _ {ℓ κ} {K : Type ℓ} {V : Type κ} (eq : K → K → Bool) where
  -- One entry for each key.
  abbrev pub IsMap : List (K × V) → Type (ℓ ⊔ κ)
  IsMap = Apart {V = V} eq (λ e. e.0) (λ e. e.1)

  abbrev IsElsewhere : K → K × V → Type 0
  IsElsewhere k e = eq e.0 k ≡ false

  All-store :
      (j k : K) (v : V) (m : List (K × V))
      → eq k j ≡ false
      → All (IsElsewhere j) m
      → All (IsElsewhere j) (store eq k v m)
  unfolding store
  All-store j k v [] h all = (h, tt)
  All-store j k v ((i, w) ∷ m) h all = elim (Bool-cases (eq i k)) [
    | inl here ↦ rw (here, store) all
    | inr elsewhere ↦ rw (elsewhere, store) (all.0, All-store j k v m h all.1)
  ]

  pub store-IsMap :
      (eq_iff : (a b : K) → (eq a b ≡ true) ↔ (a ≡ b)) (k : K) (v : V) (m : List (K × V))
      → IsMap m
      → IsMap (store eq k v m)
  unfolding store
  store-IsMap eq_iff k v [] h = (tt, tt)
  store-IsMap eq_iff k v ((i, w) ∷ m) h = elim (Bool-cases (eq i k)) [
    | inl here ↦ rw (here, store) h
    | inr elsewhere ↦
        rw (elsewhere, store)
          (
            All-store i k v m (ground (arith, eq_iff i k, eq_iff k i)) h.0,
            store-IsMap eq_iff k v m h.1,
          )
  ]

  -- What holds of every value of a map.
  abbrev pub Holds {μ} : (V → Type μ) → List (K × V) → Type μ
  Holds P m = All (λ e. P e.1) m

  pub store-Holds {μ} :
      (P : V → Type μ) (k : K) (v : V) (m : List (K × V))
      → P v
      → Holds P m
      → Holds P (store eq k v m)
  unfolding store
  store-Holds P k v [] pv all = (pv, tt)
  store-Holds P k v ((i, w) ∷ m) pv all = elim (Bool-cases (eq i k)) [
    | inl here ↦ rw (here, store) (pv, all.1)
    | inr elsewhere ↦ rw (elsewhere, store) (all.0, store-Holds P k v m pv all.1)
  ]

  pub lookup_or-Holds {μ} :
      (P : V → Type μ) (d : V) (k : K) (m : List (K × V)) → P d → Holds P m → P (lookup_or eq d k m)
  unfolding lookup_or
  lookup_or-Holds P d k [] pd all = pd
  lookup_or-Holds P d k ((i, w) ∷ m) pd all = elim (Bool-cases (eq i k)) [
    | inl here ↦ rw (here, lookup_or) all.0
    | inr elsewhere ↦ rw (elsewhere, lookup_or) (lookup_or-Holds P d k m pd all.1)
  ]

module _ {ℓ κ μ} {K : Type ℓ} {V : Type κ} {A : Type μ} (eq : K → K → Bool) (key : A → K)
    (value : A → V) (row : K × V → A) (key-row : (e : K × V) → key (row e) ≡ e.0) where
  All-rows :
      (e : K × V) (m : List (K × V))
      → All (λ f. eq f.0 e.0 ≡ false) m
      → All (λ q. eq (key q) (key (row e)) ≡ false) (map row m)
  All-rows e [] h = tt
  All-rows e (f ∷ m) h = (
    ap (λ k. eq (key (row f)) k) (key-row e) ∙ ap (λ k. eq k e.0) (key-row f) ∙ h.0,
    All-rows e m h.1,
  )

  pub rows-Apart : (m : List (K × V)) → IsMap eq m → Apart eq key value (map row m)
  rows-Apart [] h = tt
  rows-Apart (e ∷ m) h = (All-rows e m h.0, rows-Apart m h.1)

  pub row_at-rows :
      (k : K) (m : List (K × V))
      → All (λ e. value (row e) ≡ e.1) m
      → row_at eq key value k (map row m) ≡ lookup eq k m
  unfolding row_at lookup
  row_at-rows k [] h = refl
  row_at-rows k ((j, v) ∷ m) h =
      ap (λ i. if eq i k then some (value (row (j, v))) else row_at eq key value k (map row m))
        (key-row (j, v))
      ∙ ap (λ w. if eq j k then some w else row_at eq key value k (map row m)) h.0
      ∙ ap (λ o. if eq j k then some v else o) (row_at-rows k m h.1)

  -- A map written down in any order of its rows and made again holds what it held.
  pub rebuilt :
      (eq_iff : (a b : K) → (eq a b ≡ true) ↔ (a ≡ b)) (k : K) (less : A → A → Bool)
      (m : List (K × V))
      → IsMap eq m
      → All (λ e. value (row e) ≡ e.1) m
      → lookup eq k (store_rows eq key value (sort_by less (map row m)) []) ≡ lookup eq k m
  rebuilt eq_iff k less m h same =
      lookup-store_rows-sort_by eq key value eq_iff k less (map row m) (rows-Apart m h)
      ∙ row_at-rows k m same
