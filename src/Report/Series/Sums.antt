-- ===== src/Report/Series/Sums.antt =====
-- The concurrency of a second's intervals, summed at once and batch by batch.
use honryu.Base.{
  ◌≡◌, ap, sym, ◌∙◌, inl, inr, Bool, true, false, List, [], ◌∷◌, ◌++◌, Bool-cases, if◌then◌else◌,
  refl,
}
use honryu.Base.Ints.{ℤ, pos, ◌+ℤ◌, wrap64, eqb_ℤ, eqb_ℤ_iff}
use honryu.Base.Wrap.{+ℤ_assoc, +ℤ_comm, +ℤ_zero, wrap64-+ℤ, wrap64-wrap64}
use honryu.Base.Maps.{lookup_or, store, lookup_or-store, update-here, update-there}
use honryu.Metrics.{Interval}
use honryu.Report.Series.{group_seconds}

-- What the elements of a list sum to.
abbrev pub sum_all : {A : Type 0} → (A → ℤ) → List A → ℤ
sum_all add [] = pos 0
sum_all add (a ∷ l) = add a +ℤ sum_all add l

module _ {F : Type 0} (f : Interval F → ℤ) where
  abbrev pub at : ℤ → Interval F → ℤ
  at ts iv = if eqb_ℤ iv.timestamp ts then f iv else pos 0

  abbrev pub sum_at : ℤ → List (Interval F) → ℤ
  sum_at ts [] = pos 0
  sum_at ts (iv ∷ ivs) = at ts iv +ℤ sum_at ts ivs

  abbrev pub sum_groups : ℤ → List (ℤ × List (Interval F)) → ℤ
  sum_groups ts [] = pos 0
  sum_groups ts (g ∷ groups) =
      (if eqb_ℤ g.0 ts then sum_all f g.1 else pos 0) +ℤ sum_groups ts groups

  sum_all-snoc :
      (iv : Interval F) (ivs : List (Interval F))
      → sum_all f (ivs ++ iv ∷ []) ≡ sum_all f ivs +ℤ f iv
  sum_all-snoc iv [] = +ℤ_comm (f iv) (pos 0)
  sum_all-snoc iv (jv ∷ ivs) =
      ap (λ z. f jv +ℤ z) (sum_all-snoc iv ivs) ∙ sym (+ℤ_assoc (f jv) (sum_all f ivs) (f iv))

  shift : (x n y : ℤ) → x +ℤ n +ℤ y ≡ x +ℤ y +ℤ n
  shift x n y = +ℤ_assoc x n y ∙ ap (λ z. x +ℤ z) (+ℤ_comm n y) ∙ sym (+ℤ_assoc x y n)

  grown :
      (b : Bool) (iv : Interval F) (ivs : List (Interval F)) (rest : ℤ)
      → (if b then sum_all f (ivs ++ iv ∷ []) else pos 0) +ℤ rest
        ≡ (if b then sum_all f ivs else pos 0) +ℤ rest +ℤ (if b then f iv else pos 0)
  grown true iv ivs rest =
      ap (λ z. z +ℤ rest) (sum_all-snoc iv ivs) ∙ shift (sum_all f ivs) (f iv) rest
  grown false iv ivs rest = sym (+ℤ_zero (pos 0 +ℤ rest))

  sum_groups-store :
      (ts : ℤ) (iv : Interval F) (groups : List (ℤ × List (Interval F)))
      → sum_groups ts
          (store eqb_ℤ iv.timestamp (lookup_or eqb_ℤ [] iv.timestamp groups ++ iv ∷ []) groups)
        ≡ sum_groups ts groups +ℤ at ts iv
  unfolding store lookup_or
  sum_groups-store ts iv [] =
      ap (λ z. (if eqb_ℤ iv.timestamp ts then z else pos 0) +ℤ pos 0) (+ℤ_zero (f iv))
      ∙ +ℤ_comm (at ts iv) (pos 0)
  sum_groups-store ts iv ((j, ivs) ∷ groups) = elim (Bool-cases (eqb_ℤ j iv.timestamp)) [
    | inl here ↦
        ap (sum_groups ts) (update-here eqb_ℤ (λ g. g ++ iv ∷ []) [] iv.timestamp j ivs groups here)
        ∙ grown (eqb_ℤ j ts) iv ivs (sum_groups ts groups)
        ∙ ap
            (λ k.
              (if eqb_ℤ j ts then sum_all f ivs else pos 0)
              +ℤ sum_groups ts groups
              +ℤ (if eqb_ℤ k ts then f iv else pos 0))
            ((eqb_ℤ_iff j iv.timestamp).0 here)
    | inr elsewhere ↦
        ap (sum_groups ts)
          (update-there eqb_ℤ (λ g. g ++ iv ∷ []) [] iv.timestamp j ivs groups elsewhere)
        ∙ ap (λ z. (if eqb_ℤ j ts then sum_all f ivs else pos 0) +ℤ z)
            (sum_groups-store ts iv groups)
        ∙ sym (
            +ℤ_assoc (if eqb_ℤ j ts then sum_all f ivs else pos 0) (sum_groups ts groups)
              (at ts iv))
  ]

  pub sum_groups-group_seconds :
      (ts : ℤ) (groups : List (ℤ × List (Interval F))) (ivs : List (Interval F))
      → sum_groups ts (group_seconds groups ivs) ≡ sum_groups ts groups +ℤ sum_at ts ivs
  unfolding group_seconds
  sum_groups-group_seconds ts groups [] = sym (+ℤ_zero (sum_groups ts groups))
  sum_groups-group_seconds ts groups (iv ∷ ivs) =
      sum_groups-group_seconds ts
        (store eqb_ℤ iv.timestamp (lookup_or eqb_ℤ [] iv.timestamp groups ++ iv ∷ []) groups) ivs
      ∙ ap (λ z. z +ℤ sum_at ts ivs) (sum_groups-store ts iv groups)
      ∙ +ℤ_assoc (sum_groups ts groups) (at ts iv) (sum_at ts ivs)

-- A reading of a state that every element of a list adds to, with the wrap-around.
module _ {S A : Type 0} (reading : S → ℤ) (step : A → S → S) (add : A → ℤ)
    (step_lem : (a : A) (s : S)
      → wrap64 (reading s) ≡ reading s
      → reading (step a s) ≡ wrap64 (reading s +ℤ add a))
    (loop : S → List A → S) (loop_nil : (s : S) → loop s [] ≡ s)
    (loop_cons : (s : S) (a : A) (l : List A) → loop s (a ∷ l) ≡ loop (step a s) l) where
  pub reading-loop :
      (l : List A) (s : S)
      → wrap64 (reading s) ≡ reading s
      → reading (loop s l) ≡ wrap64 (reading s +ℤ sum_all add l)
  reading-loop [] s h = ap reading (loop_nil s) ∙ sym h ∙ ap wrap64 (sym (+ℤ_zero (reading s)))
  reading-loop (a ∷ l) s h =
      ap reading (loop_cons s a l)
      ∙ reading-loop l (step a s)
          (ap wrap64 (step_lem a s h) ∙ wrap64-wrap64 (reading s +ℤ add a) ∙ sym (step_lem a s h))
      ∙ ap (λ z. wrap64 (z +ℤ sum_all add l)) (step_lem a s h)
      ∙ wrap64-+ℤ (reading s +ℤ add a) (sum_all add l)
      ∙ ap wrap64 (+ℤ_assoc (reading s) (add a) (sum_all add l))

-- A reading of the entry of one second, where a store changes an entry.
module _ {V A : Type 0} (reading : V → ℤ) (d : V) (grow : A → V → V) (add : A → ℤ)
    (grow_lem : (a : A) (v : V)
      → wrap64 (reading v) ≡ reading v
      → reading (grow a v) ≡ wrap64 (reading v +ℤ add a)) where
  abbrev pub read : ℤ → List (ℤ × V) → ℤ
  read ts m = reading (lookup_or eqb_ℤ d ts m)

  grown_read :
      (b : Bool) (a : A) (v w : V)
      → (b ≡ true → v ≡ w)
      → wrap64 (reading w) ≡ reading w
      → reading (if b then grow a v else w) ≡ wrap64 (reading w +ℤ (if b then add a else pos 0))
  grown_read true a v w e h = ap (λ v. reading (grow a v)) (e refl) ∙ grow_lem a w h
  grown_read false a v w e h = sym h ∙ ap wrap64 (sym (+ℤ_zero (reading w)))

  pub read-store :
      (ts j : ℤ) (a : A) (m : List (ℤ × V))
      → wrap64 (read ts m) ≡ read ts m
      → read ts (store eqb_ℤ j (grow a (lookup_or eqb_ℤ d j m)) m)
        ≡ wrap64 (read ts m +ℤ (if eqb_ℤ j ts then add a else pos 0))
  read-store ts j a m h =
      ap reading (lookup_or-store eqb_ℤ eqb_ℤ_iff d j ts (grow a (lookup_or eqb_ℤ d j m)) m)
      ∙ grown_read (eqb_ℤ j ts) a (lookup_or eqb_ℤ d j m) (lookup_or eqb_ℤ d ts m)
          (λ e. ap (λ k. lookup_or eqb_ℤ d k m) ((eqb_ℤ_iff j ts).0 e)) h
