-- ===== src/Report/Accumulator/Counts.antt =====
-- The failures of a run, split by the side that caused them, and their number.
use honryu.Base.{
  ◌≡◌, refl, ap, sym, ◌∙◌, inl, inr, List, [], ◌∷◌, String, Bool-cases, subst, if◌then◌else◌,
}
use honryu.Base.Ints.{ℤ, pos, ◌+ℤ◌, wrap64}
use honryu.Base.Wrap.{+ℤ_assoc, +ℤ_comm, +ℤ_zero, wrap64-+ℤ, wrap64-+ℤ-right}
use honryu.Base.Maps.{store, lookup_or}
use honryu.Metrics.{ErrorGroup}
use honryu.Report.Failures.{
  Side, target, engine, unknown, Signature, same_signature, new_signature, ErrorCount, Attribution,
  total,
}
use honryu.Report.Accumulator.{no_errors, add_error, add_errors, attribute_from, attribution}

-- The failures of an interval.
abbrev pub failures : List ErrorGroup → ℤ
failures [] = pos 0
failures (e ∷ es) = e.count +ℤ failures es

-- The failures of all signatures.
abbrev sum : List (Signature × ErrorCount) → ℤ
sum [] = pos 0
sum (e ∷ m) = e.1.count +ℤ sum m

shift : (x n y : ℤ) → x +ℤ n +ℤ y ≡ x +ℤ y +ℤ n
shift x n y = +ℤ_assoc x n y ∙ ap (λ z. x +ℤ z) (+ℤ_comm n y) ∙ sym (+ℤ_assoc x y n)

wrap64-middle : (x n y : ℤ) → wrap64 (wrap64 (x +ℤ n) +ℤ y) ≡ wrap64 (x +ℤ y +ℤ n)
wrap64-middle x n y = wrap64-+ℤ (x +ℤ n) y ∙ ap wrap64 (shift x n y)

-- Storing a count that grew by n adds n, with the wrap-around.
sum-store :
    (k : Signature) (n : ℤ) (e : ErrorCount) (m : List (Signature × ErrorCount))
    → e.count ≡ wrap64 ((lookup_or same_signature no_errors k m).count +ℤ n)
    → wrap64 (sum (store same_signature k e m)) ≡ wrap64 (sum m +ℤ n)
unfolding store lookup_or
sum-store k n e [] h =
    ap (λ c. wrap64 (c +ℤ pos 0)) h
    ∙ wrap64-middle (pos 0) n (pos 0)
    ∙ ap (λ z. wrap64 (z +ℤ n)) (+ℤ_zero (pos 0))
sum-store k n e ((j, w) ∷ m) h = elim (Bool-cases (same_signature j k)) [
  | inl here ↦ rw here (
      ap (λ c. wrap64 (c +ℤ sum m))
        (subst
          (λ b.
            e.count ≡ wrap64 ((if b then w else lookup_or same_signature no_errors k m).count +ℤ n))
          here h)
      ∙ wrap64-middle w.count n (sum m))
  | inr elsewhere ↦ rw elsewhere (
      sym (wrap64-+ℤ-right w.count (sum (store same_signature k e m)))
      ∙ ap (λ z. wrap64 (w.count +ℤ z))
          (sum-store k n e m (
            subst
              (λ b.
                e.count
                ≡ wrap64 ((if b then w else lookup_or same_signature no_errors k m).count +ℤ n))
              elsewhere h))
      ∙ wrap64-+ℤ-right w.count (sum m +ℤ n)
      ∙ ap wrap64 (sym (+ℤ_assoc w.count (sum m) n)))
]

sum-add_error :
    (label : String) (e : ErrorGroup) (m : List (Signature × ErrorCount))
    → wrap64 (sum (add_error label e m)) ≡ wrap64 (sum m +ℤ e.count)
unfolding add_error
sum-add_error label e m = sum-store (new_signature label e) e.count _ m refl

sum-add_errors :
    (label : String) (es : List ErrorGroup) (m : List (Signature × ErrorCount))
    → wrap64 (sum (add_errors label es m)) ≡ wrap64 (sum m +ℤ failures es)
unfolding add_errors
sum-add_errors label [] m = ap wrap64 (sym (+ℤ_zero (sum m)))
sum-add_errors label (e ∷ es) m =
    sum-add_errors label es (add_error label e m)
    ∙ sym (wrap64-+ℤ (sum (add_error label e m)) (failures es))
    ∙ ap (λ z. wrap64 (z +ℤ failures es)) (sum-add_error label e m)
    ∙ wrap64-+ℤ (sum m +ℤ e.count) (failures es)
    ∙ ap wrap64 (+ℤ_assoc (sum m) e.count (failures es))

abbrev raw : Attribution → ℤ
raw a = a.target +ℤ a.engine +ℤ a.unknown

total-raw : (a : Attribution) → total a ≡ wrap64 (raw a)
unfolding total
total-raw a = wrap64-+ℤ (a.target +ℤ a.engine) a.unknown

-- A count added to one side is added to the total.
total-attribute :
    (a : Attribution) (side : Side) (n : ℤ)
    → total (elim side [
      | target ↦ record a { target = wrap64 (a.target +ℤ n) }
      | engine ↦ record a { engine = wrap64 (a.engine +ℤ n) }
      | unknown ↦ record a { unknown = wrap64 (a.unknown +ℤ n) }
    ])
      ≡ wrap64 (raw a +ℤ n)
total-attribute a target n =
    total-raw (record a { target = wrap64 (a.target +ℤ n) })
    ∙ ap wrap64 (+ℤ_assoc (wrap64 (a.target +ℤ n)) a.engine a.unknown)
    ∙ wrap64-middle a.target n (a.engine +ℤ a.unknown)
    ∙ ap (λ z. wrap64 (z +ℤ n)) (sym (+ℤ_assoc a.target a.engine a.unknown))
total-attribute a engine n =
    total-raw (record a { engine = wrap64 (a.engine +ℤ n) })
    ∙ sym (wrap64-+ℤ (a.target +ℤ wrap64 (a.engine +ℤ n)) a.unknown)
    ∙ ap (λ z. wrap64 (z +ℤ a.unknown))
        (wrap64-+ℤ-right a.target (a.engine +ℤ n) ∙ ap wrap64 (sym (+ℤ_assoc a.target a.engine n)))
    ∙ wrap64-middle (a.target +ℤ a.engine) n a.unknown
total-attribute a unknown n =
    total-raw (record a { unknown = wrap64 (a.unknown +ℤ n) })
    ∙ wrap64-+ℤ-right (a.target +ℤ a.engine) (a.unknown +ℤ n)
    ∙ ap wrap64 (sym (+ℤ_assoc (a.target +ℤ a.engine) a.unknown n))

total-attribute_from :
    (a : Attribution) (m : List (Signature × ErrorCount))
    → total (attribute_from a m) ≡ wrap64 (raw a +ℤ sum m)
unfolding attribute_from
total-attribute_from a [] = total-raw a ∙ ap wrap64 (sym (+ℤ_zero (raw a)))
total-attribute_from a ((sig, e) ∷ m) =
    let b : Attribution = elim sig.side [
      | target ↦ record a { target = wrap64 (a.target +ℤ e.count) }
      | engine ↦ record a { engine = wrap64 (a.engine +ℤ e.count) }
      | unknown ↦ record a { unknown = wrap64 (a.unknown +ℤ e.count) }
    ] in
    total-attribute_from b m
    ∙ sym (wrap64-+ℤ (raw b) (sum m))
    ∙ ap (λ z. wrap64 (z +ℤ sum m)) (sym (total-raw b) ∙ total-attribute a sig.side e.count)
    ∙ wrap64-+ℤ (raw a +ℤ e.count) (sum m)
    ∙ ap wrap64 (+ℤ_assoc (raw a) e.count (sum m))

total-attribution : (m : List (Signature × ErrorCount)) → total (attribution m) ≡ wrap64 (sum m)
unfolding attribution
total-attribution m =
    total-attribute_from (record { target = pos 0; engine = pos 0; unknown = pos 0 }) m
    ∙ ap wrap64 (zeroes (sum m))
  where
    zeroes : (x : ℤ) → pos 0 +ℤ pos 0 +ℤ pos 0 +ℤ x ≡ x
    zeroes x =
        ap (λ z. z +ℤ x) (+ℤ_zero (pos 0 +ℤ pos 0) ∙ +ℤ_zero (pos 0))
        ∙ +ℤ_comm (pos 0) x
        ∙ +ℤ_zero x

-- The failures of an interval are all attributed, to one side each: the attributed total grows by
-- their number, with an `int64`'s wrap-around.
pub attribution-add_errors :
    (label : String) (es : List ErrorGroup) (m : List (Signature × ErrorCount))
    → total (attribution (add_errors label es m)) ≡ wrap64 (total (attribution m) +ℤ failures es)
attribution-add_errors label es m =
    total-attribution (add_errors label es m)
    ∙ sum-add_errors label es m
    ∙ sym (wrap64-+ℤ (sum m) (failures es))
    ∙ ap (λ z. wrap64 (z +ℤ failures es)) (sym (total-attribution m))
