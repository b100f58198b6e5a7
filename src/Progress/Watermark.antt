-- ===== src/Progress/Watermark.antt =====
-- How the loop of `Absorb` moves the watermark.
use honryu.Base.{
  subst, ◌≡◌, refl, inl, inr, true, false, List, [], ◌∷◌, ◌++◌, arith, All, Bool-cases, ◌∙◌, sym,
}
use honryu.Base.Ints.{ℤ, leb_ℤ}
use honryu.Metrics.{Interval}
use honryu.Progress.{Tally, absorb_from}

module _ {F : Type 0} (t : Tally F) where
  open t use {Acc, Series, absorb_series}

  abbrev pub Old : ℤ → Interval F → Type 0
  Old seq iv = leb_ℤ iv.seq seq ≡ true

  pub absorb_from-skip :
      (seq : ℤ) (acc : Acc) (iv : Interval F) (ivs : List (Interval F))
      → leb_ℤ iv.seq seq ≡ true
      → absorb_from t seq acc (iv ∷ ivs) ≡ absorb_from t seq acc ivs
  unfolding absorb_from
  absorb_from-skip seq acc iv ivs h = rw (h, absorb_from) refl

  pub absorb_from-take :
      (seq : ℤ) (acc : Acc) (iv : Interval F) (ivs : List (Interval F))
      → leb_ℤ iv.seq seq ≡ false
      → absorb_from t seq acc (iv ∷ ivs)
        ≡ (let (w, a, fresh) = absorb_from t iv.seq (t.add iv acc) ivs in (w, a, iv ∷ fresh))
  unfolding absorb_from
  absorb_from-take seq acc iv ivs h = rw (h, absorb_from) refl

  abbrev pub Passed : ℤ → List (Interval F) → ℤ → Type 0
  Passed seq ivs w = (leb_ℤ seq w ≡ true) × All (Old w) ivs

  -- The watermark never falls, and passes every interval of the batch.
  pub absorb_from-Passed :
      (seq : ℤ) (acc : Acc) (ivs : List (Interval F)) → Passed seq ivs (absorb_from t seq acc ivs).0
  absorb_from-Passed seq acc [] = unfold absorb_from in (ground arith, tt)
  absorb_from-Passed seq acc (iv ∷ ivs) = elim (Bool-cases (leb_ℤ iv.seq seq)) [
    | inl old ↦
        let (up, rest) = absorb_from-Passed seq acc ivs in
        let w = (absorb_from t seq acc ivs).0 in
        let here : Old w iv = ground (arith, up) in
        subst (λ r. Passed seq (iv ∷ ivs) r.0) (sym (absorb_from-skip seq acc iv ivs old))
          (up, (here, rest))
    | inr fresh ↦
        let (here, rest) = absorb_from-Passed iv.seq (t.add iv acc) ivs in
        let w = (absorb_from t iv.seq (t.add iv acc) ivs).0 in
        let up : leb_ℤ seq w ≡ true = ground (arith, here) in
        subst (λ r. Passed seq (iv ∷ ivs) r.0) (sym (absorb_from-take seq acc iv ivs fresh))
          (up, (here, rest))
  ]

  -- Nothing is taken of a batch below the watermark.
  pub absorb_from-nothing :
      (seq : ℤ) (acc : Acc) (ivs : List (Interval F))
      → All (Old seq) ivs
      → absorb_from t seq acc ivs ≡ (seq, acc, [])
  absorb_from-nothing seq acc [] old = unfold absorb_from in refl
  absorb_from-nothing seq acc (iv ∷ ivs) old =
      absorb_from-skip seq acc iv ivs old.0 ∙ absorb_from-nothing seq acc ivs old.1

  -- A batch whose beginning is below the watermark is taken as the rest alone.
  pub absorb_from-Old-append :
      (seq : ℤ) (acc : Acc) (xs ys : List (Interval F))
      → All (Old seq) xs
      → absorb_from t seq acc (xs ++ ys) ≡ absorb_from t seq acc ys
  absorb_from-Old-append seq acc [] ys old = refl
  absorb_from-Old-append seq acc (iv ∷ xs) ys old =
      absorb_from-skip seq acc iv (xs ++ ys) old.0 ∙ absorb_from-Old-append seq acc xs ys old.1

  -- The watermark and the accumulator after a longer batch: its beginning's, then the rest's.
  pub absorb_from-append :
      (seq : ℤ) (acc : Acc) (xs ys : List (Interval F))
      → let begun = absorb_from t seq acc xs in
        let whole = absorb_from t seq acc (xs ++ ys) in
        let rest = absorb_from t begun.0 begun.1 ys in (whole.0 ≡ rest.0) × (whole.1 ≡ rest.1)
  absorb_from-append seq acc [] ys = unfold absorb_from in (refl, refl)
  absorb_from-append seq acc (iv ∷ xs) ys = elim (Bool-cases (leb_ℤ iv.seq seq)) [
    | inl old ↦
        rw (absorb_from-skip seq acc iv xs old, absorb_from-skip seq acc iv (xs ++ ys) old)
          (absorb_from-append seq acc xs ys)
    | inr new ↦
        rw (absorb_from-take seq acc iv xs new, absorb_from-take seq acc iv (xs ++ ys) new)
          (absorb_from-append iv.seq (t.add iv acc) xs ys)
  ]
