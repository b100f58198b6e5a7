-- ===== src/Delivery/Numbers.antt =====
-- The numbers that a sidecar stamps.
use mathlib.Core.List.{append_assoc, append-nil}
use honryu.Base.{
  ℕ, suc, ◌+◌, ◌≤◌, ◌≡◌, refl, ap, sym, ◌∙◌, subst, true, false, List, [], ◌∷◌, ◌++◌, Option,
  String, All, Bool-cases, Option-cases, ◌⊎◌, inl, inr, ◌==◌, arith, length, length-append,
  is_empty,
}
use honryu.Base.Ints.{pos, leb_ℤ}
use honryu.Base.Text.{Text, newline, trim_space}
use honryu.Metrics.{Interval}
use honryu.Progress.{Tally, absorb_from}
use honryu.Progress.Watermark.{absorb_from-take}
use honryu.Sidecar.{Sidecar, consume, consume_from, read, stamp, drop}
use honryu.Sidecar.Chunks.{consume_from-line, consume_from-newline}

module _ {F : Type 0} where
  -- The intervals carry the numbers that follow n, one by one.
  abbrev pub Numbered : ℕ → List (Interval F) → Type 0
  Numbered n [] = Unit
  Numbered n (iv ∷ ivs) = (iv.seq ≡ pos (suc n)) × Numbered (suc n) ivs

  pub Numbered-append :
      (n : ℕ) (xs ys : List (Interval F))
      → Numbered n xs
      → Numbered (n + length xs) ys
      → Numbered n (xs ++ ys)
  Numbered-append n [] ys h k =
      let same : n + 0 ≡ n = omega arith in subst (λ m. Numbered m ys) same k
  Numbered-append n (iv ∷ xs) ys h k =
      let same : n + suc (length xs) ≡ suc n + length xs = omega arith in
      (h.0, Numbered-append (suc n) xs ys h.1 (subst (λ m. Numbered m ys) same k))

  pub Numbered-right :
      (n : ℕ) (xs ys : List (Interval F)) → Numbered n (xs ++ ys) → Numbered (n + length xs) ys
  Numbered-right n [] ys h = let same : n ≡ n + 0 = omega arith in subst (λ m. Numbered m ys) same h
  Numbered-right n (iv ∷ xs) ys h =
      let same : suc n + length xs ≡ n + suc (length xs) = omega arith in
      subst (λ m. Numbered m ys) same (Numbered-right (suc n) xs ys h.1)

  pub Numbered-left : (n : ℕ) (xs ys : List (Interval F)) → Numbered n (xs ++ ys) → Numbered n xs
  Numbered-left n [] ys h = tt
  Numbered-left n (iv ∷ xs) ys h = (h.0, Numbered-left (suc n) xs ys h.1)

  -- Numbers up to the watermark are old.
  pub Numbered-old :
      (n w : ℕ) (xs : List (Interval F))
      → Numbered n xs
      → n + length xs ≤ w
      → All (λ iv. leb_ℤ iv.seq (pos w) ≡ true) xs
  Numbered-old n w [] h k = tt
  Numbered-old n w (iv ∷ xs) h k =
      let here = h.0 in (ground arith, Numbered-old (suc n) w xs h.1 (omega arith))

  -- The intervals that follow the watermark are all taken.
  pub absorb_from-Numbered :
      (t : Tally F) (w : ℕ) (acc : t.Acc) (xs : List (Interval F))
      → Numbered w xs
      → ((absorb_from t (pos w) acc xs).0 ≡ pos (w + length xs))
        × ((absorb_from t (pos w) acc xs).2 ≡ xs)
  absorb_from-Numbered t w acc [] h = unfold absorb_from in (ap pos (omega arith), refl)
  absorb_from-Numbered t w acc (iv ∷ xs) h =
      let here = h.0 in
      let new : leb_ℤ iv.seq (pos w) ≡ false = ground arith in
      let (up, all) =
        subst
          (λ n.
            ((absorb_from t n (t.add iv acc) xs).0 ≡ pos (suc w + length xs))
            × ((absorb_from t n (t.add iv acc) xs).2 ≡ xs))
          (sym here) (absorb_from-Numbered t (suc w) (t.add iv acc) xs h.1) in
      let take = absorb_from-take t (pos w) acc iv xs new in
      (
        ap (λ r. r.0) take ∙ up ∙ ap pos (omega arith),
        ap (λ r. r.2) take ∙ ap (λ rest. iv ∷ rest) all,
      )

  pub drop-length : (xs ys : List (Interval F)) → drop (length xs) (xs ++ ys) ≡ ys
  unfolding drop
  drop-length [] ys = refl
  drop-length (iv ∷ xs) ys = drop-length xs ys

module _ {F : Type 0} (unmarshal : Text → Option (Interval F))
    (label_map : List (String × String)) where
  -- What a read adds: intervals at the end of what is pending, numbered on from the last.
  abbrev pub Adds : Sidecar F → Sidecar F → Type 0
  Adds s after =
      (new : List (Interval F)) × (after.pending ≡ s.pending ++ new)
      × (after.seq ≡ s.seq + length new)
      × Numbered s.seq new
      × (after.stream_id ≡ s.stream_id)

  -- A line changes nothing, or one interval is stamped.
  consume-stamp :
      (line : Text) (s : Sidecar F)
      → (consume unmarshal label_map line s ≡ s)
        ⊎ ((iv : Interval F) × (consume unmarshal label_map line s
              ≡ stamp unmarshal label_map iv s))
  unfolding consume
  consume-stamp line s = elim (Bool-cases (is_empty (trim_space line))) [
    | inl blank ↦ inl (simp blank refl)
    | inr some_text ↦ elim (Option-cases (unmarshal (trim_space line))) [
      | inl bad ↦ inl (simp (some_text, bad) refl)
      | inr (iv, good) ↦ inr (iv, simp (some_text, good) refl)
    ]
  ]

  Adds-refl : (s : Sidecar F) → Adds s s
  Adds-refl s = ([], sym (append-nil s.pending), omega arith, tt, refl)

  stamp-Adds : (iv : Interval F) (s : Sidecar F) → Adds s (stamp unmarshal label_map iv s)
  unfolding stamp
  stamp-Adds iv s = (_, refl, omega arith, (refl, tt), refl)

  consume-Adds : (line : Text) (s : Sidecar F) → Adds s (consume unmarshal label_map line s)
  consume-Adds line s = elim (consume-stamp line s) [
    | inl same ↦ subst (Adds s) (sym same) (Adds-refl s)
    | inr (iv, stamped) ↦ subst (Adds s) (sym stamped) (stamp-Adds iv s)
  ]

  Adds-trans : (s t u : Sidecar F) → Adds s t → Adds t u → Adds s u
  Adds-trans s t u (xs, p, q, nx, i) (ys, p', q', ny, j) = (
    xs ++ ys,
    p' ∙ ap (λ zs. zs ++ ys) p ∙ append_assoc s.pending xs ys,
    (let len = length-append xs ys in omega arith),
    Numbered-append s.seq xs ys nx (subst (λ n. Numbered n ys) q ny),
    j ∙ i,
  )

  consume_from-Adds :
      (line cs : Text) (s : Sidecar F) → Adds s (consume_from unmarshal label_map line cs s)
  consume_from-Adds line [] s =
      unfold consume_from in ([], sym (append-nil s.pending), omega arith, tt, refl)
  consume_from-Adds line (c ∷ cs) s = elim (Bool-cases (c == newline)) [
    | inl ends ↦
        let after = consume unmarshal label_map line s in
        subst (Adds s) (sym (consume_from-newline unmarshal label_map line c cs s ends)) (
          Adds-trans s after (consume_from unmarshal label_map [] cs after) (consume-Adds line s)
            (consume_from-Adds [] cs after))
    | inr goes_on ↦
        subst (Adds s) (sym (consume_from-line unmarshal label_map line c cs s goes_on))
          (consume_from-Adds (line ++ c ∷ []) cs s)
  ]

  pub read-Adds : (bytes : Text) (s : Sidecar F) → Adds s (read unmarshal label_map bytes s)
  unfolding read
  read-Adds bytes s = consume_from-Adds [] (s.carry ++ bytes) s
