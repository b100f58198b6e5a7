-- ===== src/Sidecar/Chunks.antt =====
-- The reads of the stream and the part of a line that is carried over.
use mathlib.Core.List.{append_assoc, append-nil}
use honryu.Base.{
  ℕ, ◌≡◌, refl, ap, sym, ◌∙◌, subst, true, false, List, [], ◌∷◌, ◌++◌, Option, String, All,
  Bool-cases, inl, inr, ◌==◌, All-append, arith,
}
use honryu.Base.Text.{Text, newline}
use honryu.Metrics.{Interval}
use honryu.Sidecar.{Sidecar, consume, consume_from, read, drain, stamp}

-- A part of one line.
abbrev pub IsPartial : Text → Type 0
IsPartial = All (λ c. (c == newline) ≡ false)

abbrev pub concat : List Text → Text
concat [] = []
concat (t ∷ ts) = t ++ concat ts

module _ {F : Type 0} (unmarshal : Text → Option (Interval F))
    (label_map : List (String × String)) where
  pub consume_from-line :
      (line : Text) (c : ℕ) (cs : Text) (s : Sidecar F)
      → (c == newline) ≡ false
      → consume_from unmarshal label_map line (c ∷ cs) s
        ≡ consume_from unmarshal label_map (line ++ c ∷ []) cs s
  unfolding consume_from
  consume_from-line line c cs s h = rw (h, consume_from) refl

  pub consume_from-newline :
      (line : Text) (c : ℕ) (cs : Text) (s : Sidecar F)
      → (c == newline) ≡ true
      → consume_from unmarshal label_map line (c ∷ cs) s
        ≡ consume_from unmarshal label_map [] cs (consume unmarshal label_map line s)
  unfolding consume_from
  consume_from-newline line c cs s h = rw (h, consume_from) refl

  -- Consuming a line neither reads nor changes the carry buffer.
  consume-carry :
      (line carry : Text) (s : Sidecar F)
      → consume unmarshal label_map line (record s { carry = carry })
        ≡ record (consume unmarshal label_map line s) { carry = carry }
  unfolding consume stamp
  consume-carry line carry s = ground arith

  consume_from-carry :
      (line carry cs : Text) (s : Sidecar F)
      → consume_from unmarshal label_map line cs (record s { carry = carry })
        ≡ consume_from unmarshal label_map line cs s
  consume_from-carry line carry [] s = unfold consume_from in refl
  consume_from-carry line carry (c ∷ cs) s = elim (Bool-cases (c == newline)) [
    | inl ends ↦
        consume_from-newline line c cs (record s { carry = carry }) ends
        ∙ ap (consume_from unmarshal label_map [] cs) (consume-carry line carry s)
        ∙ consume_from-carry [] carry cs (consume unmarshal label_map line s)
        ∙ sym (consume_from-newline line c cs s ends)
    | inr goes_on ↦
        consume_from-line line c cs (record s { carry = carry }) goes_on
        ∙ consume_from-carry (line ++ c ∷ []) carry cs s
        ∙ sym (consume_from-line line c cs s goes_on)
  ]

  consume_from-append :
      (line xs ys : Text) (s : Sidecar F)
      → let begun = consume_from unmarshal label_map line xs s in
        consume_from unmarshal label_map line (xs ++ ys) s
        ≡ consume_from unmarshal label_map begun.carry ys begun
  consume_from-append line [] ys s = unfold consume_from in sym (consume_from-carry line line ys s)
  consume_from-append line (c ∷ xs) ys s = elim (Bool-cases (c == newline)) [
    | inl ends ↦
        let after = consume unmarshal label_map line s in
        consume_from-newline line c (xs ++ ys) s ends
        ∙ consume_from-append [] xs ys after
        ∙ ap (λ t. consume_from unmarshal label_map t.carry ys t)
            (sym (consume_from-newline line c xs s ends))
    | inr goes_on ↦
        consume_from-line line c (xs ++ ys) s goes_on
        ∙ consume_from-append (line ++ c ∷ []) xs ys s
        ∙ ap (λ t. consume_from unmarshal label_map t.carry ys t)
            (sym (consume_from-line line c xs s goes_on))
  ]

  -- What is carried over is a part of one line.
  consume_from-IsPartial :
      (line xs : Text) (s : Sidecar F)
      → IsPartial line
      → IsPartial (consume_from unmarshal label_map line xs s).carry
  consume_from-IsPartial line [] s h = unfold consume_from in h
  consume_from-IsPartial line (c ∷ xs) s h = elim (Bool-cases (c == newline)) [
    | inl ends ↦
        subst (λ t. IsPartial t.carry) (sym (consume_from-newline line c xs s ends))
          (consume_from-IsPartial [] xs (consume unmarshal label_map line s) tt)
    | inr goes_on ↦
        subst (λ t. IsPartial t.carry) (sym (consume_from-line line c xs s goes_on))
          (consume_from-IsPartial (line ++ c ∷ []) xs s
            (All-append (λ d. (d == newline) ≡ false) line (c ∷ []) h (goes_on, tt)))
  ]

  -- The part of a line that was carried over is read again as the line's beginning.
  consume_from-IsPartial-append :
      (line xs ys : Text) (s : Sidecar F)
      → IsPartial xs
      → consume_from unmarshal label_map line (xs ++ ys) s
        ≡ consume_from unmarshal label_map (line ++ xs) ys s
  consume_from-IsPartial-append line [] ys s h =
      ap (λ l. consume_from unmarshal label_map l ys s) (sym (append-nil line))
  consume_from-IsPartial-append line (c ∷ xs) ys s h =
      consume_from-line line c (xs ++ ys) s h.0
      ∙ consume_from-IsPartial-append (line ++ c ∷ []) xs ys s h.1
      ∙ ap (λ l. consume_from unmarshal label_map l ys s) (append_assoc line (c ∷ []) xs)

  -- Reading the stream in pieces, wherever they end, leaves what reading all its bytes at once leaves:
  -- no line is lost at the end of a read, none is read twice, and the same numbers are stamped. (Only a
  -- part of a line is carried over, as after any read.)
  pub drain-concat :
      (reads : List Text) (s : Sidecar F)
      → IsPartial s.carry
      → drain unmarshal label_map reads s ≡ read unmarshal label_map (concat reads) s
  unfolding drain read
  drain-concat [] s h =
      sym (consume_from-IsPartial-append [] s.carry [] s h ∙ unfold consume_from in refl)
  drain-concat (bytes ∷ reads) s h =
      let once = read unmarshal label_map bytes s in
      let held = consume_from-IsPartial [] (s.carry ++ bytes) s tt in
      drain-concat reads once held
      ∙ consume_from-IsPartial-append [] once.carry (concat reads) once held
      ∙ sym (consume_from-append [] (s.carry ++ bytes) (concat reads) s)
      ∙ ap (λ t. consume_from unmarshal label_map [] t s)
          (append_assoc s.carry bytes (concat reads))
