-- ===== src/Report/Exemplars.antt =====
-- The bounds on the wordings that are kept of a failure.
use honryu.Base.{
  ℕ, zero, suc, ◌≤◌, ◌≡◌, refl, inl, inr, false, List, [], ◌∷◌, ◌++◌, arith, All, All-append,
  Bool-cases, length, length-append, is_empty, leb, ltb, ◌||◌, if◌then◌else◌,
}
use honryu.Base.Text.{Text, take_runes, same_text, same_text_iff, trim_space}
use honryu.Report.Failures.{
  add_exemplar, add_exemplars, merge_exemplars, wording, seen_exemplar, max_exemplars,
  max_exemplar_len,
}

-- No wording occurs twice.
abbrev Distinct : List Text → Type 0
Distinct [] = Unit
Distinct (m ∷ ms) = (seen_exemplar m ms ≡ false) × Distinct ms

pub record IsKept (ms : List Text) : Type 0 where
  pub few : length ms ≤ max_exemplars
  pub short : All (λ m. length m ≤ max_exemplar_len) ms
  pub distinct : Distinct ms

length-take_runes : (n : ℕ) (s : Text) → length (take_runes n s) ≤ n
unfolding take_runes
length-take_runes zero s = ground arith
length-take_runes (suc n) [] = ground arith
length-take_runes (suc n) (c ∷ cs) = ground (arith, length-take_runes n cs)

ltb-le : (m n : ℕ) → ltb m n ≡ false → n ≤ m
ltb-le m n h = ground arith

length-cut : (n : ℕ) (s : Text) → length (if ltb n (length s) then take_runes n s else s) ≤ n
length-cut n s = elim (Bool-cases (ltb n (length s))) [
  | inl long ↦ rw long (length-take_runes n s)
  | inr short ↦ rw short (ltb-le n (length s) short)
]

length-wording : (msg : Text) → length (wording msg) ≤ max_exemplar_len
unfolding wording
length-wording msg = length-cut max_exemplar_len (trim_space msg)

seen_exemplar-append :
    (x m : Text) (ms : List Text)
    → seen_exemplar x ms ≡ false
    → same_text m x ≡ false
    → seen_exemplar x (ms ++ m ∷ []) ≡ false
unfolding seen_exemplar
seen_exemplar-append x m [] h k = ground arith
seen_exemplar-append x m (y ∷ ys) h k = ground (arith, seen_exemplar-append x m ys)

Distinct-append :
    (m : Text) (ms : List Text) → Distinct ms → seen_exemplar m ms ≡ false → Distinct (ms ++ m ∷ [])
unfolding seen_exemplar
Distinct-append m [] d h = (refl, tt)
Distinct-append m (x ∷ xs) d h = (
  seen_exemplar-append x m xs d.0 (ground (arith, same_text_iff m x, same_text_iff x m)),
  Distinct-append m xs d.1 (ground arith),
)

add_exemplar-IsKept : (msg : Text) (ms : List Text) → IsKept ms → IsKept (add_exemplar msg ms)
unfolding add_exemplar
add_exemplar-IsKept msg ms k =
    elim (Bool-cases (is_empty (trim_space msg) || leb max_exemplars (length ms))) [
      | inl full ↦ rw full k
      | inr room ↦ elim (Bool-cases (seen_exemplar (wording msg) ms)) [
        | inl seen ↦ rw (room, seen) k
        | inr new ↦
            rw (room, new)
              (record {
                few = ground (arith, length-append ms (wording msg ∷ []));
                short =
                    All-append (λ m. length m ≤ max_exemplar_len) ms (wording msg ∷ []) k.short
                      (length-wording msg, tt);
                distinct = Distinct-append (wording msg) ms k.distinct new;
              })
      ]
    ]

add_exemplars-IsKept : (ms msgs : List Text) → IsKept ms → IsKept (add_exemplars ms msgs)
unfolding add_exemplars
add_exemplars-IsKept ms [] k = k
add_exemplars-IsKept ms (msg ∷ msgs) k =
    add_exemplars-IsKept (add_exemplar msg ms) msgs (add_exemplar-IsKept msg ms k)

-- Whatever is merged, at most three wordings are kept, none longer than 300 code points and none
-- twice: a failing run cannot grow its report.
pub merge_exemplars-IsKept : (kept incoming : List Text) → IsKept (merge_exemplars kept incoming)
unfolding merge_exemplars
merge_exemplars-IsKept kept incoming =
    add_exemplars-IsKept (add_exemplars [] kept) incoming
      (add_exemplars-IsKept [] kept (record { few = omega arith; short = tt; distinct = tt }))
