-- ===== src/Report/Accumulator/Peak.antt =====
-- The most virtual users that a run had at once.
use honryu.Base.{
  ◌≡◌, ◌⊎◌, refl, inl, inr, true, false, List, [], ◌∷◌, arith, All, Bool-cases, subst, sym, ◌∙◌, ap,
  if◌then◌else◌,
}
use honryu.Base.Ints.{ℤ, pos, ltb_ℤ, ◌≤ℤ◌}
use honryu.Base.Floats.{Float64}
use honryu.Report.Accumulator.{SecondState, Accumulator, virtual_users, peak, peak_from}

pub ltb_ℤ-le : (x y : ℤ) → ltb_ℤ x y ≡ false → y ≤ℤ x
ltb_ℤ-le x y h = ground arith

ltb_ℤ-lt_le : (x y : ℤ) → ltb_ℤ x y ≡ true → x ≤ℤ y
ltb_ℤ-lt_le x y h = ground arith

≤ℤ_refl : (x : ℤ) → x ≤ℤ x
≤ℤ_refl x = omega arith

≤ℤ_trans : (x y z : ℤ) → x ≤ℤ y → y ≤ℤ z → x ≤ℤ z
≤ℤ_trans x y z h k = omega arith

module _ (fl : Float64) where
  open fl use {F}

  -- A second has the number of users, or none has and it is the least.
  abbrev pub IsReached : ℤ → ℤ → List (ℤ × SecondState F) → Type 0
  IsReached least n [] = n ≡ least
  IsReached least n (e ∷ seconds) = (n ≡ virtual_users fl e.1) ⊎ IsReached least n seconds

  abbrev larger : ℤ → ℤ → ℤ
  larger x y = if ltb_ℤ x y then y else x

  larger-bounds : (x y : ℤ) → (x ≤ℤ larger x y) × (y ≤ℤ larger x y)
  larger-bounds x y = elim (Bool-cases (ltb_ℤ x y)) [
    | inl more ↦ rw more (ltb_ℤ-lt_le x y more, ≤ℤ_refl y)
    | inr fewer ↦ rw fewer (≤ℤ_refl x, ltb_ℤ-le x y fewer)
  ]

  larger-either : (x y : ℤ) → (larger x y ≡ x) ⊎ (larger x y ≡ y)
  larger-either x y = elim (Bool-cases (ltb_ℤ x y)) [
    | inl more ↦ inr (ap (λ b. if b then y else x) more)
    | inr fewer ↦ inl (ap (λ b. if b then y else x) fewer)
  ]

  abbrev AllBelow : ℤ → List (ℤ × SecondState F) → Type 0
  AllBelow n seconds = All (λ e. virtual_users fl e.1 ≤ℤ n) seconds

  peak_from-bounds :
      (highest : ℤ) (seconds : List (ℤ × SecondState F))
      → (highest ≤ℤ peak_from fl highest seconds) × AllBelow (peak_from fl highest seconds) seconds
  unfolding peak_from
  peak_from-bounds highest [] = (≤ℤ_refl highest, tt)
  peak_from-bounds highest (e ∷ seconds) =
      let users : ℤ = virtual_users fl e.1 in
      let (least, all) = peak_from-bounds (larger highest users) seconds in
      let (old, new) = larger-bounds highest users in
      let end : ℤ = peak_from fl (larger highest users) seconds in
      (
        ≤ℤ_trans highest (larger highest users) end old least,
        (≤ℤ_trans users (larger highest users) end new least, all),
      )

  reached :
      (m n : ℤ) (seconds : List (ℤ × SecondState F))
      → IsReached m n seconds
      → (n ≡ m) ⊎ ((k : ℤ) → IsReached k n seconds)
  reached m n [] h = inl h
  reached m n (f ∷ seconds) (inl h) = inr (λ k. inl h)
  reached m n (f ∷ seconds) (inr h) = elim (reached m n seconds h) [
    | inl same ↦ inl same
    | inr later ↦ inr (λ k. inr (later k))
  ]

  IsReached-least : (n : ℤ) (seconds : List (ℤ × SecondState F)) → IsReached n n seconds
  IsReached-least n [] = refl
  IsReached-least n (f ∷ seconds) = inr (IsReached-least n seconds)

  peak_from-IsReached :
      (highest : ℤ) (seconds : List (ℤ × SecondState F))
      → IsReached highest (peak_from fl highest seconds) seconds
  unfolding peak_from
  peak_from-IsReached highest [] = refl
  peak_from-IsReached highest (e ∷ seconds) =
      let users : ℤ = virtual_users fl e.1 in
      let end : ℤ = peak_from fl (larger highest users) seconds in
      elim (reached (larger highest users) end seconds
        (peak_from-IsReached (larger highest users) seconds)) [
          | inr later ↦ inr (later highest)
          | inl same ↦ elim (larger-either highest users) [
            | inr new ↦ inl (same ∙ new)
            | inl old ↦ inr (
                subst (λ n. IsReached highest n seconds) (sym (same ∙ old))
                  (IsReached-least highest seconds))
          ]
        ]

  -- A run's peak is at least the virtual users of each measured second, and is those of one of them or
  -- 0: the larger of the engines' own totals and the sum over the labels.
  pub peak-IsReached :
      (a : Accumulator F)
      → All (λ e. virtual_users fl e.1 ≤ℤ peak fl a) a.seconds
        × IsReached (pos 0) (peak fl a) a.seconds
  unfolding peak
  peak-IsReached a = ((peak_from-bounds (pos 0) a.seconds).1, peak_from-IsReached (pos 0) a.seconds)
