-- ===== src/LoadMode/Plateaus.antt =====
-- The numbers of one plateau of a staircase: their bounds and their rise.
use honryu.Base.{
  subst, ℕ, ◌+◌, ◌-◌, ◌^◌, ◌≤◌, ◌<◌, ◌≡◌, ◌≢◌, ◌⊎◌, inl, inr, true, arith, if◌then◌else◌,
}
use honryu.Base.Ints.{ℤ, pos, ◌≤ℤ◌, ltb_ℤ}
use honryu.Base.Floats.{Float64}
use honryu.LoadMode.Staircase.{step_share}

module _ (fl : Float64) where
  open fl use {F, of_int, mul, div, le, round, ceil}

  -- The share of a later step is no smaller, and none is above 1.
  share_mono :
      (i j steps : ℕ)
      → i ≤ j
      → 0 < steps
      → le (step_share fl i steps) (step_share fl j steps) ≡ true
  unfolding step_share
  share_mono i j steps h k =
      fl.div_mono _ _ _ (fl.of_int_mono _ _ (omega arith)) (fl.zero_lt_of_int steps k)

  share-le-one : (i steps : ℕ) → i < steps → le (step_share fl i steps) (of_int (pos 1)) ≡ true
  unfolding step_share
  share-le-one i steps h =
      let positive = fl.zero_lt_of_int steps (omega arith) in
      rw (← fl.div_self (of_int (pos steps)) positive)
        (fl.div_mono _ _ _ (fl.of_int_mono _ _ (omega arith)) positive)

  nonneg : (n : ℕ) → le (of_int (pos 0)) (of_int (pos n)) ≡ true
  nonneg n = fl.of_int_mono _ _ (omega arith)

  share-nonneg : (i steps : ℕ) → 0 < steps → le (of_int (pos 0)) (step_share fl i steps) ≡ true
  unfolding step_share
  share-nonneg i steps h = fl.div_nonneg _ _ (nonneg (i + 1)) (fl.zero_lt_of_int steps h)

  -- A share of n lies between 0 and n.
  part_nonneg :
      (n i steps : ℕ)
      → 0 < steps
      → le (of_int (pos 0)) (mul (of_int (pos n)) (step_share fl i steps)) ≡ true
  part_nonneg n i steps h = fl.mul_nonneg _ _ (nonneg n) (share-nonneg i steps h)

  part-le :
      (n i steps : ℕ)
      → i < steps
      → le (mul (of_int (pos n)) (step_share fl i steps)) (of_int (pos n)) ≡ true
  part-le n i steps h =
      subst (λ x. le (mul (of_int (pos n)) (step_share fl i steps)) x ≡ true)
        (fl.mul_one (of_int (pos n))) (fl.mul_mono _ _ _ (nonneg n) (share-le-one i steps h))

  part_mono :
      (n i j steps : ℕ)
      → i ≤ j
      → 0 < steps
      → le
          (mul (of_int (pos n)) (step_share fl i steps))
          (mul (of_int (pos n)) (step_share fl j steps))
        ≡ true
  part_mono n i j steps h k = fl.mul_mono _ _ _ (nonneg n) (share_mono i j steps h k)

  -- A plateau's number: a conversion of its share, and at least 1.
  abbrev pub raised : ℤ → ℤ
  raised x = if ltb_ℤ x (pos 1) then pos 1 else x

  module _ (convert : F → ℤ)
      (convert_mono : (a b : F)
        → le (of_int (pos 0)) a ≡ true
        → le a b ≡ true
        → le b (of_int (pos (2 ^ 53))) ≡ true
        → convert a ≤ℤ convert b)
      (convert_of_int : (n : ℕ) → n ≤ 2 ^ 53 → convert (of_int (pos n)) ≡ pos n) where
    abbrev pub level : ℕ → ℕ → ℕ → ℤ
    level n steps i = raised (convert (mul (of_int (pos n)) (step_share fl i steps)))

    pub level_bounds :
        (n i steps : ℕ)
        → 1 ≤ n
        → n ≤ 2 ^ 53
        → i < steps
        → (pos 1 ≤ℤ level n steps i) × (level n steps i ≤ℤ pos n)
    level_bounds n i steps h k l =
        let top : convert (mul (of_int (pos n)) (step_share fl i steps)) ≤ℤ pos n =
          subst (λ x. convert (mul (of_int (pos n)) (step_share fl i steps)) ≤ℤ x)
            (convert_of_int n k)
            (convert_mono _ _ (part_nonneg n i steps (omega arith)) (part-le n i steps l)
              (fl.of_int_mono _ _ (omega arith))) in
        ground arith

    pub level_mono :
        (n i j steps : ℕ) → n ≤ 2 ^ 53 → i ≤ j → j < steps → level n steps i ≤ℤ level n steps j
    level_mono n i j steps k h l =
        let rise : convert (mul (of_int (pos n)) (step_share fl i steps))
            ≤ℤ convert (mul (of_int (pos n)) (step_share fl j steps)) =
          convert_mono _ _ (part_nonneg n i steps (omega arith))
            (part_mono n i j steps h (omega arith))
            (fl.le_trans _ _ _ (part-le n j steps l) (fl.of_int_mono _ _ (omega arith))) in
        ground arith

    -- What a table of n plateaus under a ceiling m holds at i.
    abbrev pub LevelAt : ℕ → ℕ → ℕ → ℤ → Type 0
    LevelAt m n i x = ((i ≢ n - 1) × (x ≡ level m n i)) ⊎ ((i ≡ n - 1) × (x ≡ pos m))

    pub LevelAt-rises :
        (m n i j : ℕ) (x y : ℤ)
        → 1 ≤ m
        → m ≤ 2 ^ 53
        → i ≤ j
        → j < n
        → LevelAt m n i x
        → LevelAt m n j y
        → (pos 1 ≤ℤ x) × (x ≤ℤ y) × (y ≤ℤ pos m)
    LevelAt-rises m n i j x y low high le lt (inl (_, ex)) (inl (_, ey)) =
        rw (ex, ey)
          (
            (level_bounds m i n low high (omega arith)).0,
            level_mono m i j n high le lt,
            (level_bounds m j n low high lt).1,
          )
    LevelAt-rises m n i j x y low high le lt (inl (_, ex)) (inr (_, ey)) =
        rw (ex, ey)
          (
            (level_bounds m i n low high (omega arith)).0,
            (level_bounds m i n low high (omega arith)).1,
            omega arith,
          )
    LevelAt-rises m n i j x y low high le lt (inr (ei, ex)) (inl (nj, ey)) =
        absurd (nj (omega arith))
    LevelAt-rises m n i j x y low high le lt (inr (_, ex)) (inr (_, ey)) =
        rw (ex, ey) (omega arith, omega arith, omega arith)
