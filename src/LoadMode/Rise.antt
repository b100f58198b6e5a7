-- ===== src/LoadMode/Rise.antt =====
-- The step table of a staircase: its length, its positions, its ceiling and its rise.
use native.Mathlib.Nat.{zero-add}
use honryu.Base.{
  ap, ◌∙◌, sym, Bool-cases, if◌then◌else◌, ℕ, zero, suc, ◌+◌, ◌-◌, ◌^◌, ◌≤◌, ◌<◌, ◌≡◌, refl, ◌≢◌,
  ◌⊎◌, inl, inr, some, arith, length, get_elem?, set, length-set, get_elem?-set,
  get_elem?-lt-length,
}
use honryu.Base.Ints.{ℤ, pos, pos_part, ◌≤ℤ◌, ltb_ℤ, leb_ℤ}
use honryu.Base.Floats.{Float64}
use honryu.LoadMode.Staircase.{StaircaseStep, step_at, steps_from, staircase_steps}
use honryu.LoadMode.Plateaus.{LevelAt, LevelAt-rises}

-- The plateau that `StaircaseSteps` puts last.
abbrev pub ceiling_step : ℤ → ℤ → ℕ → StaircaseStep
ceiling_step concurrency throughput n = record {
  index = n - 1;
  throughput = throughput;
  concurrency = concurrency;
}

module _ (fl : Float64) where
  length-steps_from : (c t : ℤ) (n i k : ℕ) → length (steps_from fl c t n i k) ≡ k
  unfolding steps_from
  length-steps_from c t n i zero = refl
  length-steps_from c t n i (suc k) = omega (arith, length-steps_from c t n (suc i) k)

  steps_from-get_elem? :
      (c t : ℤ) (n i k j : ℕ) {s : StaircaseStep}
      → get_elem? (steps_from fl c t n i k) j ≡ some s
      → s ≡ step_at fl c t n (i + j)
  unfolding steps_from
  steps_from-get_elem? c t n i zero j h = cc
  steps_from-get_elem? c t n i (suc k) zero h = let same : i + 0 ≡ i = omega arith in rw same (cc)
  steps_from-get_elem? c t n i (suc k) (suc j) h =
      let shift : i + suc j ≡ suc i + j = omega arith in
      rw shift (steps_from-get_elem? c t n (suc i) k j h)

  -- Fewer than two steps are no staircase, and otherwise there is a plateau for every step.
  pub length-staircase_steps :
      (c t steps : ℤ)
      → length (staircase_steps fl c t steps) ≡ (if leb_ℤ (pos 2) steps then pos_part steps else 0)
  unfolding staircase_steps
  length-staircase_steps c t steps =
      let n = pos_part steps in
      ground (
        arith,
        length-steps_from c t n 0 n,
        length-set (steps_from fl c t n 0 n) (n - 1) (ceiling_step c t n),
      )

  -- What stands at a position: a computed plateau below the last, and the ceiling there.
  staircase_steps-get_elem? :
      (c t steps : ℤ) (i : ℕ) {s : StaircaseStep}
      → get_elem? (staircase_steps fl c t steps) i ≡ some s
      → let n = pos_part steps in
        (i < n)
        × (((i ≢ n - 1) × (s ≡ step_at fl c t n i)) ⊎ ((i ≡ n - 1) × (s ≡ ceiling_step c t n)))
  unfolding staircase_steps
  staircase_steps-get_elem? c t steps i {s} h = elim (Bool-cases (ltb_ℤ steps (pos 2))) [
    | inl short ↦ cc
    | inr long ↦
        let n = pos_part steps in
        let out = steps_from fl c t n 0 n in
        let at_i : get_elem? (set out (n - 1) (ceiling_step c t n)) i ≡ some s = ground arith in
        let bound : i < n = omega (
          arith,
          get_elem?-lt-length (set out (n - 1) (ceiling_step c t n)) i at_i,
          length-set out (n - 1) (ceiling_step c t n),
          length-steps_from c t n 0 n,
        ) in
        (
          bound,
          elim (get_elem?-set out (n - 1) i (ceiling_step c t n) at_i) [
            | inl (here, eq) ↦ inr (sym here, eq)
            | inr (elsewhere, below) ↦
                inl (
                  (λ e. elsewhere (sym e)),
                  rw zero-add at (steps_from-get_elem? c t n 0 n i below),
                )
          ],
        )
  ]

  rate_at :
      (c t n i : ℕ) {s : StaircaseStep}
      → (((i ≢ n - 1) × (s ≡ step_at fl (pos c) (pos t) n i))
          ⊎ ((i ≡ n - 1) × (s ≡ ceiling_step (pos c) (pos t) n)))
      → LevelAt fl fl.round fl.round_mono fl.round_of_int t n i s.throughput
  unfolding step_at
  rate_at c t n i (inl (ne, e)) = inl (ne, ap (λ s. s.throughput) e)
  rate_at c t n i (inr (eq, e)) = inr (eq, ap (λ s. s.throughput) e)

  users_at :
      (c t n i : ℕ) {s : StaircaseStep}
      → (((i ≢ n - 1) × (s ≡ step_at fl (pos c) (pos t) n i))
          ⊎ ((i ≡ n - 1) × (s ≡ ceiling_step (pos c) (pos t) n)))
      → LevelAt fl fl.ceil fl.ceil_mono fl.ceil_of_int c n i s.concurrency
  unfolding step_at
  users_at c t n i (inl (ne, e)) = inl (ne, ap (λ s. s.concurrency) e)
  users_at c t n i (inr (eq, e)) = inr (eq, ap (λ s. s.concurrency) e)

  -- In the step table of a staircase with at least one user and a rate of at least 1 (both at most
  -- 2^53), rates and users never fall from a step to a later one; each is at least 1 and at most the
  -- ceiling's.
  pub staircase_rises :
      (c t : ℕ) (steps : ℤ) (i j : ℕ) (p q : StaircaseStep)
      → 1 ≤ c
      → c ≤ 2 ^ 53
      → 1 ≤ t
      → t ≤ 2 ^ 53
      → get_elem? (staircase_steps fl (pos c) (pos t) steps) i ≡ some p
      → get_elem? (staircase_steps fl (pos c) (pos t) steps) j ≡ some q
      → i ≤ j
      → ((pos 1 ≤ℤ p.throughput) × (p.throughput ≤ℤ q.throughput) × (q.throughput ≤ℤ pos t))
        × ((pos 1 ≤ℤ p.concurrency) × (p.concurrency ≤ℤ q.concurrency) × (q.concurrency ≤ℤ pos c))
  staircase_rises c t steps i j p q hc kc ht kt at_i at_j le =
      let (_, p-at) = staircase_steps-get_elem? (pos c) (pos t) steps i at_i in
      let (lt, q-at) = staircase_steps-get_elem? (pos c) (pos t) steps j at_j in
      let n = pos_part steps in
      (
        LevelAt-rises fl fl.round fl.round_mono fl.round_of_int t n i j _ _ ht kt le lt
            (rate_at c t n i p-at) (rate_at c t n j q-at),
        LevelAt-rises fl fl.ceil fl.ceil_mono fl.ceil_of_int c n i j _ _ hc kc le lt
            (users_at c t n i p-at) (users_at c t n j q-at),
      )

  -- A step carries its position.
  pub staircase_positions :
      (c t steps : ℤ) (i : ℕ) (s : StaircaseStep)
      → get_elem? (staircase_steps fl c t steps) i ≡ some s
      → s.index ≡ i
  unfolding step_at
  staircase_positions c t steps i s at_i = elim (staircase_steps-get_elem? c t steps i at_i).1 [
    | inl (_, e) ↦ ap (λ s. s.index) e
    | inr (eq, e) ↦ ap (λ s. s.index) e ∙ sym eq
  ]

  -- The last step holds exactly the stated rate and users.
  pub staircase_ceiling :
      (c t steps : ℤ) (i : ℕ) (s : StaircaseStep)
      → get_elem? (staircase_steps fl c t steps) i ≡ some s
      → suc i ≡ pos_part steps
      → (s.throughput ≡ t) × (s.concurrency ≡ c)
  staircase_ceiling c t steps i s at_i last = elim (staircase_steps-get_elem? c t steps i at_i).1 [
    | inl (ne, _) ↦ absurd (ne (omega arith))
    | inr (_, e) ↦ (ap (λ s. s.throughput) e, ap (λ s. s.concurrency) e)
  ]
