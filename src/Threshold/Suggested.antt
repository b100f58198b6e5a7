-- ===== src/Threshold/Suggested.antt =====
-- The thresholds that a mode suggests.
use honryu.Base.{
  ℕ, ◌<◌, ◌≡◌, ◌⊎◌, inl, inr, refl, ap, ◌∙◌, subst, true, false, not, String, str_eq, none, All,
  All-append, Bool-cases, arith,
}
use honryu.Base.Ints.{ℤ, pos, nonpos}
use honryu.Base.Floats.{Float64}
use honryu.LoadMode.{mode_burst, mode_ramp, mode_soak, mode_staircase}
use honryu.Threshold.{
  Threshold, validate, validate_value, is_fractional, metric_valid, comparison_valid, bound_on,
  suggested_pair, throughput_floor, suggested_thresholds, metric_error_rate, metric_http_p95_ms,
  metric_throughput_qps, comparison_lt, comparison_gt,
}

module _ (fl : Float64) where
  open fl use {
    F, of_int, lit, mul, le, lt, lt_not_le, le_total, le_trans, lit_unit, lit_positive,
    zero_lt_of_int, one_mul, mul_mono_left,
  }

  -- The suggestion, bound to a scenario, is one that can be stored.
  abbrev pub Fits : ℤ → Threshold F → Type 0
  Fits scenario t = validate fl (record t { scenario_id = scenario }) ≡ none

  not_below : (a b : F) → le b a ≡ true → lt a b ≡ false
  not_below a b h = lt_not_le a b ∙ ap not h

  rate-Fits :
      (scenario : ℤ) (rate : F)
      → nonpos scenario ≡ false
      → le (of_int (pos 0)) rate ≡ true
      → le rate (of_int (pos 1)) ≡ true
      → Fits scenario (bound_on fl metric_error_rate comparison_lt rate)
  unfolding validate validate_value is_fractional metric_valid comparison_valid
  rate-Fits scenario rate h low high =
      simp (h, not_below rate (of_int (pos 0)) low, not_below (of_int (pos 1)) rate high) refl

  latency-Fits :
      (scenario : ℤ) (v : F)
      → nonpos scenario ≡ false
      → le v (of_int (pos 0)) ≡ false
      → Fits scenario (bound_on fl metric_http_p95_ms comparison_lt v)
  unfolding validate validate_value is_fractional metric_valid comparison_valid
  latency-Fits scenario v h above = simp (h, above) refl

  qps-Fits :
      (scenario : ℤ) (v : F)
      → nonpos scenario ≡ false
      → le v (of_int (pos 0)) ≡ false
      → Fits scenario (bound_on fl metric_throughput_qps comparison_gt v)
  unfolding validate validate_value is_fractional metric_valid comparison_valid
  qps-Fits scenario v h above = simp (h, above) refl

  above_zero :
      (a b : F) → le a b ≡ true → le a (of_int (pos 0)) ≡ false → le b (of_int (pos 0)) ≡ false
  above_zero a b h k = elim (Bool-cases (le b (of_int (pos 0)))) [
    | inl below ↦ absurd (clash (le_trans a b (of_int (pos 0)) h below))
    | inr above ↦ above
  ]
    where
      clash : le a (of_int (pos 0)) ≡ true → ⊥
      clash e = cc

  pair-Fits :
      (scenario : ℤ) (rate : F) (p95 : ℕ)
      → nonpos scenario ≡ false
      → le rate (of_int (pos 0)) ≡ false
      → le rate (of_int (pos 1)) ≡ true
      → 0 < p95
      → All (Fits scenario) (suggested_pair fl rate (pos p95))
  pair-Fits scenario rate p95 h low high some_ms = (
    rate-Fits scenario rate h (le_total rate (of_int (pos 0)) low) high,
    (latency-Fits scenario (of_int (pos p95)) h (zero_lt_of_int p95 some_ms), tt),
  )

  -- Nine tenths of a rate of one or more is above zero.
  tenths :
      (target : F)
      → le (of_int (pos 1)) target ≡ true
      → le (mul target (lit 9 1)) (of_int (pos 0)) ≡ false
  tenths target h =
      above_zero (lit 9 1) (mul target (lit 9 1))
        (subst (λ x. le x (mul target (lit 9 1)) ≡ true) (one_mul (lit 9 1))
          (mul_mono_left (of_int (pos 1)) target (lit 9 1)
            (le_total (lit 9 1) (of_int (pos 0)) (lit_positive 9 1 (omega arith) (omega arith))) h))
        (lit_positive 9 1 (omega arith) (omega arith))

  -- A target rate that is none, or one request per second or more.
  abbrev pub IsRate : F → Type 0
  IsRate target = (le target (of_int (pos 0)) ≡ true) ⊎ (le (of_int (pos 1)) target ≡ true)

  floor-Fits :
      (scenario : ℤ) (target : F)
      → nonpos scenario ≡ false
      → IsRate target
      → All (Fits scenario) (throughput_floor fl target)
  unfolding throughput_floor
  floor-Fits scenario target h (inl unlimited) =
      simp (not_below (of_int (pos 0)) target unlimited) tt
  floor-Fits scenario target h (inr limited) = elim (Bool-cases (lt (of_int (pos 0)) target)) [
    | inl more ↦ simp more (qps-Fits scenario (mul target (lit 9 1)) h (tenths target limited), tt)
    | inr fewer ↦ simp fewer tt
  ]

  -- Every threshold that a mode suggests, for a target rate that is none or at least one request per
  -- second, passes `Validate` once it is bound to a scenario.
  pub suggested_thresholds-Fits :
      (m : String) (target : F) (scenario : ℤ)
      → nonpos scenario ≡ false
      → IsRate target
      → All (Fits scenario) (suggested_thresholds fl m target)
  unfolding suggested_thresholds
  suggested_thresholds-Fits m target scenario h rate =
      let percent = lit_positive 1 2 (omega arith) (omega arith) in
      let whole = lit_unit 1 2 (omega arith) in
      elim (Bool-cases (str_eq m mode_burst)) [
        | inl burst ↦ simp burst (pair-Fits scenario (lit 1 2) 500 h percent whole (omega arith))
        | inr b ↦ elim (Bool-cases (str_eq m mode_staircase)) [
          | inl stairs ↦
              simp (b, stairs) (pair-Fits scenario (lit 1 2) 1000 h percent whole (omega arith))
          | inr s ↦ elim (Bool-cases (str_eq m mode_ramp)) [
            | inl ramp ↦
                simp (b, s, ramp) (pair-Fits scenario (lit 1 2) 800 h percent whole (omega arith))
            | inr r ↦ elim (Bool-cases (str_eq m mode_soak)) [
              | inl soak ↦
                  simp (b, s, r, soak)
                    (All-append (Fits scenario) (suggested_pair fl (lit 5 3) (pos 600))
                      (throughput_floor fl target)
                      (pair-Fits scenario (lit 5 3) 600 h
                        (lit_positive 5 3 (omega arith) (omega arith)) (lit_unit 5 3 (omega arith))
                        (omega arith))
                      (floor-Fits scenario target h rate))
              | inr other ↦ simp (b, s, r, other) tt
            ]
          ]
        ]
      ]
