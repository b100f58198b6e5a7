-- ===== src/Report/Summary/Short.antt =====
-- When a run is short of what was requested.
use honryu.Base.{◌≡◌, refl, ap, ◌∙◌, subst, inl, inr, true, false, not, Bool-cases, arith}
use honryu.Base.Ints.{pos}
use honryu.Base.Floats.{Float64}
use honryu.Report.Summary.{Load, mean_requested_rate, short_of_request, short_of_volume}

module _ (fl : Float64) where
  open fl use {F, of_int, lit, le, lt, mul, mul_mono, mul_one, lit_unit, le_trans, lt_not_le}

  -- The tolerance takes nothing away from what reaches the whole.
  tolerance :
      (whole x : F)
      → le (of_int (pos 0)) whole ≡ true
      → le whole x ≡ true
      → lt x (mul whole (lit 95 2)) ≡ false
  tolerance whole x nonneg reached =
      lt_not_le x (mul whole (lit 95 2))
      ∙ ap not (
          le_trans (mul whole (lit 95 2)) whole x
            (subst (λ y. le (mul whole (lit 95 2)) y ≡ true) (mul_one whole)
              (mul_mono whole (lit 95 2) (of_int (pos 1)) nonneg (lit_unit 95 2 (omega arith))))
            reached)

  -- The work that a request implies.
  abbrev pub volume : Load F → F
  volume requested = mul (mean_requested_rate fl requested) (of_int requested.duration_seconds)

  -- A run that reaches the mean rate and the volume of its request, neither of them negative, is short
  -- of neither.
  pub reached_not_short :
      (requested achieved : Load F)
      → le (of_int (pos 0)) (mean_requested_rate fl requested) ≡ true
      → le (of_int (pos 0)) (volume requested) ≡ true
      → le (mean_requested_rate fl requested) achieved.throughput ≡ true
      → le (volume requested) (of_int achieved.samples) ≡ true
      → (short_of_request fl requested achieved ≡ false)
        × (short_of_volume fl requested achieved ≡ false)
  unfolding short_of_request short_of_volume
  reached_not_short requested achieved a b c d =
      let rate = tolerance (mean_requested_rate fl requested) achieved.throughput a c in
      let work = tolerance (volume requested) (of_int achieved.samples) b d in
      elim (Bool-cases (le requested.throughput (of_int (pos 0)))) [
        | inl unlimited ↦ rw unlimited (refl, refl)
        | inr limited ↦ rw limited (rate, work)
      ]
