-- ===== src/Taurus/Worst.antt =====
-- The outcome of a run whose shards ended differently.
use honryu.Base.{◌≡◌, ◌↔◌, false, List, [], ◌∷◌, map, arith, All, is_empty}
use honryu.Base.Ints.{ℤ, pos, eqb_ℤ_iff}
use honryu.Taurus.{passed, outcome_from_exit_code, seen_outcome, worst_outcome, combine_outcomes}

exit_code_passed : (code : ℤ) → (outcome_from_exit_code code ≡ passed) ↔ (code ≡ pos 0)
unfolding outcome_from_exit_code
exit_code_passed code = ground (arith, eqb_ℤ_iff code (pos 0))

worst_outcome-passed :
    (codes : List ℤ)
    → (worst_outcome (map outcome_from_exit_code codes) ≡ passed) ↔ All (λ code. code ≡ pos 0) codes
unfolding worst_outcome seen_outcome
worst_outcome-passed [] = ground arith
worst_outcome-passed (code ∷ codes) =
    ground (arith, exit_code_passed code, worst_outcome-passed codes)

-- A run of several shards passed just if there is an exit code and every one is zero.
pub combine_outcomes_passed :
    (codes : List ℤ)
    → (combine_outcomes codes ≡ passed)
      ↔ ((is_empty codes ≡ false) × All (λ code. code ≡ pos 0) codes)
unfolding combine_outcomes
combine_outcomes_passed [] = ground arith
combine_outcomes_passed (code ∷ codes) = ground (arith, worst_outcome-passed (code ∷ codes))
