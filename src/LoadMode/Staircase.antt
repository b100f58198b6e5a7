-- ===== src/LoadMode/Staircase.antt =====
-- `StaircaseSteps` of internal/domain/loadmode/loadmode.go.
use honryu.Base.{ℕ, zero, suc, ◌+◌, ◌-◌, List, [], ◌∷◌, if◌then◌else◌, set}
use honryu.Base.Ints.{ℤ, pos, pos_part, ltb_ℤ}
use honryu.Base.Floats.{Float64}
use honryu.LoadMode.{staircase_steps_min}

pub record StaircaseStep : Type 0 where
  pub index : ℕ
  pub throughput : ℤ
  pub concurrency : ℤ

module _ (fl : Float64) where
  open fl use {F, of_int, mul, div, round, ceil}

  -- `float64(i+1) / float64(steps)`
  unfoldable pub step_share : ℕ → ℕ → F
  step_share i steps = div (of_int (pos (i + 1))) (of_int (pos steps))

  -- The body of the loop.
  unfoldable pub step_at : ℤ → ℤ → ℕ → ℕ → StaircaseStep
  step_at concurrency throughput steps i =
      let share = step_share i steps in
      let rate = round (mul (of_int throughput) share) in
      let conc = ceil (mul (of_int concurrency) share) in
      record {
        index = i;
        throughput = if ltb_ℤ rate (pos 1) then pos 1 else rate;
        concurrency = if ltb_ℤ conc (pos 1) then pos 1 else conc;
      }

  -- The loop from i on, with k rounds left.
  unfoldable pub steps_from : ℤ → ℤ → ℕ → ℕ → ℕ → List StaircaseStep
  steps_from concurrency throughput steps i zero = []
  steps_from concurrency throughput steps i (suc k) =
      step_at concurrency throughput steps i ∷ steps_from concurrency throughput steps (suc i) k

  -- The last plateau is overwritten by the stated ceiling. Fewer than two steps give `nil`.
  unfoldable pub staircase_steps : ℤ → ℤ → ℤ → List StaircaseStep
  staircase_steps concurrency throughput steps =
      let n = pos_part steps in
      let out = steps_from concurrency throughput n 0 n in
      let ceiling : StaircaseStep = record {
        index = n - 1;
        throughput = throughput;
        concurrency = concurrency;
      } in
      if ltb_ℤ steps (pos staircase_steps_min) then [] else set out (n - 1) ceiling
