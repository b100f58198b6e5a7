-- ===== src/Taurus.antt =====
-- internal/domain/taurus/run.go: how a run of the engine ended.
pub mod Worst
use honryu.Base.{Bool, true, false, ◌||◌, List, [], ◌∷◌, map, if◌then◌else◌, is_empty}
use honryu.Base.Ints.{ℤ, pos, eqb_ℤ}

pub data Outcome : Type 0 where
  passed failed aborted error : Outcome

unfoldable pub outcome_from_exit_code : ℤ → Outcome
outcome_from_exit_code code =
    if eqb_ℤ code (pos 0)
    then passed
    else if eqb_ℤ code (pos 2)
    then aborted
    else if eqb_ℤ code (pos 3)
    then failed
    else error

abbrev pub same_outcome : Outcome → Outcome → Bool
same_outcome passed passed = true
same_outcome failed failed = true
same_outcome aborted aborted = true
same_outcome error error = true
same_outcome _ _ = false

-- `seen[o]`, where `seen` is the set of the outcomes.
unfoldable pub seen_outcome : Outcome → List Outcome → Bool
seen_outcome o [] = false
seen_outcome o (p ∷ outcomes) = same_outcome p o || seen_outcome o outcomes

unfoldable pub worst_outcome : List Outcome → Outcome
unfolding seen_outcome
worst_outcome outcomes =
    if seen_outcome error outcomes
    then error
    else if seen_outcome failed outcomes
    then failed
    else if seen_outcome aborted outcomes
    then aborted
    else passed

unfoldable pub combine_outcomes : List ℤ → Outcome
unfolding outcome_from_exit_code worst_outcome
combine_outcomes codes =
    if is_empty codes then error else worst_outcome (map outcome_from_exit_code codes)

unfoldable pub counts_toward_verdict : Outcome → Bool
counts_toward_verdict o = same_outcome o passed || same_outcome o failed
