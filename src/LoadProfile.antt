-- ===== src/LoadProfile.antt =====
-- internal/domain/loadprofile/loadprofile.go
pub mod Valid
pub mod Sums
pub mod Longest
use honryu.Base.{
  ℕ, zero, suc, Bool, true, false, ◌&&◌, ◌||◌, not, List, [], ◌∷◌, Option, none, some, String,
  str_eq, if◌then◌else◌, is_empty,
}
use honryu.Base.Ints.{ℤ, pos, ◌+ℤ◌, ◌*ℤ◌, ltb_ℤ, eqb_ℤ, nonpos, wrap64}
use honryu.LoadMode.{
  valid, mode_staircase, staircase_steps_min, staircase_steps_max, staircase_min_duration_seconds,
}

-- The package's errors, with the values that a wrapped message quotes.
pub data ProfileError : Type 0 where
  scenario_required engines_invalid concurrency_invalid duration_invalid : ProfileError
  throughput_invalid mode_throughput no_scenarios : ProfileError
  mode_invalid : String → ProfileError
  steps_invalid : ℤ → ProfileError
  staircase_duration : ℤ → ProfileError
  in_scenario : ℕ → ℤ → ProfileError → ProfileError

pub record Entry : Type 0 where
  pub name : String
  pub scenario_id : ℤ
  pub concurrency : ℤ
  pub rampup : ℤ
  pub engines : ℤ
  pub throughput : ℤ
  pub duration : ℤ
  pub csv_split : Bool
  pub mode : String
  pub steps : ℤ

-- `Entry.Validate`: the cases of its `switch`, in order.
unfoldable pub validate_entry : Entry → Option ProfileError
validate_entry ep =
    let has_mode = not (str_eq ep.mode "") in
    let staircase = str_eq ep.mode mode_staircase in
    if nonpos ep.scenario_id
    then some scenario_required
    else if nonpos ep.engines
    then some engines_invalid
    else if nonpos ep.concurrency
    then some concurrency_invalid
    else if nonpos ep.duration
    then some duration_invalid
    else if ltb_ℤ ep.throughput (pos 0)
    then some throughput_invalid
    else if has_mode && not (valid ep.mode)
    then some (mode_invalid ep.mode)
    else if has_mode && nonpos ep.throughput
    then some mode_throughput
    else if not staircase && not (eqb_ℤ ep.steps (pos 0))
    then some (steps_invalid ep.steps)
    else if staircase
        && (ltb_ℤ ep.steps (pos staircase_steps_min) || ltb_ℤ (pos staircase_steps_max) ep.steps)
    then some (steps_invalid ep.steps)
    else if staircase && ltb_ℤ ep.duration (pos staircase_min_duration_seconds)
    then some (staircase_duration ep.duration)
    else none

pub record Profile : Type 0 where
  pub name : String
  pub project_id : ℤ
  pub execution_id : ℤ
  pub tests : List Entry
  pub csv_split : Bool
  pub criteria : List String

-- The loop of `Profile.Validate`, from position i on.
unfoldable pub validate_from : ℕ → List Entry → Option ProfileError
validate_from i [] = none
validate_from i (ep ∷ eps) =
    let rest = validate_from (suc i) eps in
    elim (validate_entry ep) [ none ↦ rest | some e ↦ some (in_scenario i ep.scenario_id e) ]

unfoldable pub validate : Profile → Option ProfileError
unfolding validate_from
validate ec = if is_empty ec.tests then some no_scenarios else validate_from 0 ec.tests

-- `TotalEngines`, with the running sum as an argument.
unfoldable pub total_engines_from : ℤ → List Entry → ℤ
total_engines_from total [] = total
total_engines_from total (ep ∷ eps) = total_engines_from (wrap64 (total +ℤ ep.engines)) eps

unfoldable pub total_engines : Profile → ℤ
unfolding total_engines_from
total_engines ec = total_engines_from (pos 0) ec.tests

-- How long one entry runs: every plateau of a staircase in turn.
unfoldable pub entry_seconds : Entry → ℤ
entry_seconds ep =
    if ltb_ℤ (pos 1) ep.steps
    then wrap64 (ep.rampup +ℤ wrap64 (ep.duration *ℤ ep.steps))
    else wrap64 (ep.rampup +ℤ ep.duration)

unfoldable pub longest_from : ℤ → List Entry → ℤ
longest_from longest [] = longest
longest_from longest (ep ∷ eps) =
    longest_from (if ltb_ℤ longest (entry_seconds ep) then entry_seconds ep else longest) eps

unfoldable pub longest_duration_seconds : Profile → ℤ
unfolding longest_from
longest_duration_seconds ec = longest_from (pos 0) ec.tests
