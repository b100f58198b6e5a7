-- ===== src/Examples/Loads.antt =====
-- Load profiles, shards and ramp-ups.
use honryu.Base.{
  All, ℕ, ◌≡◌, refl, ap, subst, ◌≢◌, ◌↔◌, ◌⊎◌, List, [], ◌∷◌, none, some, false, arith, length,
  get_elem?, ok,
}
use honryu.Base.Ints.{ℤ, pos, ◌≤ℤ◌, ◌+ℤ◌}
use honryu.Base.Thousandths.{thousandths}
use honryu.LoadMode.{mode_burst, mode_ramp, mode_soak, mode_staircase, parse_mode}
use honryu.LoadMode.Staircase.{StaircaseStep, staircase_steps, step_at, steps_from, step_share}
use honryu.LoadMode.Rise.{length-staircase_steps, staircase_rises}
use honryu.LoadMode.Ramps.{parse_mode_named}
use honryu.LoadProfile.{
  ProfileError, Entry, Profile, in_scenario, concurrency_invalid, validate, validate_from,
  validate_entry, total_engines,
}
use honryu.LoadProfile.Valid.{IsValidEntry, Reports, validate_names_first}
use honryu.Run.{can_trigger, deployed}
use honryu.Run.Guards.{can_trigger-none}
use honryu.Shard.{Shard, plan, total, split, shard_at, shards_from, shard_count}
use honryu.Shard.Totals.{total-plan}

-- Ten users at 25 requests per second on 3 engines.
abbrev checkout : Entry
checkout = record {
  name = "checkout";
  scenario_id = pos 7;
  concurrency = pos 10;
  rampup = pos 60;
  engines = pos 3;
  throughput = pos 25;
  duration = pos 300;
  csv_split = false;
  mode = "";
  steps = pos 0;
}

abbrev no_users : Entry
no_users = record checkout { concurrency = pos 0 }

abbrev one_scenario : Profile
one_scenario = record {
  name = "nightly";
  project_id = pos 1;
  execution_id = pos 2;
  tests = checkout ∷ [];
  csv_split = false;
  criteria = [];
}

abbrev two_scenarios : Profile
two_scenarios = record one_scenario { tests = checkout ∷ no_users ∷ [] }

valid_profile : validate one_scenario ≡ none
unfolding validate validate_from validate_entry
valid_profile = refl

refused_profile : validate two_scenarios ≡ some (in_scenario 1 (pos 7) concurrency_invalid)
unfolding validate validate_from validate_entry
refused_profile = refl

abbrev pod : ℕ → ℤ → ℤ → Shard
pod i users rate = record {
  index = i;
  concurrency = users;
  throughput = rate;
  rampup_seconds = pos 60;
  duration_seconds = pos 300;
}

abbrev three_pods : List Shard
three_pods = pod 0 (pos 4) (pos 9) ∷ pod 1 (pos 3) (pos 8) ∷ pod 2 (pos 3) (pos 8) ∷ []

planned : plan checkout (pos 3) ≡ ok three_pods
unfolding plan shards_from shard_at split shard_count ◌+ℤ◌
planned = refl

total-plan_example : total three_pods ≡ (pos 10, pos 25)
total-plan_example = total-plan checkout (pos 3) three_pods planned refl (omega arith) (omega arith)

no_users_invalid : All IsValidEntry (checkout ∷ no_users ∷ []) → ⊥
no_users_invalid all = never all.1.0.concurrency
  where
    never : pos 1 ≤ℤ pos 0 → ⊥
    never h = ground arith

validate_names_first_example :
    (e : ProfileError) × (validate two_scenarios ≡ some e)
    × Reports 0 (checkout ∷ no_users ∷ []) (some e)
validate_names_first_example = validate_names_first two_scenarios no_users_invalid

can_trigger-none_example :
    (can_trigger deployed one_scenario (pos 3) ≡ none)
    ↔ ((one_scenario.tests ≢ []) × (deployed ≡ deployed) × (total_engines one_scenario ≤ℤ pos 3))
can_trigger-none_example = can_trigger-none deployed one_scenario (pos 3)

-- Seven users at 10 requests per second in 3 steps.
abbrev plateau : ℕ → ℤ → ℤ → StaircaseStep
plateau i rate users = record { index = i; throughput = rate; concurrency = users }

abbrev three_plateaus : List StaircaseStep
three_plateaus =
    plateau 0 (pos 3) (pos 3) ∷ plateau 1 (pos 7) (pos 5) ∷ plateau 2 (pos 10) (pos 7) ∷ []

climbed : staircase_steps thousandths (pos 7) (pos 10) (pos 3) ≡ three_plateaus
unfolding staircase_steps steps_from step_at step_share
climbed = refl

length-staircase_steps_example : length three_plateaus ≡ 3
length-staircase_steps_example =
    subst (λ steps. length steps ≡ 3) climbed
      (length-staircase_steps thousandths (pos 7) (pos 10) (pos 3))

staircase_rises_example :
    ((pos 1 ≤ℤ pos 3) × (pos 3 ≤ℤ pos 7) × (pos 7 ≤ℤ pos 10))
    × ((pos 1 ≤ℤ pos 3) × (pos 3 ≤ℤ pos 5) × (pos 5 ≤ℤ pos 7))
staircase_rises_example =
    staircase_rises thousandths 7 10 (pos 3) 0 1 (plateau 0 (pos 3) (pos 3))
      (plateau 1 (pos 7) (pos 5)) (omega arith) (omega arith) (omega arith) (omega arith)
      (ap (λ steps. get_elem? steps 0) climbed) (ap (λ steps. get_elem? steps 1) climbed)
      (omega arith)

parse_mode_named_example : (parse_mode mode_soak ≡ ok mode_soak) ↔ (
    (mode_soak ≡ mode_soak)
    × ((mode_soak ≡ mode_burst)
        ⊎ (mode_soak ≡ mode_ramp)
        ⊎ (mode_soak ≡ mode_soak)
        ⊎ (mode_soak ≡ mode_staircase)))
parse_mode_named_example = parse_mode_named mode_soak mode_soak
