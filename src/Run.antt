-- ===== src/Run.antt =====
-- internal/domain/run/run.go: the phase of an execution's engines, and what each phase permits.
pub mod Guards
pub mod Usage
use honryu.Base.{Bool, true, false, List, [], ◌∷◌, Option, none, some, if◌then◌else◌, is_empty}
use honryu.Base.Ints.{ℤ, pos, ◌+ℤ◌, ◌*ℤ◌, ltb_ℤ, wrap64}
use honryu.Base.Times.{Time, time_sub}
use honryu.LoadProfile.{Entry, Profile, total_engines}

pub data Phase : Type 0 where
  idle deployed running : Phase

pub data RunError : Type 0 where
  no_scenarios not_deployed engines_not_ready already_running not_running engines_finished :
      RunError

pub record Run : Type 0 where
  pub id : ℤ
  pub execution_id : ℤ
  pub started_at : Time
  pub ended_at : Option Time

unfoldable pub finished : Run → Bool
finished r = elim r.ended_at [ none ↦ false | some _ ↦ true ]

unfoldable pub elapsed : Run → Time → ℤ
elapsed r now = elim r.ended_at [
  | some ended ↦ time_sub ended r.started_at
  | none ↦ time_sub now r.started_at
]

unfoldable pub derive_phase : ℤ → Bool → Phase
derive_phase engines_deployed is_running =
    if is_running then running else if ltb_ℤ (pos 0) engines_deployed then deployed else idle

unfoldable pub can_deploy : Phase → Option RunError
can_deploy running = some already_running
can_deploy idle = none
can_deploy deployed = none

-- The `switch` of `CanTrigger` and the test below it.
unfoldable pub trigger_in : Phase → Profile → ℤ → Option RunError
trigger_in idle ec engines_ready = some not_deployed
trigger_in running ec engines_ready = some already_running
trigger_in deployed ec engines_ready =
    if ltb_ℤ engines_ready (total_engines ec) then some engines_not_ready else none

unfoldable pub can_trigger : Phase → Profile → ℤ → Option RunError
unfolding trigger_in
can_trigger phase ec engines_ready =
    if is_empty ec.tests then some no_scenarios else trigger_in phase ec engines_ready

unfoldable pub can_stop : Phase → Option RunError
can_stop running = none
can_stop idle = some not_running
can_stop deployed = some not_running

-- The loop of `VirtualUsers`.
unfoldable pub virtual_users_from : ℤ → List Entry → ℤ
virtual_users_from vu [] = vu
virtual_users_from vu (ep ∷ eps) =
    virtual_users_from (wrap64 (vu +ℤ wrap64 (ep.engines *ℤ ep.concurrency))) eps

unfoldable pub virtual_users : Profile → ℤ
unfolding virtual_users_from
virtual_users ec = virtual_users_from (pos 0) ec.tests
