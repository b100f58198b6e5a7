-- ===== src/Lifecycle/Actions.antt =====
-- The errors of internal/app/lifecycleapp/service.go, and its methods as actions on a world.
use honryu.Base.{ℕ, List, Option, none, some, String, Result, ok, err}
use honryu.Base.Ints.{ℤ}
use honryu.Base.Text.{Text}
use honryu.Lifecycle.Ports.{PortError, Query, Command}
use honryu.Run.{RunError}
use honryu.Shard.{ShardError}

-- An error names what its message quotes.
pub data LifecycleError : Type 0 where
  port_err : PortError → LifecycleError
  run_err : RunError → LifecycleError
  shard_err : ShardError → LifecycleError
  campaign_frozen : String → LifecycleError
  engines_finished : ℕ → LifecycleError
  no_test_file : Option ℤ → LifecycleError
  on_cluster : Text → PortError → LifecycleError
  short_cluster : Text → ℤ → ℤ → LifecycleError
  not_on_cluster : ℤ → Text → LifecycleError
  parse_quantity : String → LifecycleError
  missing_file : ℤ → Text → PortError → LifecycleError
  bad_requests : ℤ → PortError → LifecycleError
  compile_err : String → LifecycleError
  trigger_errs : List PortError → LifecycleError

-- A query's error as the service's own.
abbrev pub ported {ℓ} : {A : Type ℓ} → Result PortError A → Result LifecycleError A
ported (err e) = err (port_err e)
ported (ok a) = ok a

abbrev pub at_cluster {ℓ} : {A : Type ℓ} → Text → Result PortError A → Result LifecycleError A
at_cluster cluster (err e) = err (on_cluster cluster e)
at_cluster cluster (ok a) = ok a

abbrev pub Done : Type 0
Done = Unit {0}

abbrev pub Action : Type 0 → Type 0 → Type 0
Action W A = W → Result LifecycleError A × W

module _ {W : Type 0} where
  abbrev pub pure : {A : Type 0} → A → Action W A
  pure a w = (ok a, w)

  abbrev pub and_do :
      {A B : Type 0} → Result LifecycleError A × W → (A → Action W B) → Result LifecycleError B × W
  and_do (err e, w) k = (err e, w)
  and_do (ok a, w) k = k a w

  infixl 5 ◌>>=◌ ◌>>◌
  abbrev pub ◌>>=◌ : {A B : Type 0} → Action W A → (A → Action W B) → Action W B
  ◌>>=◌ m k w = and_do (m w) k

  abbrev pub ◌>>◌ : {A B : Type 0} → Action W A → Action W B → Action W B
  m >> k = m >>= λ _. k

  -- A value that is read.
  abbrev pub reading : {A : Type 0} → (W → Result LifecycleError A) → Action W A
  reading r w = (r w, w)

  abbrev pub read : {A : Type 0} → Query W A → Action W A
  read q w = (ported (q w), w)

  abbrev pub replied : Option PortError × W → Result LifecycleError Done × W
  replied (none, w) = (ok tt, w)
  replied (some e, w) = (err (port_err e), w)

  -- A command whose error is returned, and one whose error is dropped.
  abbrev pub run : Command W → Action W Done
  run c w = replied (c w)

  abbrev pub best_effort : Command W → Action W Done
  best_effort c w = let (_, w') = c w in (ok tt, w')

  abbrev pub cluster_failed : Text → Option PortError × W → Result LifecycleError Done × W
  cluster_failed cluster (none, w) = (ok tt, w)
  cluster_failed cluster (some e, w) = (err (on_cluster cluster e), w)
