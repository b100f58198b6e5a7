-- ===== src/Lifecycle/Trigger/Opens.antt =====
-- Whether Trigger leaves a run open.
use honryu.Base.{◌≡◌, ◌⊎◌, false, List, none, some, length, ◌==◌, Result, ok, err}
use honryu.Base.Ints.{ℤ}
use honryu.Base.Text.{Text}
use honryu.Execution.{Execution}
use honryu.LoadProfile.{Entry}
use honryu.Lifecycle.Ports.{Ports, PortError}
use honryu.Lifecycle.Actions.{LifecycleError, Done, trigger_errs}
use honryu.Lifecycle.Laws.{RunLaws}

module _ {W : Type 0} (p : Ports W) (laws : RunLaws p) (e : ℤ) where
  -- What a trigger leaves: an open run where it succeeds, else none, or an open run some but not all of
  -- whose scenarios could not be marked.
  abbrev pub Outcome : List Entry → Result LifecycleError Done → W → Type 0
  Outcome scenarios (ok _) w = (run : ℤ) × (p.current_run e w ≡ ok (some run))
  Outcome scenarios (err x) w =
      (p.current_run e w ≡ ok none)
      ⊎ ((errors : List PortError) × (x ≡ trigger_errs errors)
          × ((length errors == length scenarios) ≡ false)
          × ((run : ℤ) × (p.current_run e w ≡ ok (some run))))
