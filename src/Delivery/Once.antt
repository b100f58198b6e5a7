-- ===== src/Delivery/Once.antt =====
-- What a run counts of a sidecar.
use mathlib.Core.List.{append_assoc}
use honryu.Base.{◌≡◌, ap, sym, ◌∙◌, Bool, List, ◌++◌, Option, some, String}
use honryu.Base.Ints.{ℤ}
use honryu.Base.Text.{Text}
use honryu.Metrics.{Interval, Batch}
use honryu.Progress.{Tally, ProgressRun}
use honryu.Sidecar.{Identity, Sidecar, batch_of}
use honryu.Delivery.{Delivers, absorb_batch}
use honryu.Delivery.Tracks.{push-Tracks}
use honryu.Delivery.Steps.{Delivers-Tracks}

module _ {F : Type 0} (t : Tally F) (id : Identity) (unmarshal : Text → Option (Interval F))
    (label_map : List (String × String)) (run_id : ℤ) where
  open t use {Acc}

  -- However a sidecar's pushes are lost, repeated and interleaved with other pods', what the run has
  -- counted of it is a beginning of what it measured, in order and each interval once, and the rest
  -- stands at the end of what is pending.
  pub exactly_once :
      (s : Sidecar F) (run : ProgressRun Acc) (counted measured : List (Interval F))
      → Delivers t unmarshal label_map id run_id s run counted measured
      → (rest : List (Interval F)) × (already : List (Interval F)) × (measured ≡ counted ++ rest)
        × (s.pending ≡ already ++ rest)
  exactly_once s run counted measured d =
      let k = Delivers-Tracks t id unmarshal label_map run_id d in
      (
        k.rest,
        k.already,
        k.measured_is
            ∙ sym (append_assoc k.acked k.already k.rest)
            ∙ ap (λ xs. xs ++ k.rest) (sym k.counted_is),
        k.pending_is,
      )

  -- Once a push of a sidecar is absorbed, whether or not its answer arrives, the run has counted all
  -- that the sidecar measured up to it.
  pub push_counts_all :
      (s : Sidecar F) (run : ProgressRun Acc) (counted measured : List (Interval F)) (final : Bool)
      (b : Batch F)
      → Delivers t unmarshal label_map id run_id s run counted measured
      → batch_of id final s ≡ some b
      → counted ++ (absorb_batch t run_id b run).1 ≡ measured
  push_counts_all s run counted measured final b d h =
      (push-Tracks t id run_id final s run counted measured b h
        (Delivers-Tracks t id unmarshal label_map run_id d)).0
