-- ===== src/Delivery/Tracks.antt =====
-- What holds of a sidecar and its run between pushes.
use mathlib.Core.List.{append_assoc}
use honryu.Base.{
  ◌+◌, ◌≡◌, refl, ap, sym, ◌∙◌, subst, Bool, List, ◌++◌, some, arith, length, length-append,
}
use honryu.Base.Ints.{ℤ, pos}
use honryu.Base.Maps.{lookup}
use honryu.Metrics.{Interval, Batch}
use honryu.Progress.{
  Tally, ProgressRun, ProgressBatch, absorb_from, absorb_run, stream_of, close, same_shard,
}
use honryu.Progress.Watermark.{absorb_from-Old-append}
use honryu.Progress.Streams.{stream_left, absorb_run-absorbed_at, stream_before}
use honryu.Sidecar.{Identity, Sidecar, batch_of}
use honryu.Delivery.{key_of, absorb_batch, progress_batch}
use honryu.Delivery.Numbers.{
  Numbered, Numbered-left, Numbered-right, Numbered-old, absorb_from-Numbered,
}

module _ {F : Type 0} (t : Tally F) (id : Identity) where
  open t use {Acc}

  abbrev pub mark : Sidecar F → ProgressRun Acc → ℤ
  mark s run = (stream_of t s.stream_id (lookup same_shard (key_of t id) run.shards)).seq

  -- What was answered, what was counted beyond it, and what was not counted yet.
  pub record Tracks (s : Sidecar F) (run : ProgressRun Acc) (counted measured : List (Interval F))
      : Type 0 where
    pub acked : List (Interval F)
    pub already : List (Interval F)
    pub rest : List (Interval F)
    pub counted_is : counted ≡ acked ++ already
    pub pending_is : s.pending ≡ already ++ rest
    pub measured_is : measured ≡ acked ++ (already ++ rest)
    pub numbered : Numbered 0 measured
    pub last : s.seq ≡ length measured
    pub marked : mark s run ≡ pos (length counted)

  -- The batch that is sent, in the run's terms.
  abbrev pub sent_batch : ℤ → Bool → Sidecar F → ProgressBatch F
  sent_batch run_id final s = record {
    run_id = run_id;
    scenario_id = id.scenario_id;
    shard_index = id.shard_index;
    cluster = "";
    stream_id = s.stream_id;
    final = final;
    exit_code = s.exit_code;
    intervals = s.pending;
  }

  pub batch_of-sent_batch :
      (run_id : ℤ) (final : Bool) (s : Sidecar F) (b : Batch F)
      → batch_of id final s ≡ some b
      → (progress_batch run_id b ≡ sent_batch run_id final s) × (b.intervals ≡ s.pending)
  unfolding batch_of progress_batch
  batch_of-sent_batch run_id final s b h = ground arith

  -- An absorbed push takes exactly what was not counted.
  push_takes_rest :
      (run_id : ℤ) (final : Bool) (s : Sidecar F) (run : ProgressRun Acc)
      (counted measured : List (Interval F)) (k : Tracks s run counted measured)
      → let r = absorb_run t (sent_batch run_id final s) run in
        (r.1 ≡ k.rest) × (mark s r.0 ≡ pos (length measured))
  push_takes_rest run_id final s run counted measured k =
      let b = sent_batch run_id final s in
      let shard = stream_before t b run in
      let w = length counted in
      let parts = subst (Numbered 0) k.measured_is k.numbered in
      let open_part = Numbered-right 0 k.acked (k.already ++ k.rest) parts in
      let len = length-append k.acked k.already in
      let same_length = ap length k.counted_is in
      let whole = ap length k.measured_is in
      let old =
        Numbered-old (0 + length k.acked) w k.already (Numbered-left _ k.already k.rest open_part)
          (omega arith) in
      let len_all = length-append k.acked (k.already ++ k.rest) in
      let len_open = length-append k.already k.rest in
      let at_w : 0 + length k.acked + length k.already ≡ w = omega arith in
      let new = subst (λ n. Numbered n k.rest) at_w (Numbered-right _ k.already k.rest open_part) in
      let all = absorb_from-Numbered t w run.acc k.rest new in
      let take =
        ap (λ n. absorb_from t n run.acc s.pending) k.marked
        ∙ ap (absorb_from t (pos w) run.acc) k.pending_is
        ∙ absorb_from-Old-append t (pos w) run.acc k.already k.rest old in
      let up : w + length k.rest ≡ length measured = omega arith in
      (
        ap (λ r. r.1) (absorb_run-absorbed_at t b run shard refl) ∙ ap (λ r. r.2) take ∙ all.1,
        ap (λ d. d.seq) (stream_left t b run)
            ∙ unfold close in (ap (λ r. r.0) take ∙ all.0 ∙ ap pos up),
      )

  pub push-Tracks :
      (run_id : ℤ) (final : Bool) (s : Sidecar F) (before : ProgressRun Acc)
      (already measured : List (Interval F)) (b : Batch F)
      → batch_of id final s ≡ some b
      → Tracks s before already measured
      → let r = absorb_batch t run_id b before in
        (already ++ r.1 ≡ measured) × (mark s r.0 ≡ pos (length measured))
  push-Tracks run_id final s before already measured b h k =
      let (same, _) = batch_of-sent_batch run_id final s b h in
      let (took, m) = push_takes_rest run_id final s before already measured k in
      let all : already ++ k.rest ≡ measured =
        ap (λ xs. xs ++ k.rest) k.counted_is
        ∙ append_assoc k.acked k.already k.rest
        ∙ sym k.measured_is in
      subst
        (λ pb.
          (already ++ (absorb_run t pb before).1 ≡ measured)
          × (mark s (absorb_run t pb before).0 ≡ pos (length measured)))
        (sym same) (ap (λ xs. already ++ xs) took ∙ all, m)
