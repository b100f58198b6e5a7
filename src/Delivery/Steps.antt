-- ===== src/Delivery/Steps.antt =====
-- The steps of a delivery, one by one.
use mathlib.Core.List.{append_assoc, append-nil}
use honryu.Base.{
  ◌+◌, ◌≡◌, refl, ap, sym, ◌∙◌, subst, List, [], ◌++◌, Option, none, String, arith, length,
  length-append,
}
use honryu.Base.Ints.{ℤ, pos}
use honryu.Base.Maps.{lookup}
use honryu.Base.Text.{Text}
use honryu.Metrics.{Interval}
use honryu.Progress.{Tally, ProgressRun, stream_of, same_shard}
use honryu.Sidecar.{Identity, Sidecar, drop, read, settle}
use honryu.Delivery.{Delivers, starts, reads, others, answer_lost, answered, key_of}
use honryu.Delivery.Numbers.{Numbered, Numbered-append, drop-length, read-Adds}
use honryu.Delivery.Tracks.{mark, Tracks, batch_of-sent_batch, push-Tracks}

module _ {F : Type 0} (t : Tally F) (id : Identity) where
  open t use {Acc}

  -- A push that was answered leaves nothing pending.
  settle-all :
      (s : Sidecar F)
      → ((settle s.pending s).pending ≡ [])
        × ((settle s.pending s).seq ≡ s.seq)
        × ((settle s.pending s).stream_id ≡ s.stream_id)
  unfolding settle
  settle-all s =
      let none_left : drop (length s.pending) s.pending ≡ [] =
        subst (λ ivs. drop (length s.pending) ivs ≡ []) (append-nil s.pending)
          (drop-length s.pending []) in
      (ground (arith, none_left), refl, refl)

  starts-Tracks :
      (s : Sidecar F) (run : ProgressRun Acc)
      → s.pending ≡ []
      → s.seq ≡ 0
      → lookup same_shard (key_of t id) run.shards ≡ none
      → Tracks t id s run [] []
  starts-Tracks s run p q unseen = record {
    acked = [];
    already = [];
    rest = [];
    counted_is = refl;
    pending_is = p;
    measured_is = refl;
    numbered = tt;
    last = q;
    marked = ap (λ o. (stream_of t s.stream_id o).seq) unseen ∙ unfold stream_of in refl;
  }

  others-Tracks :
      (s : Sidecar F) (before run : ProgressRun Acc) (counted measured : List (Interval F))
      → Tracks t id s before counted measured
      → lookup same_shard (key_of t id) run.shards ≡ lookup same_shard (key_of t id) before.shards
      → Tracks t id s run counted measured
  others-Tracks s before run counted measured k same = record {
    acked = k.acked;
    already = k.already;
    rest = k.rest;
    counted_is = k.counted_is;
    pending_is = k.pending_is;
    measured_is = k.measured_is;
    numbered = k.numbered;
    last = k.last;
    marked = ap (λ o. (stream_of t s.stream_id o).seq) same ∙ k.marked;
  }

  -- An absorbed push, answered or not.
  lost-Tracks :
      (s : Sidecar F) (before run : ProgressRun Acc) (already counted measured : List (Interval F))
      → Tracks t id s before already measured
      → counted ≡ measured
      → mark t id s run ≡ pos (length measured)
      → Tracks t id s run counted measured
  lost-Tracks s before run already counted measured k all m = record {
    acked = k.acked;
    already = k.already ++ k.rest;
    rest = [];
    counted_is = all ∙ k.measured_is;
    pending_is = k.pending_is ∙ sym (append-nil (k.already ++ k.rest));
    measured_is = k.measured_is ∙ ap (λ xs. k.acked ++ xs) (sym (append-nil (k.already ++ k.rest)));
    numbered = k.numbered;
    last = k.last;
    marked = m ∙ ap (λ xs. pos (length xs)) (sym all);
  }

  answered-Tracks :
      (s sender : Sidecar F) (before run : ProgressRun Acc)
      (already counted measured : List (Interval F))
      → Tracks t id sender before already measured
      → s ≡ settle sender.pending sender
      → counted ≡ measured
      → mark t id sender run ≡ pos (length measured)
      → Tracks t id s run counted measured
  answered-Tracks s sender before run already counted measured k e all m =
      let (empty, same_seq, same_stream) = settle-all sender in
      record {
        acked = measured;
        already = [];
        rest = [];
        counted_is = all ∙ sym (append-nil measured);
        pending_is = ap (λ z. z.pending) e ∙ empty;
        measured_is = sym (append-nil measured);
        numbered = k.numbered;
        last = ap (λ z. z.seq) e ∙ same_seq ∙ k.last;
        marked =
            ap (λ stream. (stream_of t stream (lookup same_shard (key_of t id) run.shards)).seq)
              (ap (λ z. z.stream_id) e ∙ same_stream)
            ∙ m
            ∙ ap (λ xs. pos (length xs)) (sym all);
      }

  module _ (unmarshal : Text → Option (Interval F)) (label_map : List (String × String))
      (run_id : ℤ) where
    reads-Tracks :
        (before : Sidecar F) (run : ProgressRun Acc) (counted already : List (Interval F))
        (bytes : Text)
        → Tracks t id before run counted already
        → let s = read unmarshal label_map bytes before in
          Tracks t id s run counted (already ++ drop (length before.pending) s.pending)
    reads-Tracks before run counted already bytes k =
        let s = read unmarshal label_map bytes before in
        let (new, p, q, numbers, stream) = read-Adds unmarshal label_map bytes before in
        let added : drop (length before.pending) s.pending ≡ new =
          ap (drop (length before.pending)) p ∙ drop-length before.pending new in
        let len = length-append already new in
        let count = k.last in
        let at_end : before.seq ≡ 0 + length already = omega arith in
        subst (λ xs. Tracks t id s run counted (already ++ xs)) (sym added)
          (record {
            acked = k.acked;
            already = k.already;
            rest = k.rest ++ new;
            counted_is = k.counted_is;
            pending_is = p ∙ ap (λ xs. xs ++ new) k.pending_is ∙ append_assoc k.already k.rest new;
            measured_is =
                ap (λ xs. xs ++ new) k.measured_is
                ∙ append_assoc k.acked (k.already ++ k.rest) new
                ∙ ap (λ xs. k.acked ++ xs) (append_assoc k.already k.rest new);
            numbered =
                Numbered-append 0 already new k.numbered
                  (subst (λ n. Numbered n new) at_end numbers);
            last = omega arith;
            marked =
                ap (λ id'. (stream_of t id' (lookup same_shard (key_of t id) run.shards)).seq)
                  stream
                ∙ k.marked;
          })

    pub Delivers-Tracks :
        {s : Sidecar F} {run : ProgressRun Acc} {counted measured : List (Interval F)}
        → Delivers t unmarshal label_map id run_id s run counted measured
        → Tracks t id s run counted measured
    Delivers-Tracks (starts p q unseen c m) = rw (c, m) (starts-Tracks _ _ p q unseen)
    Delivers-Tracks (reads before already bytes d e m) =
        rw (m, e) (reads-Tracks before _ _ already bytes (Delivers-Tracks d))
    Delivers-Tracks (others before d same) = others-Tracks _ before _ _ _ (Delivers-Tracks d) same
    Delivers-Tracks (answer_lost before already final b d h r c) =
        let k = Delivers-Tracks d in
        let (all, m) = push-Tracks t id run_id final _ before already _ b h k in
        rw r (lost-Tracks _ before _ already _ _ k (c ∙ all) m)
    Delivers-Tracks (answered sender before already final b d h e r c) =
        let k = Delivers-Tracks d in
        let (all, m) = push-Tracks t id run_id final sender before already _ b h k in
        let (_, sent) = batch_of-sent_batch t id run_id final sender b h in
        rw r (
          answered-Tracks _ sender before _ already _ _ k (e ∙ ap (λ ivs. settle ivs sender) sent)
            (c ∙ all) m)
