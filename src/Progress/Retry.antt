-- ===== src/Progress/Retry.antt =====
-- A batch that arrives again, or again with more behind it.
use honryu.Base.{
  Bool, String, ap, ◌≡◌, inl, inr, false, List, [], ◌++◌, Option, none, some, arith, ◌∙◌, sym,
  Option-cases,
}
use honryu.Base.Ints.{eqb_ℤ_iff, ℤ, eqb_ℤ}
use honryu.Base.Maps.{store-store, lookup-same, lookup, store}
use honryu.Metrics.{Interval}
use honryu.Progress.{
  ProgressError, ShardKey, absorb_err, absorb_valid, ProgressBatch, ProgressRun, ReportProgress,
  ShardStream, Tally, absorb_from, run_of, close, absorb_run, absorb, shard_key, same_shard,
  validate,
}
use honryu.Progress.Keyed.{same_shard_iff}
use honryu.Progress.Watermark.{
  absorb_from-Passed, absorb_from-nothing, absorb_from-Old-append, absorb_from-append,
}
use honryu.Progress.Streams.{stream_before, absorb_run-absorbed_at, stream_left, close-close}

module _ {F : Type 0} where
  -- The batch that a sidecar sends after a push that was lost on the way back: what it holds still, and
  -- what it measured since.
  abbrev pub longer : ProgressBatch F → List (Interval F) → Bool → Option ℤ → ProgressBatch F
  longer b more final code = record b {
    intervals = b.intervals ++ more;
    final = final;
    exit_code = code;
  }

module _ {F : Type 0} (t : Tally F) where
  open t use {Acc, Series, absorb_series}

  -- A batch that was absorbed leaves a run as it is, and nothing of it is fresh.
  absorb_run-again :
      (b : ProgressBatch F) (run : ProgressRun Acc)
      → absorb_run t b (absorb_run t b run).0 ≡ ((absorb_run t b run).0, [])
  unfolding absorb_run close
  absorb_run-again b run =
      let key = shard_key t b in
      let shard = stream_before t b run in
      let taken = absorb_from t shard.seq run.acc b.intervals in
      let left = close t b taken.0 shard in
      let once = (absorb_run t b run).0 in
      let old = (absorb_from-Passed t shard.seq run.acc b.intervals).1 in
      let nothing = absorb_from-nothing t taken.0 taken.1 b.intervals old in
      let kept =
        ap (λ s. store same_shard key s once.shards) (close-close t b taken.0 shard)
        ∙ store-store same_shard same_shard_iff key left left run.shards in
      absorb_run-absorbed_at t b once left (stream_left t b run)
      ∙ ap
          (λ r. (
            record { acc = r.1; shards = store same_shard key (close t b r.0 left) once.shards },
            r.2,
          ))
          nothing
      ∙ ap (λ s. (record once { shards = s }, [])) kept

  absorb_valid-again :
      (b : ProgressBatch F) (p : ReportProgress Acc Series)
      → absorb_valid t b (absorb_valid t b p) ≡ absorb_valid t b p
  unfolding absorb_valid
  absorb_valid-again b p =
      let found = run_of t (lookup eqb_ℤ b.run_id p.runs) in
      let (run, fresh) = absorb_run t b found in
      let kept = absorb_run-again b found in
      let read =
        ap (λ o. absorb_run t b (run_of t o)) (lookup-same eqb_ℤ eqb_ℤ_iff b.run_id run p.runs) in
      let once = absorb_valid t b p in
      ap
        (λ r. record once {
          runs = store eqb_ℤ b.run_id r.0 once.runs;
          series = absorb_series b.run_id r.1 once.series;
        })
        (read ∙ unfold run_of in kept)
      ∙ ap (λ rs. record once { runs = rs; series = absorb_series b.run_id [] once.series })
          (store-store eqb_ℤ eqb_ℤ_iff b.run_id run run p.runs)
      ∙ ap (λ s. record once { series = s }) (t.absorb_nothing b.run_id fresh p.series)

  absorb-valid :
      (b : ProgressBatch F) (p : ReportProgress Acc Series)
      → p.fails ≡ none
      → validate b ≡ none
      → absorb t b p ≡ (none, absorb_valid t b p)
  unfolding absorb
  absorb-valid b p works good = ground arith

  absorb-fails :
      (b : ProgressBatch F) (p : ReportProgress Acc Series) (e : String)
      → p.fails ≡ some e
      → absorb t b p ≡ (some (absorb_err e), p)
  unfolding absorb
  absorb-fails b p e fails = ground arith

  absorb-invalid :
      (b : ProgressBatch F) (p : ReportProgress Acc Series) (e : ProgressError)
      → p.fails ≡ none
      → validate b ≡ some e
      → absorb t b p ≡ (some e, p)
  unfolding absorb
  absorb-invalid b p e works bad = ground arith

  -- Absorbing a batch twice leaves what absorbing it once leaves, and answers the same: the runs'
  -- accumulators, their shards' streams, and the series. (Extending the series by nothing, right after
  -- the same batch extended it, leaves it as it is.)
  pub absorb-twice :
      (b : ProgressBatch F) (p : ReportProgress Acc Series)
      → absorb t b (absorb t b p).1 ≡ absorb t b p
  absorb-twice b p = elim (Option-cases p.fails) [
    | inr (e, fails) ↦ ap (λ r. absorb t b r.1) (absorb-fails b p e fails)
    | inl works ↦ elim (Option-cases (validate b)) [
      | inr (e, bad) ↦ ap (λ r. absorb t b r.1) (absorb-invalid b p e works bad)
      | inl good ↦
          let once = absorb-valid b p works good in
          let again = absorb-valid b (absorb_valid t b p) (unfold absorb_valid in works) good in
          ap (λ r. absorb t b r.1) once
          ∙ again
          ∙ ap (λ q. (none, q)) (absorb_valid-again b p)
          ∙ sym once
    ]
  ]

  close_open :
      (b : ProgressBatch F) (more : List (Interval F)) (final : Bool) (code : Option ℤ)
      (shard : ShardStream) (v w : ℤ)
      → b.final ≡ false
      → b.exit_code ≡ none
      → close t (longer b more final code) w (close t b v shard)
        ≡ close t (longer b more final code) w shard
  unfolding close
  close_open b more final code shard v w still no_code = ground arith

  -- A batch that was absorbed, though its sidecar never learned of it, and comes again with more behind
  -- it, leaves the run as the longer batch alone would: nothing is counted twice and nothing is lost.
  pub absorb_run-longer :
      (b : ProgressBatch F) (more : List (Interval F)) (final : Bool) (code : Option ℤ)
      (run : ProgressRun Acc)
      → b.final ≡ false
      → b.exit_code ≡ none
      → (absorb_run t (longer b more final code) (absorb_run t b run).0).0
        ≡ (absorb_run t (longer b more final code) run).0
  unfolding absorb_run close
  absorb_run-longer b more final code run still no_code =
      let key = shard_key t b in
      let shard = stream_before t b run in
      let once = (absorb_run t b run).0 in
      let all = longer b more final code in
      let taken = absorb_from t shard.seq run.acc b.intervals in
      let left = close t b taken.0 shard in
      let built : Acc → ℤ → ShardStream → List (ShardKey × ShardStream) → ProgressRun Acc =
        λ a w s ss. record { acc = a; shards = store same_shard key (close t all w s) ss } in
      let old = (absorb_from-Passed t shard.seq run.acc b.intervals).1 in
      let rest = absorb_from-Old-append t taken.0 taken.1 b.intervals more old in
      let whole = absorb_from-append t shard.seq run.acc b.intervals more in
      ap (λ r. r.0) (absorb_run-absorbed_at t all once left (stream_left t b run))
      ∙ ap (λ r. built r.1 r.0 left once.shards) rest
      ∙ ap (λ w. built (absorb_from t taken.0 taken.1 more).1 w left once.shards) (sym whole.0)
      ∙ ap (λ a. built a (absorb_from t shard.seq run.acc all.intervals).0 left once.shards)
          (sym whole.1)
      ∙ ap (λ ss. record { acc = (absorb_from t shard.seq run.acc all.intervals).1; shards = ss })
          (store-store same_shard same_shard_iff key left
            (close t all (absorb_from t shard.seq run.acc all.intervals).0 left) run.shards)
      ∙ ap
          (λ s. record {
            acc = (absorb_from t shard.seq run.acc all.intervals).1;
            shards = store same_shard key s run.shards;
          })
          (close_open b more final code shard taken.0
            (absorb_from t shard.seq run.acc all.intervals).0 still no_code)
