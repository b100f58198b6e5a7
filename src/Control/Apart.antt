-- ===== src/Control/Apart.antt =====
-- What a batch cannot change: the runs that it does not belong to.
use honryu.Base.{
  ◌≡◌, refl, ap, ◌∙◌, inl, inr, Bool, true, false, not, ◌&&◌, List, [], ◌∷◌, Option, none, some,
  String, Bool-cases, arith, if◌then◌else◌,
}
use honryu.Base.Ints.{ℤ, pos, eqb_ℤ, eqb_ℤ_iff}
use honryu.Base.Floats.{Float64}
use honryu.Base.Maps.{lookup, lookup_or, store, delete, lookup-store, lookup-delete}
use honryu.Base.Times.{Time}
use honryu.Delivery.{progress_batch}
use honryu.Execution.{Execution}
use honryu.Metrics.{Batch, Interval}
use honryu.Progress.{
  ProgressError, ProgressBatch, ReportProgress, discard, discard_with, absorb, absorb_checked,
  absorb_valid, absorb_run, run_of,
}
use honryu.Progress as Progress
use honryu.Report.Accumulator.{Accumulator}
use honryu.Report.Series.{SeriesSecond}
use honryu.Report.Series.Stored.{report_tally}
use honryu.Report.Summary.{Report, ReportError, Meta, validate}
use honryu.Taurus.{Outcome}
use honryu.Control.{Control, StepResult, RunRecord, and_then, show, show_all, mark, interval_key}
use honryu.Control.Finalize.{
  save_checked, save_report, announce, discarded, clean_up, close_current, close_run, end_record,
  stop_current, stop_run, final_report, meta_of, finalize_with, finalize_found, finalize,
  finalize_completed, got_report,
}
use honryu.Control.Ingest.{
  absorb_batch, complete_if, complete, ingest_valid, ingest_run, ingest, record_orphan, forget,
  all_shards_finished,
}
use honryu.Control.Once.{final_report-identity}

abbrev Working : Type 0 → Type 0
Working F = ReportProgress (Accumulator F) (List (ℤ × List (ℤ × SeriesSecond F)))

module _ (fl : Float64) (grade : Report fl.F → Option String) (run other : ℤ)
    (apart : eqb_ℤ run other ≡ false) where
  open fl use {F}

  -- Nothing of the other run has changed: neither its working state nor its report.
  pub record IsSpared (s t : Control F) : Type 0 where
    pub progress : lookup eqb_ℤ other t.progress.runs ≡ lookup eqb_ℤ other s.progress.runs
    pub report : lookup eqb_ℤ other t.reports ≡ lookup eqb_ℤ other s.reports

  same : (s : Control F) → IsSpared s s
  same s = record { progress = refl; report = refl }

  later : (s t u : Control F) → IsSpared s t → IsSpared t u → IsSpared s u
  later s t u h k = record { progress = k.progress ∙ h.progress; report = k.report ∙ h.report }

  stored :
      {V : Type 0} (v : V) (m : List (ℤ × V))
      → lookup eqb_ℤ other (store eqb_ℤ run v m) ≡ lookup eqb_ℤ other m
  stored v m = lookup-store eqb_ℤ eqb_ℤ_iff run other v m ∙ simp apart refl

  removed :
      {V : Type 0} (m : List (ℤ × V))
      → lookup eqb_ℤ other (delete eqb_ℤ run m) ≡ lookup eqb_ℤ other m
  removed m = lookup-delete eqb_ℤ eqb_ℤ_iff run other m ∙ simp apart refl

  either :
      (c : Bool) (s t u : Control F) → IsSpared s t → IsSpared s u → IsSpared s (if c then t else u)
  either true s t u h k = h
  either false s t u h k = k

  show-IsSpared : (b : Batch F) (iv : Interval F) (s : Control F) → IsSpared s (show fl b run iv s)
  unfolding show
  show-IsSpared b iv s =
      either (mark b.execution_id (interval_key b iv) s.seen).0 s _ s
        (record { progress = refl; report = refl }) (same s)

  show_all-IsSpared :
      (b : Batch F) (ivs : List (Interval F)) (s : Control F) → IsSpared s (show_all fl b run ivs s)
  unfolding show_all
  show_all-IsSpared b [] s = same s
  show_all-IsSpared b (iv ∷ ivs) s =
      later s (show fl b run iv s) (show_all fl b run ivs (show fl b run iv s))
        (show-IsSpared b iv s) (show_all-IsSpared b ivs (show fl b run iv s))

  absorb_valid-spares :
      (b : ProgressBatch F) (p : Working F)
      → b.run_id ≡ run
      → lookup eqb_ℤ other (absorb_valid (report_tally fl) b p).runs ≡ lookup eqb_ℤ other p.runs
  unfolding absorb_valid
  absorb_valid-spares b p r =
      let absorbed =
        (absorb_run (report_tally fl) b
          (run_of (report_tally fl) (lookup eqb_ℤ b.run_id p.runs))).0 in
      ap (λ k. lookup eqb_ℤ other (store eqb_ℤ k absorbed p.runs)) r ∙ stored absorbed p.runs

  absorb_checked-spares :
      (o : Option String) (v : Option ProgressError) (b : ProgressBatch F) (p : Working F)
      → b.run_id ≡ run
      → lookup eqb_ℤ other (absorb_checked (report_tally fl) o v b p).1.runs
        ≡ lookup eqb_ℤ other p.runs
  unfolding absorb_checked
  absorb_checked-spares (some e) v b p r = refl
  absorb_checked-spares none (some e) b p r = refl
  absorb_checked-spares none none b p r = absorb_valid-spares b p r

  absorb_batch-IsSpared :
      (b : Batch F) (s : Control F) → IsSpared s (absorb_batch fl grade b run s).1
  unfolding absorb_batch progress_batch absorb
  absorb_batch-IsSpared b s = record {
    progress =
        absorb_checked-spares s.progress.fails (Progress.validate (progress_batch run b))
          (progress_batch run b) s.progress refl;
    report = refl;
  }

  save_checked-IsSpared :
      (fails : Option String) (invalid : Option ReportError) (o : Option (Report F))
      (rep : Report F) (s : Control F)
      → rep.identity.run_id ≡ run
      → IsSpared s (save_checked fl fails invalid o rep s).1
  unfolding save_checked
  save_checked-IsSpared (some e) invalid o rep s r = same s
  save_checked-IsSpared none (some e) o rep s r = same s
  save_checked-IsSpared none none (some old) rep s r = same s
  save_checked-IsSpared none none none rep s r =
      let kept : Report F = record rep { starred = false; note = [] } in
      record {
        progress = refl;
        report =
            ap (λ k. lookup eqb_ℤ other (store eqb_ℤ k kept s.reports)) r ∙ stored kept s.reports;
      }

  announce-IsSpared :
      (again : Bool) (graded : Option String) (project : ℤ) (rep : Report F) (s : Control F)
      → IsSpared s (announce fl again graded project rep s).1
  unfolding announce
  announce-IsSpared true graded project rep s = same s
  announce-IsSpared false none project rep s = record { progress = refl; report = refl }
  announce-IsSpared false (some e) project rep s = record { progress = refl; report = refl }

  end_record-IsSpared :
      (now : Time) (r : ℤ) (o : Option RunRecord) (s : Control F)
      → IsSpared s (end_record fl now r o s)
  unfolding end_record
  end_record-IsSpared now r none s = same s
  end_record-IsSpared now r (some rec) s = record { progress = refl; report = refl }

  stop_current-IsSpared :
      (now : Time) (execution : ℤ) (o : Option ℤ) (s : Control F)
      → IsSpared s (stop_current fl now execution o s)
  unfolding stop_current
  stop_current-IsSpared now execution none s = same s
  stop_current-IsSpared now execution (some r) s =
      let ended = end_record-IsSpared now r (lookup eqb_ℤ r s.run_history) s in
      record { progress = ended.progress; report = ended.report }

  close_current-IsSpared :
      (now : Time) (execution : ℤ) (o : Option ℤ) (s : Control F)
      → IsSpared s (close_current fl now execution run o s)
  unfolding close_current stop_run
  close_current-IsSpared now execution none s = same s
  close_current-IsSpared now execution (some current) s =
      either (eqb_ℤ current run) s (stop_run fl now execution s) s
        (stop_current-IsSpared now execution (lookup eqb_ℤ execution s.current_runs) s) (same s)

  discarded-IsSpared :
      (now : Time) (execution : ℤ) (e : Option ProgressError) (s : Control F)
      → IsSpared s (discarded fl now execution run e s).1
  unfolding discarded close_run
  discarded-IsSpared now execution (some e) s = same s
  discarded-IsSpared now execution none s =
      let touched : Control F = record s {
        last_activity = store eqb_ℤ execution now s.last_activity;
      } in
      let closed =
        close_current-IsSpared now execution (lookup eqb_ℤ execution s.current_runs) touched in
      record { progress = closed.progress; report = closed.report }

  discard_with-spares :
      (o : Option String) (p : Working F)
      → lookup eqb_ℤ other (discard_with o run p).1.runs ≡ lookup eqb_ℤ other p.runs
  unfolding discard_with
  discard_with-spares (some e) p = refl
  discard_with-spares none p = removed p.runs

  clean_up-IsSpared :
      (now : Time) (execution : ℤ) (s : Control F) → IsSpared s (clean_up fl now execution run s).1
  unfolding clean_up discard
  clean_up-IsSpared now execution s =
      let p = discard_with s.progress.discard_fails run s.progress in
      let dropped : Control F = record s { progress = p.1 } in
      let after = discarded-IsSpared now execution p.0 dropped in
      record {
        progress = after.progress ∙ discard_with-spares s.progress.discard_fails s.progress;
        report = after.report;
      }

  and_then-IsSpared :
      (s : Control F) (r : StepResult F) (next : Control F → StepResult F)
      → IsSpared s r.1
      → ((t : Control F) → IsSpared t (next t).1)
      → IsSpared s (and_then r next).1
  and_then-IsSpared s (some e, t) next h k = h
  and_then-IsSpared s (none, t) next h k = later s t (next t).1 h (k t)

  finalize_found-IsSpared :
      (now : Time) (execution : ℤ) (outcome : Outcome) (rec : Option RunRecord)
      (exe : Option Execution) (s : Control F)
      → IsSpared s (finalize_found fl grade now execution run outcome rec exe s).1
  unfolding finalize_found finalize_with save_report meta_of
  finalize_found-IsSpared now execution outcome none exe s = same s
  finalize_found-IsSpared now execution outcome (some rec) none s = same s
  finalize_found-IsSpared now execution outcome (some rec) (some exe) s =
      let m : Meta F =
        meta_of fl execution run outcome now (lookup_or eqb_ℤ [] execution s.profiles) rec exe in
      let rep : Report F = final_report fl m s in
      let again : Bool = got_report fl s.get_fails (lookup eqb_ℤ run s.reports) in
      and_then-IsSpared s
        (and_then (save_report fl rep s) (announce fl again (grade rep) exe.project_id rep))
        (clean_up fl now execution run)
        (and_then-IsSpared s (save_report fl rep s)
          (announce fl again (grade rep) exe.project_id rep)
          (save_checked-IsSpared s.save_fails (validate rep)
            (lookup eqb_ℤ rep.identity.run_id s.reports) rep s
            (ap (λ i. i.run_id) (final_report-identity fl grade m s)))
          (announce-IsSpared again (grade rep) exe.project_id rep))
        (clean_up-IsSpared now execution)

  complete_if-IsSpared :
      (now : Time) (execution : ℤ) (o : Option Bool) (s : Control F)
      → IsSpared s (complete_if fl grade now execution run o s).1
  unfolding complete_if finalize_completed finalize forget
  complete_if-IsSpared now execution none s = same s
  complete_if-IsSpared now execution (some false) s = same s
  complete_if-IsSpared now execution (some true) s =
      and_then-IsSpared s (finalize_completed fl grade now execution run s)
        (λ s. (none, forget execution run s))
        (finalize_found-IsSpared now execution _ (lookup eqb_ℤ run s.run_history)
          (lookup eqb_ℤ execution s.executions) s)
        (λ t. record { progress = refl; report = refl })

  complete-IsSpared :
      (final : Bool) (now : Time) (execution : ℤ) (s : Control F)
      → IsSpared s (complete fl grade final now execution run s).1
  unfolding complete
  complete-IsSpared false now execution s = same s
  complete-IsSpared true now execution s =
      complete_if-IsSpared now execution (all_shards_finished execution run s) s

  ingest_valid-IsSpared :
      (e : Option ProgressError) (now : Time) (b : Batch F) (s : Control F)
      → IsSpared s (ingest_valid fl grade e now b run s).1
  unfolding ingest_valid
  ingest_valid-IsSpared (some e) now b s = same s
  ingest_valid-IsSpared none now b s =
      let shown : Control F = show_all fl b run b.intervals s in
      and_then-IsSpared s (absorb_batch fl grade b run shown)
        (complete fl grade b.final now b.execution_id run)
        (later s shown (absorb_batch fl grade b run shown).1 (show_all-IsSpared b b.intervals s)
          (absorb_batch-IsSpared b shown))
        (complete-IsSpared b.final now b.execution_id)

module _ (fl : Float64) (grade : Report fl.F → Option String) where
  open fl use {F}

  -- A batch for the execution's current run, or for none: its own run where it names one.
  named_run :
      (b : Batch F) (run other : ℤ)
      → eqb_ℤ b.run_id (pos 0) ≡ false
      → eqb_ℤ b.run_id other ≡ false
      → (not (eqb_ℤ b.run_id (pos 0)) && not (eqb_ℤ b.run_id run)) ≡ false
      → eqb_ℤ run other ≡ false
  named_run b run other named apart current =
      ground (arith, eqb_ℤ_iff b.run_id run, eqb_ℤ_iff b.run_id other, eqb_ℤ_iff run other)

  record_orphan-spares :
      (now : Time) (b : Batch F) (s : Control F)
      → ((record_orphan now b s).progress ≡ s.progress)
        × ((record_orphan now b s).reports ≡ s.reports)
  unfolding record_orphan
  record_orphan-spares now b s = elim (Bool-cases b.final) [
    | inl final ↦ simp final (refl, refl)
    | inr more ↦ simp more (refl, refl)
  ]

  ingest_run-spares :
      (o : Option ℤ) (now : Time) (b : Batch F) (other : ℤ) (s : Control F)
      → eqb_ℤ b.run_id (pos 0) ≡ false
      → eqb_ℤ b.run_id other ≡ false
      → (lookup eqb_ℤ other (ingest_run fl grade o now b s).1.progress.runs
          ≡ lookup eqb_ℤ other s.progress.runs)
        × (lookup eqb_ℤ other (ingest_run fl grade o now b s).1.reports
            ≡ lookup eqb_ℤ other s.reports)
  unfolding ingest_run
  ingest_run-spares none now b other s named apart =
      let (progress, reports) = record_orphan-spares now b s in
      (ap (λ p. lookup eqb_ℤ other p.runs) progress, ap (lookup eqb_ℤ other) reports)
  ingest_run-spares (some run) now b other s named apart =
      elim (Bool-cases (not (eqb_ℤ b.run_id (pos 0)) && not (eqb_ℤ b.run_id run))) [
        | inl stale ↦ simp stale (refl, refl)
        | inr current ↦
            let spared =
              ingest_valid-IsSpared fl grade run other (named_run b run other named apart current)
                (Progress.validate (progress_batch run b)) now b s in
            simp current (spared.progress, spared.report)
      ]

  -- A batch that names its run changes neither the working state nor the report of any other run,
  -- whichever run is current and however absorbing it ends.
  pub ingest_spares :
      (now : Time) (b : Batch F) (other : ℤ) (s : Control F)
      → eqb_ℤ b.run_id (pos 0) ≡ false
      → eqb_ℤ b.run_id other ≡ false
      → (lookup eqb_ℤ other (ingest fl grade now b s).1.progress.runs
          ≡ lookup eqb_ℤ other s.progress.runs)
        × (lookup eqb_ℤ other (ingest fl grade now b s).1.reports ≡ lookup eqb_ℤ other s.reports)
  unfolding ingest
  ingest_spares now b other s named apart =
      ingest_run-spares (lookup eqb_ℤ b.execution_id s.current_runs) now b other s named apart
