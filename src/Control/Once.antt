-- ===== src/Control/Once.antt =====
-- The report and the notification of a run that ends more than once.
use honryu.Base.{
  ◌≡◌, refl, ap, sym, ◌∙◌, subst, inl, inr, true, [], Option, none, some, String, Bool-cases,
}
use honryu.Base.Ints.{ℤ, eqb_ℤ}
use honryu.Base.Floats.{Float64}
use honryu.Base.Maps.{lookup_or, lookup, store}
use honryu.Base.Times.{Time}
use honryu.Execution.{Execution}
use honryu.Progress.{ProgressError, discard}
use honryu.Taurus.{Outcome}
use honryu.Report.Summary.{Report, ReportError, Meta, report, validate}
use honryu.Control.{Control, StepResult, RunRecord, and_then}
use honryu.Control.Finalize.{
  save_checked, save_report, got_report, announce, discarded, clean_up, close_current, close_run,
  end_record, stop_current, stop_run, final_report, has_named_cluster, tally_rows, meta_of,
  finalize_with, finalize_found, finalize,
}

module _ (fl : Float64) (grade : Report fl.F → Option String) where
  open fl use {F}

  abbrev SameReports : Control F → StepResult F → Type 0
  SameReports s r = (r.1.reports ≡ s.reports) × (r.1.notified ≡ s.notified)

  save_checked-kept :
      (fails : Option String) (invalid : Option ReportError) (rep old : Report F) (s : Control F)
      → SameReports s (save_checked fl fails invalid (some old) rep s)
  unfolding save_checked
  save_checked-kept (some e) invalid rep old s = (refl, refl)
  save_checked-kept none (some e) rep old s = (refl, refl)
  save_checked-kept none none rep old s = (refl, refl)

  -- A run's first report is kept.
  save_report-kept :
      (rep old : Report F) (s : Control F)
      → lookup eqb_ℤ rep.identity.run_id s.reports ≡ some old
      → SameReports s (save_report fl rep s)
  unfolding save_report
  save_report-kept rep old s h =
      subst (λ o. SameReports s (save_checked fl s.save_fails (validate rep) o rep s)) (sym h)
        (save_checked-kept s.save_fails (validate rep) rep old s)

  end_record-reports :
      (now : Time) (run : ℤ) (o : Option RunRecord) (s : Control F)
      → ((end_record fl now run o s).reports ≡ s.reports)
        × ((end_record fl now run o s).notified ≡ s.notified)
  unfolding end_record
  end_record-reports now run none s = (refl, refl)
  end_record-reports now run (some rec) s = (refl, refl)

  stop_current-reports :
      (now : Time) (execution : ℤ) (o : Option ℤ) (s : Control F)
      → ((stop_current fl now execution o s).reports ≡ s.reports)
        × ((stop_current fl now execution o s).notified ≡ s.notified)
  unfolding stop_current
  stop_current-reports now execution none s = (refl, refl)
  stop_current-reports now execution (some run) s =
      end_record-reports now run (lookup eqb_ℤ run s.run_history) s

  close_current-reports :
      (now : Time) (execution run : ℤ) (o : Option ℤ) (s : Control F)
      → ((close_current fl now execution run o s).reports ≡ s.reports)
        × ((close_current fl now execution run o s).notified ≡ s.notified)
  unfolding close_current stop_run
  close_current-reports now execution run none s = (refl, refl)
  close_current-reports now execution run (some current) s = elim (Bool-cases (eqb_ℤ current run)) [
    | inl same ↦
        simp same (stop_current-reports now execution (lookup eqb_ℤ execution s.current_runs) s)
    | inr other ↦ simp other (refl, refl)
  ]

  discarded-reports :
      (now : Time) (execution run : ℤ) (e : Option ProgressError) (s : Control F)
      → SameReports s (discarded fl now execution run e s)
  unfolding discarded close_run
  discarded-reports now execution run (some e) s = (refl, refl)
  discarded-reports now execution run none s =
      close_current-reports now execution run (lookup eqb_ℤ execution s.current_runs)
        (record s { last_activity = store eqb_ℤ execution now s.last_activity })

  clean_up-reports :
      (now : Time) (execution run : ℤ) (s : Control F)
      → SameReports s (clean_up fl now execution run s)
  unfolding clean_up
  clean_up-reports now execution run s =
      discarded-reports now execution run (discard run s.progress).0
        (record s { progress = (discard run s.progress).1 })

  and_then-SameReports :
      (s : Control F) (r : StepResult F) (next : Control F → StepResult F)
      → SameReports s r
      → ((t : Control F) → SameReports t (next t))
      → SameReports s (and_then r next)
  and_then-SameReports s (some e, t) next h k = h
  and_then-SameReports s (none, t) next h k = ((k t).0 ∙ h.0, (k t).1 ∙ h.1)

  announce-again :
      (graded : Option String) (project : ℤ) (rep : Report F) (t : Control F)
      → SameReports t (announce fl true graded project rep t)
  unfolding announce
  announce-again graded project rep t = (refl, refl)

  finalize_with-again :
      (now : Time) (execution run : ℤ) (exe : Execution) (rep old : Report F) (s : Control F)
      → rep.identity.run_id ≡ run
      → s.get_fails ≡ none
      → lookup eqb_ℤ run s.reports ≡ some old
      → SameReports s (finalize_with fl grade now execution run exe rep s)
  unfolding finalize_with got_report
  finalize_with-again now execution run exe rep old s same reads there =
      let got : got_report fl s.get_fails (lookup eqb_ℤ run s.reports) ≡ true =
        ap (λ g. got_report fl g (lookup eqb_ℤ run s.reports)) reads
        ∙ ap (got_report fl none) there in
      subst
        (λ again. SameReports s (
          and_then
            (and_then (save_report fl rep s) (announce fl again (grade rep) exe.project_id rep))
            (clean_up fl now execution run)))
        (sym got)
        (and_then-SameReports s
          (and_then (save_report fl rep s) (announce fl true (grade rep) exe.project_id rep))
          (clean_up fl now execution run)
          (and_then-SameReports s (save_report fl rep s)
            (announce fl true (grade rep) exe.project_id rep)
            (save_report-kept rep old s (ap (λ r. lookup eqb_ℤ r s.reports) same ∙ there))
            (announce-again (grade rep) exe.project_id rep))
          (clean_up-reports now execution run))

  pub final_report-identity : (m : Meta F) (s : Control F) → (final_report fl m s).identity ≡ m
  unfolding final_report report
  final_report-identity m s =
      elim (Bool-cases (has_named_cluster (tally_rows m.outcome m.run_id s.tally))) [
        | inl named ↦ simp named refl
        | inr other ↦ simp other refl
      ]

  finalize_found-again :
      (now : Time) (execution run : ℤ) (outcome : Outcome) (rec : Option RunRecord)
      (exe : Option Execution) (old : Report F) (s : Control F)
      → s.get_fails ≡ none
      → lookup eqb_ℤ run s.reports ≡ some old
      → SameReports s (finalize_found fl grade now execution run outcome rec exe s)
  unfolding finalize_found meta_of
  finalize_found-again now execution run outcome none exe old s reads there = (refl, refl)
  finalize_found-again now execution run outcome (some rec) none old s reads there = (refl, refl)
  finalize_found-again now execution run outcome (some rec) (some exe) old s reads there =
      let m : Meta F =
        meta_of fl execution run outcome now (lookup_or eqb_ℤ [] execution s.profiles) rec exe in
      finalize_with-again now execution run exe (final_report fl m s) old s
        (ap (λ i. i.run_id) (final_report-identity m s)) reads there

  -- However a run that has a report ends again, by its last batch or by a stop, its report is the one
  -- that it has, and nobody is notified again, where the report can be read.
  pub finalize_again :
      (now : Time) (execution run : ℤ) (outcome : Outcome) (old : Report F) (s : Control F)
      → s.get_fails ≡ none
      → lookup eqb_ℤ run s.reports ≡ some old
      → ((finalize fl grade now execution run outcome s).1.reports ≡ s.reports)
        × ((finalize fl grade now execution run outcome s).1.notified ≡ s.notified)
  unfolding finalize
  finalize_again now execution run outcome old s reads there =
      finalize_found-again now execution run outcome (lookup eqb_ℤ run s.run_history)
        (lookup eqb_ℤ execution s.executions) old s reads there
