-- ===== src/Control/Ends.antt =====
-- A run that ends, where its stores work.
use honryu.Base.{
  ◌≡◌, refl, ap, sym, ◌∙◌, subst, Bool, true, false, List, [], Option, none, some, String, arith,
}
use honryu.Base.Ints.{ℤ, eqb_ℤ, eqb_ℤ_iff, nonpos}
use honryu.Base.Floats.{Float64}
use honryu.Base.Maps.{lookup, lookup_or, store, delete, lookup-same, lookup-delete}
use honryu.Base.Times.{Time}
use honryu.Execution.{Execution}
use honryu.Progress.{ReportProgress, discard, discard_with}
use honryu.Taurus.{Outcome}
use honryu.Report.Summary.{Report, Meta, validate}
use honryu.Control.{Control, StepResult, RunRecord, and_then}
use honryu.Control.Finalize.{
  save_checked, save_report, announce, discarded, clean_up, close_current, close_run, end_record,
  stop_current, stop_run, final_report, meta_of, finalize_with, finalize_found, finalize,
  got_report,
}
use honryu.Control.Once.{final_report-identity}

deleted : {V : Type 0} (k : ℤ) (m : List (ℤ × V)) → lookup eqb_ℤ k (delete eqb_ℤ k m) ≡ none
deleted k m = ground (arith, lookup-delete eqb_ℤ eqb_ℤ_iff k k m, eqb_ℤ_iff k k)

module _ (fl : Float64) (grade : Report fl.F → Option String) (execution run : ℤ) where
  open fl use {F}

  -- The run has its report, and is the one that the execution runs.
  record IsSaved (r : StepResult F) : Type 0 where
    pub works : r.0 ≡ none
    pub report : (rep : Report F) × (lookup eqb_ℤ run r.1.reports ≡ some rep)
    pub current : lookup eqb_ℤ execution r.1.current_runs ≡ some run
    pub discards : r.1.progress.discard_fails ≡ none

  -- The run is over: it has its report, its working state is gone, and the execution runs nothing.
  pub record IsOver (r : StepResult F) : Type 0 where
    pub works : r.0 ≡ none
    pub report : (rep : Report F) × (lookup eqb_ℤ run r.1.reports ≡ some rep)
    pub current : lookup eqb_ℤ execution r.1.current_runs ≡ none
    pub progress : lookup eqb_ℤ run r.1.progress.runs ≡ none

  save_checked-IsSaved :
      (o : Option (Report F)) (rep : Report F) (s : Control F)
      → rep.identity.run_id ≡ run
      → lookup eqb_ℤ run s.reports ≡ o
      → lookup eqb_ℤ execution s.current_runs ≡ some run
      → s.progress.discard_fails ≡ none
      → IsSaved (save_checked fl none none o rep s)
  unfolding save_checked
  save_checked-IsSaved (some old) rep s same there current discards = record {
    works = refl;
    report = (old, there);
    current = current;
    discards = discards;
  }
  save_checked-IsSaved none rep s same there current discards =
      let kept : Report F = record rep { starred = false; note = [] } in
      record {
        works = refl;
        report = (
          kept,
          ap (λ r. lookup eqb_ℤ run (store eqb_ℤ r kept s.reports)) same
              ∙ lookup-same eqb_ℤ eqb_ℤ_iff run kept s.reports,
        );
        current = current;
        discards = discards;
      }

  announce-IsSaved :
      (again : Bool) (project : ℤ) (rep : Report F) (t : Control F)
      → IsSaved (none, t)
      → IsSaved (announce fl again none project rep t)
  unfolding announce
  announce-IsSaved true project rep t h = h
  announce-IsSaved false project rep t h = record {
    works = refl;
    report = h.report;
    current = h.current;
    discards = h.discards;
  }

  -- What is done after a saved report, to its state.
  and_then-IsSaved :
      (r : StepResult F) (next : Control F → StepResult F) (P : StepResult F → Type 0)
      → IsSaved r
      → ((t : Control F) → IsSaved (none, t) → P (next t))
      → P (and_then r next)
  and_then-IsSaved (some e, t) next P h k = absurd (none_some h.works)
    where
      none_some : some e ≡ none → ⊥
      none_some e = cc
  and_then-IsSaved (none, t) next P h k = k t h

  -- The execution runs nothing, and nothing else that the end of a run needs has changed.
  record IsClosed (s t : Control F) : Type 0 where
    pub current : lookup eqb_ℤ execution t.current_runs ≡ none
    pub reports : t.reports ≡ s.reports
    pub progress : t.progress ≡ s.progress

  end_record-kept :
      (now : Time) (o : Option RunRecord) (s : Control F)
      → ((end_record fl now run o s).reports ≡ s.reports)
        × ((end_record fl now run o s).progress ≡ s.progress)
  unfolding end_record
  end_record-kept now none s = (refl, refl)
  end_record-kept now (some rec) s = (refl, refl)

  close_run-IsClosed :
      (now : Time) (s : Control F)
      → lookup eqb_ℤ execution s.current_runs ≡ some run
      → IsClosed s (close_run fl now execution run s)
  unfolding close_run close_current stop_run stop_current
  close_run-IsClosed now s h =
      subst (λ o. IsClosed s (close_current fl now execution run o s)) (sym h)
        (simp ((eqb_ℤ_iff run run).1 refl) (
          subst (λ o. IsClosed s (stop_current fl now execution o s)) (sym h)
            (record {
              current = deleted execution s.current_runs;
              reports = (end_record-kept now (lookup eqb_ℤ run s.run_history) s).0;
              progress = (end_record-kept now (lookup eqb_ℤ run s.run_history) s).1;
            })))

  clean_up-IsOver :
      (now : Time) (s : Control F) → IsSaved (none, s) → IsOver (clean_up fl now execution run s)
  unfolding clean_up discard
  clean_up-IsOver now s h =
      let gone : ReportProgress _ _ = record s.progress {
        runs = delete eqb_ℤ run s.progress.runs;
      } in
      let dropped : Control F = record s { progress = gone } in
      let touched : Control F = record dropped {
        last_activity = store eqb_ℤ execution now s.last_activity;
      } in
      let closed = close_run-IsClosed now touched h.current in
      subst
        (λ o. IsOver (
          let (e, progress) = discard_with o run s.progress in
          discarded fl now execution run e (record s { progress = progress })))
        (sym h.discards)
        (unfold discarded in
          record {
            works = refl;
            report = (h.report.0, ap (lookup eqb_ℤ run) closed.reports ∙ h.report.1);
            current = closed.current;
            progress =
                ap (λ p. lookup eqb_ℤ run p.runs) closed.progress ∙ deleted run s.progress.runs;
          })

  finalize_with-IsOver :
      (now : Time) (exe : Execution) (rep : Report F) (s : Control F)
      → rep.identity.run_id ≡ run
      → validate rep ≡ none
      → grade rep ≡ none
      → s.save_fails ≡ none
      → s.progress.discard_fails ≡ none
      → lookup eqb_ℤ execution s.current_runs ≡ some run
      → IsOver (finalize_with fl grade now execution run exe rep s)
  unfolding finalize_with save_report
  finalize_with-IsOver now exe rep s same valid graded saves discards current =
      let again : Bool = got_report fl s.get_fails (lookup eqb_ℤ run s.reports) in
      let saved : IsSaved (save_report fl rep s) =
        subst
          (λ o.
            IsSaved
              (save_checked fl o (validate rep) (lookup eqb_ℤ rep.identity.run_id s.reports) rep s))
          (sym saves)
          (subst
            (λ o.
              IsSaved (save_checked fl none o (lookup eqb_ℤ rep.identity.run_id s.reports) rep s))
            (sym valid)
            (save_checked-IsSaved (lookup eqb_ℤ rep.identity.run_id s.reports) rep s same
              (ap (λ r. lookup eqb_ℤ r s.reports) (sym same)) current discards)) in
      and_then-IsSaved
        (and_then (save_report fl rep s) (announce fl again (grade rep) exe.project_id rep))
        (clean_up fl now execution run) IsOver
        (and_then-IsSaved (save_report fl rep s) (announce fl again (grade rep) exe.project_id rep)
          IsSaved saved
          (λ t h.
            subst (λ g. IsSaved (announce fl again g exe.project_id rep t)) (sym graded)
              (announce-IsSaved again exe.project_id rep t h)))
        (clean_up-IsOver now)

  valid_of :
      (rep : Report F) (m : Meta F)
      → rep.identity ≡ m
      → nonpos m.execution_id ≡ false
      → nonpos m.run_id ≡ false
      → validate rep ≡ none
  unfolding validate
  valid_of rep m same h k =
      simp (ap (λ i. nonpos i.execution_id) same ∙ h, ap (λ i. nonpos i.run_id) same ∙ k) refl

  finalize_found-IsOver :
      (now : Time) (outcome : Outcome) (rec : RunRecord) (exe : Execution) (s : Control F)
      → ((rep : Report F) → grade rep ≡ none)
      → nonpos execution ≡ false
      → nonpos run ≡ false
      → s.save_fails ≡ none
      → s.progress.discard_fails ≡ none
      → lookup eqb_ℤ execution s.current_runs ≡ some run
      → IsOver (finalize_found fl grade now execution run outcome (some rec) (some exe) s)
  unfolding finalize_found meta_of
  finalize_found-IsOver now outcome rec exe s graded he hr saves discards current =
      let m : Meta F =
        meta_of fl execution run outcome now (lookup_or eqb_ℤ [] execution s.profiles) rec exe in
      let rep : Report F = final_report fl m s in
      let same : rep.identity ≡ m = final_report-identity fl grade m s in
      finalize_with-IsOver now exe rep s (ap (λ i. i.run_id) same) (valid_of rep m same he hr)
        (graded rep) saves discards current

  -- A run that is finalised, as the execution's current one and with stores and a grader that work,
  -- is over: it has a report, its working state is discarded and the execution runs nothing.
  pub finalize-IsOver :
      (now : Time) (outcome : Outcome) (rec : RunRecord) (exe : Execution) (s : Control F)
      → ((rep : Report F) → grade rep ≡ none)
      → nonpos execution ≡ false
      → nonpos run ≡ false
      → s.save_fails ≡ none
      → s.progress.discard_fails ≡ none
      → lookup eqb_ℤ execution s.current_runs ≡ some run
      → lookup eqb_ℤ run s.run_history ≡ some rec
      → lookup eqb_ℤ execution s.executions ≡ some exe
      → IsOver (finalize fl grade now execution run outcome s)
  unfolding finalize
  finalize-IsOver now outcome rec exe s graded he hr saves discards current history known =
      subst
        (λ o. IsOver (
          finalize_found fl grade now execution run outcome o (lookup eqb_ℤ execution s.executions)
            s))
        (sym history)
        (subst (λ o. IsOver (finalize_found fl grade now execution run outcome (some rec) o s))
          (sym known)
          (finalize_found-IsOver now outcome rec exe s graded he hr saves discards current))
