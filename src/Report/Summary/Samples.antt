-- ===== src/Report/Summary/Samples.antt =====
-- The samples that a report counts.
use honryu.Base.{
  ◌≡◌, refl, ap, sym, ◌∙◌, inl, inr, List, [], ◌∷◌, String, str_eq, Bool-cases, if◌then◌else◌,
}
use honryu.Base.Ints.{ℤ, pos, ◌+ℤ◌, wrap64}
use honryu.Base.Wrap.{+ℤ_assoc, +ℤ_comm, +ℤ_zero, wrap64-+ℤ, wrap64-+ℤ-right, wrap64-wrap64}
use honryu.Base.Floats.{Float64}
use honryu.Base.Maps.{lookup_or, store, update-here, update-there}
use honryu.Metrics.{Interval}
use honryu.Report.{total_label}
use honryu.Report.Accumulator.{
  LabelState, Accumulator, new_accumulator, add_interval, add_label, no_label,
}
use honryu.Report.Series.Sums.{sum_all, reading-loop}
use honryu.Report.Summary.{Meta, add_totals, totals_from, no_totals, report, build, add_intervals}

module _ (fl : Float64) where
  open fl use {F}

  -- The samples of an interval that are counted: those of the engine's aggregate are not.
  abbrev pub counted : Interval F → ℤ
  counted iv = if str_eq iv.label total_label then pos 0 else iv.samples

  abbrev of_state : String × LabelState F → ℤ
  of_state l = l.1.samples

  sum-add_label :
      (iv : Interval F) (labels : List (String × LabelState F))
      → wrap64 (
          sum_all of_state (
            store str_eq iv.label
              (add_label fl iv (lookup_or str_eq no_label iv.label labels))
              labels))
        ≡ wrap64 (sum_all of_state labels +ℤ iv.samples)
  unfolding add_label store lookup_or
  sum-add_label iv [] =
      wrap64-+ℤ (pos 0 +ℤ iv.samples) (pos 0) ∙ ap wrap64 (+ℤ_zero (pos 0 +ℤ iv.samples))
  sum-add_label iv ((j, st) ∷ labels) = elim (Bool-cases (str_eq j iv.label)) [
    | inl here ↦
        ap (λ m. wrap64 (sum_all of_state m))
          (update-here str_eq (add_label fl iv) no_label iv.label j st labels here)
        ∙ wrap64-+ℤ (st.samples +ℤ iv.samples) (sum_all of_state labels)
        ∙ ap wrap64 (
            +ℤ_assoc st.samples iv.samples (sum_all of_state labels)
            ∙ ap (λ z. st.samples +ℤ z) (+ℤ_comm iv.samples (sum_all of_state labels))
            ∙ sym (+ℤ_assoc st.samples (sum_all of_state labels) iv.samples))
    | inr elsewhere ↦
        ap (λ m. wrap64 (sum_all of_state m))
          (update-there str_eq (add_label fl iv) no_label iv.label j st labels elsewhere)
        ∙ sym (
            wrap64-+ℤ-right st.samples (
              sum_all of_state (
                store str_eq iv.label (add_label fl iv (lookup_or str_eq no_label iv.label labels))
                  labels)))
        ∙ ap (λ z. wrap64 (st.samples +ℤ z)) (sum-add_label iv labels)
        ∙ wrap64-+ℤ-right st.samples (sum_all of_state labels +ℤ iv.samples)
        ∙ ap wrap64 (sym (+ℤ_assoc st.samples (sum_all of_state labels) iv.samples))
  ]

  abbrev measured : Accumulator F → ℤ
  measured a = wrap64 (sum_all of_state a.labels)

  measured-add_interval :
      (iv : Interval F) (a : Accumulator F)
      → measured (add_interval fl iv a) ≡ wrap64 (measured a +ℤ counted iv)
  unfolding add_interval
  measured-add_interval iv a = elim (Bool-cases (str_eq iv.label total_label)) [
    | inl whole ↦
        rw whole
          (sym (wrap64-wrap64 (sum_all of_state a.labels)) ∙ ap wrap64 (sym (+ℤ_zero (measured a))))
    | inr request ↦
        rw request
          (sum-add_label iv a.labels ∙ sym (wrap64-+ℤ (sum_all of_state a.labels) iv.samples))
  ]

  totals_from-samples :
      (labels : List (String × LabelState F))
      → (totals_from fl (no_totals fl) labels).samples ≡ wrap64 (pos 0 +ℤ sum_all of_state labels)
  unfolding totals_from add_totals wrap64
  totals_from-samples labels =
      reading-loop (λ t. t.samples) (λ l t. add_totals fl l.1 t) of_state (λ l t h. refl)
        (totals_from fl) (λ t. refl) (λ t l ls. refl) labels (no_totals fl) refl

  zeroes : (x : ℤ) → pos 0 +ℤ x ≡ x
  zeroes x = +ℤ_comm (pos 0) x ∙ +ℤ_zero x

  -- A report counts the samples of every request's intervals, each once and those of the engine's own
  -- aggregate never, with an `int64`'s wrap-around.
  pub build-samples :
      (m : Meta F) (ivs : List (Interval F))
      → (build fl m ivs).achieved.samples ≡ wrap64 (sum_all counted ivs)
  unfolding build report add_intervals
  build-samples m ivs =
      totals_from-samples (add_intervals fl new_accumulator ivs).labels
      ∙ ap wrap64 (zeroes (sum_all of_state (add_intervals fl new_accumulator ivs).labels))
      ∙ reading-loop measured (add_interval fl) counted (λ iv a h. measured-add_interval iv a)
          (add_intervals fl) (λ a. refl) (λ a iv ivs. refl) ivs new_accumulator
          (wrap64-wrap64 (pos 0))
      ∙ wrap64-+ℤ (pos 0) (sum_all counted ivs)
      ∙ ap wrap64 (zeroes (sum_all counted ivs))
