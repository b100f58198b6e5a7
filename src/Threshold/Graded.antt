-- ===== src/Threshold/Graded.antt =====
-- How a threshold grades a report.
use honryu.Base.{
  ◌≡◌, ◌↔◌, ◌⊎◌, refl, sym, ◌∙◌, subst, inl, inr, Bool, true, false, Option, none, some, String,
  str_eq, str_eq_iff, Bool-cases, arith, if◌then◌else◌,
}
use honryu.Base.Ints.{pos}
use honryu.Base.Floats.{Float64}
use honryu.Base.Maps.{lookup}
use honryu.Base.Text.{Text, chars}
use honryu.Base.Times.{Time}
use honryu.Report.Summary.{Report}
use honryu.Threshold.{
  Threshold, Result, Observed, figure, missing, validate, metric_valid, comparison_valid, observe,
  observe_latency, is_satisfied, grade_observed, ungraded, evaluate, metric_http_p95_ms,
  metric_http_p99_ms, metric_error_rate, metric_throughput_qps, comparison_lt, comparison_gt,
}

module _ (fl : Float64) where
  open fl use {F, of_int, mul, lt, eqb}

  in_ms : Option F → Option F
  in_ms none = none
  in_ms (some secs) = some (mul secs (of_int (pos 1000)))

  -- The figure of a metric in a report, or `none` where the report lacks it.
  unfoldable pub figure_of : Report F → String → Option F
  unfolding in_ms
  figure_of rep m =
      if str_eq m metric_http_p95_ms
      then in_ms (lookup eqb (of_int (pos 95)) rep.latency)
      else if str_eq m metric_http_p99_ms
      then in_ms (lookup eqb (of_int (pos 99)) rep.latency)
      else if str_eq m metric_error_rate
      then some rep.error_rate
      else some rep.achieved.throughput

  -- A grade: none without a figure, else whether the figure is on the side of the bound that the
  -- comparison names.
  abbrev pub IsStrict : Threshold F → Option F → Result F → Type 0
  IsStrict t none res = (res.observed ≡ none) × (res.satisfied ≡ none)
  IsStrict t (some x) res =
      (met : Bool) × (res.observed ≡ some x)
      × (res.satisfied ≡ some met)
      × ((met ≡ true)
          ↔ ((t.comparison ≡ comparison_lt) × (lt x t.value ≡ true))
            ⊎ ((t.comparison ≡ comparison_gt) × (lt t.value x ≡ true)))

  figure_in : Observed F → Option F
  figure_in (missing why) = none
  figure_in (figure x) = some x

  figure_in-latency : (why : Text) (o : Option F) → figure_in (observe_latency fl why o) ≡ in_ms o
  unfolding figure_in observe_latency in_ms
  figure_in-latency why none = refl
  figure_in-latency why (some secs) = refl

  figure_in-observe :
      (rep : Report F) (m : String)
      → metric_valid m ≡ true
      → figure_in (observe fl rep m) ≡ figure_of rep m
  unfolding observe figure_of metric_valid figure_in
  figure_in-observe rep m valid = elim (Bool-cases (str_eq m metric_http_p95_ms)) [
    | inl p95 ↦ simp p95 (
        figure_in-latency (chars "no p95 latency in the report")
          (lookup eqb (of_int (pos 95)) rep.latency))
    | inr a ↦ elim (Bool-cases (str_eq m metric_http_p99_ms)) [
      | inl p99 ↦
          simp (a, p99)
            (figure_in-latency (chars "no p99 latency in the report")
              (lookup eqb (of_int (pos 99)) rep.latency))
      | inr b ↦ elim (Bool-cases (str_eq m metric_error_rate)) [
        | inl rate ↦ simp (a, b, rate) refl
        | inr c ↦ simp (a, b, c, last a b c) refl
      ]
    ]
  ]
    where
      last :
          str_eq m metric_http_p95_ms ≡ false
          → str_eq m metric_http_p99_ms ≡ false
          → str_eq m metric_error_rate ≡ false
          → str_eq m metric_throughput_qps ≡ true
      last a b c = ground arith

  validate-valid :
      (t : Threshold F)
      → validate fl t ≡ none
      → (metric_valid t.metric ≡ true) × (comparison_valid t.comparison ≡ true)
  unfolding validate
  validate-valid t h = ground arith

  one_direction : (c : String) → c ≡ comparison_lt → c ≡ comparison_gt → ⊥
  one_direction c e g = differ ((str_eq_iff comparison_lt comparison_gt).1 (sym e ∙ g))
    where
      differ : str_eq comparison_lt comparison_gt ≡ true → ⊥
      differ h = cc

  is_satisfied-strict :
      (t : Threshold F) (x : F)
      → comparison_valid t.comparison ≡ true
      → (is_satisfied fl t.comparison x t.value ≡ true)
        ↔ ((t.comparison ≡ comparison_lt) × (lt x t.value ≡ true))
          ⊎ ((t.comparison ≡ comparison_gt) × (lt t.value x ≡ true))
  unfolding is_satisfied comparison_valid
  is_satisfied-strict t x h = ground (
    arith,
    str_eq_iff t.comparison comparison_lt,
    str_eq_iff t.comparison comparison_gt,
    one_direction t.comparison,
  )

  grade_observed-IsStrict :
      (t : Threshold F) (rep : Report F) (now : Time) (o : Observed F)
      → comparison_valid t.comparison ≡ true
      → IsStrict t (figure_in o) (grade_observed fl t (ungraded fl t rep now) o)
  unfolding grade_observed figure_in
  grade_observed-IsStrict t rep now (missing why) h = (refl, refl)
  grade_observed-IsStrict t rep now (figure x) h =
      (is_satisfied fl t.comparison x t.value, refl, refl, is_satisfied-strict t x h)

  -- A valid threshold grades a report by its figure for the metric: met exactly when the figure is
  -- strictly below the bound of `lt`, or strictly above that of `gt`, and without a grade when the
  -- report has no figure.
  pub evaluate-IsStrict :
      (t : Threshold F) (rep : Report F) (now : Time)
      → validate fl t ≡ none
      → IsStrict t (figure_of rep t.metric) (evaluate fl t rep now)
  unfolding evaluate
  evaluate-IsStrict t rep now h =
      let (metric, comparison) = validate-valid t h in
      subst (λ o. IsStrict t o (evaluate fl t rep now)) (figure_in-observe rep t.metric metric)
        (grade_observed-IsStrict t rep now (observe fl rep t.metric) comparison)
