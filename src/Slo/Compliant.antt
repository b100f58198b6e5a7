-- ===== src/Slo/Compliant.antt =====
-- What a compliant budget says of its targets.
use honryu.Base.{
  ◌≡◌, ◌↔◌, refl, subst, Bool, true, false, ◌&&◌, [], ◌∷◌, Option, none, some, String, All,
  All-append, arith,
}
use honryu.Base.Ints.{pos}
use honryu.Base.Floats.{Float64}
use honryu.Slo.{
  Slo, Actual, MetricBudget, Budget, remaining, within, line, add_line, evaluate, no_lines,
  metric_p95_ms, metric_error_rate, metric_success_ratio,
}

both : (a b : Bool) → (a && b ≡ true) ↔ (a ≡ true) × (b ≡ true)
both a b = ground arith

module _ (fl : Float64) where
  open fl use {
    F, of_int, add, sub, mul, div, le, lt, le_total, sub_nonneg, sub_nonpos, zero_div, zero_mul,
    div_nonneg, mul_nonneg, div_mono, mul_mono_left, of_int_mono,
  }

  -- A target that is configured and measured is met from below, or from above.
  abbrev pub AtMost : Option F → Option F → Type 0
  AtMost target actual = (t got : F) → target ≡ some t → actual ≡ some got → le got t ≡ true

  abbrev pub AtLeast : Option F → Option F → Type 0
  AtLeast target actual = (t got : F) → target ≡ some t → actual ≡ some got → le t got ≡ true

  -- A configured target is above zero.
  abbrev pub Positive : Option F → Type 0
  Positive target = (t : F) → target ≡ some t → le t (of_int (pos 0)) ≡ false

  -- What remains of a line's budget has the sign that its compliance says.
  abbrev pub Agrees : MetricBudget F → Type 0
  Agrees m =
      (left : F)
      → m.budget_remaining_pct ≡ some left
      → (m.compliant ≡ true → le (of_int (pos 0)) left ≡ true)
        × (m.compliant ≡ false → le left (of_int (pos 0)) ≡ true)

  same_value : {x y : F} → some x ≡ some y → x ≡ y
  same_value e = cc

  not_configured : {x : F} → none ≡ some x → ⊥
  not_configured e = cc

  ceiling-compliant :
      (m : String) (target actual : Option F) (b : Budget F)
      → ((add_line fl m target actual true b).compliant ≡ true)
        ↔ (b.compliant ≡ true) × AtMost target actual
  unfolding add_line line within
  ceiling-compliant m none actual b = (λ h. (h, λ t got e. absurd (not_configured e)), λ (h, _). h)
  ceiling-compliant m (some t) none b = (
    λ h. (((both b.compliant true).0 h).0, λ u got e g. absurd (not_configured g)),
    λ (h, _). (both b.compliant true).1 (h, refl),
  )
  ceiling-compliant m (some t) (some x) b = (
    λ h. (
      ((both b.compliant (le x t)).0 h).0,
      λ u got e g.
          subst (λ y. le y u ≡ true) (same_value g)
            (subst (λ y. le x y ≡ true) (same_value e) (((both b.compliant (le x t)).0 h).1)),
    ),
    λ (h, k). (both b.compliant (le x t)).1 (h, k t x refl refl),
  )

  floor-compliant :
      (m : String) (target actual : Option F) (b : Budget F)
      → ((add_line fl m target actual false b).compliant ≡ true)
        ↔ (b.compliant ≡ true) × AtLeast target actual
  unfolding add_line line within
  floor-compliant m none actual b = (λ h. (h, λ t got e. absurd (not_configured e)), λ (h, _). h)
  floor-compliant m (some t) none b = (
    λ h. (((both b.compliant true).0 h).0, λ u got e g. absurd (not_configured g)),
    λ (h, _). (both b.compliant true).1 (h, refl),
  )
  floor-compliant m (some t) (some x) b = (
    λ h. (
      ((both b.compliant (le t x)).0 h).0,
      λ u got e g.
          subst (λ y. le u y ≡ true) (same_value g)
            (subst (λ y. le y x ≡ true) (same_value e) (((both b.compliant (le t x)).0 h).1)),
    ),
    λ (h, k). (both b.compliant (le t x)).1 (h, k t x refl refl),
  )

  -- A window is compliant exactly when each target that is configured and measured is met: the latency
  -- and the error rate at most their targets, the success ratio at least its own.
  pub evaluate-compliant :
      (s : Slo F) (actual : Actual F)
      → ((evaluate fl s actual).compliant ≡ true)
        ↔ AtMost s.target_p95_ms actual.p95_ms
          × AtMost s.target_error_rate actual.error_rate
          × AtLeast s.target_success_ratio actual.success_ratio
  unfolding evaluate
  evaluate-compliant s actual =
      let one : Budget F =
        add_line fl metric_p95_ms s.target_p95_ms actual.p95_ms true (no_lines fl) in
      let two : Budget F =
        add_line fl metric_error_rate s.target_error_rate actual.error_rate true one in
      let a = ceiling-compliant metric_p95_ms s.target_p95_ms actual.p95_ms (no_lines fl) in
      let b = ceiling-compliant metric_error_rate s.target_error_rate actual.error_rate one in
      let c =
        floor-compliant metric_success_ratio s.target_success_ratio actual.success_ratio two in
      (
        λ h.
            let (two_ok, ratio) = c.0 h in
            let (one_ok, rate) = b.0 two_ok in
            let (none_ok, latency) = a.0 one_ok in (latency, rate, ratio),
        λ (latency, rate, ratio). c.1 (b.1 (a.1 (refl, latency), rate), ratio),
      )

  zero : F
  zero = of_int (pos 0)

  -- A part of a target, as a percentage, has the sign of the part.
  share-nonneg :
      (x t : F)
      → le zero x ≡ true
      → le t zero ≡ false
      → le zero (mul (div x t) (of_int (pos 100))) ≡ true
  unfolding zero
  share-nonneg x t h k =
      mul_nonneg (div x t) (of_int (pos 100)) (div_nonneg x t h k)
        (of_int_mono (pos 0) (pos 100) (omega arith))

  share-nonpos :
      (x t : F)
      → le x zero ≡ true
      → le t zero ≡ false
      → le (mul (div x t) (of_int (pos 100))) zero ≡ true
  unfolding zero
  share-nonpos x t h k =
      subst (λ y. le (mul (div x t) (of_int (pos 100))) y ≡ true) (zero_mul (of_int (pos 100)))
        (mul_mono_left (div x t) zero (of_int (pos 100))
          (of_int_mono (pos 0) (pos 100) (omega arith))
          (subst (λ y. le (div x t) y ≡ true) (zero_div t k) (div_mono x zero t h k)))

  Agrees-line :
      (m : String) (t : F) (actual : Option F) (lower : Bool)
      → le t zero ≡ false
      → Agrees (line fl m t actual lower)
  unfolding line within remaining zero
  Agrees-line m t none lower h left e = absurd (not_configured e)
  Agrees-line m t (some x) true h left e =
      subst (λ y. (le x t ≡ true → le zero y ≡ true) × (le x t ≡ false → le y zero ≡ true))
        (same_value e)
        (
          λ met. share-nonneg (sub t x) t (sub_nonneg t x met) h,
          λ missed. share-nonpos (sub t x) t (sub_nonpos t x (le_total x t missed)) h,
        )
  Agrees-line m t (some x) false h left e =
      subst (λ y. (le t x ≡ true → le zero y ≡ true) × (le t x ≡ false → le y zero ≡ true))
        (same_value e)
        (
          λ met. share-nonneg (sub x t) t (sub_nonneg x t met) h,
          λ missed. share-nonpos (sub x t) t (sub_nonpos x t (le_total t x missed)) h,
        )

  add_line-Agrees :
      (m : String) (target actual : Option F) (lower : Bool) (b : Budget F)
      → Positive target
      → All Agrees b.metrics
      → All Agrees (add_line fl m target actual lower b).metrics
  unfolding add_line zero
  add_line-Agrees m none actual lower b h k = k
  add_line-Agrees m (some t) actual lower b h k =
      All-append Agrees b.metrics (line fl m t actual lower ∷ []) k
        (Agrees-line m t actual lower (h t refl), tt)

  -- Where the targets are above zero, a line that is compliant has none or more of its budget remaining,
  -- and one that is not has none or less.
  pub evaluate-Agrees :
      (s : Slo F) (actual : Actual F)
      → Positive s.target_p95_ms
      → Positive s.target_error_rate
      → Positive s.target_success_ratio
      → All Agrees (evaluate fl s actual).metrics
  unfolding evaluate
  evaluate-Agrees s actual p e r =
      let one : Budget F =
        add_line fl metric_p95_ms s.target_p95_ms actual.p95_ms true (no_lines fl) in
      let two : Budget F =
        add_line fl metric_error_rate s.target_error_rate actual.error_rate true one in
      add_line-Agrees metric_success_ratio s.target_success_ratio actual.success_ratio false two r (
        add_line-Agrees metric_error_rate s.target_error_rate actual.error_rate true one e
          (add_line-Agrees metric_p95_ms s.target_p95_ms actual.p95_ms true (no_lines fl) p tt))
