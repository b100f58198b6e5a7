-- ===== src/Report/Soak/Halves.antt =====
-- The two halves of a run's seconds.
use honryu.Base.{ℕ, suc, ◌≡◌, ap, sym, ◌∙◌, inl, inr, List, [], ◌∷◌, Bool-cases, ltb}
use honryu.Base.Ints.{ℤ, pos, ◌+ℤ◌, wrap64}
use honryu.Base.Wrap.{+ℤ_assoc, +ℤ_comm, +ℤ_zero, wrap64-+ℤ, wrap64-+ℤ-right, wrap64-wrap64}
use honryu.Base.Floats.{Float64}
use honryu.Report.Soak.{SecondMean, HalfSums, half_step, half_sums, no_halves}

module _ (fl : Float64) where
  open fl use {F}

  abbrev pub all_samples : List (SecondMean F) → ℤ
  all_samples [] = pos 0
  all_samples (sec ∷ sampled) = sec.samples +ℤ all_samples sampled

  abbrev pub both : HalfSums F → ℤ
  both h = wrap64 (h.first_n +ℤ h.second_n)

  both-half_step :
      (half i : ℕ) (sec : SecondMean F) (h : HalfSums F)
      → both (half_step fl half i sec h) ≡ wrap64 (h.first_n +ℤ h.second_n +ℤ sec.samples)
  unfolding half_step
  both-half_step half i sec h = elim (Bool-cases (ltb i half)) [
    | inl first ↦ rw first (
        wrap64-+ℤ (h.first_n +ℤ sec.samples) h.second_n
        ∙ ap wrap64 (
            +ℤ_assoc h.first_n sec.samples h.second_n
            ∙ ap (λ z. h.first_n +ℤ z) (+ℤ_comm sec.samples h.second_n)
            ∙ sym (+ℤ_assoc h.first_n h.second_n sec.samples)))
    | inr second ↦ rw second (
        wrap64-+ℤ-right h.first_n (h.second_n +ℤ sec.samples)
        ∙ ap wrap64 (sym (+ℤ_assoc h.first_n h.second_n sec.samples)))
  ]

  both-half_sums :
      (half i : ℕ) (h : HalfSums F) (sampled : List (SecondMean F))
      → both (half_sums fl half i h sampled) ≡ wrap64 (both h +ℤ all_samples sampled)
  unfolding half_sums
  both-half_sums half i h [] =
      sym (wrap64-wrap64 (h.first_n +ℤ h.second_n)) ∙ ap wrap64 (sym (+ℤ_zero (both h)))
  both-half_sums half i h (sec ∷ sampled) =
      both-half_sums half (suc i) (half_step fl half i sec h) sampled
      ∙ ap (λ z. wrap64 (z +ℤ all_samples sampled)) (both-half_step half i sec h)
      ∙ wrap64-+ℤ (h.first_n +ℤ h.second_n +ℤ sec.samples) (all_samples sampled)
      ∙ ap wrap64 (+ℤ_assoc (h.first_n +ℤ h.second_n) sec.samples (all_samples sampled))
      ∙ sym (wrap64-+ℤ (h.first_n +ℤ h.second_n) (sec.samples +ℤ all_samples sampled))

  -- Wherever a run is split, the two halves of its trend hold the samples of all its seconds, each
  -- once, with an `int64`'s wrap-around.
  pub half_sums_all :
      (half : ℕ) (sampled : List (SecondMean F))
      → both (half_sums fl half 0 (no_halves fl) sampled) ≡ wrap64 (all_samples sampled)
  unfolding wrap64 ◌+ℤ◌
  half_sums_all half sampled =
      both-half_sums half 0 (no_halves fl) sampled ∙ ap wrap64 (zeroes (all_samples sampled))
    where
      zeroes : (x : ℤ) → wrap64 (pos 0 +ℤ pos 0) +ℤ x ≡ x
      zeroes x = +ℤ_comm (pos 0) x ∙ +ℤ_zero x
