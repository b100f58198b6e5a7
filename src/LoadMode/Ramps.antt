-- ===== src/LoadMode/Ramps.antt =====
-- `ParseMode`, `RampupSeconds` and `Concurrency`.
use honryu.Base.{ℕ, ◌*◌, ◌≤◌, ◌≡◌, ◌⊎◌, String, str_eq_iff, arith, ok, ◌↔◌}
use honryu.Base.Ints.{ℤ, pos, pos_part, ◌≤ℤ◌}
use honryu.Base.Floats.{Float64}
use honryu.LoadMode.{mode_burst, mode_ramp, mode_soak, mode_staircase, parse_mode, rampup_seconds}
use honryu.LoadMode.Sizing.{concurrency}

-- A ramp-up is never negative, never longer than ten minutes, and there is one only for a soak (a
-- minute) and for a ramp (at least a minute).
pub rampup_seconds_bounds :
    (m : String) (d : ℤ)
    → let r = rampup_seconds m d in
      (pos 0 ≤ℤ r)
      × (r ≤ℤ pos 600)
      × ((r ≡ pos 0) ⊎ ((m ≡ mode_soak) × (r ≡ pos 60)) ⊎ ((m ≡ mode_ramp) × (pos 60 ≤ℤ r)))
unfolding rampup_seconds
rampup_seconds_bounds m d =
    ground (arith, str_eq_iff m mode_soak, str_eq_iff m mode_ramp, str_eq_iff m mode_burst)

-- The ramp of a window of at least five minutes takes at most a fifth of it.
pub ramp_fifth : (d : ℕ) → 300 ≤ d → 5 * pos_part (rampup_seconds mode_ramp (pos d)) ≤ d
unfolding rampup_seconds
ramp_fifth d h = ground arith

-- `ParseMode` accepts exactly the four named modes, unchanged.
pub parse_mode_named :
    (s t : String)
    → (parse_mode s ≡ ok t)
      ↔ ((t ≡ s) × ((s ≡ mode_burst) ⊎ (s ≡ mode_ramp) ⊎ (s ≡ mode_soak) ⊎ (s ≡ mode_staircase)))
unfolding parse_mode
parse_mode_named s t = (
  (λ h. ground (
    arith,
    str_eq_iff s mode_soak,
    str_eq_iff s mode_ramp,
    str_eq_iff s mode_burst,
    str_eq_iff s mode_staircase,
  )),
  (λ h. ground (
    arith,
    str_eq_iff s mode_soak,
    str_eq_iff s mode_ramp,
    str_eq_iff s mode_burst,
    str_eq_iff s mode_staircase,
  )),
)

-- At least twenty users are ever asked for.
pub concurrency_above_floor : (fl : Float64) (qps hint : fl.F) → pos 20 ≤ℤ concurrency fl qps hint
unfolding concurrency
concurrency_above_floor fl qps hint = ground arith
