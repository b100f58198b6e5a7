-- ===== src/LoadMode.antt =====
-- internal/domain/loadmode/loadmode.go. A mode is the text that the wire carries.
pub mod Staircase
pub mod Sizing
pub mod Plateaus
pub mod Rise
pub mod Ramps
use honryu.Base.{
  ℕ, zero, suc, ◌+◌, ◌≡◌, Bool, true, false, ◌||◌, List, [], ◌∷◌, String, str_eq, if◌then◌else◌,
  Result, ok, err,
}
use honryu.Base.Ints.{ℤ, pos, ltb_ℤ, quot}

abbrev pub mode_burst : String
mode_burst = "burst"

abbrev pub mode_ramp : String
mode_ramp = "ramp"

abbrev pub mode_soak : String
mode_soak = "soak"

abbrev pub mode_staircase : String
mode_staircase = "staircase"

pub data ModeError : Type 0 where
  mode_invalid : ModeError

unfoldable pub valid : String → Bool
valid m = str_eq m mode_burst || str_eq m mode_ramp || str_eq m mode_soak || str_eq m mode_staircase

unfoldable pub parse_mode : String → Result ModeError String
unfolding valid
parse_mode s = if valid s then ok s else err mode_invalid

abbrev pub ramp_window_divisor : ℕ
ramp_window_divisor = 5

abbrev pub ramp_min_seconds : ℕ
ramp_min_seconds = 60

abbrev pub ramp_max_seconds : ℕ
ramp_max_seconds = 600

abbrev pub soak_warmup_seconds : ℕ
soak_warmup_seconds = 60

abbrev pub staircase_steps_min : ℕ
staircase_steps_min = 2

abbrev pub staircase_steps_max : ℕ
staircase_steps_max = 10

abbrev pub staircase_min_duration_seconds : ℕ
staircase_min_duration_seconds = 60

-- `case ModeRamp`: a fifth of the window, kept within its bounds.
unfoldable pub ramp_rise : ℤ → ℤ
ramp_rise r =
    if ltb_ℤ r (pos ramp_min_seconds)
    then pos ramp_min_seconds
    else if ltb_ℤ (pos ramp_max_seconds) r
    then pos ramp_max_seconds
    else r

unfoldable pub rampup_seconds : String → ℤ → ℤ
unfolding ramp_rise
rampup_seconds m duration_seconds =
    if str_eq m mode_burst
    then pos 0
    else if str_eq m mode_soak
    then pos soak_warmup_seconds
    else if str_eq m mode_staircase
    then pos 0
    else if str_eq m mode_ramp
    then ramp_rise (quot duration_seconds ramp_window_divisor)
    else pos 0
