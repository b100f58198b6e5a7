-- ===== src/Calibration/Specs.antt =====
-- The spec that a search runs on.
use honryu.Base.{◌≡◌, ◌⊎◌, true, some, str_eq_iff, arith}
use honryu.Base.Floats.{Float64}
use honryu.Calibration.{
  Spec, SpecError, with_defaults, validate, criterion_required, pod_size_required, max_qps_invalid,
}

module _ (fl : Float64) where
  open fl use {F, le, of_int}

  -- After `WithDefaults`, a spec is refused only for its criterion, its pod size, or a `MaxQPS` that
  -- is not above the seed.
  pub validate-with_defaults :
      (s : Spec F) (e : SpecError)
      → validate fl (with_defaults fl s) ≡ some e
      → ((e ≡ criterion_required) × (s.criterion ≡ ""))
        ⊎ ((e ≡ pod_size_required) × ((s.cpu ≡ "") ⊎ (s.memory ≡ "")))
        ⊎ ((e ≡ max_qps_invalid)
            × (le (with_defaults fl s).max_qps (with_defaults fl s).seed_qps ≡ true))
  unfolding validate with_defaults
  validate-with_defaults s e h = ground (
    arith,
    str_eq_iff s.criterion "",
    str_eq_iff s.cpu "",
    str_eq_iff s.memory "",
    fl.zero_lt_of_int 10,
    fl.zero_lt_of_int 10000,
  )
