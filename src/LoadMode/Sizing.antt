-- ===== src/LoadMode/Sizing.antt =====
-- `Concurrency` of internal/domain/loadmode/loadmode.go: Little's law with headroom.
use honryu.Base.{ℕ, if◌then◌else◌}
use honryu.Base.Ints.{ℤ, pos, ltb_ℤ}
use honryu.Base.Floats.{Float64}

abbrev pub concurrency_floor : ℕ
concurrency_floor = 20

module _ (fl : Float64) where
  open fl use {F, of_int, lit, mul, le, ceil}

  abbrev pub concurrency_headroom : F
  concurrency_headroom = lit 3 0

  unfoldable pub concurrency : F → F → ℤ
  concurrency requested_qps latency_hint_sec =
      let c = ceil (mul (mul requested_qps latency_hint_sec) concurrency_headroom) in
      if le latency_hint_sec (of_int (pos 0))
      then pos concurrency_floor
      else if ltb_ℤ c (pos concurrency_floor)
      then pos concurrency_floor
      else c
