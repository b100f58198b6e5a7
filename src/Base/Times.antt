-- ===== src/Base/Times.antt =====
-- Go's `time.Time` as the nanoseconds since an epoch, and `time.Duration` as nanoseconds.
use honryu.Base.Tests.{if◌then◌else◌}
use honryu.Base.Ints.{ℤ, pos, negsuc, ◌-ℤ◌, ltb_ℤ}
use Prim.Native.Nat.{◌-◌, ◌^◌}
use mathlib.Core.Bool.{Bool}

abbrev pub Time : Type 0
Time = ℤ

-- `t.Before(u)` and `t.After(u)`
abbrev pub before : Time → Time → Bool
before t u = ltb_ℤ t u

abbrev pub after : Time → Time → Bool
after t u = ltb_ℤ u t

abbrev pub max_duration : ℤ
max_duration = pos (2 ^ 63 - 1)

abbrev pub min_duration : ℤ
min_duration = negsuc (2 ^ 63 - 1)

-- `t.Sub(u)`: a difference that no `Duration` holds is the largest or the smallest one.
unfoldable pub time_sub : Time → Time → ℤ
time_sub t u =
    let d = t -ℤ u in
    if ltb_ℤ max_duration d then max_duration else if ltb_ℤ d min_duration then min_duration else d
