-- ===== src/Reservation.antt =====
-- internal/domain/reservation/reservation.go
use honryu.Base.{Bool, ◌&&◌, not, ◌≡◌, Option, none, some, String, true, arith, if◌then◌else◌}
use honryu.Base.Ints.{ℤ, pos, nonpos, ◌<ℤ◌, ◌≤ℤ◌, ltb_ℤ}
use honryu.Base.Times.{Time, before, after}

pub data ReservationError : Type 0 where
  engine_count_invalid window_invalid : ReservationError

abbrev pub default_ceiling : ℤ
default_ceiling = pos 10

pub record Reservation : Type 0 where
  pub id : ℤ
  pub tenant_id : ℤ
  pub cluster : String
  pub engine_count : ℤ
  pub start : Time
  pub end : Time
  pub execution_id : ℤ

unfoldable pub validate : Reservation → Option ReservationError
validate r =
    if nonpos r.engine_count
    then some engine_count_invalid
    else if not (after r.end r.start)
    then some window_invalid
    else none

unfoldable pub overlaps : Reservation → Reservation → Bool
overlaps r other = before r.start other.end && before other.start r.end

-- The half-open window of a reservation holds an instant.
abbrev pub Spans : Reservation → Time → Type 0
Spans r t = (r.start ≤ℤ t) × (t <ℤ r.end)

-- Two windows that share an instant overlap, and `Overlaps` is symmetric.
pub overlaps_shared :
    (r other : Reservation) (t : Time) → Spans r t → Spans other t → overlaps r other ≡ true
unfolding overlaps
overlaps_shared r other t a b = ground arith

-- Two valid reservations overlap exactly when they share an instant: the later of the two starts.
pub overlaps_instant :
    (r other : Reservation)
    → validate r ≡ none
    → validate other ≡ none
    → overlaps r other ≡ true
    → let t = if ltb_ℤ r.start other.start then other.start else r.start in
      Spans r t × Spans other t
unfolding overlaps validate
overlaps_instant r other v w h = ground arith
