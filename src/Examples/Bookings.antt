-- ===== src/Examples/Bookings.antt =====
-- Reservations under a quota.
use honryu.Base.{◌+◌, ◌≡◌, refl, inr, ◌↔◌, true, [], ◌∷◌, none, arith, is_ok, ok}
use honryu.Base.Ints.{ℤ, pos, ◌+ℤ◌, ◌-ℤ◌, ◌≤ℤ◌, wrap64}
use honryu.Base.Times.{Time}
use honryu.Base.Sorting.{sum_of, sort_by, insert_by}
use honryu.Reservation.{Reservation, validate, overlaps}
use honryu.Quota.{
  Ledger, Stopper, release, ceiling_for, used_capacity, in_window, overrun_reservations, reserve,
  overrun_of, for_tenant, add_counts, reclaim_overrun, reclaim_from, without_execution,
  admit_reclaimed, admit, create_reservation,
}
use honryu.Quota.Load.{engines, load}
use honryu.Quota.Reclaim.{Stops}
use honryu.Quota.Ceiling.{Fits, reserve_within_ceiling}
use honryu.Quota.Exact.{reserve_future_exact, ended_since_start_counts_twice}

abbrev booking : ℤ → ℤ → Time → Time → ℤ → Reservation
booking id count start end execution = record {
  id = id;
  tenant_id = pos 1;
  cluster = "eu";
  engine_count = count;
  start = start;
  end = end;
  execution_id = execution;
}

-- Six engines booked until 100 for an execution that still runs.
abbrev overrun : Reservation
overrun = booking (pos 1) (pos 6) (pos 0) (pos 100) (pos 41)

abbrev wanted : Reservation
wanted = booking (pos 0) (pos 5) (pos 150) (pos 300) (pos 42)

abbrev started_before : Reservation
started_before = booking (pos 0) (pos 1) (pos 50) (pos 300) (pos 42)

abbrev ledger : Ledger
ledger = record {
  reservation_seq = 1;
  reservations = overrun ∷ [];
  quota_ceilings = λ tenant cluster. none;
  is_running = λ execution. true;
}

abbrev stopper : Stopper
stopper execution l = (none, release execution l)

stopper-Stops : Stops stopper
unfolding release
stopper-Stops = record { frees = λ e l. inr refl; ceilings = λ e l. refl }

fits : Fits wanted ledger
fits = record { positive = (refl, tt); room = omega arith }

-- At 200 the overrun is stopped to make room.
abbrev booked : Reservation
booked = booking (pos 2) (pos 5) (pos 150) (pos 300) (pos 42)

abbrev after_booking : Ledger
after_booking = record ledger { reservation_seq = 2; reservations = booked ∷ [] }

reclaims : reserve stopper wanted (pos 200) (pos 200) ledger ≡ (ok booked, after_booking)
unfolding reserve validate ceiling_for used_capacity in_window overrun_reservations overrun_of
    for_tenant add_counts reclaim_overrun reclaim_from sort_by insert_by release without_execution
    admit_reclaimed admit create_reservation wrap64 ◌+ℤ◌ ◌-ℤ◌
reclaims = refl

reserve_within_ceiling_example :
    pos (load (pos 1) "eu" (pos 200) after_booking.reservations) ≤ℤ ceiling_for (pos 1) "eu" ledger
reserve_within_ceiling_example =
    reserve_within_ceiling stopper wanted (pos 200) (pos 200) ledger booked after_booking (pos 200)
      stopper-Stops fits reclaims (omega arith) (omega arith)

wanted_valid : validate wanted ≡ none
unfolding validate
wanted_valid = refl

reserve_future_exact_example :
    (is_ok (reserve stopper wanted (pos 120) (pos 120) ledger).0 ≡ true) ↔ (
      pos (
        sum_of engines (in_window (pos 1) "eu" (pos 150) (pos 300) (overrun ∷ []))
        + sum_of engines (overrun_reservations (pos 1) "eu" (pos 120) ledger)
        + 5)
      ≤ℤ ceiling_for (pos 1) "eu" ledger)
reserve_future_exact_example =
    reserve_future_exact stopper wanted (pos 120) (pos 120) ledger wanted_valid fits refl

room_for_started : Fits started_before ledger
room_for_started = record { positive = (refl, tt); room = omega arith }

ended_since_start_counts_twice_example :
    (used_capacity (pos 1) "eu" (pos 50) (pos 300) (pos 200) ledger).0 ≡ pos 12
unfolding in_window overrun_of for_tenant
ended_since_start_counts_twice_example =
    ended_since_start_counts_twice started_before overrun (pos 200) ledger [] [] room_for_started
      refl refl (omega arith) (omega arith) (omega arith) refl

overlap : overlaps overrun started_before ≡ true
unfolding overlaps
overlap = refl

valid_overrun : validate overrun ≡ none
unfolding validate
valid_overrun = refl

valid_started : validate started_before ≡ none
unfolding validate
valid_started = refl
