-- ===== src/Quota.antt =====
-- internal/app/quotaapp/service.go over the reservation ledger of
-- internal/ports/fake/reservation_repository.go.
pub mod Load
pub mod Reclaim
pub mod Ceiling
pub mod Exact
use honryu.Base.{
  ℕ, suc, ◌+◌, Bool, true, false, ◌&&◌, ◌||◌, not, List, [], ◌∷◌, Option, none, some, String,
  str_eq, if◌then◌else◌, Result, ok, err,
}
use honryu.Base.Ints.{ℤ, pos, ◌+ℤ◌, ◌-ℤ◌, ltb_ℤ, leb_ℤ, eqb_ℤ, wrap64}
use honryu.Base.Times.{Time, before, after}
use honryu.Base.Sorting.{sort_by}
use honryu.Reservation.{Reservation, ReservationError, validate, overlaps, default_ceiling}

-- The store: the map of reservations by id, newest first (ids are handed out by `reservation_seq`, so
-- a new one is never in the map), the configured ceilings, and which executions run.
pub record Ledger : Type 0 where
  pub reservation_seq : ℕ
  pub reservations : List Reservation
  pub quota_ceilings : ℤ → String → Option ℤ
  pub is_running : ℤ → Bool

unfoldable pub create_reservation : Reservation → Ledger → ℤ × Ledger
create_reservation r l =
    let id = pos (suc l.reservation_seq) in
    (
      id,
      record l {
        reservation_seq = suc l.reservation_seq;
        reservations = record r { id = id } ∷ l.reservations;
      },
    )

unfoldable pub without_execution : ℤ → List Reservation → List Reservation
without_execution e [] = []
without_execution e (r ∷ rs) =
    let rest = without_execution e rs in if eqb_ℤ r.execution_id e then rest else r ∷ rest

-- `ReleaseReservationsForExecution`, which `Service.Release` calls.
unfoldable pub release : ℤ → Ledger → Ledger
unfolding without_execution
release e l = record l { reservations = without_execution e l.reservations }

abbrev pub belongs_to : ℤ → String → Reservation → Bool
belongs_to tenant cluster r = eqb_ℤ r.tenant_id tenant && str_eq r.cluster cluster

-- `ReservationsForTenant`
unfoldable pub for_tenant : ℤ → String → List Reservation → List Reservation
for_tenant tenant cluster [] = []
for_tenant tenant cluster (r ∷ rs) =
    let rest = for_tenant tenant cluster rs in
    if belongs_to tenant cluster r then r ∷ rest else rest

-- `probe.Overlaps(r)` on the probe's two instants.
abbrev pub overlaps_window : Time → Time → Reservation → Bool
overlaps_window start end r = before start r.end && before r.start end

-- `ReservationsInWindow`
unfoldable pub in_window : ℤ → String → Time → Time → List Reservation → List Reservation
in_window tenant cluster start end [] = []
in_window tenant cluster start end (r ∷ rs) =
    let rest = in_window tenant cluster start end rs in
    if belongs_to tenant cluster r && overlaps_window start end r then r ∷ rest else rest

-- The loop of `overrunReservations` over a tenant's reservations.
unfoldable pub overrun_of : (ℤ → Bool) → Time → List Reservation → List Reservation
overrun_of is_running now [] = []
overrun_of is_running now (r ∷ rs) =
    let rest = overrun_of is_running now rs in
    if before r.end now && is_running r.execution_id then r ∷ rest else rest

unfoldable pub overrun_reservations : ℤ → String → Time → Ledger → List Reservation
unfolding overrun_of for_tenant
overrun_reservations tenant cluster now l =
    overrun_of l.is_running now (for_tenant tenant cluster l.reservations)

-- `used += e.EngineCount` over a list.
unfoldable pub add_counts : ℤ → List Reservation → ℤ
add_counts used [] = used
add_counts used (r ∷ rs) = add_counts (wrap64 (used +ℤ r.engine_count)) rs

unfoldable pub used_capacity : ℤ → String → Time → Time → Time → Ledger → ℤ × List Reservation
unfolding add_counts in_window overrun_reservations
used_capacity tenant cluster start end now l =
    let overrun = overrun_reservations tenant cluster now l in
    (
      add_counts (add_counts (pos 0) (in_window tenant cluster start end l.reservations)) overrun,
      overrun,
    )

-- `Stopper.Stop`, which the program's lifecycle service implements: an error or none, and the ledger
-- that it leaves. `no_stopper` is the error of the default.
pub data StopError : Type 0 where
  no_stopper : StopError
  stop_failed : String → StopError

abbrev pub Stopper : Type 0
Stopper = ℤ → Ledger → Option StopError × Ledger

unfoldable pub noop_stopper : Stopper
noop_stopper e l = (some no_stopper, l)

pub record OverQuota : Type 0 where
  pub tenant_id : ℤ
  pub cluster : String
  pub requested : ℤ
  pub used : ℤ
  pub ceiling : ℤ
  pub zero_ceiling : Bool

pub data ReserveError : Type 0 where
  invalid : ReservationError → ReserveError
  reclaim_failed : StopError → ReserveError
  over_quota : OverQuota → ReserveError

-- The loop of `reclaimOverrun` over the sorted reservations, with what was freed so far.
unfoldable pub reclaim_from :
    Stopper → ℤ → ℤ → List Reservation → Ledger → Result StopError ℤ × Ledger
reclaim_from stop needed freed [] l = (ok freed, l)
reclaim_from stop needed freed (r ∷ rs) l =
    let stopped = stop r.execution_id l in
    let rest = reclaim_from stop needed (wrap64 (freed +ℤ r.engine_count)) rs stopped.1 in
    if leb_ℤ needed freed then (ok freed, l) else elim stopped.0 [
      | none ↦ rest
      | some no_stopper ↦ (ok freed, stopped.1)
      | some (stop_failed m) ↦ (err (stop_failed m), stopped.1)
    ]

abbrev pub ends_before : Reservation → Reservation → Bool
ends_before r q = before r.end q.end

unfoldable pub reclaim_overrun :
    Stopper → List Reservation → ℤ → Ledger → Result StopError ℤ × Ledger
unfolding reclaim_from sort_by
reclaim_overrun stop overrun needed l =
    reclaim_from stop needed (pos 0) (sort_by ends_before overrun) l

-- The ceiling that admission applies: a configured row, or the platform's default.
unfoldable pub ceiling_for : ℤ → String → Ledger → ℤ
ceiling_for tenant cluster l = elim (l.quota_ceilings tenant cluster) [
  | some ceiling ↦ ceiling
  | none ↦ default_ceiling
]

-- The second test of `Reserve`, with the capacity in use after any reclaim.
unfoldable pub admit : Reservation → ℤ → ℤ → Ledger → Result ReserveError Reservation × Ledger
unfolding create_reservation
admit r used ceiling l =
    let created = create_reservation r l in
    if ltb_ℤ ceiling (wrap64 (used +ℤ r.engine_count))
    then (
      err (
          over_quota (record {
            tenant_id = r.tenant_id;
            cluster = r.cluster;
            requested = r.engine_count;
            used = used;
            ceiling = ceiling;
            zero_ceiling = eqb_ℤ ceiling (pos 0);
          })),
      l,
    )
    else (ok (record r { id = created.0 }), created.1)

-- The admission after `reclaimOverrun` returned.
unfoldable pub admit_reclaimed :
    Reservation → ℤ → ℤ → Result StopError ℤ × Ledger → Result ReserveError Reservation × Ledger
unfolding admit
admit_reclaimed r used ceiling (ok freed, l) = admit r (wrap64 (used -ℤ freed)) ceiling l
admit_reclaimed r used ceiling (err e, l) = (err (reclaim_failed e), l)

-- `Reserve`, which runs under the tenant's lock. `now` is the clock as the scan for overruns reads it,
-- and `later` as the test for a reclaim reads it.
unfoldable pub reserve :
    Stopper → Reservation → Time → Time → Ledger → Result ReserveError Reservation × Ledger
reserve stop r now later l =
    let ceiling = ceiling_for r.tenant_id r.cluster l in
    let (used, overrun) = used_capacity r.tenant_id r.cluster r.start r.end now l in
    let wanted = wrap64 (used +ℤ r.engine_count) in
    elim (validate r) [
      | some e ↦ (err (invalid e), l)
      | none ↦
          if ltb_ℤ ceiling wanted && not (after r.start later)
          then admit_reclaimed r used ceiling
              (reclaim_overrun stop overrun (wrap64 (wanted -ℤ ceiling)) l)
          else admit r used ceiling l
    ]

-- The loop of `ClusterCapacity` over the cluster's quota rows: a tenant and its ceiling each.
unfoldable pub capacity_from : String → Time → Time → Ledger → ℤ → ℤ → List (ℤ × ℤ) → ℤ × ℤ
capacity_from cluster now scan l used ceiling [] = (used, ceiling)
capacity_from cluster now scan l used ceiling ((tenant, row) ∷ rows) =
    capacity_from cluster now scan l
      (wrap64 (used +ℤ (used_capacity tenant cluster now now scan l).0)) (wrap64 (ceiling +ℤ row))
      rows
