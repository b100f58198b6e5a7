-- ===== src/Quota/Exact.antt =====
-- The admission of a future booking, and the capacity in use.
use honryu.Base.{
  is_ok, ℕ, ◌+◌, ◌*◌, ◌^◌, ◌<◌, ◌≡◌, ap, ◌↔◌, Bool, true, List, [], ◌∷◌, ◌++◌, ◌∙◌, String, none,
  arith,
}
use honryu.Base.Ints.{ℤ, pos, ◌≤ℤ◌, ◌<ℤ◌}
use honryu.Base.Times.{Time, after}
use honryu.Base.Sorting.{sum_of}
use honryu.Reservation.{Reservation, validate}
use honryu.Quota.{
  Ledger, Stopper, ceiling_for, used_capacity, belongs_to, in_window, overrun_reservations,
  for_tenant, overrun_of, admit, reserve,
}
use honryu.Quota.Load.{engines, IsPositive, add_count}
use honryu.Quota.Ceiling.{Fits, used_capacity-sum, validate-IsPositive}

reserve_future :
    (stop : Stopper) (r : Reservation) (now later : Time) (l : Ledger)
    → validate r ≡ none
    → after r.start later ≡ true
    → reserve stop r now later l
      ≡ admit r
          (used_capacity r.tenant_id r.cluster r.start r.end now l).0
          (ceiling_for r.tenant_id r.cluster l)
          l
unfolding reserve
reserve_future stop r now later l valid future = ground arith

is_ok-admit :
    (r : Reservation) (u : ℕ) (ceiling : ℤ) (l : Ledger)
    → IsPositive r
    → u + engines r < 2 ^ 63
    → (is_ok (admit r (pos u) ceiling l).0 ≡ true) ↔ (pos (u + engines r) ≤ℤ ceiling)
unfolding admit
is_ok-admit r u ceiling l p h =
    let sum = add_count u r p h in ((λ e. ground (arith, sum)), (λ e. ground (arith, sum)))

in_window-one :
    (tenant : ℤ) (cluster : String) (start end : Time) (q : Reservation)
    (earlier rest : List Reservation)
    → belongs_to tenant cluster q ≡ true
    → q.start <ℤ end
    → start <ℤ q.end
    → sum_of engines (in_window tenant cluster start end (earlier ++ q ∷ rest))
      ≡ engines q + sum_of engines (in_window tenant cluster start end (earlier ++ rest))
unfolding in_window
in_window-one tenant cluster start end q [] rest mine a b = ground arith
in_window-one tenant cluster start end q (x ∷ earlier) rest mine a b =
    ground (arith, in_window-one tenant cluster start end q earlier rest mine a b)

overrun-one :
    (tenant : ℤ) (cluster : String) (running : ℤ → Bool) (now : Time) (q : Reservation)
    (earlier rest : List Reservation)
    → belongs_to tenant cluster q ≡ true
    → q.end <ℤ now
    → running q.execution_id ≡ true
    → sum_of engines (overrun_of running now (for_tenant tenant cluster (earlier ++ q ∷ rest)))
      ≡ engines q
        + sum_of engines (overrun_of running now (for_tenant tenant cluster (earlier ++ rest)))
unfolding overrun_of for_tenant
overrun-one tenant cluster running now q [] rest mine c runs = ground arith
overrun-one tenant cluster running now q (x ∷ earlier) rest mine c runs =
    ground (arith, overrun-one tenant cluster running now q earlier rest mine c runs)

-- A valid reservation that starts after the clock is admitted exactly when it fits under the ceiling
-- beside the window's reservations and the overruns.
pub reserve_future_exact :
    (stop : Stopper) (r : Reservation) (now later : Time) (l : Ledger)
    → validate r ≡ none
    → Fits r l
    → after r.start later ≡ true
    → (is_ok (reserve stop r now later l).0 ≡ true) ↔ (
        pos (
          sum_of engines (in_window r.tenant_id r.cluster r.start r.end l.reservations)
          + sum_of engines (overrun_reservations r.tenant_id r.cluster now l)
          + engines r)
        ≤ℤ ceiling_for r.tenant_id r.cluster l)
reserve_future_exact stop r now later l valid f future =
    let (sum, same, _, room) = used_capacity-sum r now l f in
    let ceiling = ceiling_for r.tenant_id r.cluster l in
    let fits = is_ok-admit r _ ceiling l (validate-IsPositive r valid) room in
    rw (reserve_future stop r now later l valid future, sum, ← same) fits

-- In a ledger whose engines fit an `int`, a reservation of the tenant that ended between the new window's
-- start and the clock, and whose execution still runs, is counted twice: the capacity in use is twice
-- its engines, and what the window and the overruns of the other reservations come to.
pub ended_since_start_counts_twice :
    (r q : Reservation) (now : Time) (l : Ledger) (earlier rest : List Reservation)
    → Fits r l
    → l.reservations ≡ earlier ++ q ∷ rest
    → belongs_to r.tenant_id r.cluster q ≡ true
    → q.start <ℤ r.end
    → r.start <ℤ q.end
    → q.end <ℤ now
    → l.is_running q.execution_id ≡ true
    → (used_capacity r.tenant_id r.cluster r.start r.end now l).0
      ≡ pos (
          2 * engines q
          + sum_of engines (in_window r.tenant_id r.cluster r.start r.end (earlier ++ rest))
          + sum_of engines
              (overrun_of l.is_running now (for_tenant r.tenant_id r.cluster (earlier ++ rest))))
unfolding overrun_reservations
ended_since_start_counts_twice r q now l earlier rest f held mine a b c running =
    let (sum, same, _, room) = used_capacity-sum r now l f in
    let window = in_window-one r.tenant_id r.cluster r.start r.end q earlier rest mine a b in
    let late = overrun-one r.tenant_id r.cluster l.is_running now q earlier rest mine c running in
    let window' =
      ap (λ rs. sum_of engines (in_window r.tenant_id r.cluster r.start r.end rs)) held ∙ window in
    let late' =
      ap (sum_of engines) same
      ∙ (ap
            (λ rs.
              sum_of engines (overrun_of l.is_running now (for_tenant r.tenant_id r.cluster rs)))
            held
          ∙ late) in
    sum ∙ ap pos (omega (arith, window', late'))
