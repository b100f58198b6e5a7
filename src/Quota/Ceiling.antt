-- ===== src/Quota/Ceiling.antt =====
-- `Reserve` and the tenant's ceiling.
use honryu.Base.{
  ℕ, ◌+◌, ◌-◌, ◌^◌, ◌≤◌, ◌<◌, ◌≡◌, refl, ◌⊎◌, inl, inr, false, String, none, arith, All, Result, ok,
  err, ap, ◌∙◌, subst,
}
use honryu.Base.Ints.{ℤ, pos, wrap64, wrap64-fits, pos--ℤ-pos, ◌+ℤ◌, ◌-ℤ◌, ◌≤ℤ◌, ◌<ℤ◌, ltb_ℤ}
use honryu.Base.Times.{Time}
use honryu.Base.Sorting.{sum_of}
use honryu.Reservation.{Reservation, validate}
use honryu.Quota.{
  Ledger, Stopper, StopError, ceiling_for, used_capacity, in_window, overrun_reservations, admit,
  admit_reclaimed, reclaim_overrun, reserve, create_reservation,
}
use honryu.Quota.Load.{
  engines, IsPositive, load, load-le-in_window, in_window-le, in_window-IsPositive, overrun-le,
  overrun-IsPositive, add_counts-sum_of, add_count,
}
use honryu.Quota.Reclaim.{Stops, Shrinks, Freed, reclaim_overrun_bounds}

-- A ledger whose counts are positive and stay `int`s when they are added up twice beside r's.
pub record Fits (r : Reservation) (l : Ledger) : Type 0 where
  pub positive : All IsPositive l.reservations
  pub room : sum_of engines l.reservations + sum_of engines l.reservations + engines r < 2 ^ 63

minus_fits : (m n : ℕ) → n ≤ m → m < 2 ^ 63 → wrap64 (pos m -ℤ pos n) ≡ pos (m - n)
minus_fits m n h k = rw (pos--ℤ-pos m n h) (wrap64-fits (m - n) (omega arith))

-- The capacity in use is what the window's reservations hold, and what the overruns hold.
pub used_capacity-sum :
    (r : Reservation) (now : Time) (l : Ledger)
    → Fits r l
    → let used = used_capacity r.tenant_id r.cluster r.start r.end now l in
      let window = sum_of engines (in_window r.tenant_id r.cluster r.start r.end l.reservations) in
      (used.0 ≡ pos (window + sum_of engines used.1))
      × (used.1 ≡ overrun_reservations r.tenant_id r.cluster now l)
      × All IsPositive used.1
      × (window + sum_of engines used.1 + engines r < 2 ^ 63)
unfolding used_capacity overrun_reservations
used_capacity-sum r now l f =
    let window-le = in_window-le r.tenant_id r.cluster r.start r.end l.reservations in
    let late-le = overrun-le r.tenant_id r.cluster l.is_running now l.reservations in
    let window-pos =
      in_window-IsPositive r.tenant_id r.cluster r.start r.end l.reservations f.positive in
    let late-pos =
      overrun-IsPositive r.tenant_id r.cluster l.is_running now l.reservations f.positive in
    (
      rw (add_counts-sum_of 0 _ window-pos (omega (arith, window-le, f.room))) (
          add_counts-sum_of _ _ late-pos (omega (arith, window-le, late-le, f.room))
          ∙ ap pos (omega arith)),
      refl,
      late-pos,
      omega (arith, window-le, late-le, f.room),
    )

admit_accepted :
    (r : Reservation) (used ceiling : ℤ) (l : Ledger) {r' : Reservation} {l' : Ledger}
    → admit r used ceiling l ≡ (ok r', l')
    → (ltb_ℤ ceiling (wrap64 (used +ℤ r.engine_count)) ≡ false) × (l' ≡ (create_reservation r l).1)
unfolding admit
admit_accepted r used ceiling l e = ground arith

-- The new reservation adds at most its own engines at any instant.
load-create_reservation :
    (r : Reservation) (l : Ledger) (tenant : ℤ) (cluster : String) (t : Time)
    → load tenant cluster t (create_reservation r l).1.reservations
      ≤ engines r + load tenant cluster t l.reservations
unfolding create_reservation
load-create_reservation r l tenant cluster t = ground arith

-- An admission over a ledger that holds at most u engines at an instant.
admit_bounds :
    (r : Reservation) (u : ℕ) (ceiling : ℤ) (l : Ledger) {r' : Reservation} {l' : Ledger} (t : Time)
    → IsPositive r
    → u + engines r < 2 ^ 63
    → admit r (pos u) ceiling l ≡ (ok r', l')
    → load r.tenant_id r.cluster t l.reservations ≤ u
    → pos (load r.tenant_id r.cluster t l'.reservations) ≤ℤ ceiling
admit_bounds r u ceiling l {r'} {l'} t p h e held =
    let (under, created) = admit_accepted r (pos u) ceiling l e in
    let sum : ltb_ℤ ceiling (pos (u + engines r)) ≡ false = rw (add_count u r p h) at under in
    rw created (ground (arith, sum, load-create_reservation r l r.tenant_id r.cluster t))

-- The admission after a reclaim that freed at most the overruns' part of what is in use.
reclaimed_bounds :
    (r : Reservation) (window late : ℕ) (ceiling : ℤ) (l : Ledger) (o : Result StopError ℤ)
    (m : Ledger) {r' : Reservation} {l' : Ledger} (t : Time)
    → IsPositive r
    → window + late + engines r < 2 ^ 63
    → admit_reclaimed r (pos (window + late)) ceiling (o, m) ≡ (ok r', l')
    → Freed late o
    → Shrinks l m
    → load r.tenant_id r.cluster t l.reservations ≤ window
    → pos (load r.tenant_id r.cluster t l'.reservations) ≤ℤ ceiling
unfolding admit_reclaimed
reclaimed_bounds r window late ceiling l (err e) m t p h eq freed shrinks held = cc
reclaimed_bounds r window late ceiling l (ok freed) m {r'} {l'} t p h eq (f, e, le) shrinks held =
    let left : wrap64 (pos (window + late) -ℤ freed) ≡ pos (window + late - f) =
      rw e (minus_fits (window + late) f (omega arith) (omega arith)) in
    let eq' : admit r (pos (window + late - f)) ceiling m ≡ (ok r', l') = rw left at eq in
    admit_bounds r (window + late - f) ceiling m t p (omega arith) eq'
      (omega (arith, shrinks.loads r.tenant_id r.cluster t))

pub validate-IsPositive : (r : Reservation) → validate r ≡ none → IsPositive r
unfolding validate
validate-IsPositive r h = ground arith

-- `Reserve` accepts only a valid reservation, by one of its two admissions.
reserve_paths :
    (stop : Stopper) (r : Reservation) (now later : Time) (l : Ledger) {r' : Reservation}
    {l' : Ledger}
    → reserve stop r now later l ≡ (ok r', l')
    → let used = used_capacity r.tenant_id r.cluster r.start r.end now l in
      let ceiling = ceiling_for r.tenant_id r.cluster l in
      (validate r ≡ none)
      × ((admit r used.0 ceiling l ≡ (ok r', l'))
          ⊎ (admit_reclaimed r used.0 ceiling (
                reclaim_overrun stop used.1
                  (wrap64 (wrap64 (used.0 +ℤ r.engine_count) -ℤ ceiling))
                  l)
              ≡ (ok r', l')))
unfolding reserve
reserve_paths stop r now later l e = ground arith

-- Whenever `Reserve` admits a reservation, directly or after reclaiming overruns, its tenant holds on
-- its cluster at most the ceiling at every instant of the new window, the new reservation included.
-- (The ledger's counts are positive and, twice over, fit an `int` beside the new one; stopping an
-- execution frees its reservations or none and changes no ceiling.)
pub reserve_within_ceiling :
    (stop : Stopper) (r : Reservation) (now later : Time) (l : Ledger) (r' : Reservation)
    (l' : Ledger) (t : Time)
    → Stops stop
    → Fits r l
    → reserve stop r now later l ≡ (ok r', l')
    → r.start ≤ℤ t
    → t <ℤ r.end
    → pos (load r.tenant_id r.cluster t l'.reservations) ≤ℤ ceiling_for r.tenant_id r.cluster l
reserve_within_ceiling stop r now later l r' l' t s f e h k =
    let (sum, _, late-pos, room) = used_capacity-sum r now l f in
    let (valid, path) = reserve_paths stop r now later l e in
    let used = used_capacity r.tenant_id r.cluster r.start r.end now l in
    let held = load-le-in_window r.tenant_id r.cluster r.start r.end t l.reservations h k in
    let p = validate-IsPositive r valid in
    let ceiling = ceiling_for r.tenant_id r.cluster l in
    elim path [
      | inl direct ↦ admit_bounds r _ ceiling l t p room (rw sum at direct) (omega (arith, held))
      | inr reclaim ↦
          let needed = wrap64 (wrap64 (used.0 +ℤ r.engine_count) -ℤ ceiling) in
          let (freed, shrinks) =
            reclaim_overrun_bounds stop s needed used.1 l late-pos (omega (arith, room)) in
          reclaimed_bounds r _ _ ceiling l (reclaim_overrun stop used.1 needed l).0
            (reclaim_overrun stop used.1 needed l).1 t p room
            (subst
              (λ u.
                admit_reclaimed r u ceiling (reclaim_overrun stop used.1 needed l) ≡ (ok r', l'))
              sum reclaim)
            freed shrinks held
    ]
