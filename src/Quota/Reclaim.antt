-- ===== src/Quota/Reclaim.antt =====
-- What reclaiming overruns does to the ledger, and how much it can free.
use honryu.Base.{
  ◌∙◌, ℕ, ◌+◌, ◌^◌, ◌≤◌, ◌<◌, ◌≡◌, refl, ◌⊎◌, inl, inr, false, List, [], ◌∷◌, String, Option, none,
  some, arith, All, Bool-cases, Result, ok, err,
}
use honryu.Base.Ints.{ℤ, pos, leb_ℤ}
use honryu.Base.Times.{Time}
use honryu.Base.Sorting.{sum_of, sort_by, sum_of-sort_by, All-sort_by}
use honryu.Reservation.{Reservation}
use honryu.Quota.{
  Ledger, Stopper, StopError, no_stopper, stop_failed, without_execution, reclaim_from, ends_before,
  reclaim_overrun,
}
use honryu.Quota.Load.{engines, IsPositive, load, load-without_execution, add_count}

-- What `Stopper` documents: stopping an execution frees its reservations, or changes none, and leaves
-- the ceilings alone.
pub record Stops (stop : Stopper) : Type 0 where
  pub frees :
      (e : ℤ) (l : Ledger)
      → ((stop e l).1.reservations ≡ l.reservations)
        ⊎ ((stop e l).1.reservations ≡ without_execution e l.reservations)
  pub ceilings : (e : ℤ) (l : Ledger) → (stop e l).1.quota_ceilings ≡ l.quota_ceilings

-- A later ledger that reserves no more at any instant, under the same ceilings.
pub record Shrinks (l m : Ledger) : Type 0 where
  pub loads :
      (tenant : ℤ) (cluster : String) (t : Time)
      → load tenant cluster t m.reservations ≤ load tenant cluster t l.reservations
  pub ceilings : m.quota_ceilings ≡ l.quota_ceilings

Shrinks-refl : (l : Ledger) → Shrinks l l
Shrinks-refl l = record { loads = λ tenant cluster t. omega arith; ceilings = refl }

Shrinks-trans : {l m n : Ledger} → Shrinks l m → Shrinks m n → Shrinks l n
Shrinks-trans a b = record {
  loads = λ tenant cluster t. omega (arith, a.loads tenant cluster t, b.loads tenant cluster t);
  ceilings = b.ceilings ∙ a.ceilings;
}

stop-Shrinks : (stop : Stopper) → Stops stop → (e : ℤ) (l : Ledger) → Shrinks l (stop e l).1
stop-Shrinks stop s e l = record {
  loads = λ tenant cluster t. elim (s.frees e l) [
    | inl same ↦ rw same (omega arith)
    | inr freed ↦ rw freed (load-without_execution tenant cluster t e l.reservations)
  ];
  ceilings = s.ceilings e l;
}

-- What was freed is a number of at most the bound.
abbrev pub Freed : ℕ → Result StopError ℤ → Type 0
Freed bound (ok freed) = (f : ℕ) × (freed ≡ pos f) × (f ≤ bound)
Freed bound (err e) = Unit {0}

Freed-mono : (m n : ℕ) (r : Result StopError ℤ) → m ≤ n → Freed m r → Freed n r
Freed-mono m n (ok freed) h (f, e, k) = (f, e, omega arith)
Freed-mono m n (err e) h tt = tt

module _ (stop : Stopper) (s : Stops stop) (needed : ℤ) where
  after_stop :
      (n : ℕ) (r : Reservation) (rs : List Reservation) (l : Ledger) (stopped : Option StopError)
      → (stop r.execution_id l).0 ≡ stopped
      → leb_ℤ needed (pos n) ≡ false
      → IsPositive r
      → n + engines r < 2 ^ 63
      → (let rest = reclaim_from stop needed (pos (n + engines r)) rs (stop r.execution_id l).1 in
          Freed (n + engines r + sum_of engines rs) rest.0
          × Shrinks (stop r.execution_id l).1 rest.1)
      → let all = reclaim_from stop needed (pos n) (r ∷ rs) l in
        Freed (n + sum_of engines (r ∷ rs)) all.0 × Shrinks l all.1
  unfolding reclaim_from
  after_stop n r rs l none e more p h (freed, shrinks) =
      simp (more, e, add_count n r p h)
        (
          Freed-mono _ _ _ (omega arith) freed,
          Shrinks-trans (stop-Shrinks stop s r.execution_id l) shrinks,
        )
  after_stop n r rs l (some no_stopper) e more p h ih =
      simp (more, e) ((n, refl, omega arith), stop-Shrinks stop s r.execution_id l)
  after_stop n r rs l (some (stop_failed m)) e more p h ih =
      simp (more, e) (tt, stop-Shrinks stop s r.execution_id l)

  reclaim_from_bounds :
      (n : ℕ) (rs : List Reservation) (l : Ledger)
      → All IsPositive rs
      → n + sum_of engines rs < 2 ^ 63
      → let all = reclaim_from stop needed (pos n) rs l in
        Freed (n + sum_of engines rs) all.0 × Shrinks l all.1
  unfolding reclaim_from
  reclaim_from_bounds n [] l all h = ((n, refl, omega arith), Shrinks-refl l)
  reclaim_from_bounds n (r ∷ rs) l all h = elim (Bool-cases (leb_ℤ needed (pos n))) [
    | inl enough ↦ simp enough ((n, refl, omega arith), Shrinks-refl l)
    | inr more ↦
        after_stop n r rs l (stop r.execution_id l).0 refl more all.0 (omega arith)
          (reclaim_from_bounds (n + engines r) rs (stop r.execution_id l).1 all.1 (omega arith))
  ]

  -- Reclaiming frees at most what the overruns hold and never reserves more.
  pub reclaim_overrun_bounds :
      (overrun : List Reservation) (l : Ledger)
      → All IsPositive overrun
      → sum_of engines overrun < 2 ^ 63
      → let all = reclaim_overrun stop overrun needed l in
        Freed (sum_of engines overrun) all.0 × Shrinks l all.1
  unfolding reclaim_overrun
  reclaim_overrun_bounds overrun l all h =
      let same = sum_of-sort_by engines ends_before overrun in
      let (freed, shrinks) =
        reclaim_from_bounds 0 (sort_by ends_before overrun) l
          (All-sort_by IsPositive ends_before overrun all) (omega arith) in
      (Freed-mono _ _ _ (omega arith) freed, shrinks)
