-- ===== src/Quota/Load.antt =====
-- What a ledger holds reserved at an instant, and how the ledger's queries bound it.
use honryu.Base.{
  ap, ◌∙◌, ℕ, ◌+◌, ◌^◌, ◌≤◌, ◌<◌, ◌≡◌, Bool, false, ◌&&◌, List, [], ◌∷◌, String, arith, All,
  if◌then◌else◌,
}
use honryu.Base.Ints.{
  ℤ, pos, pos_part, ◌≤ℤ◌, ◌<ℤ◌, ◌+ℤ◌, leb_ℤ, ltb_ℤ, nonpos, wrap64, wrap64-fits, pos-+ℤ-pos,
  pos-of_positive,
}
use honryu.Base.Times.{Time}
use honryu.Base.Sorting.{sum_of}
use honryu.Reservation.{Reservation}
use honryu.Quota.{belongs_to, without_execution, for_tenant, in_window, overrun_of, add_counts}

abbrev pub engines : Reservation → ℕ
engines r = pos_part r.engine_count

abbrev pub IsPositive : Reservation → Type 0
IsPositive r = nonpos r.engine_count ≡ false

-- The half-open window of a reservation holds an instant.
abbrev pub spans : Time → Reservation → Bool
spans t r = leb_ℤ r.start t && ltb_ℤ t r.end

-- The engines that a tenant has reserved on a cluster at an instant.
abbrev pub load : ℤ → String → Time → List Reservation → ℕ
load tenant cluster t [] = 0
load tenant cluster t (r ∷ rs) =
    (if belongs_to tenant cluster r && spans t r then engines r else 0) + load tenant cluster t rs

pub load-le-in_window :
    (tenant : ℤ) (cluster : String) (start end t : Time) (rs : List Reservation)
    → start ≤ℤ t
    → t <ℤ end
    → load tenant cluster t rs ≤ sum_of engines (in_window tenant cluster start end rs)
unfolding in_window
load-le-in_window tenant cluster start end t [] h k = omega arith
load-le-in_window tenant cluster start end t (r ∷ rs) h k =
    ground (arith, load-le-in_window tenant cluster start end t rs h k)

pub load-without_execution :
    (tenant : ℤ) (cluster : String) (t : Time) (e : ℤ) (rs : List Reservation)
    → load tenant cluster t (without_execution e rs) ≤ load tenant cluster t rs
unfolding without_execution
load-without_execution tenant cluster t e [] = omega arith
load-without_execution tenant cluster t e (r ∷ rs) =
    ground (arith, load-without_execution tenant cluster t e rs)

-- A query's rows are the ledger's, so they are positive and sum to no more.
pub in_window-le :
    (tenant : ℤ) (cluster : String) (start end : Time) (rs : List Reservation)
    → sum_of engines (in_window tenant cluster start end rs) ≤ sum_of engines rs
unfolding in_window
in_window-le tenant cluster start end [] = omega arith
in_window-le tenant cluster start end (r ∷ rs) =
    ground (arith, in_window-le tenant cluster start end rs)

pub in_window-IsPositive :
    (tenant : ℤ) (cluster : String) (start end : Time) (rs : List Reservation)
    → All IsPositive rs
    → All IsPositive (in_window tenant cluster start end rs)
unfolding in_window
in_window-IsPositive tenant cluster start end [] all = tt
in_window-IsPositive tenant cluster start end (r ∷ rs) all =
    ground (arith, in_window-IsPositive tenant cluster start end rs all.1)

pub overrun-le :
    (tenant : ℤ) (cluster : String) (running : ℤ → Bool) (now : Time) (rs : List Reservation)
    → sum_of engines (overrun_of running now (for_tenant tenant cluster rs)) ≤ sum_of engines rs
unfolding overrun_of for_tenant
overrun-le tenant cluster running now [] = omega arith
overrun-le tenant cluster running now (r ∷ rs) =
    ground (arith, overrun-le tenant cluster running now rs)

pub overrun-IsPositive :
    (tenant : ℤ) (cluster : String) (running : ℤ → Bool) (now : Time) (rs : List Reservation)
    → All IsPositive rs
    → All IsPositive (overrun_of running now (for_tenant tenant cluster rs))
unfolding overrun_of for_tenant
overrun-IsPositive tenant cluster running now [] all = tt
overrun-IsPositive tenant cluster running now (r ∷ rs) all =
    ground (arith, overrun-IsPositive tenant cluster running now rs all.1)

-- One addition of a positive count that fits an `int`.
pub add_count :
    (n : ℕ) (r : Reservation)
    → IsPositive r
    → n + engines r < 2 ^ 63
    → wrap64 (pos n +ℤ r.engine_count) ≡ pos (n + engines r)
add_count n r p h =
    rw (ap (λ x. wrap64 (pos n +ℤ x)) (pos-of_positive r.engine_count p).0, pos-+ℤ-pos)
      (wrap64-fits (n + engines r) h)

pub add_counts-sum_of :
    (n : ℕ) (rs : List Reservation)
    → All IsPositive rs
    → n + sum_of engines rs < 2 ^ 63
    → add_counts (pos n) rs ≡ pos (n + sum_of engines rs)
unfolding add_counts
add_counts-sum_of n [] all h = let same : n + 0 ≡ n = omega arith in rw same
add_counts-sum_of n (r ∷ rs) all h =
    rw (add_count n r all.0 (omega arith))
      (add_counts-sum_of (n + engines r) rs all.1 (omega arith) ∙ ap pos (omega arith))
