-- ===== src/Metrics.antt =====
-- internal/domain/metrics/interval.go and histogram.go. A nil map or slice is the empty list, which the
-- operations treat alike.
pub mod Ranks
pub mod Percentiles
pub mod Nearest
pub mod Merged
use honryu.Base.{
  ℕ, zero, suc, ◌+◌, Bool, true, false, ◌&&◌, List, [], ◌∷◌, ◌++◌, map, Option, String, str_eq,
  if◌then◌else◌, is_empty,
}
use honryu.Base.Ints.{ℤ, pos, ◌+ℤ◌, wrap64, leb_ℤ, ltb_ℤ, eqb_ℤ}
use honryu.Base.Floats.{Float64}
use honryu.Base.Maps.{store, lookup_or}
use honryu.Base.Text.{Text, same_text}
use honryu.Base.Sorting.{sort_by}

-- A `Histogram`: response times with their counts.
abbrev pub Histogram : Type 0 → Type 0
Histogram F = List (F × ℤ)

pub record ErrorGroup : Type 0 where
  pub message : Text
  pub response_code : Text
  pub count : ℤ

pub record Interval (F : Type 0) : Type 0 where
  pub seq : ℤ
  pub timestamp : ℤ
  pub label : String
  pub concurrency : ℤ
  pub samples : ℤ
  pub succeeded : ℤ
  pub failed : ℤ
  pub bytes : ℤ
  pub latency : Histogram F
  pub response_codes : List (String × ℤ)
  pub errors : List ErrorGroup

pub record Batch (F : Type 0) : Type 0 where
  pub execution_id : ℤ
  pub scenario_id : ℤ
  pub run_id : ℤ
  pub shard_index : ℤ
  pub stream_id : String
  pub intervals : List (Interval F)
  pub cluster : String
  pub final : Bool
  pub exit_code : Option ℤ

-- `m[k] += n`
unfoldable pub add_at {ℓ} : {K : Type ℓ} → (K → K → Bool) → K → ℤ → List (K × ℤ) → List (K × ℤ)
unfolding store lookup_or
add_at eq k n m = store eq k (wrap64 (lookup_or eq (pos 0) k m +ℤ n)) m

-- The loop of a merge: every count of `other` is added.
unfoldable pub merge_counts {ℓ} :
    {K : Type ℓ} → (K → K → Bool) → List (K × ℤ) → List (K × ℤ) → List (K × ℤ)
merge_counts eq m [] = m
merge_counts eq m ((k, n) ∷ other) = merge_counts eq (add_at eq k n m) other

-- `mergeError`: the first group of the same code and message takes the count.
unfoldable pub merge_error : List ErrorGroup → ErrorGroup → List ErrorGroup
unfolding same_text
merge_error [] e = e ∷ []
merge_error (g ∷ gs) e =
    if same_text g.response_code e.response_code && same_text g.message e.message
    then record g { count = wrap64 (g.count +ℤ e.count) } ∷ gs
    else g ∷ merge_error gs e

unfoldable pub merge_errors : List ErrorGroup → List ErrorGroup → List ErrorGroup
merge_errors gs [] = gs
merge_errors gs (e ∷ es) = merge_errors (merge_error gs e) es

module _ (fl : Float64) where
  open fl use {F, of_int, mul, div, le, lt, eqb, ceil}

  -- `Interval.Merge`
  unfoldable pub merge : Interval F → Interval F → Interval F
  unfolding merge_counts merge_errors
  merge i other = record i {
    concurrency = wrap64 (i.concurrency +ℤ other.concurrency);
    samples = wrap64 (i.samples +ℤ other.samples);
    succeeded = wrap64 (i.succeeded +ℤ other.succeeded);
    failed = wrap64 (i.failed +ℤ other.failed);
    bytes = wrap64 (i.bytes +ℤ other.bytes);
    latency = merge_counts eqb i.latency other.latency;
    response_codes = merge_counts str_eq i.response_codes other.response_codes;
    errors = merge_errors i.errors other.errors;
  }

  -- The loop of `Histogram.Count`.
  unfoldable pub count_from : ℤ → Histogram F → ℤ
  count_from total [] = total
  count_from total ((rt, n) ∷ h) = count_from (wrap64 (total +ℤ n)) h

  unfoldable pub count : Histogram F → ℤ
  unfolding count_from
  count h = count_from (pos 0) h

  abbrev pub earlier_bucket : F × ℤ → F × ℤ → Bool
  earlier_bucket a b = lt a.0 b.0

  -- `math.Min(math.Max(p, 0), 100)`
  unfoldable pub clamp_percentile : F → F
  clamp_percentile p =
      let low = if le p (of_int (pos 0)) then of_int (pos 0) else p in
      if le (of_int (pos 100)) low then of_int (pos 100) else low

  -- The nearest rank of a percentile among `total` samples, at least the first.
  unfoldable pub rank_of : ℤ → F → ℤ
  unfolding clamp_percentile
  rank_of total p =
      let rank = ceil (mul (div (clamp_percentile p) (of_int (pos 100))) (of_int total)) in
      if ltb_ℤ rank (pos 1) then pos 1 else rank

  -- The walk over the sorted buckets; `last` is the bucket passed last.
  unfoldable pub percentile_from : ℤ → ℤ → F → List (F × ℤ) → F
  percentile_from rank seen last [] = last
  percentile_from rank seen last ((rt, n) ∷ buckets) =
      let seen' = wrap64 (seen +ℤ n) in
      let rest = percentile_from rank seen' rt buckets in if leb_ℤ rank seen' then rt else rest

  unfoldable pub percentile : Histogram F → F → F
  percentile h p =
      let total = count h in
      let buckets = sort_by earlier_bucket h in
      if eqb_ℤ total (pos 0)
      then of_int (pos 0)
      else percentile_from (rank_of total p) (pos 0) (of_int (pos 0)) buckets

  -- The inner loop of `Percentiles` at one bucket: what it assigns, and the percentiles left.
  unfoldable pub assign_at : ℤ → F → ℤ → List F → List (F × F) × List F
  assign_at total rt seen [] = ([], [])
  assign_at total rt seen (p ∷ ps) =
      let rest = assign_at total rt seen ps in
      if ltb_ℤ seen (rank_of total p) then ([], p ∷ ps) else ((p, rt) ∷ rest.0, rest.1)

  abbrev pub assign_all : F → List F → List (F × F)
  assign_all rt ps = map (λ p. (p, rt)) ps

  -- The outer loop over the buckets, and the loop for what is left behind the last one.
  unfoldable pub percentiles_from : ℤ → ℤ → F → List (F × ℤ) → List F → List (F × F)
  percentiles_from total seen last [] ps = assign_all last ps
  percentiles_from total seen last ((rt, n) ∷ buckets) ps =
      let seen' = wrap64 (seen +ℤ n) in
      let assigned = assign_at total rt seen' ps in
      assigned.0 ++ percentiles_from total seen' rt buckets assigned.1

  -- `Percentiles`, with its assignments in the order in which they are made.
  unfoldable pub percentiles : Histogram F → List F → List (F × F)
  percentiles h ps =
      let total = count h in
      let buckets = sort_by earlier_bucket h in
      if eqb_ℤ total (pos 0)
      then assign_all (of_int (pos 0)) ps
      else percentiles_from total (pos 0) (of_int (pos 0)) buckets (sort_by lt ps)
