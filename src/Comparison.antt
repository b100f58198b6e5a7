-- ===== src/Comparison.antt =====
-- internal/domain/campaign/compare.go: each project of a campaign beside its baseline.
pub mod Covers
use honryu.Base.{
  Bool, true, false, ◌&&◌, ◌||◌, not, List, [], ◌∷◌, ◌++◌, Option, none, some, if◌then◌else◌,
}
use honryu.Base.Ints.{ℤ, eqb_ℤ, ltb_ℤ}
use honryu.Base.Maps.{lookup, store}
use honryu.Base.Sorting.{sort_by}

pub record ServiceSignal : Type 0 where
  pub project_id : ℤ
  pub is_go : Bool

pub data ComparisonStatus : Type 0 where
  improved regressed newly_at_risk still_at_risk steady new_service dropped : ComparisonStatus

pub record ServiceComparison : Type 0 where
  pub project_id : ℤ
  pub status : ComparisonStatus
  pub has_current : Bool
  pub is_go : Bool
  pub has_baseline : Bool
  pub baseline_go : Bool

unfoldable pub classify : Bool → Bool → Bool → Bool → ComparisonStatus
classify has_curr curr_go has_base base_go =
    if not has_curr
    then dropped
    else if not has_base
    then if curr_go then new_service else newly_at_risk
    else if curr_go && not base_go
    then improved
    else if not curr_go && base_go
    then regressed
    else if not curr_go && not base_go
    then still_at_risk
    else steady

-- The map from projects to their signals: a later one replaces an earlier one.
unfoldable pub index_from : List (ℤ × Bool) → List ServiceSignal → List (ℤ × Bool)
unfolding store
index_from m [] = m
index_from m (s ∷ signals) = index_from (store eqb_ℤ s.project_id s.is_go m) signals

unfoldable pub has_id : ℤ → List ℤ → Bool
has_id id [] = false
has_id id (i ∷ ids) = eqb_ℤ i id || has_id id ids

-- `ids[id] = struct{}{}` for every key of a map.
unfoldable pub add_ids : List ℤ → List (ℤ × Bool) → List ℤ
unfolding has_id
add_ids ids [] = ids
add_ids ids ((id, _) ∷ m) = add_ids (if has_id id ids then ids else id ∷ ids) m

abbrev pub signal_of : Option Bool → Bool × Bool
signal_of none = (false, false)
signal_of (some is_go) = (is_go, true)

unfoldable pub row_of : List (ℤ × Bool) → List (ℤ × Bool) → ℤ → ServiceComparison
unfolding lookup classify
row_of curr base id =
    let (curr_go, has_curr) = signal_of (lookup eqb_ℤ id curr) in
    let (base_go, has_base) = signal_of (lookup eqb_ℤ id base) in
    record {
      project_id = id;
      status = classify has_curr curr_go has_base base_go;
      has_current = has_curr;
      is_go = curr_go;
      has_baseline = has_base;
      baseline_go = base_go;
    }

unfoldable pub rows_of : List (ℤ × Bool) → List (ℤ × Bool) → List ℤ → List ServiceComparison
unfolding row_of
rows_of curr base [] = []
rows_of curr base (id ∷ ids) = row_of curr base id ∷ rows_of curr base ids

unfoldable pub compare : List ServiceSignal → List ServiceSignal → List ServiceComparison
unfolding index_from add_ids rows_of sort_by
compare current baseline =
    let curr = index_from [] current in
    let base = index_from [] baseline in
    rows_of curr base (sort_by ltb_ℤ (add_ids (add_ids [] curr) base))
