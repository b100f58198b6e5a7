-- ===== src/Report/Trend.antt =====
-- internal/domain/report/trend.go
pub mod Baselines
use honryu.Base.{ℕ, Bool, true, false, ◌&&◌, not, List, [], ◌∷◌, Option, str_eq, if◌then◌else◌}
use honryu.Base.Ints.{ℤ, pos, eqb_ℤ}
use honryu.Base.Floats.{Float64}
use honryu.Base.Maps.{lookup_or}
use honryu.Base.Text.{same_text}
use honryu.Base.Times.{Time}
use honryu.Taurus.{Outcome}
use honryu.Report.Summary.{Report, short_of_request}

pub record TrendPoint (F : Type 0) : Type 0 where
  pub run_id : ℤ
  pub started_at : Option Time
  pub outcome : Outcome
  pub achieved_throughput : F
  pub requested_throughput : F
  pub error_rate : F
  pub p50 : F
  pub p90 : F
  pub p95 : F
  pub p99 : F
  pub hit_target_qps : Bool
  pub has_comparable_predecessor : Bool
  pub regressed : Bool

pub record Trend (F : Type 0) : Type 0 where
  pub execution_id : ℤ
  pub points : List (TrendPoint F)

module _ (fl : Float64) where
  open fl use {F, of_int, eqb}

  -- `ShortOfRequest` of a report.
  abbrev pub short : Report F → Bool
  short r = short_of_request fl r.identity.requested r.achieved

  unfoldable pub comparable : Report F → Report F → Bool
  comparable a b =
      eqb_ℤ a.identity.execution_id b.identity.execution_id
      && str_eq a.identity.engine b.identity.engine
      && same_text a.identity.cluster b.identity.cluster
      && eqb_ℤ a.identity.requested.concurrency b.identity.requested.concurrency
      && eqb a.identity.requested.throughput b.identity.requested.throughput
      && eqb_ℤ a.identity.requested.duration_seconds b.identity.requested.duration_seconds

  -- The loop over the earlier reports, which ends at the first that is comparable: whether there is
  -- one, and whether the run regressed on it.
  unfoldable pub against : Report F → List (Report F) → Bool × Bool
  unfolding comparable
  against r [] = (false, false)
  against r (other ∷ rest) =
      let later : Bool × Bool = against r rest in
      if comparable r other then (true, short r && not (short other)) else later

  unfoldable pub point_of : Report F → List (Report F) → TrendPoint F
  unfolding against
  point_of r rest =
      let (has, worse) = against r rest in
      record {
        run_id = r.identity.run_id;
        started_at = r.identity.started_at;
        outcome = r.identity.outcome;
        achieved_throughput = r.achieved.throughput;
        requested_throughput = r.identity.requested.throughput;
        error_rate = r.error_rate;
        p50 = lookup_or eqb (of_int (pos 0)) (of_int (pos 50)) r.latency;
        p90 = lookup_or eqb (of_int (pos 0)) (of_int (pos 90)) r.latency;
        p95 = lookup_or eqb (of_int (pos 0)) (of_int (pos 95)) r.latency;
        p99 = lookup_or eqb (of_int (pos 0)) (of_int (pos 99)) r.latency;
        hit_target_qps = not (short r);
        has_comparable_predecessor = has;
        regressed = worse;
      }

  unfoldable pub points_of : List (Report F) → List (TrendPoint F)
  unfolding point_of
  points_of [] = []
  points_of (r ∷ rest) = point_of r rest ∷ points_of rest

  unfoldable pub build_trend : List (Report F) → Trend F
  unfolding points_of
  build_trend [] = record { execution_id = pos 0; points = [] }
  build_trend (r ∷ rest) = record {
    execution_id = r.identity.execution_id;
    points = points_of (r ∷ rest);
  }
