-- ===== src/Report.antt =====
-- internal/domain/report: what a run's measurements say of it. The report while it is measured is in
-- Accumulator, its failures in Failures, its seconds in Series.
pub mod Failures
pub mod Accumulator
pub mod Snapshots
pub mod Series
pub mod Soak
pub mod Summary
pub mod Trend
pub mod Exemplars
use honryu.Base.{String}

-- `TotalLabel`: the label of the engine's own aggregate.
abbrev pub total_label : String
total_label = "__total__"
