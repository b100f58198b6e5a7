-- ===== src/Lib.antt =====
-- Verification of honryu, a platform that runs load tests on Kubernetes. What is modelled is the core of
-- the Go program: how a load is described, checked, divided and sized, how capacity is reserved, how
-- engines are deployed and a run is started, stopped and swept up, how a pod's capacity is searched for,
-- how measurements are merged and read, and how a run ends in a report.
--
-- The parts and how they interact. A request is authorized by the caller's roles, which count
-- everywhere or in one tenant. A campaign designates an execution for each project that takes part.
-- An execution runs on one cluster or fans out to several, and holds a load profile, with an entry for
-- each scenario. A mode resolves an entry's ramp-up and, for a staircase, its step table, and suggests
-- thresholds. Deploying an execution divides each entry among engine pods by the shard plan, compiles a
-- config for each pod and hands it to every target cluster. A trigger checks that the engines are there,
-- reserves their capacity against the tenant's quota and opens the run; a stop closes it, and passes close
-- the runs that are stranded and take down the engines that nothing uses. The run's phase says which of
-- these it permits. The lifecycle asks all this of the repository, the scheduler, the object store and
-- other services through one interface, Lifecycle/Ports, with the laws of Lifecycle/Laws for the marker
-- of an open run, which a reservation may close for other executions; the in-memory ports of
-- Lifecycle/Store fill it. The engines' measurements are
-- read from their stream by a sidecar, pushed in batches that may be lost or repeated, shown live, and
-- absorbed into the run's working state: where each shard stands, an accumulator and a series of
-- seconds. When every shard has sent its last batch, or a run is stopped or found orphaned, the
-- accumulator gives the run's report, with its outcome from the engines' exit codes; the report is
-- kept, graded, and the run's marker and working state are removed. A report is judged by thresholds, by
-- the budget of a service level, by the trend of its execution and, with the other services' reports, by
-- a campaign's verdict. A calibration search runs single-pod steps to find how many requests per second
-- one pod sustains.
--
-- The files and the code they follow (a file's child modules hold what is proved of it):
--   LoadMode      internal/domain/loadmode/loadmode.go: Valid, ParseMode, RampupSeconds; in
--                 LoadMode/Staircase StaircaseSteps and in LoadMode/Sizing Concurrency
--   LoadProfile   internal/domain/loadprofile/loadprofile.go: Entry, Profile, both Validate methods,
--                 TotalEngines, LongestDurationSeconds
--   Shard         internal/domain/shard/shard.go: Plan, Split, Total
--   Run           internal/domain/run/run.go: DerivePhase, CanDeploy, CanTrigger, CanStop, VirtualUsers
--   Lifecycle     internal/app/lifecycleapp/service.go. Its parts: Lifecycle/Ports, the interface (with
--                 internal/ports/scheduler.go and run_repository.go); Lifecycle/Actions, its methods as
--                 state passing with errors; Lifecycle/Check, what Trigger asks first; Lifecycle/Trigger,
--                 Trigger with engineEquivalents and snapshotConfigs; Lifecycle/Teardown, Stop, Purge,
--                 teardown and captureLogs; Lifecycle/Sweeps, Reconcile, ReconcileAbandoned and
--                 ReapIdle; Lifecycle/Views, Status, ClusterStatus, EnginesDetail and PodLog;
--                 Lifecycle/Deploy, Deploy with compileShards, and Headers of
--                 internal/domain/telemetry/telemetry.go; Lifecycle/Store, repository.go,
--                 run_repository.go, orphan_repository.go, scheduler.go and objectstore.go of
--                 internal/ports/fake
--   Calibration   internal/domain/calibration/calibration.go: WithDefaults, Validate, Start, Next with
--                 doubleOrFinish and bisectOrFinish
--   Metrics       internal/domain/metrics/interval.go and histogram.go: Interval, Merge, Count,
--                 Percentile, Percentiles
--   Reservation   internal/domain/reservation/reservation.go: Validate, Overlaps
--   Quota         internal/app/quotaapp/service.go: Reserve, usedCapacity, overrunReservations,
--                 reclaimOverrun, Release, ClusterCapacity, over the store of
--                 internal/ports/fake/reservation_repository.go
--   Execution     internal/domain/execution/execution.go: New, Validate, NormalizeFanOutTargets, Clusters
--   Campaign      internal/domain/campaign/campaign.go: Validate, IsActive, DesignatedExecution;
--                 Campaign/Verdict is Verdict and otherLoad of internal/app/campaignapp/verdict.go
--   Comparison    internal/domain/campaign/compare.go: Compare, classify
--   Rbac          internal/domain/rbac/rbac.go and internal/domain/account/account.go: Allows, Can,
--                 Authorize, DefaultCatalog
--   Sidecar       internal/sidecar/sidecar.go: drain, consumeLines, consume, flush (as the batch it sends
--                 and what a successful answer drops), checkExitCode
--   Taurus        internal/domain/taurus/run.go: OutcomeFromExitCode, CombineOutcomes
--   Report        internal/domain/report/report.go. Its parts: Report/Failures, attribution.go and
--                 signature.go; Report/Accumulator and Report/Snapshots, accumulate.go;
--                 Report/Series, second.go with internal/ports/fake/interval_repository.go;
--                 Report/Soak, soak.go; Report/Summary, the report itself; Report/Trend, trend.go
--   Threshold     internal/domain/threshold/threshold.go, with SuggestedThresholds of
--                 internal/domain/loadmode/loadmode.go
--   Slo           internal/domain/slo/slo.go: Validate, ParseWindow, Evaluate, Worst, WindowMean
--   Progress      internal/ports/reportprogress.go and internal/ports/fake/reportprogress.go: Validate,
--                 Absorb, ShardStates, Discard; the accumulator and the series are the interface Tally,
--                 which Report/Series/Stored fills
--   Control       internal/app/metricsapp/ingest.go and service.go: Control/Ingest is Ingest with
--                 allShardsFinished; Control/Finalize the ends of a run, over run_repository.go,
--                 reportstore.go and orphan_repository.go of internal/ports/fake
--   Delivery      a sidecar's pushes, lost, retried or answered, as a step relation; the batch that
--                 Ingest of internal/app/metricsapp/ingest.go hands on
--   Base          what the parts share: integers, floating point, text, time, maps, sorting
--   Examples      runs on concrete inputs
--
-- How the code is read. `int` and `int64` are the integers of Base/Ints, with the 64-bit wrap-around of
-- each sum and product written out, save where the code's own bounds exclude it. `float64` is the
-- interface Base/Floats: the operations that the code uses, with the laws of IEEE 754 arithmetic that
-- the theorems rely on (order, monotonicity, exact integers up to 2^53) as fields; NaN and infinities
-- are outside it. Base/Thousandths fills it with fixed-point numbers, for the runs on concrete inputs.
-- A Go map is an association list with one entry for each key; an `error` is a constructor with the
-- values that its message quotes; a method that changes its receiver takes and returns its state; a
-- clock reading is an argument. `sort.Slice` is an insertion sort, one of the orders that Go's
-- unstable sort may give.
--
-- Bounds and fuel. Loops over lists are structural. A number is printed on fuel of 19 digits, as many
-- as an `int64` has. The loop that runs a calibration's steps is on fuel: `MaxSteps` rounds, which is
-- what the search itself is limited to. Sums are compared with the unbounded sum under hypotheses that
-- it fits an `int`.
--
-- Two readings are narrower than Go's. `strings.ToLower` maps the letters whose lower case is an ASCII
-- letter, which are all that the phrases it is used for can match. A `switch` on the names of
-- constants keeps them as text.
--
-- The lifecycle's world is one value that every call of a port passes on, so that what other callers do
-- between two calls is not seen. The configs and the logs that goroutines copy, each under its own key, are
-- copied one after the other.
--
-- What is not modelled. The compiler to Taurus with the YAML package, and the quantities of Kubernetes, are
-- parameters of the lifecycle. The in-memory ports stop the executions that a reservation reclaims capacity
-- from; which they are is a parameter there, and is modelled in Quota. The stopper that reclaims an overrun is a parameter with the documented
-- behaviour as a hypothesis. The grader that a finished report is handed to and the evaluation of a
-- run's criteria are parameters too, and so is the repository that a campaign's verdict reads, with its
-- errors. Elsewhere errors of the database are left out, as are locks, HTTP, Kubernetes, the encoding of
-- JSON and the rendering of engine configurations: they are I/O or third-party formats.
pub mod Base
pub mod Calibration
pub mod Campaign
pub mod Comparison
pub mod Control
pub mod Delivery
pub mod Examples
pub mod Execution
pub mod Lifecycle
pub mod LoadMode
pub mod LoadProfile
pub mod Metrics
pub mod Progress
pub mod Quota
pub mod Rbac
pub mod Report
pub mod Reservation
pub mod Run
pub mod Shard
pub mod Sidecar
pub mod Slo
pub mod Taurus
pub mod Threshold
