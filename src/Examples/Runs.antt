-- ===== src/Examples/Runs.antt =====
-- A run of one pod, whose last batch ends it.
use honryu.Base.{ℕ, ◌≡◌, refl, String, [], ◌∷◌, true, false, Option, some, none}
use honryu.Base.Ints.{pos, eqb_ℤ, wrap64, ◌+ℤ◌}
use honryu.Base.Sorting.{sort_by, insert_by}
use honryu.Base.Maps.{lookup}
use honryu.Base.Text.{chars}
use honryu.Base.Thousandths.{thousandths}
use honryu.Execution.{Execution}
use honryu.LoadProfile.{Entry}
use honryu.Metrics.{Interval, Batch}
use honryu.Report.Series.{no_interval}
use honryu.Report.Accumulator.{new_accumulator}
use honryu.Report.Summary.{Report, Meta, report}
use honryu.Taurus.{passed, aborted}
use honryu.Control.{Control, RunRecord}
use honryu.Control.Finalize.{finalize}
use honryu.Control.Ingest.{ingest}
use honryu.Control.Once.{finalize_again}
use honryu.Control.Ends.{IsOver, finalize-IsOver}
use honryu.Control.Apart.{ingest_spares}
use honryu.Control.Closing.{AllFinished, absorbed, ingest_closes}

abbrev shop : Execution
shop = record {
  id = pos 1;
  name = chars "shop";
  project_id = pos 9;
  engine = "k6";
  kind = "normal";
  cpu = "";
  memory = "";
  cluster = [];
  fan_out_targets = [];
  csv_split = false;
  tenant_id = none;
  created_by = "";
  updated_by = "";
}

abbrev browse : Entry
browse = record {
  name = "browse";
  scenario_id = pos 2;
  concurrency = pos 4;
  rampup = pos 0;
  engines = pos 1;
  throughput = pos 10;
  duration = pos 60;
  csv_split = false;
  mode = "";
  steps = pos 0;
}

abbrev started : RunRecord
started = record {
  run_id = pos 3;
  execution_id = pos 1;
  started_time = pos 0;
  end_time = none;
  correlation_id = chars "trace";
}

abbrev running : Control ℕ
running = record {
  current_runs = (pos 1, pos 3) ∷ [];
  run_history = (pos 3, started) ∷ [];
  profiles = (pos 1, browse ∷ []) ∷ [];
  executions = (pos 1, shop) ∷ [];
  orphans = [];
  last_activity = [];
  progress = record { runs = []; series = []; fails = none; discard_fails = none };
  reports = [];
  save_fails = none;
  get_fails = none;
  seen = [];
  tally = [];
  recorded = [];
  notified = [];
}

abbrev measured : Interval ℕ
measured = record no_interval {
  seq = pos 1;
  timestamp = pos 7;
  label = "/";
  concurrency = pos 4;
  samples = pos 10;
  succeeded = pos 10;
}

abbrev last_batch : Batch ℕ
last_batch = record {
  execution_id = pos 1;
  scenario_id = pos 2;
  run_id = pos 3;
  shard_index = pos 0;
  stream_id = "first";
  intervals = measured ∷ [];
  cluster = "";
  final = true;
  exit_code = some (pos 0);
}

-- A grader that works.
abbrev grade : Report ℕ → Option String
grade rep = none

finalize-IsOver_example :
    IsOver thousandths grade
      (pos 1)
      (pos 3)
      (finalize thousandths grade (pos 90) (pos 1) (pos 3) passed running)
unfolding lookup
finalize-IsOver_example =
    finalize-IsOver thousandths grade (pos 1) (pos 3) (pos 90) passed started shop running
      (λ rep. refl) refl refl refl refl refl refl refl

abbrev intent : Meta ℕ
intent = record {
  execution_id = pos 1;
  scenario_id = pos 2;
  run_id = pos 3;
  engine = "k6";
  cluster = [];
  correlation_id = chars "trace";
  started_at = none;
  ended_at = none;
  requested = record {
    concurrency = pos 4;
    throughput = 10000;
    duration_seconds = pos 60;
    steps = [];
    samples = pos 0;
    failed = pos 0;
  };
  outcome = passed;
}

-- The run, stopped by hand after it has passed.
abbrev over : Control ℕ
over = record running { reports = (pos 3, report thousandths new_accumulator intent) ∷ [] }

finalize_again_example :
    ((finalize thousandths grade (pos 95) (pos 1) (pos 3) aborted over).1.reports ≡ over.reports)
    × ((finalize thousandths grade (pos 95) (pos 1) (pos 3) aborted over).1.notified
        ≡ over.notified)
unfolding lookup
finalize_again_example =
    finalize_again thousandths grade (pos 95) (pos 1) (pos 3) aborted
      (report thousandths new_accumulator intent) over refl refl

ingest_spares_example :
    (lookup eqb_ℤ (pos 4) (ingest thousandths grade (pos 90) last_batch running).1.progress.runs
      ≡ lookup eqb_ℤ (pos 4) running.progress.runs)
    × (lookup eqb_ℤ (pos 4) (ingest thousandths grade (pos 90) last_batch running).1.reports
        ≡ lookup eqb_ℤ (pos 4) running.reports)
ingest_spares_example =
    ingest_spares thousandths grade (pos 90) last_batch (pos 4) running refl refl

ingest_closes_example :
    (last_batch.final ≡ true)
    × AllFinished thousandths grade
        (pos 1)
        (pos 3)
        (absorbed thousandths grade (pos 1) (pos 3) last_batch running)
unfolding lookup ingest wrap64 ◌+ℤ◌ sort_by insert_by
ingest_closes_example =
    ingest_closes thousandths grade (pos 1) (pos 3) (pos 90) last_batch running refl refl refl
