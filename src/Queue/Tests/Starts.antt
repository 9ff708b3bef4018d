-- ===== src/Queue/Tests/Starts.antt =====
-- A newer push to a pull request: its run takes the place of the earlier one.
use trawler.Base.{ℕ, ◌≡◌, refl, arith, false, none, some, [], ◌∷◌}
use trawler.Base.Rows.{count_if}
use trawler.Queue.Rows.{Rows, Job, RunStatus, JobStatus, Execution, PaidBy, CancelReason}
use trawler.Queue.Start.{Entry, Workspace, StartRunOptions, started, start_run, new_run}
use trawler.Queue.Start.Bounds.{IsWithin, start_run-IsWithin}
use trawler.Queue.Tests.{start, first_run, role_job, around}

abbrev earlier : Entry
earlier = record { rows = start; pull_request = some 9 }

abbrev before_push : Workspace
before_push = record {
  runs = earlier ∷ [];
  runs_today = 1;
  runs_per_day = some 3;
  people_allowed = 4;
}

abbrev push : StartRunOptions
push = record {
  project_id = 4;
  execution = Execution.hosted;
  target_url = none;
  pull_request = some 9;
  paid_by = PaidBy.workspace;
  uses_first_run_on_us = false;
  provides_accounts = false;
  without_account = none;
  people = 2;
  personas = 2;
}

abbrev next_rows : Rows
next_rows = record start { run = record first_run { id = 8 } }

abbrev cancelled_job : ℕ → Job
cancelled_job i = record (role_job i) { status = JobStatus.cancelled; finished_at = some 5000 }

abbrev superseded_rows : Rows
superseded_rows = record start {
  run = record first_run {
    status = RunStatus.cancelled;
    cancel_reason = some CancelReason.superseded;
    finished_at = some 5000;
  };
  jobs = cancelled_job 0 ∷ cancelled_job 1 ∷ [];
}

abbrev after_push : Workspace
after_push = record before_push {
  runs =
      record { rows = superseded_rows; pull_request = some 9 }
      ∷ record { rows = new_run push next_rows; pull_request = some 9 }
      ∷ [];
  runs_today = 2;
}

one_more_run : start_run (around 5000) push next_rows before_push ≡ started after_push
unfolding start_run trawler.Queue.Limits.cancel_run
one_more_run = refl

before_push-IsWithin : IsWithin before_push.runs
unfolding count_if
before_push-IsWithin = (λ project. ground arith, omega arith)

start_run-IsWithin_example : IsWithin after_push.runs
start_run-IsWithin_example =
    start_run-IsWithin (around 5000) push next_rows before_push after_push before_push-IsWithin
      one_more_run
