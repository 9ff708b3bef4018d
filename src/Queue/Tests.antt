-- ===== src/Queue/Tests.antt =====
-- A run of two people on one goal, and its rows at the start.
mod Runs
mod Pauses
mod Channels
mod Starts
mod Sweeps
use trawler.Base.{ℕ, suc, Bool, true, false, Option, none, some, List, [], ◌∷◌}
use trawler.Protocol.Types.{JobKind}
use trawler.Protocol.Turns.{Persona, Goal}
use trawler.Queue.Rows.{Rows, Run, Job, Around, RunStatus, JobStatus, Execution, PaidBy, Snapshot}

abbrev pub snapshot : Snapshot
snapshot = record {
  personas = record { id = 1; name = 11 } ∷ record { id = 2; name = 12 } ∷ [];
  goals = record { id = 5; persona_id = none } ∷ [];
  setup = none;
}

abbrev pub first_run : Run
first_run = record {
  id = 7;
  org_id = 3;
  project_id = 4;
  status = RunStatus.queued;
  cancel_reason = none;
  execution = Execution.hosted;
  target_override = false;
  conversation = false;
  paid_by = PaidBy.workspace;
  budget_usd = 2000000;
  cost_usd = 0;
  token_cap = some 3000000;
  tokens_used = 0;
  completion_usd_per_mtok = none;
  max_steps = 120;
  replay_steps = 30;
  sign_up_seed = none;
  config_snapshot = snapshot;
  created_at = 1000;
  started_at = none;
  finished_at = none;
  client_seen_at = none;
}

abbrev pub role_job : ℕ → Job
role_job i = record {
  id = i;
  kind = JobKind.role_session;
  position = i;
  status = JobStatus.queued;
  persona_key = some (suc i);
  finding_key = none;
  account_ref = none;
  token_hash = none;
  lease_until = none;
  requested_by = none;
  stopped_by = none;
  error = none;
  counted_cost = 0;
  started_at = none;
  finished_at = none;
}

abbrev pub start : Rows
start = record {
  run = first_run;
  jobs = role_job 0 ∷ role_job 1 ∷ [];
  findings = [];
  outcomes = [];
  dismissals = [];
  events = [];
  artifacts = [];
  first_run = none;
  usage = [];
  next_job = 2;
}

abbrev pub around : ℕ → Around
around now = record {
  now = now;
  month_start = 0;
  halted = false;
  paused = false;
  monthly_usd = some 50000000;
  free_plan = false;
  has_not_bugs = false;
  dismissed_elsewhere = [];
}
