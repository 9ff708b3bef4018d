-- ===== src/Queue/Rows.antt =====
-- The rows that belong to one run, as the queue reads and writes them (the tables `runs`, `jobs`,
-- `findings`, `goal_outcomes`, `finding_dismissals`, `first_runs_on_us`, `llm_usage`, `artifacts`
-- and `run_events`). Identifiers and keys are numbers in the order of the database; dollars are
-- micro-dollars, as `numeric(…, 6)` stores them; times are milliseconds.
use trawler.Base.{ℕ, suc, max, Bool, true, false, Option, List, [], ◌∷◌, any}
use trawler.Protocol.Turns.{Persona, Goal}
use trawler.Protocol.Types.{JobKind, StopReason, Verdict, FindingKind, GoalStatus, Observation}

pub data RunStatus : Type 0 where
  queued running succeeded failed cancelled stopped_budget : RunStatus

pub data JobStatus : Type 0 where
  queued leased succeeded failed cancelled : JobStatus

-- `CancelReason` of runs.ts.
pub data CancelReason : Type 0 where
  stopped_over_mcp stopped key_removed account_refused time_limit workspace_budget paused halted
        stopped_from_ci unclaimed ci_gone superseded nothing_to_test :
      CancelReason

pub data Execution : Type 0 where
  hosted own : Execution

-- `paid_by`: "workspace", or "trawler" for a first run on us.
pub data PaidBy : Type 0 where
  workspace on_us : PaidBy

pub data JobError : Type 0 where
  stopped_answering not_prepared : JobError
  refused : Option ℕ → ℕ → JobError
  reported : ℕ → JobError

pub record Snapshot : Type 0 where
  pub personas : List Persona
  pub goals : List Goal
  pub setup : Option ℕ

pub record Run : Type 0 where
  pub id : ℕ
  pub org_id : ℕ
  pub project_id : ℕ
  pub status : RunStatus
  pub cancel_reason : Option CancelReason
  pub execution : Execution
  pub target_override : Bool
  pub conversation : Bool
  pub paid_by : PaidBy
  pub budget_usd : ℕ
  pub cost_usd : ℕ
  pub token_cap : Option ℕ
  pub tokens_used : ℕ
  pub completion_usd_per_mtok : Option ℕ
  pub max_steps : ℕ
  pub replay_steps : ℕ
  pub sign_up_seed : Option ℕ
  pub config_snapshot : Snapshot
  pub created_at : ℕ
  pub started_at : Option ℕ
  pub finished_at : Option ℕ
  pub client_seen_at : Option ℕ

pub record Job : Type 0 where
  pub id : ℕ
  pub kind : JobKind
  pub position : ℕ
  pub status : JobStatus
  pub persona_key : Option ℕ
  pub finding_key : Option ℕ
  pub account_ref : Option ℕ
  pub token_hash : Option ℕ
  pub lease_until : Option ℕ
  pub requested_by : Option ℕ
  pub stopped_by : Option StopReason
  pub error : Option JobError
  pub counted_cost : ℕ
  pub started_at : Option ℕ
  pub finished_at : Option ℕ

pub record FindingRow : Type 0 where
  pub key : ℕ
  pub job_id : ℕ
  pub persona_key : Option ℕ
  pub kind : FindingKind
  pub goal : ℕ
  pub title : ℕ
  pub observed : ℕ
  pub reproduction : List ℕ
  pub severity : ℕ
  pub step_people : Option (List ℕ)
  pub verdict : Option Verdict
  pub replay : Option Observation
  pub same_as : Option ℕ
  pub filed_as : Option FindingKind
  pub created_at : ℕ

pub record OutcomeRow : Type 0 where
  pub persona_key : Option ℕ
  pub goal : ℕ
  pub status : GoalStatus
  pub note : ℕ

pub data DismissedBy : Type 0 where
  by_user : ℕ → DismissedBy
  by_trawler : DismissedBy

pub record DismissalRow : Type 0 where
  pub finding_key : ℕ
  pub reason : ℕ
  pub dismissed_by : DismissedBy
  pub matched_run_id : Option ℕ

pub record EventRow : Type 0 where
  pub job_id : ℕ
  pub seq : ℕ

pub record UsageRow : Type 0 where
  pub paid_by : PaidBy
  pub cost_usd : ℕ
  pub created_at : ℕ

pub record ArtifactRow : Type 0 where
  pub job_id : ℕ
  pub discarded_at : Option ℕ

-- The row of `first_runs_on_us` for this run.
pub record FirstRun : Type 0 where
  pub model_called_at : Option ℕ

-- `usage` holds the `llm_usage` rows of the whole workspace. `next_job` stands for the database's
-- fresh identifiers.
pub record Rows : Type 0 where
  pub run : Run
  pub jobs : List Job
  pub findings : List FindingRow
  pub outcomes : List OutcomeRow
  pub dismissals : List DismissalRow
  pub events : List EventRow
  pub artifacts : List ArtifactRow
  pub first_run : Option FirstRun
  pub usage : List UsageRow
  pub next_job : ℕ

-- A dismissal of another run of the same project, made by a person.
pub record Elsewhere : Type 0 where
  pub run_id : ℕ
  pub finding_key : ℕ
  pub reason : ℕ

-- What a transaction reads besides: the clock, `TRAWLER_HALT_RUNS`, the project's pause, the
-- workspace's monthly budget and its plan, whether `notBugsOf` finds a report of the project, and
-- the dismissals that it may match.
pub record Around : Type 0 where
  pub now : ℕ
  pub month_start : ℕ
  pub halted : Bool
  pub paused : Bool
  pub monthly_usd : Option ℕ
  pub free_plan : Bool
  pub has_not_bugs : Bool
  pub dismissed_elsewhere : List Elsewhere

abbrev pub minute : ℕ
minute = 60000

abbrev pub lease_minutes : ℕ
lease_minutes = 10

-- `ACTIVE.includes(status)`
abbrev pub is_active : RunStatus → Bool
is_active RunStatus.queued = true
is_active RunStatus.running = true
is_active _ = false

abbrev pub is_queued : JobStatus → Bool
is_queued JobStatus.queued = true
is_queued _ = false

abbrev pub is_leased : JobStatus → Bool
is_leased JobStatus.leased = true
is_leased _ = false

-- `status in ('queued', 'leased')`
abbrev pub is_open : JobStatus → Bool
is_open JobStatus.queued = true
is_open JobStatus.leased = true
is_open _ = false

abbrev pub any_open : List Job → Bool
any_open = any (λ j. is_open j.status)

-- `coalesce(max(position), -1) + 1`
abbrev pub next_position : List Job → ℕ
next_position [] = 0
next_position (j ∷ jobs) = max (suc j.position) (next_position jobs)
