-- ===== src/Protocol/Types.antt =====
-- The values that jobs, findings and events are made of (packages/protocol/src: finding.ts,
-- event.ts, runner.ts). Texts that the code only stores or compares are numbers.
use trawler.Base.{ℕ, Bool, true, false, Option, some, List}

pub data JobKind : Type 0 where
  account_check role_session group replay judge triage pr_plan : JobKind

-- `StopReasonSchema` with the reasons that only jobs have, `JobStopReasonSchema`.
pub data StopReason : Type 0 where
  finish max_steps budget error report no_report done : StopReason

pub data Verdict : Type 0 where
  confirmed refuted inconclusive : Verdict

pub data FindingKind : Type 0 where
  defect friction : FindingKind

pub data GoalStatus : Type 0 where
  reached failed not_attempted : GoalStatus

pub record GoalOutcome : Type 0 where
  pub goal : ℕ
  pub status : GoalStatus
  pub note : ℕ

-- `blockedAt` is positive by the schema; `botProtection` is kept as its presence.
pub record Observation : Type 0 where
  pub completed : Bool
  pub observed : ℕ
  pub blocked_at : Option ℕ
  pub bot_protection : Bool

-- `people` is `by`, one person for each step.
pub record Finding : Type 0 where
  pub id : ℕ
  pub kind : FindingKind
  pub goal : ℕ
  pub title : ℕ
  pub observed : ℕ
  pub reproduction : List ℕ
  pub severity : ℕ
  pub people : Option (List ℕ)

abbrev pub is_role_session : JobKind → Bool
is_role_session JobKind.role_session = true
is_role_session _ = false

abbrev pub is_judge : JobKind → Bool
is_judge JobKind.judge = true
is_judge _ = false

abbrev pub is_triage : JobKind → Bool
is_triage JobKind.triage = true
is_triage _ = false

abbrev pub is_account_check : JobKind → Bool
is_account_check JobKind.account_check = true
is_account_check _ = false

abbrev pub is_pr_plan : JobKind → Bool
is_pr_plan JobKind.pr_plan = true
is_pr_plan _ = false

abbrev pub is_error : StopReason → Bool
is_error StopReason.error = true
is_error _ = false

abbrev pub is_defect : FindingKind → Bool
is_defect FindingKind.defect = true
is_defect _ = false

abbrev pub is_failed : GoalStatus → Bool
is_failed GoalStatus.failed = true
is_failed _ = false

abbrev pub is_confirmed : Option Verdict → Bool
is_confirmed (some Verdict.confirmed) = true
is_confirmed _ = false
