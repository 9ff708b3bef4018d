-- ===== src/Queue/Again.antt =====
-- Judging a defect again when its judge gave no verdict (`judgeAgain` of runs.ts, `gaveNoVerdict` of
-- report.ts), and dismissing a finding (dismissals.ts).
use trawler.Base.{
  ℕ, Bool, true, false, Option, none, some, List, [], ◌∷◌, ◌++◌, not, ◌&&◌, ◌||◌, ltb, ◌==◌,
  if◌then◌else◌, is_at, is_some, filter, find?,
}
use trawler.Base.Rows.{update}
use trawler.Protocol.Types.{JobKind, StopReason, Verdict, is_judge}
use trawler.Queue.Rows.{
  Rows, Job, FindingRow, DismissalRow, DismissedBy, Around, PaidBy, JobStatus, is_active, is_open,
  any_open, next_position,
}
use trawler.Queue.Limits.{cap_spent, spent_workspace_budget}
use trawler.Queue.Findings.{dismissed}
use trawler.Queue.Plan.{insert_job}

-- The messages of `CannotJudgeAgain`.
pub data CannotJudgeAgain : Type 0 where
  still_going runs_halted project_paused budget_spent already_judging has_verdict marked_not_a_bug
        run_cap_spent key_changed :
      CannotJudgeAgain

abbrev settles : Option Verdict → Bool
settles (some Verdict.confirmed) = true
settles (some Verdict.refuted) = true
settles _ = false

abbrev stopped_by_budget : Option StopReason → Bool
stopped_by_budget (some StopReason.budget) = true
stopped_by_budget _ = false

unfoldable pub gave_no_verdict : Job → Option Verdict → Bool
gave_no_verdict j verdict = if settles verdict then false else (elim j.status [
  | JobStatus.failed ↦ true
  | JobStatus.succeeded ↦
      stopped_by_budget j.stopped_by && (not (is_some verdict) || not (is_some j.requested_by))
  | _ ↦ false
])

abbrev judges : ℕ → Job → Bool
judges key j = is_judge j.kind && is_at j.finding_key key

abbrev later : Job → Option Job → Job
later j none = j
later j (some k) = if ltb k.position j.position then j else k

-- `ORDER BY position DESC`, the first.
unfoldable pub latest_judge : ℕ → List Job → Option Job
latest_judge key [] = none
latest_judge key (j ∷ jobs) =
    let rest = latest_judge key jobs in if judges key j then some (later j rest) else rest

abbrev is_open_job : Option Job → Bool
is_open_job none = false
is_open_job (some j) = is_open j.status

abbrev finding_at : ℕ → Rows → Option FindingRow
finding_at key s = find? (λ (f : FindingRow). f.key == key) s.findings

abbrev may_judge : Option Job → Option FindingRow → Bool
may_judge none f = false
may_judge (some j) none = false
may_judge (some j) (some f) = gave_no_verdict j f.verdict

-- The guards of `judgeAgain`, in order. `key_usable` says whether the workspace's model key is
-- still the one of the run.
unfoldable pub cannot_judge_again : Around → Bool → ℕ → Rows → Option CannotJudgeAgain
unfolding spent_workspace_budget latest_judge gave_no_verdict cap_spent
cannot_judge_again a key_usable key s =
    if is_active s.run.status
    then some still_going
    else if a.halted
    then some runs_halted
    else if a.paused
    then some project_paused
    else if spent_workspace_budget a s
    then some budget_spent
    else if is_open_job (latest_judge key s.jobs)
    then some already_judging
    else if not (may_judge (latest_judge key s.jobs) (finding_at key s))
    then some has_verdict
    else if dismissed s.dismissals key
    then some marked_not_a_bug
    else if cap_spent s.run
    then some run_cap_spent
    else if (elim s.run.paid_by [ PaidBy.workspace ↦ not key_usable | PaidBy.on_us ↦ false ])
    then some key_changed
    else none

abbrev pub queue_judge : ℕ → ℕ → Rows → Rows
queue_judge requested_by key s =
    let queued = insert_job JobKind.judge (next_position s.jobs) (some key) (some requested_by) s in
    record queued {
      findings =
          update (λ (f : FindingRow). f.key == key) (λ f. record f { verdict = none })
            queued.findings;
    }

abbrev pub judge_unless : ℕ → ℕ → Rows → Option CannotJudgeAgain → Rows × Option CannotJudgeAgain
judge_unless requested_by key s (some why) = (s, some why)
judge_unless requested_by key s none = (queue_judge requested_by key s, none)

unfoldable pub judge_again : Around → Bool → ℕ → ℕ → Rows → Rows × Option CannotJudgeAgain
unfolding cannot_judge_again insert_job update
judge_again a key_usable requested_by key s =
    judge_unless requested_by key s (cannot_judge_again a key_usable key s)

-- `CannotDismiss`, after the reason has been read.
pub data CannotDismiss : Type 0 where
  no_reason working not_found settled : CannotDismiss

abbrev can_dismiss : Rows → ℕ → Bool
can_dismiss s key = elim (finding_at key s) [ none ↦ false | some f ↦ not (is_some f.same_as) ]

-- `dismissalReason` gave the reason, or none.
unfoldable pub dismiss_finding : Option ℕ → ℕ → ℕ → Rows → Rows × Option CannotDismiss
dismiss_finding none user_id key s = (s, some no_reason)
dismiss_finding (some reason) user_id key s =
    if is_active s.run.status || any_open s.jobs
    then (s, some working)
    else if not (can_dismiss s key)
    then (s, some not_found)
    else if dismissed s.dismissals key
    then (s, some settled)
    else (
      record s {
        dismissals =
            s.dismissals
            ++ record {
              finding_key = key;
              reason = reason;
              dismissed_by = DismissedBy.by_user user_id;
              matched_run_id = none;
            }
              ∷ [];
      },
      none,
    )

unfoldable pub undo_dismissal : ℕ → Rows → Rows × Option CannotDismiss
undo_dismissal key s =
    if dismissed s.dismissals key
    then (
      record s {
        dismissals = filter (λ (d : DismissalRow). not (d.finding_key == key)) s.dismissals;
      },
      none,
    )
    else (s, some settled)
