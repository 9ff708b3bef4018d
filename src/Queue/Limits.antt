-- ===== src/Queue/Limits.antt =====
-- What ends a run before its jobs are done: its cap, its time, the workspace's monthly budget, a
-- pause or a halt (limits.ts, and `endRun`, `cancelRun`, `outOfBudget`, `limitStop` of runs.ts and
-- queue.ts). What is left of a budget counts as 0 where the code has a negative number: every
-- caller asks only whether it is positive and what it pays for.
pub mod Stops
use trawler.Base.{
  ℕ, suc, ◌+◌, ◌-◌, ◌*◌, ◌/◌, min, Bool, true, false, Option, none, some, List, [], ◌∷◌, ◌&&◌, ◌||◌,
  leb, ◌==◌, if◌then◌else◌, is_at,
}
use trawler.Base.Rows.{update}
use trawler.Queue.Rows.{
  Rows, Run, Job, Around, Execution, RunStatus, JobStatus, CancelReason, PaidBy, UsageRow, FirstRun,
  minute, is_active, is_queued,
}

abbrev pub run_time_limit_hours : ℕ
run_time_limit_hours = 3

abbrev pub unclaimed_run_minutes : ℕ
unclaimed_run_minutes = 20

abbrev pub client_gone_minutes : ℕ
client_gone_minutes = 3

-- `{ status: "stopped_budget" } | { status: "cancelled"; reason }`
pub data RunEnd : Type 0 where
  stopped_budget : RunEnd
  cancelled : CancelReason → RunEnd

-- The result of `limitStop`: null, "inactive" or the end that it gave the run.
pub data LimitStop : Type 0 where
  going inactive : LimitStop
  ended : RunEnd → LimitStop

abbrev pub paid_by_workspace : PaidBy → Bool
paid_by_workspace PaidBy.workspace = true
paid_by_workspace PaidBy.on_us = false

-- The sum over the workspace's own model calls since the month began.
unfoldable pub month_spent : ℕ → List UsageRow → ℕ
month_spent month_start [] = 0
month_spent month_start (row ∷ usage) =
    (if paid_by_workspace row.paid_by && leb month_start row.created_at then row.cost_usd else 0)
    + month_spent month_start usage

-- `none` is `Infinity`: the workspace has no monthly budget.
unfoldable pub budget_left : Around → List UsageRow → Option ℕ
unfolding month_spent
budget_left a usage = elim a.monthly_usd [
  | none ↦ none
  | some limit ↦ some (limit - month_spent a.month_start usage)
]

-- `none` is `Infinity`: the model has no price, or is free.
unfoldable pub affordable_output_tokens : ℕ → Option ℕ → Option ℕ
affordable_output_tokens left none = none
affordable_output_tokens left (some price) =
    if price == 0 then none else some (left * 1000000 / price)

abbrev pub below_one : Option ℕ → Bool
below_one none = false
below_one (some n) = n == 0

abbrev pub reaches : ℕ → Option ℕ → Bool
reaches used none = false
reaches used (some cap) = leb cap used

-- `outOfBudget`, and `capSpent`, which hands it the run's columns.
unfoldable pub cap_spent : Run → Bool
unfolding affordable_output_tokens
cap_spent run =
    leb run.budget_usd run.cost_usd
    || reaches run.tokens_used run.token_cap
    || below_one
        (affordable_output_tokens (run.budget_usd - run.cost_usd) run.completion_usd_per_mtok)

unfoldable pub spent : Option ℕ → Option ℕ → Bool
spent none price = false
spent (some left) price = left == 0 || below_one (affordable_output_tokens left price)

unfoldable pub spent_workspace_budget : Around → Rows → Bool
unfolding spent budget_left affordable_output_tokens
spent_workspace_budget a s =
    paid_by_workspace s.run.paid_by && spent (budget_left a s.usage) s.run.completion_usd_per_mtok

-- `coalesce(started_at <= now() - make_interval(hours => …), false)`
abbrev pub over_time : Around → Run → Bool
over_time a run = elim run.started_at [
  | none ↦ false
  | some at ↦ leb (at + run_time_limit_hours * 60 * minute) a.now
]

unfoldable pub limit_reached : Around → Rows → Option RunEnd
unfolding cap_spent spent_workspace_budget
limit_reached a s =
    if a.halted
    then some (cancelled CancelReason.halted)
    else if a.paused
    then some (cancelled CancelReason.paused)
    else if cap_spent s.run
    then some stopped_budget
    else if spent_workspace_budget a s
    then some (cancelled CancelReason.workspace_budget)
    else if over_time a s.run
    then some (cancelled CancelReason.time_limit)
    else none

-- The row goes unless the model was called.
unfoldable pub give_back_unused_first_run : Option FirstRun → Option FirstRun
give_back_unused_first_run none = none
give_back_unused_first_run (some row) = elim row.model_called_at [
  | none ↦ none
  | some at ↦ some row
]

abbrev end_status : RunEnd → RunStatus
end_status stopped_budget = RunStatus.stopped_budget
end_status (cancelled reason) = RunStatus.cancelled

abbrev end_reason : RunEnd → Option CancelReason
end_reason stopped_budget = none
end_reason (cancelled reason) = some reason

abbrev pub cancel_job : Around → Job → Job
cancel_job a j = record j { status = JobStatus.cancelled; finished_at = some a.now }

unfoldable pub end_run : Around → RunEnd → Rows → Rows
unfolding update give_back_unused_first_run
end_run a end s = record s {
  run = record s.run {
    status = end_status end;
    cancel_reason = end_reason end;
    finished_at = some a.now;
    sign_up_seed = none;
  };
  jobs = update (λ j. is_queued j.status) (cancel_job a) s.jobs;
  first_run = give_back_unused_first_run s.first_run;
}

-- False where the run is over already.
unfoldable pub cancel_run : Around → CancelReason → Rows → Rows × Bool
unfolding end_run
cancel_run a reason s =
    if is_active s.run.status then (end_run a (cancelled reason) s, true) else (s, false)

abbrev pub end_at : Around → Rows → Option RunEnd → Rows × LimitStop
end_at a s none = (s, going)
end_at a s (some end) = (end_run a end s, ended end)

unfoldable pub limit_stop : Around → Rows → Rows × LimitStop
unfolding limit_reached end_run
limit_stop a s = if is_active s.run.status then end_at a s (limit_reached a s) else (s, inactive)

abbrev pub stops : LimitStop → Bool
stops going = false
stops _ = true

unfoldable pub stop_if_over_limits : Around → Rows → Rows × Bool
unfolding limit_stop
stop_if_over_limits a s = let (s', stop) = limit_stop a s in (s', stops stop)

unfoldable pub judge_again_stopped : Around → Rows → Bool
unfolding cap_spent spent_workspace_budget
judge_again_stopped a s = a.halted || a.paused || cap_spent s.run || spent_workspace_budget a s

-- `stopUnclaimedRuns` on one run: only a run for a runner of the workspace's own, not yet taken.
abbrev pub is_own_queued : Run → Bool
is_own_queued run = elim run.execution [
  | Execution.own ↦ elim run.status [ RunStatus.queued ↦ true | _ ↦ false ]
  | Execution.hosted ↦ false
]

unfoldable pub stop_unclaimed : Around → Rows → Rows × Bool
unfolding end_run
stop_unclaimed a s =
    if is_own_queued s.run && leb (s.run.created_at + unclaimed_run_minutes * minute) a.now
    then (end_run a (cancelled CancelReason.unclaimed) s, true)
    else (s, false)

abbrev pub not_seen : Around → Run → Bool
not_seen a run = elim run.client_seen_at [
  | none ↦ false
  | some at ↦ leb (at + client_gone_minutes * minute) a.now
]

-- `stopRunsOfGoneClients` on one run.
unfoldable pub stop_gone_client : Around → Rows → Rows × Bool
unfolding cancel_run
stop_gone_client a s =
    if is_active s.run.status && not_seen a s.run
    then cancel_run a CancelReason.ci_gone s
    else (s, false)

abbrev pub stopped_count : Rows × LimitStop → Rows × ℕ
stopped_count (s, ended end) = (s, 1)
stopped_count (s, going) = (s, 0)
stopped_count (s, inactive) = (s, 0)

-- `stopRunsPastLimits` on one run: under a halt every live run is looked at, else those past the
-- time limit; it counts the runs that it stopped.
unfoldable pub stop_past_limits : Around → Rows → Rows × ℕ
unfolding limit_stop
stop_past_limits a s =
    if is_active s.run.status && (a.halted || over_time a s.run)
    then stopped_count (limit_stop a s)
    else (s, 0)
