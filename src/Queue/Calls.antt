-- ===== src/Queue/Calls.antt =====
-- The model calls of a job: what a call may spend, and what it has spent (`llmCallFor`,
-- `recordLlmUsage`, `forgetUnpaidFirstCall` of queue.ts).
pub mod Spending
pub mod Left
use trawler.Base.{
  ℕ, zero, suc, ◌+◌, ◌-◌, ◌*◌, min, Bool, true, false, Option, none, some, List, [], ◌∷◌, ◌++◌, not,
  ◌&&◌, ◌||◌, leb, ltb, ◌==◌, if◌then◌else◌, is_some,
}
use trawler.Base.Rows.{update}
use trawler.Queue.Rows.{Rows, Run, Job, Around, PaidBy, FirstRun, UsageRow, is_active, is_leased}
use trawler.Queue.Limits.{
  LimitStop, going, inactive, ended, RunEnd, stopped_budget, limit_stop, stop_if_over_limits,
  budget_left, give_back_unused_first_run,
}
use trawler.Queue.Jobs.{Result, ok, refused, job_for_token}
use trawler.Queue.Events.{renew_lease}

pub data WhyRefused : Type 0 where
  job_over run_inactive budget_spent : WhyRefused

-- What a call may use: dollars, and tokens if the run has a cap of tokens.
pub record LlmCall : Type 0 where
  pub job_id : ℕ
  pub first_on_us : Bool
  pub remaining_usd : ℕ
  pub remaining_tokens : Option ℕ

pub data Answer : Type 0 where
  call : LlmCall → Answer
  refused_call : WhyRefused → Answer

-- `Math.min(budget - cost, workspaceLeft)`
abbrev pub remaining_usd_of : Around → Rows → ℕ
remaining_usd_of a s =
    let left = s.run.budget_usd - s.run.cost_usd in
    elim s.run.paid_by [
      | PaidBy.on_us ↦ left
      | PaidBy.workspace ↦ elim (budget_left a s.usage) [ none ↦ left | some w ↦ min left w ]
    ]

abbrev pub remaining_tokens_of : Run → Option ℕ
remaining_tokens_of run = elim run.token_cap [
  | none ↦ none
  | some cap ↦ some (cap - run.tokens_used)
]

abbrev pub is_spent : ℕ → Option ℕ → Bool
is_spent usd none = usd == 0
is_spent usd (some tokens) = usd == 0 || tokens == 0

-- The first call of a first run on us is marked; the flag says whether this call was the one.
abbrev pub mark_first_call : Around → Rows → Rows × Bool
mark_first_call a s = elim s.run.paid_by [
  | PaidBy.workspace ↦ (s, false)
  | PaidBy.on_us ↦ elim s.first_run [
    | none ↦ (s, false)
    | some row ↦
        if is_some row.model_called_at
        then (s, false)
        else (record s { first_run = some (record { model_called_at = some a.now }) }, true)
  ]
]

abbrev pub grant : Around → Job → ℕ → Option ℕ → Rows × Bool → Rows × Answer
grant a job usd tokens (s, first) =
    let granted : LlmCall = record {
      job_id = job.id;
      first_on_us = first;
      remaining_usd = usd;
      remaining_tokens = tokens;
    } in
    (renew_lease a job.id s, call granted)

abbrev pub allow_call : Around → Job → Rows → Rows × Answer
allow_call a job s =
    let usd = remaining_usd_of a s in
    let tokens = remaining_tokens_of s.run in
    if is_spent usd tokens
    then (s, refused_call budget_spent)
    else grant a job usd tokens (mark_first_call a s)

abbrev pub call_unless : Around → Job → Rows × LimitStop → Rows × Answer
call_unless a job (s, going) = allow_call a job s
call_unless a job (s, inactive) = (s, refused_call run_inactive)
call_unless a job (s, ended stopped_budget) = (s, refused_call budget_spent)
call_unless a job (s, ended (RunEnd.cancelled reason)) = (s, refused_call run_inactive)

abbrev pub call_found : Around → Rows → Result Job → Result (Rows × Answer)
call_found a s (refused why) = refused why
call_found a s (ok job) =
    if not (is_leased job.status)
    then ok (s, refused_call job_over)
    else if is_some job.requested_by
    then (if a.halted || a.paused
        then ok (s, refused_call run_inactive)
        else ok (allow_call a job s))
    else ok (call_unless a job (limit_stop a s))

unfoldable pub llm_call_for : Around → ℕ → Rows → Result (Rows × Answer)
unfolding job_for_token limit_stop budget_left renew_lease
llm_call_for a hash s = call_found a s (job_for_token a hash false none s)

-- What a call cost, as the proxy reports it.
pub record Usage : Type 0 where
  pub input_tokens : ℕ
  pub output_tokens : ℕ
  pub cost_usd : ℕ

unfoldable pub add_cost : ℕ → ℕ → Rows → Rows
unfolding update
add_cost job_id usd s = if usd == 0 then s else record s {
  jobs =
      update (λ (j : Job). j.id == job_id) (λ j. record j { counted_cost = j.counted_cost + usd })
        s.jobs;
  run = record s.run { cost_usd = s.run.cost_usd + usd };
}

abbrev pub log_usage : Around → PaidBy → Usage → Rows → Rows
log_usage a paid_by u s = record s {
  usage = s.usage ++ record { paid_by = paid_by; cost_usd = u.cost_usd; created_at = a.now } ∷ [];
}

abbrev pub add_tokens : Usage → Rows → Rows
add_tokens u s = record s {
  run = record s.run { tokens_used = s.run.tokens_used + (u.input_tokens + u.output_tokens) };
}

unfoldable pub record_llm_usage : Around → PaidBy → ℕ → Usage → Rows → Rows
unfolding add_cost stop_if_over_limits
record_llm_usage a paid_by job_id u s =
    (stop_if_over_limits a (add_tokens u (add_cost job_id u.cost_usd (log_usage a paid_by u s)))).0

-- A first call that was not paid is forgotten, if the run has used no model at all.
unfoldable pub forget_unpaid_first_call : Bool → Rows → Rows
unfolding give_back_unused_first_run
forget_unpaid_first_call used_model s =
    let forgotten : Option FirstRun = if used_model then s.first_run else (elim s.first_run [
      | none ↦ none
      | some row ↦ some (record { model_called_at = none })
    ]) in
    record s {
      first_run =
          if is_active s.run.status then forgotten else give_back_unused_first_run forgotten;
    }
