-- ===== src/Queue/Invariant/Payments.antt =====
-- Paying for model calls keeps a sound run sound.
use trawler.Base.{ℕ, refl, Bool, false, none, arith, not, ◌||◌, Bool-cases, is_some, inl, inr, ◌==◌}
use trawler.Base.Rows.{any-update_mono}
use trawler.Queue.Rows.{Rows, Job, Around, PaidBy, is_open, is_leased}
use trawler.Queue.Limits.{LimitStop, going, inactive, ended, RunEnd, limit_stop}
use trawler.Queue.Jobs.{Result, ok, refused, Ensures, Ensures-if, job_for_token}
use trawler.Queue.Calls.{
  Answer, Usage, call_found, call_unless, WhyRefused, refused_call, allow_call, mark_first_call,
  llm_call_for, add_cost, log_usage, add_tokens, grant, remaining_usd_of, remaining_tokens_of,
  record_llm_usage, forget_unpaid_first_call,
}
use trawler.Queue.Invariant.{IsSound, update-Kept}
use trawler.Queue.Invariant.Others.{
  stop_if_over_limits-IsSound, limit_stop-IsSound, Sound-if, renew_lease-IsSound, SameJobs,
  SameJobs-IsSound,
}

mark_first_call-SameJobs : (a : Around) (s : Rows) → SameJobs s (mark_first_call a s).0
mark_first_call-SameJobs a s = ground arith

allow_call-IsSound :
    (a : Around) (job : Job) (s : Rows) → IsSound s → IsSound (allow_call a job s).0
allow_call-IsSound a job s h =
    Sound-if _ (s, refused_call WhyRefused.budget_spent)
      (grant a job (remaining_usd_of a s) (remaining_tokens_of s.run) (mark_first_call a s)) h
      (renew_lease-IsSound a job.id (mark_first_call a s).0
        (SameJobs-IsSound s (mark_first_call a s).0 (mark_first_call-SameJobs a s) h))

call_unless-IsSound :
    (a : Around) (job : Job) (r : Rows × LimitStop) → IsSound r.0 → IsSound (call_unless a job r).0
call_unless-IsSound a job (s, going) h = allow_call-IsSound a job s h
call_unless-IsSound a job (s, inactive) h = h
call_unless-IsSound a job (s, ended RunEnd.stopped_budget) h = h
call_unless-IsSound a job (s, ended (RunEnd.cancelled reason)) h = h

call_found-IsSound :
    (a : Around) (s : Rows) (r : Result Job)
    → IsSound s
    → Ensures (λ (t : Rows × Answer). IsSound t.0) (call_found a s r)
call_found-IsSound a s (refused why) h = tt
call_found-IsSound a s (ok job) h =
    let P : Rows × Answer → Type 0 = λ t. IsSound t.0 in
    Ensures-if P (not (is_leased job.status)) (ok (s, refused_call WhyRefused.job_over)) _ h (
      Ensures-if P (is_some job.requested_by) _ (ok (call_unless a job (limit_stop a s)))
        (Ensures-if P (a.halted || a.paused) (ok (s, refused_call WhyRefused.run_inactive))
          (ok (allow_call a job s)) h (allow_call-IsSound a job s h))
        (call_unless-IsSound a job (limit_stop a s) (limit_stop-IsSound a s h)))

pub llm_call_for-IsSound :
    (a : Around) (hash : ℕ) (s : Rows)
    → IsSound s
    → Ensures (λ (t : Rows × Answer). IsSound t.0) (llm_call_for a hash s)
unfolding llm_call_for
llm_call_for-IsSound a hash s h = call_found-IsSound a s (job_for_token a hash false none s) h

add_cost-IsSound : (job usd : ℕ) (s : Rows) → IsSound s → IsSound (add_cost job usd s)
unfolding add_cost
add_cost-IsSound job usd s h = elim (Bool-cases (usd == 0)) [
  | inl free ↦ rw free h
  | inr paid ↦ rw paid (
    (λ active.
        any-update_mono (λ (j : Job). is_open j.status) (λ (j : Job). j.id == job) _ s.jobs
          (λ j e. ground arith) (h.0 active)),
    update-Kept s.run.status s.run.conversation s.jobs s.next_job (λ (j : Job). j.id == job) _
        (λ j. refl) (λ j e. ground arith) (λ j e. ground arith) h.1,
  )
]

pub record_llm_usage-IsSound :
    (a : Around) (paid_by : PaidBy) (job : ℕ) (u : Usage) (s : Rows)
    → IsSound s
    → IsSound (record_llm_usage a paid_by job u s)
unfolding record_llm_usage
record_llm_usage-IsSound a paid_by job u s h =
    let logged = log_usage a paid_by u s in
    let paid = add_cost job u.cost_usd logged in
    stop_if_over_limits-IsSound a (add_tokens u paid) (
      SameJobs-IsSound paid (add_tokens u paid) (refl, refl, refl, refl)
        (add_cost-IsSound job u.cost_usd logged
          (SameJobs-IsSound s logged (refl, refl, refl, refl) h)))

pub forget_unpaid_first_call-IsSound :
    (used_model : Bool) (s : Rows) → IsSound s → IsSound (forget_unpaid_first_call used_model s)
unfolding forget_unpaid_first_call
forget_unpaid_first_call-IsSound used_model s h =
    SameJobs-IsSound s (forget_unpaid_first_call used_model s) (refl, refl, refl, refl) h
