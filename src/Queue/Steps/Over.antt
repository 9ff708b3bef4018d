-- ===== src/Queue/Steps/Over.antt =====
-- A run that is over stays over.
use mathlib.Core.Path.{subst}
use trawler.Base.{
  ℕ, ◌≡◌, ◌∙◌, refl, sym, Bool, true, false, Option, none, some, List, [], ◌∷◌, filter, arith, ◌==◌,
  is_some, not, leb, length, ap, Bool-cases, inl, inr, any, if◌then◌else◌, ◌&&◌,
}
use trawler.Base.Rows.{update}
use trawler.Queue.Rows.{Rows, Run, Job, Around, JobError, PaidBy, is_active, is_leased}
use trawler.Queue.Limits.{
  stop_if_over_limits, limit_stop, cancel_run, stop_unclaimed, stop_gone_client, stop_past_limits,
}
use trawler.Protocol.Types.{JobKind, is_error}
use trawler.Queue.Plan.{JobResult, gone, insert_job}
use trawler.Queue.Jobs.{
  Result, Refusal, ok, refused, Ensures, Ensures-ok, Ensures-if, plan_unless, complete_job,
  complete_job_as, refuse_account, keep_observation, stop_or_plan, reap_expired_leases, reap_jobs,
  reap_job, to_reap, stop_answering, release_job, complete_found, complete_as, finished_status,
  result_error, job_for_token, forget_partial_work, unstart_run,
}
use trawler.Queue.Events.{
  RunEvent, max_batch, ingest_each, ingest_event, apply_payload, cancel_after, ingest_events,
  ingest_found, renew_lease,
}
use trawler.Queue.Calls.{
  Answer, Usage, call_found, add_cost, log_usage, add_tokens, llm_call_for, record_llm_usage,
  forget_unpaid_first_call,
}
use trawler.Queue.Claim.{
  ClaimOutcome, claim_unless, lease_or_fail, claim_picked, lease_job, fail_unprepared, tell,
  not_prepared,
}
use trawler.Queue.Assign.{Assignment, prepare}
use trawler.Queue.Again.{
  CannotJudgeAgain, judge_unless, cannot_judge_again, judge_again, dismiss_finding, undo_dismissal,
}
use trawler.Queue.Steps.{Step, Reach, here, next}

abbrev Same : Rows → Rows → Type 0
Same s t = t.run.status ≡ s.run.status

stop_if_over_limits-Same :
    (a : Around) (s : Rows) → is_active s.run.status ≡ false → stop_if_over_limits a s ≡ (s, true)
unfolding stop_if_over_limits limit_stop
stop_if_over_limits-Same a s over = rw over refl

stop_or_plan-Same :
    (a : Around) (kind : JobKind) (finding : Option ℕ) (result : JobResult) (s : Rows)
    → is_active s.run.status ≡ false
    → stop_or_plan a kind finding result s ≡ s
unfolding stop_or_plan
stop_or_plan-Same a kind finding result s over =
    ap (plan_unless a kind finding result) (stop_if_over_limits-Same a s over)

complete_job_as-Same :
    (a : Around) (job : Job) (error : Option JobError) (result : JobResult) (s : Rows)
    → is_active s.run.status ≡ false
    → Same s (complete_job_as a job error result s)
unfolding refuse_account
complete_job_as-Same a job (some error) result s over = rw over refl
complete_job_as-Same a job none result s over =
    let finished : Rows = record s {
      jobs =
          update (λ (j : Job). j.id == job.id)
            (complete_as a (finished_status (is_error result.stopped_by)) result.stopped_by
              (result_error result))
            s.jobs;
    } in
    let kept = keep_observation-run job result finished in
    ap (λ (r : Rows). r.run.status)
      (stop_or_plan-Same a job.kind job.finding_key result (keep_observation job result finished)
        (ap (λ (r : Run). is_active r.status) kept ∙ over))
    ∙ ap (λ (r : Run). r.status) kept
  where
    keep_observation-run :
        (j : Job) (r : JobResult) (t : Rows) → (keep_observation j r t).run ≡ t.run
    keep_observation-run j r t = unfold keep_observation in ground arith

complete_found-Same :
    (a : Around) (result : JobResult) (s : Rows) (r : Result Job)
    → is_active s.run.status ≡ false
    → Ensures (Same s) (complete_found a result s r)
complete_found-Same a result s (refused why) over = tt
complete_found-Same a result s (ok job) over =
    Ensures-if (Same s) (is_leased job.status) _ (ok s) (complete_job_as-Same a job _ result s over)
      refl

reap_jobs-Same :
    (a : Around) (jobs : List Job) (s : Rows)
    → is_active s.run.status ≡ false
    → Same s (reap_jobs a jobs s)
unfolding reap_jobs reap_job
reap_jobs-Same a [] s over = refl
reap_jobs-Same a (job ∷ jobs) s over =
    let reaped : Rows = record s {
      jobs = update (λ (j : Job). j.id == job.id) (stop_answering a) s.jobs;
    } in
    subst (λ t. Same s (reap_jobs a jobs t))
      (sym (stop_or_plan-Same a job.kind job.finding_key gone reaped over))
      (reap_jobs-Same a jobs reaped over)

release_job-Same :
    (a : Around) (id hash : ℕ) (s : Rows)
    → is_active s.run.status ≡ false
    → Same s (release_job a id hash s)
unfolding release_job forget_partial_work unstart_run
release_job-Same a id hash s over = ground arith

claim_picked-Same :
    (a : Around) (hash : ℕ) (loads : Bool) (job : Job) (s : Rows)
    → is_active s.run.status ≡ false
    → Same s (claim_picked a hash loads job s).0
unfolding claim_picked lease_job fail_unprepared
claim_picked-Same a hash loads job s over =
    if-Same (is_active s.run.status) (claim_unless a hash loads job (stop_if_over_limits a s))
      (lease_or_fail a hash loads job s) over (tell-Same (prepare loads s job))
  where
    if-Same :
        (b : Bool) (x y : Rows × ClaimOutcome)
        → b ≡ false
        → Same s y.0
        → Same s (if b then x else y).0
    if-Same true x y e h = cc
    if-Same false x y e h = h

    leased : (lease_job a hash job s).run.status ≡ s.run.status
    leased = ground arith

    tell-Same : (told : Option Assignment) → Same s (tell a job (lease_job a hash job s) told).0
    tell-Same none =
        let t = lease_job a hash job s in
        let failed : Rows = record t {
          jobs = update (λ (j : Job). j.id == job.id) (not_prepared a) t.jobs;
        } in
        ap (λ (r : Rows). r.run.status)
          (stop_or_plan-Same a job.kind job.finding_key gone failed (ap is_active leased ∙ over))
        ∙ leased
    tell-Same (some told) = leased

call_found-Same :
    (a : Around) (s : Rows) (r : Result Job)
    → is_active s.run.status ≡ false
    → Ensures (λ (t : Rows × Answer). Same s t.0) (call_found a s r)
unfolding limit_stop renew_lease
call_found-Same a s (refused why) over = tt
call_found-Same a s (ok job) over = ground arith

judge_unless-Same :
    (by key : ℕ) (s : Rows) (why : Option CannotJudgeAgain) → Same s (judge_unless by key s why).0
unfolding insert_job
judge_unless-Same by key s none = refl
judge_unless-Same by key s (some why) = refl

run-add_cost : (job usd : ℕ) (s : Rows) → (add_cost job usd s).run.status ≡ s.run.status
unfolding add_cost
run-add_cost job usd s = ground arith

record_llm_usage-Same :
    (a : Around) (paid_by : PaidBy) (job : ℕ) (u : Usage) (s : Rows)
    → is_active s.run.status ≡ false
    → Same s (record_llm_usage a paid_by job u s)
unfolding record_llm_usage
record_llm_usage-Same a paid_by job u s over =
    let logged = log_usage a paid_by u s in
    let same = run-add_cost job u.cost_usd logged in
    ap (λ (r : Rows × Bool). r.0.run.status)
      (stop_if_over_limits-Same a (add_tokens u (add_cost job u.cost_usd logged))
        (ap is_active same ∙ over))
    ∙ same

stop_unclaimed-Same :
    (a : Around) (s : Rows) → is_active s.run.status ≡ false → Same s (stop_unclaimed a s).0
unfolding stop_unclaimed
stop_unclaimed-Same a s over = ground arith

module _ (key : Option ℕ → ℕ → ℕ) where
  run-ingest_event :
      (a : Around) (job : Job) (e : RunEvent) (s : Rows) → (ingest_event key a job e s).run ≡ s.run
  unfolding ingest_event apply_payload
  run-ingest_event a job e s = ground arith

  run-ingest_each :
      (a : Around) (job : Job) (events : List RunEvent) (s : Rows)
      → (ingest_each key a job events s).run ≡ s.run
  unfolding ingest_each
  run-ingest_each a job [] s = refl
  run-ingest_each a job (e ∷ events) s =
      run-ingest_each a job events (ingest_event key a job e s) ∙ run-ingest_event a job e s

  cancel_after-Same :
      (a : Around) (job : Job) (s : Rows)
      → is_active s.run.status ≡ false
      → Same s (cancel_after key a job s).0
  cancel_after-Same a job s over = elim (Bool-cases (is_some job.requested_by)) [
    | inl asked ↦ rw asked refl
    | inr not_asked ↦
        rw not_asked (ap (λ (r : Rows × Bool). r.0.run.status) (stop_if_over_limits-Same a s over))
  ]

  ingest_found-Same :
      (a : Around) (events : List RunEvent) (s : Rows) (r : Result Job)
      → is_active s.run.status ≡ false
      → Ensures (λ (t : Rows × Bool). Same s t.0) (ingest_found key a events s r)
  unfolding renew_lease
  ingest_found-Same a events s (refused why) over = tt
  ingest_found-Same a events s (ok job) over =
      let P : Rows × Bool → Type 0 = λ t. Same s t.0 in
      let told = ingest_each key a job events s in
      let same = ap (λ (r : Run). r.status) (run-ingest_each a job events s) in
      Ensures-if P (not (is_leased job.status)) (ok (s, true)) _ refl (
        Ensures-if P (any (λ (e : RunEvent). not (e.job_id == job.id)) events)
          (refused Refusal.foreign_events) _ tt
          (Ensures-if P (not (is_active s.run.status) && not (is_some job.requested_by))
            (ok (s, true)) _ refl
            (cancel_after-Same a job (renew_lease a job.id told) (ap is_active same ∙ over)
              ∙ same)))

  ingest_events-Same :
      (a : Around) (hash : ℕ) (events : List RunEvent) (expected : Option ℕ) (s : Rows)
      → is_active s.run.status ≡ false
      → Ensures (λ (t : Rows × Bool). Same s t.0) (ingest_events key a hash events expected s)
  unfolding ingest_events
  ingest_events-Same a hash events expected s over =
      elim (Bool-cases (leb (length events) max_batch)) [
        | inl fits ↦
            rw fits (ingest_found-Same a events s (job_for_token a hash false expected s) over)
        | inr too_many ↦ rw too_many tt
      ]

  -- A transaction on a run that is over leaves its status as it is.
  Step-Same : {s t : Rows} → Step key s t → is_active s.run.status ≡ false → Same s t
  unfolding complete_job record_llm_usage forget_unpaid_first_call reap_expired_leases judge_again
      cancel_run stop_unclaimed stop_gone_client stop_past_limits limit_stop dismiss_finding
      undo_dismissal llm_call_for
  Step-Same (Step.claims a scope hash loads job s e) over =
      claim_picked-Same a hash loads job s over
  Step-Same (Step.reports a hash events expected s t cancelled e) over =
      Ensures-ok (λ (r : Rows × Bool). Same s r.0) _ e
        (ingest_events-Same a hash events expected s over)
  Step-Same (Step.completes a hash expected result s t e) over =
      Ensures-ok (Same s) _ e
        (complete_found-Same a result s (job_for_token a hash true expected s) over)
  Step-Same (Step.calls a hash s t answer e) over =
      Ensures-ok (λ (r : Rows × Answer). Same s r.0) _ e
        (call_found-Same a s (job_for_token a hash false none s) over)
  Step-Same (Step.pays a paid_by job u s) over = record_llm_usage-Same a paid_by job u s over
  Step-Same (Step.forgets used_model s) over = refl
  Step-Same (Step.releases a id hash s) over = release_job-Same a id hash s over
  Step-Same (Step.reaps a s) over = reap_jobs-Same a (filter (to_reap a) s.jobs) s over
  Step-Same (Step.judges_again a key_usable by finding s) over =
      judge_unless-Same by finding s (cannot_judge_again a key_usable finding s)
  Step-Same (Step.dismisses none by finding s) over = refl
  Step-Same (Step.dismisses (some reason) by finding s) over = ground arith
  Step-Same (Step.undoes finding s) over = ground arith
  Step-Same (Step.cancels a reason s) over = rw over refl
  Step-Same (Step.stops_unclaimed a s) over = stop_unclaimed-Same a s over
  Step-Same (Step.stops_gone a s) over = rw over refl
  Step-Same (Step.stops_past a s) over = rw over refl

-- Once a run has succeeded or failed, was cancelled or stopped over its budget, no sequence of
-- transactions changes its status.
pub Reach-over_stays :
    (key : Option ℕ → ℕ → ℕ) {s t : Rows}
    → is_active s.run.status ≡ false
    → Reach key s t
    → t.run.status ≡ s.run.status
Reach-over_stays key over here = refl
Reach-over_stays key over (next t u reach step) =
    let same = Reach-over_stays key over reach in
    Step-Same key step (ap is_active same ∙ over) ∙ same
