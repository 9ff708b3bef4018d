-- ===== src/Queue/Invariant/Moves.antt =====
-- Completing, releasing and reaping a job keep a sound run sound.
use trawler.Base.{
  ℕ, ◌≡◌, refl, Bool, true, false, Option, none, some, List, [], ◌∷◌, arith, any, Bool-cases,
  is_some, inl, inr, filter, find?, mem, is_at, ◌==◌, ==_iff,
}
use trawler.Base.Rows.{
  update, update-same, any-update-false, count_if-update, keys, keys-update, Distinct,
}
use trawler.Protocol.Types.{JobKind, Observation, is_error}
use trawler.Queue.Rows.{
  FindingRow, JobStatus, JobError, Rows, Job, Around, RunStatus, is_active, is_open, is_queued,
  is_leased,
}
use trawler.Queue.Limits.{RunEnd, end_run, cancel_job}
use trawler.Queue.Limits.Stops.{
  Stopped, goes_on, was_over, is_ended, stop_if_over_limits-Stopped, is_active-end_run,
}
use trawler.Queue.Plan.{JobResult, gone}
use trawler.Queue.Plan.Ends.{IsLive}
use trawler.Queue.Jobs.{
  Result, ok, refused, Ensures, Ensures-if, refused_as, refuse_account, keep_observation,
  plan_unless, stop_or_plan, complete_found, complete_job_as, complete_as, complete_job,
  job_for_token, reap_job, reap_jobs, reap_expired_leases, finished_status, result_error,
  refusal_of, holds, released, stop_answering, to_reap,
}
use trawler.Queue.Invariant.{
  job_id, is_stranded, IsKept, Kept, IsSound, update-Kept, plan_next-IsSound,
}

-- A run that is over is live.
pub IsLive-of_over : (s : Rows) → is_active s.run.status ≡ false → IsLive s
IsLive-of_over s over active = cc

-- Jobs that were queued are cancelled, in a run that is over.
cancel_queued-Kept :
    (a : Around) (from to : RunStatus) (conversation : Bool) (jobs : List Job) (next : ℕ)
    → IsKept from conversation jobs next
    → IsKept to conversation (update (λ (j : Job). is_queued j.status) (cancel_job a) jobs) next
cancel_queued-Kept a from to conversation jobs next h = record {
  quiet = λ over.
      any-update-false is_stranded (λ (j : Job). is_queued j.status) (cancel_job a) jobs
        (λ r. ground arith);
  exclusive = λ alone. omega (
    arith,
    h.exclusive alone,
    count_if-update (λ (j : Job). is_leased j.status) (λ (j : Job). is_queued j.status)
        (cancel_job a) jobs (λ (r : Job) e. ground arith),
  );
  distinct =
      rw (keys-update job_id (λ (j : Job). is_queued j.status) (cancel_job a) jobs (λ r. refl))
        h.distinct;
  below =
      rw (keys-update job_id (λ (j : Job). is_queued j.status) (cancel_job a) jobs (λ r. refl))
        h.below;
}

pub end_run-IsSound : (a : Around) (end : RunEnd) (s : Rows) → Kept s → IsSound (end_run a end s)
unfolding end_run
end_run-IsSound a end s h = (
  IsLive-of_over (end_run a end s) (is_active-end_run a end s),
  cancel_queued-Kept a s.run.status (end_run a end s).run.status s.run.conversation s.jobs
      s.next_job h,
)

plan_unless-IsSound :
    (a : Around) (kind : JobKind) (finding_key : Option ℕ) (result : JobResult) (s : Rows)
    {r : Rows × Bool}
    → Stopped a s r
    → Kept s
    → IsSound (plan_unless a kind finding_key result r)
plan_unless-IsSound a kind finding_key result s (goes_on active within) h =
    plan_next-IsSound a kind finding_key result s active h
plan_unless-IsSound a kind finding_key result s (was_over over) h = (IsLive-of_over s over, h)
plan_unless-IsSound a kind finding_key result s (is_ended end active over) h =
    end_run-IsSound a end s h

-- Whatever the jobs of the run, it is sound once its limits are looked at and what follows is planned.
pub stop_or_plan-IsSound :
    (a : Around) (kind : JobKind) (finding_key : Option ℕ) (result : JobResult) (s : Rows)
    → Kept s
    → IsSound (stop_or_plan a kind finding_key result s)
unfolding stop_or_plan
stop_or_plan-IsSound a kind finding_key result s h =
    plan_unless-IsSound a kind finding_key result s (stop_if_over_limits-Stopped a s) h

refuse_account-IsSound : (a : Around) (s : Rows) → Kept s → IsSound (refuse_account a s)
unfolding refuse_account
refuse_account-IsSound a s h = elim (Bool-cases (is_active s.run.status)) [
  | inl active ↦
      rw (active, refuse_account)
        (
          (λ e. cc),
          cancel_queued-Kept a s.run.status RunStatus.cancelled s.run.conversation s.jobs s.next_job
              h,
        )
  | inr over ↦
      rw (over, refuse_account)
        (
          (λ e. cc),
          cancel_queued-Kept a s.run.status s.run.status s.run.conversation s.jobs s.next_job h,
        )
]

-- A job that the runner has left: it is neither open nor leased any more.
pub finished-Kept :
    (a : Around) (s : Rows) (cond : Job → Bool) (set : Job → Job)
    → ((j : Job) → job_id (set j) ≡ job_id j)
    → ((j : Job) → is_open (set j).status ≡ false)
    → Kept s
    → Kept (record s { jobs = update cond set s.jobs })
finished-Kept a s cond set same over h =
    update-Kept s.run.status s.run.conversation s.jobs s.next_job cond set same
      (λ j e. ground (arith, over j)) (λ j e. ground (arith, over j)) h

keep_observation-Kept :
    (job : Job) (result : JobResult) (s : Rows) → Kept s → Kept (keep_observation job result s)
unfolding keep_observation
keep_observation-Kept job result s h = observed job.kind result.observation
  where
    observed :
        (kind : JobKind) (o : Option Observation)
        → Kept (elim kind [
          | JobKind.replay ↦ elim o [
            | none ↦ s
            | some o ↦ record s {
              findings =
                  update
                    (λ (f : FindingRow). is_at job.finding_key f.key)
                    (λ f. record f { replay = some o })
                    s.findings;
            }
          ]
          | _ ↦ s
        ])
    observed JobKind.replay none = h
    observed JobKind.replay (some o) = h
    observed _ o = h

complete_job_as-IsSound :
    (a : Around) (job : Job) (error : Option JobError) (result : JobResult) (s : Rows)
    → Kept s
    → IsSound (complete_job_as a job error result s)
complete_job_as-IsSound a job (some error) result s h = refuse_account-IsSound a _ (
    finished-Kept a s (λ (j : Job). j.id == job.id)
      (complete_as a JobStatus.failed result.stopped_by (some error)) (λ j. refl) (λ j. refl) h)
complete_job_as-IsSound a job none result s h =
    stop_or_plan-IsSound a job.kind job.finding_key result _ (
      keep_observation-Kept job result _ (
        finished-Kept a s (λ (j : Job). j.id == job.id)
          (complete_as a (finished_status (is_error result.stopped_by)) result.stopped_by
            (result_error result))
          (λ j. refl) (λ j. ground arith) h))

complete_found-IsSound :
    (a : Around) (result : JobResult) (s : Rows) (r : Result Job)
    → IsSound s
    → Ensures IsSound (complete_found a result s r)
complete_found-IsSound a result s (refused why) h = tt
complete_found-IsSound a result s (ok job) h =
    Ensures-if IsSound (is_leased job.status) _ (ok s)
      (complete_job_as-IsSound a job (refused_as job (refusal_of job result)) result s h.1) h

pub complete_job-IsSound :
    (a : Around) (hash : ℕ) (expected : Option ℕ) (result : JobResult) (s : Rows)
    → IsSound s
    → Ensures IsSound (complete_job a hash expected result s)
unfolding complete_job
complete_job-IsSound a hash expected result s h =
    complete_found-IsSound a result s (job_for_token a hash true expected s) h

reap_job-IsSound : (a : Around) (job : Job) (s : Rows) → Kept s → IsSound (reap_job a job s)
unfolding reap_job
reap_job-IsSound a job s h =
    stop_or_plan-IsSound a job.kind job.finding_key gone
      (record s { jobs = update (λ (j : Job). j.id == job.id) (stop_answering a) s.jobs })
      (finished-Kept a s (λ (j : Job). j.id == job.id) (stop_answering a) (λ j. refl) (λ j. refl) h)

reap_jobs-IsSound :
    (a : Around) (jobs : List Job) (s : Rows) → IsSound s → IsSound (reap_jobs a jobs s)
unfolding reap_jobs
reap_jobs-IsSound a [] s h = h
reap_jobs-IsSound a (job ∷ jobs) s h =
    reap_jobs-IsSound a jobs (reap_job a job s) (reap_job-IsSound a job s h.1)

pub reap_expired_leases-IsSound :
    (a : Around) (s : Rows) → IsSound s → IsSound (reap_expired_leases a s)
unfolding reap_expired_leases
reap_expired_leases-IsSound a s h = reap_jobs-IsSound a (filter (to_reap a) s.jobs) s h

-- No row with another identifier is held.
not_held :
    (id hash : ℕ) (jobs : List Job)
    → mem id (keys job_id jobs) ≡ false
    → any (holds id hash) jobs ≡ false
not_held id hash [] new = refl
not_held id hash (j ∷ jobs) new = ground (arith, not_held id hash jobs)

-- A job that a person asked for goes back to the queue without being stranded.
pub released_requested :
    (a : Around) (id hash : ℕ) (jobs : List Job) (job : Job)
    → Distinct (keys job_id jobs)
    → any is_stranded jobs ≡ false
    → find? (holds id hash) jobs ≡ some job
    → is_some job.requested_by ≡ true
    → any is_stranded (update (holds id hash) (released a true) jobs) ≡ false
unfolding update
released_requested a id hash [] job d h e requested = refl
released_requested a id hash (j ∷ jobs) job (new, d) h e requested =
    elim (Bool-cases (holds id hash j)) [
      | inl held ↦ ground (
        arith,
        update-same (holds id hash) (released a true) jobs,
        not_held id hash jobs,
        ==_iff j.id id,
      )
      | inr other ↦ ground (arith, released_requested a id hash jobs job d)
    ]
