-- ===== src/Queue/Jobs.antt =====
-- What runners do with the jobs that they hold: completing, releasing, and the leases that expire
-- (`completeJob`, `releaseJob`, `jobForToken`, `reapExpiredLeases` of queue.ts).
pub mod Once
use mathlib.Core.Path.{subst}
use trawler.Base.{
  ◌≡◌, ℕ, zero, suc, ◌+◌, ◌*◌, Bool, true, false, Option, none, some, List, [], ◌∷◌, ◌++◌, not,
  ◌&&◌, ◌||◌, leb, ltb, ◌==◌, if◌then◌else◌, is_at, is_some, any, filter, find?, mem, get_elem?,
}
use trawler.Base.Rows.{update}
use trawler.Protocol.Types.{
  JobKind, StopReason, Observation, is_role_session, is_judge, is_account_check, is_pr_plan,
  is_error,
}
use trawler.Protocol.Turns.{Turn, turns_of}
use trawler.Queue.Rows.{
  Rows, Run, Job, FindingRow, OutcomeRow, EventRow, ArtifactRow, Around, RunStatus, JobStatus,
  JobError, CancelReason, minute, is_active, is_queued, is_leased,
}
use trawler.Queue.Limits.{stop_if_over_limits, give_back_unused_first_run, cancel_job}
use trawler.Queue.Plan.{JobResult, gone, plan_next}

-- Why an operation is refused: the exceptions of the queue.
pub data Refusal : Type 0 where
  invalid_job_token foreign_events invalid_batch : Refusal

-- A transaction that is refused is rolled back.
pub data Result {ℓ} (A : Type ℓ) : Type ℓ where
  ok : A → Result A
  refused : Refusal → Result A

-- What holds of the result, unless the operation is refused.
abbrev pub Ensures {ℓ κ} : {A : Type ℓ} → (A → Type κ) → Result A → Type κ
Ensures P (ok a) = P a
Ensures P (refused why) = Unit

pub Ensures-if {ℓ κ} :
    {A : Type ℓ} (P : A → Type κ) (b : Bool) (r q : Result A)
    → Ensures P r
    → Ensures P q
    → Ensures P (if b then r else q)
Ensures-if P true r q h k = h
Ensures-if P false r q h k = k

pub Ensures-ok {ℓ κ} :
    {A : Type ℓ} (P : A → Type κ) (r : Result A) {a : A} → r ≡ ok a → Ensures P r → P a
Ensures-ok P (ok b) e h = subst (Ensures P) e h
Ensures-ok P (refused why) e h = cc

-- `status = 'leased' and lease_until < now()`
abbrev pub is_expired : Around → Job → Bool
is_expired a j = is_leased j.status && (elim j.lease_until [ none ↦ false | some t ↦ ltb t a.now ])

abbrev pub is_other : Option ℕ → Job → Bool
is_other none j = false
is_other (some id) j = not (j.id == id)

abbrev pub checked : Around → Bool → Option ℕ → Option Job → Result Job
checked a allow_expired expected none = refused invalid_job_token
checked a allow_expired expected (some j) =
    if (is_expired a j && not allow_expired) || is_other expected j
    then refused invalid_job_token
    else ok j

-- `jobForToken`, by the hash of the token.
unfoldable pub job_for_token : Around → ℕ → Bool → Option ℕ → Rows → Result Job
job_for_token a hash allow_expired expected s =
    checked a allow_expired expected (find? (λ (j : Job). is_at j.token_hash hash) s.jobs)

-- What a refused sign-in was refused with, if the job is a check of an account.
abbrev pub refusal_of : Job → JobResult → Option ℕ
refusal_of job result = if is_account_check job.kind then result.refused else none

abbrev pub refused_as : Job → Option ℕ → Option JobError
refused_as job none = none
refused_as job (some observed) = some (JobError.refused job.account_ref observed)

abbrev pub result_error : JobResult → Option JobError
result_error result = elim result.error [ none ↦ none | some text ↦ some (JobError.reported text) ]

abbrev pub finished_status : Bool → JobStatus
finished_status failed = if failed then JobStatus.failed else JobStatus.succeeded

abbrev pub complete_as : Around → JobStatus → StopReason → Option JobError → Job → Job
complete_as a status stopped_by error j = record j {
  status = status;
  stopped_by = some stopped_by;
  error = error;
  finished_at = some a.now;
  lease_until = none;
}

-- A product that refuses an account ends the whole run.
unfoldable pub refuse_account : Around → Rows → Rows
unfolding update give_back_unused_first_run
refuse_account a s = record s {
  run =
      if is_active s.run.status
      then record s.run {
        status = RunStatus.cancelled;
        cancel_reason = some CancelReason.account_refused;
        finished_at = some a.now;
        sign_up_seed = none;
      }
      else s.run;
  jobs = update (λ (j : Job). is_queued j.status) (cancel_job a) s.jobs;
  first_run = give_back_unused_first_run s.first_run;
}

abbrev has_key : Option ℕ → FindingRow → Bool
has_key key f = is_at key f.key

unfoldable pub keep_observation : Job → JobResult → Rows → Rows
unfolding update
keep_observation job result s = elim job.kind [
  | JobKind.replay ↦ elim result.observation [
    | none ↦ s
    | some o ↦ record s {
      findings = update (has_key job.finding_key) (λ f. record f { replay = some o }) s.findings;
    }
  ]
  | _ ↦ s
]

abbrev pub plan_unless : Around → JobKind → Option ℕ → JobResult → Rows × Bool → Rows
plan_unless a kind finding_key result (s, stopped) =
    if stopped then s else plan_next a kind finding_key result s

-- `if (!(await stopIfOverLimits(…))) await planNext(…)`
unfoldable pub stop_or_plan : Around → JobKind → Option ℕ → JobResult → Rows → Rows
unfolding stop_if_over_limits plan_next
stop_or_plan a kind finding_key result s =
    plan_unless a kind finding_key result (stop_if_over_limits a s)

abbrev pub complete_job_as : Around → Job → Option JobError → JobResult → Rows → Rows
complete_job_as a job (some error) result s = refuse_account a (record s {
  jobs =
      update (λ (j : Job). j.id == job.id)
        (complete_as a JobStatus.failed result.stopped_by (some error)) s.jobs;
})
complete_job_as a job none result s = stop_or_plan a job.kind job.finding_key result (
    keep_observation job result (record s {
      jobs =
          update (λ (j : Job). j.id == job.id)
            (complete_as a (finished_status (is_error result.stopped_by)) result.stopped_by
              (result_error result))
            s.jobs;
    }))

abbrev pub complete_found : Around → JobResult → Rows → Result Job → Result Rows
complete_found a result s (refused why) = refused why
complete_found a result s (ok job) =
    if is_leased job.status
    then ok (complete_job_as a job (refused_as job (refusal_of job result)) result s)
    else ok s

unfoldable pub complete_job : Around → ℕ → Option ℕ → JobResult → Rows → Result Rows
unfolding job_for_token refuse_account keep_observation stop_or_plan update
complete_job a hash expected result s =
    complete_found a result s (job_for_token a hash true expected s)

-- The rows of `forgetPartialWork` on goals: all of the person's, or those of its turn.
abbrev is_forgotten : Rows → Job → OutcomeRow → Bool
is_forgotten s job o =
    (elim job.persona_key [ none ↦ false | some p ↦ is_at o.persona_key p ])
    && (elim s.run.sign_up_seed [
      | none ↦ true
      | some seed ↦
          elim (get_elem? (turns_of s.run.config_snapshot.personas s.run.config_snapshot.goals)
            job.position) [ none ↦ false | some turn ↦ mem o.goal turn.goal_ids ]
    ])

abbrev discard : Around → ArtifactRow → ArtifactRow
discard a row = record row { discarded_at = some a.now }

-- The events, artifacts and findings of a job, the outcomes of its goals or its verdict.
unfoldable pub forget_partial_work : Around → Job → Rows → Rows
unfolding update turns_of
forget_partial_work a job s =
    let kept : Rows = record s {
      events = filter (λ (e : EventRow). not (e.job_id == job.id)) s.events;
      artifacts =
          update (λ (r : ArtifactRow). r.job_id == job.id && not (is_some r.discarded_at))
            (discard a) s.artifacts;
    } in
    if is_role_session job.kind
    then record kept {
      findings = filter (λ (f : FindingRow). not (f.job_id == job.id)) s.findings;
      outcomes = filter (λ o. not (is_forgotten s job o)) s.outcomes;
    }
    else if is_judge job.kind
    then record kept {
      findings = update (has_key job.finding_key) (λ f. record f { verdict = none }) s.findings;
    }
    else kept

-- A job goes back to the queue while its run is active or somebody asked for it, else it is over.
abbrev pub released : Around → Bool → Job → Job
released a again j =
    if again
    then record j {
      status = JobStatus.queued;
      started_at = none;
      token_hash = none;
      lease_until = none;
    }
    else record j {
      status = JobStatus.cancelled;
      finished_at = some a.now;
      token_hash = none;
      lease_until = none;
    }

-- A run whose jobs all wait again has not started.
unfoldable pub unstart_run : Rows → Rows
unstart_run s = elim s.run.status [
  | RunStatus.running ↦
      if any (λ (j : Job). not (is_queued j.status)) s.jobs
      then s
      else record s { run = record s.run { status = RunStatus.queued; started_at = none } }
  | _ ↦ s
]

abbrev pub holds : ℕ → ℕ → Job → Bool
holds id hash j = j.id == id && is_at j.token_hash hash && is_leased j.status

abbrev pub release_found : Around → ℕ → ℕ → Rows → Option Job → Rows
release_found a id hash s none = s
release_found a id hash s (some job) = unstart_run (
    forget_partial_work a job (record s {
      jobs =
          update (holds id hash) (released a (is_active s.run.status || is_some job.requested_by))
            s.jobs;
    }))

unfoldable pub release_job : Around → ℕ → ℕ → Rows → Rows
unfolding unstart_run forget_partial_work update
release_job a id hash s = release_found a id hash s (find? (holds id hash) s.jobs)

abbrev pub to_reap : Around → Job → Bool
to_reap a j = is_expired a j && not (is_pr_plan j.kind)

abbrev pub stop_answering : Around → Job → Job
stop_answering a j = record j {
  status = JobStatus.failed;
  error = some JobError.stopped_answering;
  lease_until = none;
  finished_at = some a.now;
}

unfoldable pub reap_job : Around → Job → Rows → Rows
unfolding update stop_or_plan
reap_job a job s =
    stop_or_plan a job.kind job.finding_key gone
      (record s { jobs = update (λ (j : Job). j.id == job.id) (stop_answering a) s.jobs })

unfoldable pub reap_jobs : Around → List Job → Rows → Rows
unfolding reap_job
reap_jobs a [] s = s
reap_jobs a (job ∷ jobs) s = reap_jobs a jobs (reap_job a job s)

-- `reapExpiredLeases`, on the jobs of one run.
unfoldable pub reap_expired_leases : Around → Rows → Rows
unfolding reap_jobs
reap_expired_leases a s = reap_jobs a (filter (to_reap a) s.jobs) s
