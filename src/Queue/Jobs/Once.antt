-- ===== src/Queue/Jobs/Once.antt =====
-- Completing a job again changes nothing, and no expired lease is left when the leases are reaped.
use mathlib.Core.Path.{subst}
use trawler.Base.{
  ℕ, ◌≡◌, ◌∙◌, ap, refl, sym, Bool, true, false, Option, none, some, List, [], ◌∷◌, filter, arith,
  any, not, ◌&&◌, is_at, find?, ◌==◌, ==_refl, ==_iff, Bool-cases, Option-cases, inl, inr, mem,
}
use trawler.Base.Rows.{update, keys}
use trawler.Protocol.Types.{StopReason, is_error}
use trawler.Queue.Rows.{Rows, Job, JobStatus, JobError, Around, is_queued, is_leased}
use trawler.Queue.Plan.{JobResult, gone}
use trawler.Queue.Plan.Later.{Later, find?-Later, any-Later, stop_or_plan-Later}
use trawler.Queue.Jobs.{
  Result, Refusal, Ensures, Ensures-ok, ok, refused, complete_job, complete_found, complete_job_as,
  complete_as, finished_status, result_error, refuse_account, keep_observation, stop_or_plan,
  job_for_token, checked, is_other, refused_as, refusal_of, reap_expired_leases, reap_jobs,
  reap_job, to_reap, stop_answering,
}

abbrev has_token : ℕ → Job → Bool
has_token hash j = is_at j.token_hash hash

jobs-keep_observation :
    (job : Job) (result : JobResult) (s : Rows) → (keep_observation job result s).jobs ≡ s.jobs
unfolding keep_observation
jobs-keep_observation job result s = ground arith

-- The first job with the token, updated by its identifier.
find?-complete :
    (hash : ℕ) (set : Job → Job) (jobs : List Job) (job : Job)
    → ((j : Job) → (set j).token_hash ≡ j.token_hash)
    → find? (has_token hash) jobs ≡ some job
    → find? (has_token hash) (update (λ (j : Job). j.id == job.id) set jobs) ≡ some (set job)
unfolding update
find?-complete hash set [] job same e = cc
find?-complete hash set (x ∷ xs) job same e = elim (Bool-cases (has_token hash x)) [
  | inl has ↦
      let this : x ≡ job =
        ap (λ (o : Option Job). elim o [ none ↦ x | some j ↦ j ]) (rw has at e) in
      let here : (x.id == job.id) ≡ true =
        ap (λ (j : Job). x.id == j.id) (sym this) ∙ ==_refl x.id in
      let still : has_token hash (set x) ≡ true = ap (λ t. is_at t hash) (same x) ∙ has in
      rw (here, still) (ap (λ j. some (set j)) this)
  | inr not_it ↦
      let still : has_token hash (set x) ≡ false = ap (λ t. is_at t hash) (same x) ∙ not_it in
      elim (Bool-cases (x.id == job.id)) [
        | inl here ↦ rw (here, still) (find?-complete hash set xs job same (rw not_it at e))
        | inr other ↦ rw (other, not_it) (find?-complete hash set xs job same (rw not_it at e))
      ]
]

-- The job of the token is found, and is not leased.
record IsDone (hash : ℕ) (expected : Option ℕ) (s : Rows) : Type 0 where
  job : Job
  found : find? (has_token hash) s.jobs ≡ some job
  idle : is_leased job.status ≡ false
  its_own : is_other expected job ≡ false

finished-IsDone :
    (a : Around) (hash : ℕ) (expected : Option ℕ) (job : Job) (status : JobStatus)
    (stopped_by : StopReason) (error : Option JobError) (s t : Rows)
    → find? (has_token hash) s.jobs ≡ some job
    → is_other expected job ≡ false
    → is_queued status ≡ false
    → is_leased status ≡ false
    → Later
        (update (λ (j : Job). j.id == job.id) (complete_as a status stopped_by error) s.jobs)
        t.jobs
    → IsDone hash expected t
finished-IsDone a hash expected job status stopped_by error s t e own waits runs later = record {
  job = complete_as a status stopped_by error job;
  found =
      find?-Later hash _ t.jobs (complete_as a status stopped_by error job) later waits
        (find?-complete hash (complete_as a status stopped_by error) s.jobs job (λ j. refl) e);
  idle = runs;
  its_own = ground (arith, own);
}

complete_job_as-IsDone :
    (a : Around) (hash : ℕ) (expected : Option ℕ) (job : Job) (error : Option JobError)
    (result : JobResult) (s : Rows)
    → find? (has_token hash) s.jobs ≡ some job
    → is_other expected job ≡ false
    → IsDone hash expected (complete_job_as a job error result s)
unfolding refuse_account
complete_job_as-IsDone a hash expected job (some error) result s e own =
    finished-IsDone a hash expected job JobStatus.failed result.stopped_by (some error) s _ e own
      refl refl (Later.sweeps a _ Later.same)
complete_job_as-IsDone a hash expected job none result s e own =
    let status = finished_status (is_error result.stopped_by) in
    let finished : Rows = record s {
      jobs =
          update (λ (j : Job). j.id == job.id)
            (complete_as a status result.stopped_by (result_error result)) s.jobs;
    } in
    let kept = keep_observation job result finished in
    finished-IsDone a hash expected job status result.stopped_by (result_error result) s
      (stop_or_plan a job.kind job.finding_key result kept) e own (waits _) (runs _)
      (subst (λ jobs. Later jobs (stop_or_plan a job.kind job.finding_key result kept).jobs)
        (jobs-keep_observation job result finished)
        (stop_or_plan-Later a job.kind job.finding_key result kept))
  where
    waits : (b : Bool) → is_queued (finished_status b) ≡ false
    waits true = refl
    waits false = refl

    runs : (b : Bool) → is_leased (finished_status b) ≡ false
    runs true = refl
    runs false = refl

checked-own :
    (a : Around) (expected : Option ℕ) (j : Job)
    → is_other expected j ≡ false
    → checked a true expected (some j) ≡ ok j
checked-own a expected j own = ground arith

checked-other :
    (a : Around) (expected : Option ℕ) (j : Job)
    → is_other expected j ≡ true
    → checked a true expected (some j) ≡ refused Refusal.invalid_job_token
checked-other a expected j other = ground arith

complete_found-IsDone :
    (a : Around) (hash : ℕ) (expected : Option ℕ) (result : JobResult) (s : Rows) (job : Job)
    → find? (has_token hash) s.jobs ≡ some job
    → is_other expected job ≡ false
    → Ensures (IsDone hash expected) (complete_found a result s (ok job))
complete_found-IsDone a hash expected result s job e own =
    elim (Bool-cases (is_leased job.status)) [
      | inl leased ↦ rw leased (
          complete_job_as-IsDone a hash expected job (refused_as job (refusal_of job result)) result
            s e own)
      | inr idle ↦ rw idle (record { job = job; found = e; idle = idle; its_own = own })
    ]

complete_job-IsDone :
    (a : Around) (hash : ℕ) (expected : Option ℕ) (result : JobResult) (s : Rows)
    → Ensures (IsDone hash expected) (complete_job a hash expected result s)
unfolding complete_job job_for_token
complete_job-IsDone a hash expected result s = elim (Option-cases (find? (has_token hash) s.jobs)) [
  | inl nobody ↦ subst (λ f. P (checked a true expected f)) (sym nobody) tt
  | inr (job, e) ↦
      subst (λ f. P (checked a true expected f)) (sym e)
        (elim (Bool-cases (is_other expected job)) [
          | inl other ↦ subst P (sym (checked-other a expected job other)) tt
          | inr own ↦
              subst P (sym (checked-own a expected job own))
                (complete_found-IsDone a hash expected result s job e own)
        ])
]
  where
    P : Result Job → Type 0
    P r = Ensures (IsDone hash expected) (complete_found a result s r)

IsDone-complete_job :
    (a : Around) (hash : ℕ) (expected : Option ℕ) (result : JobResult) (s : Rows)
    → IsDone hash expected s
    → complete_job a hash expected result s ≡ ok s
unfolding complete_job job_for_token
IsDone-complete_job a hash expected result s h =
    ap (complete_found a result s)
      (ap (checked a true expected) h.found ∙ checked-own a expected h.job h.its_own)
    ∙ idle_found h.job h.idle
  where
    idle_found : (j : Job) → is_leased j.status ≡ false → complete_found a result s (ok j) ≡ ok s
    idle_found j e = rw e refl

-- A job that was completed is not completed again: whenever and with whatever result its runner
-- reports once more under the same token, the report is accepted and changes nothing.
pub complete_job-once :
    (a later : Around) (hash : ℕ) (expected : Option ℕ) (result other : JobResult) (s t : Rows)
    → complete_job a hash expected result s ≡ ok t
    → complete_job later hash expected other t ≡ ok t
complete_job-once a later hash expected result other s t e =
    IsDone-complete_job later hash expected other t (
      Ensures-ok (IsDone hash expected) (complete_job a hash expected result s) e
        (complete_job-IsDone a hash expected result s))

-- Reaping.

abbrev rest_to_reap : Around → List Job → Job → Bool
rest_to_reap a jobs j = to_reap a j && not (mem j.id (keys (λ (k : Job). k.id) jobs))

none_of :
    (a : Around) (xs : List Job) → any (rest_to_reap a []) xs ≡ false → any (to_reap a) xs ≡ false
none_of a [] e = refl
none_of a (x ∷ xs) e = ground (arith, none_of a xs)

only_rest :
    (a : Around) (job : Job) (jobs xs : List Job)
    → any (rest_to_reap a (job ∷ jobs)) xs ≡ false
    → any (rest_to_reap a jobs) (update (λ (j : Job). j.id == job.id) (stop_answering a) xs) ≡ false
unfolding update
only_rest a job jobs [] e = refl
only_rest a job jobs (x ∷ xs) e = elim (Bool-cases (x.id == job.id)) [
  | inl here ↦ rw here (only_rest a job jobs xs (ground arith))
  | inr other ↦
      rw other (ground (arith, only_rest a job jobs xs, ==_iff x.id job.id, ==_iff job.id x.id))
]

reap_jobs-none :
    (a : Around) (jobs : List Job) (s : Rows)
    → any (rest_to_reap a jobs) s.jobs ≡ false
    → any (to_reap a) (reap_jobs a jobs s).jobs ≡ false
unfolding reap_jobs reap_job
reap_jobs-none a [] s h = none_of a s.jobs h
reap_jobs-none a (job ∷ jobs) s h =
    let reaped : Rows = record s {
      jobs = update (λ (j : Job). j.id == job.id) (stop_answering a) s.jobs;
    } in
    reap_jobs-none a jobs (stop_or_plan a job.kind job.finding_key gone reaped) (
      any-Later (rest_to_reap a jobs) reaped.jobs _ (λ j idle. ground arith)
        (stop_or_plan-Later a job.kind job.finding_key gone reaped) (only_rest a job jobs s.jobs h))

all_listed :
    (a : Around) (xs ys : List Job)
    → ((k : ℕ)
        → mem k (keys (λ (j : Job). j.id) (filter (to_reap a) ys)) ≡ true
        → mem k (keys (λ (j : Job). j.id) (filter (to_reap a) xs)) ≡ true)
    → any (rest_to_reap a (filter (to_reap a) xs)) ys ≡ false
all_listed a xs [] sub = refl
all_listed a xs (y ∷ ys) sub = elim (Bool-cases (to_reap a y)) [
  | inl due ↦
      rw (due, sub y.id (rw due (ground (arith, ==_refl y.id))))
        (all_listed a xs ys (λ k e. sub k (rw due (ground arith))))
  | inr not_due ↦ rw not_due (all_listed a xs ys (λ k e. sub k (rw not_due e)))
]

-- When the expired leases are reaped, no job is left whose lease has expired, but for the plans of
-- pull requests, which are reaped apart.
pub reap_expired_leases-none :
    (a : Around) (s : Rows) → any (to_reap a) (reap_expired_leases a s).jobs ≡ false
unfolding reap_expired_leases
reap_expired_leases-none a s =
    reap_jobs-none a (filter (to_reap a) s.jobs) s (all_listed a s.jobs s.jobs (λ k e. e))
