-- ===== src/Queue/Invariant/Claims.antt =====
-- Claiming, paying and judging again keep a sound run sound.
use trawler.Base.{
  ℕ, ◌≡◌, refl, Bool, true, false, Option, none, some, List, [], ◌∷◌, arith, any, is_some, ◌⊎◌,
  ◌==◌,
}
use trawler.Base.Rows.{
  update, any-update_mono, any-update-none, count_if-update_none, count_if-keys, count-Distinct,
  keys, keys-update,
}
use trawler.Queue.Rows.{Rows, Run, Job, Around, is_active, is_open, is_leased}
use trawler.Queue.Limits.{stop_if_over_limits}
use trawler.Queue.Limits.Stops.{Stopped, goes_on, was_over, is_ended, stop_if_over_limits-Stopped}
use trawler.Queue.Plan.{gone}
use trawler.Queue.Claim.{
  ClaimScope, tell, Entry, lease, not_prepared, lease_or_fail, claim_unless, claim_picked,
  lease_job, fail_unprepared, is_claimable, is_busy,
}
use trawler.Queue.Assign.{Assignment, prepare}
use trawler.Queue.Invariant.{job_id, is_stranded, Kept, IsSound}
use trawler.Queue.Invariant.Moves.{end_run-IsSound, stop_or_plan-IsSound, finished-Kept}
use trawler.Queue.Invariant.Others.{Sound-if}

-- What the claim asks of a job that it takes.
pub record IsFree (a : Around) (s : Rows) (job : Job) : Type 0 where
  pub wanted : (is_active s.run.status ≡ true) ⊎ (is_some job.requested_by ≡ true)
  pub alone : s.run.conversation ≡ false → any (λ (j : Job). is_leased j.status) s.jobs ≡ false

none_leased :
    (run : Run) (job : Job) (jobs : List Job)
    → run.conversation ≡ false
    → any (is_busy run job) jobs ≡ false
    → any (λ (j : Job). is_leased j.status) jobs ≡ false
unfolding is_busy
none_leased run job [] alone free = refl
none_leased run job (j ∷ jobs) alone free = ground (arith, none_leased run job jobs)

pub is_claimable-IsFree :
    (scope : ClaimScope) (e : Entry) (job : Job)
    → is_claimable scope e job ≡ true
    → IsFree e.around e.rows job
unfolding is_claimable
is_claimable-IsFree scope e job h = record {
  wanted = ground arith;
  alone = λ alone. none_leased e.rows.run job e.rows.jobs alone (ground arith);
}

lease_job-IsSound :
    (a : Around) (hash : ℕ) (job : Job) (s : Rows)
    → IsFree a s job
    → IsSound s
    → IsSound (lease_job a hash job s)
unfolding lease_job
lease_job-IsSound a hash job s free h = (
  λ active.
      any-update_mono (λ (j : Job). is_open j.status) (λ (j : Job). j.id == job.id) (lease a hash)
        s.jobs (λ j e. ground arith) (h.0 (ground arith)),
  record {
    quiet = λ over.
        any-update-none is_stranded (λ (j : Job). j.id == job.id) (lease a hash) s.jobs
          (λ j e. ground arith) (h.1.quiet (ground arith));
    exclusive = λ alone. omega (
      arith,
      count_if-update_none (λ (j : Job). is_leased j.status) (λ (j : Job). j.id == job.id)
          (lease a hash) s.jobs (free.alone (ground arith)),
      count_if-keys job_id job.id s.jobs,
      count-Distinct job.id (keys job_id s.jobs) h.1.distinct,
    );
    distinct =
        rw (keys-update job_id (λ (j : Job). j.id == job.id) (lease a hash) s.jobs (λ j. refl))
          h.1.distinct;
    below =
        rw (keys-update job_id (λ (j : Job). j.id == job.id) (lease a hash) s.jobs (λ j. refl))
          h.1.below;
  },
)

fail_unprepared-IsSound :
    (a : Around) (job : Job) (s : Rows) → Kept s → IsSound (fail_unprepared a job s)
unfolding fail_unprepared
fail_unprepared-IsSound a job s h =
    stop_or_plan-IsSound a job.kind job.finding_key gone
      (record s { jobs = update (λ (j : Job). j.id == job.id) (not_prepared a) s.jobs })
      (finished-Kept a s (λ (j : Job). j.id == job.id) (not_prepared a) (λ j. refl) (λ j. refl) h)

tell-IsSound :
    (a : Around) (job : Job) (s : Rows) (told : Option Assignment)
    → IsSound s
    → IsSound (tell a job s told).0
tell-IsSound a job s none h = fail_unprepared-IsSound a job s h.1
tell-IsSound a job s (some told) h = h

lease_or_fail-IsSound :
    (a : Around) (hash : ℕ) (loads : Bool) (job : Job) (s : Rows)
    → IsFree a s job
    → IsSound s
    → IsSound (lease_or_fail a hash loads job s).0
lease_or_fail-IsSound a hash loads job s free h =
    tell-IsSound a job (lease_job a hash job s) (prepare loads s job)
      (lease_job-IsSound a hash job s free h)

claim_unless-IsSound :
    (a : Around) (hash : ℕ) (loads : Bool) (job : Job) (s : Rows) {r : Rows × Bool}
    → Stopped a s r
    → IsFree a s job
    → IsSound s
    → IsSound (claim_unless a hash loads job r).0
claim_unless-IsSound a hash loads job s (goes_on active within) free h =
    lease_or_fail-IsSound a hash loads job s free h
claim_unless-IsSound a hash loads job s (was_over over) free h = h
claim_unless-IsSound a hash loads job s (is_ended end active over) free h =
    end_run-IsSound a end s h.1

pub claim_picked-IsSound :
    (a : Around) (hash : ℕ) (loads : Bool) (job : Job) (s : Rows)
    → IsFree a s job
    → IsSound s
    → IsSound (claim_picked a hash loads job s).0
unfolding claim_picked
claim_picked-IsSound a hash loads job s free h =
    Sound-if (is_active s.run.status) (claim_unless a hash loads job (stop_if_over_limits a s))
      (lease_or_fail a hash loads job s)
      (claim_unless-IsSound a hash loads job s (stop_if_over_limits-Stopped a s) free h)
      (lease_or_fail-IsSound a hash loads job s free h)
