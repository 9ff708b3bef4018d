-- ===== src/Queue/Tests/Runs.antt =====
-- Runs of the queue at concrete rows.
use trawler.Base.{ℕ, ◌+◌, ◌≡◌, refl, true, false, Option, none, some, List, [], ◌∷◌, arith, any}
use trawler.Queue.Rows.{Rows, CancelReason, PaidBy, is_active}
use trawler.Queue.Limits.{cancel_run, end_run}
use trawler.Queue.Claim.{hosted, claim_picked, is_claimable, lease_job, fail_unprepared}
use trawler.Queue.Assign.{prepare}
use trawler.Queue.Calls.{Usage, record_llm_usage}
use trawler.Protocol.Types.{StopReason}
use trawler.Queue.Plan.{JobResult, gone}
use trawler.Queue.Jobs.{Result, ok, refused, complete_job, reap_expired_leases, to_reap}
use trawler.Queue.Jobs.Once.{complete_job-once, reap_expired_leases-none}
use trawler.Queue.Events.{renew_lease}
use trawler.Queue.Calls.{LlmCall, call, llm_call_for}
use trawler.Queue.Calls.Spending.{IsWithin, llm_call_for-IsWithin}
use trawler.Queue.Calls.Left.{HasLeft, record_llm_usage-HasLeft}
use trawler.Queue.Claim.{Entry, Pick, first_pick, candidates}
use trawler.Queue.Claim.Order.{IsFirst, first_pick-IsFirst}
use trawler.Queue.Invariant.{IsSound}
use trawler.Queue.Steps.{Step, Reach, here, next}
use trawler.Queue.Steps.Sound.{Reach-IsSound}
use trawler.Queue.Steps.Over.{Reach-over_stays}
use trawler.Queue.Tests.{start, around, role_job}
use trawler.Base.Rows.{count_if}

abbrev key : Option ℕ → ℕ → ℕ
key none f = f
key (some p) f = 100 + f

start-IsSound : IsSound start
unfolding count_if
start-IsSound = (
  λ active. refl,
  record {
    quiet = λ over. cc;
    exclusive = λ alone. omega arith;
    distinct = (refl, (refl, tt));
    below = (omega arith, (omega arith, tt));
  },
)

abbrev claimed : Rows
claimed = (claim_picked (around 2000) 77 true (role_job 0) start).0

abbrev cancelled : Rows
cancelled = (cancel_run (around 3000) CancelReason.stopped claimed).0

claiming : Step key start claimed
claiming = Step.claims (around 2000) hosted 77 true (role_job 0) start (unfold is_claimable in refl)

claimed_then_cancelled : Reach key start cancelled
claimed_then_cancelled =
    next claimed cancelled (next start claimed here claiming)
      (Step.cancels (around 3000) CancelReason.stopped claimed)

Reach-IsSound_example : IsSound cancelled
Reach-IsSound_example = Reach-IsSound key start-IsSound claimed_then_cancelled

cancelled_over : is_active cancelled.run.status ≡ false
unfolding claim_picked cancel_run lease_job end_run prepare fail_unprepared
cancelled_over = refl

used_later : Reach key cancelled (
    record_llm_usage
      (around 4000)
      PaidBy.workspace
      0
      (record { input_tokens = 10; output_tokens = 2; cost_usd = 30 })
      cancelled)
used_later = next cancelled _ here (Step.pays (around 4000) _ 0 _ cancelled)

Reach-over_stays_example :
    (record_llm_usage
      (around 4000)
      PaidBy.workspace
      0
      (record { input_tokens = 10; output_tokens = 2; cost_usd = 30 })
      cancelled).run.status
    ≡ cancelled.run.status
Reach-over_stays_example = Reach-over_stays key cancelled_over used_later

-- The first session is completed with an error, and reported again with another result.
abbrev with_error : JobResult
with_error = record gone { stopped_by = StopReason.error; error = some 9 }

abbrev or_same : Rows → Result Rows → Rows
or_same s (ok t) = t
or_same s (refused why) = s

abbrev completed : Rows
completed = or_same claimed (complete_job (around 3000) 77 (some 0) with_error claimed)

completed_ok : complete_job (around 3000) 77 (some 0) with_error claimed ≡ ok completed
unfolding claim_picked lease_job prepare fail_unprepared complete_job
completed_ok = refl

complete_job-once_example : complete_job (around 9000000) 77 (some 0) gone completed ≡ ok completed
complete_job-once_example =
    complete_job-once (around 3000) (around 9000000) 77 (some 0) with_error gone claimed completed
      completed_ok

reap_expired_leases-none_example :
    any (to_reap (around 9000000)) (reap_expired_leases (around 9000000) claimed).jobs ≡ false
reap_expired_leases-none_example = reap_expired_leases-none (around 9000000) claimed

abbrev granted : LlmCall
granted = record {
  job_id = 0;
  first_on_us = false;
  remaining_usd = 2000000;
  remaining_tokens = some 3000000;
}

granted_ok :
    llm_call_for (around 3000) 77 claimed ≡ ok (renew_lease (around 3000) 0 claimed, call granted)
unfolding claim_picked lease_job prepare fail_unprepared llm_call_for renew_lease
granted_ok = refl

llm_call_for-IsWithin_example : IsWithin (around 3000) claimed granted
llm_call_for-IsWithin_example =
    llm_call_for-IsWithin (around 3000) 77 claimed (renew_lease (around 3000) 0 claimed) granted
      granted_ok

abbrev used : Usage
used = record { input_tokens = 10; output_tokens = 2; cost_usd = 30 }

still_active :
    is_active (record_llm_usage (around 3000) PaidBy.workspace 0 used claimed).run.status ≡ true
unfolding claim_picked lease_job prepare fail_unprepared record_llm_usage
still_active = refl

record_llm_usage-HasLeft_example :
    HasLeft
      (around 3000)
      PaidBy.workspace
      used
      claimed
      (record_llm_usage (around 3000) PaidBy.workspace 0 used claimed)
record_llm_usage-HasLeft_example =
    record_llm_usage-HasLeft (around 3000) PaidBy.workspace 0 used claimed still_active

abbrev entries : List Entry
entries = record { around = around 2000; rows = start } ∷ []

abbrev picked : Pick
picked = record { entry = record { around = around 2000; rows = start }; job = role_job 0 }

picked_first : first_pick (candidates hosted entries) ≡ some picked
unfolding first_pick candidates
picked_first = refl

first_pick-IsFirst_example :
    IsFirst picked (candidates hosted entries)
    × (is_claimable hosted picked.entry picked.job ≡ true)
first_pick-IsFirst_example = first_pick-IsFirst hosted entries picked picked_first
