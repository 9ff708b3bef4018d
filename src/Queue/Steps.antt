-- ===== src/Queue/Steps.antt =====
-- The transactions of queue.ts, runs.ts and dismissals.ts on the rows of one run, as steps.
pub mod Sound
pub mod Over
use trawler.Base.{ℕ, ◌≡◌, Bool, true, Option, List}
use trawler.Protocol.Types.{JobKind}
use trawler.Queue.Rows.{Rows, Job, Around, CancelReason, PaidBy}
use trawler.Queue.Limits.{cancel_run, stop_unclaimed, stop_gone_client, stop_past_limits}
use trawler.Queue.Plan.{JobResult}
use trawler.Queue.Jobs.{ok, complete_job, release_job, reap_expired_leases}
use trawler.Queue.Events.{RunEvent, ingest_events}
use trawler.Queue.Calls.{Answer, Usage, llm_call_for, record_llm_usage, forget_unpaid_first_call}
use trawler.Queue.Claim.{ClaimScope, claim_picked, is_claimable}
use trawler.Queue.Again.{judge_again, dismiss_finding, undo_dismissal}

-- One transaction. Each has its own clock and surroundings; `key` is the key of a finding.
pub data Step (key : Option ℕ → ℕ → ℕ) : Rows → Rows → Type 0 where
  claims :
      (a : Around) (scope : ClaimScope) (hash : ℕ) (loads : Bool) (job : Job) (s : Rows)
      → is_claimable scope (record { around = a; rows = s }) job ≡ true
      → Step key s (claim_picked a hash loads job s).0
  reports :
      (a : Around) (hash : ℕ) (events : List RunEvent) (expected : Option ℕ) (s t : Rows)
      (cancelled : Bool)
      → ingest_events key a hash events expected s ≡ ok (t, cancelled)
      → Step key s t
  completes :
      (a : Around) (hash : ℕ) (expected : Option ℕ) (result : JobResult) (s t : Rows)
      → complete_job a hash expected result s ≡ ok t
      → Step key s t
  calls :
      (a : Around) (hash : ℕ) (s t : Rows) (answer : Answer)
      → llm_call_for a hash s ≡ ok (t, answer)
      → Step key s t
  pays :
      (a : Around) (paid_by : PaidBy) (job : ℕ) (u : Usage) (s : Rows)
      → Step key s (record_llm_usage a paid_by job u s)
  forgets : (used_model : Bool) (s : Rows) → Step key s (forget_unpaid_first_call used_model s)
  releases : (a : Around) (id hash : ℕ) (s : Rows) → Step key s (release_job a id hash s)
  reaps : (a : Around) (s : Rows) → Step key s (reap_expired_leases a s)
  judges_again :
      (a : Around) (key_usable : Bool) (by finding : ℕ) (s : Rows)
      → Step key s (judge_again a key_usable by finding s).0
  dismisses :
      (reason : Option ℕ) (by finding : ℕ) (s : Rows)
      → Step key s (dismiss_finding reason by finding s).0
  undoes : (finding : ℕ) (s : Rows) → Step key s (undo_dismissal finding s).0
  cancels : (a : Around) (reason : CancelReason) (s : Rows) → Step key s (cancel_run a reason s).0
  stops_unclaimed : (a : Around) (s : Rows) → Step key s (stop_unclaimed a s).0
  stops_gone : (a : Around) (s : Rows) → Step key s (stop_gone_client a s).0
  stops_past : (a : Around) (s : Rows) → Step key s (stop_past_limits a s).0

-- Any number of transactions, one after another.
pub data Reach (key : Option ℕ → ℕ → ℕ) (s : Rows) : Rows → Type 0 where
  here : Reach key s s
  next : (t u : Rows) → Reach key s t → Step key t u → Reach key s u
