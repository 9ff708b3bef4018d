-- ===== src/Queue/Steps/Sound.antt =====
-- Every run that the transactions reach is sound.
use trawler.Base.{ℕ, Bool, Option}
use trawler.Queue.Rows.{Rows}
use trawler.Queue.Jobs.{Ensures-ok, complete_job}
use trawler.Queue.Events.{ingest_events}
use trawler.Queue.Calls.{Answer, llm_call_for}
use trawler.Queue.Steps.{Step, Reach, here, next}
use trawler.Queue.Invariant.{IsSound}
use trawler.Queue.Invariant.Moves.{complete_job-IsSound, reap_expired_leases-IsSound}
use trawler.Queue.Invariant.Others.{ingest_events-IsSound, release_job-IsSound}
use trawler.Queue.Invariant.Claims.{claim_picked-IsSound, is_claimable-IsFree}
use trawler.Queue.Invariant.Payments.{
  llm_call_for-IsSound, record_llm_usage-IsSound, forget_unpaid_first_call-IsSound,
}
use trawler.Queue.Invariant.People.{
  judge_again-IsSound, dismiss_finding-IsSound, undo_dismissal-IsSound, cancel_run-IsSound,
  stop_unclaimed-IsSound, stop_gone_client-IsSound, stop_past_limits-IsSound,
}

Step-IsSound : (key : Option ℕ → ℕ → ℕ) {s t : Rows} → Step key s t → IsSound s → IsSound t
Step-IsSound key (Step.claims a scope hash loads job s e) h =
    claim_picked-IsSound a hash loads job s
      (is_claimable-IsFree scope (record { around = a; rows = s }) job e) h
Step-IsSound key (Step.reports a hash events expected s t cancelled e) h =
    Ensures-ok (λ (r : Rows × Bool). IsSound r.0) (ingest_events key a hash events expected s) e
      (ingest_events-IsSound key a hash events expected s h)
Step-IsSound key (Step.completes a hash expected result s t e) h =
    Ensures-ok IsSound (complete_job a hash expected result s) e
      (complete_job-IsSound a hash expected result s h)
Step-IsSound key (Step.calls a hash s t answer e) h =
    Ensures-ok (λ (r : Rows × Answer). IsSound r.0) (llm_call_for a hash s) e
      (llm_call_for-IsSound a hash s h)
Step-IsSound key (Step.pays a paid_by job u s) h = record_llm_usage-IsSound a paid_by job u s h
Step-IsSound key (Step.forgets used_model s) h = forget_unpaid_first_call-IsSound used_model s h
Step-IsSound key (Step.releases a id hash s) h = release_job-IsSound a id hash s h
Step-IsSound key (Step.reaps a s) h = reap_expired_leases-IsSound a s h
Step-IsSound key (Step.judges_again a key_usable by finding s) h =
    judge_again-IsSound a key_usable by finding s h
Step-IsSound key (Step.dismisses reason by finding s) h =
    dismiss_finding-IsSound reason by finding s h
Step-IsSound key (Step.undoes finding s) h = undo_dismissal-IsSound finding s h
Step-IsSound key (Step.cancels a reason s) h = cancel_run-IsSound a reason s h
Step-IsSound key (Step.stops_unclaimed a s) h = stop_unclaimed-IsSound a s h
Step-IsSound key (Step.stops_gone a s) h = stop_gone_client-IsSound a s h
Step-IsSound key (Step.stops_past a s) h = stop_past_limits-IsSound a s h

-- From a sound run every sequence of transactions leads to a sound run: while it is queued or
-- running some job is queued or leased; once it is over no job is queued that nobody asked for;
-- outside a conversation at most one job is leased; and no two jobs share an identifier.
pub Reach-IsSound : (key : Option ℕ → ℕ → ℕ) {s t : Rows} → IsSound s → Reach key s t → IsSound t
Reach-IsSound key h here = h
Reach-IsSound key h (next t u reach step) = Step-IsSound key step (Reach-IsSound key h reach)
