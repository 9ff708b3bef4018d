-- ===== src/Runner/Work.antt =====
-- One round of the runner, from the claim of a job to what the control plane is told of it, and the
-- loop of such rounds (`workOnce` and `workLoop` of worker.ts). What happens is given: the answers
-- to the claim, what the job's run returns, and whether the runner is stopped meanwhile. A text is
-- a number.
pub mod Answers
use trawler.Base.{
  ℕ, suc, Bool, true, false, Option, none, some, List, [], ◌∷◌, not, ◌&&◌, ◌||◌, ◌==◌,
  if◌then◌else◌, is_some,
}
use trawler.Protocol.Types.{StopReason, is_error}
use trawler.Runner.Calls.{
  Called, response, unauthorized, upgrade_required, gave_up, stopped, permanent, is_ok,
}

-- How the claim of a job ends: nothing to do, an error, one that ends the runner, or a job.
pub data Claimed : Type 0 where
  idle fails fatal has_job : Claimed

unfoldable pub claimed : Bool → Called → Claimed
claimed is_stopping (response s) =
    if s == 204
    then idle
    else if not (is_ok s) && permanent s
    then fatal
    else if not (is_ok s)
    then fails
    else has_job
claimed is_stopping unauthorized = if is_stopping then idle else fatal
claimed is_stopping upgrade_required = if is_stopping then idle else fatal
claimed is_stopping gave_up = if is_stopping then idle else fails
claimed is_stopping stopped = if is_stopping then idle else fails

-- The error of a completion. That events were not reported stands before the error that there was.
pub data Problem : Type 0 where
  unreadable uncleared missing_account unreported : Problem
  thrown : ℕ → Problem
  of_run : ℕ → Problem
  unreported_and : Problem → Problem

pub record Completion : Type 0 where
  pub stopped_by : StopReason
  pub error : Option Problem

-- What the body of the answer to a claim is: it cannot be read, it is no job of this runner's
-- protocol (with the job's id and token, or without), it wants an account that the runner has not,
-- or it is a job.
pub data Body : Type 0 where
  not_read : Body
  not_parsed : Bool → Body
  no_account : Body
  job : Body

pub data Performed : Type 0 where
  ran : Completion → Performed
  threw : ℕ → Performed

-- What happens while a job is run.
pub record JobRun : Type 0 where
  pub stops_before : Bool
  pub cleared : Bool
  pub result : Performed
  pub cancelled : Bool
  pub stops_during : Bool
  pub events_failed : Bool

-- What the control plane is told of a job.
pub data Told : Type 0 where
  nothing released : Told
  completed : Completion → Told

pub data RoundEnd : Type 0 where
  idle done fails fatal : RoundEnd

abbrev failed_with : Problem → Completion
failed_with p = record { stopped_by = StopReason.error; error = some p }

-- A run that was cancelled has run out of budget, unless it failed.
abbrev unless_cancelled : Bool → Completion → Completion
unless_cancelled cancelled c =
    if cancelled && not (is_error c.stopped_by)
    then record c { stopped_by = StopReason.budget }
    else c

unfoldable pub completion_of : JobRun → Completion
completion_of r =
    if r.stops_before
    then record { stopped_by = StopReason.budget; error = none }
    else if not r.cleared
    then failed_with uncleared
    else (elim r.result [
      | ran c ↦ unless_cancelled r.cancelled c
      | threw text ↦ failed_with (thrown text)
    ])

-- Events that could not be sent make the job fail.
abbrev not_reported : Option Problem → Problem
not_reported none = unreported
not_reported (some p) = unreported_and p

abbrev with_failure : Bool → Completion → Completion
with_failure failed c =
    if failed
    then record { stopped_by = StopReason.error; error = some (not_reported c.error) }
    else c

unfoldable pub work_on : JobRun → Told
unfolding completion_of
work_on r =
    if r.stops_before || r.stops_during
    then released
    else completed (with_failure r.events_failed (completion_of r))

-- The rest of a round whose claim was answered.
unfoldable pub take_job : Bool → Body → JobRun → RoundEnd × Told
unfolding work_on
take_job is_stopping not_read r = (if is_stopping then RoundEnd.idle else RoundEnd.fails, nothing)
take_job is_stopping (not_parsed named) r =
    (RoundEnd.done, if named then completed (failed_with unreadable) else nothing)
take_job is_stopping no_account r = (RoundEnd.done, completed (failed_with missing_account))
take_job is_stopping job r = (RoundEnd.done, work_on r)

unfoldable pub work_once : Bool → Called → Body → JobRun → RoundEnd × Told
unfolding claimed take_job
work_once is_stopping answer body r = elim (claimed is_stopping answer) [
  | Claimed.idle ↦ (RoundEnd.idle, nothing)
  | Claimed.fails ↦ (RoundEnd.fails, nothing)
  | Claimed.fatal ↦ (RoundEnd.fatal, nothing)
  | Claimed.has_job ↦ take_job is_stopping body r
]

-- Why the loop ends: the runner is stopped, or a claim failed for good. `going` is that the rounds
-- that are given are over and the loop goes on.
pub data LoopEnd : Type 0 where
  stops fatally going : LoopEnd

pub record LoopRound : Type 0 where
  pub stopping : Bool
  pub end : RoundEnd

-- The errors that are reported, and how the loop ends. An error is reported only if none was since
-- the last claim that did not fail.
unfoldable pub work_loop : Bool → List LoopRound → ℕ × LoopEnd
work_loop reported [] = (0, going)
work_loop reported (r ∷ rounds) =
    let quiet = work_loop false rounds in
    let (more, end) = work_loop true rounds in
    if r.stopping then (0, stops) else (elim r.end [
      | RoundEnd.idle ↦ quiet
      | RoundEnd.done ↦ quiet
      | RoundEnd.fails ↦ (if reported then more else suc more, end)
      | RoundEnd.fatal ↦ (1, fatally)
    ])
