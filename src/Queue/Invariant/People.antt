-- ===== src/Queue/Invariant/People.antt =====
-- What people do to a run keeps it sound: judging again, dismissals, stops.
use trawler.Base.{
  ℕ, ◌+◌, ◌*◌, ◌≡◌, refl, Bool, true, false, Option, none, some, arith, ◌&&◌, ◌||◌, inr, leb,
}
use trawler.Protocol.Types.{JobKind}
use trawler.Queue.Rows.{Rows, Around, CancelReason, minute, is_active, next_position}
use trawler.Queue.Limits.{
  LimitStop, going, inactive, ended, RunEnd, limit_stop, end_run, cancel_run, stop_unclaimed,
  stop_gone_client, stop_past_limits, stopped_count, is_own_queued, not_seen, over_time,
  unclaimed_run_minutes,
}
use trawler.Queue.Plan.{insert_job}
use trawler.Queue.Again.{
  CannotJudgeAgain, judge_again, cannot_judge_again, judge_unless, dismiss_finding, undo_dismissal,
}
use trawler.Queue.Invariant.{IsSound, insert_job-Kept}
use trawler.Queue.Invariant.Moves.{end_run-IsSound}
use trawler.Queue.Invariant.Others.{limit_stop-IsSound, Sound-if, SameJobs, SameJobs-IsSound}

judge_unless-IsSound :
    (requested_by key : ℕ) (s : Rows) (why : Option CannotJudgeAgain)
    → (why ≡ none → is_active s.run.status ≡ false)
    → IsSound s
    → IsSound (judge_unless requested_by key s why).0
unfolding insert_job
judge_unless-IsSound requested_by key s (some why) over h = h
judge_unless-IsSound requested_by key s none over h = (
  (λ active. clash active (over refl)),
  insert_job-Kept JobKind.judge (next_position s.jobs) (some key) (some requested_by) s (inr refl)
      h.1,
)
  where
    clash : {b : Bool} {A : Type 0} → b ≡ true → b ≡ false → A
    clash e f = cc

may_judge_over :
    (a : Around) (key_usable : Bool) (key : ℕ) (s : Rows)
    → cannot_judge_again a key_usable key s ≡ none
    → is_active s.run.status ≡ false
unfolding cannot_judge_again
may_judge_over a key_usable key s e = ground arith

pub judge_again-IsSound :
    (a : Around) (key_usable : Bool) (requested_by key : ℕ) (s : Rows)
    → IsSound s
    → IsSound (judge_again a key_usable requested_by key s).0
unfolding judge_again
judge_again-IsSound a key_usable requested_by key s h =
    judge_unless-IsSound requested_by key s (cannot_judge_again a key_usable key s)
      (may_judge_over a key_usable key s) h

dismissals-SameJobs :
    (reason : Option ℕ) (user_id key : ℕ) (s : Rows)
    → SameJobs s (dismiss_finding reason user_id key s).0
unfolding dismiss_finding
dismissals-SameJobs none user_id key s = (refl, refl, refl, refl)
dismissals-SameJobs (some reason) user_id key s = ground arith

pub dismiss_finding-IsSound :
    (reason : Option ℕ) (user_id key : ℕ) (s : Rows)
    → IsSound s
    → IsSound (dismiss_finding reason user_id key s).0
dismiss_finding-IsSound reason user_id key s h =
    SameJobs-IsSound s (dismiss_finding reason user_id key s).0
      (dismissals-SameJobs reason user_id key s) h

undone-SameJobs : (key : ℕ) (s : Rows) → SameJobs s (undo_dismissal key s).0
unfolding undo_dismissal
undone-SameJobs key s = ground arith

pub undo_dismissal-IsSound : (key : ℕ) (s : Rows) → IsSound s → IsSound (undo_dismissal key s).0
undo_dismissal-IsSound key s h =
    SameJobs-IsSound s (undo_dismissal key s).0 (undone-SameJobs key s) h

pub cancel_run-IsSound :
    (a : Around) (reason : CancelReason) (s : Rows) → IsSound s → IsSound (cancel_run a reason s).0
unfolding cancel_run
cancel_run-IsSound a reason s h =
    Sound-if (is_active s.run.status) (end_run a (RunEnd.cancelled reason) s, true) (s, false)
      (end_run-IsSound a (RunEnd.cancelled reason) s h.1) h

pub stop_unclaimed-IsSound : (a : Around) (s : Rows) → IsSound s → IsSound (stop_unclaimed a s).0
unfolding stop_unclaimed
stop_unclaimed-IsSound a s h =
    Sound-if (is_own_queued s.run && leb (s.run.created_at + unclaimed_run_minutes * minute) a.now)
      (end_run a (RunEnd.cancelled CancelReason.unclaimed) s, true) (s, false)
      (end_run-IsSound a (RunEnd.cancelled CancelReason.unclaimed) s h.1) h

pub stop_gone_client-IsSound :
    (a : Around) (s : Rows) → IsSound s → IsSound (stop_gone_client a s).0
unfolding stop_gone_client
stop_gone_client-IsSound a s h =
    Sound-if (is_active s.run.status && not_seen a s.run) (cancel_run a CancelReason.ci_gone s)
      (s, false) (cancel_run-IsSound a CancelReason.ci_gone s h) h

pub stop_past_limits-IsSound :
    (a : Around) (s : Rows) → IsSound s → IsSound (stop_past_limits a s).0
unfolding stop_past_limits
stop_past_limits-IsSound a s h =
    Sound-if (is_active s.run.status && (a.halted || over_time a s.run))
      (stopped_count (limit_stop a s)) (s, 0) (counted (limit_stop a s) (limit_stop-IsSound a s h))
      h
  where
    counted : (r : Rows × LimitStop) → IsSound r.0 → IsSound (stopped_count r).0
    counted (t, ended end) k = k
    counted (t, going) k = k
    counted (t, inactive) k = k
