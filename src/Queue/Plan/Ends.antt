-- ===== src/Queue/Plan/Ends.antt =====
-- A run that is planned either has work left or is over, and planning brings no run back.
use trawler.Base.{ℕ, ◌≡◌, true, false, Option, none, [], ◌∷◌, arith, any-append}
use trawler.Protocol.Types.{JobKind}
use trawler.Queue.Rows.{Rows, Job, Around, is_active, is_open, any_open, next_position}
use trawler.Queue.Plan.{
  JobResult, new_job, insert_job, queue_triage, finish_run, close_run, after_job, plan_next,
}

-- A run that is not over has a job that a runner may take or works on.
abbrev pub IsLive : Rows → Type 0
IsLive s = is_active s.run.status ≡ true → any_open s.jobs ≡ true

any_open-insert_job :
    (kind : JobKind) (position : ℕ) (finding_key requested_by : Option ℕ) (s : Rows)
    → any_open (insert_job kind position finding_key requested_by s).jobs ≡ true
unfolding insert_job
any_open-insert_job kind position finding_key requested_by s = ground (
  arith,
  any-append (λ (j : Job). is_open j.status) s.jobs
      (new_job s.next_job kind position finding_key requested_by ∷ []),
)

is_active-finish_run : (a : Around) (s : Rows) → is_active (finish_run a s).run.status ≡ false
unfolding finish_run
is_active-finish_run a s = ground arith

close_run-IsLive :
    (a : Around) (next : ℕ) (kind : JobKind) (s : Rows) → IsLive (close_run a next kind s)
unfolding close_run queue_triage
close_run-IsLive a next kind s =
    ground (arith, is_active-finish_run a s, any_open-insert_job JobKind.triage next none none s)

-- However a job ended, once the queue has planned what follows, a run that is not over has a job
-- that is queued or leased.
pub plan_next-IsLive :
    (a : Around) (kind : JobKind) (finding_key : Option ℕ) (result : JobResult) (s : Rows)
    → IsLive (plan_next a kind finding_key result s)
unfolding plan_next
plan_next-IsLive a kind finding_key result s =
    close_run-IsLive a (next_position s.jobs) kind
      (after_job a (next_position s.jobs) kind finding_key result s)
