-- ===== src/Queue/Limits/Stops.antt =====
-- What the limits do to a run: which runs they stop, and what a stop leaves.
use trawler.Base.{
  ◌≡◌, refl, Bool, true, false, none, some, List, inl, inr, arith, any, Bool-cases, Option-cases,
}
use trawler.Base.Rows.{any-update-false}
use trawler.Queue.Rows.{Rows, Job, Around, is_active, is_queued}
use trawler.Queue.Limits.{
  RunEnd, going, inactive, ended, end_run, cancel_job, limit_reached, limit_stop,
  stop_if_over_limits,
}

abbrev pub any_queued : List Job → Bool
any_queued = any (λ j. is_queued j.status)

pub is_active-end_run :
    (a : Around) (end : RunEnd) (s : Rows) → is_active (end_run a end s).run.status ≡ false
unfolding end_run
is_active-end_run a (RunEnd.stopped_budget) s = refl
is_active-end_run a (RunEnd.cancelled reason) s = refl

pub any_queued-end_run :
    (a : Around) (end : RunEnd) (s : Rows) → any_queued (end_run a end s).jobs ≡ false
unfolding end_run
any_queued-end_run a end s =
    any-update-false (λ j. is_queued j.status) (λ (j : Job). is_queued j.status) (cancel_job a)
      s.jobs (λ r. ground arith)

-- The three ways in which the limits are looked at.
pub data Stopped (a : Around) (s : Rows) : Rows × Bool → Type 0 where
  goes_on : is_active s.run.status ≡ true → limit_reached a s ≡ none → Stopped a s (s, false)
  was_over : is_active s.run.status ≡ false → Stopped a s (s, true)
  is_ended :
      (end : RunEnd)
      → is_active s.run.status ≡ true
      → limit_reached a s ≡ some end
      → Stopped a s (end_run a end s, true)

pub stop_if_over_limits-Stopped : (a : Around) (s : Rows) → Stopped a s (stop_if_over_limits a s)
unfolding stop_if_over_limits
stop_if_over_limits-Stopped a s = elim (Bool-cases (is_active s.run.status)) [
  | inl active ↦ elim (Option-cases (limit_reached a s)) [
    | inl within ↦ rw (limit_stop_within active within) (goes_on active within)
    | inr (end, over) ↦ rw (limit_stop_ended end active over) (is_ended end active over)
  ]
  | inr over ↦ rw (limit_stop_over over) (was_over over)
]
  where
    limit_stop_over : is_active s.run.status ≡ false → limit_stop a s ≡ (s, inactive)
    limit_stop_over h = unfold limit_stop in rw h

    limit_stop_within :
        is_active s.run.status ≡ true → limit_reached a s ≡ none → limit_stop a s ≡ (s, going)
    limit_stop_within h e = unfold limit_stop in rw (h, e)

    limit_stop_ended :
        (end : RunEnd)
        → is_active s.run.status ≡ true
        → limit_reached a s ≡ some end
        → limit_stop a s ≡ (end_run a end s, ended end)
    limit_stop_ended end h e = unfold limit_stop in rw (h, e)
