-- ===== src/Queue/Sweeps/Ends.antt =====
-- What a sweep leaves.
use trawler.Base.{
  ℕ, ◌≡◌, refl, arith, Bool, true, false, Option, none, some, is_some, List, [], ◌∷◌, ◌&&◌, ◌||◌,
  if◌then◌else◌, any,
}
use trawler.Base.Rows.{count_if}
use trawler.Queue.Rows.{Rows, Around, CancelReason, is_active}
use trawler.Queue.Limits.{
  RunEnd, LimitStop, cancelled, end_run, cancel_run, limit_reached, limit_stop, over_time,
  stop_past_limits, stop_unclaimed, stop_gone_client, not_seen, stopped_count, end_at,
}
use trawler.Queue.Limits.Stops.{is_active-end_run}
use trawler.Queue.Claim.{Entry}
use trawler.Queue.Sweeps.{
  past_limits, unclaimed, client_gone, counted, sweep, stop_runs_past_limits, stop_unclaimed_runs,
  stop_runs_of_gone_clients,
}

-- A sweep leaves no run that it is for, and counts each that there was once.
abbrev pub IsSwept : (Entry → Bool) → List Entry → List Entry × ℕ → Type 0
IsSwept due entries (after, stopped) = (any due after ≡ false) × (stopped ≡ count_if due entries)

-- A stop of one run that does its part of a sweep.
abbrev Stops : (Entry → Bool) → Entry → Rows × ℕ → Type 0
Stops due e (s, n) = (due (record e { rows = s }) ≡ false) × (n ≡ (if due e then 1 else 0))

sweep-IsSwept :
    (due : Entry → Bool) (stop : Around → Rows → Rows × ℕ) (entries : List Entry)
    → ((e : Entry) → Stops due e (stop e.around e.rows))
    → IsSwept due entries (sweep stop entries)
unfolding sweep count_if
sweep-IsSwept due stop [] h = (refl, refl)
sweep-IsSwept due stop (e ∷ entries) h =
    let (none_left, n) = sweep-IsSwept due stop entries h in
    (ground (arith, none_left, (h e).0), ground (arith, n, (h e).1))

over-not_due :
    (e : Entry)
    → is_active e.rows.run.status ≡ false
    → (past_limits e ≡ false) × (client_gone e ≡ false)
over-not_due e over = (ground (arith, over), ground (arith, over))

-- Under a halt, and past its time, a run has reached a limit.
limit_reached-due :
    (a : Around) (s : Rows)
    → (a.halted || over_time a s.run) ≡ true
    → is_some (limit_reached a s) ≡ true
unfolding limit_reached
limit_reached-due a s due = ground arith

past_limits-Stops_if :
    (active due : Bool) (r : Option RunEnd) (e : Entry)
    → is_active e.rows.run.status ≡ active
    → (e.around.halted || over_time e.around e.rows.run) ≡ due
    → (due ≡ true → is_some r ≡ true)
    → Stops past_limits e (
        if active && due
        then stopped_count
            (if active then end_at e.around e.rows r else (e.rows, LimitStop.inactive))
        else (e.rows, 0))
past_limits-Stops_if true true (some end) e live past reached = (
  (over-not_due (record e { rows = end_run e.around end e.rows })
      (is_active-end_run e.around end e.rows)).0,
  ground (arith, live, past),
)
past_limits-Stops_if true true none e live past reached = cc (reached refl)
past_limits-Stops_if true false r e live past reached =
    (ground (arith, live, past), ground (arith, live, past))
past_limits-Stops_if false due r e live past reached =
    (ground (arith, live, past), ground (arith, live, past))

stop_past_limits-Stops : (e : Entry) → Stops past_limits e (stop_past_limits e.around e.rows)
unfolding stop_past_limits limit_stop
stop_past_limits-Stops e =
    past_limits-Stops_if (is_active e.rows.run.status)
      (e.around.halted || over_time e.around e.rows.run) (limit_reached e.around e.rows) e refl refl
      (limit_reached-due e.around e.rows)

unclaimed-Stops_if :
    (b : Bool) (e : Entry)
    → unclaimed e ≡ b
    → Stops unclaimed e (
        counted (
          if b
          then (end_run e.around (cancelled CancelReason.unclaimed) e.rows, true)
          else (e.rows, false)))
unfolding end_run
unclaimed-Stops_if true e due = (ground arith, ground (arith, due))
unclaimed-Stops_if false e due = (due, ground (arith, due))

stop_unclaimed-Stops : (e : Entry) → Stops unclaimed e (counted (stop_unclaimed e.around e.rows))
unfolding stop_unclaimed
stop_unclaimed-Stops e = unclaimed-Stops_if (unclaimed e) e refl

client_gone-Stops_if :
    (active gone : Bool) (e : Entry)
    → is_active e.rows.run.status ≡ active
    → not_seen e.around e.rows.run ≡ gone
    → Stops client_gone e (
        counted (
          if active && gone
          then (if active
              then (end_run e.around (cancelled CancelReason.ci_gone) e.rows, true)
              else (e.rows, false))
          else (e.rows, false)))
client_gone-Stops_if true true e live gone = (
  (over-not_due (record e { rows = end_run e.around (cancelled CancelReason.ci_gone) e.rows })
      (is_active-end_run e.around (cancelled CancelReason.ci_gone) e.rows)).1,
  ground (arith, live, gone),
)
client_gone-Stops_if true false e live gone =
    (ground (arith, live, gone), ground (arith, live, gone))
client_gone-Stops_if false gone e live h = (ground (arith, live, h), ground (arith, live, h))

stop_gone_client-Stops :
    (e : Entry) → Stops client_gone e (counted (stop_gone_client e.around e.rows))
unfolding stop_gone_client cancel_run
stop_gone_client-Stops e =
    client_gone-Stops_if (is_active e.rows.run.status) (not_seen e.around e.rows.run) e refl refl

-- Each sweep stops every run that it is for, and counts it once: after the first none is live past
-- its three hours, nor at all under a halt; after the second none waits for a runner of the
-- workspace's own that was started twenty minutes ago; and after the third none is live whose
-- client was last seen three minutes ago.
pub sweep_ends :
    (entries : List Entry)
    → IsSwept past_limits entries (stop_runs_past_limits entries)
      × IsSwept unclaimed entries (stop_unclaimed_runs entries)
      × IsSwept client_gone entries (stop_runs_of_gone_clients entries)
unfolding stop_runs_past_limits stop_unclaimed_runs stop_runs_of_gone_clients
sweep_ends entries = (
  sweep-IsSwept past_limits stop_past_limits entries stop_past_limits-Stops,
  sweep-IsSwept unclaimed (λ a s. counted (stop_unclaimed a s)) entries stop_unclaimed-Stops,
  sweep-IsSwept client_gone (λ a s. counted (stop_gone_client a s)) entries stop_gone_client-Stops,
)
