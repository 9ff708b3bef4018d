-- ===== src/Queue/Sweeps.antt =====
-- The sweeps that stop runs (`stopRunsPastLimits`, `stopUnclaimedRuns`, `stopRunsOfGoneClients` of
-- queue.ts), on all the runs, each in its own transaction. They count the runs that they stopped.
pub mod Ends
use trawler.Base.{ℕ, ◌+◌, Bool, true, false, List, [], ◌∷◌, ◌&&◌, ◌||◌, leb, ◌*◌, if◌then◌else◌}
use trawler.Queue.Rows.{Rows, Around, is_active, minute}
use trawler.Queue.Limits.{
  over_time, stop_past_limits, stop_unclaimed, stop_gone_client, is_own_queued, not_seen,
  unclaimed_run_minutes,
}
use trawler.Queue.Claim.{Entry}

-- Which runs a sweep is for: the queries `due`, `unclaimed` and `clientGone`.
abbrev pub past_limits : Entry → Bool
past_limits e = is_active e.rows.run.status && (e.around.halted || over_time e.around e.rows.run)

abbrev pub unclaimed : Entry → Bool
unclaimed e =
    is_own_queued e.rows.run
    && leb (e.rows.run.created_at + unclaimed_run_minutes * minute) e.around.now

abbrev pub client_gone : Entry → Bool
client_gone e = is_active e.rows.run.status && not_seen e.around e.rows.run

abbrev pub with_rows : Entry → Rows × ℕ → Entry × ℕ
with_rows e (s, n) = (record e { rows = s }, n)

abbrev pub counted : Rows × Bool → Rows × ℕ
counted (s, stopped) = (s, if stopped then 1 else 0)

unfoldable pub sweep : (Around → Rows → Rows × ℕ) → List Entry → List Entry × ℕ
sweep stop [] = ([], 0)
sweep stop (e ∷ entries) =
    let (e', n) = with_rows e (stop e.around e.rows) in
    let (entries', more) = sweep stop entries in (e' ∷ entries', n + more)

unfoldable pub stop_runs_past_limits : List Entry → List Entry × ℕ
unfolding sweep
stop_runs_past_limits = sweep stop_past_limits

unfoldable pub stop_unclaimed_runs : List Entry → List Entry × ℕ
unfolding sweep stop_unclaimed
stop_unclaimed_runs = sweep (λ a s. counted (stop_unclaimed a s))

unfoldable pub stop_runs_of_gone_clients : List Entry → List Entry × ℕ
unfolding sweep stop_gone_client
stop_runs_of_gone_clients = sweep (λ a s. counted (stop_gone_client a s))
