-- ===== src/Ci/Wait.antt =====
-- The loop that polls a run (`waitForRun` of apps/ci/src/wait.ts). What the service answers and
-- what the clock shows after each poll are parameters, by the number of the poll.
pub mod Ends
use trawler.Base.{
  ℕ, zero, suc, ◌+◌, ◌*◌, ◌^◌, min, Bool, true, false, Option, none, some, leb, if◌then◌else◌,
}
use trawler.Ci.Decision.{RunResult}

-- `MAX_CONSECUTIVE_FAILURES`, `MAX_BACKOFF_MS`
abbrev pub max_consecutive_failures : ℕ
max_consecutive_failures = 15

abbrev pub max_backoff_ms : ℕ
max_backoff_ms = 60000

-- An answer, an error that may pass, another one, or the `check` that throws.
pub data Poll : Type 0 where
  got : RunResult → Poll
  transient fatal stopped : Poll

pub data Waited : Type 0 where
  result : RunResult → Waited
  timed_out : Option RunResult → Waited
  threw : Waited

unfoldable pub delay_of : ℕ → ℕ → ℕ
delay_of poll_ms failures = min (poll_ms * 2 ^ min failures 4) max_backoff_ms

module _ (polls : ℕ → Poll) (clock : ℕ → ℕ) (deadline poll_ms : ℕ) where
  -- The end of a round: too late, or another one.
  abbrev pub go_on : ℕ → ℕ → Option RunResult → Option Waited → Option Waited
  go_on n failures last again =
      if leb deadline (clock n + delay_of poll_ms failures) then some (timed_out last) else again

  unfoldable pub wait_from : ℕ → ℕ → ℕ → Option RunResult → Option Waited
  unfolding delay_of
  wait_from zero n failures last = none
  wait_from (suc fuel) n failures last = elim (polls n) [
    | stopped ↦ some threw
    | fatal ↦ some threw
    | transient ↦
        let again = wait_from fuel (suc n) (suc failures) last in
        if leb max_consecutive_failures (suc failures)
        then some threw
        else go_on n (suc failures) last again
    | got r ↦
        let again = wait_from fuel (suc n) 0 (some r) in
        if r.finished then some (result r) else go_on n 0 (some r) again
  ]

  unfoldable pub wait_for_run : ℕ → Option Waited
  unfolding wait_from
  wait_for_run fuel = wait_from fuel 0 0 none
