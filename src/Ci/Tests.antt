-- ===== src/Ci/Tests.antt =====
-- The waiting and the decision at concrete values.
use trawler.Base.{ℕ, zero, suc, ◌*◌, ◌<◌, ◌≡◌, ◌↔◌, Bool, true, false, none, arith}
use trawler.Ci.Decision.{RunResult, ResultStatus, FailOn, decide, Message, decide-fails}
use trawler.Ci.Wait.{Poll, got, transient, wait_for_run}
use trawler.Ci.Wait.Ends.{WaitEnds, wait_for_run-WaitEnds}

abbrev a_result : ℕ → Bool → RunResult
a_result n finished = record {
  number = 12;
  status = ResultStatus.succeeded;
  finished = finished;
  skipped = false;
  confirmed = n;
  unverified = none;
  lead_fallback = none;
}

decide-fails_example :
    (((decide (a_result 2 true) FailOn.any_confirmed).exit_code ≡ 1)
      ↔ ((false ≡ false) × (true ≡ true) × (false ≡ false) × (0 < 2)))
    × (((decide (a_result 2 true) FailOn.any_confirmed).message ≡ Message.clean) ↔ (
        (false ≡ false)
        × (true ≡ true)
        × (false ≡ false)
        × ((a_result 2 true).confirmed ≡ 0)
        × (false ≡ false)))
decide-fails_example = decide-fails (a_result 2 true) FailOn.any_confirmed

-- An error, an unfinished run, then the end.
abbrev polls : ℕ → Poll
polls zero = transient
polls (suc zero) = got (a_result 0 false)
polls (suc (suc n)) = got (a_result 2 true)

abbrev clock : ℕ → ℕ
clock n = n * 5000

wait_for_run-WaitEnds_example :
    WaitEnds polls clock 60000 5000 (wait_for_run polls clock 60000 5000 60001)
wait_for_run-WaitEnds_example =
    wait_for_run-WaitEnds polls clock 60000 5000 60001 (λ k. omega arith) (omega arith)
      (omega arith)
