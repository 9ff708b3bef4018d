-- ===== src/Ci/Wait/Ends.antt =====
-- How the waiting ends.
use mathlib.Core.Path.{subst}
use trawler.Base.{
  ℕ, zero, suc, ◌+◌, ◌≤◌, ◌<◌, ◌≡◌, refl, Bool, true, false, Option, none, some, leb, if◌then◌else◌,
  ◌⊎◌, inl, inr, arith, Bool-cases,
}
use trawler.Ci.Decision.{RunResult}
use trawler.Ci.Wait.{
  Poll, got, transient, fatal, stopped, Waited, result, timed_out, threw, delay_of, go_on,
  wait_from, wait_for_run, max_consecutive_failures, max_backoff_ms,
}

module _ (polls : ℕ → Poll) (clock : ℕ → ℕ) (deadline poll_ms : ℕ) where
  -- The answer that was got last, of the first `n` polls.
  pub data LastOf : ℕ → Option RunResult → Type 0 where
    nothing_yet : LastOf 0 none
    answered : (n : ℕ) (r : RunResult) → polls n ≡ got r → LastOf (suc n) (some r)
    kept :
        (n : ℕ) (last : Option RunResult)
        → LastOf n last
        → polls n ≡ transient
        → LastOf (suc n) last

  -- That many polls before `n` failed one after another.
  pub data Failing : ℕ → ℕ → Type 0 where
    none_failed : (n : ℕ) → Failing n 0
    one_more :
        (n failures : ℕ) → Failing n failures → polls n ≡ transient → Failing (suc n) (suc failures)

  -- Why the waiting ends.
  pub data EndsBy : Waited → Type 0 where
    finishes : (n : ℕ) (r : RunResult) → polls n ≡ got r → r.finished ≡ true → EndsBy (result r)
    is_late :
        (n : ℕ) (last : Option RunResult)
        → LastOf (suc n) last
        → deadline ≤ clock n + max_backoff_ms
        → EndsBy (timed_out last)
    is_stopped : (n : ℕ) → (polls n ≡ fatal) ⊎ (polls n ≡ stopped) → EndsBy threw
    keeps_failing : (n : ℕ) → Failing n max_consecutive_failures → EndsBy threw

  -- There is a result, and it ends for a reason.
  abbrev pub WaitEnds : Option Waited → Type 0
  WaitEnds none = 1 ≤ 0
  WaitEnds (some w) = EndsBy w

  delay_of-most : (failures : ℕ) → delay_of poll_ms failures ≤ max_backoff_ms
  unfolding delay_of
  delay_of-most failures = omega arith

  go_on-WaitEnds :
      (n failures : ℕ) (last : Option RunResult) (again : Option Waited)
      → LastOf (suc n) last
      → (clock n < deadline → WaitEnds again)
      → WaitEnds (go_on polls clock deadline poll_ms n failures last again)
  go_on-WaitEnds n failures last again told more =
      elim (Bool-cases (leb deadline (clock n + delay_of poll_ms failures))) [
        | inl late ↦ rw late (EndsBy.is_late n last told (ground (arith, delay_of-most failures)))
        | inr early ↦ rw early (more (ground arith))
      ]

  -- One poll, whatever it answers.
  polled-WaitEnds :
      (n failures : ℕ) (last : Option RunResult) (poll : Poll) (after_error : Option Waited)
      (after : RunResult → Option Waited)
      → polls n ≡ poll
      → LastOf n last
      → Failing n failures
      → (failures < max_consecutive_failures)
      → (suc failures < max_consecutive_failures
          → LastOf (suc n) last
          → Failing (suc n) (suc failures)
          → clock n < deadline
          → WaitEnds after_error)
      → ((r : RunResult) → LastOf (suc n) (some r) → clock n < deadline → WaitEnds (after r))
      → WaitEnds (elim poll [
        | stopped ↦ some threw
        | fatal ↦ some threw
        | transient ↦
            if leb max_consecutive_failures (suc failures)
            then some threw
            else go_on polls clock deadline poll_ms n (suc failures) last after_error
        | got r ↦
            if r.finished
            then some (result r)
            else go_on polls clock deadline poll_ms n 0 (some r) (after r)
      ])
  polled-WaitEnds n failures last stopped after_error after e told failing few more_error more =
      EndsBy.is_stopped n (inr e)
  polled-WaitEnds n failures last fatal after_error after e told failing few more_error more =
      EndsBy.is_stopped n (inl e)
  polled-WaitEnds n failures last transient after_error after e told failing few more_error more =
      elim (Bool-cases (leb max_consecutive_failures (suc failures))) [
        | inl many ↦
            let full : suc failures ≡ max_consecutive_failures = ground arith in
            rw many (
              EndsBy.keeps_failing (suc n)
                (subst (Failing (suc n)) full (Failing.one_more n failures failing e)))
        | inr some_left ↦ rw some_left (
            go_on-WaitEnds n (suc failures) last after_error (LastOf.kept n last told e) (
              more_error (ground arith) (LastOf.kept n last told e)
                (Failing.one_more n failures failing e)))
      ]
  polled-WaitEnds n failures last (got r) after_error after e told failing few more_error more =
      got_one r.finished refl
    where
      got_one :
          (b : Bool)
          → r.finished ≡ b
          → WaitEnds (
              if b
              then some (result r)
              else go_on polls clock deadline poll_ms n 0 (some r) (after r))
      got_one true finished = EndsBy.finishes n r e finished
      got_one false running =
          go_on-WaitEnds n 0 (some r) (after r) (LastOf.answered n r e)
            (more r (LastOf.answered n r e))

  wait_from-WaitEnds :
      (fuel n failures : ℕ) (last : Option RunResult)
      → ((k : ℕ) → clock k < clock (suc k))
      → LastOf n last
      → Failing n failures
      → failures < max_consecutive_failures
      → 0 < fuel
      → deadline < clock n + fuel
      → WaitEnds (wait_from polls clock deadline poll_ms fuel n failures last)
  unfolding wait_from
  wait_from-WaitEnds zero n failures last ticks told failing few some_fuel enough =
      omega (arith, some_fuel)
  wait_from-WaitEnds (suc fuel) n failures last ticks told failing few some_fuel enough =
      polled-WaitEnds n failures last (polls n)
        (wait_from polls clock deadline poll_ms fuel (suc n) (suc failures) last)
        (λ r. wait_from polls clock deadline poll_ms fuel (suc n) 0 (some r)) refl told failing few
        (λ left told' failing' early.
          wait_from-WaitEnds fuel (suc n) (suc failures) last ticks told' failing' left
            (omega arith) (omega (arith, ticks n)))
        (λ r told' early.
          wait_from-WaitEnds fuel (suc n) 0 (some r) ticks told' (Failing.none_failed (suc n))
            (omega arith) (omega arith) (omega (arith, ticks n)))

  -- If the clock moves between two polls, the waiting ends, given more fuel than there are
  -- milliseconds to the deadline. It ends with an answer of the service that says the run is
  -- finished; or within a minute of the deadline, with the last answer that was got; or it throws,
  -- after an error that does not pass, a stop, or fifteen errors in a row.
  pub wait_for_run-WaitEnds :
      (fuel : ℕ)
      → ((k : ℕ) → clock k < clock (suc k))
      → 0 < fuel
      → deadline < clock 0 + fuel
      → WaitEnds (wait_for_run polls clock deadline poll_ms fuel)
  unfolding wait_for_run
  wait_for_run-WaitEnds fuel ticks some_fuel enough =
      wait_from-WaitEnds fuel 0 0 none ticks LastOf.nothing_yet (Failing.none_failed 0)
        (omega arith) some_fuel enough
