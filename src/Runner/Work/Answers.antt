-- ===== src/Runner/Work/Answers.antt =====
-- What the control plane is told of a job, and what is reported of a runner's errors.
use trawler.Base.{
  ℕ, suc, ◌+◌, ◌≡◌, ◌≤◌, refl, arith, Bool, true, false, Option, List, [], ◌∷◌, not, ◌||◌,
  if◌then◌else◌, is_some,
}
use trawler.Protocol.Types.{StopReason, is_error}
use trawler.Runner.Work.{
  Problem, Performed, ran, threw, JobRun, Told, nothing, released, completed, completion_of,
  work_on, RoundEnd, LoopRound, LoopEnd, stops, fatally, going, work_loop,
}

-- Whether something of the run itself went wrong.
abbrev pub went_wrong : JobRun → Bool
went_wrong r =
    r.events_failed
    || not r.cleared
    || (elim r.result [ ran c ↦ is_error c.stopped_by | threw text ↦ true ])

abbrev pub reason_of : Performed → StopReason
reason_of (ran c) = c.stopped_by
reason_of (threw text) = StopReason.error

-- What is told of a job, by what happened.
abbrev pub TellsOf : JobRun → Told → Type 0
TellsOf r nothing = false ≡ true
TellsOf r released = (r.stops_before || r.stops_during) ≡ true
TellsOf r (completed c) =
    ((r.stops_before || r.stops_during) ≡ false)
    × (is_error c.stopped_by ≡ went_wrong r)
    × (went_wrong r ≡ false
        → c.stopped_by ≡ (if r.cancelled then StopReason.budget else reason_of r.result))
    × ((not r.cleared || r.events_failed) ≡ true → is_some c.error ≡ true)

abbrev ran_as : (cancelled : Bool) → StopReason → Option Problem → JobRun
ran_as cancelled s e = record {
  stops_before = false;
  cleared = true;
  result = ran (record { stopped_by = s; error = e });
  cancelled = cancelled;
  stops_during = false;
  events_failed = false;
}

ran_round :
    (cancelled : Bool) (s : StopReason) (e : Option Problem)
    → TellsOf (ran_as cancelled s e) (work_on (ran_as cancelled s e))
unfolding work_on completion_of
ran_round false s e = (refl, refl, λ h. refl, λ h. cc)
ran_round true StopReason.error e = (refl, refl, λ h. cc, λ h. cc)
ran_round true StopReason.finish e = (refl, refl, λ h. refl, λ h. cc)
ran_round true StopReason.max_steps e = (refl, refl, λ h. refl, λ h. cc)
ran_round true StopReason.budget e = (refl, refl, λ h. refl, λ h. cc)
ran_round true StopReason.report e = (refl, refl, λ h. refl, λ h. cc)
ran_round true StopReason.no_report e = (refl, refl, λ h. refl, λ h. cc)
ran_round true StopReason.done e = (refl, refl, λ h. refl, λ h. cc)

tells_round :
    (before during cleared cancelled failed : Bool) (result : Performed)
    → let r : JobRun = record {
      stops_before = before;
      cleared = cleared;
      result = result;
      cancelled = cancelled;
      stops_during = during;
      events_failed = failed;
    } in
      TellsOf r (work_on r)
unfolding work_on completion_of
tells_round true during cleared cancelled failed result = refl
tells_round false true cleared cancelled failed result = refl
tells_round false false false cancelled false result = (refl, refl, λ e. cc, λ e. refl)
tells_round false false false cancelled true result = (refl, refl, λ e. cc, λ e. refl)
tells_round false false true cancelled false (ran c) = ran_round cancelled c.stopped_by c.error
tells_round false false true cancelled true (ran c) = (refl, refl, λ e. cc, λ e. refl)
tells_round false false true cancelled false (threw text) = (refl, refl, λ e. cc, λ e. cc)
tells_round false false true cancelled true (threw text) = (refl, refl, λ e. cc, λ e. refl)

-- A job whose runner is stopped is released, and every other job is completed. It is completed as
-- failed exactly if the last job's browser could not be cleared, the run threw or failed, or its
-- events could not be sent; else as out of budget if it was cancelled, and else for the reason of
-- the run. A failure that the runner found carries an error.
pub work_on-TellsOf : (r : JobRun) → TellsOf r (work_on r)
unfolding work_on
work_on-TellsOf r =
    tells_round r.stops_before r.stops_during r.cleared r.cancelled r.events_failed r.result

-- The rounds that did not fail, before the loop ends.
abbrev pub calm_rounds : List LoopRound → ℕ
calm_rounds [] = 0
calm_rounds (r ∷ rounds) =
    let rest = calm_rounds rounds in
    if r.stopping then 0 else (elim r.end [
      | RoundEnd.idle ↦ suc rest
      | RoundEnd.done ↦ suc rest
      | RoundEnd.fails ↦ rest
      | RoundEnd.fatal ↦ 0
    ])

abbrev pub fatal_reports : LoopEnd → ℕ
fatal_reports fatally = 1
fatal_reports stops = 0
fatal_reports going = 0

abbrev one_unless : Bool → ℕ
one_unless true = 0
one_unless false = 1

round_bound :
    (b stopping : Bool) (e : RoundEnd) (rounds : List LoopRound)
    → ((b' : Bool)
        → (work_loop b' rounds).0
          ≤ one_unless b' + calm_rounds rounds + fatal_reports (work_loop b' rounds).1)
    → (work_loop b (record { stopping = stopping; end = e } ∷ rounds)).0
      ≤ one_unless b
        + calm_rounds (record { stopping = stopping; end = e } ∷ rounds)
        + fatal_reports (work_loop b (record { stopping = stopping; end = e } ∷ rounds)).1
unfolding work_loop
round_bound b true e rounds ih = omega arith
round_bound b false RoundEnd.idle rounds ih = omega (arith, ih false)
round_bound b false RoundEnd.done rounds ih = omega (arith, ih false)
round_bound true false RoundEnd.fails rounds ih = omega (arith, ih true)
round_bound false false RoundEnd.fails rounds ih = omega (arith, ih true)
round_bound b false RoundEnd.fatal rounds ih = omega arith

loop_bound :
    (b : Bool) (rounds : List LoopRound)
    → (work_loop b rounds).0
      ≤ one_unless b + calm_rounds rounds + fatal_reports (work_loop b rounds).1
unfolding work_loop
loop_bound b [] = omega arith
loop_bound b (r ∷ rounds) = round_bound b r.stopping r.end rounds (λ b'. loop_bound b' rounds)

-- However often claims fail in a row, at most one error is reported of each such row, and one more
-- of a claim that ends the runner for good: there are at most as many reports as claims that did
-- not fail, one for the start, and one for such an end.
pub work_loop_bounds :
    (rounds : List LoopRound)
    → (work_loop false rounds).0 ≤ 1 + calm_rounds rounds + fatal_reports (work_loop false rounds).1
work_loop_bounds rounds = loop_bound false rounds
