-- ===== src/Core/AgentLoop/Ends.antt =====
-- How the loop of an agent ends.
use trawler.Base.{
  ℕ, zero, suc, ◌+◌, ◌≤◌, ◌<◌, ◌≡◌, ◌⊎◌, refl, Bool, true, false, Option, none, some, ◌||◌, leb,
  ltb, if◌then◌else◌, arith, Bool-cases, inl, inr,
}
use trawler.Protocol.Types.{StopReason}
use trawler.Core.AgentLoop.{
  Failure, StepResult, Reply, replied, threw, Loop, Generated, generated, thrown, Ended, end_of,
  fails_with, loop_end, Round, goes_on, ends, reset, cut, silent, round, go_round, after_text,
  after_step, stops_after, generate_text, run_agent_loop, done, exceeded, tally_step, keeps_cut_off,
  keeps_silent, browser_failed, max_cut_offs, max_silent_turns,
}

-- From `s` the loop came to `t`: it took no step above the cap, and every cost is counted in the
-- usage and in the budget alike, and beside it in the budget what others added.
pub record Ran (max_steps : ℕ) (s t : Loop) : Type 0 where
  pub grew : s.steps ≤ t.steps
  pub capped : t.steps ≤ max_steps
  pub counted : t.cost_usd + s.spent + t.outside ≡ s.cost_usd + t.spent + s.outside
  pub same_limit : t.limit_usd ≡ s.limit_usd

-- Why the loop ended in `t`; an error is that of the last step's handler, or the one with which
-- the model's next reply failed.
pub data Why (max_steps : ℕ) (replies : ℕ → Reply) (t : Loop) : Ended → Type 0 where
  finishes :
      t.finished ≡ true
      → Why max_steps replies t (record { stopped_by = StopReason.finish; error = none })
  spends :
      exceeded t ≡ true
      → Why max_steps replies t (record { stopped_by = StopReason.budget; error = none })
  runs_out :
      max_steps ≤ t.steps
      → Why max_steps replies t (record { stopped_by = StopReason.max_steps; error = none })
  crashes :
      (text : ℕ)
      → t.crashed ≡ some text
      → Why max_steps replies t
          (record { stopped_by = StopReason.error; error = some (browser_failed text) })
  cuts_off :
      max_cut_offs ≤ t.cut_offs
      → Why max_steps replies t
          (record { stopped_by = StopReason.error; error = some keeps_cut_off })
  falls_silent :
      max_silent_turns ≤ t.silent_turns
      → Why max_steps replies t
          (record { stopped_by = StopReason.error; error = some keeps_silent })
  fails :
      (e : Failure)
      → (t.step_failure ≡ some e) ⊎ (replies t.asked ≡ threw e)
      → Why max_steps replies t (fails_with e)

module _ (max_steps : ℕ) (replies : ℕ → Reply) where
  -- The result of a reply of the model: there is one, and a step was taken unless it failed.
  abbrev TextEnds : Loop → Option Generated → Type 0
  TextEnds s none = 1 ≤ 0
  TextEnds s (some (thrown t e)) = Ran max_steps s t × (replies t.asked ≡ threw e)
  TextEnds s (some (generated t r taken)) = Ran max_steps s t × (s.steps < t.steps)

  -- The result of the loop: there is one, with its reason.
  abbrev pub LoopEnds : Loop → Option (Loop × Ended) → Type 0
  LoopEnds s none = 1 ≤ 0
  LoopEnds s (some (t, end)) = Ran max_steps s t × Why max_steps replies t end

  Ran-refl : (s : Loop) → s.steps ≤ max_steps → Ran max_steps s s
  Ran-refl s h = record { grew = omega arith; capped = h; counted = refl; same_limit = refl }

  Ran-trans : (s t u : Loop) → Ran max_steps s t → Ran max_steps t u → Ran max_steps s u
  Ran-trans s t u h k = record {
    grew = omega (arith, h.grew, k.grew);
    capped = k.capped;
    counted = omega (arith, h.counted, k.counted);
    same_limit = cc;
  }

  tally_step-Ran :
      (r : StepResult) (s : Loop) → s.steps < max_steps → Ran max_steps s (tally_step r s)
  unfolding tally_step
  tally_step-Ran r s h = record {
    grew = omega arith;
    capped = omega arith;
    counted = omega arith;
    same_limit = refl;
  }

  TextEnds-after :
      (s t : Loop) (o : Option Generated)
      → Ran max_steps s t
      → (s.steps < t.steps)
      → TextEnds t o
      → TextEnds s o
  TextEnds-after s t none h lt k = k
  TextEnds-after s t (some (thrown u e)) h lt k = (Ran-trans s t u h k.0, k.1)
  TextEnds-after s t (some (generated u r taken)) h lt k =
      (Ran-trans s t u h k.0, omega (arith, k.1))

  not_done-below : (s : Loop) → done max_steps s ≡ false → s.steps < max_steps
  unfolding done
  not_done-below s h = ground arith

  tally_step-steps : (r : StepResult) (s : Loop) → (tally_step r s).steps ≡ suc s.steps
  unfolding tally_step
  tally_step-steps r s = refl

  stepped-TextEnds :
      (s : Loop) (r : StepResult) (taken : ℕ) (more : Option Generated)
      → s.steps < max_steps
      → (stops_after max_steps r (tally_step r s) ≡ false → TextEnds (tally_step r s) more)
      → TextEnds s (after_step max_steps replies (tally_step r s) r taken more)
  stepped-TextEnds s r taken more below holds =
      elim (Bool-cases (stops_after max_steps r (tally_step r s))) [
        | inl stop ↦ rw stop (tally_step-Ran r s below, omega (arith, tally_step-steps r s))
        | inr on ↦ rw on (
            TextEnds-after s (tally_step r s) more (tally_step-Ran r s below)
              (omega (arith, tally_step-steps r s)) (holds on))
      ]

  asked-TextEnds :
      (s : Loop) (taken : ℕ) (more : StepResult → Option Generated) (reply : Reply)
      → s.steps < max_steps
      → replies s.asked ≡ reply
      → ((r : StepResult)
          → stops_after max_steps r (tally_step r s) ≡ false
          → TextEnds (tally_step r s) (more r))
      → TextEnds s (elim reply [
        | threw e ↦ some (thrown s e)
        | replied r ↦ after_step max_steps replies (tally_step r s) r taken (more r)
      ])
  asked-TextEnds s taken more (threw e) below threw_e holds = (Ran-refl s (omega arith), threw_e)
  asked-TextEnds s taken more (replied r) below replies_r holds =
      stepped-TextEnds s r taken (more r) below (holds r)

  generate_text-TextEnds :
      (fuel taken : ℕ) (s : Loop)
      → s.steps < max_steps
      → max_steps ≤ s.steps + fuel
      → TextEnds s (generate_text max_steps replies fuel taken s)
  unfolding generate_text
  generate_text-TextEnds zero taken s below enough = omega arith
  generate_text-TextEnds (suc fuel) taken s below enough =
      asked-TextEnds s (suc taken)
        (λ r. generate_text max_steps replies fuel (suc taken) (tally_step r s)) (replies s.asked)
        below refl
        (λ r on.
          generate_text-TextEnds fuel (suc taken) (tally_step r s)
            (not_done-below (tally_step r s) (ground arith)) (omega (arith, tally_step-steps r s)))

  end_of-Why :
      (s : Loop) (failure : Option Failure) (finished : Bool) (crashed : Option ℕ) (over : Bool)
      → s.step_failure ≡ failure
      → s.finished ≡ finished
      → s.crashed ≡ crashed
      → exceeded s ≡ over
      → (failure ≡ none → finished ≡ false → crashed ≡ none → over ≡ false → max_steps ≤ s.steps)
      → Why max_steps replies s (end_of failure finished crashed over)
  end_of-Why s (some e) finished crashed over e_f f c o h = Why.fails e (inl e_f)
  end_of-Why s none true crashed over e_f f c o h = Why.finishes f
  end_of-Why s none false (some text) over e_f f c o h = Why.crashes text c
  end_of-Why s none false none true e_f f c o h = Why.spends o
  end_of-Why s none false none false e_f f c o h = Why.runs_out (h refl refl refl refl)

  loop_end-Why : (s : Loop) → done max_steps s ≡ true → Why max_steps replies s (loop_end s)
  unfolding loop_end done
  loop_end-Why s h =
      end_of-Why s s.step_failure s.finished s.crashed (exceeded s) refl refl refl refl
        (λ failure going crash left. ground arith)

  -- Where a round leads: it ends with its reason, or goes on with the same usage.
  abbrev RoundEnds : Loop → Round → Type 0
  RoundEnds s (goes_on t) = Ran max_steps s t × (t.steps ≡ s.steps)
  RoundEnds s (ends t end) = Ran max_steps s t × Why max_steps replies t end

  RoundEnds-if :
      (s : Loop) (b : Bool) (x y : Round)
      → (b ≡ true → RoundEnds s x)
      → (b ≡ false → RoundEnds s y)
      → RoundEnds s (if b then x else y)
  RoundEnds-if s true x y h k = h refl
  RoundEnds-if s false x y h k = k refl

  -- The same usage and budget, whatever the counters of the loop are.
  Ran-counters :
      (s t : Loop) (silence cuts : ℕ)
      → Ran max_steps s t
      → Ran max_steps s (record t { silent_turns = silence; cut_offs = cuts })
  Ran-counters s t silence cuts h = record {
    grew = h.grew;
    capped = h.capped;
    counted = h.counted;
    same_limit = h.same_limit;
  }

  reset-Ran :
      (s : Loop) (taken : ℕ)
      → s.steps ≤ max_steps
      → Ran max_steps s (reset taken s) × ((reset taken s).steps ≡ s.steps)
  reset-Ran s taken h = elim (Bool-cases (ltb 1 taken)) [
    | inl several ↦ rw several (Ran-counters s s 0 0 (Ran-refl s h), refl)
    | inr one ↦ rw one (Ran-refl s h, refl)
  ]

  cut-RoundEnds : (s t : Loop) → Ran max_steps s t × (t.steps ≡ s.steps) → RoundEnds s (cut t)
  cut-RoundEnds s t (h, same) =
      RoundEnds-if s (leb max_cut_offs (suc t.cut_offs)) _ _
        (λ over. (Ran-counters s t t.silent_turns (suc t.cut_offs) h, Why.cuts_off (ground arith)))
        (λ on. (Ran-counters s t t.silent_turns (suc t.cut_offs) h, same))

  silent-RoundEnds : (s t : Loop) → Ran max_steps s t × (t.steps ≡ s.steps) → RoundEnds s (silent t)
  silent-RoundEnds s t (h, same) =
      RoundEnds-if s (leb max_silent_turns (suc t.silent_turns)) _ _
        (λ over.
          (Ran-counters s t (suc t.silent_turns) t.cut_offs h, Why.falls_silent (ground arith)))
        (λ on. (Ran-counters s t (suc t.silent_turns) t.cut_offs h, same))

  round-RoundEnds :
      (s : Loop) (r : StepResult) (taken : ℕ)
      → s.steps ≤ max_steps
      → RoundEnds s (round max_steps replies s r taken)
  unfolding round
  round-RoundEnds s r taken h =
      let kept = reset-Ran s taken h in
      RoundEnds-if s (done max_steps s) (ends s (loop_end s)) _
        (λ over. (Ran-refl s h, loop_end-Why s over))
        (λ on.
          RoundEnds-if s (r.cut_off || ltb 0 r.unrun) (cut (reset taken s)) _
            (λ broken. cut-RoundEnds s (reset taken s) kept)
            (λ whole.
              RoundEnds-if s (ltb 0 r.tool_calls) (goes_on (reset taken s)) (silent (reset taken s))
                (λ acts. kept) (λ says. silent-RoundEnds s (reset taken s) kept)))

  LoopEnds-after :
      (s t : Loop) (o : Option (Loop × Ended)) → Ran max_steps s t → LoopEnds t o → LoopEnds s o
  LoopEnds-after s t none h k = k
  LoopEnds-after s t (some (u, end)) h (k, why) = (Ran-trans s t u h k, why)

  go_round-LoopEnds :
      (s t : Loop) (again : Loop → Option (Loop × Ended)) (next : Round)
      → Ran max_steps s t
      → ((u : Loop) → Ran max_steps t u → u.steps ≡ t.steps → LoopEnds u (again u))
      → RoundEnds t next
      → LoopEnds s (go_round max_steps replies again next)
  go_round-LoopEnds s t again (goes_on u) h more (k, same) =
      LoopEnds-after s u (again u) (Ran-trans s t u h k) (more u k same)
  go_round-LoopEnds s t again (ends u end) h more (k, why) = (Ran-trans s t u h k, why)

  after_text-LoopEnds :
      (s : Loop) (again : Loop → Option (Loop × Ended)) (text : Option Generated)
      → ((u : Loop) → u.steps ≤ max_steps → s.steps < u.steps → LoopEnds u (again u))
      → TextEnds s text
      → LoopEnds s (after_text max_steps replies again text)
  after_text-LoopEnds s again none more h = h
  after_text-LoopEnds s again (some (thrown t e)) more (h, threw_e) = (h, Why.fails e (inr threw_e))
  after_text-LoopEnds s again (some (generated t r taken)) more (h, lt) =
      go_round-LoopEnds s t again (round max_steps replies t r taken) h
        (λ u k same. more u k.capped (omega (arith, same))) (round-RoundEnds t r taken h.capped)

  -- With more fuel than the cap leaves steps, the loop ends. It has taken no step above the cap and
  -- has counted each cost in the usage and the budget alike, and in the budget also what others
  -- added; and it names a reason that holds: the session is finished, the budget is spent, the cap
  -- is reached, the browser keeps crashing, the model's replies were cut off or without a tool three
  -- times, or an error, which a step's handler or the model's next reply threw: the budget
  -- if it is the run's own stop, else that error.
  pub run_agent_loop-LoopEnds :
      (fuel : ℕ) (s : Loop)
      → s.steps ≤ max_steps
      → max_steps < s.steps + fuel
      → LoopEnds s (run_agent_loop max_steps replies fuel s)
  unfolding run_agent_loop
  run_agent_loop-LoopEnds zero s below enough = omega arith
  run_agent_loop-LoopEnds (suc fuel) s below enough = elim (Bool-cases (done max_steps s)) [
    | inl over ↦ rw over (Ran-refl s below, loop_end-Why s over)
    | inr on ↦ rw on (
        after_text-LoopEnds s (run_agent_loop max_steps replies fuel)
          (generate_text max_steps replies (suc fuel) 0 s)
          (λ u capped lt. run_agent_loop-LoopEnds fuel u capped (omega arith))
          (generate_text-TextEnds (suc fuel) 0 s (not_done-below s on) (omega arith)))
  ]
