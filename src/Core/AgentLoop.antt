-- ===== src/Core/AgentLoop.antt =====
-- The loop in which a model acts (`runAgentLoop` of packages/core/src/agent-loop.ts, with `Budget`,
-- `stepCost` and `tallyStep` of llm.ts). What the model answers is a parameter: a reply for each
-- call, with what its tools did to the session and to the browser. Money is in nano-dollars.
pub mod Ends
use trawler.Base.{
  ℕ, zero, suc, ◌+◌, Bool, true, false, Option, none, some, List, [], ◌∷◌, not, ◌&&◌, ◌||◌, leb,
  ltb, ◌==◌, if◌then◌else◌, is_some,
}
use trawler.Protocol.Types.{StopReason}

-- `MAX_SILENT_TURNS`, `MAX_CUT_OFFS`
abbrev pub max_silent_turns : ℕ
max_silent_turns = 3

abbrev pub max_cut_offs : ℕ
max_cut_offs = 3

-- An error, and whether `stoppedByRun` takes it for the run's own stop.
pub record Failure : Type 0 where
  pub by_run : Bool
  pub text : ℕ

-- The costs that the provider names in a step's metadata, 0 where it names none; `added` is what
-- others have added to the budget by the end of the step.
pub record StepResult : Type 0 where
  pub charged : ℕ
  pub upstream : ℕ
  pub added : ℕ
  pub input_tokens : ℕ
  pub output_tokens : ℕ
  pub tool_calls : ℕ
  pub unrun : ℕ
  pub cut_off : Bool
  pub on_step : Option Failure
  pub finished : Bool
  pub crashed : Option ℕ

pub data Reply : Type 0 where
  replied : StepResult → Reply
  threw : Failure → Reply

-- `usage`, the budget, and the variables of the loop; `asked` counts the model's replies, and
-- `outside` the money that others added to the budget.
pub record Loop : Type 0 where
  pub steps : ℕ
  pub cost_usd : ℕ
  pub input_tokens : ℕ
  pub output_tokens : ℕ
  pub spent : ℕ
  pub outside : ℕ
  pub limit_usd : ℕ
  pub finished : Bool
  pub crashed : Option ℕ
  pub step_failure : Option Failure
  pub silent_turns : ℕ
  pub cut_offs : ℕ
  pub asked : ℕ

-- `stepCost`: what was charged, and the cost upstream where that is more.
unfoldable pub step_cost : StepResult → ℕ
step_cost r = if ltb r.charged r.upstream then r.charged + r.upstream else r.charged

-- `spent >= limitUsd - 1e-9`
unfoldable pub exceeded : Loop → Bool
exceeded s = leb s.limit_usd (s.spent + 1)

unfoldable pub done : ℕ → Loop → Bool
unfolding exceeded
done max_steps s =
    s.finished || leb max_steps s.steps || exceeded s || is_some s.crashed || is_some s.step_failure

-- `tallyStep`, then `onStep`; the tools of the step have run by then.
unfoldable pub tally_step : StepResult → Loop → Loop
unfolding step_cost
tally_step r s = record s {
  steps = suc s.steps;
  cost_usd = s.cost_usd + step_cost r;
  input_tokens = s.input_tokens + r.input_tokens;
  output_tokens = s.output_tokens + r.output_tokens;
  spent = s.spent + (step_cost r + r.added);
  outside = s.outside + r.added;
  finished = r.finished;
  crashed = r.crashed;
  step_failure = elim r.on_step [ none ↦ s.step_failure | some e ↦ some e ];
  asked = suc s.asked;
}

-- What `generateText` returns: its last step and how many it took; or what it throws.
pub data Generated : Type 0 where
  generated : Loop → StepResult → ℕ → Generated
  thrown : Loop → Failure → Generated

-- `generateText` goes on while the tools that were called have run and no condition stops it.
abbrev pub stops_after : ℕ → StepResult → Loop → Bool
stops_after max_steps r s = r.tool_calls == 0 || ltb 0 r.unrun || done max_steps s || r.cut_off

pub data LoopError : Type 0 where
  keeps_cut_off keeps_silent : LoopError
  browser_failed : ℕ → LoopError
  failed : ℕ → LoopError

pub record Ended : Type 0 where
  pub stopped_by : StopReason
  pub error : Option LoopError

abbrev pub fails_with : Failure → Ended
fails_with e =
    if e.by_run
    then record { stopped_by = StopReason.budget; error = none }
    else record { stopped_by = StopReason.error; error = some (failed e.text) }

-- One round of the loop after the reply: it goes on, or ends with an error.
pub data Round : Type 0 where
  goes_on : Loop → Round
  ends : Loop → Ended → Round

-- After the loop, and the `catch` for what a step's handler threw.
abbrev pub end_of : Option Failure → Bool → Option ℕ → Bool → Ended
end_of (some e) finished crashed over = fails_with e
end_of none true crashed over = record { stopped_by = StopReason.finish; error = none }
end_of none false (some text) over = record {
  stopped_by = StopReason.error;
  error = some (browser_failed text);
}
end_of none false none true = record { stopped_by = StopReason.budget; error = none }
end_of none false none false = record { stopped_by = StopReason.max_steps; error = none }

unfoldable pub loop_end : Loop → Ended
unfolding exceeded
loop_end s = end_of s.step_failure s.finished s.crashed (exceeded s)

abbrev pub reset : ℕ → Loop → Loop
reset taken s = if ltb 1 taken then record s { silent_turns = 0; cut_offs = 0 } else s

abbrev pub cut : Loop → Round
cut s =
    if leb max_cut_offs (suc s.cut_offs)
    then ends (record s { cut_offs = suc s.cut_offs })
        (record { stopped_by = StopReason.error; error = some keeps_cut_off })
    else goes_on (record s { cut_offs = suc s.cut_offs })

abbrev pub silent : Loop → Round
silent s =
    if leb max_silent_turns (suc s.silent_turns)
    then ends (record s { silent_turns = suc s.silent_turns })
        (record { stopped_by = StopReason.error; error = some keeps_silent })
    else goes_on (record s { silent_turns = suc s.silent_turns })

module _ (max_steps : ℕ) (replies : ℕ → Reply) where
  abbrev pub after_step : Loop → StepResult → ℕ → Option Generated → Option Generated
  after_step s r taken more = if stops_after max_steps r s then some (generated s r taken) else more

  unfoldable pub generate_text : ℕ → ℕ → Loop → Option Generated
  unfolding done tally_step
  generate_text zero taken s = none
  generate_text (suc fuel) taken s = elim (replies s.asked) [
    | threw e ↦ some (thrown s e)
    | replied r ↦
        let more = generate_text fuel (suc taken) (tally_step r s) in
        after_step (tally_step r s) r (suc taken) more
  ]

  unfoldable pub round : Loop → StepResult → ℕ → Round
  unfolding done loop_end
  round s r taken =
      if done max_steps s
      then ends s (loop_end s)
      else if r.cut_off || ltb 0 r.unrun
      then cut (reset taken s)
      else if ltb 0 r.tool_calls
      then goes_on (reset taken s)
      else silent (reset taken s)

  abbrev pub go_round : (Loop → Option (Loop × Ended)) → Round → Option (Loop × Ended)
  go_round again (goes_on s) = again s
  go_round again (ends s end) = some (s, end)

  abbrev pub after_text : (Loop → Option (Loop × Ended)) → Option Generated → Option (Loop × Ended)
  after_text again none = none
  after_text again (some (thrown s e)) = some (s, fails_with e)
  after_text again (some (generated s r taken)) = go_round again (round s r taken)

  unfoldable pub run_agent_loop : ℕ → Loop → Option (Loop × Ended)
  unfolding generate_text round done loop_end
  run_agent_loop zero s = none
  run_agent_loop (suc fuel) s =
      if done max_steps s
      then some (s, loop_end s)
      else after_text (run_agent_loop fuel) (generate_text (suc fuel) 0 s)
