-- ===== src/Core/Tests.antt =====
-- An agent's loop and a session at concrete values.
mod Plans
mod Secrets
use trawler.Base.{
  any, not, ◌==◌, if◌then◌else◌, ◌≡◌, ℕ, zero, suc, refl, true, false, Option, none, some, List, [],
  ◌∷◌, map, arith, is_some,
}
use trawler.Protocol.Types.{Finding, FindingKind}
use trawler.Protocol.Turns.{Goal}
use trawler.Core.AgentLoop.{StepResult, replied, Loop, run_agent_loop}
use trawler.Core.AgentLoop.Ends.{LoopEnds, run_agent_loop-LoopEnds}
use trawler.Core.Session.{
  Session, closed, note, submit_finding, goal_status, finish, browser_acted, new_session_state,
  fresh_session,
}
use trawler.Core.Asks.{Purse, GroupAnswer, said, ask_model, NotABugMatch, match_of, known_not_bugs}
use trawler.Core.Asks.Outcomes.{Outcome, ask_model-Outcome}
use trawler.Core.Asks.Firsts.{given_for, first_for, OneEach, known_not_bugs-firsts}
use trawler.Core.Secrets.{Range, scrub_pieces}
use trawler.Core.Secrets.Masked.{shows, covers, scrub_pieces-shows}
use trawler.Core.Session.Calls.{Call, Event, answer, happen_all}

abbrev a_step : StepResult
a_step = record {
  charged = 100;
  upstream = 20;
  added = 7;
  input_tokens = 1000;
  output_tokens = 50;
  tool_calls = 1;
  unrun = 0;
  cut_off = false;
  on_step = none;
  finished = false;
  crashed = none;
}

abbrev loop_start : Loop
loop_start = record {
  steps = 0;
  cost_usd = 0;
  input_tokens = 0;
  output_tokens = 0;
  spent = 0;
  outside = 0;
  limit_usd = 2000000000;
  finished = false;
  crashed = none;
  step_failure = none;
  silent_turns = 0;
  cut_offs = 0;
  asked = 0;
}

run_agent_loop-LoopEnds_example :
    LoopEnds 3
      (λ n. replied a_step)
      loop_start
      (run_agent_loop 3 (λ n. replied a_step) 4 loop_start)
run_agent_loop-LoopEnds_example =
    run_agent_loop-LoopEnds 3 (λ n. replied a_step) 4 loop_start (omega arith) (omega arith)

abbrev lower : ℕ → ℕ
lower t = t

abbrev goals : List Goal
goals = record { id = 5; persona_id = none } ∷ []

abbrev a_defect : Finding
a_defect = record {
  id = 0;
  kind = FindingKind.defect;
  goal = 5;
  title = 7;
  observed = 8;
  reproduction = 1 ∷ 2 ∷ [];
  severity = 1;
  people = none;
}

-- It looks at the page, reports a defect twice, settles its goal and ends.
abbrev events : List Event
events =
    Event.acted true none
    ∷ Event.called (Call.submits false (some 5) (λ goal. some a_defect) 40)
    ∷ Event.called (Call.submits false (some 5) (λ goal. some a_defect) 41)
    ∷ Event.called (Call.sets_status (some 5) (some true) 9)
    ∷ Event.called (Call.finishes false 0 (some 3))
    ∷ []

abbrev ended : Session
ended = happen_all lower events (fresh_session goals (some 40))

-- The scrubber learns a secret after the second event.
abbrev hides : ℕ → ℕ → ℕ
hides zero text = text
hides (suc zero) text = text
hides n text = if text == 7 then 0 else text

-- The first reply says nothing, the second groups two reports and matches one.
abbrev group_replies : ℕ → trawler.Core.Asks.Reply GroupAnswer
group_replies zero = said none 300
group_replies (suc n) =
    said
      (some
        (record { groups = (1 ∷ 2 ∷ []) ∷ []; not_bugs = some (record { id = 1; item = 2 }) ∷ [] }))
      500

abbrev purse : Purse
purse = record { steps = 0; spent = 0; limit_usd = 1000000 }

ask_model-Outcome_example : Outcome group_replies 2 purse (ask_model 2 group_replies purse)
ask_model-Outcome_example = ask_model-Outcome group_replies 2 purse

abbrev known_matches : List (Option NotABugMatch)
known_matches = some (record { id = 1; item = 2 }) ∷ none ∷ some (record { id = 1; item = 1 }) ∷ []

-- The second item has no reference, so the match with it is passed over.
abbrev known_refs : List (Option ℕ)
known_refs = some 70 ∷ none ∷ []

known_not_bugs-firsts_example :
    (given_for 1 (known_not_bugs (1 ∷ 2 ∷ []) known_refs known_matches)
      ≡ first_for 1 (map (match_of known_refs) known_matches))
    × OneEach (known_not_bugs (1 ∷ 2 ∷ []) known_refs known_matches)
known_not_bugs-firsts_example = known_not_bugs-firsts 1 (1 ∷ 2 ∷ []) known_refs known_matches

-- Two ranges overlap, one touches them, one lies before.
abbrev ranges : List Range
ranges =
    record { start = 10; end = 14 }
    ∷ record { start = 12; end = 20 }
    ∷ record { start = 20; end = 22 }
    ∷ record { start = 2; end = 5 }
    ∷ []

scrub_pieces-shows_example : any (shows 13) (scrub_pieces ranges) ≡ not (any (covers 13) ranges)
scrub_pieces-shows_example =
    scrub_pieces-shows 13 ranges (omega arith, (omega arith, (omega arith, (omega arith, tt))))
