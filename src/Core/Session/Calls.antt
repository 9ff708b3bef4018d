-- ===== src/Core/Session/Calls.antt =====
-- The calls of a session's tools, one after another.
use trawler.Base.{ℕ, Bool, Option, List, [], ◌∷◌}
use trawler.Protocol.Types.{Finding}
use trawler.Core.Session.{
  Session, Reply, ChannelMessage, note, submit_finding, goal_status, finish, say_to_team,
  read_team_channel, browser_acted, end_standby, remember_account,
}

-- A call of a tool by the model.
pub data Call : Type 0 where
  notes : Option ℕ → Call
  submits : Bool → Option ℕ → (ℕ → Option Finding) → ℕ → Call
  sets_status : Option ℕ → Option Bool → ℕ → Call
  finishes : Bool → ℕ → Option ℕ → Call
  says : Option ℕ → Call
  reads : Bool → Option (List ChannelMessage) → Call

-- A call, an action in the browser, an account that was made, or the end of a step.
pub data Event : Type 0 where
  called : Call → Event
  acted : Bool → Option ℕ → Event
  remembers : ℕ → Event
  stepped : Bool → Event

module _ (lower : ℕ → ℕ) where
  abbrev pub answer : Call → Session → Session × Reply
  answer (Call.notes text) s = note text s
  answer (Call.submits blocked goal parsed id) s = submit_finding lower blocked goal parsed id s
  answer (Call.sets_status goal reached text) s = goal_status goal reached text s
  answer (Call.finishes others_working now summary) s = finish others_working now summary s
  answer (Call.says text) s = say_to_team text s
  answer (Call.reads alone read) s = read_team_channel alone read s

  abbrev pub happen : Event → Session → Session
  happen (Event.called call) s = (answer call s).0
  happen (Event.acted ok met) s = browser_acted ok met s
  happen (Event.remembers text) s = remember_account text s
  happen (Event.stepped over) s = end_standby over s

  abbrev pub happen_all : List Event → Session → Session
  happen_all [] s = s
  happen_all (e ∷ events) s = happen_all events (happen e s)
