-- ===== src/Core/Session.antt =====
-- The tools of a session (packages/core/src/session-tools.ts: `sessionTools`, `teamTools`,
-- `noteBotProtection`), what a step does to a standby and what a session remembers of an account
-- (`onStep`, `rememberAccount` of role-session.ts). A text that is blank once trimmed is none, and
-- texts are numbers.
pub mod Calls
pub mod Kept
pub mod Told
pub mod Runs
use trawler.Base.{
  ℕ, suc, ◌+◌, ◌-◌, ◌/◌, min, max, Bool, true, false, Option, none, some, List, [], ◌∷◌, ◌++◌, map,
  not, ◌&&◌, ◌||◌, leb, ltb, ◌==◌, if◌then◌else◌, is_some, any, filter, length,
}
use trawler.Base.Rows.{update}
use trawler.Protocol.Types.{GoalOutcome, GoalStatus, Finding, FindingKind, is_defect}
use trawler.Protocol.Turns.{Goal}

pub data Page : Type 0 where
  unseen seen stale : Page

pub record Standby : Type 0 where
  pub since : ℕ
  pub summary : ℕ
  pub empty_waits : ℕ

pub record SessionState : Type 0 where
  pub notes : List ℕ
  pub findings : List Finding
  pub goals : List GoalOutcome
  pub finished : Option ℕ
  pub standby : Option Standby
  pub page : Page
  pub bot_protection : Option ℕ

-- What is given to a session's `emit`; an account's note is a note that the model did not write.
pub data Emitted : Type 0 where
  note_event : ℕ → Emitted
  finding_event : Finding → Emitted
  goal_event : GoalOutcome → Emitted
  standby_event : Emitted
  message_event : ℕ → Emitted
  bot_protection_event : ℕ → Emitted
  account_event : ℕ → Emitted

-- What a tool answers.
pub data Reply : Type 0 where
  closed noted empty_note bot_protected not_looked unknown_goal unparsed use_reached_or_failed :
      Reply
  duplicate_of : ℕ → Reply
  recorded : ℕ → Reply
  recorded_status write_a_summary standby_started finished_now : Reply
  goals_open : List ℕ → Reply
  empty_message sent standby_over unreadable_channel no_messages : Reply
  messages : List ℕ → Reply

abbrev not_attempted : Goal → GoalOutcome
not_attempted g = record { goal = g.id; status = GoalStatus.not_attempted; note = 0 }

unfoldable pub new_session_state : List Goal → SessionState
new_session_state goals = record {
  notes = [];
  findings = [];
  goals = map not_attempted goals;
  finished = none;
  standby = none;
  page = Page.unseen;
  bot_protection = none;
}

-- A session: its state, the last message of the channel that it has read, the last note of an
-- account, and what was given to `emit`, before it is scrubbed.
pub record Session : Type 0 where
  pub state : SessionState
  pub last_seen : ℕ
  pub last_account_note : Option ℕ
  pub emitted : List Emitted

abbrev pub emit : Emitted → Session → Session
emit e s = record s { emitted = s.emitted ++ e ∷ [] }

abbrev pub is_open_goal : GoalOutcome → Bool
is_open_goal o = elim o.status [ GoalStatus.not_attempted ↦ true | _ ↦ false ]

abbrev pub has_goal : ℕ → SessionState → Bool
has_goal goal st = any (λ (o : GoalOutcome). o.goal == goal) st.goals

unfoldable pub note : Option ℕ → Session → Session × Reply
note text s = if is_some s.state.finished then (s, closed) else (elim text [
  | none ↦ (s, empty_note)
  | some kept ↦ (
    emit (note_event kept)
        (record s { state = record s.state { notes = s.state.notes ++ kept ∷ [] } }),
    noted,
  )
])

abbrev same_kind : FindingKind → FindingKind → Bool
same_kind a b = if is_defect a then is_defect b else not (is_defect b)

-- `lower` is `toLowerCase` on titles.
module _ (lower : ℕ → ℕ) where
  abbrev pub same_finding : Finding → Finding → Bool
  same_finding f g = f.goal == g.goal && same_kind f.kind g.kind && lower f.title == lower g.title

  abbrev pub first_same : Finding → List Finding → Option Finding
  first_same f [] = none
  first_same f (g ∷ findings) =
      let rest = first_same f findings in if same_finding g f then some g else rest

  abbrev pub record_finding : Finding → ℕ → Session → Session
  record_finding f id s =
      let finding : Finding = record f { id = id } in
      emit (finding_event finding)
        (record s { state = record s.state { findings = s.state.findings ++ finding ∷ [] } })

  abbrev pub is_seen : Page → Bool
  is_seen Page.seen = true
  is_seen _ = false

  abbrev pub unless_same : Finding → ℕ → Session → Option Finding → Session × Reply
  unless_same f id s (some g) = (s, duplicate_of g.id)
  unless_same f id s none = (record_finding f id s, recorded id)

  -- The candidate has the goal that was given.
  abbrev pub submit_parsed : ℕ → ℕ → Session → Option Finding → Session × Reply
  submit_parsed id goal s none = (s, unparsed)
  submit_parsed id goal s (some f) =
      let candidate : Finding = record f { goal = goal } in
      unless_same candidate id s (first_same candidate s.state.findings)

  -- `goal` is the goal that was given, in lower case; `parsed` is what the schema makes of the rest
  -- for that goal, none where it refuses; `blocked` says whether a check against robots is shown.
  unfoldable pub submit_finding :
      Bool → Option ℕ → (ℕ → Option Finding) → ℕ → Session → Session × Reply
  submit_finding blocked goal parsed id s =
      if is_some s.state.finished
      then (s, closed)
      else if blocked
      then (s, bot_protected)
      else if not (is_seen s.state.page)
      then (s, not_looked)
      else (elim goal [
        | none ↦ (s, unknown_goal)
        | some g ↦ if has_goal g s.state then submit_parsed id g s (parsed g) else (s, unknown_goal)
      ])

abbrev pub set_goal : GoalOutcome → SessionState → SessionState
set_goal o st = record st {
  goals = update (λ (p : GoalOutcome). p.goal == o.goal) (λ _. o) st.goals;
}

-- `reached`, `failed`, or none for another word.
abbrev pub given_status : Option Bool → Option GoalStatus
given_status none = none
given_status (some true) = some GoalStatus.reached
given_status (some false) = some GoalStatus.failed

abbrev pub record_status : ℕ → ℕ → Session → Option GoalStatus → Session × Reply
record_status goal text s none = (s, use_reached_or_failed)
record_status goal text s (some status) =
    let o : GoalOutcome = record { goal = goal; status = status; note = text } in
    (emit (goal_event o) (record s { state = set_goal o s.state }), recorded_status)

unfoldable pub goal_status : Option ℕ → Option Bool → ℕ → Session → Session × Reply
unfolding update
goal_status goal reached text s = if is_some s.state.finished then (s, closed) else (elim goal [
  | none ↦ (s, unknown_goal)
  | some g ↦
      if has_goal g s.state
      then record_status g text s (given_status reached)
      else (s, unknown_goal)
])

abbrev goal_key : GoalOutcome → ℕ
goal_key o = o.goal

abbrev pub open_goals : SessionState → List ℕ
open_goals st = map goal_key (filter is_open_goal st.goals)

abbrev pub given_summary : Option ℕ → Option Standby → Option ℕ
given_summary (some text) standing = some text
given_summary none none = none
given_summary none (some standing) = some standing.summary

abbrev pub end_session : ℕ → Session → Session
end_session summary s = record s { state = record s.state { finished = some summary } }

abbrev pub stand_by : ℕ → ℕ → Session → Session
stand_by now summary s = emit standby_event (record s {
  state = record s.state {
    standby = some (record { since = now; summary = summary; empty_waits = 0 });
  };
})

abbrev pub finish_with : Bool → ℕ → Session → Option ℕ → Session × Reply
finish_with others_working now s none = (s, write_a_summary)
finish_with others_working now s (some kept) =
    if any is_open_goal s.state.goals
    then (s, goals_open (open_goals s.state))
    else if not (is_some s.state.standby) && others_working
    then (stand_by now kept s, standby_started)
    else (end_session kept s, finished_now)

unfoldable pub finish : Bool → ℕ → Option ℕ → Session → Session × Reply
finish others_working now summary s =
    if is_some s.state.finished
    then (s, closed)
    else finish_with others_working now s (given_summary summary s.state.standby)

unfoldable pub say_to_team : Option ℕ → Session → Session × Reply
say_to_team text s =
    if is_some s.state.finished
    then (s, closed)
    else (elim text [ none ↦ (s, empty_message) | some kept ↦ (emit (message_event kept) s, sent) ])

-- `STANDBY.maxEmptyWaits`
abbrev pub max_empty_waits : ℕ
max_empty_waits = 4

pub record ChannelMessage : Type 0 where
  pub id : ℕ
  pub text : ℕ

abbrev pub message_id : ChannelMessage → ℕ
message_id m = m.id

abbrev pub fresh_of : ℕ → List ChannelMessage → List ChannelMessage
fresh_of last_seen = filter (λ (m : ChannelMessage). ltb last_seen m.id)

abbrev pub newest : ℕ → List ChannelMessage → ℕ
newest n [] = n
newest n (m ∷ ms) = newest (max n m.id) ms

-- The end of the tool, after the standby: `read` is none where the channel could not be read.
abbrev pub tell_messages : Bool → List ChannelMessage → Session → Session × Reply
tell_messages unreadable fresh s = if unreadable then (s, unreadable_channel) else (elim fresh [
  | [] ↦ (s, no_messages)
  | m ∷ ms ↦ (record s { last_seen = newest 0 (m ∷ ms) }, messages (map message_id (m ∷ ms)))
])

abbrev pub wait_count : Standby → List ChannelMessage → ℕ
wait_count standing [] = suc standing.empty_waits
wait_count standing (m ∷ ms) = 0

abbrev pub counted : Session → Standby → ℕ → Session
counted s standing waits = record s {
  state = record s.state { standby = some (record standing { empty_waits = waits }) };
}

abbrev pub waited : Bool → Bool → List ChannelMessage → Session → Option Standby → Session × Reply
waited unreadable alone fresh s none = tell_messages unreadable fresh s
waited unreadable alone fresh s (some standing) =
    let waits = wait_count standing fresh in
    if alone || leb max_empty_waits waits
    then (end_session standing.summary (counted s standing waits), standby_over)
    else tell_messages unreadable fresh (counted s standing waits)

-- `alone`: `othersWorking` answers false.
unfoldable pub read_team_channel : Bool → Option (List ChannelMessage) → Session → Session × Reply
read_team_channel alone read s = if is_some s.state.finished then (s, closed) else (elim read [
  | none ↦ waited true alone [] s s.state.standby
  | some ms ↦ waited false alone (fresh_of s.last_seen ms) s s.state.standby
])

-- After an action in the browser: what page the person looks at, and a check that was met.
unfoldable pub note_bot_protection : Option ℕ → Session → Session
note_bot_protection none s = s
note_bot_protection (some met) s =
    if is_some s.state.bot_protection
    then s
    else emit (bot_protection_event met)
        (record s { state = record s.state { bot_protection = some met } })

unfoldable pub browser_acted : Bool → Option ℕ → Session → Session
unfolding note_bot_protection
browser_acted ok met s =
    let t : Session = record s {
      state = record s.state { page = if ok then Page.seen else Page.stale };
    } in
    if ok then note_bot_protection met t else t

-- `onStep`: a standby that is over ends the session.
unfoldable pub end_standby : Bool → Session → Session
end_standby over s = elim s.state.standby [
  | none ↦ s
  | some standing ↦ if over then end_session standing.summary s else s
]

abbrev pub same_note : ℕ → Option ℕ → Bool
same_note text none = false
same_note text (some last) = text == last

-- `rememberAccount`: a note of the account that was made, unless it was the last one.
unfoldable pub remember_account : ℕ → Session → Session
remember_account text s =
    if same_note text s.last_account_note
    then s
    else emit (account_event text) (record s { last_account_note = some text })

-- A session that begins, with the account that the person made on an earlier turn.
abbrev account_events : Option ℕ → List Emitted
account_events none = []
account_events (some text) = account_event text ∷ []

unfoldable pub fresh_session : List Goal → Option ℕ → Session
unfolding new_session_state
fresh_session goals earlier = record {
  state = new_session_state goals;
  last_seen = 0;
  last_account_note = earlier;
  emitted = account_events earlier;
}
