-- ===== src/Queue/Channel.antt =====
-- What the people of a run hear of each other: the team's channel (`channelFor` of queue.ts) and
-- who else takes part (`peersOf`). The messages among `run_events` stand in a list of their own;
-- names are looked up in the snapshot.
pub mod Heard
pub mod Pages
use trawler.Base.{
  ℕ, Bool, true, false, Option, none, some, List, [], ◌∷◌, not, ◌&&◌, leb, ltb, ◌==◌, if◌then◌else◌,
  is_at, is_some, any, filter, find?, map, take,
}
use trawler.Protocol.Types.{is_role_session}
use trawler.Protocol.Turns.{Persona, Turn, turns_of}
use trawler.Queue.Rows.{Rows, Job, Snapshot, Around, is_leased, is_open}
use trawler.Queue.Jobs.{Result, ok, refused, invalid_job_token}

-- `MAX_CHANNEL_MESSAGES`
abbrev pub max_channel_messages : ℕ
max_channel_messages = 200

-- An event of the type "message", with the persona of the job that sent it.
pub record MessageRow : Type 0 where
  pub id : ℕ
  pub job_id : ℕ
  pub text : ℕ
  pub at : ℕ

pub record ChannelMessage : Type 0 where
  pub id : ℕ
  pub persona_id : Option ℕ
  pub name : Option ℕ
  pub text : ℕ
  pub at : ℕ

pub record Channel : Type 0 where
  pub messages : List ChannelMessage
  pub others_working : Bool

-- `is distinct from`
abbrev pub is_distinct : Option ℕ → Option ℕ → Bool
is_distinct none none = false
is_distinct none (some y) = true
is_distinct (some x) none = true
is_distinct (some x) (some y) = not (x == y)

abbrev pub holds_lease : Around → ℕ → ℕ → Job → Bool
holds_lease a hash id j =
    j.id == id
    && is_at j.token_hash hash
    && is_leased j.status
    && (elim j.lease_until [ none ↦ false | some t ↦ leb a.now t ])

-- The author is a role session of another person than the job's.
abbrev pub is_by_other : Job → Job → Bool
is_by_other job author =
    is_role_session author.kind && is_distinct author.persona_key job.persona_key

abbrev pub author_of : Rows → MessageRow → Option Job
author_of s m = find? (λ (j : Job). j.id == m.job_id) s.jobs

abbrev pub is_heard : Rows → Job → ℕ → MessageRow → Bool
is_heard s job after m =
    ltb after m.id && (elim (author_of s m) [ none ↦ false | some j ↦ is_by_other job j ])

-- A person without a name in the snapshot is called by the id, and no id is the empty text.
abbrev name_of : Snapshot → Option ℕ → Option ℕ
name_of snapshot none = none
name_of snapshot (some id) = elim (find? (λ (p : Persona). p.id == id) snapshot.personas) [
  | none ↦ some id
  | some p ↦ some p.name
]

abbrev pub persona_of : Rows → MessageRow → Option ℕ
persona_of s m = elim (author_of s m) [ none ↦ none | some j ↦ j.persona_key ]

abbrev pub message_of : Rows → MessageRow → ChannelMessage
message_of s m = record {
  id = m.id;
  persona_id = persona_of s m;
  name = name_of s.run.config_snapshot (persona_of s m);
  text = m.text;
  at = m.at;
}

abbrev pub heard : Rows → Job → ℕ → List MessageRow → List MessageRow
heard s job after messages = take max_channel_messages (filter (is_heard s job after) messages)

abbrev pub is_working_besides : Job → Job → Bool
is_working_besides job j = is_by_other job j && is_open j.status

abbrev pub channel_found : Rows → ℕ → List MessageRow → Option Job → Result Channel
channel_found s after messages none = refused invalid_job_token
channel_found s after messages (some job) = ok record {
  messages = map (message_of s) (heard s job after messages);
  others_working = any (is_working_besides job) s.jobs;
}

-- The messages are the run's, in the order of their ids.
unfoldable pub channel_for : Around → ℕ → ℕ → ℕ → List MessageRow → Rows → Result Channel
channel_for a hash id after messages s =
    channel_found s after messages (find? (holds_lease a hash id) s.jobs)

-- `peersOf`: the others of the snapshot who have a turn.
unfoldable pub peers_of : Snapshot → Option ℕ → List Persona
peers_of snapshot key =
    filter
      (λ (p : Persona).
        not (is_at key p.id)
        && any (λ (t : Turn). t.persona_id == p.id) (turns_of snapshot.personas snapshot.goals))
      snapshot.personas
