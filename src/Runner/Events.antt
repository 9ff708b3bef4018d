-- ===== src/Runner/Events.antt =====
-- The events of a job, as its runner keeps and sends them (`JobEvents` of worker.ts). Timers only
-- say when a flush begins. An event has the size of its text in bytes, and a flag for the event
-- that tells how the job finished.
pub mod Batches
pub mod Flush
use trawler.Base.{
  ℕ, zero, suc, ◌+◌, Bool, true, false, Option, none, some, List, [], ◌∷◌, ◌++◌, leb, ltb, not,
  ◌&&◌, ◌||◌, if◌then◌else◌, take, drop, length, map,
}
use trawler.Queue.Events.{RunEvent, Payload}

-- `MAX_EVENTS_PER_BATCH`
abbrev pub max_events_per_batch : ℕ
max_events_per_batch = 200

abbrev pub max_batch_bytes : ℕ
max_batch_bytes = 1500000

pub record EventInput : Type 0 where
  pub payload : Payload
  pub bytes : ℕ
  pub finishes : Bool

pub record Queued : Type 0 where
  pub event : RunEvent
  pub bytes : ℕ

-- `failure` and `cancelled`; `finished` is the number of the last event that finishes the job.
pub record JobEvents : Type 0 where
  pub job_id : ℕ
  pub seq : ℕ
  pub queue : List Queued
  pub finished : Option ℕ
  pub cancelled : Bool
  pub failed : Bool

abbrev queued : ℕ → ℕ → EventInput → Queued
queued job_id seq e = record {
  event = record { seq = seq; job_id = job_id; payload = e.payload };
  bytes = e.bytes;
}

unfoldable pub emit : EventInput → JobEvents → JobEvents
emit e s = if s.failed then s else record s {
  seq = suc s.seq;
  queue = s.queue ++ queued s.job_id (suc s.seq) e ∷ [];
  finished = if e.finishes then some (suc s.seq) else s.finished;
}

-- The loop of `#nextBatch`, with the events and the bytes that are counted so far.
unfoldable pub batch_length : ℕ → ℕ → List Queued → ℕ
batch_length n bytes [] = n
batch_length n bytes (q ∷ queue) =
    let bytes' = bytes + q.bytes in
    let more = batch_length (suc n) bytes' queue in
    if leb max_events_per_batch n || (ltb 0 n && ltb max_batch_bytes bytes') then n else more

unfoldable pub next_batch : List Queued → List Queued
unfolding batch_length
next_batch queue = take (batch_length 0 0 queue) queue

abbrev pub event_of : Queued → RunEvent
event_of q = q.event

-- The answer to a batch: its events leave the queue, and the job may be cancelled.
unfoldable pub answered : ℕ → Bool → JobEvents → JobEvents
answered n cancel s = record s { queue = drop n s.queue; cancelled = s.cancelled || cancel }

-- A batch that cannot be sent, or is refused, ends the events of the job.
unfoldable pub failed_to_send : JobEvents → JobEvents
failed_to_send s = record s { failed = true; queue = [] }
