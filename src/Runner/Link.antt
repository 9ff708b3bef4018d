-- ===== src/Runner/Link.antt =====
-- The runner's events and the queue that stores them (`JobEvents.flush` and `call` of worker.ts,
-- `ingestEvents` of queue.ts), as steps that interleave: events are emitted while a batch is on its
-- way; a request is lost, or stored while its answer is lost, and is sent again; and other
-- transactions run on the same rows.
pub mod Stored
pub mod Numbers
pub mod Delivered
use trawler.Base.{
  ℕ, ◌≡◌, Bool, true, false, Option, none, some, List, [], ◌∷◌, ◌==◌, if◌then◌else◌, map, length,
}
use trawler.Queue.Rows.{Rows, EventRow, Around}
use trawler.Queue.Jobs.{Result, ok, refused}
use trawler.Queue.Events.{RunEvent, ingest_events}
use trawler.Runner.Events.{
  JobEvents, EventInput, Queued, emit, next_batch, event_of, answered, failed_to_send,
}

-- The numbers of the events of a job that are stored.
abbrev pub stored : ℕ → List EventRow → List ℕ
stored id [] = []
stored id (row ∷ rows) =
    let rest = stored id rows in if row.job_id == id then row.seq ∷ rest else rest

-- `in_flight` is the batch that is being sent, from its first attempt to its answer.
pub record Link : Type 0 where
  pub sender : JobEvents
  pub in_flight : Option (List RunEvent)
  pub server : Rows

abbrev pub new_events : ℕ → JobEvents
new_events id = record {
  job_id = id;
  seq = 0;
  queue = [];
  finished = none;
  cancelled = false;
  failed = false;
}

module _ (composite_key : Option ℕ → ℕ → ℕ) (hash : ℕ) where
  pub data Step : Link → Link → Type 0 where
    emits : (l : Link) (e : EventInput) → Step l (record l { sender = emit e l.sender })
    -- A flush, by the timer or the heartbeat, takes the next batch of the queue.
    sends :
        (l : Link)
        → l.in_flight ≡ none
        → l.sender.failed ≡ false
        → Step l (record l { in_flight = some (map event_of (next_batch l.sender.queue)) })
    -- An attempt whose answer does not arrive.
    loses_answer :
        (l : Link) (a : Around) (batch : List RunEvent) (s : Rows) (cancel : Bool)
        → l.in_flight ≡ some batch
        → ingest_events composite_key a hash batch (some l.sender.job_id) l.server ≡ ok (s, cancel)
        → Step l (record l { server = s })
    answers :
        (l : Link) (a : Around) (batch : List RunEvent) (s : Rows) (cancel : Bool)
        → l.in_flight ≡ some batch
        → ingest_events composite_key a hash batch (some l.sender.job_id) l.server ≡ ok (s, cancel)
        → Step l (record {
          sender = answered (length batch) cancel l.sender;
          in_flight = none;
          server = s;
        })
    -- The attempts are used up, or the batch is refused.
    fails :
        (l : Link) (batch : List RunEvent)
        → l.in_flight ≡ some batch
        → Step l (record l { sender = failed_to_send l.sender; in_flight = none })
    -- A transaction that leaves the job's events.
    others :
        (l : Link) (s : Rows)
        → stored l.sender.job_id s.events ≡ stored l.sender.job_id l.server.events
        → Step l (record l { server = s })

  pub data Reach (l : Link) : Link → Type 0 where
    here : Reach l l
    next : {m n : Link} → Reach l m → Step m n → Reach l n
