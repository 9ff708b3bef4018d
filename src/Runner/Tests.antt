-- ===== src/Runner/Tests.antt =====
-- Two events of a role session, in a batch whose first answer is lost; a request that is answered
-- at its third attempt, and a channel that is read at its second question; a job that was cancelled,
-- and a loop with claims that fail.
mod Proxies
use trawler.Protocol.Types.{StopReason}
use trawler.Base.{
  Bool, true, zero, suc, arith, ℕ, ◌+◌, ◌*◌, ◌≡◌, ◌≤◌, refl, false, Option, none, some, List, [],
  ◌∷◌, length, min, ◌⊎◌,
}
use trawler.Queue.Rows.{Rows, JobStatus, RunStatus}
use trawler.Queue.Jobs.{ok}
use trawler.Queue.Events.{RunEvent, Payload, ingest_events}
use trawler.Queue.Tests.{start, around, role_job, first_run}
use trawler.Runner.Events.{
  JobEvents, EventInput, Queued, emit, next_batch, answered, max_events_per_batch, max_batch_bytes,
}
use trawler.Runner.Events.Batches.{bytes_of, next_batch_bounds}
use trawler.Runner.Link.{
  Link, stored, new_events, emits, sends, loses_answer, answers, Reach, here, next,
}
use trawler.Runner.Events.Flush.{flush, Flushed, flush-Flushed}
use trawler.Runner.Link.Numbers.{span}
use trawler.Runner.Link.Delivered.{Reach-delivered}
use trawler.Runner.Calls.{Attempt, call, default_attempts, ChannelAnswer, read_channel}
use trawler.Runner.Calls.Ends.{
  CallEnds, IsNoRetry, call-CallEnds, ChannelRead, read_channel-ChannelRead,
}
use trawler.Runner.Work.{ran, JobRun, work_on, RoundEnd, LoopRound, work_loop}
use trawler.Runner.Work.Answers.{
  TellsOf, work_on-TellsOf, calm_rounds, fatal_reports, work_loop_bounds,
}

abbrev an_event : EventInput
an_event = record { payload = Payload.other; bytes = 120; finishes = false }

abbrev big : Queued
big = record { event = record { seq = 1; job_id = 0; payload = Payload.other }; bytes = 1400000 }

next_batch_bounds_example :
    (length (next_batch (big ∷ big ∷ [])) ≤ max_events_per_batch)
    × (min 1 (length (big ∷ big ∷ [])) ≤ length (next_batch (big ∷ big ∷ [])))
    × ((length (next_batch (big ∷ big ∷ [])) ≤ 1)
        ⊎ (bytes_of (next_batch (big ∷ big ∷ [])) ≤ max_batch_bytes))
next_batch_bounds_example = next_batch_bounds (big ∷ big ∷ [])

abbrev key : Option ℕ → ℕ → ℕ
key none f = f
key (some p) f = 100 * p + f

abbrev claimed : Rows
claimed = record start {
  run = record first_run { status = RunStatus.running; started_at = some 1000 };
  jobs =
      record (role_job 0) {
        status = JobStatus.leased;
        token_hash = some 77;
        lease_until = some 9000;
      }
      ∷ role_job 1
      ∷ [];
}

abbrev batch : List RunEvent
batch =
    record { seq = 1; job_id = 0; payload = Payload.other }
    ∷ record { seq = 2; job_id = 0; payload = Payload.other }
    ∷ []

abbrev stored_once : Rows
stored_once = record claimed {
  events = record { job_id = 0; seq = 1 } ∷ record { job_id = 0; seq = 2 } ∷ [];
  jobs =
      record (role_job 0) {
        status = JobStatus.leased;
        token_hash = some 77;
        lease_until = some 605000;
      }
      ∷ role_job 1
      ∷ [];
}

first_answer : ingest_events key (around 5000) 77 batch (some 0) claimed ≡ ok (stored_once, false)
unfolding ingest_events
first_answer = refl

second_answer :
    ingest_events key (around 5000) 77 batch (some 0) stored_once ≡ ok (stored_once, false)
unfolding ingest_events
second_answer = refl

abbrev at_start : Link
at_start = record { sender = new_events 0; in_flight = none; server = claimed }

abbrev queued_event : ℕ → Queued
queued_event n = record {
  event = record { seq = n; job_id = 0; payload = Payload.other };
  bytes = 120;
}

abbrev both_queued : JobEvents
both_queued = record (new_events 0) { seq = 2; queue = queued_event 1 ∷ queued_event 2 ∷ [] }

abbrev at_end : Link
at_end = record {
  sender = record (new_events 0) { seq = 2 };
  in_flight = none;
  server = stored_once;
}

a_run : Reach key 77 at_start at_end
unfolding emit next_batch answered
a_run =
    next
      (next
        (next
          (next (next here (emits at_start an_event))
            (emits (record at_start { sender = emit an_event (new_events 0) }) an_event))
          (sends (record at_start { sender = both_queued }) refl refl))
        (loses_answer (record at_start { sender = both_queued; in_flight = some batch })
          (around 5000) batch stored_once false refl first_answer))
      (answers (record { sender = both_queued; in_flight = some batch; server = stored_once })
        (around 5000) batch stored_once false refl second_answer)

Reach-delivered_example :
    (m : ℕ) × (stored 0 at_end.server.events ≡ span 0 m)
    × (m ≤ at_end.sender.seq)
    × (at_end.sender.seq ≤ m + length at_end.sender.queue)
Reach-delivered_example = Reach-delivered key 77 0 claimed at_end refl a_run refl refl

abbrev pub two_failures : ℕ → Attempt
two_failures zero = Attempt.status 503
two_failures (suc zero) = Attempt.threw
two_failures (suc (suc i)) = Attempt.status 200

call-CallEnds_example :
    CallEnds two_failures 0 default_attempts (call default_attempts two_failures)
    × IsNoRetry (call default_attempts two_failures)
call-CallEnds_example = call-CallEnds default_attempts two_failures

abbrev news_later : ℕ → Option ChannelAnswer
news_later zero = some (record { messages = []; others_working = some true })
news_later (suc zero) = some (record { messages = 7 ∷ []; others_working = some true })
news_later (suc (suc i)) = none

abbrev every_poll : ℕ → ℕ
every_poll i = 3000 * i

read_channel-ChannelRead_example :
    ChannelRead 9000 news_later every_poll 0 3 (read_channel 4 9000 news_later every_poll 0)
read_channel-ChannelRead_example =
    read_channel-ChannelRead 4 9000 news_later every_poll 0 3 (omega arith) (omega arith)
      (omega arith)

abbrev cancelled_job : JobRun
cancelled_job = record {
  stops_before = false;
  cleared = true;
  result = ran (record { stopped_by = StopReason.finish; error = none });
  cancelled = true;
  stops_during = false;
  events_failed = false;
}

work_on-TellsOf_example : TellsOf cancelled_job (work_on cancelled_job)
work_on-TellsOf_example = work_on-TellsOf cancelled_job

abbrev rounds : List LoopRound
rounds =
    record { stopping = false; end = RoundEnd.fails }
    ∷ record { stopping = false; end = RoundEnd.fails }
    ∷ record { stopping = false; end = RoundEnd.done }
    ∷ record { stopping = false; end = RoundEnd.fails }
    ∷ record { stopping = true; end = RoundEnd.idle }
    ∷ []

work_loop_bounds_example :
    (work_loop false rounds).0 ≤ 1 + calm_rounds rounds + fatal_reports (work_loop false rounds).1
work_loop_bounds_example = work_loop_bounds rounds

abbrev lost_second : ℕ → Option Bool
lost_second zero = some true
lost_second (suc i) = none

abbrev big_queue : JobEvents
big_queue = record (new_events 0) { seq = 3; queue = big ∷ big ∷ big ∷ [] }

flush-Flushed_example : Flushed 4 big_queue (flush 5 true lost_second big_queue)
flush-Flushed_example = flush-Flushed 5 true lost_second big_queue refl (omega arith)
