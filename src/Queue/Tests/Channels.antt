-- ===== src/Queue/Tests/Channels.antt =====
-- The run of Queue/Tests.antt while its first job is held, and the second person has spoken.
use trawler.Base.{suc, length, ◌≡◌, refl, map, filter, arith, some, List, [], ◌∷◌, find?}
use trawler.Queue.Channel.Pages.{pages, pages_all}
use trawler.Queue.Rows.{Rows, Job, JobStatus}
use trawler.Queue.Channel.{MessageRow, channel_for, holds_lease, message_of, is_heard}
use trawler.Queue.Channel.Heard.{Hears, channel_for-Hears}
use trawler.Queue.Tests.{start, around, role_job}

abbrev held_rows : Rows
held_rows = record start {
  jobs =
      record (role_job 0) {
        status = JobStatus.leased;
        token_hash = some 77;
        lease_until = some 9000;
      }
      ∷ role_job 1
      ∷ [];
}

abbrev messages : List MessageRow
messages =
    record { id = 1; job_id = 0; text = 31; at = 2000 }
    ∷ record { id = 2; job_id = 1; text = 32; at = 2100 }
    ∷ record { id = 3; job_id = 1; text = 33; at = 2200 }
    ∷ []

channel_for-Hears_example :
    Hears 2
      (find? (holds_lease (around 5000) 77 0) held_rows.jobs)
      (channel_for (around 5000) 77 0 2 messages held_rows)
channel_for-Hears_example = channel_for-Hears (around 5000) 77 0 2 messages held_rows

abbrev the_holder : Job
the_holder = record (role_job 0) {
  status = JobStatus.leased;
  token_hash = some 77;
  lease_until = some 9000;
}

pages_all_example :
    pages (suc (length messages)) (around 5000) 77 0 1 messages held_rows
    ≡ map (message_of held_rows) (filter (is_heard held_rows the_holder 1) messages)
pages_all_example =
    pages_all (around 5000) 77 0 1 messages held_rows the_holder refl
      ((omega arith, (omega arith, tt)), ((omega arith, tt), (tt, tt)))
