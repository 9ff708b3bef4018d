-- ===== src/Runner/Link/Delivered.antt =====
-- Every event that a runner emits is stored, once and in order.
use mathlib.Core.Path.{subst}
use trawler.Base.{
  ℕ, suc, ◌+◌, ◌≤◌, ◌≡◌, ◌∙◌, ap, sym, refl, arith, Bool, true, false, Option, none, some, List, [],
  ◌∷◌, ◌++◌, ◌⊎◌, inl, inr, ◌||◌, if◌then◌else◌, map, length, length-append, max,
}
use trawler.Queue.Rows.{Rows, Around}
use trawler.Queue.Events.{RunEvent, ingest_events}
use trawler.Queue.Jobs.{ok}
use trawler.Runner.Events.{
  JobEvents, EventInput, Queued, emit, next_batch, batch_length, answered, failed_to_send,
}
use trawler.Runner.Link.{
  Link, stored, new_events, Step, emits, sends, loses_answer, answers, fails, others, Reach, here,
  next,
}
use trawler.Runner.Link.Stored.{Ingested, with_new, seq_of, ingest_events-Ingested}
use trawler.Runner.Link.Numbers.{
  span, with_new-span, Numbered, Numbered-append, Numbered-drop, length-drop, IsFirst, take-IsFirst,
}

-- `n` events are acknowledged, and `m` are stored: as many, or with them the batch in flight.
abbrev InFlight : ℕ → ℕ → List Queued → Option (List RunEvent) → Type 0
InFlight n m queue none = m ≡ n
InFlight n m queue (some batch) = IsFirst n queue batch × (n ≤ m) × (m ≤ n + length batch)

record IsLinked (id : ℕ) (l : Link) (n m : ℕ) : Type 0 where
  owner : l.sender.job_id ≡ id
  count : n + length l.sender.queue ≡ l.sender.seq
  numbered : Numbered n l.sender.queue
  server : stored id l.server.events ≡ span 0 m
  flight : InFlight n m l.sender.queue l.in_flight

-- While nothing failed and the job is not cancelled.
abbrev Linked : ℕ → Link → Type 0
Linked id l =
    l.sender.failed ≡ false → l.sender.cancelled ≡ false → (n : ℕ) × (m : ℕ) × IsLinked id l n m

InFlight-append :
    (n m : ℕ) (queue : List Queued) (q : Queued) (batch : Option (List RunEvent))
    → InFlight n m queue batch
    → InFlight n m (queue ++ q ∷ []) batch
InFlight-append n m queue q none h = h
InFlight-append n m queue q (some batch) ((seqs, le), low, high) =
    ((seqs, omega (arith, length-append queue (q ∷ []))), low, high)

emits_if :
    (b : Bool) (id : ℕ) (l : Link) (s : JobEvents)
    → l.sender.failed ≡ b
    → Linked id l
    → (b ≡ false → Linked id (record l { sender = s }))
    → Linked id (record l { sender = if b then l.sender else s })
emits_if true id l s e h k = λ fine. cc
emits_if false id l s e h k = k refl

Linked-emit :
    (id : ℕ) (l : Link) (e : EventInput)
    → Linked id l
    → Linked id (record l { sender = emit e l.sender })
unfolding emit
Linked-emit id l e h =
    emits_if l.sender.failed id l
      (record l.sender {
        seq = suc l.sender.seq;
        queue =
            l.sender.queue
            ++ record {
              event = record {
                seq = suc l.sender.seq;
                job_id = l.sender.job_id;
                payload = e.payload;
              };
              bytes = e.bytes;
            }
              ∷ [];
        finished = if e.finishes then some (suc l.sender.seq) else l.sender.finished;
      })
      refl h
      (λ going fine calm.
        let (n, m, i) = h fine calm in
        (
          n,
          m,
          record {
            owner = i.owner;
            count = omega (
              arith,
              i.count,
              length-append l.sender.queue (
                  record {
                    event = record {
                      seq = suc l.sender.seq;
                      job_id = l.sender.job_id;
                      payload = e.payload;
                    };
                    bytes = e.bytes;
                  }
                  ∷ []),
            );
            numbered =
                Numbered-append n l.sender.queue
                  (record {
                    event = record {
                      seq = suc l.sender.seq;
                      job_id = l.sender.job_id;
                      payload = e.payload;
                    };
                    bytes = e.bytes;
                  })
                  i.numbered (omega (arith, i.count));
            server = i.server;
            flight =
                InFlight-append n m l.sender.queue
                  (record {
                    event = record {
                      seq = suc l.sender.seq;
                      job_id = l.sender.job_id;
                      payload = e.payload;
                    };
                    bytes = e.bytes;
                  })
                  l.in_flight i.flight;
          },
        ))

flight_of :
    (n m : ℕ) (queue : List Queued) (o : Option (List RunEvent)) (batch : List RunEvent)
    → o ≡ some batch
    → InFlight n m queue o
    → InFlight n m queue (some batch)
flight_of n m queue o batch e h = subst (λ x. InFlight n m queue x) e h

flight_none :
    (n m : ℕ) (queue : List Queued) (o : Option (List RunEvent))
    → o ≡ none
    → InFlight n m queue o
    → m ≡ n
flight_none n m queue o e h = subst (λ x. InFlight n m queue x) e h

-- All of the batch is stored.
stored_batch :
    (n m : ℕ) (queue : List Queued) (batch : List RunEvent) {seqs : List ℕ}
    → seqs ≡ span 0 m
    → InFlight n m queue (some batch)
    → with_new seqs (map seq_of batch) ≡ span 0 (n + length batch)
stored_batch n m queue batch e ((nums, le), low, high) =
    ap (λ l. with_new l (map seq_of batch)) e
    ∙ ap (λ l. with_new (span 0 m) l) nums
    ∙ with_new-span n m (length batch) low
    ∙ ap (span 0) {x = max m (n + length batch)} (omega arith)

not_before : (b c : Bool) → (b || c) ≡ false → b ≡ false
not_before b c h = ground arith

not_stopped : (b c : Bool) {k m : ℕ} → (b || c) ≡ false → (c ≡ true) ⊎ (k ≡ m) → k ≡ m
not_stopped b c h (inl stop) = ground arith
not_stopped b c h (inr all) = all

flight_bounds :
    (n m : ℕ) (queue : List Queued) (o : Option (List RunEvent))
    → InFlight n m queue o
    → (n ≤ m) × (m ≤ n + length queue)
flight_bounds n m queue none h = (omega arith, omega arith)
flight_bounds n m queue (some batch) ((seqs, le), low, high) = (low, omega arith)

module _ (composite_key : Option ℕ → ℕ → ℕ) (hash id : ℕ) where
  loses_lem :
      (l : Link) (a : Around) (batch : List RunEvent) (s : Rows) (cancel : Bool) (n m : ℕ)
      → l.in_flight ≡ some batch
      → IsLinked id l n m
      → Ingested composite_key id batch l.server (s, cancel)
      → (k : ℕ) × (stored id s.events ≡ span 0 k)
        × (n ≤ k)
        × (k ≤ n + length batch)
        × ((cancel ≡ true) ⊎ (k ≡ n + length batch))
  loses_lem l a batch s cancel n m e i (inl all) =
      let f = flight_of n m l.sender.queue l.in_flight batch e i.flight in
      (
        n + length batch,
        all ∙ stored_batch n m l.sender.queue batch i.server f,
        omega arith,
        omega arith,
        inr refl,
      )
  loses_lem l a batch s cancel n m e i (inr (stop, same)) =
      let f = flight_of n m l.sender.queue l.in_flight batch e i.flight in
      (m, same ∙ i.server, f.1, f.2, inl stop)

  owned :
      (l : Link) (a : Around) (batch : List RunEvent) (s : Rows) (cancel : Bool)
      → l.sender.job_id ≡ id
      → ingest_events composite_key a hash batch (some l.sender.job_id) l.server ≡ ok (s, cancel)
      → Ingested composite_key id batch l.server (s, cancel)
  owned l a batch s cancel e accepted =
      subst (λ i. Ingested composite_key i batch l.server (s, cancel)) e
        (ingest_events-Ingested composite_key a hash l.sender.job_id batch l.server accepted)

  Linked-Step : {l l' : Link} → Step composite_key hash l l' → Linked id l → Linked id l'
  unfolding next_batch answered failed_to_send
  Linked-Step (emits l e) h = Linked-emit id l e h
  Linked-Step (sends l idle going) h = λ fine calm.
      let (n, m, i) = h fine calm in
      let same : m ≡ n = flight_none n m l.sender.queue l.in_flight idle i.flight in
      (
        n,
        m,
        record {
          owner = i.owner;
          count = i.count;
          numbered = i.numbered;
          server = i.server;
          flight = (
            take-IsFirst n (batch_length 0 0 l.sender.queue) l.sender.queue i.numbered,
            omega (arith, same),
            omega (arith, same),
          );
        },
      )
  Linked-Step (loses_answer l a batch s cancel e accepted) h = λ fine calm.
      let (n, m, i) = h fine calm in
      let f = flight_of n m l.sender.queue l.in_flight batch e i.flight in
      let (k, server, low, high, stop) =
        loses_lem l a batch s cancel n m e i (owned l a batch s cancel i.owner accepted) in
      (
        n,
        k,
        record {
          owner = i.owner;
          count = i.count;
          numbered = i.numbered;
          server = server;
          flight = subst (λ x. InFlight n k l.sender.queue x) (sym e) (f.0, low, high);
        },
      )
  Linked-Step (answers l a batch s cancel e accepted) h = λ fine calm.
      let (n, m, i) = h fine (not_before l.sender.cancelled cancel calm) in
      let f = flight_of n m l.sender.queue l.in_flight batch e i.flight in
      let (k, server, low, high, stop) =
        loses_lem l a batch s cancel n m e i (owned l a batch s cancel i.owner accepted) in
      let all : k ≡ n + length batch = not_stopped l.sender.cancelled cancel calm stop in
      let len = length-drop (length batch) l.sender.queue in
      (
        n + length batch,
        k,
        record {
          owner = i.owner;
          count = omega (arith, i.count, len, f.0);
          numbered = Numbered-drop n (length batch) l.sender.queue f.0.1 i.numbered;
          server = server;
          flight = all;
        },
      )
  Linked-Step (fails l batch e) h = λ fine calm. cc
  Linked-Step (others l s same) h = λ fine calm.
      let (n, m, i) = h fine calm in
      (
        n,
        m,
        record {
          owner = i.owner;
          count = i.count;
          numbered = i.numbered;
          server =
              subst (λ j. stored j s.events ≡ stored j l.server.events) i.owner same ∙ i.server;
          flight = i.flight;
        },
      )

  Linked-Reach : {l l' : Link} → Linked id l → Reach composite_key hash l l' → Linked id l'
  Linked-Reach h here = h
  Linked-Reach h (next r st) = Linked-Step st (Linked-Reach h r)

  -- Let a job start with no events stored. Whatever is emitted, whichever requests or answers are
  -- lost and sent again, and whatever else is done meanwhile that leaves the job's events: while
  -- no batch has failed and the job is not cancelled, the events that are stored are the first of
  -- those that were emitted, each once and in order, and all of them but those in the queue.
  pub Reach-delivered :
      (server : Rows) (l : Link)
      → stored id server.events ≡ []
      → Reach composite_key hash
          (record { sender = new_events id; in_flight = none; server = server })
          l
      → l.sender.failed ≡ false
      → l.sender.cancelled ≡ false
      → (m : ℕ) × (stored id l.server.events ≡ span 0 m)
        × (m ≤ l.sender.seq)
        × (l.sender.seq ≤ m + length l.sender.queue)
  Reach-delivered server l none_yet r fine calm =
      let (n, m, i) =
        Linked-Reach
          (λ f c. (
            0,
            0,
            record {
              owner = refl;
              count = omega arith;
              numbered = tt;
              server = none_yet;
              flight = refl;
            },
          ))
          r fine calm in
      let (low, high) = flight_bounds n m l.sender.queue l.in_flight i.flight in
      (m, i.server, omega (arith, i.count, high), omega (arith, i.count, low))
