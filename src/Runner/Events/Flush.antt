-- ===== src/Runner/Events/Flush.antt =====
-- A flush of the events of a job (`flush` of worker.ts), while none is emitted: it sends batches
-- until the queue is empty, and a heartbeat sends an empty one if there is nothing to send. Each
-- request is answered, with whether the job is cancelled, or it fails.
use mathlib.Core.Path.{subst}
use trawler.Base.{
  ℕ, zero, suc, ◌+◌, ◌≤◌, ◌<◌, ◌≡◌, ◌∙◌, refl, sym, ap, arith, Bool, true, false, Option, none,
  some, List, [], ◌∷◌, ◌++◌, ltb, ◌==◌, ◌&&◌, ◌||◌, length, take, drop, map, flatten, append_assoc,
  append_nil, min,
}
use trawler.Queue.Events.{RunEvent}
use trawler.Runner.Events.{
  JobEvents, Queued, batch_length, next_batch, event_of, answered, failed_to_send,
}
use trawler.Runner.Events.Batches.{next_batch_bounds}

abbrev Flush : Type 0
Flush = List (List RunEvent) × JobEvents

abbrev after_batch : List RunEvent → Option Flush → Option Flush
after_batch batch none = none
after_batch batch (some (batches, s)) = some (batch ∷ batches, s)

-- The batches that are sent, and the state after them; `none` is that the fuel ran out.
unfoldable pub flush_from :
    ℕ → Bool → (ℕ → Option Bool) → ℕ → JobEvents → Option (List (List RunEvent) × JobEvents)
flush_from zero send_empty answers i s = none
flush_from (suc fuel) send_empty answers i s = elim (ltb 0 (length s.queue) || send_empty) [
  | false ↦ some ([], s)
  | true ↦
      let batch = next_batch s.queue in
      elim (answers i) [
        | none ↦ some (map event_of batch ∷ [], failed_to_send s)
        | some cancel ↦
            after_batch (map event_of batch)
              (flush_from fuel false answers (suc i) (answered (length batch) cancel s))
      ]
]

unfoldable pub flush :
    ℕ → Bool → (ℕ → Option Bool) → JobEvents → Option (List (List RunEvent) × JobEvents)
unfolding flush_from
flush fuel beat answers s = elim s.failed [
  | true ↦ some ([], s)
  | false ↦ flush_from fuel (beat && length s.queue == 0) answers 0 s
]

-- What a flush does: the events that it did not come to are left only if it failed.
pub record Flushed (most : ℕ) (s : JobEvents) (r : Option (List (List RunEvent) × JobEvents))
    : Type 0 where
  pub batches : List (List RunEvent)
  pub after : JobEvents
  pub unsent : List RunEvent
  pub returned : r ≡ some (batches, after)
  pub emptied : after.queue ≡ []
  pub in_order : flatten batches ++ unsent ≡ map event_of s.queue
  pub none_left : after.failed ≡ false → unsent ≡ []
  pub few : length batches ≤ most

take-drop :
    (n : ℕ) (queue : List Queued)
    → map event_of (take n queue) ++ map event_of (drop (length (take n queue)) queue)
      ≡ map event_of queue
take-drop zero queue = refl
take-drop (suc n) [] = refl
take-drop (suc n) (q ∷ queue) = ap (λ l. event_of q ∷ l) (take-drop n queue)

next_batch-drop :
    (queue : List Queued)
    → map event_of (next_batch queue) ++ map event_of (drop (length (next_batch queue)) queue)
      ≡ map event_of queue
unfolding next_batch
next_batch-drop queue = take-drop (batch_length 0 0 queue) queue

drop_le : (n : ℕ) (queue : List Queued) → length (drop n queue) ≤ length queue
drop_le zero queue = omega arith
drop_le (suc n) [] = omega arith
drop_le (suc n) (q ∷ queue) = omega (arith, drop_le n queue)

drop_lt :
    (n : ℕ) (queue : List Queued)
    → min 1 (length queue) ≤ n
    → 1 ≤ length queue
    → length (drop n queue) < length queue
drop_lt n [] h pos = absurd (omega arith)
drop_lt zero (q ∷ queue) h pos = absurd (omega arith)
drop_lt (suc n) (q ∷ queue) h pos = omega (arith, drop_le n queue)

abbrev one_if : Bool → ℕ
one_if true = 1
one_if false = 0

empty_queue : (queue : List Queued) → (ltb 0 (length queue) || false) ≡ false → queue ≡ []
empty_queue [] h = refl
empty_queue (q ∷ queue) h = absurd (ground arith)

abbrev rest_of : JobEvents → List Queued
rest_of s = drop (length (next_batch s.queue)) s.queue

rest_lt :
    (send_empty : Bool) (s : JobEvents)
    → (ltb 0 (length s.queue) || send_empty) ≡ true
    → length (rest_of s) < one_if send_empty + length s.queue
rest_lt true s h = omega (arith, drop_le (length (next_batch s.queue)) s.queue)
rest_lt false s h =
    let bounds = next_batch_bounds s.queue in
    omega (arith, drop_lt (length (next_batch s.queue)) s.queue bounds.1 (ground arith))

flush_round :
    (most : ℕ) (b send_empty : Bool) (answer : Option Bool) (s : JobEvents)
    (later : Bool → Option Flush)
    → most ≡ one_if send_empty + length s.queue
    → (ltb 0 (length s.queue) || send_empty) ≡ b
    → s.failed ≡ false
    → (b ≡ true
        → (cancel : Bool)
        → Flushed
            (length (rest_of s))
            (answered (length (next_batch s.queue)) cancel s)
            (later cancel))
    → Flushed most s (elim b [
      | false ↦ some ([], s)
      | true ↦ elim answer [
        | none ↦ some (map event_of (next_batch s.queue) ∷ [], failed_to_send s)
        | some cancel ↦ after_batch (map event_of (next_batch s.queue)) (later cancel)
      ]
    ])
unfolding answered failed_to_send mathlib.Core.List.flatten
flush_round most false true answer s later m e going h = absurd (ground arith)
flush_round most false false answer s later m e going h = record {
  batches = [];
  after = s;
  unsent = [];
  returned = refl;
  emptied = empty_queue s.queue e;
  in_order = sym (ap (map event_of) (empty_queue s.queue e));
  none_left = λ k. refl;
  few = omega arith;
}
flush_round most true send_empty none s later m e going h = record {
  batches = map event_of (next_batch s.queue) ∷ [];
  after = failed_to_send s;
  unsent = map event_of (rest_of s);
  returned = refl;
  emptied = refl;
  in_order =
      ap (λ l. l ++ map event_of (rest_of s)) (append_nil (map event_of (next_batch s.queue)))
      ∙ next_batch-drop s.queue;
  none_left = λ k. cc;
  few = omega (arith, m, rest_lt send_empty s e);
}
flush_round most true send_empty (some cancel) s later m e going h =
    let f = h refl cancel in
    record {
      batches = map event_of (next_batch s.queue) ∷ f.batches;
      after = f.after;
      unsent = f.unsent;
      returned = ap (after_batch (map event_of (next_batch s.queue))) f.returned;
      emptied = f.emptied;
      in_order =
          append_assoc (map event_of (next_batch s.queue)) (flatten f.batches) f.unsent
          ∙ ap (λ l. map event_of (next_batch s.queue) ++ l) f.in_order
          ∙ next_batch-drop s.queue;
      none_left = f.none_left;
      few = omega (arith, m, f.few, rest_lt send_empty s e);
    }

flush_from-Flushed :
    (most fuel : ℕ) (send_empty : Bool) (answers : ℕ → Option Bool) (i : ℕ) (s : JobEvents)
    → most ≡ one_if send_empty + length s.queue
    → s.failed ≡ false
    → most < fuel
    → Flushed most s (flush_from fuel send_empty answers i s)
unfolding flush_from answered
flush_from-Flushed most zero send_empty answers i s m going lt = absurd (omega arith)
flush_from-Flushed most (suc fuel) send_empty answers i s m going lt =
    flush_round most (ltb 0 (length s.queue) || send_empty) send_empty (answers i) s
      (λ cancel.
        flush_from fuel false answers (suc i) (answered (length (next_batch s.queue)) cancel s))
      m refl going
      (λ e cancel.
        flush_from-Flushed (length (rest_of s)) fuel false answers (suc i)
          (answered (length (next_batch s.queue)) cancel s) (omega arith) going
          (omega (arith, m, lt, rest_lt send_empty s e)))

one_if_le : (b : Bool) → one_if b ≤ 1
one_if_le true = omega arith
one_if_le false = omega arith

-- With fuel for at least two rounds more than there are events, a flush ends, with at most one batch for each event and one
-- more, and leaves the queue empty. Its batches hold the events of the queue in their order, each
-- once: all of them, unless a request failed, and then a first part of them.
pub flush-Flushed :
    (fuel : ℕ) (beat : Bool) (answers : ℕ → Option Bool) (s : JobEvents)
    → s.failed ≡ false
    → suc (length s.queue) < fuel
    → Flushed (suc (length s.queue)) s (flush fuel beat answers s)
unfolding flush
flush-Flushed fuel beat answers s going lt =
    let empty = beat && length s.queue == 0 in
    let f =
      flush_from-Flushed (one_if empty + length s.queue) fuel empty answers 0 s refl going
        (omega (arith, one_if_le empty)) in
    subst
      (λ failed.
        Flushed (suc (length s.queue)) s
          (elim failed [ true ↦ some ([], s) | false ↦ flush_from fuel empty answers 0 s ]))
      (sym going)
      (record {
        batches = f.batches;
        after = f.after;
        unsent = f.unsent;
        returned = f.returned;
        emptied = f.emptied;
        in_order = f.in_order;
        none_left = f.none_left;
        few = omega (arith, f.few, one_if_le empty);
      })
