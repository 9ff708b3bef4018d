-- ===== src/Runner/Link/Stored.antt =====
-- What the queue stores of a batch of events.
use mathlib.Core.Path.{subst}
use trawler.Base.{
  ℕ, ◌≡◌, ◌∙◌, ap, sym, refl, arith, Bool, true, false, Option, none, some, List, [], ◌∷◌, ◌++◌,
  ◌⊎◌, inl, inr, not, ◌&&◌, ◌||◌, leb, ◌==◌, if◌then◌else◌, is_some, Bool-cases, any, find?, is_at,
  mem, map, length,
}
use trawler.Queue.Rows.{Rows, Job, EventRow, Around, is_leased, is_active}
use trawler.Queue.Jobs.{
  Result, ok, refused, job_for_token, checked, is_other, is_expired, Ensures, foreign_events,
  invalid_job_token, invalid_batch,
}
use trawler.Queue.Limits.{stop_if_over_limits, end_run}
use trawler.Queue.Limits.Stops.{Stopped, goes_on, was_over, is_ended, stop_if_over_limits-Stopped}
use trawler.Queue.Events.{
  RunEvent, Payload, finding, goal_status, verdict, other, apply_payload, ingest_event, ingest_each,
  ingest_found, ingest_events, cancel_after, renew_lease, same_event, max_batch,
}
use trawler.Runner.Link.{stored}

-- The numbers with those that are new, in order.
abbrev pub with_new : List ℕ → List ℕ → List ℕ
with_new seqs [] = seqs
with_new seqs (x ∷ xs) = with_new (if mem x seqs then seqs else seqs ++ x ∷ []) xs

abbrev pub seq_of : RunEvent → ℕ
seq_of e = e.seq

stored-append :
    (id : ℕ) (rows : List EventRow) (row : EventRow)
    → row.job_id ≡ id
    → stored id (rows ++ row ∷ []) ≡ stored id rows ++ row.seq ∷ []
stored-append id [] row h = ground arith
stored-append id (r ∷ rows) row h = ground (arith, stored-append id rows row)

events-Stopped : (a : Around) (s : Rows) (r : Rows × Bool) → Stopped a s r → r.0.events ≡ s.events
unfolding end_run
events-Stopped a s r (goes_on h k) = refl
events-Stopped a s r (was_over h) = refl
events-Stopped a s r (is_ended end h k) = refl

not_other :
    (b : Bool) (id : ℕ) (j : Job)
    → (b ≡ false → is_other (some id) j ≡ false)
    → Ensures (λ (k : Job). k.id ≡ id) (if b then refused invalid_job_token else ok j)
not_other true id j h = tt
not_other false id j h = ground (arith, h refl)

checked-id :
    (a : Around) (id : ℕ) (o : Option Job)
    → Ensures (λ (j : Job). j.id ≡ id) (checked a false (some id) o)
checked-id a id none = tt
checked-id a id (some j) =
    not_other ((is_expired a j && not false) || is_other (some id) j) id j (λ h. ground arith)

job_for_token-id :
    (a : Around) (hash id : ℕ) (s : Rows)
    → Ensures (λ (j : Job). j.id ≡ id) (job_for_token a hash false (some id) s)
unfolding job_for_token
job_for_token-id a hash id s = checked-id a id (find? (λ (j : Job). is_at j.token_hash hash) s.jobs)

module _ (composite_key : Option ℕ → ℕ → ℕ) where
  same_event-mem :
      (job : Job) (e : RunEvent) (rows : List EventRow)
      → any (same_event composite_key job e) rows ≡ mem e.seq (stored job.id rows)
  same_event-mem job e [] = refl
  same_event-mem job e (r ∷ rows) = ground (arith, same_event-mem job e rows)

  events-apply_payload :
      (a : Around) (job : Job) (p : Payload) (s : Rows)
      → (apply_payload composite_key a job p s).events ≡ s.events
  unfolding apply_payload
  events-apply_payload a job (finding f) s = ground arith
  events-apply_payload a job (goal_status o) s = ground arith
  events-apply_payload a job (verdict id v) s = ground arith
  events-apply_payload a job other s = refl

  stored-ingest_event :
      (a : Around) (job : Job) (e : RunEvent) (s : Rows)
      → stored job.id (ingest_event composite_key a job e s).events ≡ (
          if mem e.seq (stored job.id s.events)
          then stored job.id s.events
          else stored job.id s.events ++ e.seq ∷ [])
  unfolding ingest_event
  stored-ingest_event a job e s =
      elim (Bool-cases (any (same_event composite_key job e) s.events)) [
        | inl known ↦ rw known (rw (sym (same_event-mem job e s.events) ∙ known) refl)
        | inr new ↦ rw new (
            rw (sym (same_event-mem job e s.events) ∙ new) (
              ap (λ rows. stored job.id rows)
                (events-apply_payload a job e.payload
                  (record s { events = s.events ++ record { job_id = job.id; seq = e.seq } ∷ [] }))
              ∙ stored-append job.id s.events (record { job_id = job.id; seq = e.seq }) refl))
      ]

  stored-ingest_each :
      (a : Around) (job : Job) (events : List RunEvent) (s : Rows)
      → stored job.id (ingest_each composite_key a job events s).events
        ≡ with_new (stored job.id s.events) (map seq_of events)
  unfolding ingest_each
  stored-ingest_each a job [] s = refl
  stored-ingest_each a job (e ∷ events) s =
      stored-ingest_each a job events (ingest_event composite_key a job e s)
      ∙ ap (λ seqs. with_new seqs (map seq_of events)) (stored-ingest_event a job e s)

  events-stop_if_over_limits :
      (a : Around) (s : Rows) → (stop_if_over_limits a s).0.events ≡ s.events
  events-stop_if_over_limits a s =
      events-Stopped a s (stop_if_over_limits a s) (stop_if_over_limits-Stopped a s)

  events-renew_lease : (a : Around) (id : ℕ) (s : Rows) → (renew_lease a id s).events ≡ s.events
  unfolding renew_lease
  events-renew_lease a id s = refl

  events-cancel_after :
      (a : Around) (job : Job) (s : Rows) → (cancel_after composite_key a job s).0.events ≡ s.events
  events-cancel_after a job s = elim (Bool-cases (is_some job.requested_by)) [
    | inl again ↦ rw again refl
    | inr first ↦ rw first (events-stop_if_over_limits a s)
  ]

  -- What an accepted batch leaves: all of it is stored, or the answer is to cancel and nothing is.
  abbrev pub Ingested : ℕ → List RunEvent → Rows → Rows × Bool → Type 0
  Ingested id events s (s', cancel) =
      (stored id s'.events ≡ with_new (stored id s.events) (map seq_of events))
      ⊎ ((cancel ≡ true) × (stored id s'.events ≡ stored id s.events))

  abbrev IngestedIfOk : ℕ → List RunEvent → Rows → Result (Rows × Bool) → Type 0
  IngestedIfOk id events s (ok r) = Ingested id events s r
  IngestedIfOk id events s (refused why) = Unit

  ok_if :
      (b : Bool) (id : ℕ) (events : List RunEvent) (s : Rows) (r q : Result (Rows × Bool))
      → IngestedIfOk id events s r
      → IngestedIfOk id events s q
      → IngestedIfOk id events s (if b then r else q)
  ok_if true id events s r q h k = h
  ok_if false id events s r q h k = k

  ingest_found-Ingested :
      (a : Around) (events : List RunEvent) (s : Rows) (job : Job)
      → IngestedIfOk job.id events s (ingest_found composite_key a events s (ok job))
  ingest_found-Ingested a events s job =
      let stored_all =
        ap (stored job.id) (
          events-cancel_after a job
            (renew_lease a job.id (ingest_each composite_key a job events s)))
        ∙ ap (stored job.id)
            (events-renew_lease a job.id (ingest_each composite_key a job events s))
        ∙ stored-ingest_each a job events s in
      ok_if (not (is_leased job.status)) job.id events s (ok (s, true))
        (if any (λ (e : RunEvent). not (e.job_id == job.id)) events
          then refused foreign_events
          else if not (is_active s.run.status) && not (is_some job.requested_by)
          then ok (s, true)
          else ok (
              cancel_after composite_key a job
                (renew_lease a job.id (ingest_each composite_key a job events s))))
        (inr (refl, refl))
        (ok_if (any (λ (e : RunEvent). not (e.job_id == job.id)) events) job.id events s
          (refused foreign_events)
          (if not (is_active s.run.status) && not (is_some job.requested_by)
            then ok (s, true)
            else ok (
                cancel_after composite_key a job
                  (renew_lease a job.id (ingest_each composite_key a job events s))))
          tt
          (ok_if (not (is_active s.run.status) && not (is_some job.requested_by)) job.id events s
            (ok (s, true))
            (ok (
              cancel_after composite_key a job
                (renew_lease a job.id (ingest_each composite_key a job events s))))
            (inr (refl, refl)) (inl stored_all)))

  found_of :
      (a : Around) (id : ℕ) (events : List RunEvent) (s : Rows) (r : Result Job)
      → Ensures (λ (j : Job). j.id ≡ id) r
      → IngestedIfOk id events s (ingest_found composite_key a events s r)
  found_of a id events s (refused why) h = tt
  found_of a id events s (ok job) h =
      subst (λ k. IngestedIfOk k events s (ingest_found composite_key a events s (ok job))) h
        (ingest_found-Ingested a events s job)

  if_ok :
      (id : ℕ) (events : List RunEvent) (s : Rows) (r : Result (Rows × Bool)) {q : Rows × Bool}
      → r ≡ ok q
      → IngestedIfOk id events s r
      → Ingested id events s q
  if_ok id events s (ok q) e h = subst (λ r. IngestedIfOk id events s r) e h
  if_ok id events s (refused why) e h = cc

  pub ingest_events-Ingested :
      (a : Around) (hash id : ℕ) (events : List RunEvent) (s : Rows) {r : Rows × Bool}
      → ingest_events composite_key a hash events (some id) s ≡ ok r
      → Ingested id events s r
  unfolding ingest_events
  ingest_events-Ingested a hash id events s e =
      if_ok id events s (ingest_events composite_key a hash events (some id) s) e (
        ok_if (leb (length events) max_batch) id events s
          (ingest_found composite_key a events s (job_for_token a hash false (some id) s))
          (refused invalid_batch)
          (found_of a id events s (job_for_token a hash false (some id) s)
            (job_for_token-id a hash id s))
          tt)
