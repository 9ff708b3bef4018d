-- ===== src/Queue/Invariant/Others.antt =====
-- Releasing, claiming, reporting, paying and judging again keep a sound run sound.
use trawler.Base.{
  ℕ, ◌+◌, ◌*◌, ◌≡◌, refl, Bool, true, false, Option, none, some, List, [], ◌∷◌, ◌++◌, arith, any,
  not, ◌&&◌, ◌||◌, if◌then◌else◌, Bool-cases, is_some, inl, inr, find?, ◌==◌, leb, length,
}
use trawler.Base.Rows.{update, any-update_mono}
use trawler.Queue.Rows.{Rows, Job, Around, minute, lease_minutes, is_active, is_open, is_leased}
use trawler.Queue.Limits.{stop_if_over_limits, limit_stop}
use trawler.Queue.Limits.Stops.{Stopped, goes_on, was_over, is_ended, stop_if_over_limits-Stopped}
use trawler.Queue.Jobs.{
  Result, ok, refused, Ensures, job_for_token, forget_partial_work, unstart_run, release_found,
  release_job, holds, released,
}
use trawler.Queue.Events.{
  max_batch, RunEvent, Payload, ingest_events, ingest_found, cancel_after, ingest_each,
  ingest_event, apply_payload, renew_lease,
}
use trawler.Queue.Invariant.{IsSound, update-Kept, update-Kept_of_quiet}
use trawler.Queue.Invariant.Moves.{end_run-IsSound, released_requested}

-- The limits are looked at: the run goes on as it was, or is over.
pub Stopped-IsSound :
    (a : Around) (s : Rows) {r : Rows × Bool} → Stopped a s r → IsSound s → IsSound r.0
Stopped-IsSound a s (goes_on active within) h = h
Stopped-IsSound a s (was_over over) h = h
Stopped-IsSound a s (is_ended end active over) h = end_run-IsSound a end s h.1

pub stop_if_over_limits-IsSound :
    (a : Around) (s : Rows) → IsSound s → IsSound (stop_if_over_limits a s).0
stop_if_over_limits-IsSound a s h = Stopped-IsSound a s (stop_if_over_limits-Stopped a s) h

pub Sound-if :
    {A : Type 0} (b : Bool) (x y : Rows × A)
    → IsSound x.0
    → IsSound y.0
    → IsSound (if b then x else y).0
Sound-if true x y h k = h
Sound-if false x y h k = k

pub limit_stop-IsSound : (a : Around) (s : Rows) → IsSound s → IsSound (limit_stop a s).0
unfolding stop_if_over_limits
limit_stop-IsSound a s h = stop_if_over_limits-IsSound a s h

-- Rows that differ only in what the invariant does not read.
abbrev pub SameJobs : Rows → Rows → Type 0
SameJobs s t =
    (is_active t.run.status ≡ is_active s.run.status)
    × (t.run.conversation ≡ s.run.conversation)
    × (t.jobs ≡ s.jobs)
    × (t.next_job ≡ s.next_job)

pub SameJobs-IsSound : (s t : Rows) → SameJobs s t → IsSound s → IsSound t
SameJobs-IsSound s t (status, talks, jobs, next) h = (
  rw (status, jobs) h.0,
  rw (talks, jobs, next)
      (record {
        quiet = λ over. h.1.quiet (rw status at over);
        exclusive = h.1.exclusive;
        distinct = h.1.distinct;
        below = h.1.below;
      }),
)

module _ (key : Option ℕ → ℕ → ℕ) where
  apply_payload-SameJobs :
      (a : Around) (job : Job) (p : Payload) (s : Rows) → SameJobs s (apply_payload key a job p s)
  unfolding apply_payload
  apply_payload-SameJobs a job (Payload.finding f) s = ground arith
  apply_payload-SameJobs a job (Payload.goal_status o) s = ground arith
  apply_payload-SameJobs a job (Payload.verdict id v) s = ground arith
  apply_payload-SameJobs a job Payload.other s = (refl, refl, refl, refl)

  ingest_event-SameJobs :
      (a : Around) (job : Job) (e : RunEvent) (s : Rows) → SameJobs s (ingest_event key a job e s)
  unfolding ingest_event
  ingest_event-SameJobs a job e s = ground (
    arith,
    apply_payload-SameJobs a job e.payload
        (record s { events = s.events ++ record { job_id = job.id; seq = e.seq } ∷ [] }),
  )

  ingest_each-SameJobs :
      (a : Around) (job : Job) (events : List RunEvent) (s : Rows)
      → SameJobs s (ingest_each key a job events s)
  unfolding ingest_each
  ingest_each-SameJobs a job [] s = (refl, refl, refl, refl)
  ingest_each-SameJobs a job (e ∷ events) s = ground (
    arith,
    ingest_event-SameJobs a job e s,
    ingest_each-SameJobs a job events (ingest_event key a job e s),
  )

-- A lease that is renewed.
pub renew_lease-IsSound :
    (a : Around) (id : ℕ) (s : Rows) → IsSound s → IsSound (renew_lease a id s)
unfolding renew_lease
renew_lease-IsSound a id s h =
    let renew : Job → Job = λ j. record j { lease_until = some (a.now + lease_minutes * minute) } in
    (
      λ active.
          any-update_mono (λ (j : Job). is_open j.status) (λ (j : Job). j.id == id) renew s.jobs
            (λ j e. ground arith) (h.0 active),
      update-Kept s.run.status s.run.conversation s.jobs s.next_job (λ (j : Job). j.id == id) renew
          (λ j. refl) (λ j e. ground arith) (λ j e. ground arith) h.1,
    )

module _ (key : Option ℕ → ℕ → ℕ) where
  cancel_after-IsSound :
      (a : Around) (job : Job) (s : Rows) → IsSound s → IsSound (cancel_after key a job s).0
  cancel_after-IsSound a job s h = elim (Bool-cases (is_some job.requested_by)) [
    | inl asked ↦ rw asked h
    | inr not_asked ↦ rw not_asked (stop_if_over_limits-IsSound a s h)
  ]

  ingest_found-IsSound :
      (a : Around) (events : List RunEvent) (s : Rows) (r : Result Job)
      → IsSound s
      → Ensures (λ (t : Rows × Bool). IsSound t.0) (ingest_found key a events s r)
  ingest_found-IsSound a events s (refused why) h = tt
  ingest_found-IsSound a events s (ok job) h =
      let told = ingest_each key a job events s in
      let sound = SameJobs-IsSound s told (ingest_each-SameJobs key a job events s) h in
      elim (Bool-cases (is_leased job.status)) [
        | inr over ↦ rw over h
        | inl leased ↦
            rw leased (elim (Bool-cases (any (λ (e : RunEvent). not (e.job_id == job.id)) events)) [
              | inl foreign ↦ rw foreign tt
              | inr own ↦
                  rw own
                    (elim (Bool-cases
                      (not (is_active s.run.status) && not (is_some job.requested_by))) [
                        | inl late ↦ rw late h
                        | inr current ↦ rw current (
                            cancel_after-IsSound a job (renew_lease a job.id told)
                              (renew_lease-IsSound a job.id told sound))
                      ])
            ])
      ]

  pub ingest_events-IsSound :
      (a : Around) (hash : ℕ) (events : List RunEvent) (expected : Option ℕ) (s : Rows)
      → IsSound s
      → Ensures (λ (t : Rows × Bool). IsSound t.0) (ingest_events key a hash events expected s)
  unfolding ingest_events
  ingest_events-IsSound a hash events expected s h =
      elim (Bool-cases (leb (length events) max_batch)) [
        | inl fits ↦
            rw fits (ingest_found-IsSound a events s (job_for_token a hash false expected s) h)
        | inr too_many ↦ rw too_many tt
      ]

-- Releasing.

forget_partial_work-SameJobs :
    (a : Around) (job : Job) (s : Rows) → SameJobs s (forget_partial_work a job s)
unfolding forget_partial_work
forget_partial_work-SameJobs a job s = ground arith

unstart_run-SameJobs : (s : Rows) → SameJobs s (unstart_run s)
unfolding unstart_run
unstart_run-SameJobs s = ground arith

-- The jobs of an active run that are released wait again.
released_active :
    (a : Around) (id hash : ℕ) (s : Rows)
    → is_active s.run.status ≡ true
    → IsSound s
    → IsSound (record s { jobs = update (holds id hash) (released a true) s.jobs })
released_active a id hash s active h = (
  λ _.
      any-update_mono (λ (j : Job). is_open j.status) (holds id hash) (released a true) s.jobs
        (λ j e. ground arith) (h.0 active),
  update-Kept_of_quiet s.run.status s.run.conversation s.jobs s.next_job (holds id hash)
      (released a true) (λ j. refl) (λ j e. ground arith) (λ over. cc) h.1,
)

-- A job that is released after its run's end waits again if somebody asked for it.
released_over :
    (a : Around) (id hash : ℕ) (s : Rows) (job : Job)
    → is_active s.run.status ≡ false
    → find? (holds id hash) s.jobs ≡ some job
    → IsSound s
    → IsSound
        (record s { jobs = update (holds id hash) (released a (is_some job.requested_by)) s.jobs })
released_over a id hash s job over e h = elim (Bool-cases (is_some job.requested_by)) [
  | inl asked ↦ rw asked (
    (λ active. cc),
    update-Kept_of_quiet s.run.status s.run.conversation s.jobs s.next_job (holds id hash)
        (released a true) (λ j. refl) (λ j e. ground arith)
        (λ _. released_requested a id hash s.jobs job h.1.distinct (h.1.quiet over) e asked) h.1,
  )
  | inr not_asked ↦ rw not_asked (
    (λ active. cc),
    update-Kept s.run.status s.run.conversation s.jobs s.next_job (holds id hash) (released a false)
        (λ j. refl) (λ j e. ground arith) (λ j e. ground arith) h.1,
  )
]

release_found-IsSound :
    (a : Around) (id hash : ℕ) (s : Rows) (found : Option Job)
    → find? (holds id hash) s.jobs ≡ found
    → IsSound s
    → IsSound (release_found a id hash s found)
release_found-IsSound a id hash s none e h = h
release_found-IsSound a id hash s (some job) e h =
    let t : Rows = record s {
      jobs =
          update (holds id hash) (released a (is_active s.run.status || is_some job.requested_by))
            s.jobs;
    } in
    let kept = forget_partial_work a job t in
    SameJobs-IsSound kept (unstart_run kept) (unstart_run-SameJobs kept) (
      SameJobs-IsSound t kept (forget_partial_work-SameJobs a job t)
        (elim (Bool-cases (is_active s.run.status)) [
          | inl active ↦
              let again : (is_active s.run.status || is_some job.requested_by) ≡ true =
                ground arith in
              rw again (released_active a id hash s active h)
          | inr over ↦
              let asked : (is_active s.run.status || is_some job.requested_by)
                  ≡ is_some job.requested_by =
                ground arith in
              rw asked (released_over a id hash s job over e h)
        ]))

pub release_job-IsSound :
    (a : Around) (id hash : ℕ) (s : Rows) → IsSound s → IsSound (release_job a id hash s)
unfolding release_job
release_job-IsSound a id hash s h =
    release_found-IsSound a id hash s (find? (holds id hash) s.jobs) refl h
