-- ===== src/Queue/Events.antt =====
-- The events that a runner sends while it holds a job (`ingestEvents` of queue.ts).
use trawler.Base.{
  ℕ, ◌+◌, ◌*◌, Bool, true, false, Option, none, some, List, [], ◌∷◌, ◌++◌, not, ◌&&◌, leb, ◌==◌,
  if◌then◌else◌, is_at, is_some, any, length,
}
use trawler.Base.Rows.{update}
use trawler.Protocol.Types.{Finding, GoalOutcome, Verdict, is_role_session, is_judge}
use trawler.Queue.Rows.{
  Rows, Job, FindingRow, OutcomeRow, EventRow, Around, minute, lease_minutes, is_active, is_leased,
}
use trawler.Queue.Limits.{stop_if_over_limits, judge_again_stopped}
use trawler.Queue.Jobs.{Result, ok, refused, foreign_events, invalid_batch, job_for_token}

abbrev pub max_batch : ℕ
max_batch = 500

-- The events that the queue acts on; `other` stands for those that are only stored.
pub data Payload : Type 0 where
  finding : Finding → Payload
  goal_status : GoalOutcome → Payload
  verdict : ℕ → Verdict → Payload
  other : Payload

pub record RunEvent : Type 0 where
  pub seq : ℕ
  pub job_id : ℕ
  pub payload : Payload

unfoldable pub renew_lease : Around → ℕ → Rows → Rows
unfolding update
renew_lease a id s = record s {
  jobs =
      update (λ (j : Job). j.id == id)
        (λ j. record j { lease_until = some (a.now + lease_minutes * minute) }) s.jobs;
}

-- `${job.persona_key}:${finding.id}` is read through a parameter: how the database orders such
-- texts is its own.
module _ (composite_key : Option ℕ → ℕ → ℕ) where
  abbrev finding_row : Around → Job → Finding → FindingRow
  finding_row a job f = record {
    key = composite_key job.persona_key f.id;
    job_id = job.id;
    persona_key = job.persona_key;
    kind = f.kind;
    goal = f.goal;
    title = f.title;
    observed = f.observed;
    reproduction = f.reproduction;
    severity = f.severity;
    step_people = f.people;
    verdict = none;
    replay = none;
    same_as = none;
    filed_as = none;
    created_at = a.now;
  }

  abbrev set_finding : Finding → FindingRow → FindingRow
  set_finding f row = record row {
    kind = f.kind;
    goal = f.goal;
    title = f.title;
    observed = f.observed;
    reproduction = f.reproduction;
    severity = f.severity;
    step_people = f.people;
  }

  -- `INSERT … ON CONFLICT (run_id, key) DO UPDATE … WHERE findings.job_id = job.id`
  unfoldable pub upsert_finding : Around → Job → Finding → List FindingRow → List FindingRow
  unfolding update
  upsert_finding a job f findings =
      let key = composite_key job.persona_key f.id in
      if any (λ (row : FindingRow). row.key == key) findings
      then update (λ (row : FindingRow). row.key == key && row.job_id == job.id) (set_finding f)
          findings
      else findings ++ finding_row a job f ∷ []

  abbrev same_outcome : Option ℕ → ℕ → OutcomeRow → Bool
  same_outcome persona goal row =
      row.goal == goal
      && (elim persona [ none ↦ not (is_some row.persona_key) | some p ↦ is_at row.persona_key p ])

  unfoldable pub upsert_outcome : Job → GoalOutcome → List OutcomeRow → List OutcomeRow
  unfolding update
  upsert_outcome job o outcomes =
      if any (same_outcome job.persona_key o.goal) outcomes
      then update (same_outcome job.persona_key o.goal)
          (λ row. record row { status = o.status; note = o.note }) outcomes
      else outcomes
        ++ record { persona_key = job.persona_key; goal = o.goal; status = o.status; note = o.note }
          ∷ []

  unfoldable pub apply_payload : Around → Job → Payload → Rows → Rows
  unfolding upsert_finding upsert_outcome update
  apply_payload a job (finding f) s =
      if is_role_session job.kind
      then record s { findings = upsert_finding a job f s.findings }
      else s
  apply_payload a job (goal_status o) s =
      if is_role_session job.kind
      then record s { outcomes = upsert_outcome job o s.outcomes }
      else s
  apply_payload a job (verdict finding_id v) s =
      if is_judge job.kind && is_at job.finding_key finding_id
      then record s {
        findings =
            update (λ (row : FindingRow). row.key == finding_id)
              (λ row. record row { verdict = some v }) s.findings;
      }
      else s
  apply_payload a job other s = s

  abbrev pub same_event : Job → RunEvent → EventRow → Bool
  same_event job e row = row.job_id == job.id && row.seq == e.seq

  -- An event that is stored already is passed over.
  unfoldable pub ingest_event : Around → Job → RunEvent → Rows → Rows
  unfolding apply_payload
  ingest_event a job e s =
      if any (same_event job e) s.events
      then s
      else apply_payload a job e.payload
          (record s { events = s.events ++ record { job_id = job.id; seq = e.seq } ∷ [] })

  unfoldable pub ingest_each : Around → Job → List RunEvent → Rows → Rows
  unfolding ingest_event
  ingest_each a job [] s = s
  ingest_each a job (e ∷ events) s = ingest_each a job events (ingest_event a job e s)

  -- The answer `cancel`, after the lease is renewed.
  abbrev pub cancel_after : Around → Job → Rows → Rows × Bool
  cancel_after a job s =
      if is_some job.requested_by then (s, judge_again_stopped a s) else stop_if_over_limits a s

  abbrev pub ingest_found : Around → List RunEvent → Rows → Result Job → Result (Rows × Bool)
  ingest_found a events s (refused why) = refused why
  ingest_found a events s (ok job) =
      if not (is_leased job.status)
      then ok (s, true)
      else if any (λ (e : RunEvent). not (e.job_id == job.id)) events
      then refused foreign_events
      else if not (is_active s.run.status) && not (is_some job.requested_by)
      then ok (s, true)
      else ok (cancel_after a job (renew_lease a job.id (ingest_each a job events s)))

  unfoldable pub ingest_events : Around → ℕ → List RunEvent → Option ℕ → Rows → Result (Rows × Bool)
  unfolding job_for_token ingest_each renew_lease judge_again_stopped stop_if_over_limits
  ingest_events a hash events expected s =
      if leb (length events) max_batch
      then ingest_found a events s (job_for_token a hash false expected s)
      else refused invalid_batch
