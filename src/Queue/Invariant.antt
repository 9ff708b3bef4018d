-- ===== src/Queue/Invariant.antt =====
-- What holds of a run's jobs between two transactions, and what planning keeps of it.
pub mod Moves
pub mod Others
pub mod Claims
pub mod Payments
pub mod People
use trawler.Base.{
  ℕ, suc, ap, ◌+◌, ◌≤◌, ◌≡◌, refl, Bool, true, false, Option, none, some, List, [], ◌∷◌, ◌++◌, map,
  arith, any, any-append, not, ◌&&◌, if◌then◌else◌, Bool-cases, Option-cases, is_some, inl, inr,
  ◌⊎◌, ◌∙◌, filter, find?,
}
use trawler.Base.Rows.{
  update, any-update-none, count_if, count_if-append, count_if-update, keys, keys-update,
  keys-append, Distinct, Below, Below-suc, Below-append, Distinct-append_fresh,
}
use trawler.Protocol.Types.{JobKind, is_triage}
use trawler.Queue.Rows.{
  FindingRow, Rows, Run, Job, Around, RunStatus, is_active, is_open, is_queued, is_leased, any_open,
  next_position,
}
use trawler.Queue.Limits.{RunEnd, end_run, cancel_job}
use trawler.Queue.Limits.Stops.{
  Stopped, goes_on, was_over, is_ended, stop_if_over_limits-Stopped, is_active-end_run,
  any_queued-end_run,
}
use trawler.Queue.Findings.{
  mark_known_limits, friction_to_check, reported_defects_of, key_of, defects_of,
  hand_over_to_next_report, succeed, succeeds,
}
use trawler.Queue.Plan.{
  JobResult, insert_job, new_job, queue_replays, queue_triage, finish_run, close_run, or_finish,
  after_roles, join_reports, reports_to_replay, after_group, after_replay, after_job, plan_next,
  hand_over, replay_next,
}
use trawler.Queue.Plan.Ends.{IsLive, plan_next-IsLive}

abbrev pub job_id : Job → ℕ
job_id j = j.id

-- A queued job that nobody asked for.
abbrev pub is_stranded : Job → Bool
is_stranded j = is_queued j.status && not (is_some j.requested_by)

-- `quiet`: a run that is over has no queued job, but those that a person asked for. `exclusive`:
-- outside a conversation at most one job is leased. The others: identifiers are given out once.
pub record IsKept (status : RunStatus) (conversation : Bool) (jobs : List Job) (next : ℕ)
    : Type 0 where
  pub quiet : is_active status ≡ false → any is_stranded jobs ≡ false
  pub exclusive : conversation ≡ false → count_if (λ (j : Job). is_leased j.status) jobs ≤ 1
  pub distinct : Distinct (keys job_id jobs)
  pub below : Below next (keys job_id jobs)

abbrev pub Kept : Rows → Type 0
Kept s = IsKept s.run.status s.run.conversation s.jobs s.next_job

-- A run that is sound is also live: while it is not over, some job is queued or leased.
abbrev pub IsSound : Rows → Type 0
IsSound s = IsLive s × Kept s

pub Kept-if : (b : Bool) (s t : Rows) → Kept s → Kept t → Kept (if b then s else t)
Kept-if true s t h k = h
Kept-if false s t h k = k

-- An update of jobs that leases none and keeps the identifiers.
pub update-Kept_of_quiet :
    (status : RunStatus) (conversation : Bool) (jobs : List Job) (next : ℕ) (cond : Job → Bool)
    (set : Job → Job)
    → ((j : Job) → job_id (set j) ≡ job_id j)
    → ((j : Job)
        → is_leased j.status ≡ false
        → is_leased (if cond j then set j else j).status ≡ false)
    → (is_active status ≡ false → any is_stranded (update cond set jobs) ≡ false)
    → IsKept status conversation jobs next
    → IsKept status conversation (update cond set jobs) next
update-Kept_of_quiet status conversation jobs next cond set same leased quiet h = record {
  quiet = quiet;
  exclusive = λ alone. omega (
    arith,
    h.exclusive alone,
    count_if-update (λ (j : Job). is_leased j.status) cond set jobs leased,
  );
  distinct = rw (keys-update job_id cond set jobs same) h.distinct;
  below = rw (keys-update job_id cond set jobs same) h.below;
}

-- The same, where no job is stranded that was not.
pub update-Kept :
    (status : RunStatus) (conversation : Bool) (jobs : List Job) (next : ℕ) (cond : Job → Bool)
    (set : Job → Job)
    → ((j : Job) → job_id (set j) ≡ job_id j)
    → ((j : Job)
        → is_leased j.status ≡ false
        → is_leased (if cond j then set j else j).status ≡ false)
    → ((j : Job) → is_stranded j ≡ false → is_stranded (if cond j then set j else j) ≡ false)
    → IsKept status conversation jobs next
    → IsKept status conversation (update cond set jobs) next
update-Kept status conversation jobs next cond set same leased stranded h =
    update-Kept_of_quiet status conversation jobs next cond set same leased
      (λ over. any-update-none is_stranded cond set jobs stranded (h.quiet over)) h

pub insert_job-Kept :
    (kind : JobKind) (position : ℕ) (finding_key requested_by : Option ℕ) (s : Rows)
    → (is_active s.run.status ≡ true) ⊎ (is_some requested_by ≡ true)
    → Kept s
    → Kept (insert_job kind position finding_key requested_by s)
unfolding insert_job count_if
insert_job-Kept kind position finding_key requested_by s why h =
    let job : Job = new_job s.next_job kind position finding_key requested_by in
    record {
      quiet = λ over. ground (arith, h.quiet over, any-append is_stranded s.jobs (job ∷ []));
      exclusive = λ alone. omega (
        arith,
        h.exclusive alone,
        count_if-append (λ (j : Job). is_leased j.status) s.jobs (job ∷ []),
      );
      distinct =
          rw (keys-append job_id s.jobs (job ∷ []))
            (Distinct-append_fresh s.next_job _ h.distinct h.below);
      below =
          rw (keys-append job_id s.jobs (job ∷ []))
            (Below-append _ _ _ (Below-suc _ _ h.below) (omega arith, tt));
    }

pub queue_replays-Kept :
    (next : ℕ) (found : List ℕ) (s : Rows)
    → is_active s.run.status ≡ true
    → Kept s
    → Kept (queue_replays next found s)
unfolding queue_replays
queue_replays-Kept next [] s active h = h
queue_replays-Kept next (key ∷ found) s active h =
    queue_replays-Kept (suc next) found (insert_job JobKind.replay next (some key) none s)
      (unfold insert_job in active)
      (insert_job-Kept JobKind.replay next (some key) none s (inl active) h)

run-queue_replays :
    (next : ℕ) (found : List ℕ) (s : Rows) → (queue_replays next found s).run ≡ s.run
unfolding queue_replays
run-queue_replays next [] s = refl
run-queue_replays next (key ∷ found) s =
    run-queue_replays (suc next) found (insert_job JobKind.replay next (some key) none s)

-- What follows a job: more jobs, while the run stays as active as it was.
abbrev Follows : Rows → Rows → Type 0
Follows s t = (t.run.status ≡ s.run.status) × Kept t

Follows-if : (b : Bool) (s t u : Rows) → Follows s t → Follows s u → Follows s (if b then t else u)
Follows-if true s t u h k = h
Follows-if false s t u h k = k

Follows-insert_job :
    (kind : JobKind) (position : ℕ) (finding_key : Option ℕ) (s : Rows)
    → is_active s.run.status ≡ true
    → Kept s
    → Follows s (insert_job kind position finding_key none s)
Follows-insert_job kind position finding_key s active h =
    (unfold insert_job in refl, insert_job-Kept kind position finding_key none s (inl active) h)

Follows-queue_replays :
    (next : ℕ) (found : List ℕ) (s : Rows)
    → is_active s.run.status ≡ true
    → Kept s
    → Follows s (queue_replays next found s)
Follows-queue_replays next found s active h = (
  ap (λ (r : Run). r.status) (run-queue_replays next found s),
  queue_replays-Kept next found s active h,
)

after_roles-Follows :
    (a : Around) (next : ℕ) (s : Rows)
    → is_active s.run.status ≡ true
    → Kept s
    → Follows s (after_roles a next s)
unfolding after_roles
after_roles-Follows a next s active h =
    let s' : Rows = record s {
      run = record s.run { sign_up_seed = none };
      findings = (friction_to_check s).0;
    } in
    let defects = map key_of (reported_defects_of (friction_to_check s).0) in
    Follows-if _ s s _ (refl, h)
      (Follows-if _ s (insert_job JobKind.group next none none s')
        (queue_replays next (defects ++ (friction_to_check s).1) s')
        (Follows-insert_job JobKind.group next none s' active h)
        (Follows-queue_replays next (defects ++ (friction_to_check s).1) s' active h))

succeed-Follows :
    (next key : ℕ) (s : Rows) (found : Option FindingRow)
    → is_active s.run.status ≡ true
    → Kept s
    → Follows s (replay_next next (succeed key s found))
succeed-Follows next key s none active h = (refl, h)
succeed-Follows next key s (some successor) active h =
    Follows-queue_replays next (successor.key ∷ []) (succeed key s (some successor)).0 active h

hand_over-Follows :
    (next : ℕ) (finding_key : Option ℕ) (s : Rows)
    → is_active s.run.status ≡ true
    → Kept s
    → Follows s (hand_over next finding_key s)
unfolding hand_over_to_next_report
hand_over-Follows next none s active h = (refl, h)
hand_over-Follows next (some key) s active h =
    succeed-Follows next key s (find? (succeeds key) (defects_of s.findings)) active h

after_replay-Follows :
    (next : ℕ) (finding_key : Option ℕ) (result : JobResult) (s : Rows)
    → is_active s.run.status ≡ true
    → Kept s
    → Follows s (after_replay next finding_key result s)
unfolding after_replay
after_replay-Follows next finding_key result s active h =
    Follows-if _ s _ _ (Follows-insert_job JobKind.judge next finding_key s active h) (
      Follows-if _ s (hand_over next finding_key s) s
        (hand_over-Follows next finding_key s active h) (refl, h))

after_job-Follows :
    (a : Around) (next : ℕ) (kind : JobKind) (finding_key : Option ℕ) (result : JobResult)
    (s : Rows)
    → is_active s.run.status ≡ true
    → Kept s
    → Follows s (after_job a next kind finding_key result s)
unfolding after_job after_group join_reports mark_known_limits
after_job-Follows a next JobKind.role_session finding_key result s active h =
    after_roles-Follows a next s active h
after_job-Follows a next JobKind.group finding_key result s active h =
    Follows-queue_replays next (reports_to_replay result s) (join_reports a result s) active h
after_job-Follows a next JobKind.replay finding_key result s active h =
    after_replay-Follows next finding_key result s active h
after_job-Follows a next JobKind.triage finding_key result s active h =
    Follows-if _ s s _ (refl, h) (refl, h)
after_job-Follows a next _ finding_key result s active h = (refl, h)

finish_run-Kept : (a : Around) (s : Rows) → any_open s.jobs ≡ false → Kept s → Kept (finish_run a s)
unfolding finish_run
finish_run-Kept a s none_open h = record {
  quiet = λ over. not_stranded s.jobs none_open;
  exclusive = λ alone. h.exclusive (same alone);
  distinct = h.distinct;
  below = h.below;
}
  where
    same : (finish_run a s).run.conversation ≡ false → s.run.conversation ≡ false
    same e = ground arith

    not_stranded : (jobs : List Job) → any_open jobs ≡ false → any is_stranded jobs ≡ false
    not_stranded [] e = refl
    not_stranded (j ∷ jobs) e = ground (arith, not_stranded jobs)

close_run-Kept :
    (a : Around) (next : ℕ) (kind : JobKind) (s : Rows)
    → is_active s.run.status ≡ true
    → Kept s
    → Kept (close_run a next kind s)
unfolding close_run queue_triage
close_run-Kept a next kind s active h = elim (Bool-cases (any_open s.jobs)) [
  | inl open_job ↦ rw open_job h
  | inr none_open ↦ rw none_open (
      Kept-if (is_triage kind) (finish_run a s) _ (finish_run-Kept a s none_open h)
        (triage _ none_open))
]
  where
    triage :
        (due : Bool)
        → any_open s.jobs ≡ false
        → Kept (
            or_finish a s
              (if due then (insert_job JobKind.triage next none none s, true) else (s, false)))
    triage true e = insert_job-Kept JobKind.triage next none none s (inl active) h
    triage false e = finish_run-Kept a s e h

pub plan_next-IsSound :
    (a : Around) (kind : JobKind) (finding_key : Option ℕ) (result : JobResult) (s : Rows)
    → is_active s.run.status ≡ true
    → Kept s
    → IsSound (plan_next a kind finding_key result s)
unfolding plan_next
plan_next-IsSound a kind finding_key result s active h =
    let next = next_position s.jobs in
    let (same, kept) = after_job-Follows a next kind finding_key result s active h in
    (
      plan_next-IsLive a kind finding_key result s,
      close_run-Kept a next kind (after_job a next kind finding_key result s) (rw same active) kept,
    )
