-- ===== src/Queue/Plan/Later.antt =====
-- What planning and the limits do to the jobs that are there: jobs are added, and those that wait
-- are cancelled; nothing else of them changes.
use trawler.Base.{
  ℕ, suc, ◌≡◌, refl, Bool, true, false, Option, none, some, List, [], ◌∷◌, ◌++◌, map, arith, any,
  any-append, if◌then◌else◌, is_at, find?, Bool-cases, inl, inr, ap, ◌∙◌,
}
use trawler.Base.Rows.{update, any-update-none}
use trawler.Protocol.Types.{JobKind, is_triage}
use trawler.Queue.Rows.{
  Rows, Job, FindingRow, Around, is_queued, is_leased, any_open, next_position,
}
use trawler.Queue.Limits.{end_run, cancel_job}
use trawler.Queue.Limits.Stops.{Stopped, goes_on, was_over, is_ended, stop_if_over_limits-Stopped}
use trawler.Queue.Findings.{
  mark_known_limits, friction_to_check, reported_defects_of, key_of, defects_of,
  hand_over_to_next_report, succeed, succeeds,
}
use trawler.Queue.Plan.{
  JobResult, insert_job, queue_replays, queue_triage, finish_run, close_run, or_finish, after_roles,
  join_reports, reports_to_replay, after_group, after_replay, after_job, plan_next, hand_over,
  replay_next,
}
use trawler.Queue.Jobs.{plan_unless, stop_or_plan}

pub data Later (jobs : List Job) : List Job → Type 0 where
  same : Later jobs jobs
  adds :
      (now : List Job) (job : Job)
      → Later jobs now
      → is_queued job.status ≡ true
      → job.token_hash ≡ none
      → Later jobs (now ++ job ∷ [])
  sweeps :
      (a : Around) (now : List Job)
      → Later jobs now
      → Later jobs (update (λ (j : Job). is_queued j.status) (cancel_job a) now)

Later-if :
    {jobs : List Job} (b : Bool) (s t : Rows)
    → Later jobs s.jobs
    → Later jobs t.jobs
    → Later jobs (if b then s else t).jobs
Later-if true s t h k = h
Later-if false s t h k = k

Later-insert_job :
    (jobs : List Job) (kind : JobKind) (position : ℕ) (finding requested_by : Option ℕ) (s : Rows)
    → Later jobs s.jobs
    → Later jobs (insert_job kind position finding requested_by s).jobs
unfolding insert_job
Later-insert_job jobs kind position finding requested_by s h = Later.adds s.jobs _ h refl refl

Later-queue_replays :
    (jobs : List Job) (next : ℕ) (found : List ℕ) (s : Rows)
    → Later jobs s.jobs
    → Later jobs (queue_replays next found s).jobs
unfolding queue_replays
Later-queue_replays jobs next [] s h = h
Later-queue_replays jobs next (key ∷ found) s h =
    Later-queue_replays jobs (suc next) found (insert_job JobKind.replay next (some key) none s)
      (Later-insert_job jobs JobKind.replay next (some key) none s h)

Later-after_roles : (a : Around) (next : ℕ) (s : Rows) → Later s.jobs (after_roles a next s).jobs
unfolding after_roles
Later-after_roles a next s =
    let t : Rows = record s {
      run = record s.run { sign_up_seed = none };
      findings = (friction_to_check s).0;
    } in
    let defects = map key_of (reported_defects_of (friction_to_check s).0) in
    Later-if _ s _ Later.same (
      Later-if _ (insert_job JobKind.group next none none t)
        (queue_replays next (defects ++ (friction_to_check s).1) t)
        (Later-insert_job s.jobs JobKind.group next none none t Later.same)
        (Later-queue_replays s.jobs next (defects ++ (friction_to_check s).1) t Later.same))

Later-succeed :
    (next key : ℕ) (s : Rows) (found : Option FindingRow)
    → Later s.jobs (replay_next next (succeed key s found)).jobs
Later-succeed next key s none = Later.same
Later-succeed next key s (some successor) =
    Later-queue_replays s.jobs next (successor.key ∷ []) (succeed key s (some successor)).0
      Later.same

Later-hand_over :
    (next : ℕ) (finding : Option ℕ) (s : Rows) → Later s.jobs (hand_over next finding s).jobs
unfolding hand_over_to_next_report
Later-hand_over next none s = Later.same
Later-hand_over next (some key) s =
    Later-succeed next key s (find? (succeeds key) (defects_of s.findings))

Later-after_replay :
    (next : ℕ) (finding : Option ℕ) (result : JobResult) (s : Rows)
    → Later s.jobs (after_replay next finding result s).jobs
unfolding after_replay
Later-after_replay next finding result s =
    Later-if _ (insert_job JobKind.judge next finding none s) _
      (Later-insert_job s.jobs JobKind.judge next finding none s Later.same)
      (Later-if _ (hand_over next finding s) s (Later-hand_over next finding s) Later.same)

Later-after_job :
    (a : Around) (next : ℕ) (kind : JobKind) (finding : Option ℕ) (result : JobResult) (s : Rows)
    → Later s.jobs (after_job a next kind finding result s).jobs
unfolding after_job after_group join_reports mark_known_limits
Later-after_job a next JobKind.role_session finding result s = Later-after_roles a next s
Later-after_job a next JobKind.group finding result s =
    Later-queue_replays s.jobs next (reports_to_replay result s) (join_reports a result s)
      Later.same
Later-after_job a next JobKind.replay finding result s = Later-after_replay next finding result s
Later-after_job a next JobKind.triage finding result s = Later-if _ s _ Later.same Later.same
Later-after_job a next _ finding result s = Later.same

Later-close_run :
    (jobs : List Job) (a : Around) (next : ℕ) (kind : JobKind) (s : Rows)
    → Later jobs s.jobs
    → Later jobs (close_run a next kind s).jobs
unfolding close_run queue_triage finish_run
Later-close_run jobs a next kind s h =
    Later-if (any_open s.jobs) s _ h (Later-if (is_triage kind) (finish_run a s) _ h (triage _))
  where
    triage :
        (due : Bool)
        → Later jobs
            (or_finish a s
              (if due then (insert_job JobKind.triage next none none s, true) else (s, false))).jobs
    triage true = Later-insert_job jobs JobKind.triage next none none s h
    triage false = h

pub plan_next-Later :
    (a : Around) (kind : JobKind) (finding : Option ℕ) (result : JobResult) (s : Rows)
    → Later s.jobs (plan_next a kind finding result s).jobs
unfolding plan_next
plan_next-Later a kind finding result s =
    Later-close_run s.jobs a (next_position s.jobs) kind
      (after_job a (next_position s.jobs) kind finding result s)
      (Later-after_job a (next_position s.jobs) kind finding result s)

plan_unless-Later :
    (a : Around) (kind : JobKind) (finding : Option ℕ) (result : JobResult) (s : Rows)
    {r : Rows × Bool}
    → Stopped a s r
    → Later s.jobs (plan_unless a kind finding result r).jobs
unfolding end_run
plan_unless-Later a kind finding result s (goes_on active within) =
    plan_next-Later a kind finding result s
plan_unless-Later a kind finding result s (was_over over) = Later.same
plan_unless-Later a kind finding result s (is_ended end active over) =
    Later.sweeps a s.jobs Later.same

pub stop_or_plan-Later :
    (a : Around) (kind : JobKind) (finding : Option ℕ) (result : JobResult) (s : Rows)
    → Later s.jobs (stop_or_plan a kind finding result s).jobs
unfolding stop_or_plan
stop_or_plan-Later a kind finding result s =
    plan_unless-Later a kind finding result s (stop_if_over_limits-Stopped a s)

find?-swept :
    (a : Around) (hash : ℕ) (job : Job)
    → is_queued job.status ≡ false
    → (xs : List Job) → find? (λ (j : Job). is_at j.token_hash hash) xs ≡ some job
    → find?
        (λ (j : Job). is_at j.token_hash hash)
        (update (λ (j : Job). is_queued j.status) (cancel_job a) xs)
      ≡ some job
unfolding update
find?-swept a hash job over [] e = cc
find?-swept a hash job over (x ∷ xs) e = elim (Bool-cases (is_at x.token_hash hash)) [
  | inl has ↦
      let this : x ≡ job =
        ap (λ (o : Option Job). elim o [ none ↦ x | some j ↦ j ]) (rw has at e) in
      let runs : is_queued x.status ≡ false = ap (λ (j : Job). is_queued j.status) this ∙ over in
      rw (runs, has) (ap some this)
  | inr not_it ↦ elim (Bool-cases (is_queued x.status)) [
    | inl queued ↦ rw (queued, not_it) (find?-swept a hash job over xs (rw not_it at e))
    | inr runs ↦ rw (runs, not_it) (find?-swept a hash job over xs (rw not_it at e))
  ]
]

-- A job that holds a token and does not wait stays what it is.
pub find?-Later :
    (hash : ℕ) (jobs now : List Job) (job : Job)
    → Later jobs now
    → is_queued job.status ≡ false
    → find? (λ (j : Job). is_at j.token_hash hash) jobs ≡ some job
    → find? (λ (j : Job). is_at j.token_hash hash) now ≡ some job
find?-Later hash jobs now job Later.same over e = e
find?-Later hash jobs _ job (Later.adds now new h queued token) over e =
    append now (find?-Later hash jobs now job h over e)
  where
    append :
        (xs : List Job)
        → find? (λ (j : Job). is_at j.token_hash hash) xs ≡ some job
        → find? (λ (j : Job). is_at j.token_hash hash) (xs ++ new ∷ []) ≡ some job
    append [] e = cc
    append (x ∷ xs) e = ground (arith, append xs)
find?-Later hash jobs _ job (Later.sweeps a now h) over e =
    find?-swept a hash job over now (find?-Later hash jobs now job h over e)

-- A test that no job passes which does not run, passes of none that it did not before.
pub any-Later :
    (p : Job → Bool) (jobs now : List Job)
    → ((j : Job) → is_leased j.status ≡ false → p j ≡ false)
    → Later jobs now
    → any p jobs ≡ false
    → any p now ≡ false
any-Later p jobs now idle Later.same e = e
any-Later p jobs _ idle (Later.adds now new h queued token) e =
    ground (arith, any-append p now (new ∷ []), any-Later p jobs now idle h e, idle new)
any-Later p jobs _ idle (Later.sweeps a now h) e =
    any-update-none p (λ (j : Job). is_queued j.status) (cancel_job a) now
      (λ j f. ground (arith, idle (cancel_job a j))) (any-Later p jobs now idle h e)
