-- ===== src/Queue/Plan.antt =====
-- What follows when a job of a run is over (`planNext` of queue.ts): the next jobs, or the run's end.
pub mod Ends
pub mod Later
use trawler.Base.{
  ℕ, zero, suc, ◌+◌, Bool, true, false, Option, none, some, List, [], ◌∷◌, ◌++◌, map, not, ◌&&◌,
  ◌||◌, leb, ◌==◌, if◌then◌else◌, is_some, any, all, filter, length,
}
use trawler.Base.Rows.{update}
use trawler.Protocol.Types.{
  JobKind, StopReason, FindingKind, Observation, is_role_session, is_triage, is_error,
}
use trawler.Protocol.Groups.{settle_groups}
use trawler.Queue.Rows.{
  Rows, Run, Job, FindingRow, Around, RunStatus, JobStatus, is_active, is_open, any_open,
  next_position,
}
use trawler.Queue.Limits.{give_back_unused_first_run}
use trawler.Queue.Findings.{
  key_of, defects_of, reported_defects_of, friction_to_check, confirmed_of, mark_known_limits,
  mark_known_not_bugs, first_reported, join_groups, head_is, matches_of, hand_over_to_next_report,
}

abbrev pub max_grouped_defects : ℕ
max_grouped_defects = 60

-- `JobResult`, and the answer of an account check.
pub record JobResult : Type 0 where
  pub stopped_by : StopReason
  pub error : Option ℕ
  pub observation : Option Observation
  pub refused : Option ℕ
  pub groups : Option (List (List ℕ))
  pub known_not_bugs : List (ℕ × Option (ℕ × ℕ))
  pub known_limits : List (ℕ × ℕ)

-- The result that the queue plans with when a runner stopped answering.
abbrev pub gone : JobResult
gone = record {
  stopped_by = StopReason.error;
  error = none;
  observation = none;
  refused = none;
  groups = none;
  known_not_bugs = [];
  known_limits = [];
}

-- `INSERT INTO jobs`, with the defaults of the table.
unfoldable pub new_job : ℕ → JobKind → ℕ → Option ℕ → Option ℕ → Job
new_job id kind position finding_key requested_by = record {
  id = id;
  kind = kind;
  position = position;
  status = JobStatus.queued;
  persona_key = none;
  finding_key = finding_key;
  account_ref = none;
  token_hash = none;
  lease_until = none;
  requested_by = requested_by;
  stopped_by = none;
  error = none;
  counted_cost = 0;
  started_at = none;
  finished_at = none;
}

unfoldable pub insert_job : JobKind → ℕ → Option ℕ → Option ℕ → Rows → Rows
unfolding new_job
insert_job kind position finding_key requested_by s = record s {
  jobs = s.jobs ++ new_job s.next_job kind position finding_key requested_by ∷ [];
  next_job = suc s.next_job;
}

-- One replay for each key, at positions from `next` on.
unfoldable pub queue_replays : ℕ → List ℕ → Rows → Rows
unfolding insert_job
queue_replays next [] s = s
queue_replays next (key ∷ keys) s =
    queue_replays (suc next) keys (insert_job JobKind.replay next (some key) none s)

unfoldable pub queue_triage : ℕ → Rows → Rows × Bool
unfolding insert_job confirmed_of
queue_triage next s =
    if is_active s.run.status
      && is_some s.run.config_snapshot.setup
      && leb 1 (length (confirmed_of s))
    then (insert_job JobKind.triage next none none s, true)
    else (s, false)

-- `!o || (!o.completed && o.blockedAt === null && !o.botProtection)`
abbrev pub no_report : Option Observation → Bool
no_report none = true
no_report (some o) = not o.completed && not (is_some o.blocked_at) && not o.bot_protection

abbrev pub roles_left : List Job → Bool
roles_left = any (λ j. is_role_session j.kind && is_open j.status)

-- After the last role session: group what was reported, or replay it at once.
unfoldable pub after_roles : Around → ℕ → Rows → Rows
unfolding friction_to_check reported_defects_of queue_replays insert_job
after_roles a next s =
    if roles_left s.jobs
    then s
    else let (findings, candidates) = friction_to_check s in
      let s' : Rows = record s {
        run = record s.run { sign_up_seed = none };
        findings = findings;
      } in
      let defects = map key_of (reported_defects_of findings) in
      let check_known = length defects == 1 && a.has_not_bugs in
      if (leb 2 (length defects) || check_known) && leb (length defects) max_grouped_defects
      then insert_job JobKind.group next none none s'
      else queue_replays next (defects ++ candidates) s'

abbrev is_friction : Option FindingKind → Bool
is_friction (some FindingKind.friction) = true
is_friction _ = false

abbrev settled_keys : List ℕ → JobResult → List (List ℕ)
settled_keys keys result = elim result.groups [
  | none ↦ map (λ key. key ∷ []) keys
  | some groups ↦
      if is_error result.stopped_by then map (λ key. key ∷ []) keys else settle_groups keys groups
]

abbrev groups_of : JobResult → Rows → List (List ℕ)
groups_of result s =
    let keys = map key_of (reported_defects_of s.findings) in
    first_reported keys (settled_keys keys result)

-- The findings joined by the groups, and the reports that the team marked not a bug before.
unfoldable pub join_reports : Around → JobResult → Rows → Rows
unfolding reported_defects_of settle_groups first_reported join_groups mark_known_not_bugs
join_reports a result s =
    let groups = groups_of result s in
    record s {
      findings = join_groups groups s.findings;
      dismissals =
          if is_error result.stopped_by
          then s.dismissals
          else mark_known_not_bugs a s.run (matches_of groups result.known_not_bugs) s.dismissals;
    }

-- The first report of each group, and each friction that is checked.
unfoldable pub reports_to_replay : JobResult → Rows → List ℕ
unfolding reported_defects_of settle_groups first_reported defects_of join_groups
reports_to_replay result s =
    let groups = groups_of result s in
    filter (λ key. any (head_is key) groups) (map key_of (reported_defects_of s.findings))
    ++ map key_of
        (filter (λ f. is_friction f.filed_as) (defects_of (join_groups groups s.findings)))

unfoldable pub after_group : Around → ℕ → JobResult → Rows → Rows
unfolding join_reports reports_to_replay queue_replays
after_group a next result s =
    queue_replays next (reports_to_replay result s) (join_reports a result s)

abbrev pub replay_next : ℕ → Rows × Option ℕ → Rows
replay_next next (s, none) = s
replay_next next (s, some key) = queue_replays next (key ∷ []) s

abbrev pub hand_over : ℕ → Option ℕ → Rows → Rows
hand_over next none s = s
hand_over next (some key) s = replay_next next (hand_over_to_next_report key s)

-- After a replay: its judge, or the replay of the next report of the same defect.
unfoldable pub after_replay : ℕ → Option ℕ → JobResult → Rows → Rows
unfolding insert_job hand_over_to_next_report queue_replays
after_replay next finding_key result s =
    if not (no_report result.observation)
    then insert_job JobKind.judge next finding_key none s
    else if is_some result.observation && not (is_error result.stopped_by)
    then hand_over next finding_key s
    else s

unfoldable pub after_job : Around → ℕ → JobKind → Option ℕ → JobResult → Rows → Rows
unfolding after_roles after_group after_replay mark_known_limits
after_job a next JobKind.role_session finding_key result s = after_roles a next s
after_job a next JobKind.group finding_key result s = after_group a next result s
after_job a next JobKind.replay finding_key result s = after_replay next finding_key result s
after_job a next JobKind.triage finding_key result s =
    if is_error result.stopped_by then s else mark_known_limits result.known_limits s
after_job a next _ finding_key result s = s

abbrev is_failed_job : JobStatus → Bool
is_failed_job JobStatus.failed = true
is_failed_job _ = false

-- `roles.length > 0 && roles.every((r) => r.status === "failed")`
abbrev pub all_roles_failed : List Job → Bool
all_roles_failed jobs =
    let roles = filter (λ (j : Job). is_role_session j.kind) jobs in
    leb 1 (length roles) && all (λ (j : Job). is_failed_job j.status) roles

-- `UPDATE runs … WHERE status IN ACTIVE`, and the unused first run.
unfoldable pub finish_run : Around → Rows → Rows
unfolding give_back_unused_first_run
finish_run a s =
    let end : RunStatus =
      if all_roles_failed s.jobs then RunStatus.failed else RunStatus.succeeded in
    record s {
      run =
          if is_active s.run.status
          then record s.run { status = end; finished_at = some a.now }
          else s.run;
      first_run = give_back_unused_first_run s.first_run;
    }

abbrev pub or_finish : Around → Rows → Rows × Bool → Rows
or_finish a s (s', true) = s'
or_finish a s (s', false) = finish_run a s

-- The end of `planNext`: with no job open, a triage if one is due, else the run is over.
unfoldable pub close_run : Around → ℕ → JobKind → Rows → Rows
unfolding queue_triage finish_run
close_run a next kind s =
    if any_open s.jobs
    then s
    else if is_triage kind
    then finish_run a s
    else or_finish a s (queue_triage next s)

unfoldable pub plan_next : Around → JobKind → Option ℕ → JobResult → Rows → Rows
unfolding after_job close_run
plan_next a kind finding_key result s =
    let next = next_position s.jobs in
    close_run a next kind (after_job a next kind finding_key result s)
