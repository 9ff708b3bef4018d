-- ===== src/Queue/Claim.antt =====
-- How a runner gets a job (`claimOnce` and `claimJob` of queue.ts). A transaction is atomic here,
-- so no row is skipped because another transaction holds it.
pub mod Order
use trawler.Base.{
  ℕ, zero, suc, ◌+◌, ◌-◌, ◌*◌, min, Bool, true, false, Option, none, some, List, [], ◌∷◌, ◌++◌, map,
  not, ◌&&◌, ◌||◌, leb, ltb, ◌==◌, if◌then◌else◌, is_at, is_some, any, filter, find?, mem, length,
  get_elem?, take,
}
use trawler.Base.Rows.{update}
use trawler.Protocol.Types.{JobKind, StopReason, is_role_session, is_account_check, is_pr_plan}
use trawler.Protocol.Turns.{Turn, turns_of}
use trawler.Queue.Rows.{
  Rows, Run, Job, FindingRow, Around, RunStatus, JobStatus, JobError, Execution, minute,
  lease_minutes, is_active, is_queued, is_leased, is_open,
}
use trawler.Queue.Assign.{Assignment, prepare}
use trawler.Queue.Limits.{stop_if_over_limits}
use trawler.Queue.Plan.{gone}
use trawler.Queue.Jobs.{stop_or_plan, reap_expired_leases}
use trawler.Runs.{turn_steps, replay_steps}

-- `ClaimScope`: which runs a runner may work on.
pub record OwnScope : Type 0 where
  pub org_id : ℕ
  pub project_id : Option ℕ
  pub run_id : Option ℕ

pub data ClaimScope : Type 0 where
  hosted : ClaimScope
  own : OwnScope → ClaimScope

-- A run, and what its transactions read besides its rows.
pub record Entry : Type 0 where
  pub around : Around
  pub rows : Rows

abbrev any_or : Option ℕ → ℕ → Bool
any_or none x = true
any_or (some want) x = x == want

abbrev in_scope : ClaimScope → Run → Bool
in_scope hosted run = elim run.execution [ Execution.hosted ↦ true | Execution.own ↦ false ]
in_scope (own scope) run = elim run.execution [
  | Execution.hosted ↦ false
  | Execution.own ↦
      run.org_id == scope.org_id
      && any_or scope.project_id run.project_id
      && any_or scope.run_id run.id
      && (is_some scope.run_id || not run.target_override)
]

-- `is distinct from`
abbrev distinct : Option ℕ → Option ℕ → Bool
distinct none none = false
distinct none (some y) = true
distinct (some x) q = not (is_at q x)

-- Two role sessions of different people go side by side in a conversation.
abbrev together : Run → Job → Job → Bool
together run j busy =
    run.conversation
    && is_role_session j.kind
    && is_role_session busy.kind
    && distinct busy.persona_key j.persona_key

-- The `not exists` of the query: a job of the run that keeps `j` from being taken.
unfoldable pub is_busy : Run → Job → Job → Bool
is_busy run j busy =
    (is_leased busy.status && not (together run j busy))
    || (run.conversation
        && is_role_session j.kind
        && is_account_check busy.kind
        && is_queued busy.status)
    || (is_pr_plan busy.kind && is_open busy.status)

unfoldable pub is_claimable : ClaimScope → Entry → Job → Bool
unfolding is_busy
is_claimable scope e j =
    is_queued j.status
    && not (is_pr_plan j.kind)
    && not e.around.paused
    && in_scope scope e.rows.run
    && (is_active e.rows.run.status || is_some j.requested_by)
    && not (any (is_busy e.rows.run j) e.rows.jobs)

pub record Pick : Type 0 where
  pub entry : Entry
  pub job : Job

abbrev bit : Bool → ℕ
bit false = 0
bit true = 1

-- The four columns of `ORDER BY`, in order.
abbrev rank : Pick → List ℕ
rank p =
    bit (not (is_some p.entry.rows.run.started_at) || is_some p.job.requested_by)
    ∷ bit p.entry.around.free_plan
    ∷ p.entry.rows.run.created_at
    ∷ p.job.position
    ∷ []

unfoldable pub lex_le : List ℕ → List ℕ → Bool
lex_le [] ys = true
lex_le (x ∷ xs) [] = false
lex_le (x ∷ xs) (y ∷ ys) = ltb x y || (x == y && lex_le xs ys)

unfoldable pub picks_of : ClaimScope → Entry → List Pick
unfolding is_claimable
picks_of scope e =
    map (λ j. record { entry = e; job = j }) (filter (is_claimable scope e) e.rows.jobs)

unfoldable pub candidates : ClaimScope → List Entry → List Pick
unfolding picks_of
candidates scope [] = []
candidates scope (e ∷ entries) = picks_of scope e ++ candidates scope entries

abbrev better : Pick → Option Pick → Pick
better p none = p
better p (some q) = if lex_le (rank p) (rank q) then p else q

-- `ORDER BY … LIMIT 1`
unfoldable pub first_pick : List Pick → Option Pick
unfolding lex_le
first_pick [] = none
first_pick (p ∷ picks) = some (better p (first_pick picks))

pub data ClaimOutcome : Type 0 where
  assigned : Assignment → ClaimOutcome
  quarantined : ClaimOutcome

abbrev pub lease : Around → ℕ → Job → Job
lease a hash j = record j {
  status = JobStatus.leased;
  token_hash = some hash;
  lease_until = some (a.now + lease_minutes * minute);
  started_at = some a.now;
}

abbrev pub start_run : Around → Run → Run
start_run a run =
    if is_active run.status
    then record run {
      status = RunStatus.running;
      started_at = elim run.started_at [ none ↦ some a.now | some t ↦ some t ];
    }
    else run

unfoldable pub lease_job : Around → ℕ → Job → Rows → Rows
unfolding update
lease_job a hash job s = record s {
  jobs = update (λ (j : Job). j.id == job.id) (lease a hash) s.jobs;
  run = start_run a s.run;
}

abbrev pub not_prepared : Around → Job → Job
not_prepared a j = record j {
  status = JobStatus.failed;
  error = some JobError.not_prepared;
  token_hash = none;
  lease_until = none;
  finished_at = some a.now;
}

unfoldable pub fail_unprepared : Around → Job → Rows → Rows
unfolding update stop_or_plan
fail_unprepared a job s =
    stop_or_plan a job.kind job.finding_key gone
      (record s { jobs = update (λ (j : Job). j.id == job.id) (not_prepared a) s.jobs })

-- A leased job that could not be prepared is failed.
abbrev pub tell : Around → Job → Rows → Option Assignment → Rows × ClaimOutcome
tell a job s none = (fail_unprepared a job s, quarantined)
tell a job s (some told) = (s, assigned told)

abbrev pub lease_or_fail : Around → ℕ → Bool → Job → Rows → Rows × ClaimOutcome
lease_or_fail a hash loads job s = tell a job (lease_job a hash job s) (prepare loads s job)

abbrev pub claim_unless : Around → ℕ → Bool → Job → Rows × Bool → Rows × ClaimOutcome
claim_unless a hash loads job (s, stopped) =
    if stopped then (s, quarantined) else lease_or_fail a hash loads job s

-- The transaction of `claimOnce` on the job that it picked.
unfoldable pub claim_picked : Around → ℕ → Bool → Job → Rows → Rows × ClaimOutcome
unfolding stop_if_over_limits lease_job fail_unprepared prepare
claim_picked a hash loads job s =
    if is_active s.run.status
    then claim_unless a hash loads job (stop_if_over_limits a s)
    else lease_or_fail a hash loads job s

abbrev put_rows : Rows → List Entry → List Entry
put_rows rows = update (λ (e : Entry). e.rows.run.id == rows.run.id) (λ e. record e { rows = rows })

unfoldable pub claim_once : ClaimScope → ℕ → Bool → List Entry → List Entry × Option ClaimOutcome
unfolding candidates first_pick claim_picked update
claim_once scope hash loads entries = elim (first_pick (candidates scope entries)) [
  | none ↦ (entries, none)
  | some p ↦
      let (rows, outcome) = claim_picked p.entry.around hash loads p.job p.entry.rows in
      (put_rows rows entries, some outcome)
]

abbrev try_again :
    (List Entry → List Entry × Option Assignment)
    → List Entry × Option ClaimOutcome
    → List Entry × Option Assignment
try_again again (entries, none) = (entries, none)
try_again again (entries, some (assigned told)) = (entries, some told)
try_again again (entries, some quarantined) = again entries

-- The loop of `claimJob`; it gives up after so many attempts.
unfoldable pub claim_attempts :
    ℕ → ClaimScope → ℕ → Bool → List Entry → List Entry × Option Assignment
unfolding claim_once
claim_attempts zero scope hash loads entries = (entries, none)
claim_attempts (suc attempts) scope hash loads entries =
    try_again (claim_attempts attempts scope hash loads) (claim_once scope hash loads entries)

unfoldable pub claim_job :
    Bool → ClaimScope → ℕ → Bool → List Entry → List Entry × Option Assignment
unfolding claim_attempts reap_expired_leases
claim_job halted scope hash loads entries =
    let reaped =
      map (λ (e : Entry). record e { rows = reap_expired_leases e.around e.rows }) entries in
    if halted then (reaped, none) else claim_attempts 5 scope hash loads reaped
