-- ===== src/Queue/Start.antt =====
-- Starting a run (`startRun`, `refusalToStart`, `refusalToRun`, `supersedeEarlierRuns` of runs.ts).
-- The runs of the workspace stand in a list in the order of their numbers, each with the key of its
-- pull request (`prKey`: the repository and the number). The rows of the new run come with its
-- snapshot, its prices and its jobs; the columns that a start decides on are set here.
pub mod Bounds
use trawler.Base.{
  ℕ, suc, ◌+◌, Bool, true, false, Option, none, some, List, [], ◌∷◌, ◌++◌, ◌&&◌, ◌||◌, not, leb,
  ltb, ◌==◌, if◌then◌else◌, is_some, is_at, map, filter, find?, length, mem, any,
}
use trawler.Queue.Rows.{
  Rows, Run, Around, Execution, RunStatus, CancelReason, PaidBy, FirstRun, is_active,
}
use trawler.Queue.Limits.{cancel_run, budget_left, paid_by_workspace}

-- `MAX_LIVE_OWN_RUNS`, `FIRST_RUN_ON_US.maxPeople`
abbrev pub max_live_own_runs : ℕ
max_live_own_runs = 5

abbrev pub first_run_max_people : ℕ
first_run_max_people = 4

pub record Entry : Type 0 where
  pub rows : Rows
  pub pull_request : Option ℕ

-- `runs_today` and `people` are counted by the queries of `runsToday` and `peopleOn`. The
-- workspace's row in `first_runs_on_us`, if it has one, stands with the run that it names.
pub record Workspace : Type 0 where
  pub runs : List Entry
  pub runs_today : ℕ
  pub runs_per_day : Option ℕ
  pub people_allowed : ℕ

-- `StartRunOptions`, with what is read of the plan: the person who signs in without an account, how
-- many people the plan has, and how many its configuration has.
pub record StartRunOptions : Type 0 where
  pub project_id : ℕ
  pub execution : Execution
  pub target_url : Option ℕ
  pub pull_request : Option ℕ
  pub paid_by : PaidBy
  pub uses_first_run_on_us : Bool
  pub provides_accounts : Bool
  pub without_account : Option ℕ
  pub people : ℕ
  pub personas : ℕ

pub data RunRefused : Type 0 where
  target_override provided_accounts too_many_own_runs halted paused runs_per_day
        workspace_budget_spent first_run_used :
      RunRefused
  needs_account too_many_people too_many_for_first_run run_in_progress : ℕ → RunRefused

abbrev pub is_own : Execution → Bool
is_own Execution.own = true
is_own Execution.hosted = false

abbrev pub is_live : Entry → Bool
is_live e = is_active e.rows.run.status

abbrev pub is_live_in : ℕ → Entry → Bool
is_live_in project e = is_live e && e.rows.run.project_id == project

abbrev pub of_pull_request : ℕ → Option ℕ → Entry → Bool
of_pull_request project none e = false
of_pull_request project (some key) e = is_live_in project e && is_at e.pull_request key

abbrev pub entry_id : Entry → ℕ
entry_id e = e.rows.run.id

unfoldable pub replaced_by : ℕ → Option ℕ → List Entry → List ℕ
replaced_by project key runs = map entry_id (filter (of_pull_request project key) runs)

-- A run of the project's own target.
abbrev pub is_shared : ℕ → Entry → Bool
is_shared project e = is_live_in project e && not e.rows.run.target_override

unfoldable pub shared_run_of : ℕ → List ℕ → List Entry → Option Entry
shared_run_of project except runs =
    find? (λ (e : Entry). is_shared project e && not (mem (entry_id e) except)) runs

abbrev pub is_live_own : Entry → Bool
is_live_own e = is_live e && is_own e.rows.run.execution

unfoldable pub live_own_runs : List ℕ → List Entry → ℕ
live_own_runs except runs =
    length (filter (λ (e : Entry). is_live_own e && not (mem (entry_id e) except)) runs)

abbrev pub superseded : Around → StartRunOptions → Entry → Entry
superseded a o e =
    if of_pull_request o.project_id o.pull_request e
    then record e { rows = (cancel_run a CancelReason.superseded e.rows).0 }
    else e

unfoldable pub supersede_earlier_runs : Around → StartRunOptions → List Entry → List Entry
supersede_earlier_runs a o [] = []
supersede_earlier_runs a o (e ∷ runs) = superseded a o e ∷ supersede_earlier_runs a o runs

abbrev pub reaches : ℕ → Option ℕ → Bool
reaches n none = false
reaches n (some most) = leb most n

-- Less than a cent.
abbrev pub below_cent : Option ℕ → Bool
below_cent none = false
below_cent (some left) = ltb left 10000

unfoldable pub refusal_to_run : Around → StartRunOptions → Workspace → Rows → Option RunRefused
unfolding budget_left
refusal_to_run a o w rows =
    if a.halted
    then some halted
    else if a.paused
    then some paused
    else if reaches w.runs_today w.runs_per_day
    then some runs_per_day
    else if paid_by_workspace o.paid_by && below_cent (budget_left a rows.usage)
    then some workspace_budget_spent
    else if ltb w.people_allowed o.people
    then some (too_many_people o.people)
    else none

abbrev pub isolated : StartRunOptions → Bool
isolated o = is_own o.execution && is_some o.target_url

abbrev pub in_progress : Option Entry → Option RunRefused
in_progress none = none
in_progress (some e) = some (run_in_progress (entry_id e))

abbrev pub or_else : Option RunRefused → Option RunRefused → Option RunRefused
or_else none r = r
or_else (some r) _ = some r

unfoldable pub refusal_to_start :
    Around → StartRunOptions → Workspace → Rows → List Entry → Option RunRefused
unfolding refusal_to_run shared_run_of live_own_runs replaced_by
refusal_to_start a o w rows runs =
    let replaced = replaced_by o.project_id o.pull_request runs in
    or_else (if isolated o then none else in_progress (shared_run_of o.project_id replaced runs)) (
      if is_own o.execution && leb max_live_own_runs (live_own_runs replaced runs)
      then some too_many_own_runs
      else refusal_to_run a o w rows)

-- `usesFirstRunOnUs`
abbrev pub uses_first : StartRunOptions → Bool
uses_first o = not (paid_by_workspace o.paid_by) && o.uses_first_run_on_us

-- What is refused before anything is locked.
unfoldable pub refused_before : StartRunOptions → Option RunRefused
refused_before o =
    if is_some o.target_url && not (is_own o.execution)
    then some target_override
    else if o.provides_accounts && not (is_own o.execution)
    then some provided_accounts
    else elim o.without_account [
      | some person ↦ some (needs_account person)
      | none ↦
          if uses_first o && ltb first_run_max_people o.personas
          then some (too_many_for_first_run o.personas)
          else none
    ]

-- Whether the workspace has used its first run: what the insert of `first_runs_on_us` runs into.
abbrev pub first_used : List Entry → Bool
first_used = any (λ (e : Entry). is_some e.rows.first_run)

abbrev pub new_run : StartRunOptions → Rows → Rows
new_run o rows = record rows {
  run = record rows.run {
    project_id = o.project_id;
    status = RunStatus.queued;
    execution = o.execution;
    target_override = is_some o.target_url;
    paid_by = o.paid_by;
    cost_usd = 0;
    tokens_used = 0;
    started_at = none;
    finished_at = none;
    cancel_reason = none;
  };
  first_run = if uses_first o then some (record { model_called_at = none }) else none;
}

pub data Start : Type 0 where
  refused : RunRefused → Start
  started : Workspace → Start

-- A refusal rolls back, the runs that were superseded too. A run that is superseded before its model
-- was called gives the first run back, and the new one may take it.
unfoldable pub start_run : Around → StartRunOptions → Rows → Workspace → Start
unfolding refused_before supersede_earlier_runs refusal_to_start
start_run a o rows w =
    let runs = supersede_earlier_runs a o w.runs in
    elim (or_else (refused_before o) (refusal_to_start a o w rows runs)) [
      | some r ↦ refused r
      | none ↦
          if uses_first o && first_used runs
          then refused first_run_used
          else started (record w {
            runs = runs ++ record { rows = new_run o rows; pull_request = o.pull_request } ∷ [];
            runs_today = suc w.runs_today;
          })
    ]
