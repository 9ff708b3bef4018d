-- ===== src/Queue/Pause.antt =====
-- Stopping what runs: the live runs of a workspace, and of a project that is paused (`liveRuns`,
-- `cancelLiveRuns`, `pauseProject`, `resumeProject` of runs.ts). The rows of each run stand in a
-- list, in the order of `liveRuns`.
pub mod Stopped
use trawler.Base.{
  ℕ, suc, ◌+◌, ◌-◌, Bool, true, false, Option, none, some, List, [], ◌∷◌, ◌&&◌, ◌==◌, if◌then◌else◌,
  is_at, is_some, filter, length, mem,
}
use trawler.Queue.Rows.{Rows, Around, CancelReason, is_active}
use trawler.Queue.Limits.{cancel_run, paid_by_workspace}

-- The columns of `projects`, and the rows of the project's runs.
pub record Project : Type 0 where
  pub paused_at : Option ℕ
  pub paused_by : Option ℕ
  pub runs : List Rows

-- What a pause answers: the run that it stopped and how many besides, or the live run that it
-- waits for a confirmation of and how many there are besides.
pub data PauseOutcome : Type 0 where
  stopped : Option ℕ → ℕ → PauseOutcome
  unconfirmed : ℕ → ℕ → PauseOutcome

abbrev pub is_live : Rows → Bool
is_live s = is_active s.run.status

abbrev run_id : Rows → ℕ
run_id s = s.run.id

unfoldable pub live_runs : List Rows → List Rows
live_runs = filter is_live

-- `$if(reason === "key_removed", …)`: a run that the workspace does not pay for needs no key.
abbrev pub concerns : CancelReason → Rows → Bool
concerns CancelReason.key_removed s = paid_by_workspace s.run.paid_by
concerns _ s = true

abbrev pub to_cancel : CancelReason → Rows → Bool
to_cancel reason s = is_live s && concerns reason s

-- One run of the loop: the query takes it, or leaves it as it is.
unfoldable pub cancel_taken : Around → CancelReason → Rows → Rows × Bool
cancel_taken a reason s = if to_cancel reason s then cancel_run a reason s else (s, false)

-- The runs, and how many of them were cancelled.
unfoldable pub cancel_live_runs : Around → CancelReason → List Rows → List Rows × ℕ
cancel_live_runs a reason [] = ([], 0)
cancel_live_runs a reason (s ∷ runs) =
    let (s', is_cancelled) = cancel_taken a reason s in
    let (runs', cancelled) = cancel_live_runs a reason runs in
    (s' ∷ runs', if is_cancelled then suc cancelled else cancelled)

abbrev pub first_live : List Rows → Option ℕ
first_live [] = none
first_live (s ∷ runs) = some s.run.id

-- Whether the pause waits for a confirmation: of the first live run, by its id.
abbrev pub needs_confirming : Option ℕ → Option ℕ → Bool
needs_confirming none confirmed = false
needs_confirming (some first) none = true
needs_confirming (some first) (some id) = if first == id then false else true

abbrev pause_columns : Around → ℕ → Project → Project
pause_columns a user p = record p {
  paused_at = some (elim p.paused_at [ none ↦ a.now | some at ↦ at ]);
  paused_by = elim p.paused_at [ none ↦ some user | some at ↦ p.paused_by ];
}

abbrev pub pause_confirmed : Around → ℕ → Project → Option ℕ → Project × PauseOutcome
pause_confirmed a user p first =
    let (runs', cancelled) = cancel_live_runs a CancelReason.paused p.runs in
    (
      record (pause_columns a user p) { runs = runs' },
      stopped first (cancelled - (if is_some first then 1 else 0)),
    )

abbrev pub id_or_zero : Option ℕ → ℕ
id_or_zero none = 0
id_or_zero (some id) = id

-- No project is the exception `ProjectNotFound`.
unfoldable pub pause_project :
    Around → ℕ → Option ℕ → Option Project → Option (Project × PauseOutcome)
pause_project a user confirmed none = none
pause_project a user confirmed (some p) =
    let live = live_runs p.runs in
    let first = first_live live in
    some (
      if needs_confirming first confirmed
      then (p, unconfirmed (id_or_zero first) (length live - 1))
      else pause_confirmed a user p first)

unfoldable pub resume_project : Option Project → Option Project
resume_project none = none
resume_project (some p) = some (record p { paused_at = none; paused_by = none })
