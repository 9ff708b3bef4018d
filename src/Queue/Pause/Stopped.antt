-- ===== src/Queue/Pause/Stopped.antt =====
-- What stopping the live runs of a list leaves (`cancelLiveRuns` of runs.ts).
use trawler.Base.{
  ap, if◌then◌else◌, filter, Option, none, some, is_some, ◌-◌, sym, ◌∙◌, length, ◌||◌, ◌≡◌, refl, ℕ,
  ◌+◌, ◌≤◌, ◌≢◌, ◌⊎◌, suc, inl, inr, ◌==◌, filter, Bool, true, false, List, [], ◌∷◌, arith, any,
}
use trawler.Base.Rows.{count_if}
use trawler.Queue.Rows.{Rows, Around, CancelReason, is_active}
use trawler.Queue.Limits.{cancel_run, end_run, cancelled}
use trawler.Queue.Limits.Stops.{is_active-end_run}
use trawler.Queue.Pause.{
  to_cancel, is_live, cancel_live_runs, cancel_taken, Project, PauseOutcome, stopped, unconfirmed,
  live_runs, first_live, needs_confirming, pause_columns, pause_confirmed, pause_project,
  id_or_zero,
}

is_active-if :
    (b : Bool) (s e : Rows)
    → is_active s.run.status ≡ b
    → is_active e.run.status ≡ false
    → is_active (if◌then◌else◌ {A = Rows × Bool} b (e, true) (s, false)).0.run.status ≡ false
is_active-if true s e h over = over
is_active-if false s e h over = h

pub is_active-cancel_run :
    (a : Around) (reason : CancelReason) (s : Rows)
    → is_active (cancel_run a reason s).0.run.status ≡ false
unfolding cancel_run
is_active-cancel_run a reason s =
    is_active-if (is_active s.run.status) s (end_run a (cancelled reason) s) refl
      (is_active-end_run a (cancelled reason) s)

cancel_run-counts :
    (a : Around) (reason : CancelReason) (s : Rows)
    → is_active s.run.status ≡ true
    → (cancel_run a reason s).1 ≡ true
unfolding cancel_run
cancel_run-counts a reason s live = rw live refl

to_cancel-if :
    (b : Bool) (reason : CancelReason) (s : Rows) (r : Rows × Bool)
    → to_cancel reason s ≡ b
    → is_active r.0.run.status ≡ false
    → to_cancel reason (if◌then◌else◌ {A = Rows × Bool} b r (s, false)).0 ≡ false
to_cancel-if true reason s r h over = rw over refl
to_cancel-if false reason s r h over = h

cancel_taken-none :
    (a : Around) (reason : CancelReason) (s : Rows)
    → to_cancel reason (cancel_taken a reason s).0 ≡ false
unfolding cancel_taken
cancel_taken-none a reason s =
    to_cancel-if (to_cancel reason s) reason s (cancel_run a reason s) refl
      (is_active-cancel_run a reason s)

cancel_taken-counts :
    (a : Around) (reason : CancelReason) (s : Rows)
    → (cancel_taken a reason s).1 ≡ to_cancel reason s
unfolding cancel_taken
cancel_taken-counts a reason s = ground (arith, cancel_run-counts a reason s)

-- For every reason and list of runs, `cancel_live_runs` leaves no live run that the reason
-- concerns, and the number that it returns is the number of such runs that it found.
pub cancel_live_runs-none :
    (a : Around) (reason : CancelReason) (runs : List Rows)
    → (any (to_cancel reason) (cancel_live_runs a reason runs).0 ≡ false)
      × ((cancel_live_runs a reason runs).1 ≡ count_if (to_cancel reason) runs)
unfolding cancel_live_runs count_if
cancel_live_runs-none a reason [] = (refl, refl)
cancel_live_runs-none a reason (s ∷ runs) =
    let (none_left, counted) = cancel_live_runs-none a reason runs in
    (ground (arith, cancel_taken-none a reason s), ground (arith, cancel_taken-counts a reason s))

-- What a pause of a project did, by its answer and the run that was confirmed: it waits if there is
-- a live run and the first one is not the run that was confirmed.
abbrev pub PauseEnds : Option ℕ → Project → Option (Project × PauseOutcome) → Type 0
PauseEnds confirmed p none = 1 ≤ 0
PauseEnds confirmed p (some (p', unconfirmed first more)) =
    (p' ≡ p)
    × (first_live (live_runs p.runs) ≡ some first)
    × (confirmed ≢ some first)
    × (suc more ≡ count_if is_live p.runs)
PauseEnds confirmed p (some (p', stopped first also)) =
    ((first_live (live_runs p.runs) ≡ none) ⊎ (first_live (live_runs p.runs) ≡ confirmed))
    × (first ≡ first_live (live_runs p.runs))
    × (is_some p'.paused_at ≡ true)
    × (any is_live p'.runs ≡ false)
    × (also + (if is_some first then 1 else 0) ≡ count_if is_live p.runs)

to_cancel-paused : (runs : List Rows) → any (to_cancel CancelReason.paused) runs ≡ any is_live runs
to_cancel-paused [] = refl
to_cancel-paused (s ∷ runs) = ground (arith, to_cancel-paused runs)

count-paused :
    (runs : List Rows) → count_if (to_cancel CancelReason.paused) runs ≡ count_if is_live runs
unfolding count_if
count-paused [] = refl
count-paused (s ∷ runs) = ground (arith, count-paused runs)

any-count : (runs : List Rows) → any is_live runs ≡ true → 1 ≤ count_if is_live runs
unfolding count_if
any-count [] h = cc
any-count (s ∷ runs) h = ground (arith, any-count runs)

first_live-if :
    (b t : Bool) (s : Rows) (runs : List Rows)
    → is_some (first_live runs) ≡ t
    → is_some (first_live (if b then s ∷ runs else runs)) ≡ (b || t)
first_live-if true t s runs h = refl
first_live-if false t s runs h = h

first_live-any : (runs : List Rows) → is_some (first_live (filter is_live runs)) ≡ any is_live runs
first_live-any [] = refl
first_live-any (s ∷ runs) =
    first_live-if (is_live s) (any is_live runs) s (filter is_live runs) (first_live-any runs)

is_paused-pause_columns :
    (a : Around) (user : ℕ) (p : Project) → is_some (pause_columns a user p).paused_at ≡ true
is_paused-pause_columns a user p = refl

length-live : (runs : List Rows) → length (filter is_live runs) ≡ count_if is_live runs
unfolding count_if
length-live [] = refl
length-live (s ∷ runs) = ground (arith, length-live runs)

pause_count :
    (first : Option ℕ) (n_stopped : ℕ) (runs : List Rows)
    → n_stopped ≡ count_if is_live runs
    → is_some first ≡ any is_live runs
    → n_stopped - (if is_some first then 1 else 0) + (if is_some first then 1 else 0)
      ≡ count_if is_live runs
pause_count none n_stopped runs e live = omega (arith, e)
pause_count (some id) n_stopped runs e live = omega (arith, e, any-count runs (sym live))

pause_confirmed-PauseEnds :
    (a : Around) (user : ℕ) (confirmed first : Option ℕ) (p : Project)
    → first_live (live_runs p.runs) ≡ first
    → (first ≡ none) ⊎ (first ≡ confirmed)
    → PauseEnds confirmed p (some (pause_confirmed a user p first))
unfolding live_runs
pause_confirmed-PauseEnds a user confirmed first p e why =
    let (none_left, counted) = cancel_live_runs-none a CancelReason.paused p.runs in
    (
      elim why [ inl over ↦ inl (e ∙ over) | inr asked ↦ inr (e ∙ asked) ],
      sym e,
      is_paused-pause_columns a user p,
      sym (to_cancel-paused (cancel_live_runs a CancelReason.paused p.runs).0) ∙ none_left,
      pause_count first (cancel_live_runs a CancelReason.paused p.runs).1 p.runs
          (counted ∙ count-paused p.runs) (ap is_some (sym e) ∙ first_live-any p.runs),
    )

waiting-PauseEnds :
    (confirmed : Option ℕ) (first : ℕ) (p : Project)
    → first_live (live_runs p.runs) ≡ some first
    → confirmed ≢ some first
    → PauseEnds confirmed p (some (p, unconfirmed first (length (live_runs p.runs) - 1)))
unfolding live_runs
waiting-PauseEnds confirmed first p e other = (
  refl,
  e,
  other,
  omega (arith, length-live p.runs, any-count p.runs (sym (first_live-any p.runs) ∙ ap is_some e)),
)

confirmed-PauseEnds :
    (same : Bool) (a : Around) (user first id : ℕ) (p : Project)
    → first_live (live_runs p.runs) ≡ some first
    → (first == id) ≡ same
    → PauseEnds (some id) p (
        some (
          if (if same then false else true)
          then (p, unconfirmed first (length (live_runs p.runs) - 1))
          else pause_confirmed a user p (some first)))
confirmed-PauseEnds true a user first id p e same =
    pause_confirmed-PauseEnds a user (some id) (some first) p e
      (inr (ap (λ n. some n) (ground arith)))
confirmed-PauseEnds false a user first id p e other =
    waiting-PauseEnds (some id) first p e (λ h. some_other first id other h)
  where
    some_other :
        (first id : ℕ) → (first == id) ≡ false → ◌≡◌ {A = Option ℕ} (some id) (some first) → ⊥
    some_other first id other h = ground arith

pause_round :
    (first confirmed : Option ℕ) (a : Around) (user : ℕ) (p : Project)
    → first_live (live_runs p.runs) ≡ first
    → PauseEnds confirmed p (
        some (
          if needs_confirming first confirmed
          then (p, unconfirmed (id_or_zero first) (length (live_runs p.runs) - 1))
          else pause_confirmed a user p first))
pause_round none confirmed a user p e =
    pause_confirmed-PauseEnds a user confirmed none p e (inl refl)
pause_round (some first) none a user p e = waiting-PauseEnds none first p e (λ h. cc)
pause_round (some first) (some id) a user p e =
    confirmed-PauseEnds (first == id) a user first id p e refl

-- A pause of a project that exists waits for a confirmation only if the project has a live run and
-- the first of them is not the run that was confirmed: then it changes nothing, and names that run
-- and the number of the others. Otherwise no run is live or the first one was confirmed: then the
-- project is paused, none of its runs is live, and the runs that the answer names and counts as
-- stopped are all of those that were live.
pub pause_project-PauseEnds :
    (a : Around) (user : ℕ) (confirmed : Option ℕ) (p : Project)
    → PauseEnds confirmed p (pause_project a user confirmed (some p))
unfolding pause_project
pause_project-PauseEnds a user confirmed p =
    pause_round (first_live (live_runs p.runs)) confirmed a user p refl
