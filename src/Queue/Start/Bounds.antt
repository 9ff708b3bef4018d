-- ===== src/Queue/Start/Bounds.antt =====
-- How many runs are live at once, however they are started.
use mathlib.Core.Path.{subst}
use trawler.Base.{
  ℕ, suc, ◌+◌, ◌≤◌, ◌<◌, ◌≡◌, ◌⊎◌, inl, inr, ◌∙◌, refl, ap, arith, Bool, true, false, Option, none,
  some, List, [], ◌∷◌, ◌++◌, ◌&&◌, not, leb, ◌==◌, if◌then◌else◌, is_some, map, filter,
}
use trawler.Base.Rows.{count_if, count_if-append}
use trawler.Queue.Rows.{Rows, Around, CancelReason}
use trawler.Queue.Limits.{cancel_run}
use trawler.Queue.Pause.Stopped.{is_active-cancel_run}
use trawler.Queue.Start.{
  Entry, Workspace, StartRunOptions, RunRefused, max_live_own_runs, is_own, is_live,
  of_pull_request, entry_id, replaced_by, is_shared, shared_run_of, is_live_own, live_own_runs,
  superseded, supersede_earlier_runs, refusal_to_run, isolated, in_progress, or_else,
  refusal_to_start, refused_before, uses_first, first_used, new_run, refused, started, start_run,
}

-- A project has at most one live run of its own target, and the workspace at most five live runs in
-- its own network.
abbrev pub IsWithin : List Entry → Type 0
IsWithin runs =
    ((project : ℕ) → count_if (is_shared project) runs ≤ 1)
    × (count_if is_live_own runs ≤ max_live_own_runs)

cancelled_or_same :
    (b : Bool) (a : Around) (e : Entry)
    → let e' : Entry =
        (if b then record e { rows = (cancel_run a CancelReason.superseded e.rows).0 } else e) in
      (b ≡ true × (is_live e' ≡ false)) ⊎ (b ≡ false × (e' ≡ e))
cancelled_or_same true a e = inl (refl, is_active-cancel_run a CancelReason.superseded e.rows)
cancelled_or_same false a e = inr (refl, refl)

superseded_or_same :
    (a : Around) (o : StartRunOptions) (e : Entry)
    → (is_live (superseded a o e) ≡ false)
      ⊎ ((of_pull_request o.project_id o.pull_request e ≡ false) × (superseded a o e ≡ e))
superseded_or_same a o e =
    elim (cancelled_or_same (of_pull_request o.project_id o.pull_request e) a e) [
      | inl (taken, over) ↦ inl over
      | inr (left, same) ↦ inr (left, same)
    ]

of_pull_request-over :
    (project : ℕ) (key : Option ℕ) (e : Entry)
    → is_live e ≡ false
    → of_pull_request project key e ≡ false
of_pull_request-over project none e h = refl
of_pull_request-over project (some key) e h = ground arith

superseded-none :
    (a : Around) (o : StartRunOptions) (e : Entry)
    → of_pull_request o.project_id o.pull_request (superseded a o e) ≡ false
superseded-none a o e = elim (superseded_or_same a o e) [
  | inl over ↦ of_pull_request-over o.project_id o.pull_request (superseded a o e) over
  | inr (left, same) ↦ ap (of_pull_request o.project_id o.pull_request) same ∙ left
]

filter_round :
    (p : Entry → Bool) (e : Entry) (runs : List Entry)
    → p e ≡ false
    → filter p runs ≡ []
    → filter p (e ∷ runs) ≡ []
filter_round p e runs h k = ground (arith, h, k)

superseded-filter :
    (a : Around) (o : StartRunOptions) (runs : List Entry)
    → filter (of_pull_request o.project_id o.pull_request) (supersede_earlier_runs a o runs) ≡ []
unfolding supersede_earlier_runs
superseded-filter a o [] = refl
superseded-filter a o (e ∷ runs) =
    filter_round (of_pull_request o.project_id o.pull_request) (superseded a o e)
      (supersede_earlier_runs a o runs) (superseded-none a o e) (superseded-filter a o runs)

-- A test that only live runs pass holds of no more runs when some are superseded.
supersede-count :
    (p : Entry → Bool) (a : Around) (o : StartRunOptions) (runs : List Entry)
    → ((e : Entry) → is_live e ≡ false → p e ≡ false)
    → count_if p (supersede_earlier_runs a o runs) ≤ count_if p runs
unfolding supersede_earlier_runs count_if
supersede-count p a o [] live = omega arith
supersede-count p a o (e ∷ runs) live =
    let ih = supersede-count p a o runs live in
    elim (superseded_or_same a o e) [
      | inl over ↦ ground (arith, ih, live (superseded a o e) over)
      | inr (left, same) ↦ ground (arith, ih, ap p same)
    ]

shared-none :
    (project : ℕ) (runs : List Entry)
    → shared_run_of project [] runs ≡ none
    → count_if (is_shared project) runs ≡ 0
unfolding shared_run_of count_if
shared-none project [] h = refl
shared-none project (e ∷ runs) h = ground (arith, shared-none project runs)

own-count : (runs : List Entry) → live_own_runs [] runs ≡ count_if is_live_own runs
unfolding live_own_runs count_if
own-count [] = refl
own-count (e ∷ runs) = ground (arith, own-count runs)

-- What a start that is not refused has found.
record Free (o : StartRunOptions) (runs : List Entry) : Type 0 where
  pub shared_free : isolated o ≡ false → shared_run_of o.project_id [] runs ≡ none
  pub own_free : is_own o.execution ≡ true → live_own_runs [] runs < max_live_own_runs

free_round :
    (alone own full : Bool) (shared : Option Entry) (later : Option RunRefused)
    → or_else
        (if alone then none else in_progress shared)
        (if own && full then some RunRefused.too_many_own_runs else later)
      ≡ none
    → (alone ≡ false → shared ≡ none) × (own ≡ true → full ≡ false)
free_round true true true shared later h = cc
free_round true true false shared later h = (λ k. cc, λ k. refl)
free_round true false full shared later h = (λ k. cc, λ k. cc)
free_round false own full (some e) later h = cc
free_round false true true none later h = cc
free_round false true false none later h = (λ k. refl, λ k. refl)
free_round false false full none later h = (λ k. refl, λ k. cc)

refusal-Free :
    (a : Around) (o : StartRunOptions) (w : Workspace) (rows : Rows)
    → refusal_to_start a o w rows (supersede_earlier_runs a o w.runs) ≡ none
    → Free o (supersede_earlier_runs a o w.runs)
unfolding refusal_to_start replaced_by
refusal-Free a o w rows h =
    let runs = supersede_earlier_runs a o w.runs in
    let none_left : replaced_by o.project_id o.pull_request runs ≡ [] =
      ap (map entry_id) (superseded-filter a o w.runs) in
    let (alone, own) =
      free_round (isolated o) (is_own o.execution) (leb max_live_own_runs (live_own_runs [] runs))
        (shared_run_of o.project_id [] runs) (refusal_to_run a o w rows)
        (subst
          (λ replaced.
            or_else
              (if isolated o then none else in_progress (shared_run_of o.project_id replaced runs))
              (if is_own o.execution && leb max_live_own_runs (live_own_runs replaced runs)
                then some RunRefused.too_many_own_runs
                else refusal_to_run a o w rows)
            ≡ none)
          none_left h) in
    record { shared_free = alone; own_free = λ k. ground (arith, own k) }

or_else-none :
    (first second : Option RunRefused)
    → or_else first second ≡ none
    → (first ≡ none) × (second ≡ none)
or_else-none none second h = (refl, h)
or_else-none (some r) second h = cc

none_shared :
    (o : StartRunOptions) (runs : List Entry) (project : ℕ)
    → Free o runs
    → (o.project_id == project) ≡ true
    → is_some o.target_url ≡ false
    → count_if (is_shared project) runs ≡ 0
none_shared o runs project free here no_target =
    subst (λ k. count_if (is_shared k) runs ≡ 0) {x = o.project_id} (ground arith)
      (shared-none o.project_id runs (free.shared_free (ground arith)))

one_more_at_most :
    (here target : Bool) (n : ℕ)
    → n ≤ 1
    → (here ≡ true → target ≡ false → n ≡ 0)
    → n + (if here && not target then 1 else 0) ≤ 1
one_more_at_most true true n le free = omega arith
one_more_at_most true false n le free = omega (arith, free refl refl)
one_more_at_most false target n le free = omega arith

one_more_own :
    (own : Bool) (n : ℕ)
    → n ≤ max_live_own_runs
    → (own ≡ true → n < max_live_own_runs)
    → n + (if own then 1 else 0) ≤ max_live_own_runs
one_more_own true n le free = omega (arith, free refl)
one_more_own false n le free = omega arith

new-IsWithin :
    (o : StartRunOptions) (rows : Rows) (runs : List Entry)
    → Free o runs
    → IsWithin runs
    → IsWithin (runs ++ record { rows = new_run o rows; pull_request = o.pull_request } ∷ [])
unfolding count_if
new-IsWithin o rows runs free (shared, own) =
    let e : Entry = record { rows = new_run o rows; pull_request = o.pull_request } in
    (
      λ project. ground (
        arith,
        count_if-append (is_shared project) runs (e ∷ []),
        one_more_at_most (o.project_id == project) (is_some o.target_url)
            (count_if (is_shared project) runs) (shared project) (none_shared o runs project free),
      ),
      ground (
        arith,
        count_if-append is_live_own runs (e ∷ []),
        one_more_own (is_own o.execution) (count_if is_live_own runs) own
            (λ k. omega (arith, own-count runs, free.own_free k)),
      ),
    )

supersede-IsWithin :
    (a : Around) (o : StartRunOptions) (runs : List Entry)
    → IsWithin runs
    → IsWithin (supersede_earlier_runs a o runs)
supersede-IsWithin a o runs (shared, own) = (
  λ project. omega (
    arith,
    shared project,
    supersede-count (is_shared project) a o runs (λ e over. ground (arith, over)),
  ),
  omega (arith, own, supersede-count is_live_own a o runs (λ e over. ground (arith, over))),
)

start_round :
    (r : Option RunRefused) (late : Bool) (next w' : Workspace)
    → (elim r [
      | some why ↦ refused why
      | none ↦ if late then refused RunRefused.first_run_used else started next
    ])
      ≡ started w'
    → (r ≡ none) × (next ≡ w')
start_round (some why) late next w' h = cc
start_round none true next w' h = cc
start_round none false next w' h = (refl, cc)

-- If each project of a workspace has at most one live run of its own target, and at most five live
-- runs of the workspace are in its own network, then this is so after a run was started, whatever
-- run it is and whichever runs it superseded.
pub start_run-IsWithin :
    (a : Around) (o : StartRunOptions) (rows : Rows) (w w' : Workspace)
    → IsWithin w.runs
    → start_run a o rows w ≡ started w'
    → IsWithin w'.runs
unfolding start_run
start_run-IsWithin a o rows w w' within h =
    let runs = supersede_earlier_runs a o w.runs in
    let next : Workspace = record w {
      runs = runs ++ record { rows = new_run o rows; pull_request = o.pull_request } ∷ [];
      runs_today = suc w.runs_today;
    } in
    let (none_refused, same) =
      start_round (or_else (refused_before o) (refusal_to_start a o w rows runs))
        (uses_first o && first_used runs) next w' h in
    let (before, at_start) =
      or_else-none (refused_before o) (refusal_to_start a o w rows runs) none_refused in
    subst (λ w. IsWithin w.runs) same
      (new-IsWithin o rows runs (refusal-Free a o w rows at_start)
        (supersede-IsWithin a o w.runs within))
