-- ===== src/Mcp/Limits/Fits.antt =====
-- A start that is not refused fits the limits, and a refusal names a time when the start fits.
use mathlib.Core.Path.{subst}
use trawler.Base.{
  ℕ, zero, suc, ◌+◌, ◌-◌, ◌≤◌, ◌<◌, ◌≡◌, ◌∙◌, ap, refl, true, false, Option, none, some, List, [],
  ◌∷◌, ◌++◌, leb, ltb, is_some, length, length-append, get_elem?, arith, Bool-cases, inl, inr,
}
use trawler.Mcp.Limits.{
  SpendLimit, WindowRun, held, leaves_at, spent_usd, runs_free_at, spend_free_from, spend_free_at,
  SpendLimitReached, runs_used, cap_too_high, spend_used, refusal_for,
}

-- The run that a start with this cap adds.
abbrev pub started : ℕ → ℕ → WindowRun
started now cap_usd = record {
  started_at = now;
  live = true;
  unpriced = false;
  budget_usd = cap_usd;
  cost_usd = 0;
}

spent_usd-append : (xs ys : List WindowRun) → spent_usd (xs ++ ys) ≡ spent_usd xs + spent_usd ys
unfolding spent_usd
spent_usd-append [] ys = omega arith
spent_usd-append (x ∷ xs) ys = omega (arith, spent_usd-append xs ys)

-- A start that is not refused keeps the connection within its number of runs, and within its
-- spending up to the rounding of a nano-dollar.
pub refusal_for-fits :
    (runs : List WindowRun) (limit : SpendLimit) (cap_usd now : ℕ)
    → refusal_for runs limit cap_usd ≡ none
    → (length (runs ++ started now cap_usd ∷ []) ≤ limit.runs_per_day)
      × (spent_usd (runs ++ started now cap_usd ∷ []) ≤ limit.spend_usd_per_day + 1)
unfolding refusal_for spent_usd held
refusal_for-fits runs limit cap_usd now e = (
  ground (arith, length-append runs (started now cap_usd ∷ [])),
  ground (arith, spent_usd-append runs (started now cap_usd ∷ [])),
)

-- The runs up to the one that leaves at a time, and those after it.
pub record LeavesAt (runs : List WindowRun) (at : ℕ) : Type 0 where
  pub before : List WindowRun
  pub last : WindowRun
  pub rest : List WindowRun
  pub all : runs ≡ before ++ last ∷ rest
  pub time : leaves_at last ≡ at

record Freed (freed needed : ℕ) (runs : List WindowRun) (at : ℕ) : Type 0 where
  leaves : LeavesAt runs at
  enough : needed ≤ freed + (spent_usd leaves.before + held leaves.last)

spend_free_from-Freed :
    (freed needed : ℕ) (runs : List WindowRun) (at : ℕ)
    → spend_free_from freed needed runs ≡ some at
    → Freed freed needed runs at
unfolding spend_free_from spent_usd
spend_free_from-Freed freed needed [] at e = cc
spend_free_from-Freed freed needed (run ∷ runs) at e =
    elim (Bool-cases (leb needed (freed + held run))) [
      | inl enough ↦ record {
        leaves = record {
          before = [];
          last = run;
          rest = runs;
          all = refl;
          time = ap (λ (o : Option ℕ). elim o [ none ↦ 0 | some t ↦ t ]) (rw enough at e);
        };
        enough = ground arith;
      }
      | inr short ↦
          let later = spend_free_from-Freed (freed + held run) needed runs at (rw short at e) in
          record {
            leaves = record {
              before = run ∷ later.leaves.before;
              last = later.leaves.last;
              rest = later.leaves.rest;
              all = ap (λ l. run ∷ l) later.leaves.all;
              time = later.leaves.time;
            };
            enough = omega (arith, later.enough);
          }
    ]

spend_free_from-some :
    (freed needed : ℕ) (runs : List WindowRun)
    → needed ≤ freed + spent_usd runs
    → freed < needed
    → is_some (spend_free_from freed needed runs) ≡ true
unfolding spend_free_from spent_usd
spend_free_from-some freed needed [] h lt = ground arith
spend_free_from-some freed needed (run ∷ runs) h lt =
    ground (arith, spend_free_from-some (freed + held run) needed runs)

-- A run of the list, with those before it and after it.
split_at :
    (i : ℕ) (runs : List WindowRun)
    → i < length runs
    → (run : WindowRun) × (get_elem? runs i ≡ some run)
      × (l : LeavesAt runs (leaves_at run)) × (suc (length l.rest) + i ≡ length runs)
split_at i [] lt = absurd (omega arith)
split_at zero (run ∷ runs) lt = (
  run,
  refl,
  record { before = []; last = run; rest = runs; all = refl; time = refl },
  omega arith,
)
split_at (suc i) (run ∷ runs) lt =
    let (found, e, l, count) = split_at i runs (omega arith) in
    (
      found,
      e,
      record {
        before = run ∷ l.before;
        last = l.last;
        rest = l.rest;
        all = ap (λ ys. run ∷ ys) l.all;
        time = l.time;
      },
      omega (arith, count),
    )

-- What a refusal says is so: that the runs are used up until one leaves, that the cap is above the
-- limit, or that the spending does not fit until a run leaves.
abbrev pub IsRight : List WindowRun → SpendLimit → ℕ → SpendLimitReached → Type 0
IsRight runs limit cap_usd (runs_used none) = 1 ≤ 0
IsRight runs limit cap_usd (runs_used (some at)) =
    (l : LeavesAt runs at) × (suc (length l.rest) ≤ limit.runs_per_day)
IsRight runs limit cap_usd cap_too_high = limit.spend_usd_per_day < cap_usd
IsRight runs limit cap_usd (spend_used none) = 1 ≤ 0
IsRight runs limit cap_usd (spend_used (some at)) =
    (l : LeavesAt runs at) × (refusal_for l.rest limit cap_usd ≡ none)

runs_free_at-IsRight :
    (runs : List WindowRun) (limit : SpendLimit) (cap_usd : ℕ)
    → 1 ≤ limit.runs_per_day
    → limit.runs_per_day ≤ length runs
    → IsRight runs limit cap_usd (runs_used (runs_free_at runs limit))
unfolding runs_free_at
runs_free_at-IsRight runs limit cap_usd some_run full =
    let (run, e, l, count) = split_at (length runs - limit.runs_per_day) runs (omega arith) in
    let is_full : leb limit.runs_per_day (length runs) ≡ true = ground arith in
    rw (is_full, e) (l, omega (arith, count))

refusal_for-none :
    (runs : List WindowRun) (limit : SpendLimit) (cap_usd : ℕ)
    → suc (length runs) ≤ limit.runs_per_day
    → cap_usd + spent_usd runs ≤ limit.spend_usd_per_day
    → refusal_for runs limit cap_usd ≡ none
unfolding refusal_for
refusal_for-none runs limit cap_usd few fits = ground arith

spent_usd-LeavesAt :
    (runs : List WindowRun) (at : ℕ) (l : LeavesAt runs at)
    → (spent_usd runs ≡ spent_usd l.before + (held l.last + spent_usd l.rest))
      × (length runs ≡ length l.before + suc (length l.rest))
unfolding spent_usd
spent_usd-LeavesAt runs at l = (
  ap spent_usd l.all ∙ spent_usd-append l.before (l.last ∷ l.rest),
  ap length l.all ∙ length-append l.before (l.last ∷ l.rest),
)

spend_free_at-IsRight :
    (runs : List WindowRun) (limit : SpendLimit) (cap_usd : ℕ) (at : Option ℕ)
    → suc (length runs) ≤ limit.runs_per_day
    → cap_usd ≤ limit.spend_usd_per_day
    → limit.spend_usd_per_day + 1 < cap_usd + spent_usd runs
    → spend_free_at runs ((cap_usd + spent_usd runs) - limit.spend_usd_per_day) ≡ at
    → IsRight runs limit cap_usd (spend_used at)
unfolding spend_free_at
spend_free_at-IsRight runs limit cap_usd none few low over e = ground (
  arith,
  spend_free_from-some 0 ((cap_usd + spent_usd runs) - limit.spend_usd_per_day) runs (omega arith)
      (omega arith),
)
spend_free_at-IsRight runs limit cap_usd (some at) few low over e =
    let f =
      spend_free_from-Freed 0 ((cap_usd + spent_usd runs) - limit.spend_usd_per_day) runs at e in
    let (spent, count) = spent_usd-LeavesAt runs at f.leaves in
    (
      f.leaves,
      refusal_for-none f.leaves.rest limit cap_usd (omega (arith, count))
          (omega (arith, spent, f.enough)),
    )

-- A start that is refused is refused rightly: if the runs are used up, a time is named at which a
-- run leaves the window and leaves room for one; if the cap is refused it is above the limit; if the
-- spending does not fit, a time is named at which a run leaves and the same start is not refused.
pub refusal_for-IsRight :
    (runs : List WindowRun) (limit : SpendLimit) (cap_usd : ℕ) (why : SpendLimitReached)
    → 1 ≤ limit.runs_per_day
    → refusal_for runs limit cap_usd ≡ some why
    → IsRight runs limit cap_usd why
unfolding refusal_for
refusal_for-IsRight runs limit cap_usd why some_run e =
    elim (Bool-cases (ltb limit.runs_per_day (suc (length runs)))) [
      | inl full ↦
          subst (IsRight runs limit cap_usd) (the_some (rw full at e))
            (runs_free_at-IsRight runs limit cap_usd some_run (ground arith))
      | inr few ↦ elim (Bool-cases (ltb limit.spend_usd_per_day cap_usd)) [
        | inl high ↦
            subst (IsRight runs limit cap_usd) (the_some (rw (few, high) at e)) (ground arith)
        | inr low ↦
            elim (Bool-cases (ltb (limit.spend_usd_per_day + 1) (cap_usd + spent_usd runs))) [
              | inl over ↦
                  subst (IsRight runs limit cap_usd) (the_some (rw (few, low, over) at e)) (
                    spend_free_at-IsRight runs limit cap_usd
                      (spend_free_at runs ((cap_usd + spent_usd runs) - limit.spend_usd_per_day))
                      (ground arith) (ground arith) (ground arith) refl)
              | inr fits ↦ (let clash : none ≡ some why = rw (few, low, fits) at e in cc)
            ]
      ]
    ]
  where
    the_some : {a b : SpendLimitReached} → some a ≡ some b → a ≡ b
    the_some {a} p = ap (λ (o : Option SpendLimitReached). elim o [ none ↦ a | some x ↦ x ]) p
