-- ===== src/Queue/Calls/Left.antt =====
-- What a run that goes on has left, when the cost of a call was recorded.
use mathlib.Core.Path.{subst}
use native.Mathlib.Nat.{le-div_iff_mul-le}
use trawler.Base.{
  ℕ, ◌+◌, ◌-◌, ◌*◌, ◌/◌, ◌≤◌, ◌<◌, ◌≡◌, ◌∙◌, inl, inr, refl, ap, Bool, true, false, Option, none,
  some, List, [], ◌∷◌, ◌++◌, arith, ◌&&◌, ◌==◌, leb, if◌then◌else◌, Bool-cases,
}
use trawler.Queue.Rows.{Rows, Run, Around, PaidBy, UsageRow, is_active}
use trawler.Queue.Limits.{
  limit_reached, affordable_output_tokens, below_one, reaches, cap_spent, spent, month_spent,
  budget_left, spent_workspace_budget, over_time, paid_by_workspace,
}
use trawler.Queue.Limits.Stops.{
  Stopped, goes_on, was_over, is_ended, stop_if_over_limits-Stopped, is_active-end_run,
}
use trawler.Queue.Calls.{Usage, record_llm_usage, add_cost, log_usage, add_tokens}

-- The money that is left pays for a token, where tokens have a price.
abbrev pub PaysToken : ℕ → Option ℕ → Type 0
PaysToken left none = Unit
PaysToken left (some price) = price ≤ left * 1000000

abbrev pub BelowCap : ℕ → Option ℕ → Type 0
BelowCap used none = Unit
BelowCap used (some cap) = used < cap

-- What the workspace has spent this month stays below its limit, where it pays and has one.
abbrev pub BelowMonth : PaidBy → ℕ → Option ℕ → Option ℕ → Type 0
BelowMonth PaidBy.on_us used limit price = Unit
BelowMonth PaidBy.workspace used none price = Unit
BelowMonth PaidBy.workspace used (some limit) price =
    (used < limit) × PaysToken (limit - used) price

-- A run's three hours.
abbrev pub InTime : ℕ → Option ℕ → Type 0
InTime now none = Unit
InTime now (some started) = now < started + 10800000

-- The part of a call's cost that counts for the workspace's month.
abbrev pub month_cost : Around → PaidBy → Usage → ℕ
month_cost a paid_by u =
    if paid_by_workspace paid_by && leb a.month_start a.now then u.cost_usd else 0

-- From `s` a call was recorded, and the run goes on in `t`: nothing is halted or paused, the cost
-- and the tokens of the call are added, and with them the run is below each limit.
pub record HasLeft (a : Around) (paid_by : PaidBy) (u : Usage) (s t : Rows) : Type 0 where
  pub not_halted : a.halted ≡ false
  pub not_paused : a.paused ≡ false
  pub counted_cost : t.run.cost_usd ≡ s.run.cost_usd + u.cost_usd
  pub counted_tokens : t.run.tokens_used ≡ s.run.tokens_used + (u.input_tokens + u.output_tokens)
  pub budget : s.run.cost_usd + u.cost_usd < s.run.budget_usd
  pub pays :
      PaysToken (s.run.budget_usd - (s.run.cost_usd + u.cost_usd)) s.run.completion_usd_per_mtok
  pub cap : BelowCap (s.run.tokens_used + (u.input_tokens + u.output_tokens)) s.run.token_cap
  pub month :
      BelowMonth s.run.paid_by
        (month_spent a.month_start s.usage + month_cost a paid_by u)
        a.monthly_usd
        s.run.completion_usd_per_mtok
  pub time : InTime a.now s.run.started_at

PaysToken-affordable :
    (left : ℕ) (price : Option ℕ)
    → below_one (affordable_output_tokens left price) ≡ false
    → PaysToken left price
unfolding affordable_output_tokens
PaysToken-affordable left none h = tt
PaysToken-affordable left (some price) h = elim (Bool-cases (price == 0)) [
  | inl free ↦ ground arith
  | inr costs ↦ pays left price (ground arith) (ground arith)
]
  where
    pays : (left price : ℕ) → 0 < price → 1 ≤ left * 1000000 / price → price ≤ left * 1000000
    pays left price pos h = omega (arith, (le-div_iff_mul-le pos).0 h)

BelowCap-reaches : (used : ℕ) (cap : Option ℕ) → reaches used cap ≡ false → BelowCap used cap
BelowCap-reaches used none h = tt
BelowCap-reaches used (some cap) h = ground arith

BelowMonth-spent :
    (paid_by : PaidBy) (used : ℕ) (limit price : Option ℕ)
    → (paid_by_workspace paid_by
        && spent (elim limit [ none ↦ none | some n ↦ some (n - used) ]) price)
      ≡ false
    → BelowMonth paid_by used limit price
unfolding spent
BelowMonth-spent PaidBy.on_us used limit price h = tt
BelowMonth-spent PaidBy.workspace used none price h = tt
BelowMonth-spent PaidBy.workspace used (some limit) price h =
    (ground arith, PaysToken-affordable (limit - used) price (ground arith))

InTime-over_time : (a : Around) (run : Run) → over_time a run ≡ false → InTime a.now run.started_at
InTime-over_time a run h = in_time run.started_at h
  where
    in_time :
        (at : Option ℕ)
        → (elim at [ none ↦ false | some t ↦ leb (t + 3 * 60 * 60000) a.now ]) ≡ false
        → InTime a.now at
    in_time none h = tt
    in_time (some t) h = ground arith

month_spent-append :
    (start : ℕ) (usage : List UsageRow) (row : UsageRow)
    → month_spent start (usage ++ row ∷ [])
      ≡ month_spent start usage
        + (if paid_by_workspace row.paid_by && leb start row.created_at then row.cost_usd else 0)
unfolding month_spent
month_spent-append start [] row = omega arith
month_spent-append start (r ∷ usage) row = omega (arith, month_spent-append start usage row)

-- The run and the usage after a call was recorded.
abbrev spent_run : Usage → Run → Run
spent_run u run = record run {
  cost_usd = run.cost_usd + u.cost_usd;
  tokens_used = run.tokens_used + (u.input_tokens + u.output_tokens);
}

abbrev after_call : Around → PaidBy → ℕ → Usage → Rows → Rows
after_call a paid_by job u s = add_tokens u (add_cost job u.cost_usd (log_usage a paid_by u s))

add_cost-run :
    (job usd : ℕ) (s : Rows)
    → ((add_cost job usd s).run ≡ record s.run { cost_usd = s.run.cost_usd + usd })
      × ((add_cost job usd s).usage ≡ s.usage)
unfolding add_cost
add_cost-run job usd s = elim (Bool-cases (usd == 0)) [
  | inl free ↦
      rw free (ap (λ n. record s.run { cost_usd = n }) (omega (arith, no_cost usd free)), refl)
  | inr costs ↦ rw costs (refl, refl)
]
  where
    no_cost : (n : ℕ) → (n == 0) ≡ true → n ≡ 0
    no_cost n h = ground arith

after_call-run :
    (a : Around) (paid_by : PaidBy) (job : ℕ) (u : Usage) (s : Rows)
    → (after_call a paid_by job u s).run ≡ spent_run u s.run
after_call-run a paid_by job u s =
    ap (λ (r : Run). record r { tokens_used = r.tokens_used + (u.input_tokens + u.output_tokens) })
      (add_cost-run job u.cost_usd (log_usage a paid_by u s)).0

after_call-month :
    (a : Around) (paid_by : PaidBy) (job : ℕ) (u : Usage) (s : Rows)
    → month_spent a.month_start (after_call a paid_by job u s).usage
      ≡ month_spent a.month_start s.usage + month_cost a paid_by u
after_call-month a paid_by job u s =
    ap (month_spent a.month_start) (add_cost-run job u.cost_usd (log_usage a paid_by u s)).1
    ∙ month_spent-append a.month_start s.usage
        (record { paid_by = paid_by; cost_usd = u.cost_usd; created_at = a.now })

-- A run that has reached no limit, by its own columns.
record Below (a : Around) (used : ℕ) (run : Run) : Type 0 where
  not_halted : a.halted ≡ false
  not_paused : a.paused ≡ false
  budget : run.cost_usd < run.budget_usd
  pays : PaysToken (run.budget_usd - run.cost_usd) run.completion_usd_per_mtok
  cap : BelowCap run.tokens_used run.token_cap
  month : BelowMonth run.paid_by used a.monthly_usd run.completion_usd_per_mtok
  time : InTime a.now run.started_at

limit_reached-parts :
    (a : Around) (s : Rows)
    → limit_reached a s ≡ none
    → (a.halted ≡ false)
      × (a.paused ≡ false)
      × (cap_spent s.run ≡ false)
      × (spent_workspace_budget a s ≡ false)
      × (over_time a s.run ≡ false)
unfolding limit_reached
limit_reached-parts a s e = (ground arith, ground arith, ground arith, ground arith, ground arith)

limit_reached-Below :
    (a : Around) (s : Rows)
    → limit_reached a s ≡ none
    → Below a (month_spent a.month_start s.usage) s.run
unfolding cap_spent spent_workspace_budget budget_left
limit_reached-Below a s e =
    let (halted, paused, cap, month, time) = limit_reached-parts a s e in
    record {
      not_halted = halted;
      not_paused = paused;
      budget = ground arith;
      pays =
          PaysToken-affordable (s.run.budget_usd - s.run.cost_usd) s.run.completion_usd_per_mtok
            (ground arith);
      cap = BelowCap-reaches s.run.tokens_used s.run.token_cap (ground arith);
      month =
          BelowMonth-spent s.run.paid_by (month_spent a.month_start s.usage) a.monthly_usd
            s.run.completion_usd_per_mtok month;
      time = InTime-over_time a s.run time;
    }

Stopped-Below :
    (a : Around) (s : Rows) {r : Rows × Bool}
    → Stopped a s r
    → is_active r.0.run.status ≡ true
    → Below a (month_spent a.month_start s.usage) s.run × (r.0 ≡ s)
Stopped-Below a s (goes_on active within) h = (limit_reached-Below a s within, refl)
Stopped-Below a s (was_over over) h = cc
Stopped-Below a s (is_ended end active over) h = cc (h, is_active-end_run a end s)

-- When the cost of a call has been recorded, and the run goes on, then runs are not halted and its
-- project is not paused; the call's cost and tokens are added to the run's; and with them the run
-- has spent less than its budget and than its cap of tokens, the workspace has spent less than its
-- monthly limit if it pays for the run and has one, what is left of either pays for a token, and
-- the run's three hours are not over.
pub record_llm_usage-HasLeft :
    (a : Around) (paid_by : PaidBy) (job : ℕ) (u : Usage) (s : Rows)
    → is_active (record_llm_usage a paid_by job u s).run.status ≡ true
    → HasLeft a paid_by u s (record_llm_usage a paid_by job u s)
unfolding record_llm_usage
record_llm_usage-HasLeft a paid_by job u s active =
    let t = after_call a paid_by job u s in
    let (below, same) = Stopped-Below a t (stop_if_over_limits-Stopped a t) active in
    let run = ap (λ (r : Rows). r.run) same ∙ after_call-run a paid_by job u s in
    let b =
      subst (λ used. Below a used (spent_run u s.run)) (after_call-month a paid_by job u s)
        (subst (λ run. Below a (month_spent a.month_start t.usage) run)
          (after_call-run a paid_by job u s) below) in
    record {
      not_halted = b.not_halted;
      not_paused = b.not_paused;
      counted_cost = ap (λ (r : Run). r.cost_usd) run;
      counted_tokens = ap (λ (r : Run). r.tokens_used) run;
      budget = b.budget;
      pays = b.pays;
      cap = b.cap;
      month = b.month;
      time = b.time;
    }
