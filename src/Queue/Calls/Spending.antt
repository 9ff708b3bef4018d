-- ===== src/Queue/Calls/Spending.antt =====
-- What a granted call may spend, and what a run may have spent that goes on.
use mathlib.Core.Path.{subst}
use trawler.Base.{
  ℕ, ◌+◌, ◌-◌, ◌≤◌, ◌<◌, ◌≡◌, refl, Bool, true, false, Option, none, some, arith, not, ◌||◌,
  if◌then◌else◌, min, Bool-cases, inl, inr, is_some,
}
use trawler.Queue.Rows.{Rows, Job, Around, PaidBy, is_active, is_leased}
use trawler.Queue.Limits.{
  LimitStop, going, inactive, ended, RunEnd, end_at, limit_stop, limit_reached, budget_left,
}
use trawler.Queue.Jobs.{Result, ok, refused, Ensures, Ensures-ok, Ensures-if, job_for_token}
use trawler.Queue.Calls.{
  Answer, call, refused_call, LlmCall, WhyRefused, call_found, call_unless, allow_call, is_spent,
  remaining_usd_of, remaining_tokens_of, llm_call_for,
}

-- What is left of a cap, where there is one.
abbrev pub FitsCap : ℕ → Option ℕ → Option ℕ → Type 0
FitsCap used none none = Unit
FitsCap used (some cap) (some left) = (0 < left) × (left + used ≤ cap)
FitsCap used none (some left) = 1 ≤ 0
FitsCap used (some cap) none = 1 ≤ 0

-- What is left of the workspace's month, if the workspace pays.
abbrev pub FitsMonth : PaidBy → Option ℕ → ℕ → Type 0
FitsMonth PaidBy.on_us left usd = Unit
FitsMonth PaidBy.workspace none usd = Unit
FitsMonth PaidBy.workspace (some left) usd = usd ≤ left

-- A call that may spend something, and no more than is left of each limit.
pub record IsWithin (a : Around) (s : Rows) (c : LlmCall) : Type 0 where
  pub positive : 0 < c.remaining_usd
  pub budget : c.remaining_usd + s.run.cost_usd ≤ s.run.budget_usd
  pub month : FitsMonth s.run.paid_by (budget_left a s.usage) c.remaining_usd
  pub tokens : FitsCap s.run.tokens_used s.run.token_cap c.remaining_tokens

abbrev Within : Around → Rows → Answer → Type 0
Within a s (call c) = IsWithin a s c
Within a s (refused_call why) = Unit

remaining_tokens-FitsCap :
    (usd used : ℕ) (cap : Option ℕ)
    → is_spent usd (elim cap [ none ↦ none | some c ↦ some (c - used) ]) ≡ false
    → FitsCap used cap (elim cap [ none ↦ none | some c ↦ some (c - used) ])
remaining_tokens-FitsCap usd used none h = tt
remaining_tokens-FitsCap usd used (some cap) h = (ground arith, ground arith)

is_spent-positive : (usd : ℕ) (tokens : Option ℕ) → is_spent usd tokens ≡ false → 0 < usd
is_spent-positive usd none h = ground arith
is_spent-positive usd (some tokens) h = ground arith

remaining_usd-FitsMonth :
    (paid_by : PaidBy) (left : ℕ) (month : Option ℕ)
    → FitsMonth paid_by month (elim paid_by [
      | PaidBy.on_us ↦ left
      | PaidBy.workspace ↦ elim month [ none ↦ left | some w ↦ min left w ]
    ])
remaining_usd-FitsMonth PaidBy.on_us left month = tt
remaining_usd-FitsMonth PaidBy.workspace left none = tt
remaining_usd-FitsMonth PaidBy.workspace left (some w) = omega arith

remaining_usd-budget :
    (paid_by : PaidBy) (left : ℕ) (month : Option ℕ)
    → (elim paid_by [
      | PaidBy.on_us ↦ left
      | PaidBy.workspace ↦ elim month [ none ↦ left | some w ↦ min left w ]
    ])
      ≤ left
remaining_usd-budget PaidBy.on_us left month = omega arith
remaining_usd-budget PaidBy.workspace left none = omega arith
remaining_usd-budget PaidBy.workspace left (some w) = omega arith

allow_call-Within : (a : Around) (job : Job) (s : Rows) → Within a s (allow_call a job s).1
allow_call-Within a job s =
    elim (Bool-cases (is_spent (remaining_usd_of a s) (remaining_tokens_of s.run))) [
      | inl spent ↦ rw spent tt
      | inr left ↦ rw left (record {
        positive = is_spent-positive (remaining_usd_of a s) (remaining_tokens_of s.run) left;
        budget = omega (
          arith,
          remaining_usd-budget s.run.paid_by (s.run.budget_usd - s.run.cost_usd)
              (budget_left a s.usage),
          is_spent-positive (remaining_usd_of a s) (remaining_tokens_of s.run) left,
        );
        month =
            remaining_usd-FitsMonth s.run.paid_by (s.run.budget_usd - s.run.cost_usd)
              (budget_left a s.usage);
        tokens =
            remaining_tokens-FitsCap (remaining_usd_of a s) s.run.tokens_used s.run.token_cap left;
      })
    ]

call_unless-Within :
    (a : Around) (job : Job) (s : Rows) (r : Rows × LimitStop)
    → (r.1 ≡ going → r.0 ≡ s)
    → Within a s (call_unless a job r).1
call_unless-Within a job s (t, going) same =
    subst (λ u. Within a u (allow_call a job t).1) (same refl) (allow_call-Within a job t)
call_unless-Within a job s (t, inactive) same = tt
call_unless-Within a job s (t, ended RunEnd.stopped_budget) same = tt
call_unless-Within a job s (t, ended (RunEnd.cancelled reason)) same = tt

limit_stop-going : (a : Around) (s : Rows) → (limit_stop a s).1 ≡ going → (limit_stop a s).0 ≡ s
unfolding limit_stop
limit_stop-going a s e = unchanged (is_active s.run.status) (limit_reached a s) e
  where
    unchanged :
        (b : Bool) (end : Option RunEnd)
        → (if b then end_at a s end else (s, inactive)).1 ≡ going
        → (if b then end_at a s end else (s, inactive)).0 ≡ s
    unchanged true none e = refl
    unchanged true (some end) e = cc
    unchanged false end e = refl

call_found-Within :
    (a : Around) (s : Rows) (r : Result Job)
    → Ensures (λ (t : Rows × Answer). Within a s t.1) (call_found a s r)
call_found-Within a s (refused why) = tt
call_found-Within a s (ok job) =
    let P : Rows × Answer → Type 0 = λ t. Within a s t.1 in
    Ensures-if P (not (is_leased job.status)) (ok (s, refused_call WhyRefused.job_over)) _ tt (
      Ensures-if P (is_some job.requested_by) _ (ok (call_unless a job (limit_stop a s)))
        (Ensures-if P (a.halted || a.paused) (ok (s, refused_call WhyRefused.run_inactive))
          (ok (allow_call a job s)) tt (allow_call-Within a job s))
        (call_unless-Within a job s (limit_stop a s) (limit_stop-going a s)))

-- A model call that is granted may spend something, and no more than is left of the run's budget,
-- of the workspace's monthly budget where the workspace pays and has one, and of the run's tokens
-- where they are capped.
pub llm_call_for-IsWithin :
    (a : Around) (hash : ℕ) (s t : Rows) (c : LlmCall)
    → llm_call_for a hash s ≡ ok (t, call c)
    → IsWithin a s c
unfolding llm_call_for
llm_call_for-IsWithin a hash s t c e =
    Ensures-ok (λ (r : Rows × Answer). Within a s r.1) _ e
      (call_found-Within a s (job_for_token a hash false none s))
