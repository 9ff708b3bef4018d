-- ===== src/Mcp/Limits.antt =====
-- The limits of a connection over a window of 24 hours (apps/control-plane/src/mcp/limits.ts).
-- Money is in nano-dollars, so that 1e-9 dollars is 1; times are in milliseconds.
pub mod Fits
use trawler.Base.{
  ℕ, zero, suc, ◌+◌, ◌-◌, ◌*◌, max, Bool, true, false, Option, none, some, List, [], ◌∷◌, not, ◌&&◌,
  ◌||◌, leb, ltb, ◌==◌, if◌then◌else◌, is_some, length, get_elem?,
}

abbrev pub window_ms : ℕ
window_ms = 24 * 3600000

pub record SpendLimit : Type 0 where
  pub runs_per_day : ℕ
  pub spend_usd_per_day : ℕ

pub record WindowRun : Type 0 where
  pub started_at : ℕ
  pub live : Bool
  pub unpriced : Bool
  pub budget_usd : ℕ
  pub cost_usd : ℕ

-- What a run takes of the limit: its budget while it may still spend it, or where it has no price.
unfoldable pub held : WindowRun → ℕ
held run =
    if run.live
    then max run.budget_usd run.cost_usd
    else if run.unpriced
    then max run.budget_usd run.cost_usd
    else run.cost_usd

abbrev pub leaves_at : WindowRun → ℕ
leaves_at run = run.started_at + window_ms

-- `spentUsd` of `usageOf`.
unfoldable pub spent_usd : List WindowRun → ℕ
unfolding held
spent_usd [] = 0
spent_usd (run ∷ runs) = held run + spent_usd runs

-- `runsFreeAt`, or none where the limit of runs is not reached.
unfoldable pub runs_free_at : List WindowRun → SpendLimit → Option ℕ
runs_free_at runs limit =
    if leb limit.runs_per_day (length runs)
    then (elim (get_elem? runs (length runs - limit.runs_per_day)) [
      | none ↦ none
      | some run ↦ some (leaves_at run)
    ])
    else none

-- The loop of `spendFreeAt`.
unfoldable pub spend_free_from : ℕ → ℕ → List WindowRun → Option ℕ
unfolding held
spend_free_from freed needed [] = none
spend_free_from freed needed (run ∷ runs) =
    let later = spend_free_from (freed + held run) needed runs in
    if leb needed (freed + held run) then some (leaves_at run) else later

unfoldable pub spend_free_at : List WindowRun → ℕ → Option ℕ
unfolding spend_free_from
spend_free_at runs needed = spend_free_from 0 needed runs

-- `SpendLimitReached`, with the time that its message names.
pub data SpendLimitReached : Type 0 where
  runs_used : Option ℕ → SpendLimitReached
  cap_too_high : SpendLimitReached
  spend_used : Option ℕ → SpendLimitReached

-- `left` may be below 0 in the code; what is tested and handed on, `cap > left + 1e-9` and
-- `cap - left`, is written without it.
unfoldable pub refusal_for : List WindowRun → SpendLimit → ℕ → Option SpendLimitReached
unfolding spent_usd runs_free_at spend_free_at
refusal_for runs limit cap_usd =
    if ltb limit.runs_per_day (suc (length runs))
    then some (runs_used (runs_free_at runs limit))
    else if ltb limit.spend_usd_per_day cap_usd
    then some cap_too_high
    else if ltb (limit.spend_usd_per_day + 1) (cap_usd + spent_usd runs)
    then some
        (spend_used (spend_free_at runs ((cap_usd + spent_usd runs) - limit.spend_usd_per_day)))
    else none
