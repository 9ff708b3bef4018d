-- ===== src/Mcp/Tests.antt =====
-- The limits of a connection at concrete values.
use trawler.Base.{ℕ, ◌≡◌, ◌≤◌, refl, false, none, some, List, [], ◌∷◌, ◌++◌, length, arith}
use trawler.Mcp.Limits.{SpendLimit, WindowRun, spent_usd, refusal_for, spend_used}
use trawler.Mcp.Limits.Fits.{started, IsRight, refusal_for-fits, refusal_for-IsRight}

abbrev limit : SpendLimit
limit = record { runs_per_day = 5; spend_usd_per_day = 20000000000 }

abbrev past : ℕ → ℕ → WindowRun
past at cost = record {
  started_at = at;
  live = false;
  unpriced = false;
  budget_usd = 5000000000;
  cost_usd = cost;
}

abbrev runs : List WindowRun
runs = past 1000 8000000000 ∷ past 5000 9000000000 ∷ []

fits_now : refusal_for runs limit 2000000000 ≡ none
unfolding refusal_for
fits_now = refl

refusal_for-fits_example :
    (length (runs ++ started 9000 2000000000 ∷ []) ≤ 5)
    × (spent_usd (runs ++ started 9000 2000000000 ∷ []) ≤ 20000000001)
refusal_for-fits_example = refusal_for-fits runs limit 2000000000 9000 fits_now

refused_now : refusal_for runs limit 5000000000 ≡ some (spend_used (some 86401000))
unfolding refusal_for
refused_now = refl

refusal_for-IsRight_example : IsRight runs limit 5000000000 (spend_used (some 86401000))
refusal_for-IsRight_example =
    refusal_for-IsRight runs limit 5000000000 (spend_used (some 86401000)) (omega arith) refused_now
