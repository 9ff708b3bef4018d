-- ===== src/Runs/Tests.antt =====
-- The estimate of a run of two turns.
use trawler.Base.{ℕ, ◌*◌, ◌≤◌, List, [], ◌∷◌, arith, length}
use trawler.Runs.{Price, usd, step_tokens, estimate_usd, default_max_steps}
use trawler.Runs.Estimates.{estimate_usd-range}

abbrev cheap : Price
cheap = record { prompt = 200000; completion = 800000 }

abbrev dear : Price
dear = record { prompt = 500000; completion = 800000 }

abbrev turns : List ℕ
turns = 1 ∷ 3 ∷ []

estimate_usd-range_example :
    ((estimate_usd cheap turns dear).low ≤ (estimate_usd cheap turns dear).high)
    × ((estimate_usd cheap turns dear).high
        ≤ usd dear step_tokens * (default_max_steps * length turns))
estimate_usd-range_example = estimate_usd-range cheap dear turns (omega arith) (omega arith)
