-- ===== src/Runs/Estimates.antt =====
-- The estimate of what a run costs (`estimateUsd` of models.ts).
use native.Mathlib.Nat.{mul-le-mul, mul-le-mul_left}
use trawler.Base.{ℕ, ◌*◌, ◌≤◌, List, [], ◌∷◌, arith, length}
use trawler.Runs.{
  Price, Tokens, usd, step_tokens, typical_steps, most_steps, turn_steps, estimate_usd,
  default_max_steps,
}

usd_mono :
    (p q : Price) (t : Tokens)
    → p.prompt ≤ q.prompt
    → p.completion ≤ q.completion
    → usd p t ≤ usd q t
unfolding usd
usd_mono p q t h k = omega (arith, mul-le-mul_left t.input h, mul-le-mul_left t.output k)

typical-most : (turns : List ℕ) → typical_steps turns ≤ most_steps turns
unfolding typical_steps most_steps
typical-most [] = omega arith
typical-most (goals ∷ turns) = omega (arith, typical-most turns)

-- Where the high price is not below the price in either part, the low estimate of a run's cost is
-- not above the high one, and the high one is not above the cost of the highest number of steps
-- in every turn.
pub estimate_usd-range :
    (price high : Price) (turns : List ℕ)
    → price.prompt ≤ high.prompt
    → price.completion ≤ high.completion
    → ((estimate_usd price turns high).low ≤ (estimate_usd price turns high).high)
      × ((estimate_usd price turns high).high
          ≤ usd high step_tokens * (default_max_steps * length turns))
unfolding estimate_usd
estimate_usd-range price high turns h k = (
  mul-le-mul (usd_mono price high step_tokens h k) (typical-most turns),
  mul-le-mul_left (usd high step_tokens) (most-length turns),
)
  where
    most-length : (ts : List ℕ) → most_steps ts ≤ default_max_steps * length ts
    most-length [] = unfold most_steps in omega arith
    most-length (goals ∷ ts) =
        unfold most_steps in unfold turn_steps in omega (arith, most-length ts)
