-- ===== src/Runs.antt =====
-- The steps and the price that a run is given (apps/control-plane/src/runs/models.ts).
pub mod Estimates
mod Tests
use trawler.Base.{ℕ, zero, suc, ◌+◌, ◌*◌, ◌/◌, min, max, List, [], ◌∷◌}

-- `STEPS`
abbrev pub base_steps : ℕ
base_steps = 10

abbrev pub per_goal : ℕ
per_goal = 20

abbrev pub typical_per_goal : ℕ
typical_per_goal = 12

abbrev pub typical_replay : ℕ
typical_replay = 15

abbrev pub reproduction_per_replay : ℕ
reproduction_per_replay = 4

-- `DEFAULT_RUN.maxSteps`
abbrev pub default_max_steps : ℕ
default_max_steps = 120

unfoldable pub turn_steps : ℕ → ℕ → ℕ
turn_steps goals ceiling = min ceiling (base_steps + per_goal * max 1 goals)

-- `Math.ceil(n / d)`, for a positive `d`.
abbrev pub ceil_div : ℕ → ℕ → ℕ
ceil_div n zero = 0
ceil_div n (suc d) = (n + d) / suc d

unfoldable pub replay_steps : ℕ → ℕ → ℕ → ℕ
replay_steps base reproduction people =
    base * max 1 (max people (ceil_div reproduction reproduction_per_replay))

-- The tokens of one answer, in and out.
pub record Tokens : Type 0 where
  pub input : ℕ
  pub output : ℕ

-- Micro-dollars for a million tokens.
pub record Price : Type 0 where
  pub prompt : ℕ
  pub completion : ℕ

-- `TOKEN_PROFILE`
abbrev pub step_tokens : Tokens
step_tokens = record { input = 13500; output = 200 }

abbrev pub judge_tokens : Tokens
judge_tokens = record { input = 6000; output = 150 }

-- `usd`, in millionths of a micro-dollar: the division by a million is left out.
unfoldable pub usd : Price → Tokens → ℕ
usd p tokens = tokens.input * p.prompt + tokens.output * p.completion

-- The steps that the turns of these goals typically take.
unfoldable pub typical_steps : List ℕ → ℕ
unfolding turn_steps
typical_steps [] = 0
typical_steps (goals ∷ turns) =
    min (turn_steps goals default_max_steps) (typical_per_goal * max 1 goals) + typical_steps turns

unfoldable pub most_steps : List ℕ → ℕ
unfolding turn_steps
most_steps [] = 0
most_steps (goals ∷ turns) = turn_steps goals default_max_steps + most_steps turns

pub record Estimate : Type 0 where
  pub low : ℕ
  pub high : ℕ
  pub per_defect : ℕ

unfoldable pub estimate_usd : Price → List ℕ → Price → Estimate
unfolding usd typical_steps most_steps
estimate_usd price turns high = record {
  low = usd price step_tokens * typical_steps turns;
  high = usd high step_tokens * most_steps turns;
  per_defect = usd high step_tokens * typical_replay + usd high judge_tokens;
}
