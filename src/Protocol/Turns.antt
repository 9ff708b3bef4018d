-- ===== src/Protocol/Turns.antt =====
-- The people of a plan, their goals and the turns that they take (packages/protocol/src/project.ts).
-- An identifier is a number.
pub mod Covers
use trawler.Base.{
  ℕ, Bool, true, false, Option, none, some, List, [], ◌∷◌, ◌++◌, map, is_some, not, any, filter,
  if◌then◌else◌, ◌==◌,
}

pub record Persona : Type 0 where
  pub id : ℕ
  pub name : ℕ

pub record Goal : Type 0 where
  pub id : ℕ
  pub persona_id : Option ℕ

pub record Turn : Type 0 where
  pub persona_id : ℕ
  pub goal_ids : List ℕ

-- `g.personaId === undefined || g.personaId === personaId`
abbrev pub is_for : ℕ → Goal → Bool
is_for persona_id g = elim g.persona_id [ none ↦ true | some p ↦ p == persona_id ]

unfoldable pub goals_for : List Goal → ℕ → List Goal
goals_for goals persona_id = filter (is_for persona_id) goals

abbrev pub goal_id : Goal → ℕ
goal_id g = g.id

abbrev pub own_turn : List Goal → Persona → Turn
own_turn goals p = record { persona_id = p.id; goal_ids = map goal_id (filter (is_for p.id) goals) }

-- One round of the loop: the goal joins the last turn if that is its person's, else it starts one.
unfoldable pub add_goal : List Turn → ℕ → ℕ → List Turn
add_goal [] persona goal = record { persona_id = persona; goal_ids = goal ∷ [] } ∷ []
add_goal (last ∷ []) persona goal =
    if last.persona_id == persona
    then record last { goal_ids = last.goal_ids ++ goal ∷ [] } ∷ []
    else last ∷ record { persona_id = persona; goal_ids = goal ∷ [] } ∷ []
add_goal (turn ∷ next ∷ turns) persona goal = turn ∷ add_goal (next ∷ turns) persona goal

-- `goal.personaId!`: every goal has a person here.
unfoldable pub goal_turns : List Turn → List Goal → List Turn
unfolding add_goal
goal_turns turns [] = turns
goal_turns turns (goal ∷ goals) =
    goal_turns
      (elim goal.persona_id [ none ↦ turns | some persona ↦ add_goal turns persona goal.id ]) goals

unfoldable pub turns_of : List Persona → List Goal → List Turn
unfolding goal_turns
turns_of personas goals =
    if any (λ (g : Goal). not (is_some g.persona_id)) goals
    then map (own_turn goals) personas
    else goal_turns [] goals
