-- ===== src/Core/PrPlan.antt =====
-- The plan that a model writes for a pull request, as it is kept (`settleTurns` of pr-plan.ts). How
-- a person is named, how an instruction is clipped and whether it gives the pull request away are
-- parameters: they read texts. A goal's id, `pr-goal-n`, is its number, and so are the taken ones.
pub mod Ids
pub mod Settled
use trawler.Base.{
  ℕ, zero, suc, Bool, true, false, Option, none, some, List, [], ◌∷◌, ◌++◌, leb, ◌==◌,
  if◌then◌else◌, mem, length,
}

-- `MAX_LEAD_GOALS`
abbrev pub max_lead_goals : ℕ
max_lead_goals = 8

pub record AnswerTurn : Type 0 where
  pub person : ℕ
  pub goals : List (List ℕ)

pub record LeadGoal : Type 0 where
  pub id : ℕ
  pub instruction : List ℕ

pub record LeadTurn : Type 0 where
  pub person : ℕ
  pub goals : List LeadGoal

pub data WhyDropped : Type 0 where
  no_person is_empty leaks over_limit : WhyDropped

-- The variables of the loops but `turns`.
pub record Progress : Type 0 where
  pub used : List ℕ
  pub kept : ℕ
  pub dropped : ℕ
  pub first_drop : Option (List ℕ × WhyDropped)

abbrev pub no_progress : List ℕ → Progress
no_progress taken = record { used = taken; kept = 0; dropped = 0; first_drop = none }

-- The first number from `n` on that is not used; `fuel` bounds the search.
unfoldable pub free_from : ℕ → List ℕ → ℕ → ℕ
free_from zero used n = n
free_from (suc fuel) used n =
    let later = free_from fuel used (suc n) in if mem n used then later else n

abbrev pub fresh_id : Progress → ℕ
fresh_id p = free_from (length p.used) p.used (suc p.kept)

abbrev or_first : Option (List ℕ × WhyDropped) → List ℕ × WhyDropped → Option (List ℕ × WhyDropped)
or_first none d = some d
or_first (some first) d = some first

abbrev pub drop_goal : List ℕ → WhyDropped → Progress → Progress
drop_goal instruction why p = record p {
  dropped = suc p.dropped;
  first_drop = or_first p.first_drop (instruction, why);
}

abbrev pub keep_goal : ℕ → Progress → Progress
keep_goal id p = record p { used = id ∷ p.used; kept = suc p.kept }

-- `last.goals.push(...goals)` if the last turn is that person's, else a turn of its own.
unfoldable pub add_turn : ℕ → List LeadGoal → List LeadTurn → List LeadTurn
add_turn person goals [] = record { person = person; goals = goals } ∷ []
add_turn person goals (t ∷ []) =
    if t.person == person
    then record t { goals = t.goals ++ goals } ∷ []
    else t ∷ record { person = person; goals = goals } ∷ []
add_turn person goals (t ∷ u ∷ turns) = t ∷ add_turn person goals (u ∷ turns)

-- A turn without goals is left out.
abbrev pub add_goals : Option ℕ → List LeadGoal → List LeadTurn → List LeadTurn
add_goals person [] turns = turns
add_goals none (g ∷ goals) turns = turns
add_goals (some person) (g ∷ goals) turns = add_turn person (g ∷ goals) turns

abbrev pub with_goal : LeadGoal → Progress × List LeadGoal → Progress × List LeadGoal
with_goal g (p, goals) = (p, g ∷ goals)

module _ (person_id : ℕ → Option ℕ) (clip : List ℕ → List ℕ)
    (leaks_pull_request : List ℕ → Bool) where
  abbrev pub why_dropped : Option ℕ → List ℕ → ℕ → Option WhyDropped
  why_dropped none instruction kept = some no_person
  why_dropped (some person) [] kept = some is_empty
  why_dropped (some person) (c ∷ instruction) kept =
      if leaks_pull_request (c ∷ instruction)
      then some leaks
      else if leb max_lead_goals kept
      then some over_limit
      else none

  unfoldable pub settle_goals : Option ℕ → List (List ℕ) → Progress → Progress × List LeadGoal
  unfolding free_from
  settle_goals person [] p = (p, [])
  settle_goals person (g ∷ goals) p = elim (why_dropped person (clip g) p.kept) [
    | some why ↦ settle_goals person goals (drop_goal (clip g) why p)
    | none ↦
        with_goal (record { id = fresh_id p; instruction = clip g })
          (settle_goals person goals (keep_goal (fresh_id p) p))
  ]

  unfoldable pub settle_from : List AnswerTurn → Progress → List LeadTurn → Progress × List LeadTurn
  unfolding settle_goals add_turn
  settle_from [] p turns = (p, turns)
  settle_from (t ∷ answer) p turns =
      let (p', goals) = settle_goals (person_id t.person) t.goals p in
      settle_from answer p' (add_goals (person_id t.person) goals turns)

  unfoldable pub settle_turns : List AnswerTurn → List ℕ → Progress × List LeadTurn
  unfolding settle_from
  settle_turns answer taken = settle_from answer (no_progress taken) []
