-- ===== src/Protocol/Turns/Covers.antt =====
-- Which goals a person gets in its turns.
use mathlib.Core.Bool.{true≢false}
use trawler.Base.{
  append_nil, append_assoc, ℕ, ◌≡◌, refl, sym, ap, ◌∙◌, Bool, true, false, some, List, [], ◌∷◌,
  ◌++◌, map, is_some, not, any, filter, if◌then◌else◌, ◌==◌, arith, count, ==_iff, Bool-cases,
  Option-cases, inl, inr,
}
use trawler.Protocol.Turns.{
  Persona, Goal, Turn, is_for, goals_for, goal_id, add_goal, goal_turns, turns_of, own_turn,
}

-- The goals of a person's turns, in their order.
unfoldable pub goals_in : ℕ → List Turn → List ℕ
goals_in p [] = []
goals_in p (t ∷ turns) =
    let rest = goals_in p turns in if t.persona_id == p then t.goal_ids ++ rest else rest

-- The goal, if it is the person's.
abbrev only_for : ℕ → ℕ → ℕ → List ℕ
only_for p persona goal = if persona == p then goal ∷ [] else []

goals_in-add_goal :
    (p persona goal : ℕ) (turns : List Turn)
    → goals_in p (add_goal turns persona goal) ≡ goals_in p turns ++ only_for p persona goal
unfolding goals_in add_goal
goals_in-add_goal p persona goal [] = ground arith
goals_in-add_goal p persona goal (last ∷ []) = elim (Bool-cases (last.persona_id == persona)) [
  | inl joins ↦ rw joins (
      joined last.goal_ids last.persona_id
        (ap (λ x. x == p) ((==_iff last.persona_id persona).0 joins)))
  | inr starts ↦ rw starts (started last.goal_ids (last.persona_id == p))
]
  where
    joined :
        (goals : List ℕ) (q : ℕ)
        → (q == p) ≡ (persona == p)
        → (if q == p then (goals ++ goal ∷ []) ++ [] else [])
          ≡ (if q == p then goals ++ [] else []) ++ only_for p persona goal
    joined goals q e = elim (Bool-cases (q == p)) [
      | inl own ↦ rw (own, sym e ∙ own, append_nil (goals ++ goal ∷ []), append_nil goals) refl
      | inr other ↦ rw (other, sym e ∙ other) refl
    ]

    started :
        (goals : List ℕ) (b : Bool)
        → (if b then goals ++ only_for p persona goal else only_for p persona goal)
          ≡ (if b then goals ++ [] else []) ++ only_for p persona goal
    started goals true = rw (append_nil goals) refl
    started goals false = refl
goals_in-add_goal p persona goal (turn ∷ next ∷ turns) = elim (Bool-cases (turn.persona_id == p)) [
  | inl own ↦ rw own (
      ap (λ l. turn.goal_ids ++ l) (goals_in-add_goal p persona goal (next ∷ turns))
      ∙ sym (append_assoc turn.goal_ids (goals_in p (next ∷ turns)) (only_for p persona goal)))
  | inr other ↦ rw other (goals_in-add_goal p persona goal (next ∷ turns))
]

goals_in-goal_turns :
    (p : ℕ) (turns : List Turn) (goals : List Goal)
    → any (λ (g : Goal). not (is_some g.persona_id)) goals ≡ false
    → goals_in p (goal_turns turns goals)
      ≡ goals_in p turns ++ map goal_id (filter (is_for p) goals)
unfolding goal_turns
goals_in-goal_turns p turns [] all = sym (append_nil (goals_in p turns))
goals_in-goal_turns p turns (goal ∷ goals) all = elim (Option-cases goal.persona_id) [
  | inl nobody ↦ absurd (true≢false (rw nobody at all))
  | inr (persona, e) ↦ rw e (
      goals_in-goal_turns p (add_goal turns persona goal.id) goals (rw e at all)
      ∙ ap (λ l. l ++ map goal_id (filter (is_for p) goals))
          (goals_in-add_goal p persona goal.id turns)
      ∙ append_assoc (goals_in p turns) (only_for p persona goal.id)
          (map goal_id (filter (is_for p) goals))
      ∙ ap (λ l. goals_in p turns ++ l) (taken persona (persona == p)))
]
  where
    taken :
        (q : ℕ) (b : Bool)
        → (if b then goal.id ∷ [] else []) ++ map goal_id (filter (is_for p) goals)
          ≡ map goal_id (
              if b
              then record goal { persona_id = some q } ∷ filter (is_for p) goals
              else filter (is_for p) goals)
    taken q true = refl
    taken q false = refl

none_own :
    (p : ℕ) (goals : List Goal) (personas : List Persona)
    → count p (map (λ (q : Persona). q.id) personas) ≡ 0
    → goals_in p (map (own_turn goals) personas) ≡ []
unfolding goals_in
none_own p goals [] e = refl
none_own p goals (q ∷ personas) e = ground (arith, none_own p goals personas)

goals_in-own_turns :
    (p : ℕ) (goals : List Goal) (personas : List Persona)
    → count p (map (λ (q : Persona). q.id) personas) ≡ 1
    → goals_in p (map (own_turn goals) personas) ≡ map goal_id (filter (is_for p) goals)
unfolding goals_in
goals_in-own_turns p goals [] one = cc
goals_in-own_turns p goals (q ∷ personas) one = elim (Bool-cases (q.id == p)) [
  | inl own ↦
      let rest : count p (map (λ (r : Persona). r.id) personas) ≡ 0 = ground arith in
      let same : q.id ≡ p = (==_iff q.id p).0 own in
      rw (own, none_own p goals personas rest)
        (append_nil (map goal_id (filter (is_for q.id) goals))
          ∙ ap (λ x. map goal_id (filter (is_for x) goals)) same)
  | inr other ↦ rw other (goals_in-own_turns p goals personas (rw other at one))
]

-- Every person whose identifier occurs once gets in its turns exactly the goals that are meant for
-- it or for everyone, each once and in their order.
pub turns_of-covers :
    (p : ℕ) (personas : List Persona) (goals : List Goal)
    → count p (map (λ (q : Persona). q.id) personas) ≡ 1
    → goals_in p (turns_of personas goals) ≡ map goal_id (goals_for goals p)
unfolding turns_of goals_for
turns_of-covers p personas goals one =
    elim (Bool-cases (any (λ (g : Goal). not (is_some g.persona_id)) goals)) [
      | inl shared ↦ rw shared (goals_in-own_turns p goals personas one)
      | inr all ↦ rw all (unfold goals_in in goals_in-goal_turns p [] goals all)
    ]
