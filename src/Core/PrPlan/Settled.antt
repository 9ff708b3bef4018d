-- ===== src/Core/PrPlan/Settled.antt =====
-- What is kept of a model's plan (`settleTurns` of pr-plan.ts).
use mathlib.Core.Path.{subst}
use trawler.Base.{
  ◌≡◌, refl, ℕ, suc, ◌+◌, ◌≤◌, ◌<◌, Bool, true, false, List, [], ◌∷◌, arith, mem, length, leb, ◌++◌,
  ap, sym, ◌∙◌, append_nil, append_assoc, length-append, Option, none, some, is_some,
}
use trawler.Core.PrPlan.{
  LeadGoal, LeadTurn, Progress, AnswerTurn, WhyDropped, add_goals, why_dropped, settle_goals,
  settle_from, settle_turns, max_lead_goals, no_progress, with_goal, keep_goal, drop_goal, fresh_id,
}
use trawler.Core.PrPlan.Ids.{
  count_if_le, free_from-unused, ids_of, turn_ids, FreshIds, onto, FreshIds-append, ids-add_turn,
}

-- Only a turn of a known person has goals.
abbrev HasPerson : Option ℕ → List LeadGoal → Type 0
HasPerson person [] = Unit
HasPerson none (g ∷ goals) = 1 ≤ 0
HasPerson (some person) (g ∷ goals) = Unit

ids-add_goals :
    (person : Option ℕ) (goals : List LeadGoal) (turns : List LeadTurn)
    → HasPerson person goals
    → turn_ids (add_goals person goals turns) ≡ turn_ids turns ++ ids_of goals
ids-add_goals none [] turns h = sym (append_nil (turn_ids turns))
ids-add_goals (some person) [] turns h = sym (append_nil (turn_ids turns))
ids-add_goals none (g ∷ goals) turns h = ground arith
ids-add_goals (some person) (g ∷ goals) turns h = ids-add_turn person (g ∷ goals) turns

-- What the loop over the goals of a turn does, of which there are `n`.
record Kept (person : Option ℕ) (n : ℕ) (p : Progress) (r : Progress × List LeadGoal) : Type 0 where
  known : HasPerson person r.1
  fresh : FreshIds p.used (ids_of r.1)
  used : r.0.used ≡ onto (ids_of r.1) p.used
  kept : r.0.kept ≡ p.kept + length (ids_of r.1)
  total : r.0.kept + r.0.dropped ≡ p.kept + p.dropped + n
  limit : p.kept ≤ max_lead_goals → r.0.kept ≤ max_lead_goals

Kept-drop :
    (person : Option ℕ) (n : ℕ) (instruction : List ℕ) (why : WhyDropped) (p : Progress)
    (r : Progress × List LeadGoal)
    → Kept person n (drop_goal instruction why p) r
    → Kept person (suc n) p r
Kept-drop person n instruction why p r k = record {
  known = k.known;
  fresh = k.fresh;
  used = k.used;
  kept = k.kept;
  total = omega (arith, k.total);
  limit = k.limit;
}

HasPerson-some :
    (person : Option ℕ) (g : LeadGoal) (goals : List LeadGoal)
    → is_some person ≡ true
    → HasPerson person (g ∷ goals)
HasPerson-some none g goals h = cc
HasPerson-some (some person) g goals h = tt

Kept-keep :
    (person : Option ℕ) (n : ℕ) (g : LeadGoal) (p : Progress) (r : Progress × List LeadGoal)
    → mem g.id p.used ≡ false
    → p.kept < max_lead_goals
    → is_some person ≡ true
    → Kept person n (keep_goal g.id p) r
    → Kept person (suc n) p (with_goal g r)
Kept-keep person n g p r new lt named k = record {
  known = HasPerson-some person g r.1 named;
  fresh = (new, k.fresh);
  used = k.used;
  kept = omega (arith, k.kept);
  total = omega (arith, k.total);
  limit = λ h. k.limit (omega arith);
}

module _ (person_id : ℕ → Option ℕ) (clip : List ℕ → List ℕ)
    (leaks_pull_request : List ℕ → Bool) where
  why_dropped-kept :
      (person : Option ℕ) (instruction : List ℕ) (kept : ℕ)
      → why_dropped person_id clip leaks_pull_request person instruction kept ≡ none
      → (kept < max_lead_goals) × (is_some person ≡ true)
  why_dropped-kept none instruction kept h = cc
  why_dropped-kept (some person) [] kept h = cc
  why_dropped-kept (some person) (c ∷ instruction) kept h = (ground arith, refl)

  settle_goal :
      (person : Option ℕ) (g : List ℕ) (goals : List (List ℕ)) (p : Progress)
      (w : Option WhyDropped)
      → why_dropped person_id clip leaks_pull_request person (clip g) p.kept ≡ w
      → ((q : Progress)
          → Kept person
              (length goals)
              q
              (settle_goals person_id clip leaks_pull_request person goals q))
      → Kept person (suc (length goals)) p (elim w [
        | some why ↦
            settle_goals person_id clip leaks_pull_request person goals (drop_goal (clip g) why p)
        | none ↦
            with_goal
              (record { id = fresh_id p; instruction = clip g })
              (settle_goals person_id clip leaks_pull_request person goals
                (keep_goal (fresh_id p) p))
      ])
  settle_goal person g goals p (some why) e rest =
      Kept-drop person (length goals) (clip g) why p
        (settle_goals person_id clip leaks_pull_request person goals (drop_goal (clip g) why p))
        (rest (drop_goal (clip g) why p))
  settle_goal person g goals p none e rest =
      let (lt, named) = why_dropped-kept person (clip g) p.kept e in
      Kept-keep person (length goals) (record { id = fresh_id p; instruction = clip g }) p
        (settle_goals person_id clip leaks_pull_request person goals (keep_goal (fresh_id p) p))
        (free_from-unused (length p.used) p.used (suc p.kept)
          (count_if_le (λ x. leb (suc p.kept) x) p.used))
        lt named (rest (keep_goal (fresh_id p) p))

  settle_goals-Kept :
      (person : Option ℕ) (goals : List (List ℕ)) (p : Progress)
      → Kept person (length goals) p (settle_goals person_id clip leaks_pull_request person goals p)
  unfolding settle_goals
  settle_goals-Kept person [] p = record {
    known = tt;
    fresh = tt;
    used = refl;
    kept = omega arith;
    total = omega arith;
    limit = λ h. h;
  }
  settle_goals-Kept person (g ∷ goals) p =
      settle_goal person g goals p
        (why_dropped person_id clip leaks_pull_request person (clip g) p.kept) refl
        (λ q. settle_goals-Kept person goals q)

-- How many goals the answer has.
abbrev pub goal_count : List AnswerTurn → ℕ
goal_count [] = 0
goal_count (t ∷ answer) = length t.goals + goal_count answer

-- What the loop over the turns adds to the turns that are there.
record Added (answer : List AnswerTurn) (p : Progress) (turns : List LeadTurn)
    (r : Progress × List LeadTurn) : Type 0 where
  new : List ℕ
  ids : turn_ids r.1 ≡ turn_ids turns ++ new
  fresh : FreshIds p.used new
  kept : r.0.kept ≡ p.kept + length new
  total : r.0.kept + r.0.dropped ≡ p.kept + p.dropped + goal_count answer
  limit : p.kept ≤ max_lead_goals → r.0.kept ≤ max_lead_goals

Added-turn :
    (t : AnswerTurn) (answer : List AnswerTurn) (p : Progress) (turns : List LeadTurn)
    (person : Option ℕ) (g : Progress × List LeadGoal) (r : Progress × List LeadTurn)
    → Kept person (length t.goals) p g
    → Added answer g.0 (add_goals person g.1 turns) r
    → Added (t ∷ answer) p turns r
Added-turn t answer p turns person g r k l = record {
  new = ids_of g.1 ++ l.new;
  ids =
      l.ids
      ∙ ap (λ xs. xs ++ l.new) (ids-add_goals person g.1 turns k.known)
      ∙ append_assoc (turn_ids turns) (ids_of g.1) l.new;
  fresh =
      FreshIds-append p.used (ids_of g.1) l.new k.fresh
        (subst (λ used. FreshIds used l.new) k.used l.fresh);
  kept = omega (arith, k.kept, l.kept, length-append (ids_of g.1) l.new);
  total = omega (arith, k.total, l.total);
  limit = λ h. l.limit (k.limit h);
}

-- What is kept of a plan.
pub record IsSettled (answer : List AnswerTurn) (taken : List ℕ) (r : Progress × List LeadTurn)
    : Type 0 where
  pub fresh : FreshIds taken (turn_ids r.1)
  pub kept : r.0.kept ≡ length (turn_ids r.1)
  pub total : r.0.kept + r.0.dropped ≡ goal_count answer
  pub limit : r.0.kept ≤ max_lead_goals

Added-IsSettled :
    (answer : List AnswerTurn) (taken : List ℕ) (r : Progress × List LeadTurn)
    → Added answer (no_progress taken) [] r
    → IsSettled answer taken r
Added-IsSettled answer taken r l = record {
  fresh = subst (λ xs. FreshIds taken xs) (sym l.ids) l.fresh;
  kept = omega (arith, l.kept, ap (λ (xs : List ℕ). length xs) l.ids);
  total = omega (arith, l.total);
  limit = l.limit (omega arith);
}

module _ (person_id : ℕ → Option ℕ) (clip : List ℕ → List ℕ)
    (leaks_pull_request : List ℕ → Bool) where
  settle_from-Added :
      (answer : List AnswerTurn) (p : Progress) (turns : List LeadTurn)
      → Added answer p turns (settle_from person_id clip leaks_pull_request answer p turns)
  unfolding settle_from
  settle_from-Added [] p turns = record {
    new = [];
    ids = sym (append_nil (turn_ids turns));
    fresh = tt;
    kept = omega arith;
    total = omega arith;
    limit = λ h. h;
  }
  settle_from-Added (t ∷ answer) p turns =
      let person = person_id t.person in
      let g = settle_goals person_id clip leaks_pull_request person t.goals p in
      let turns' = add_goals person g.1 turns in
      Added-turn t answer p turns person g
        (settle_from person_id clip leaks_pull_request answer g.0 turns')
        (settle_goals-Kept person_id clip leaks_pull_request person t.goals p)
        (settle_from-Added answer g.0 turns')

  -- However persons are named, instructions clipped and leaks found: of the goals of an answer, at
  -- most `max_lead_goals` are kept, and those kept and those counted as dropped are all of them.
  -- The turns hold as many goals as are counted as kept, and each of them has an id that is not
  -- taken and that no other goal has.
  pub settle_turns-IsSettled :
      (answer : List AnswerTurn) (taken : List ℕ)
      → IsSettled answer taken (settle_turns person_id clip leaks_pull_request answer taken)
  unfolding settle_turns
  settle_turns-IsSettled answer taken =
      Added-IsSettled answer taken
        (settle_from person_id clip leaks_pull_request answer (no_progress taken) [])
        (settle_from-Added answer (no_progress taken) [])
