-- ===== src/Core/PrPlan/Ids.antt =====
-- The ids that the goals of a plan get (`settleTurns` of pr-plan.ts).
use trawler.Base.{
  ◌≡◌, refl, ℕ, zero, suc, ◌≤◌, ◌<◌, Bool, true, false, List, [], ◌∷◌, arith, mem, length, leb,
  ◌++◌, ap, sym, ◌∙◌, append_nil, append_assoc, if◌then◌else◌, ◌==◌,
}
use trawler.Base.Rows.{count_if}
use trawler.Core.PrPlan.{free_from, LeadGoal, LeadTurn, add_turn}

pub count_if_le : (p : ℕ → Bool) (xs : List ℕ) → count_if p xs ≤ length xs
unfolding count_if
count_if_le p [] = omega arith
count_if_le p (x ∷ xs) = ground (arith, count_if_le p xs)

count_from_suc_le :
    (n : ℕ) (xs : List ℕ) → count_if (λ x. leb (suc n) x) xs ≤ count_if (λ x. leb n x) xs
unfolding count_if
count_from_suc_le n [] = omega arith
count_from_suc_le n (x ∷ xs) = ground (arith, count_from_suc_le n xs)

count_from_suc_lt :
    (n : ℕ) (xs : List ℕ)
    → mem n xs ≡ true
    → count_if (λ x. leb (suc n) x) xs < count_if (λ x. leb n x) xs
unfolding count_if
count_from_suc_lt n [] h = cc
count_from_suc_lt n (x ∷ xs) h = ground (arith, count_from_suc_lt n xs, count_from_suc_le n xs)

-- Enough fuel for the search: as many as the used numbers from `n` on.
pub free_from-unused :
    (fuel : ℕ) (used : List ℕ) (n : ℕ)
    → count_if (λ x. leb n x) used ≤ fuel
    → mem (free_from fuel used n) used ≡ false
unfolding free_from
free_from-unused zero used n h = ground (arith, count_from_suc_lt n used)
free_from-unused (suc fuel) used n h =
    ground (arith, count_from_suc_lt n used, free_from-unused fuel used (suc n))

abbrev pub ids_of : List LeadGoal → List ℕ
ids_of [] = []
ids_of (g ∷ goals) = g.id ∷ ids_of goals

abbrev pub turn_ids : List LeadTurn → List ℕ
turn_ids [] = []
turn_ids (t ∷ turns) = ids_of t.goals ++ turn_ids turns

-- Each id is neither used before nor an earlier one of the list.
abbrev pub FreshIds : List ℕ → List ℕ → Type 0
FreshIds used [] = Unit
FreshIds used (id ∷ ids) = (mem id used ≡ false) × FreshIds (id ∷ used) ids

abbrev pub onto : List ℕ → List ℕ → List ℕ
onto [] used = used
onto (id ∷ ids) used = onto ids (id ∷ used)

pub FreshIds-append :
    (used xs ys : List ℕ) → FreshIds used xs → FreshIds (onto xs used) ys → FreshIds used (xs ++ ys)
FreshIds-append used [] ys h k = k
FreshIds-append used (x ∷ xs) ys (new, h) k = (new, FreshIds-append (x ∷ used) xs ys h k)

ids-append : (xs ys : List LeadGoal) → ids_of (xs ++ ys) ≡ ids_of xs ++ ids_of ys
ids-append [] ys = refl
ids-append (x ∷ xs) ys = ap (λ l. x.id ∷ l) (ids-append xs ys)

add_turn-same :
    (b : Bool) (t : LeadTurn) (person : ℕ) (goals : List LeadGoal)
    → turn_ids (
        if b
        then record t { goals = t.goals ++ goals } ∷ []
        else t ∷ record { person = person; goals = goals } ∷ [])
      ≡ (ids_of t.goals ++ []) ++ ids_of goals
add_turn-same true t person goals =
    append_nil (ids_of (t.goals ++ goals))
    ∙ ids-append t.goals goals
    ∙ ap (λ l. l ++ ids_of goals) (sym (append_nil (ids_of t.goals)))
add_turn-same false t person goals =
    ap (λ l. ids_of t.goals ++ l) (append_nil (ids_of goals))
    ∙ ap (λ l. l ++ ids_of goals) (sym (append_nil (ids_of t.goals)))

pub ids-add_turn :
    (person : ℕ) (goals : List LeadGoal) (turns : List LeadTurn)
    → turn_ids (add_turn person goals turns) ≡ turn_ids turns ++ ids_of goals
unfolding add_turn
ids-add_turn person goals [] = append_nil (ids_of goals)
ids-add_turn person goals (t ∷ []) = add_turn-same (t.person == person) t person goals
ids-add_turn person goals (t ∷ u ∷ turns) =
    ap (λ l. ids_of t.goals ++ l) (ids-add_turn person goals (u ∷ turns))
    ∙ sym (append_assoc (ids_of t.goals) (turn_ids (u ∷ turns)) (ids_of goals))
