-- ===== src/Core/Tests/Plans.antt =====
-- A plan of two turns: one of its people is not known, and one of its goals is empty.
use trawler.Base.{ℕ, Bool, Option, none, some, List, [], ◌∷◌, ◌==◌, if◌then◌else◌, mem, take}
use trawler.Core.PrPlan.{AnswerTurn, settle_turns}
use trawler.Core.PrPlan.Settled.{IsSettled, settle_turns-IsSettled}

abbrev known_person : ℕ → Option ℕ
known_person n = if n == 9 then none else some n

abbrev first_chars : List ℕ → List ℕ
first_chars = take 300

abbrev has_slash : List ℕ → Bool
has_slash = mem 47

abbrev plan : List AnswerTurn
plan =
    record { person = 1; goals = (65 ∷ 66 ∷ []) ∷ [] ∷ (65 ∷ 47 ∷ []) ∷ [] }
    ∷ record { person = 9; goals = (67 ∷ []) ∷ [] }
    ∷ record { person = 1; goals = (68 ∷ []) ∷ [] }
    ∷ []

settle_turns-IsSettled_example :
    IsSettled plan (1 ∷ 4 ∷ []) (settle_turns known_person first_chars has_slash plan (1 ∷ 4 ∷ []))
settle_turns-IsSettled_example =
    settle_turns-IsSettled known_person first_chars has_slash plan (1 ∷ 4 ∷ [])
