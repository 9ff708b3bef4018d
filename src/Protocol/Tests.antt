-- ===== src/Protocol/Tests.antt =====
-- The plans and groups of protocol at concrete values.
use trawler.Base.{length, ◌≤◌, none, ℕ, ◌≡◌, refl, some, List, [], ◌∷◌, All, count, map, arith}
use trawler.Protocol.Groups.{settle_groups}
use trawler.Protocol.Groups.Partition.{occurrences, NonEmpty, settle_groups-partition}
use trawler.Protocol.Story.{StoryEntry, trim_story, max_story, max_story_chars}
use trawler.Protocol.Story.Trimmed.{IsEnd, chars_in, trim_story-IsEnd}
use trawler.Protocol.Turns.{Persona, Goal, turns_of, goals_for, goal_id}
use trawler.Protocol.Turns.Covers.{goals_in, turns_of-covers}

abbrev keys : List ℕ
keys = 1 ∷ 2 ∷ 3 ∷ []

-- A group with a key that was not reported, and one that repeats a key.
abbrev groups : List (List ℕ)
groups = (1 ∷ 9 ∷ 3 ∷ []) ∷ (3 ∷ []) ∷ []

settle_groups-partition_example :
    (occurrences 3 (settle_groups keys groups) ≡ count 3 keys)
    × All NonEmpty (settle_groups keys groups)
settle_groups-partition_example = settle_groups-partition 3 keys groups (omega arith)

abbrev people : List Persona
people = record { id = 1; name = 11 } ∷ record { id = 2; name = 12 } ∷ []

abbrev goals : List Goal
goals =
    record { id = 5; persona_id = some 1 }
    ∷ record { id = 6; persona_id = some 2 }
    ∷ record { id = 7; persona_id = some 1 }
    ∷ []

turns_of-covers_example : goals_in 1 (turns_of people goals) ≡ map goal_id (goals_for goals 1)
turns_of-covers_example = turns_of-covers 1 people goals refl

abbrev story : List StoryEntry
story =
    record { persona_id = 1; goal = none; text = 65 ∷ 66 ∷ [] }
    ∷ record { persona_id = 2; goal = some (71 ∷ []); text = 67 ∷ [] }
    ∷ []

trim_story-IsEnd_example :
    IsEnd story (trim_story story)
    × (length (trim_story story) ≤ max_story)
    × (chars_in (trim_story story) ≤ max_story_chars)
trim_story-IsEnd_example = trim_story-IsEnd story
