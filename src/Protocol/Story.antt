-- ===== src/Protocol/Story.antt =====
-- What is kept of the story of earlier turns (`trimStory` of packages/protocol/src/runner.ts). A
-- text is a list of characters.
pub mod Trimmed
use trawler.Base.{
  ℕ, suc, ◌+◌, ◌-◌, Bool, Option, none, some, List, [], ◌∷◌, ◌++◌, ltb, if◌then◌else◌, length, take,
  drop,
}

-- `MAX_STORY`, `MAX_STORY_ENTRY`, `MAX_STORY_CHARS`
abbrev pub max_story : ℕ
max_story = 60

abbrev pub max_story_entry : ℕ
max_story_entry = 500

abbrev pub max_story_chars : ℕ
max_story_chars = 12000

pub record StoryEntry : Type 0 where
  pub persona_id : ℕ
  pub goal : Option (List ℕ)
  pub text : List ℕ

-- "…"
abbrev ellipsis : ℕ
ellipsis = 8230

abbrev pub clip : StoryEntry → StoryEntry
clip e = record e {
  text =
      if ltb max_story_entry (length e.text)
      then take (max_story_entry - 1) e.text ++ ellipsis ∷ []
      else e.text;
}

abbrev pub goal_chars : StoryEntry → ℕ
goal_chars e = elim e.goal [ none ↦ 0 | some goal ↦ length goal ]

abbrev pub chars_of : StoryEntry → ℕ
chars_of e = length (clip e).text + goal_chars e

-- The loop, from the newest entry on.
unfoldable pub keep_newest : ℕ → List StoryEntry → List StoryEntry → List StoryEntry
keep_newest chars kept [] = kept
keep_newest chars kept (e ∷ entries) =
    let longer = keep_newest (chars + chars_of e) (clip e ∷ kept) entries in
    if ltb max_story_chars (chars + chars_of e) then kept else longer

-- `reverse()`
abbrev pub rev_onto : List StoryEntry → List StoryEntry → List StoryEntry
rev_onto [] ys = ys
rev_onto (x ∷ xs) ys = rev_onto xs (x ∷ ys)

-- `slice(-n)`
abbrev pub last_of : ℕ → List StoryEntry → List StoryEntry
last_of n xs = drop (length xs - n) xs

unfoldable pub trim_story : List StoryEntry → List StoryEntry
unfolding keep_newest
trim_story story = keep_newest 0 [] (rev_onto (last_of max_story story) [])
