-- ===== src/Protocol/Story/Trimmed.antt =====
-- How long a trimmed story is, and what stands in it.
use trawler.Base.{
  ℕ, zero, suc, ◌+◌, ◌-◌, ◌≤◌, ◌≡◌, ◌∙◌, ap, refl, sym, List, [], ◌∷◌, ◌++◌, map, ltb, length, take,
  drop, append_assoc, append_nil, arith, Bool-cases, inl, inr,
}
use trawler.Protocol.Story.{
  StoryEntry, clip, chars_of, goal_chars, keep_newest, rev_onto, last_of, trim_story, max_story,
  max_story_chars,
}

-- The characters of entries, as they stand.
abbrev pub chars_in : List StoryEntry → ℕ
chars_in [] = 0
chars_in (e ∷ entries) = length e.text + goal_chars e + chars_in entries

-- The newest entries of a story, each clipped.
pub record IsEnd (story kept : List StoryEntry) : Type 0 where
  pub older : List StoryEntry
  pub newer : List StoryEntry
  pub whole : story ≡ older ++ newer
  pub clipped : kept ≡ map clip newer

keep_newest-chars :
    (chars : ℕ) (kept entries : List StoryEntry)
    → chars_in kept ≤ chars
    → chars ≤ max_story_chars
    → chars_in (keep_newest chars kept entries) ≤ max_story_chars
unfolding keep_newest
keep_newest-chars chars kept [] in_kept few = omega (arith, in_kept)
keep_newest-chars chars kept (e ∷ entries) in_kept few =
    elim (Bool-cases (ltb max_story_chars (chars + chars_of e))) [
      | inl many ↦ rw many (omega (arith, in_kept))
      | inr more ↦ rw more (
          keep_newest-chars (chars + chars_of e) (clip e ∷ kept) entries (omega arith)
            (ground arith))
    ]

rev_onto-append : (xs ys : List StoryEntry) → rev_onto xs ys ≡ rev_onto xs [] ++ ys
rev_onto-append [] ys = refl
rev_onto-append (x ∷ xs) ys =
    rev_onto-append xs (x ∷ ys)
    ∙ sym (append_assoc (rev_onto xs []) (x ∷ []) ys)
    ∙ ap (λ l. l ++ ys) (sym (rev_onto-append xs (x ∷ [])))

rev_onto-rev_onto :
    (xs ys zs : List StoryEntry) → rev_onto (rev_onto xs ys) zs ≡ rev_onto ys (xs ++ zs)
rev_onto-rev_onto [] ys zs = refl
rev_onto-rev_onto (x ∷ xs) ys zs = rev_onto-rev_onto xs (x ∷ ys) zs

length-rev_onto : (xs ys : List StoryEntry) → length (rev_onto xs ys) ≡ length xs + length ys
length-rev_onto [] ys = omega arith
length-rev_onto (x ∷ xs) ys = omega (arith, length-rev_onto xs (x ∷ ys))

length-clipped : (xs : List StoryEntry) → length (map clip xs) ≡ length xs
length-clipped [] = refl
length-clipped (x ∷ xs) = ap suc (length-clipped xs)

take-drop : (n : ℕ) (xs : List StoryEntry) → xs ≡ take n xs ++ drop n xs
take-drop zero xs = refl
take-drop (suc n) [] = refl
take-drop (suc n) (x ∷ xs) = ap (λ l. x ∷ l) (take-drop n xs)

length-drop : (n : ℕ) (xs : List StoryEntry) → length (drop n xs) ≡ length xs - n
length-drop zero xs = omega arith
length-drop (suc n) [] = omega arith
length-drop (suc n) (x ∷ xs) = omega (arith, length-drop n xs)

-- The entries that are still to be looked at stand before those that are kept.
keep_newest-IsEnd :
    (chars n : ℕ) (newer entries story : List StoryEntry)
    → story ≡ rev_onto entries newer
    → length entries + length newer ≤ n
    → IsEnd story (keep_newest chars (map clip newer) entries)
      × (length (keep_newest chars (map clip newer) entries) ≤ n)
unfolding keep_newest
keep_newest-IsEnd chars n newer [] story e le = (
  record { older = []; newer = newer; whole = e; clipped = refl },
  omega (arith, length-clipped newer),
)
keep_newest-IsEnd chars n newer (x ∷ entries) story e le =
    elim (Bool-cases (ltb max_story_chars (chars + chars_of x))) [
      | inl many ↦ rw many (
        record {
          older = rev_onto (x ∷ entries) [];
          newer = newer;
          whole = e ∙ rev_onto-append (x ∷ entries) newer;
          clipped = refl;
        },
        omega (arith, length-clipped newer),
      )
      | inr more ↦
          rw more
            (keep_newest-IsEnd (chars + chars_of x) n (x ∷ newer) entries story e (omega arith))
    ]

-- A trimmed story is the end of the story, in its order, with long texts clipped; it has at most
-- sixty entries, and at most twelve thousand characters of texts and goals.
pub trim_story-IsEnd :
    (story : List StoryEntry)
    → IsEnd story (trim_story story)
      × (length (trim_story story) ≤ max_story)
      × (chars_in (trim_story story) ≤ max_story_chars)
unfolding trim_story
trim_story-IsEnd story =
    let recent = last_of max_story story in
    let before = take (length story - max_story) story in
    let same : recent ≡ rev_onto (rev_onto recent []) [] =
      sym (rev_onto-rev_onto recent [] [] ∙ append_nil recent) in
    let (end, few) =
      keep_newest-IsEnd 0 max_story [] (rev_onto recent []) recent same
        (omega (arith, length-rev_onto recent [], length-drop (length story - max_story) story)) in
    (
      record {
        older = before ++ end.older;
        newer = end.newer;
        whole =
            take-drop (length story - max_story) story
            ∙ ap (λ l. before ++ l) end.whole
            ∙ sym (append_assoc before end.older end.newer);
        clipped = end.clipped;
      },
      few,
      keep_newest-chars 0 [] (rev_onto recent []) (omega arith) (omega arith),
    )
