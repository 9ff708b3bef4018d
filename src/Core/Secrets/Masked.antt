-- ===== src/Core/Secrets/Masked.antt =====
-- Which characters of a text are left when its secrets are masked.
use trawler.Base.{
  ℕ, ◌≤◌, ◌<◌, ◌≡◌, ◌∙◌, ap, refl, max, Bool, false, List, [], ◌∷◌, leb, ltb, not, ◌&&◌, ◌||◌, any,
  arith, Bool-cases, inl, inr, All,
}
use trawler.Core.Secrets.{
  Range, Piece, slice, slice_from, masked, insert_range, sort_ranges, merge_ranges, pieces_of,
  scrub_pieces,
}

abbrev pub covers : ℕ → Range → Bool
covers i r = leb r.start i && ltb i r.end

-- Whether a piece shows the character at a position.
abbrev pub shows : ℕ → Piece → Bool
shows i (slice from to) = leb from i && ltb i to
shows i (slice_from from) = leb from i
shows i masked = false

-- The ranges from here on start no earlier.
abbrev From : ℕ → List Range → Type 0
From n = All (λ (r : Range). n ≤ r.start)

abbrev Sorted : List Range → Type 0
Sorted [] = Unit
Sorted (r ∷ ranges) = From r.start ranges × Sorted ranges

abbrev pub IsRange : Range → Type 0
IsRange r = r.start ≤ r.end

covers-before :
    (i n : ℕ) (ranges : List Range) → i < n → From n ranges → any (covers i) ranges ≡ false
covers-before i n [] lt from = refl
covers-before i n (r ∷ ranges) lt (low, from) = ground (arith, covers-before i n ranges lt from)

merge_ranges-shows :
    (i cursor start end : ℕ) (ranges : List Range)
    → cursor ≤ start
    → start ≤ end
    → From start ranges
    → Sorted ranges
    → All IsRange ranges
    → any (shows i) (merge_ranges cursor start end ranges)
      ≡ (leb cursor i && not (leb start i && ltb i end) && not (any (covers i) ranges))
unfolding merge_ranges
merge_ranges-shows i cursor start end [] low high from sorted all = ground arith
merge_ranges-shows i cursor start end (r ∷ ranges) low high (later, from) (first, sorted)
      (is, all) =
    elim (Bool-cases (leb r.start end)) [
      | inl touch ↦ rw touch (
          merge_ranges-shows i cursor start (max end r.end) ranges low (omega arith) from sorted all
          ∙ ground arith)
      | inr apart ↦ rw apart (
          ground (
            arith,
            merge_ranges-shows i end r.start r.end ranges (ground arith) is first sorted all,
            covers-before i start ranges,
            covers-before i start ranges,
          ))
    ]

pieces_of-shows :
    (i : ℕ) (ranges : List Range)
    → Sorted ranges
    → All IsRange ranges
    → any (shows i) (pieces_of ranges) ≡ not (any (covers i) ranges)
pieces_of-shows i [] sorted all = ground arith
pieces_of-shows i (r ∷ ranges) (first, sorted) (is, all) =
    merge_ranges-shows i 0 r.start r.end ranges (omega arith) is first sorted all ∙ ground arith

-- Sorting.

From-insert_range :
    (n : ℕ) (r : Range) (ranges : List Range)
    → n ≤ r.start
    → From n ranges
    → From n (insert_range r ranges)
From-insert_range n r [] low from = (low, tt)
From-insert_range n r (s ∷ ranges) low (next, from) = elim (Bool-cases (leb r.start s.start)) [
  | inl before ↦ rw before (low, (next, from))
  | inr after ↦ rw after (next, From-insert_range n r ranges low from)
]

From-lower : (m n : ℕ) (ranges : List Range) → m ≤ n → From n ranges → From m ranges
From-lower m n [] le from = tt
From-lower m n (r ∷ ranges) le (low, from) = (omega (arith, low), From-lower m n ranges le from)

Sorted-insert_range :
    (r : Range) (ranges : List Range) → Sorted ranges → Sorted (insert_range r ranges)
Sorted-insert_range r [] sorted = (tt, tt)
Sorted-insert_range r (s ∷ ranges) (first, sorted) = elim (Bool-cases (leb r.start s.start)) [
  | inl before ↦
      rw before
        ((ground arith, From-lower r.start s.start ranges (ground arith) first), (first, sorted))
  | inr after ↦
      rw after (
        From-insert_range s.start r ranges (ground arith) first,
        Sorted-insert_range r ranges sorted,
      )
]

All-insert_range :
    (r : Range) (ranges : List Range)
    → IsRange r
    → All IsRange ranges
    → All IsRange (insert_range r ranges)
All-insert_range r [] is all = (is, tt)
All-insert_range r (s ∷ ranges) is (next, all) = elim (Bool-cases (leb r.start s.start)) [
  | inl before ↦ rw before (is, (next, all))
  | inr after ↦ rw after (next, All-insert_range r ranges is all)
]

covers-insert_range :
    (i : ℕ) (r : Range) (ranges : List Range)
    → any (covers i) (insert_range r ranges) ≡ (covers i r || any (covers i) ranges)
covers-insert_range i r [] = refl
covers-insert_range i r (s ∷ ranges) = ground (arith, covers-insert_range i r ranges)

sort_ranges-Sorted : (ranges : List Range) → Sorted (sort_ranges ranges)
unfolding sort_ranges
sort_ranges-Sorted [] = tt
sort_ranges-Sorted (r ∷ ranges) =
    Sorted-insert_range r (sort_ranges ranges) (sort_ranges-Sorted ranges)

sort_ranges-All : (ranges : List Range) → All IsRange ranges → All IsRange (sort_ranges ranges)
unfolding sort_ranges
sort_ranges-All [] all = tt
sort_ranges-All (r ∷ ranges) (is, all) =
    All-insert_range r (sort_ranges ranges) is (sort_ranges-All ranges all)

covers-sort_ranges :
    (i : ℕ) (ranges : List Range) → any (covers i) (sort_ranges ranges) ≡ any (covers i) ranges
unfolding sort_ranges
covers-sort_ranges i [] = refl
covers-sort_ranges i (r ∷ ranges) =
    covers-insert_range i r (sort_ranges ranges)
    ∙ ap (λ b. covers i r || b) (covers-sort_ranges i ranges)

-- However the ranges in which secrets were found lie, overlapping or not, the scrubbed text shows
-- the characters that stand in none of them, and no other character of the text.
pub scrub_pieces-shows :
    (i : ℕ) (ranges : List Range)
    → All IsRange ranges
    → any (shows i) (scrub_pieces ranges) ≡ not (any (covers i) ranges)
unfolding scrub_pieces
scrub_pieces-shows i ranges all =
    pieces_of-shows i (sort_ranges ranges) (sort_ranges-Sorted ranges) (sort_ranges-All ranges all)
    ∙ ap not (covers-sort_ranges i ranges)
