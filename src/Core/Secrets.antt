-- ===== src/Core/Secrets.antt =====
-- How the secrets that were found in a text are masked (`#scrubText` of
-- packages/core/src/secrets.ts). Where they are found is a parameter: ranges of positions, each
-- from its start to before its end. A text is a list of characters.
pub mod Masked
pub mod Search
pub mod Scrubber
use trawler.Base.{
  ℕ, suc, ◌-◌, max, Bool, true, false, List, [], ◌∷◌, ◌++◌, leb, ltb, not, ◌&&◌, ◌||◌,
  if◌then◌else◌, any, take, drop, length,
}

pub record Range : Type 0 where
  pub start : ℕ
  pub end : ℕ

-- A part of the output: characters of the text, to an end or all that follow; or the mask.
pub data Piece : Type 0 where
  slice : ℕ → ℕ → Piece
  slice_from : ℕ → Piece
  masked : Piece

abbrev pub insert_range : Range → List Range → List Range
insert_range r [] = r ∷ []
insert_range r (s ∷ ranges) =
    let rest = insert_range r ranges in if leb r.start s.start then r ∷ s ∷ ranges else s ∷ rest

-- `ranges.sort((a, b) => a[0] - b[0])`
unfoldable pub sort_ranges : List Range → List Range
sort_ranges [] = []
sort_ranges (r ∷ ranges) = insert_range r (sort_ranges ranges)

-- The loop: ranges that overlap or touch become one mask.
unfoldable pub merge_ranges : ℕ → ℕ → ℕ → List Range → List Piece
merge_ranges cursor start end [] = slice cursor start ∷ masked ∷ slice_from end ∷ []
merge_ranges cursor start end (r ∷ ranges) =
    let joined = merge_ranges cursor start (max end r.end) ranges in
    let apart = merge_ranges end r.start r.end ranges in
    if leb r.start end then joined else slice cursor start ∷ masked ∷ apart

abbrev pub pieces_of : List Range → List Piece
pieces_of [] = slice_from 0 ∷ []
pieces_of (r ∷ ranges) = merge_ranges 0 r.start r.end ranges

unfoldable pub scrub_pieces : List Range → List Piece
unfolding sort_ranges merge_ranges
scrub_pieces ranges = pieces_of (sort_ranges ranges)

-- `MASK`, of the characters of the text's alphabet.
module _ (mask : List ℕ) where
  abbrev pub render : List ℕ → List Piece → List ℕ
  render text [] = []
  render text (slice from to ∷ pieces) = take (to - from) (drop from text) ++ render text pieces
  render text (slice_from from ∷ pieces) = drop from text ++ render text pieces
  render text (masked ∷ pieces) = mask ++ render text pieces

  unfoldable pub scrub_text : List Range → List ℕ → List ℕ
  unfolding scrub_pieces
  scrub_text ranges text = render text (scrub_pieces ranges)
