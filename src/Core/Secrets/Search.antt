-- ===== src/Core/Secrets/Search.antt =====
-- Where a secret stands in a text (`borders`, `nativeMatches`, `kmpMatches` and the loop over the
-- needles of `#scrubText`, packages/core/src/secrets.ts). A text is a list of code units; its own
-- `indexOf` and `startsWith` are the language's. `fuel` bounds the inner loops.
pub mod Prefixes
pub mod Borders
pub mod Occurrences
pub mod Kmp
pub mod Tails
pub mod Native
pub mod Ranges
pub mod Everywhere
use trawler.Base.{
  ℕ, zero, suc, ◌+◌, ◌-◌, Bool, true, false, Option, none, some, List, [], ◌∷◌, ◌++◌, leb, ltb,
  ◌==◌, not, ◌&&◌, if◌then◌else◌, drop, length,
}
use trawler.Core.Secrets.{Range}

-- `NATIVE_SEARCH_MAX`
abbrev pub native_search_max : ℕ
native_search_max = 250

-- A position inside of the list, as every position that is read.
abbrev pub char_at : List ℕ → ℕ → ℕ
char_at [] i = 0
char_at (c ∷ cs) zero = c
char_at (c ∷ cs) (suc i) = char_at cs i

abbrev pub set : List ℕ → ℕ → ℕ → List ℕ
set [] i v = []
set (x ∷ xs) zero v = v ∷ xs
set (x ∷ xs) (suc i) v = x ∷ set xs i v

abbrev pub replicate : ℕ → ℕ → List ℕ
replicate zero v = []
replicate (suc n) v = v ∷ replicate n v

-- `while (k > 0 && c !== needle[k]) k = border[k - 1]`
unfoldable pub fall_back : ℕ → List ℕ → List ℕ → ℕ → ℕ → ℕ
fall_back zero border needle c k = k
fall_back (suc fuel) border needle c k =
    let shorter = fall_back fuel border needle c (char_at border (k - 1)) in
    if ltb 0 k && not (c == char_at needle k) then shorter else k

-- One character more: `if (c === needle[k]) k++`.
unfoldable pub advance : List ℕ → List ℕ → ℕ → ℕ → ℕ
unfolding fall_back
advance border needle c k =
    let k' = fall_back k border needle c k in if c == char_at needle k' then suc k' else k'

-- `rounds` is what is left of the needle from `i` on.
unfoldable pub borders_from : ℕ → List ℕ → ℕ → ℕ → List ℕ → List ℕ
unfolding advance
borders_from zero needle i k border = border
borders_from (suc rounds) needle i k border =
    let k' = advance border needle (char_at needle i) k in
    borders_from rounds needle (suc i) k' (set border i k')

unfoldable pub borders : List ℕ → List ℕ
unfolding borders_from
borders needle = borders_from (length needle - 1) needle 1 0 (replicate (length needle) 0)

-- A match that touches the last range that was found extends it; else that range is complete, and
-- the match is the last one found.
abbrev pub hit : Option Range → ℕ → ℕ → List Range × Option Range
hit none at end = ([], some (record { start = at; end = end }))
hit (some r) at end =
    if leb at r.end
    then ([], some (record { start = r.start; end = end }))
    else (r ∷ [], some (record { start = at; end = end }))

abbrev pub close : Option Range → List Range
close none = []
close (some r) = r ∷ []

-- What one round of the search pushes, the last range found, and the length that matches.
abbrev pub kmp_round : ℕ → List ℕ → ℕ → ℕ → Option Range → List Range × Option Range × ℕ
kmp_round m border i k found =
    if ltb k m
    then ([], found, k)
    else (let (out, found') = hit found (suc i - m) (suc i) in
        (out, found', char_at border (k - 1)))

unfoldable pub kmp_from : ℕ → List ℕ → List ℕ → List ℕ → ℕ → ℕ → Option Range → List Range
unfolding advance
kmp_from zero text needle border i k found = close found
kmp_from (suc rounds) text needle border i k found =
    let k' = advance border needle (char_at text i) k in
    let (out, found', k'') = kmp_round (length needle) border i k' found in
    out ++ kmp_from rounds text needle border (suc i) k'' found'

unfoldable pub kmp_matches : List ℕ → List ℕ → List ℕ → List Range
unfolding kmp_from
kmp_matches text needle border = kmp_from (length text) text needle border 0 0 none

-- `text.startsWith(needle)`
abbrev pub starts_with : List ℕ → List ℕ → Bool
starts_with text [] = true
starts_with [] (c ∷ needle) = false
starts_with (d ∷ text) (c ∷ needle) = d == c && starts_with text needle

-- `text.startsWith(needle, at)`
abbrev pub stands_at : List ℕ → List ℕ → ℕ → Bool
stands_at text needle at = starts_with (drop at text) needle

-- `text.indexOf(needle, at)`, of which there are `rounds` positions left to try.
unfoldable pub index_of : ℕ → List ℕ → List ℕ → ℕ → Option ℕ
index_of zero text needle at = none
index_of (suc rounds) text needle at =
    let later = index_of rounds text needle (suc at) in
    if stands_at text needle at then some at else later

-- `while (text.startsWith(tail, end)) end += tail.length`
unfoldable pub extend : ℕ → List ℕ → List ℕ → ℕ → ℕ
extend zero text tail end = end
extend (suc fuel) text tail end =
    let longer = extend fuel text tail (end + length tail) in
    if stands_at text tail end then longer else end

unfoldable pub native_from : ℕ → List ℕ → List ℕ → List ℕ → ℕ → Option Range → List Range
unfolding index_of extend
native_from zero text needle tail from found = close found
native_from (suc fuel) text needle tail from found =
    elim (index_of (suc (length text) - from) text needle from) [
      | none ↦ close found
      | some at ↦
          let end = extend (length text) text tail (at + length needle) in
          let (out, found') = hit found at end in
          out ++ native_from fuel text needle tail (suc (end - length needle)) found'
    ]

unfoldable pub native_matches : List ℕ → List ℕ → List ℕ → List Range
unfolding native_from
native_matches text needle tail = native_from (suc (length text)) text needle tail 0 none

unfoldable pub matches : List ℕ → List ℕ → List Range
unfolding borders kmp_matches native_matches
matches text needle =
    let border = borders needle in
    if ltb native_search_max (length needle)
    then kmp_matches text needle border
    else native_matches text needle (drop (char_at border (length needle - 1)) needle)

-- The ranges of all needles.
unfoldable pub all_matches : List ℕ → List (List ℕ) → List Range
unfolding matches
all_matches text [] = []
all_matches text (needle ∷ needles) = matches text needle ++ all_matches text needles
