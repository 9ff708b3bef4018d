-- ===== src/Core/Secrets/Search/Everywhere.antt =====
-- What both searches find of all secrets, and what scrubbing leaves of a text.
use trawler.Base.{
  ℕ, ◌<◌, ◌≤◌, ◌≡◌, ◌∙◌, sym, refl, arith, List, [], ◌∷◌, ◌⊎◌, inl, inr, ◌↔◌, Bool, true, false,
  not, ◌-◌, drop, ltb, Bool-cases, length, any, any-append, All,
}
use trawler.Core.Secrets.{scrub_pieces}
use trawler.Core.Secrets.Masked.{covers, shows, scrub_pieces-shows}
use trawler.Core.Secrets.Search.{
  matches, all_matches, kmp_matches, native_matches, borders, char_at, native_search_max,
}
use trawler.Core.Secrets.Search.Occurrences.{Covered, true-or, or-left, or-right}
use trawler.Core.Secrets.Search.Ranges.{all_matches-IsRange}
use trawler.Core.Secrets.Search.Kmp.{kmp_matches_sound, kmp_matches_complete}
use trawler.Core.Secrets.Search.Native.{native_matches_sound, native_matches_complete}

-- Every needle has a character.
abbrev pub AreNeedles : List (List ℕ) → Type 0
AreNeedles = All (λ (needle : List ℕ). 0 < length needle)

Bool-eq : (a b : Bool) → (a ≡ true → b ≡ true) → (b ≡ true → a ≡ true) → a ≡ b
Bool-eq true b h k = sym (h refl)
Bool-eq false true h k = k refl
Bool-eq false false h k = refl

-- For a needle that is not empty, the search by the table of borders and the search by `indexOf`
-- cover the same positions of the text.
pub kmp_matches-native_matches :
    (text needle : List ℕ) (p : ℕ)
    → 0 < length needle
    → any (covers p) (kmp_matches text needle (borders needle))
      ≡ any
          (covers p)
          (native_matches text needle (drop (char_at (borders needle) (length needle - 1)) needle))
kmp_matches-native_matches text needle p pos =
    Bool-eq (any (covers p) (kmp_matches text needle (borders needle)))
      (any (covers p)
        (native_matches text needle (drop (char_at (borders needle) (length needle - 1)) needle)))
      (λ h. native_matches_complete text needle pos p (kmp_matches_sound text needle pos p h))
      (λ h. kmp_matches_complete text needle pos p (native_matches_sound text needle pos p h))

-- For a needle that is not empty, of any length, the ranges that are found cover exactly the
-- positions of the text that belong to an occurrence of the needle.
pub matches-Covered :
    (text needle : List ℕ) (p : ℕ)
    → 0 < length needle
    → (any (covers p) (matches text needle) ≡ true) ↔ Covered text needle p
unfolding matches
matches-Covered text needle p pos = elim (Bool-cases (ltb native_search_max (length needle))) [
  | inl long ↦ rw long (kmp_matches_sound text needle pos p, kmp_matches_complete text needle pos p)
  | inr short ↦
      rw short (native_matches_sound text needle pos p, native_matches_complete text needle pos p)
]

-- The position belongs to an occurrence of one of the needles.
abbrev pub CoveredByAny : List ℕ → ℕ → List (List ℕ) → Type 0
CoveredByAny text p [] = 1 ≤ 0
CoveredByAny text p (needle ∷ needles) = Covered text needle p ⊎ CoveredByAny text p needles

all_matches-Covered :
    (text : List ℕ) (p : ℕ) (needles : List (List ℕ))
    → AreNeedles needles
    → (any (covers p) (all_matches text needles) ≡ true) ↔ CoveredByAny text p needles
unfolding all_matches
all_matches-Covered text p [] are = (λ h. cc, λ h. absurd (omega arith))
all_matches-Covered text p (needle ∷ needles) (pos, are) =
    let first = matches-Covered text needle p pos in
    let later = all_matches-Covered text p needles are in
    let eq = any-append (covers p) (matches text needle) (all_matches text needles) in
    (
      λ h.
          elim (true-or (any (covers p) (matches text needle))
            (any (covers p) (all_matches text needles)) (sym eq ∙ h)) [
              | inl here ↦ inl (first.0 here)
              | inr there ↦ inr (later.0 there)
            ],
      λ h. eq ∙ (elim h [
        | inl here ↦ or-left (any (covers p) (all_matches text needles)) (first.1 here)
        | inr there ↦ or-right (any (covers p) (matches text needle)) (later.1 there)
      ]),
    )

pub not-true : (b : Bool) → (not b ≡ true) ↔ (b ≡ true → 1 ≤ 0)
not-true true = (λ h. cc, λ h. absurd (omega (arith, h refl)))
not-true false = (λ h e. cc, λ h. refl)

-- Where no needle is empty, a text that is scrubbed of them shows a position of it exactly if the
-- position belongs to no occurrence of any of the needles, overlapping or not.
pub scrub_pieces-all_matches :
    (text : List ℕ) (needles : List (List ℕ)) (p : ℕ)
    → AreNeedles needles
    → (any (shows p) (scrub_pieces (all_matches text needles)) ≡ true)
      ↔ (CoveredByAny text p needles → 1 ≤ 0)
scrub_pieces-all_matches text needles p are =
    let found = all_matches-Covered text p needles are in
    let shown =
      scrub_pieces-shows p (all_matches text needles) (all_matches-IsRange text needles) in
    let neither = not-true (any (covers p) (all_matches text needles)) in
    (λ h c. neither.0 (sym shown ∙ h) (found.1 c), λ h. shown ∙ neither.1 (λ c. h (found.0 c)))
