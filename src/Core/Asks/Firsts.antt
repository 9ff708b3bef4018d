-- ===== src/Core/Asks/Firsts.antt =====
-- What is kept of a model's matches: for each key the first.
use trawler.Base.{
  ℕ, ◌≡◌, ◌∙◌, ap, refl, Bool, true, false, Option, none, some, List, [], ◌∷◌, ◌++◌, map, not, ◌&&◌,
  ◌||◌, ◌==◌, if◌then◌else◌, mem, find?, arith, Bool-cases, inl, inr, ==_iff, is_some,
}
use trawler.Base.Rows.{keys}
use trawler.Core.Asks.{Given, has_key, choose_firsts, NotABugMatch, match_of, known_not_bugs}

abbrev pub given_for : ℕ → List Given → Option Given
given_for k = find? (λ (g : Given). g.key == k)

-- The first match with a key.
abbrev pub first_for : ℕ → List (Option Given) → Option Given
first_for k [] = none
first_for k (none ∷ matches) = first_for k matches
first_for k (some g ∷ matches) =
    let rest = first_for k matches in if g.key == k then some g else rest

abbrev or_else : Option Given → Option Given → Option Given
or_else none o = o
or_else (some g) o = some g

given_for-append :
    (k : ℕ) (xs ys : List Given)
    → given_for k (xs ++ ys) ≡ or_else (given_for k xs) (given_for k ys)
given_for-append k [] ys = refl
given_for-append k (x ∷ xs) ys = ground (arith, given_for-append k xs ys)

has_key-given_for : (k : ℕ) (xs : List Given) → has_key k xs ≡ is_some (given_for k xs)
has_key-given_for k [] = refl
has_key-given_for k (x ∷ xs) = ground (arith, has_key-given_for k xs)

choose_firsts-given_for :
    (k : ℕ) (keys : List ℕ) (chosen : List Given) (matches : List (Option Given))
    → given_for k (choose_firsts keys chosen matches)
      ≡ or_else (given_for k chosen) (if mem k keys then first_for k matches else none)
unfolding choose_firsts
choose_firsts-given_for k keys chosen [] = ground arith
choose_firsts-given_for k keys chosen (none ∷ matches) =
    choose_firsts-given_for k keys chosen matches
choose_firsts-given_for k keys chosen (some g ∷ matches) = elim (Bool-cases (g.key == k)) [
  | inl same ↦
      let e : g.key ≡ k = (==_iff g.key k).0 same in
      let listed : mem g.key keys ≡ mem k keys = ap (λ x. mem x keys) e in
      let had : has_key g.key chosen ≡ is_some (given_for k chosen) =
        ap (λ x. has_key x chosen) e ∙ has_key-given_for k chosen in
      choose_firsts-given_for k keys
        (if mem g.key keys && not (has_key g.key chosen) then chosen ++ g ∷ [] else chosen) matches
      ∙ ground (arith, listed, had, given_for-append k chosen (g ∷ []))
  | inr other ↦
      choose_firsts-given_for k keys
        (if mem g.key keys && not (has_key g.key chosen) then chosen ++ g ∷ [] else chosen) matches
      ∙ ground (arith, given_for-append k chosen (g ∷ []))
]

has_key-append :
    (k : ℕ) (xs ys : List Given) → has_key k (xs ++ ys) ≡ (has_key k xs || has_key k ys)
has_key-append k [] ys = refl
has_key-append k (x ∷ xs) ys = ground (arith, has_key-append k xs ys)

-- No key stands twice.
abbrev pub OneEach : List Given → Type 0
OneEach [] = Unit
OneEach (g ∷ chosen) = (has_key g.key chosen ≡ false) × OneEach chosen

OneEach-append :
    (chosen : List Given) (g : Given)
    → has_key g.key chosen ≡ false
    → OneEach chosen
    → OneEach (chosen ++ g ∷ [])
OneEach-append [] g new h = (refl, tt)
OneEach-append (c ∷ chosen) g new (own, h) = (
  ground (arith, has_key-append c.key chosen (g ∷ []), ==_iff c.key g.key, ==_iff g.key c.key),
  OneEach-append chosen g (ground arith) h,
)

choose_firsts-OneEach :
    (keys : List ℕ) (chosen : List Given) (matches : List (Option Given))
    → OneEach chosen
    → OneEach (choose_firsts keys chosen matches)
unfolding choose_firsts
choose_firsts-OneEach keys chosen [] h = h
choose_firsts-OneEach keys chosen (none ∷ matches) h = choose_firsts-OneEach keys chosen matches h
choose_firsts-OneEach keys chosen (some g ∷ matches) h =
    choose_firsts-OneEach keys
      (if mem g.key keys && not (has_key g.key chosen) then chosen ++ g ∷ [] else chosen) matches
      (taken (mem g.key keys && not (has_key g.key chosen)) (λ e. ground arith))
  where
    taken :
        (b : Bool)
        → (b ≡ true → has_key g.key chosen ≡ false)
        → OneEach (if b then chosen ++ g ∷ [] else chosen)
    taken true new = OneEach-append chosen g (new refl) h
    taken false new = h

-- Of what a model matches with reports that were marked not a bug, each report of the run keeps the
-- first match that names an item of the list which has a reference, a key that is not of the run
-- keeps none, and no key stands twice.
pub known_not_bugs-firsts :
    (k : ℕ) (keys : List ℕ) (refs : List (Option ℕ)) (matches : List (Option NotABugMatch))
    → (given_for k (known_not_bugs keys refs matches)
        ≡ (if mem k keys then first_for k (map (match_of refs) matches) else none))
      × OneEach (known_not_bugs keys refs matches)
unfolding known_not_bugs
known_not_bugs-firsts k keys refs matches = (
  choose_firsts-given_for k keys [] (map (match_of refs) matches),
  choose_firsts-OneEach keys [] (map (match_of refs) matches) tt,
)
