-- ===== src/Queue/Claim/Order.antt =====
-- Which job a runner gets.
use mathlib.Core.Path.{subst}
use trawler.Base.{
  ℕ, ◌≡◌, refl, Bool, true, false, Option, none, some, List, [], ◌∷◌, map, arith, if◌then◌else◌,
  Bool-cases, inl, inr, All, All-append, filter,
}
use trawler.Queue.Rows.{Job}
use trawler.Queue.Claim.{
  ClaimScope, Entry, Pick, rank, lex_le, first_pick, candidates, picks_of, is_claimable, better,
}

lex_le_refl : (xs : List ℕ) → lex_le xs xs ≡ true
unfolding lex_le
lex_le_refl [] = refl
lex_le_refl (x ∷ xs) = ground (arith, lex_le_refl xs)

lex_le_trans : (xs ys zs : List ℕ) → lex_le xs ys ≡ true → lex_le ys zs ≡ true → lex_le xs zs ≡ true
unfolding lex_le
lex_le_trans [] ys zs h k = refl
lex_le_trans (x ∷ xs) [] zs h k = cc
lex_le_trans (x ∷ xs) (y ∷ ys) [] h k = cc
lex_le_trans (x ∷ xs) (y ∷ ys) (z ∷ zs) h k = ground (arith, lex_le_trans xs ys zs)

lex_le_total : (xs ys : List ℕ) → lex_le xs ys ≡ false → lex_le ys xs ≡ true
unfolding lex_le
lex_le_total [] ys h = cc
lex_le_total (x ∷ xs) [] h = refl
lex_le_total (x ∷ xs) (y ∷ ys) h = ground (arith, lex_le_total xs ys)

-- Every candidate comes after this one in the order of the queue, or with it.
abbrev pub IsFirst : Pick → List Pick → Type 0
IsFirst p = All (λ q. lex_le (rank p) (rank q) ≡ true)

IsFirst-before :
    (p q : Pick) (picks : List Pick)
    → lex_le (rank p) (rank q) ≡ true
    → IsFirst q picks
    → IsFirst p picks
IsFirst-before p q [] h k = tt
IsFirst-before p q (x ∷ picks) h (k, ks) =
    (lex_le_trans (rank p) (rank q) (rank x) h k, IsFirst-before p q picks h ks)

-- The pick of a list of candidates that all have a property: none of an empty list, else one that
-- comes first and has it.
abbrev Best : (Pick → Type 0) → List Pick → Option Pick → Type 0
Best P picks none = picks ≡ []
Best P picks (some p) = IsFirst p picks × P p

better-Best :
    (P : Pick → Type 0) (p : Pick) (picks : List Pick) (best : Option Pick)
    → P p
    → Best P picks best
    → Best P (p ∷ picks) (some (better p best))
better-Best P p picks none own empty = rw empty ((lex_le_refl (rank p), tt), own)
better-Best P p picks (some q) own (first, its) = chosen (lex_le (rank p) (rank q)) refl
  where
    chosen :
        (b : Bool) → lex_le (rank p) (rank q) ≡ b → Best P (p ∷ picks) (some (if b then p else q))
    chosen true before = ((lex_le_refl (rank p), IsFirst-before p q picks before first), own)
    chosen false after = ((lex_le_total (rank p) (rank q) after, first), its)

first_pick-Best :
    (P : Pick → Type 0) (picks : List Pick) → All P picks → Best P picks (first_pick picks)
unfolding first_pick
first_pick-Best P [] all = refl
first_pick-Best P (p ∷ picks) (own, all) =
    better-Best P p picks (first_pick picks) own (first_pick-Best P picks all)

abbrev Claimable : ClaimScope → Pick → Type 0
Claimable scope p = is_claimable scope p.entry p.job ≡ true

picks_of-Claimable :
    (scope : ClaimScope) (e : Entry) (jobs : List Job)
    → All
        (Claimable scope)
        (map (λ j. record { entry = e; job = j }) (filter (is_claimable scope e) jobs))
picks_of-Claimable scope e [] = tt
picks_of-Claimable scope e (j ∷ jobs) = elim (Bool-cases (is_claimable scope e j)) [
  | inl fits ↦ rw fits (fits, picks_of-Claimable scope e jobs)
  | inr unfit ↦ rw unfit (picks_of-Claimable scope e jobs)
]

candidates-Claimable :
    (scope : ClaimScope) (entries : List Entry) → All (Claimable scope) (candidates scope entries)
unfolding candidates picks_of
candidates-Claimable scope [] = tt
candidates-Claimable scope (e ∷ entries) =
    All-append (Claimable scope) _ _ (picks_of-Claimable scope e e.rows.jobs)
      (candidates-Claimable scope entries)

-- A runner that asks for a job gets one that it may take, and that comes first in the order of the
-- queue among all jobs that it may take.
pub first_pick-IsFirst :
    (scope : ClaimScope) (entries : List Entry) (p : Pick)
    → first_pick (candidates scope entries) ≡ some p
    → IsFirst p (candidates scope entries) × (is_claimable scope p.entry p.job ≡ true)
first_pick-IsFirst scope entries p e = subst (Best (Claimable scope) (candidates scope entries)) e (
    first_pick-Best (Claimable scope) (candidates scope entries)
      (candidates-Claimable scope entries))
