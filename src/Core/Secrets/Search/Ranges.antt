-- ===== src/Core/Secrets/Search/Ranges.antt =====
-- The ranges that are pushed do not end before they start.
use trawler.Base.{
  ℕ, zero, suc, ◌+◌, ◌-◌, ◌≤◌, ◌≡◌, refl, arith, List, [], ◌∷◌, ◌++◌, inl, inr, leb, ltb,
  Bool-cases, length, drop, All, All-append, Option, none, some, if◌then◌else◌, Bool, true, false,
}
use trawler.Core.Secrets.{Range}
use trawler.Core.Secrets.Masked.{IsRange}
use trawler.Core.Secrets.Search.{
  char_at, advance, hit, close, kmp_round, kmp_from, kmp_matches, index_of, extend, native_from,
  native_matches, native_search_max, borders, matches, all_matches, stands_at,
}

-- The last range is one, and starts no later.
abbrev IsLast : ℕ → Option Range → Type 0
IsLast n none = Unit
IsLast n (some r) = IsRange r × (r.start ≤ n)

hit-IsRange :
    (found : Option Range) (at end : ℕ)
    → at ≤ end
    → IsLast end found
    → All IsRange (hit found at end).0 × IsLast end (hit found at end).1
hit-IsRange none at end le h = (tt, (le, le))
hit-IsRange (some r) at end le (is, start) = elim (Bool-cases (leb at r.end)) [
  | inl touch ↦ rw touch (tt, (start, start))
  | inr apart ↦ rw apart ((is, tt), (le, le))
]

IsLast-mono : {m n : ℕ} (found : Option Range) → m ≤ n → IsLast m found → IsLast n found
IsLast-mono none le h = tt
IsLast-mono (some r) le (is, h) = (is, omega arith)

close-IsRange : (n : ℕ) (found : Option Range) → IsLast n found → All IsRange (close found)
close-IsRange n none h = tt
close-IsRange n (some r) (is, h) = (is, tt)

kmp_round-IsRange :
    (b : Bool) (m : ℕ) (border : List ℕ) (i k : ℕ) (found : Option Range)
    → ltb k m ≡ b
    → IsLast i found
    → All IsRange (kmp_round m border i k found).0 × IsLast (suc i) (kmp_round m border i k found).1
kmp_round-IsRange true m border i k found e h = rw e (tt, IsLast-mono found (omega arith) h)
kmp_round-IsRange false m border i k found e h =
    rw e (hit-IsRange found (suc i - m) (suc i) (omega arith) (IsLast-mono found (omega arith) h))

kmp_from-IsRange :
    (rounds : ℕ) (text needle border : List ℕ) (i k : ℕ) (found : Option Range)
    → IsLast i found
    → All IsRange (kmp_from rounds text needle border i k found)
unfolding kmp_from
kmp_from-IsRange zero text needle border i k found h = close-IsRange i found h
kmp_from-IsRange (suc rounds) text needle border i k found h =
    let k' = advance border needle (char_at text i) k in
    let q = kmp_round (length needle) border i k' found in
    let (out, last) =
      kmp_round-IsRange (ltb k' (length needle)) (length needle) border i k' found refl h in
    All-append IsRange q.0 (kmp_from rounds text needle border (suc i) q.2 q.1) out
      (kmp_from-IsRange rounds text needle border (suc i) q.2 q.1 last)

extend_le : (fuel : ℕ) (text tail : List ℕ) (end : ℕ) → end ≤ extend fuel text tail end
unfolding extend
extend_le zero text tail end = omega arith
extend_le (suc fuel) text tail end = ground (arith, extend_le fuel text tail (end + length tail))

abbrev IsFrom : ℕ → Option ℕ → Type 0
IsFrom from none = Unit
IsFrom from (some at) = from ≤ at

IsFrom-if :
    (b : Bool) (at : ℕ) (later : Option ℕ)
    → IsFrom (suc at) later
    → IsFrom at (if b then some at else later)
IsFrom-if true at later h = omega arith
IsFrom-if false at none h = tt
IsFrom-if false at (some q) h = omega arith

index_of-IsFrom :
    (rounds : ℕ) (text needle : List ℕ) (at : ℕ) → IsFrom at (index_of rounds text needle at)
unfolding index_of
index_of-IsFrom zero text needle at = tt
index_of-IsFrom (suc rounds) text needle at =
    IsFrom-if (stands_at text needle at) at (index_of rounds text needle (suc at))
      (index_of-IsFrom rounds text needle (suc at))

native_round-IsRange :
    (text needle tail : List ℕ) (from : ℕ) (found : Option Range) (o : Option ℕ)
    (rest : ℕ → Option Range → List Range)
    → IsLast (from + length needle) found
    → IsFrom from o
    → ((from' : ℕ) (found' : Option Range)
        → IsLast (from' + length needle) found'
        → All IsRange (rest from' found'))
    → All IsRange (elim o [
      | none ↦ close found
      | some at ↦
          let end = extend (length text) text tail (at + length needle) in
          let (out, found') = hit found at end in out ++ rest (suc (end - length needle)) found'
    ])
native_round-IsRange text needle tail from found none rest h le all =
    close-IsRange (from + length needle) found h
native_round-IsRange text needle tail from found (some at) rest h le all =
    let end = extend (length text) text tail (at + length needle) in
    let longer = extend_le (length text) text tail (at + length needle) in
    let (out, last) =
      hit-IsRange found at end (omega (arith, longer))
        (IsLast-mono found (omega (arith, longer, le)) h) in
    All-append IsRange (hit found at end).0 (rest (suc (end - length needle)) (hit found at end).1)
      out
      (all (suc (end - length needle)) (hit found at end).1
        (IsLast-mono (hit found at end).1 (omega arith) last))

native_from-IsRange :
    (fuel : ℕ) (text needle tail : List ℕ) (from : ℕ) (found : Option Range)
    → IsLast (from + length needle) found
    → All IsRange (native_from fuel text needle tail from found)
unfolding native_from
native_from-IsRange zero text needle tail from found h =
    close-IsRange (from + length needle) found h
native_from-IsRange (suc fuel) text needle tail from found h =
    native_round-IsRange text needle tail from found
      (index_of (suc (length text) - from) text needle from)
      (λ from' found'. native_from fuel text needle tail from' found') h
      (index_of-IsFrom (suc (length text) - from) text needle from)
      (λ from' found' last. native_from-IsRange fuel text needle tail from' found' last)

matches-IsRange : (text needle : List ℕ) → All IsRange (matches text needle)
unfolding matches kmp_matches native_matches
matches-IsRange text needle = elim (Bool-cases (ltb native_search_max (length needle))) [
  | inl long ↦ rw long (kmp_from-IsRange (length text) text needle (borders needle) 0 0 none tt)
  | inr short ↦ rw short (
      native_from-IsRange (suc (length text)) text needle
        (drop (char_at (borders needle) (length needle - 1)) needle) 0 none tt)
]

pub all_matches-IsRange :
    (text : List ℕ) (needles : List (List ℕ)) → All IsRange (all_matches text needles)
unfolding all_matches
all_matches-IsRange text [] = tt
all_matches-IsRange text (needle ∷ needles) =
    All-append IsRange (matches text needle) (all_matches text needles)
      (matches-IsRange text needle) (all_matches-IsRange text needles)
