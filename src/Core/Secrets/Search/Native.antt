-- ===== src/Core/Secrets/Search/Native.antt =====
-- The search by the text's own `indexOf`, which runs over the repetitions of a needle by its tail
-- (`nativeMatches`).
use trawler.Base.{
  ℕ, zero, suc, ◌+◌, ◌-◌, ◌≤◌, ◌<◌, ◌≡◌, ◌∙◌, ap, sym, refl, arith, List, ◌++◌, ◌⊎◌, inl, inr, true,
  false, ◌&&◌, leb, ltb, Bool-cases, length, drop, any, any-append, Option, none, some,
}
use trawler.Core.Secrets.{Range}
use trawler.Core.Secrets.Masked.{covers}
use trawler.Core.Secrets.Search.{
  char_at, index_of, extend, hit, close, native_from, native_matches, borders,
}
use trawler.Core.Secrets.Search.Borders.{IsBorder, borders-IsTable}
use trawler.Core.Secrets.Search.Occurrences.{
  Occurs, Covered, stands_at-Occurs, Occurs-stands_at, Before, Before-mono, covered, hit-Before,
  hit-covered, true-or, any-pushed, or-left, or-right, covered-append,
}
use trawler.Core.Secrets.Search.Tails.{IsFirstFrom, index_of-IsFirstFrom, Extended, extend-Extended}

module _ (text needle : List ℕ) (pos : 0 < length needle) (b : ℕ)
    (border : IsBorder needle (length needle) b) where
  -- What a round pushes, at a place where the needle stands.
  record Round (p at e : ℕ) (found : Option Range) (r : List Range × Option Range) : Type 0 where
    before : Before (suc (e - length needle)) (suc (e - length needle) + length needle) r.1
    sound : covered p r.0 r.1 ≡ true → (any (covers p) (close found) ≡ true) ⊎ Covered text needle p
    complete :
        (any (covers p) (close found) ≡ true) ⊎ ((at ≤ p) × (p < e)) → covered p r.0 r.1 ≡ true

  round_lem :
      (p from at e : ℕ) (found : Option Range)
      → from ≤ at
      → Extended text needle pos b border at (at + length needle) e
      → Before from (from + length needle) found
      → Round p at e found (hit found at e)
  round_lem p from at e found le x h =
      let h' = Before-mono found le (omega (arith, x.longer)) h in
      let eq = hit-covered p found at e (omega (arith, x.longer)) h' in
      record {
        before =
            Before-mono (hit found at e).1 (omega (arith, x.longer)) (omega (arith, x.longer))
              (hit-Before found at e h');
        sound = λ c.
            elim (true-or (any (covers p) (close found)) (leb at p && ltb p e) (sym eq ∙ c)) [
              | inl known ↦ inl known
              | inr new ↦ inr (x.all p (ground arith) (ground arith))
            ];
        complete = λ c. eq ∙ (elim c [
          | inl known ↦ or-left (leb at p && ltb p e) known
          | inr (low, high) ↦ or-right (any (covers p) (close found)) (ground arith)
        ]);
      }

  found_at :
      (from at : ℕ)
      → IsFirstFrom text needle from (suc (length text) - from) (some at)
      → Extended text needle pos b border at
          (at + length needle)
          (extend (length text) text (drop b needle) (at + length needle))
  found_at from at (low, there, first) =
      let o = stands_at-Occurs text needle at pos there in
      extend-Extended text needle pos b border (length text) at at o (λ p le lt. (at, o, le, lt))

  -- One round, by the first place from `from` on, before the rest of the search.
  abbrev rest_of : ℕ → ℕ → Option Range → List Range
  rest_of fuel from found = native_from fuel text needle (drop b needle) from found

  abbrev round_of : ℕ → Option Range → Option ℕ → List Range
  round_of fuel found none = close found
  round_of fuel found (some at) =
      let e = extend (length text) text (drop b needle) (at + length needle) in
      let (out, found') = hit found at e in out ++ rest_of fuel (suc (e - length needle)) found'

  native_from-round :
      (fuel from : ℕ) (found : Option Range) (o : Option ℕ)
      → index_of (suc (length text) - from) text needle from ≡ o
      → native_from (suc fuel) text needle (drop b needle) from found ≡ round_of fuel found o
  unfolding native_from
  native_from-round fuel from found none e = rw (e, native_from)
  native_from-round fuel from found (some at) e = rw (e, native_from)

  -- No occurrence begins before the first place.
  first_le :
      (from at q : ℕ)
      → IsFirstFrom text needle from (suc (length text) - from) (some at)
      → from ≤ q
      → Occurs text needle q
      → {p : ℕ} → q ≤ p
      → at ≤ p
  first_le from at q (low, there, first) le o high = elim (Bool-cases (ltb q at)) [
    | inl early ↦ cc (Occurs-stands_at text needle q o, first q le (ground arith))
    | inr late ↦ ground arith
  ]

  past_end :
      (p q e : ℕ)
      → length needle ≤ e
      → ltb p e ≡ false
      → p < q + length needle
      → suc (e - length needle) ≤ q
  past_end p q e le past high = ground arith

  round_of_sound :
      (p fuel from : ℕ) (found : Option Range) (o : Option ℕ)
      → IsFirstFrom text needle from (suc (length text) - from) o
      → Before from (from + length needle) found
      → ((from' : ℕ) (found' : Option Range)
          → Before from' (from' + length needle) found'
          → any (covers p) (rest_of fuel from' found') ≡ true
          → (any (covers p) (close found') ≡ true) ⊎ Covered text needle p)
      → any (covers p) (round_of fuel found o) ≡ true
      → (any (covers p) (close found) ≡ true) ⊎ Covered text needle p
  round_of_sound p fuel from found none first h rest c = inl c
  round_of_sound p fuel from found (some at) first h rest c =
      let e = extend (length text) text (drop b needle) (at + length needle) in
      let r = round_lem p from at e found first.0 (found_at from at first) h in
      let (out, found') = hit found at e in
      let later = rest_of fuel (suc (e - length needle)) found' in
      elim (true-or (any (covers p) out) (any (covers p) later)
        (sym (any-append (covers p) out later) ∙ c)) [
          | inl pushed ↦ r.sound (or-left (any (covers p) (close found')) pushed)
          | inr there ↦ elim (rest (suc (e - length needle)) found' r.before there) [
            | inl last ↦ r.sound (or-right (any (covers p) out) last)
            | inr cov ↦ inr cov
          ]
        ]

  -- The position belongs to an occurrence that begins at `from` or later.
  abbrev CoveredFrom : ℕ → ℕ → Type 0
  CoveredFrom p from =
      (at : ℕ) × Occurs text needle at × (at ≤ p) × (p < at + length needle) × (from ≤ at)

  round_of_complete :
      (p fuel from : ℕ) (found : Option Range) (o : Option ℕ)
      → IsFirstFrom text needle from (suc (length text) - from) o
      → Before from (from + length needle) found
      → ((from' : ℕ) (found' : Option Range)
          → from < from'
          → Before from' (from' + length needle) found'
          → (any (covers p) (close found') ≡ true) ⊎ CoveredFrom p from'
          → any (covers p) (rest_of fuel from' found') ≡ true)
      → (any (covers p) (close found) ≡ true) ⊎ CoveredFrom p from
      → any (covers p) (round_of fuel found o) ≡ true
  round_of_complete p fuel from found none first h rest (inl known) = known
  round_of_complete p fuel from found none first h rest (inr (at, o, low, high, later)) =
      cc (Occurs-stands_at text needle at o, first at later (omega (arith, o.within)))
  round_of_complete p fuel from found (some at) first h rest c =
      let e = extend (length text) text (drop b needle) (at + length needle) in
      let x = found_at from at first in
      let r = round_lem p from at e found first.0 x h in
      let (out, found') = hit found at e in
      let from' = suc (e - length needle) in
      let later = rest_of fuel from' found' in
      let last = λ (l : any (covers p) (close found') ≡ true).
        rest from' found' (omega (arith, first.0, x.longer)) r.before (inl l) in
      elim c [
        | inl known ↦ covered-append p out later found' last (r.complete (inl known))
        | inr (q, o, low, high, after) ↦ elim (Bool-cases (ltb p e)) [
          | inl here ↦
              covered-append p out later found' last
                (r.complete (inr (first_le from at q first after o low, ground arith)))
          | inr past ↦ any-pushed p out later (
              inr (
                rest from' found' (omega (arith, first.0, x.longer)) r.before
                  (inr (q, o, low, high, past_end p q e (omega (arith, x.longer)) past high))))
        ]
      ]

  native_from_sound :
      (p fuel from : ℕ) (found : Option Range)
      → Before from (from + length needle) found
      → any (covers p) (native_from fuel text needle (drop b needle) from found) ≡ true
      → (any (covers p) (close found) ≡ true) ⊎ Covered text needle p
  native_from_sound p zero from found h c = inl (unfold native_from in c)
  native_from_sound p (suc fuel) from found h c =
      let o = index_of (suc (length text) - from) text needle from in
      round_of_sound p fuel from found o
        (index_of-IsFirstFrom (suc (length text) - from) text needle from) h
        (λ from' found'. native_from_sound p fuel from' found')
        (ap (any (covers p)) (sym (native_from-round fuel from found o refl)) ∙ c)

  native_from_complete :
      (p fuel from : ℕ) (found : Option Range)
      → suc (length text) ≤ from + fuel
      → Before from (from + length needle) found
      → (any (covers p) (close found) ≡ true) ⊎ CoveredFrom p from
      → any (covers p) (native_from fuel text needle (drop b needle) from found) ≡ true
  native_from_complete p zero from found enough h (inl known) = unfold native_from in known
  native_from_complete p zero from found enough h (inr (at, o, low, high, later)) =
      absurd (omega (arith, o.within))
  native_from_complete p (suc fuel) from found enough h c =
      let o = index_of (suc (length text) - from) text needle from in
      ap (any (covers p)) (native_from-round fuel from found o refl)
      ∙ round_of_complete p fuel from found o
          (index_of-IsFirstFrom (suc (length text) - from) text needle from) h
          (λ from' found' more. native_from_complete p fuel from' found' (omega arith)) c

module _ (text needle : List ℕ) (pos : 0 < length needle) (p : ℕ) where
  pub native_matches_sound :
      any
          (covers p)
          (native_matches text needle (drop (char_at (borders needle) (length needle - 1)) needle))
        ≡ true
      → Covered text needle p
  unfolding native_matches
  native_matches_sound c =
      elim (native_from_sound text needle pos (char_at (borders needle) (length needle - 1))
        (borders-IsTable needle pos (length needle) pos (omega arith)) p (suc (length text)) 0 none
        tt c) [ inl known ↦ cc | inr there ↦ there ]

  pub native_matches_complete :
      Covered text needle p
      → any
          (covers p)
          (native_matches text needle (drop (char_at (borders needle) (length needle - 1)) needle))
        ≡ true
  unfolding native_matches
  native_matches_complete (at, o, low, high) =
      native_from_complete text needle pos (char_at (borders needle) (length needle - 1))
        (borders-IsTable needle pos (length needle) pos (omega arith)) p (suc (length text)) 0 none
        (omega arith) tt (inr (at, o, low, high, omega arith))
