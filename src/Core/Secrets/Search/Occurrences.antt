-- ===== src/Core/Secrets/Search/Occurrences.antt =====
-- The occurrences of a needle in a text, independently of how they are searched, and what the
-- ranges that a search pushes cover.
use trawler.Base.{
  ℕ, zero, suc, ◌+◌, ◌-◌, ◌≤◌, ◌<◌, ◌≡◌, ◌∙◌, ap, sym, refl, arith, List, [], ◌∷◌, ◌⊎◌, inl, inr,
  Bool, true, false, ◌&&◌, ◌||◌, leb, ltb, Bool-cases, length, drop, any, any-append, ◌++◌, Option,
  none, some,
}
use trawler.Core.Secrets.{Range}
use trawler.Core.Secrets.Masked.{covers}
use trawler.Core.Secrets.Search.{char_at, starts_with, stands_at, hit, close}
use trawler.Core.Secrets.Search.Prefixes.{Ends}

-- The needle stands in the text from a position on.
pub record Occurs (text needle : List ℕ) (at : ℕ) : Type 0 where
  pub within : at + length needle ≤ length text
  pub same : (d : ℕ) → d < length needle → char_at text (at + d) ≡ char_at needle d

-- The position belongs to an occurrence of the needle.
abbrev pub Covered : List ℕ → List ℕ → ℕ → Type 0
Covered text needle p = (at : ℕ) × Occurs text needle at × (at ≤ p) × (p < at + length needle)

starts_with-same :
    (text needle : List ℕ)
    → starts_with text needle ≡ true
    → (length needle ≤ length text)
      × ((d : ℕ) → d < length needle → char_at text d ≡ char_at needle d)
starts_with-same text [] h = (omega arith, λ d lt. absurd (omega arith))
starts_with-same [] (c ∷ needle) h = absurd (omega (arith, none_true h))
  where
    none_true : false ≡ true → 1 ≤ 0
    none_true e = cc
starts_with-same (b ∷ text) (c ∷ needle) h =
    let (len, same) = starts_with-same text needle (ground arith) in
    (omega (arith, len), λ d lt. first_or_later b c text needle d (ground arith) same lt)
  where
    first_or_later :
        (b c : ℕ) (text needle : List ℕ) (d : ℕ)
        → b ≡ c
        → ((e : ℕ) → e < length needle → char_at text e ≡ char_at needle e)
        → d < suc (length needle)
        → char_at (b ∷ text) d ≡ char_at (c ∷ needle) d
    first_or_later b c text needle zero e same lt = e
    first_or_later b c text needle (suc d) e same lt = same d (omega arith)

same-starts_with :
    (text needle : List ℕ)
    → length needle ≤ length text
    → ((d : ℕ) → d < length needle → char_at text d ≡ char_at needle d)
    → starts_with text needle ≡ true
same-starts_with text [] le same = refl
same-starts_with [] (c ∷ needle) le same = absurd (omega arith)
same-starts_with (b ∷ text) (c ∷ needle) le same =
    let first : b ≡ c = same 0 (omega arith) in
    ground (
      arith,
      first,
      same-starts_with text needle (omega arith) (λ d lt. same (suc d) (omega arith)),
    )

pub char_at-drop : (n d : ℕ) (xs : List ℕ) → char_at (drop n xs) d ≡ char_at xs (n + d)
char_at-drop zero d xs = ap (char_at xs) (omega arith)
char_at-drop (suc n) d [] = refl
char_at-drop (suc n) d (x ∷ xs) =
    char_at-drop n d xs ∙ ap (char_at (x ∷ xs)) {x = suc (n + d)} (omega arith)

pub length-drop : (n : ℕ) (xs : List ℕ) → length (drop n xs) ≡ length xs - n
length-drop zero xs = omega arith
length-drop (suc n) [] = omega arith
length-drop (suc n) (x ∷ xs) = omega (arith, length-drop n xs)

pub stands_at-Occurs :
    (text needle : List ℕ) (at : ℕ)
    → 0 < length needle
    → stands_at text needle at ≡ true
    → Occurs text needle at
stands_at-Occurs text needle at pos h =
    let (len, same) = starts_with-same (drop at text) needle h in
    record {
      within = omega (arith, len, length-drop at text);
      same = λ d lt. sym (char_at-drop at d text) ∙ same d lt;
    }

pub Occurs-stands_at :
    (text needle : List ℕ) (at : ℕ) → Occurs text needle at → stands_at text needle at ≡ true
Occurs-stands_at text needle at o =
    same-starts_with (drop at text) needle (omega (arith, o.within, length-drop at text))
      (λ d lt. char_at-drop at d text ∙ o.same d lt)

pub Ends-Occurs :
    (text needle : List ℕ) (i : ℕ)
    → i ≤ length text
    → Ends text needle (length needle) i
    → Occurs text needle (i - length needle)
Ends-Occurs text needle i le h = record { within = omega (arith, h.within); same = h.same }

pub Occurs-Ends :
    (text needle : List ℕ) (at : ℕ)
    → Occurs text needle at
    → Ends text needle (length needle) (at + length needle)
Occurs-Ends text needle at o = record {
  within = omega arith;
  same = λ d lt. ap (char_at text) (omega arith) ∙ o.same d lt;
}

-- The last range starts and ends no later.
abbrev pub Before : ℕ → ℕ → Option Range → Type 0
Before at end none = Unit
Before at end (some r) = (r.start ≤ at) × (r.end ≤ end)

pub Before-mono :
    {at end at' end' : ℕ} (found : Option Range)
    → at ≤ at'
    → end ≤ end'
    → Before at end found
    → Before at' end' found
Before-mono none le le' h = tt
Before-mono (some r) le le' (s, e) = (omega arith, omega arith)

-- What is pushed and the last range together.
abbrev pub covered : ℕ → List Range → Option Range → Bool
covered p out found = any (covers p) out || any (covers p) (close found)

pub hit-Before :
    (found : Option Range) (at end : ℕ) → Before at end found → Before at end (hit found at end).1
hit-Before none at end h = (omega arith, omega arith)
hit-Before (some r) at end (s, e) = elim (Bool-cases (leb at r.end)) [
  | inl touch ↦ rw touch (s, omega arith)
  | inr apart ↦ rw apart (omega arith, omega arith)
]

pub hit-covered :
    (p : ℕ) (found : Option Range) (at end : ℕ)
    → at ≤ end
    → Before at end found
    → covered p (hit found at end).0 (hit found at end).1
      ≡ (any (covers p) (close found) || (leb at p && ltb p end))
hit-covered p none at end le h = ground arith
hit-covered p (some r) at end le (s, e) = elim (Bool-cases (leb at r.end)) [
  | inl touch ↦ rw touch (ground arith)
  | inr apart ↦ rw apart (ground arith)
]

pub true-or : (a b : Bool) → (a || b) ≡ true → (a ≡ true) ⊎ (b ≡ true)
true-or true b h = inl refl
true-or false b h = inr h

pub or-left : {a : Bool} (b : Bool) → a ≡ true → (a || b) ≡ true
or-left b h = ground arith

pub or-right : (a : Bool) {b : Bool} → b ≡ true → (a || b) ≡ true
or-right a h = ground arith

pub any-pushed :
    (p : ℕ) (out ranges : List Range)
    → (any (covers p) out ≡ true) ⊎ (any (covers p) ranges ≡ true)
    → any (covers p) (out ++ ranges) ≡ true
any-pushed p out ranges (inl h) = any-append (covers p) out ranges ∙ ground arith
any-pushed p out ranges (inr h) = any-append (covers p) out ranges ∙ ground arith

-- What the rest of a search covers, from what it has found so far: what was found, and what else
-- is found.
pub covered-append :
    (p : ℕ) (out rest : List Range) (found : Option Range)
    → (any (covers p) (close found) ≡ true → any (covers p) rest ≡ true)
    → covered p out found ≡ true
    → any (covers p) (out ++ rest) ≡ true
covered-append p out rest found keeps h =
    elim (true-or (any (covers p) out) (any (covers p) (close found)) h) [
      | inl pushed ↦ any-pushed p out rest (inl pushed)
      | inr last ↦ any-pushed p out rest (inr (keeps last))
    ]
