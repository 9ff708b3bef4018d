-- ===== src/Core/Secrets/Search/Kmp.antt =====
-- The search by the table of borders (`kmpMatches`).
use mathlib.Core.Path.{subst}
use trawler.Base.{
  ℕ, zero, suc, ◌+◌, ◌-◌, ◌≤◌, ◌<◌, ◌≡◌, ◌∙◌, sym, refl, arith, List, ◌⊎◌, inl, inr, Bool, true,
  false, ◌&&◌, ◌||◌, leb, ltb, length, any, any-append, Option, none,
}
use trawler.Core.Secrets.{Range}
use trawler.Core.Secrets.Masked.{covers}
use trawler.Core.Secrets.Search.{char_at, advance, close, kmp_round, kmp_from, kmp_matches, borders}
use trawler.Core.Secrets.Search.Prefixes.{
  Ends, Ends-zero, Ends-pred, Ends-border, Ends-within, last_or_before,
}
use trawler.Core.Secrets.Search.Borders.{IsTable, Advanced, advance-Advanced, borders-IsTable}
use trawler.Core.Secrets.Search.Occurrences.{
  Occurs, Covered, Ends-Occurs, Occurs-Ends, Before, Before-mono, covered, hit-Before, hit-covered,
  true-or, any-pushed, or-left, or-right, covered-append,
}

in_last : (p end m : ℕ) → m ≤ end → (leb (end - m) p && ltb p end) ≡ true → p < end - m + m
in_last p end m le h = ground arith

in_new :
    (known : Bool) (p at end : ℕ) → at ≤ p → p < end → (known || (leb at p && ltb p end)) ≡ true
in_new known p at end low high = ground arith

not_short : {r m : ℕ} → ltb r m ≡ false → m ≤ r
not_short e = ground arith

short-r : {r m : ℕ} → ltb r m ≡ true → r < m
short-r e = ground arith

module _ (text needle border : List ℕ) (table : IsTable needle border (length needle)) where
  -- `k` is the longest part of the needle, short of all of it, that ends before `i`.
  record Searching (i k : ℕ) : Type 0 where
    ends : Ends text needle k i
    short : k < length needle
    longest : (j : ℕ) → j < length needle → Ends text needle j i → j ≤ k

  -- What a round finds at the character `i`.
  abbrev EndsHere : ℕ → ℕ → Type 0
  EndsHere p i =
      Ends text needle (length needle) (suc i) × (suc i - length needle ≤ p) × (p < suc i)

  record Round (p i : ℕ) (found : Option Range) (r : List Range × Option Range × ℕ) : Type 0 where
    next : Searching (suc i) r.2
    before : Before (suc i - length needle) (suc i) r.1
    sound : covered p r.0 r.1 ≡ true → (any (covers p) (close found) ≡ true) ⊎ Covered text needle p
    complete : (any (covers p) (close found) ≡ true) ⊎ EndsHere p i → covered p r.0 r.1 ≡ true

  longest-next :
      (i k r j : ℕ)
      → Searching i k
      → Advanced text needle border (length needle) table k i r
      → j ≤ length needle
      → Ends text needle j (suc i)
      → j ≤ r
  longest-next i k r zero s a le g = omega arith
  longest-next i k r (suc j) s a le g =
      let before = s.longest j (omega arith) (Ends-pred text needle j i g) in
      a.longest (suc j) (omega arith) g

  round_of :
      (b : Bool) (p i k r : ℕ) (found : Option Range)
      → i < length text
      → ltb r (length needle) ≡ b
      → Searching i k
      → Advanced text needle border (length needle) table k i r
      → Before (i - length needle) i found
      → Round p i found (kmp_round (length needle) border i r found)
  round_of true p i k r found lt e s a h = rw e (record {
    next = record {
      ends = a.ends;
      short = ground arith;
      longest = λ j lj g. longest-next i k r j s a (omega arith) g;
    };
    before = Before-mono found (omega arith) (omega arith) h;
    sound = λ c. inl c;
    complete = λ c. elim c [
      | inl known ↦ known
      | inr (whole, low, high) ↦
          absurd
            (omega (arith, short-r e, longest-next i k r (length needle) s a (omega arith) whole))
    ];
  })
  round_of false p i k r found lt e s a h = rw e (
      let full : r ≡ length needle = omega (arith, a.below, s.short, not_short e) in
      let whole : Ends text needle (length needle) (suc i) =
        subst (λ j. Ends text needle j (suc i)) full a.ends in
      let b = table r (omega (arith, s.short)) (omega arith) in
      let eq =
        hit-covered p found (suc i - length needle) (suc i) (omega arith)
          (Before-mono found (omega arith) (omega arith) h) in
      record {
        next = record {
          ends = Ends-within text needle r (char_at border (r - 1)) (suc i) a.ends b.ends;
          short = omega (arith, b.shorter);
          longest = λ j lj g.
              b.longest j (omega arith)
                (Ends-border text needle r j (suc i) (omega arith) a.ends g);
        };
        before =
            hit-Before found (suc i - length needle) (suc i)
              (Before-mono found (omega arith) (omega arith) h);
        sound = λ c.
            elim (true-or (any (covers p) (close found))
              (leb (suc i - length needle) p && ltb p (suc i)) (sym eq ∙ c)) [
                | inl known ↦ inl known
                | inr new ↦ inr (
                  suc i - length needle,
                  Ends-Occurs text needle (suc i) (omega arith) whole,
                  ground arith,
                  in_last p (suc i) (length needle) whole.within new,
                )
              ];
        complete = λ c. eq ∙ (elim c [
          | inl known ↦ rw known
          | inr (ends, low, high) ↦
              in_new (any (covers p) (close found)) p (suc i - length needle) (suc i) low high
        ]);
      })

  round_lem :
      (p i k : ℕ) (found : Option Range)
      → i < length text
      → Searching i k
      → Before (i - length needle) i found
      → Round p i found
          (kmp_round (length needle) border i (advance border needle (char_at text i) k) found)
  round_lem p i k found lt s h =
      let r = advance border needle (char_at text i) k in
      round_of (ltb r (length needle)) p i k r found lt refl s
        (advance-Advanced text needle border (length needle) table i k (omega (arith, s.short))
          s.ends)
        h

  kmp_from_sound :
      (p rounds i k : ℕ) (found : Option Range)
      → i + rounds ≡ length text
      → Searching i k
      → Before (i - length needle) i found
      → any (covers p) (kmp_from rounds text needle border i k found) ≡ true
      → (any (covers p) (close found) ≡ true) ⊎ Covered text needle p
  unfolding kmp_from
  kmp_from_sound p zero i k found len s h c = inl c
  kmp_from_sound p (suc rounds) i k found len s h c =
      let q = kmp_round (length needle) border i (advance border needle (char_at text i) k) found in
      let r = round_lem p i k found (omega arith) s h in
      let rest = kmp_from rounds text needle border (suc i) q.2 q.1 in
      elim (true-or (any (covers p) q.0) (any (covers p) rest)
        (sym (any-append (covers p) q.0 rest) ∙ c)) [
          | inl pushed ↦ r.sound (or-left (any (covers p) (close q.1)) pushed)
          | inr later ↦
              elim (kmp_from_sound p rounds (suc i) q.2 q.1 (omega arith) r.next r.before later) [
                | inl last ↦ r.sound (or-right (any (covers p) q.0) last)
                | inr there ↦ inr there
              ]
        ]

  kmp_from_complete :
      (p rounds i k : ℕ) (found : Option Range)
      → i + rounds ≡ length text
      → Searching i k
      → Before (i - length needle) i found
      → (any (covers p) (close found) ≡ true)
        ⊎ ((at : ℕ) × Occurs text needle at
            × (at ≤ p)
            × (p < at + length needle)
            × (i < at + length needle))
      → any (covers p) (kmp_from rounds text needle border i k found) ≡ true
  unfolding kmp_from
  kmp_from_complete p zero i k found len s h (inl known) = known
  kmp_from_complete p zero i k found len s h (inr (at, o, low, high, later)) =
      absurd (omega (arith, o.within))
  kmp_from_complete p (suc rounds) i k found len s h c =
      let q = kmp_round (length needle) border i (advance border needle (char_at text i) k) found in
      let r = round_lem p i k found (omega arith) s h in
      let rest = kmp_from rounds text needle border (suc i) q.2 q.1 in
      let last = λ (l : any (covers p) (close q.1) ≡ true).
        kmp_from_complete p rounds (suc i) q.2 q.1 (omega arith) r.next r.before (inl l) in
      elim c [
        | inl known ↦ covered-append p q.0 rest q.1 last (r.complete (inl known))
        | inr (at, o, low, high, later) ↦
            elim (last_or_before (suc i) (at + length needle) (omega arith)) [
              | inl here ↦ covered-append p q.0 rest q.1 last (
                  r.complete (
                    inr (
                      subst (λ e. Ends text needle (length needle) e) (sym here)
                          (Occurs-Ends text needle at o),
                      omega arith,
                      omega arith,
                    )))
              | inr after ↦ any-pushed p q.0 rest (
                  inr (
                    kmp_from_complete p rounds (suc i) q.2 q.1 (omega arith) r.next r.before
                      (inr (at, o, low, high, after))))
            ]
      ]

-- Nothing is found at first.
Searching-start :
    (text needle border : List ℕ) (table : IsTable needle border (length needle))
    → 0 < length needle
    → Searching text needle border table 0 0
Searching-start text needle border table pos = record {
  ends = Ends-zero text needle 0;
  short = pos;
  longest = λ j lt g. g.within;
}

module _ (text needle : List ℕ) (pos : 0 < length needle) (p : ℕ) where
  pub kmp_matches_sound :
      any (covers p) (kmp_matches text needle (borders needle)) ≡ true → Covered text needle p
  unfolding kmp_matches
  kmp_matches_sound c =
      let table = borders-IsTable needle pos in
      elim (kmp_from_sound text needle (borders needle) table p (length text) 0 0 none (omega arith)
        (Searching-start text needle (borders needle) table pos) tt c) [
          | inl known ↦ cc
          | inr there ↦ there
        ]

  pub kmp_matches_complete :
      Covered text needle p → any (covers p) (kmp_matches text needle (borders needle)) ≡ true
  unfolding kmp_matches
  kmp_matches_complete (at, o, low, high) =
      let table = borders-IsTable needle pos in
      kmp_from_complete text needle (borders needle) table p (length text) 0 0 none (omega arith)
        (Searching-start text needle (borders needle) table pos) tt
        (inr (at, o, low, high, omega arith))
