-- ===== src/Core/Secrets/Search/Borders.antt =====
-- The table of borders: the longest proper prefix that ends each prefix of a needle.
use mathlib.Core.Path.{subst}
use trawler.Base.{
  ℕ, zero, suc, ◌+◌, ◌-◌, ◌≤◌, ◌<◌, ◌≡◌, ◌∙◌, ap, sym, refl, arith, List, [], ◌∷◌, ◌⊎◌, inl, inr,
  Bool, true, false, not, ◌&&◌, ltb, ◌==◌, if◌then◌else◌, Bool-cases, length,
}
use trawler.Core.Secrets.Search.{char_at, fall_back, advance, set, replicate, borders, borders_from}
use trawler.Core.Secrets.Search.Prefixes.{
  Ends, Ends-zero, Ends-suc, Ends-pred, Ends-last, Ends-border, Ends-within, last_or_before,
}

-- `b` is the longest border of the prefix of length `k`.
pub record IsBorder (needle : List ℕ) (k b : ℕ) : Type 0 where
  pub shorter : b < k
  pub ends : Ends needle needle b k
  pub longest : (j : ℕ) → j < k → Ends needle needle j k → j ≤ b

-- The table is right for the prefixes of lengths 1 to `n`.
abbrev pub IsTable : List ℕ → List ℕ → ℕ → Type 0
IsTable needle border n = (k : ℕ) → 0 < k → k ≤ n → IsBorder needle k (char_at border (k - 1))

-- What is left of a match of length `k` that the character `c` shall continue.
pub record Fell (text needle : List ℕ) (c i k r : ℕ) : Type 0 where
  pub ends : Ends text needle r i
  pub below : r ≤ k
  pub longest : (j : ℕ) → j ≤ k → Ends text needle j i → c ≡ char_at needle j → j ≤ r
  pub stopped : (r ≡ 0) ⊎ (c ≡ char_at needle r)

differ : {c d : ℕ} → c ≡ d → (c == d) ≡ false → 1 ≤ 0
differ same e = ground arith

stops_because : (k c d : ℕ) → (ltb 0 k && not (c == d)) ≡ false → (k ≡ 0) ⊎ (c ≡ d)
stops_because k c d h = elim (Bool-cases (k == 0)) [
  | inl none_left ↦ inl (ground arith)
  | inr some_left ↦ inr (ground arith)
]

module _ (text needle border : List ℕ) (n : ℕ) (table : IsTable needle border n) where
  Fell-shorter :
      (c i k r : ℕ)
      → 0 < k
      → k ≤ n
      → (c ≡ char_at needle k → 1 ≤ 0)
      → Ends text needle k i
      → Fell text needle c i (char_at border (k - 1)) r
      → Fell text needle c i k r
  Fell-shorter c i k r pos le other h f = record {
    ends = f.ends;
    below = omega (arith, f.below, (table k pos le).shorter);
    longest = λ j lj g same. elim (last_or_before j k (omega arith)) [
      | inl whole ↦ absurd (omega (arith, other (same ∙ ap (char_at needle) whole)))
      | inr part ↦
          f.longest j ((table k pos le).longest j part (Ends-border text needle k j i lj h g)) g
            same
    ];
    stopped = f.stopped;
  }

  fall_back-Fell :
      (fuel c i k : ℕ)
      → k ≤ n
      → k ≤ fuel
      → Ends text needle k i
      → Fell text needle c i k (fall_back fuel border needle c k)
  unfolding fall_back
  fall_back-Fell zero c i k le enough h = record {
    ends = h;
    below = omega arith;
    longest = λ j lj g same. lj;
    stopped = inl (omega arith);
  }
  fall_back-Fell (suc fuel) c i k le enough h =
      elim (Bool-cases (ltb 0 k && not (c == char_at needle k))) [
        | inl falls ↦ rw falls (
            Fell-shorter c i k (fall_back fuel border needle c (char_at border (k - 1)))
              (ground arith) le (λ e. ground arith) h
              (fall_back-Fell fuel c i (char_at border (k - 1))
                (omega (arith, (table k (ground arith) le).shorter))
                (omega (arith, (table k (ground arith) le).shorter))
                (Ends-within text needle k (char_at border (k - 1)) i h
                  (table k (ground arith) le).ends)))
        | inr stays ↦ rw stays (record {
          ends = h;
          below = omega arith;
          longest = λ j lj g same. lj;
          stopped = stops_because k c (char_at needle k) stays;
        })
      ]

  -- One character more: the longest prefix of at most `suc k` characters that ends after it.
  pub record Advanced (k i r : ℕ) : Type 0 where
    pub ends : Ends text needle r (suc i)
    pub below : r ≤ suc k
    pub longest : (j : ℕ) → j ≤ suc k → Ends text needle j (suc i) → j ≤ r

  longest-suc :
      (k i r j : ℕ)
      → Fell text needle (char_at text i) i k r
      → char_at text i ≡ char_at needle r
      → j ≤ suc k
      → Ends text needle j (suc i)
      → j ≤ suc r
  longest-suc k i r zero f same le g = omega arith
  longest-suc k i r (suc j) f same le g =
      omega (
        arith,
        f.longest j (omega arith) (Ends-pred text needle j i g) (Ends-last text needle j i g),
      )

  longest-none :
      (k i r j : ℕ)
      → Fell text needle (char_at text i) i k r
      → (char_at text i ≡ char_at needle r → 1 ≤ 0)
      → r ≡ 0
      → j ≤ suc k
      → Ends text needle j (suc i)
      → j ≤ r
  longest-none k i r zero f other none_left le g = omega arith
  longest-none k i r (suc j) f other none_left le g =
      let short =
        f.longest j (omega arith) (Ends-pred text needle j i g) (Ends-last text needle j i g) in
      let same : char_at text i ≡ char_at needle r =
        Ends-last text needle j i g ∙ ap (char_at needle) (omega arith) in
      absurd (omega (arith, other same))

  Advanced-if :
      (k i r : ℕ) (b : Bool)
      → Fell text needle (char_at text i) i k r
      → (char_at text i == char_at needle r) ≡ b
      → Advanced k i (if b then suc r else r)
  Advanced-if k i r true f e = record {
    ends = Ends-suc text needle r i f.ends (ground arith);
    below = omega (arith, f.below);
    longest = λ j le g. longest-suc k i r j f (ground arith) le g;
  }
  Advanced-if k i r false f e = elim f.stopped [
    | inl none_left ↦ record {
      ends =
          subst (λ j. Ends text needle j (suc i)) (sym none_left) (Ends-zero text needle (suc i));
      below = omega (arith, f.below);
      longest = λ j le g. longest-none k i r j f (λ same. ground arith) none_left le g;
    }
    | inr same ↦ absurd (omega (arith, differ same e))
  ]

  pub advance-Advanced :
      (i k : ℕ)
      → k ≤ n
      → Ends text needle k i
      → Advanced k i (advance border needle (char_at text i) k)
  unfolding advance
  advance-Advanced i k le h =
      Advanced-if k i (fall_back k border needle (char_at text i) k)
        (char_at text i == char_at needle (fall_back k border needle (char_at text i) k))
        (fall_back-Fell k (char_at text i) i k le (omega arith) h) refl

char_at-replicate : (n i : ℕ) → char_at (replicate n 0) i ≡ 0
char_at-replicate zero i = refl
char_at-replicate (suc n) zero = refl
char_at-replicate (suc n) (suc i) = char_at-replicate n i

char_at-set :
    (xs : List ℕ) (i j v : ℕ)
    → i < length xs
    → char_at (set xs i v) j ≡ (if i == j then v else char_at xs j)
char_at-set [] i j v h = absurd (omega arith)
char_at-set (x ∷ xs) zero zero v h = refl
char_at-set (x ∷ xs) zero (suc j) v h = ground arith
char_at-set (x ∷ xs) (suc i) zero v h = ground arith
char_at-set (x ∷ xs) (suc i) (suc j) v h = ground (arith, char_at-set xs i j v)

length-set : (xs : List ℕ) (i v : ℕ) → length (set xs i v) ≡ length xs
length-set [] i v = refl
length-set (x ∷ xs) zero v = refl
length-set (x ∷ xs) (suc i) v = omega (arith, length-set xs i v)

length-replicate : (n v : ℕ) → length (replicate n v) ≡ n
length-replicate zero v = refl
length-replicate (suc n) v = omega (arith, length-replicate n v)

-- The table with the border of the next prefix.
IsTable-set :
    (needle border : List ℕ) (i k : ℕ)
    → 0 < i
    → i < length border
    → IsTable needle border i
    → IsBorder needle (suc i) k
    → IsTable needle (set border i k) (suc i)
IsTable-set needle border i k pos lt table new l low le =
    elim (last_or_before l (suc i) (omega arith)) [
      | inl last ↦
          subst (λ b. IsBorder needle l b) (sym (char_at-set border i (l - 1) k lt ∙ ground arith))
            (subst (λ m. IsBorder needle m k) (sym last) new)
      | inr before ↦
          subst (λ b. IsBorder needle l b) (sym (char_at-set border i (l - 1) k lt ∙ ground arith))
            (table l low (omega arith))
    ]

longest-below :
    (needle : List ℕ) (i k j : ℕ)
    → IsBorder needle i k
    → j < suc i
    → Ends needle needle j (suc i)
    → j ≤ suc k
longest-below needle i k zero b lt g = omega arith
longest-below needle i k (suc j) b lt g =
    omega (arith, b.longest j (omega arith) (Ends-pred needle needle j i g))

borders_from-IsTable :
    (rounds : ℕ) (needle : List ℕ) (i k : ℕ) (border : List ℕ)
    → 0 < i
    → length border ≡ i + rounds
    → IsTable needle border i
    → IsBorder needle i k
    → IsTable needle (borders_from rounds needle i k border) (i + rounds)
unfolding borders_from
borders_from-IsTable zero needle i k border pos len table b =
    subst (λ n. IsTable needle border n) (omega arith) table
borders_from-IsTable (suc rounds) needle i k border pos len table b =
    let k' = advance border needle (char_at needle i) k in
    let a = advance-Advanced needle needle border i table i k (omega (arith, b.shorter)) b.ends in
    let next : IsBorder needle (suc i) k' = record {
      shorter = omega (arith, a.below, b.shorter);
      ends = a.ends;
      longest = λ j lt g. a.longest j (longest-below needle i k j b lt g) g;
    } in
    subst (λ n. IsTable needle (borders_from rounds needle (suc i) k' (set border i k')) n)
      (omega arith)
      (borders_from-IsTable rounds needle (suc i) k' (set border i k') (omega arith)
        (omega (arith, length-set border i k'))
        (IsTable-set needle border i k' pos (omega arith) table next) next)

first : (needle : List ℕ) → IsBorder needle 1 0
first needle = record {
  shorter = omega arith;
  ends = Ends-zero needle needle 1;
  longest = λ j lt g. omega arith;
}

-- The table that `borders` builds is right for every prefix of the needle.
pub borders-IsTable :
    (needle : List ℕ) → 0 < length needle → IsTable needle (borders needle) (length needle)
unfolding borders
borders-IsTable needle pos =
    subst (λ n. IsTable needle (borders needle) n) (omega arith)
      (borders_from-IsTable (length needle - 1) needle 1 0 (replicate (length needle) 0)
        (omega arith) (omega (arith, length-replicate (length needle) 0))
        (λ k low le.
          subst (λ b. IsBorder needle k b) (sym (char_at-replicate (length needle) (k - 1)))
            (subst (λ l. IsBorder needle l 0) {x = 1} (omega arith) (first needle)))
        (first needle))
