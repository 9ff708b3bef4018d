-- ===== src/Core/Secrets/Search/Prefixes.antt =====
-- Prefixes of a needle that end at a position of a text.
use trawler.Base.{
  ℕ, suc, ◌+◌, ◌-◌, ◌≤◌, ◌<◌, ◌≡◌, ◌∙◌, ap, sym, arith, List, ◌⊎◌, inl, inr, Bool-cases, ◌==◌,
}
use trawler.Core.Secrets.Search.{char_at}

-- The first `j` characters of the needle are the last `j` before the position `i` of the text.
pub record Ends (text needle : List ℕ) (j i : ℕ) : Type 0 where
  pub within : j ≤ i
  pub same : (d : ℕ) → d < j → char_at text (i - j + d) ≡ char_at needle d

pub last_or_before : (d j : ℕ) → d < suc j → (d ≡ j) ⊎ (d < j)
last_or_before d j h = elim (Bool-cases (d == j)) [
  | inl last ↦ inl (ground arith)
  | inr before ↦ inr (ground arith)
]

module _ (text needle : List ℕ) where
  pub Ends-zero : (i : ℕ) → Ends text needle 0 i
  Ends-zero i = record { within = omega arith; same = λ d h. absurd (omega arith) }

  pub Ends-suc :
      (j i : ℕ)
      → Ends text needle j i
      → char_at text i ≡ char_at needle j
      → Ends text needle (suc j) (suc i)
  Ends-suc j i h same = record {
    within = omega (arith, h.within);
    same = λ d lt. elim (last_or_before d j lt) [
      | inl last ↦
          ap (char_at text) (omega (arith, h.within)) ∙ same ∙ ap (char_at needle) (sym last)
      | inr before ↦ ap (char_at text) (omega (arith, h.within)) ∙ h.same d before
    ];
  }

  pub Ends-pred : (j i : ℕ) → Ends text needle (suc j) (suc i) → Ends text needle j i
  Ends-pred j i h = record {
    within = omega (arith, h.within);
    same = λ d lt. ap (char_at text) (omega (arith, h.within)) ∙ h.same d (omega arith);
  }

  pub Ends-last : (j i : ℕ) → Ends text needle (suc j) (suc i) → char_at text i ≡ char_at needle j
  Ends-last j i h = ap (char_at text) (omega (arith, h.within)) ∙ h.same j (omega arith)

  -- Of two prefixes that end at a position, the shorter one ends the longer one.
  pub Ends-border :
      (k j i : ℕ) → j ≤ k → Ends text needle k i → Ends text needle j i → Ends needle needle j k
  Ends-border k j i le h g = record {
    within = le;
    same = λ d lt.
        sym (h.same (k - j + d) (omega arith))
        ∙ ap (char_at text) (omega (arith, h.within))
        ∙ g.same d lt;
  }

  pub Ends-within :
      (k j i : ℕ) → Ends text needle k i → Ends needle needle j k → Ends text needle j i
  Ends-within k j i h g = record {
    within = omega (arith, h.within, g.within);
    same = λ d lt.
        ap (char_at text) (omega (arith, h.within, g.within))
        ∙ h.same (k - j + d) (omega (arith, g.within))
        ∙ g.same d lt;
  }
