-- ===== src/Core/Secrets/Search/Tails.antt =====
-- The first place of a needle, and the repetitions of the needle that its tail stands for
-- (`nativeMatches`).
use mathlib.Core.Path.{subst}
use trawler.Base.{
  ℕ, zero, suc, ◌+◌, ◌-◌, ◌≤◌, ◌<◌, ◌≡◌, ◌∙◌, ap, refl, arith, List, inl, inr, Bool, true, false,
  ltb, if◌then◌else◌, Bool-cases, length, drop, Option, none, some,
}
use trawler.Core.Secrets.Search.{char_at, stands_at, index_of, extend}
use trawler.Core.Secrets.Search.Prefixes.{last_or_before}
use trawler.Core.Secrets.Search.Borders.{IsBorder}
use trawler.Core.Secrets.Search.Occurrences.{
  Occurs, Covered, stands_at-Occurs, char_at-drop, length-drop,
}

-- The first place among so many from `at` on.
abbrev pub IsFirstFrom : List ℕ → List ℕ → ℕ → ℕ → Option ℕ → Type 0
IsFirstFrom text needle at rounds none =
    (q : ℕ) → at ≤ q → q < at + rounds → stands_at text needle q ≡ false
IsFirstFrom text needle at rounds (some first) =
    (at ≤ first)
    × (stands_at text needle first ≡ true)
    × ((q : ℕ) → at ≤ q → q < first → stands_at text needle q ≡ false)

first_if :
    (b : Bool) (text needle : List ℕ) (at rounds : ℕ) (later : Option ℕ)
    → stands_at text needle at ≡ b
    → IsFirstFrom text needle (suc at) rounds later
    → IsFirstFrom text needle at (suc rounds) (if b then some at else later)
first_if true text needle at rounds later e h = (omega arith, e, λ q low high. absurd (omega arith))
first_if false text needle at rounds none e h = λ q low high.
    elim (last_or_before at q (omega arith)) [
      | inl here ↦ subst (λ r. stands_at text needle r ≡ false) here e
      | inr after ↦ h q after (omega arith)
    ]
first_if false text needle at rounds (some first) e (low, there, none_before) = (
  omega arith,
  there,
  λ q le lt. elim (last_or_before at q (omega arith)) [
    | inl here ↦ subst (λ r. stands_at text needle r ≡ false) here e
    | inr after ↦ none_before q after lt
  ],
)

pub index_of-IsFirstFrom :
    (rounds : ℕ) (text needle : List ℕ) (at : ℕ)
    → IsFirstFrom text needle at rounds (index_of rounds text needle at)
unfolding index_of
index_of-IsFirstFrom zero text needle at = λ q low high. absurd (omega arith)
index_of-IsFirstFrom (suc rounds) text needle at =
    first_if (stands_at text needle at) text needle at rounds (index_of rounds text needle (suc at))
      refl (index_of-IsFirstFrom rounds text needle (suc at))

-- Every position of a part of the text belongs to an occurrence.
abbrev pub AllCovered : List ℕ → List ℕ → ℕ → ℕ → Type 0
AllCovered text needle from to = (p : ℕ) → from ≤ p → p < to → Covered text needle p

module _ (text needle : List ℕ) (pos : 0 < length needle) (b : ℕ)
    (border : IsBorder needle (length needle) b) where
  -- An occurrence that the tail follows is followed by another, which begins where the first one
  -- repeats itself.
  Occurs-tail :
      (s : ℕ)
      → Occurs text needle s
      → Occurs text (drop b needle) (s + length needle)
      → Occurs text needle (s + length needle - b)
  Occurs-tail s o t = record {
    within = omega (arith, t.within, length-drop b needle, border.shorter);
    same = λ d lt. elim (Bool-cases (ltb d b)) [
      | inl front ↦
          ap (char_at text) (omega (arith, border.shorter))
          ∙ o.same (length needle - b + d) (ground (arith, border.shorter))
          ∙ border.ends.same d (ground arith)
      | inr back ↦
          let rest : b ≤ d = ground arith in
          ap (char_at text) (omega (arith, border.shorter))
          ∙ t.same (d - b) (omega (arith, length-drop b needle))
          ∙ char_at-drop b (d - b) needle
          ∙ ap (char_at needle) (omega arith)
    ];
  }

  AllCovered-next :
      (at end s : ℕ)
      → s ≤ end
      → Occurs text needle s
      → AllCovered text needle at end
      → AllCovered text needle at (s + length needle)
  AllCovered-next at end s le o all p low high = elim (Bool-cases (ltb p end)) [
    | inl before ↦ all p low (ground arith)
    | inr after ↦ (s, o, ground arith, high)
  ]

  pub record Extended (at end e : ℕ) : Type 0 where
    pub longer : end ≤ e
    pub all : AllCovered text needle at e

  pub extend-Extended :
      (fuel at s : ℕ)
      → Occurs text needle s
      → AllCovered text needle at (s + length needle)
      → Extended at (s + length needle) (extend fuel text (drop b needle) (s + length needle))
  unfolding extend
  extend-Extended zero at s o all = record { longer = omega arith; all = all }
  extend-Extended (suc fuel) at s o all =
      elim (Bool-cases (stands_at text (drop b needle) (s + length needle))) [
        | inl more ↦ rw more (
            let s' = s + length needle - b in
            let len = length-drop b needle in
            let o' = Occurs-tail s o (
              stands_at-Occurs text (drop b needle) (s + length needle)
                (omega (arith, len, border.shorter)) more) in
            let x =
              extend-Extended fuel at s' o'
                (AllCovered-next at (s + length needle) s' (omega arith) o' all) in
            let eq : s' + length needle ≡ s + length needle + length (drop b needle) =
              omega (arith, len, border.shorter) in
            subst (λ e. Extended at (s + length needle) (extend fuel text (drop b needle) e)) eq
              (record { longer = omega (arith, x.longer, border.shorter); all = x.all }))
        | inr ends ↦ rw ends (record { longer = omega arith; all = all })
      ]
