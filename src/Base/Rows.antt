-- ===== src/Base/Rows.antt =====
-- Tables as lists of rows: `UPDATE … SET … WHERE …` and what it keeps.
use Prim.Native.Nat.{ℕ, suc, ◌+◌, ◌≤◌, ◌<◌}
use mathlib.Core.Path.{◌≡◌, refl, ap}
use mathlib.Core.Logic.{inl, inr}
use mathlib.Core.Bool.{Bool, true, false}
use mathlib.Core.List.{List, [], ◌∷◌, ◌++◌}
use native.Mathlib.Omega.{arith}
use trawler.Base.Tests.{if◌then◌else◌, ◌==◌, ==_iff, Bool-cases}
use trawler.Base.Lists.{any, All, mem, count, count-mem}

module _ {ℓ} {R : Type ℓ} where
  -- `UPDATE rows SET set WHERE cond`
  unfoldable pub update : (R → Bool) → (R → R) → List R → List R
  update cond set [] = []
  update cond set (r ∷ rows) = (if cond r then set r else r) ∷ update cond set rows

  -- A test that holds of no row afterwards: it fails on each row that is set, and on the others.
  pub any-update-false :
      (p : R → Bool) (cond : R → Bool) (set : R → R) (rows : List R)
      → ((r : R) → p (if cond r then set r else r) ≡ false)
      → any p (update cond set rows) ≡ false
  unfolding update
  any-update-false p cond set [] h = refl
  any-update-false p cond set (r ∷ rows) h = ground (arith, h r, any-update-false p cond set rows h)

  -- A test that the update does not change is true of some row exactly as before.
  pub any-update :
      (p : R → Bool) (cond : R → Bool) (set : R → R) (rows : List R)
      → ((r : R) → p (if cond r then set r else r) ≡ p r)
      → any p (update cond set rows) ≡ any p rows
  unfolding update
  any-update p cond set [] h = refl
  any-update p cond set (r ∷ rows) h = ground (arith, h r, any-update p cond set rows h)

  pub All-update {κ} :
      (P : R → Type κ) (cond : R → Bool) (set : R → R) (rows : List R)
      → ((r : R) → P r → P (if cond r then set r else r))
      → All P rows
      → All P (update cond set rows)
  unfolding update
  All-update P cond set [] keep h = tt
  All-update P cond set (r ∷ rows) keep (p, h) = (keep r p, All-update P cond set rows keep h)

  -- A test that each row which is set passes if it passed before.
  pub any-update_mono :
      (p : R → Bool) (cond : R → Bool) (set : R → R) (rows : List R)
      → ((r : R) → p r ≡ true → p (if cond r then set r else r) ≡ true)
      → any p rows ≡ true
      → any p (update cond set rows) ≡ true
  unfolding update
  any-update_mono p cond set [] keep h = h
  any-update_mono p cond set (r ∷ rows) keep h =
      ground (arith, keep r, any-update_mono p cond set rows keep)

  -- A test that fails on every row, and on each row that is set.
  pub any-update-none :
      (p : R → Bool) (cond : R → Bool) (set : R → R) (rows : List R)
      → ((r : R) → p r ≡ false → p (if cond r then set r else r) ≡ false)
      → any p rows ≡ false
      → any p (update cond set rows) ≡ false
  unfolding update
  any-update-none p cond set [] keep h = h
  any-update-none p cond set (r ∷ rows) keep h =
      ground (arith, keep r, any-update-none p cond set rows keep)

  -- An update that meets no row.
  pub update-same :
      (cond : R → Bool) (set : R → R) (rows : List R)
      → any cond rows ≡ false
      → update cond set rows ≡ rows
  unfolding update
  update-same cond set [] h = refl
  update-same cond set (r ∷ rows) h = ground (arith, update-same cond set rows)

  unfoldable pub count_if : (R → Bool) → List R → ℕ
  count_if p [] = 0
  count_if p (r ∷ rows) = let rest = count_if p rows in if p r then suc rest else rest

  pub count_if-append :
      (p : R → Bool) (xs ys : List R) → count_if p (xs ++ ys) ≡ count_if p xs + count_if p ys
  unfolding count_if
  count_if-append p [] ys = omega arith
  count_if-append p (x ∷ xs) ys = ground (arith, count_if-append p xs ys)

  -- Rows that are set do not begin to pass the test.
  pub count_if-update :
      (p : R → Bool) (cond : R → Bool) (set : R → R) (rows : List R)
      → ((r : R) → p r ≡ false → p (if cond r then set r else r) ≡ false)
      → count_if p (update cond set rows) ≤ count_if p rows
  unfolding update count_if
  count_if-update p cond set [] keep = omega arith
  count_if-update p cond set (r ∷ rows) keep =
      ground (arith, keep r, count_if-update p cond set rows keep)

  pub count_if-any : (p : R → Bool) (rows : List R) → any p rows ≡ false → count_if p rows ≡ 0
  unfolding count_if
  count_if-any p [] h = refl
  count_if-any p (r ∷ rows) h = ground (arith, count_if-any p rows)

  -- If no row passed before, only the rows that are set can pass.
  pub count_if-update_none :
      (p : R → Bool) (cond : R → Bool) (set : R → R) (rows : List R)
      → any p rows ≡ false
      → count_if p (update cond set rows) ≤ count_if cond rows
  unfolding update count_if
  count_if-update_none p cond set [] h = omega arith
  count_if-update_none p cond set (r ∷ rows) h =
      ground (arith, count_if-update_none p cond set rows)

module _ {ℓ} {R : Type ℓ} (key : R → ℕ) where
  -- The keys of a table.
  abbrev pub keys : List R → List ℕ
  keys [] = []
  keys (r ∷ rows) = key r ∷ keys rows

  pub keys-update :
      (cond : R → Bool) (set : R → R) (rows : List R)
      → ((r : R) → key (set r) ≡ key r)
      → keys (update cond set rows) ≡ keys rows
  unfolding update
  keys-update cond set [] same = refl
  keys-update cond set (r ∷ rows) same = ground (arith, same r, keys-update cond set rows same)

  pub keys-append : (xs ys : List R) → keys (xs ++ ys) ≡ keys xs ++ keys ys
  keys-append [] ys = refl
  keys-append (x ∷ xs) ys = ap (λ l. key x ∷ l) (keys-append xs ys)

  pub count_if-keys :
      (k : ℕ) (rows : List R) → count_if (λ r. key r == k) rows ≡ count k (keys rows)
  unfolding count_if
  count_if-keys k [] = refl
  count_if-keys k (r ∷ rows) = ground (arith, count_if-keys k rows)

-- Distinct numbers below a bound: the identifiers that the database has given out.
abbrev pub Distinct : List ℕ → Type 0
Distinct [] = Unit
Distinct (x ∷ xs) = (mem x xs ≡ false) × Distinct xs

abbrev pub Below : ℕ → List ℕ → Type 0
Below n [] = Unit
Below n (x ∷ xs) = (x < n) × Below n xs

pub Below-suc : (n : ℕ) (xs : List ℕ) → Below n xs → Below (suc n) xs
Below-suc n [] h = tt
Below-suc n (x ∷ xs) (p, h) = (omega arith, Below-suc n xs h)

pub Below-append : (n : ℕ) (xs ys : List ℕ) → Below n xs → Below n ys → Below n (xs ++ ys)
Below-append n [] ys h k = k
Below-append n (x ∷ xs) ys (p, h) k = (p, Below-append n xs ys h k)

mem-append_ne : (x n : ℕ) (xs : List ℕ) → mem x xs ≡ false → x < n → mem x (xs ++ n ∷ []) ≡ false
mem-append_ne x n [] h lt = ground arith
mem-append_ne x n (y ∷ xs) h lt = ground (arith, mem-append_ne x n xs)

pub Distinct-append_fresh :
    (n : ℕ) (xs : List ℕ) → Distinct xs → Below n xs → Distinct (xs ++ n ∷ [])
Distinct-append_fresh n [] d b = (refl, tt)
Distinct-append_fresh n (x ∷ xs) (new, d) (lt, b) =
    (mem-append_ne x n xs new lt, Distinct-append_fresh n xs d b)

pub count-Distinct : (k : ℕ) (xs : List ℕ) → Distinct xs → count k xs ≤ 1
count-Distinct k [] d = omega arith
count-Distinct k (x ∷ xs) (new, d) = elim (Bool-cases (x == k)) [
  | inl same ↦ rw same (omega (arith, count-mem k xs (rw ((==_iff x k).0 same) at new)))
  | inr other ↦ rw other (count-Distinct k xs d)
]
