-- ===== src/Runner/Link/Numbers.antt =====
-- The numbers of events: of those in a queue, and of those that are stored.
use mathlib.Core.Path.{subst}
use trawler.Base.{
  ℕ, zero, suc, ◌+◌, ◌-◌, ◌≤◌, ◌≡◌, ◌∙◌, ap, refl, arith, true, false, List, [], ◌∷◌, ◌++◌, inl,
  inr, ◌&&◌, leb, ltb, if◌then◌else◌, Bool-cases, mem, map, take, drop, length, max,
}
use trawler.Queue.Events.{RunEvent}
use trawler.Runner.Events.{Queued, event_of}
use trawler.Runner.Link.Stored.{with_new, seq_of}

-- The numbers from `n + 1` on, `k` of them.
abbrev pub span : ℕ → ℕ → List ℕ
span n zero = []
span n (suc k) = suc n ∷ span (suc n) k

mem-span : (x n k : ℕ) → mem x (span n k) ≡ (ltb n x && leb x (n + k))
mem-span x n zero = ground arith
mem-span x n (suc k) = ground (arith, mem-span x (suc n) k)

span-suc : (n k : ℕ) → span n k ++ suc (n + k) ∷ [] ≡ span n (suc k)
span-suc n zero = ap (λ m. suc m ∷ []) {x = n + 0} (omega arith)
span-suc n (suc k) =
    ap (λ l. suc n ∷ l)
      (ap (λ m. span (suc n) k ++ suc m ∷ []) {x = n + suc k} {y = suc n + k} (omega arith)
        ∙ span-suc (suc n) k)

pub with_new-span : (n m k : ℕ) → n ≤ m → with_new (span 0 m) (span n k) ≡ span 0 (max m (n + k))
with_new-span n m zero le = ap (span 0) {x = m} (omega arith)
with_new-span n m (suc k) le = elim (Bool-cases (mem (suc n) (span 0 m))) [
  | inl old ↦
      ap (λ b. with_new (if b then span 0 m else span 0 m ++ suc n ∷ []) (span (suc n) k)) old
      ∙ with_new-span (suc n) m k (old_le n m old)
      ∙ ap (span 0) {x = max m (suc n + k)} (omega arith)
  | inr new ↦
      let last : n ≡ m = new_eq n m le new in
      ap (λ b. with_new (if b then span 0 m else span 0 m ++ suc n ∷ []) (span (suc n) k)) new
      ∙ ap (λ l. with_new l (span (suc n) k))
          (ap (λ x. span 0 m ++ suc x ∷ []) {x = n} {y = 0 + m} (omega arith) ∙ span-suc 0 m)
      ∙ with_new-span (suc n) (suc m) k (omega arith)
      ∙ ap (span 0) {x = max (suc m) (suc n + k)} (omega arith)
]
  where
    old_le : (n m : ℕ) → mem (suc n) (span 0 m) ≡ true → suc n ≤ m
    old_le n m h = ground (arith, mem-span (suc n) 0 m)

    new_eq : (n m : ℕ) → n ≤ m → mem (suc n) (span 0 m) ≡ false → n ≡ m
    new_eq n m le h = ground (arith, mem-span (suc n) 0 m)

-- The events of a queue are numbered from `n + 1` on.
abbrev pub Numbered : ℕ → List Queued → Type 0
Numbered n [] = Unit
Numbered n (q ∷ queue) = (q.event.seq ≡ suc n) × Numbered (suc n) queue

pub Numbered-append :
    (n : ℕ) (queue : List Queued) (q : Queued)
    → Numbered n queue
    → q.event.seq ≡ suc (n + length queue)
    → Numbered n (queue ++ q ∷ [])
Numbered-append n [] q h e = (omega arith, tt)
Numbered-append n (r ∷ queue) q (first, h) e =
    (first, Numbered-append (suc n) queue q h (omega arith))

pub Numbered-drop :
    (n k : ℕ) (queue : List Queued)
    → k ≤ length queue
    → Numbered n queue
    → Numbered (n + k) (drop k queue)
Numbered-drop n zero queue le h = subst (λ m. Numbered m queue) {x = n} (omega arith) h
Numbered-drop n (suc k) [] le h = absurd (omega arith)
Numbered-drop n (suc k) (q ∷ queue) le (first, h) =
    subst (λ m. Numbered m (drop k queue)) {x = suc n + k} (omega arith)
      (Numbered-drop (suc n) k queue (omega arith) h)

pub length-drop : (k : ℕ) (queue : List Queued) → length (drop k queue) ≡ length queue - k
length-drop zero queue = omega arith
length-drop (suc k) [] = omega arith
length-drop (suc k) (q ∷ queue) = omega (arith, length-drop k queue)

-- A batch that is in flight has the first numbers of the queue.
abbrev pub IsFirst : ℕ → List Queued → List RunEvent → Type 0
IsFirst n queue batch = (map seq_of batch ≡ span n (length batch)) × (length batch ≤ length queue)

pub take-IsFirst :
    (n k : ℕ) (queue : List Queued)
    → Numbered n queue
    → IsFirst n queue (map event_of (take k queue))
take-IsFirst n zero queue h = (refl, omega arith)
take-IsFirst n (suc k) [] h = (refl, omega arith)
take-IsFirst n (suc k) (q ∷ queue) (first, h) =
    let (seqs, le) = take-IsFirst (suc n) k queue h in
    (
      ap (λ l. q.event.seq ∷ l) seqs
          ∙ ap (λ x. x ∷ span (suc n) (length (map event_of (take k queue)))) first,
      omega (arith, le),
    )
