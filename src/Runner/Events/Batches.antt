-- ===== src/Runner/Events/Batches.antt =====
-- How large a batch of events is.
use trawler.Base.{
  ℕ, zero, suc, ◌+◌, ◌≤◌, ◌<◌, ◌≡◌, ◌⊎◌, inl, inr, arith, refl, Bool, true, false, List, [], ◌∷◌,
  leb, ltb, ◌&&◌, ◌||◌, Bool-cases, take, length, min,
}
use trawler.Runner.Events.{Queued, batch_length, next_batch, max_events_per_batch, max_batch_bytes}

abbrev pub bytes_of : List Queued → ℕ
bytes_of [] = 0
bytes_of (q ∷ queue) = q.bytes + bytes_of queue

batch_length_le :
    (n bytes : ℕ) (queue : List Queued) → batch_length n bytes queue ≤ n + length queue
unfolding batch_length
batch_length_le n bytes [] = omega arith
batch_length_le n bytes (q ∷ queue) =
    ground (arith, batch_length_le (suc n) (bytes + q.bytes) queue)

batch_length_ge : (n bytes : ℕ) (queue : List Queued) → n ≤ batch_length n bytes queue
unfolding batch_length
batch_length_ge n bytes [] = omega arith
batch_length_ge n bytes (q ∷ queue) =
    ground (arith, batch_length_ge (suc n) (bytes + q.bytes) queue)

batch_length_max :
    (n bytes : ℕ) (queue : List Queued)
    → n ≤ max_events_per_batch
    → batch_length n bytes queue ≤ max_events_per_batch
unfolding batch_length
batch_length_max n bytes [] h = h
batch_length_max n bytes (q ∷ queue) h =
    ground (arith, batch_length_max (suc n) (bytes + q.bytes) queue)

batch_length_full :
    (n bytes : ℕ) (queue : List Queued)
    → 0 < n
    → max_batch_bytes < bytes
    → batch_length n bytes queue ≡ n
unfolding batch_length
batch_length_full n bytes [] pos over = refl
batch_length_full n bytes (q ∷ queue) pos over = ground arith

abbrev stops : ℕ → ℕ → Bool
stops n bytes = leb max_events_per_batch n || (ltb 0 n && ltb max_batch_bytes bytes)

first_only : (n bytes : ℕ) → stops n bytes ≡ false → ltb max_batch_bytes bytes ≡ true → n ≡ 0
first_only n bytes go over = ground arith

batch_length_pos : (queue : List Queued) → min 1 (length queue) ≤ batch_length 0 0 queue
unfolding batch_length
batch_length_pos [] = omega arith
batch_length_pos (q ∷ queue) = omega (arith, batch_length_ge 1 (0 + q.bytes) queue)

length-take : (n : ℕ) (queue : List Queued) → n ≤ 0 + length queue → length (take n queue) ≡ n
length-take zero queue h = refl
length-take (suc n) [] h = absurd (omega arith)
length-take (suc n) (q ∷ queue) h = omega (arith, length-take n queue (omega arith))

-- The bytes of the first events, up to the length of the batch.
bytes_of-batch :
    (n bytes k : ℕ) (queue : List Queued)
    → batch_length n bytes queue ≡ n + k
    → (n ≡ 0) ⊎ (bytes ≤ max_batch_bytes)
    → (n + k ≤ 1) ⊎ (bytes + bytes_of (take k queue) ≤ max_batch_bytes)
unfolding batch_length
bytes_of-batch n bytes zero queue e (inl none_yet) = inl (omega arith)
bytes_of-batch n bytes zero queue e (inr within) = inr (omega arith)
bytes_of-batch n bytes (suc k) [] e h = absurd (omega arith)
bytes_of-batch n bytes (suc k) (q ∷ queue) e h = elim (Bool-cases (stops n (bytes + q.bytes))) [
  | inl stopped ↦ absurd (omega (arith, rw stopped at e))
  | inr goes_on ↦ elim (Bool-cases (ltb max_batch_bytes (bytes + q.bytes))) [
    | inl over ↦
        let full = batch_length_full (suc n) (bytes + q.bytes) queue (omega arith) (ground arith) in
        let e' : batch_length (suc n) (bytes + q.bytes) queue ≡ n + suc k = rw goes_on at e in
        inl (omega (arith, full, e', first_only n (bytes + q.bytes) goes_on over))
    | inr fits ↦
        elim (bytes_of-batch (suc n) (bytes + q.bytes) k queue (omega (arith, rw goes_on at e))
          (inr (ground arith))) [ inl one ↦ inl (omega arith) | inr within ↦ inr (omega arith) ]
  ]
]

-- A batch has at most `max_events_per_batch` events, it has one unless the queue is empty, and its
-- events have at most `max_batch_bytes` bytes together unless it is a single event.
pub next_batch_bounds :
    (queue : List Queued)
    → (length (next_batch queue) ≤ max_events_per_batch)
      × (min 1 (length queue) ≤ length (next_batch queue))
      × ((length (next_batch queue) ≤ 1) ⊎ (bytes_of (next_batch queue) ≤ max_batch_bytes))
unfolding next_batch
next_batch_bounds queue =
    let n = batch_length 0 0 queue in
    let len = length-take n queue (batch_length_le 0 0 queue) in
    (
      omega (arith, len, batch_length_max 0 0 queue (omega arith)),
      omega (arith, len, batch_length_pos queue),
      elim (bytes_of-batch 0 0 n queue (omega arith) (inl refl)) [
        | inl one ↦ inl (omega (arith, len))
        | inr within ↦ inr (omega arith)
      ],
    )
