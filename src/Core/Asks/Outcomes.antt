-- ===== src/Core/Asks/Outcomes.antt =====
-- How a question to a model ends.
use trawler.Base.{
  ℕ, zero, suc, ◌≤◌, ◌<◌, ◌≡◌, refl, Bool, true, false, none, some, arith, Bool-cases, inl, inr,
}
use trawler.Protocol.Types.{StopReason}
use trawler.Core.AgentLoop.{Failure}
use trawler.Core.Asks.{
  Purse, is_exceeded, Reply, said, threw, Asked, answered, failed, pay, gave_none, failed_with,
  Answer, or_again, ask, settle, ask_model,
}

abbrev pub reason_of : Failure → StopReason
reason_of e = elim e.by_run [ true ↦ StopReason.budget | false ↦ StopReason.error ]

module _ {ℓ} {A : Type ℓ} (replies : ℕ → Reply A) where
  -- From `p` the model was asked `n` times in vain, each time with money left, and each time it was
  -- paid.
  pub data InVain : Purse → ℕ → Purse → Type ℓ where
    not_yet : {p : Purse} → InVain p 0 p
    once_more :
        {p : Purse} {n : ℕ} {q : Purse} (cost : ℕ)
        → is_exceeded p ≡ false
        → replies p.steps ≡ said none cost
        → InVain (pay cost p) n q
        → InVain p (suc n) q

  -- How the question ends, if it may be asked so many times from `p` on.
  pub data Outcome (times : ℕ) (p : Purse) : Answer A → Type ℓ where
    answers :
        (a : A) (cost n : ℕ) (q : Purse)
        → InVain p n q
        → n < times
        → is_exceeded q ≡ false
        → replies q.steps ≡ said (some a) cost
        → Outcome times p (record {
          answer = some a;
          stopped_by = StopReason.done;
          error = none;
          purse = pay cost q;
        })
    spends :
        (n : ℕ) (q : Purse)
        → InVain p n q
        → n ≤ times
        → is_exceeded q ≡ true
        → Outcome times p
            (record { answer = none; stopped_by = StopReason.budget; error = none; purse = q })
    says_nothing :
        (q : Purse)
        → InVain p times q
        → is_exceeded q ≡ false
        → Outcome times p (record {
          answer = none;
          stopped_by = StopReason.error;
          error = some gave_none;
          purse = q;
        })
    fails :
        (e : Failure) (n : ℕ) (q : Purse)
        → InVain p n q
        → n < times
        → is_exceeded q ≡ false
        → replies q.steps ≡ threw e
        → Outcome times p (record {
          answer = none;
          stopped_by = reason_of e;
          error = some (failed_with e.text);
          purse = q;
        })

  -- An outcome after one more question in vain.
  later-Outcome :
      (times cost : ℕ) (p : Purse) (r : Answer A)
      → is_exceeded p ≡ false
      → replies p.steps ≡ said none cost
      → Outcome times (pay cost p) r
      → Outcome (suc times) p r
  later-Outcome times cost p _ left e (Outcome.answers a c n q h lt more k) =
      Outcome.answers a c (suc n) q (once_more cost left e h) (omega arith) more k
  later-Outcome times cost p _ left e (Outcome.spends n q h le over) =
      Outcome.spends (suc n) q (once_more cost left e h) (omega arith) over
  later-Outcome times cost p _ left e (Outcome.says_nothing q h more) =
      Outcome.says_nothing q (once_more cost left e h) more
  later-Outcome times cost p _ left e (Outcome.fails x n q h lt more k) =
      Outcome.fails x (suc n) q (once_more cost left e h) (omega arith) more k

  failed-Outcome :
      (times : ℕ) (p : Purse) (by_run : Bool) (text : ℕ)
      → is_exceeded p ≡ false
      → replies p.steps ≡ threw (record { by_run = by_run; text = text })
      → Outcome (suc times) p (settle (failed (record { by_run = by_run; text = text }) p))
  failed-Outcome times p true text left k =
      Outcome.fails (record { by_run = true; text = text }) 0 p not_yet (omega arith) left k
  failed-Outcome times p false text left k =
      Outcome.fails (record { by_run = false; text = text }) 0 p not_yet (omega arith) left k

  reply-Outcome :
      (times : ℕ) (p : Purse) (reply : Reply A) (again : ℕ → Asked A)
      → is_exceeded p ≡ false
      → replies p.steps ≡ reply
      → ((cost : ℕ) → Outcome times (pay cost p) (settle (again cost)))
      → Outcome (suc times) p (
          settle (elim reply [
            | threw e ↦ failed e p
            | said o cost ↦ or_again o (pay cost p) (again cost)
          ]))
  reply-Outcome times p (threw e) again left k h = failed-Outcome times p e.by_run e.text left k
  reply-Outcome times p (said (some a) cost) again left k h =
      Outcome.answers a cost 0 p not_yet (omega arith) left k
  reply-Outcome times p (said none cost) again left k h =
      later-Outcome times cost p (settle (again cost)) left k (h cost)

  spent-Outcome :
      (times : ℕ) (p : Purse) → is_exceeded p ≡ true → Outcome times p (settle (answered none p))
  spent-Outcome times p over = rw over (Outcome.spends 0 p not_yet (omega arith) over)

  ask-Outcome : (times : ℕ) (p : Purse) → Outcome times p (settle (ask times replies p))
  unfolding ask
  ask-Outcome zero p = elim (Bool-cases (is_exceeded p)) [
    | inl over ↦ spent-Outcome zero p over
    | inr left ↦ rw left (Outcome.says_nothing p not_yet left)
  ]
  ask-Outcome (suc times) p = elim (Bool-cases (is_exceeded p)) [
    | inl over ↦ rw over (spent-Outcome (suc times) p over)
    | inr left ↦ rw left (
        reply-Outcome times p (replies p.steps) (λ cost. ask times replies (pay cost p)) left refl
          (λ cost. ask-Outcome times (pay cost p)))
  ]

  -- A question is asked at most so many times, each time only while the budget is not spent, and
  -- again only if no answer was read. If one is read the job is done with it, and it is what that
  -- reply said; else the budget was spent, or the model was asked every time and gave none, or a
  -- call failed, and the error is that one's. Each reply is paid.
  pub ask_model-Outcome : (times : ℕ) (p : Purse) → Outcome times p (ask_model times replies p)
  unfolding ask_model
  ask_model-Outcome times p = elim (Bool-cases (is_exceeded p)) [
    | inl over ↦ rw over (Outcome.spends 0 p not_yet (omega arith) over)
    | inr left ↦ rw left (ask-Outcome times p)
  ]
