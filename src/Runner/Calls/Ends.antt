-- ===== src/Runner/Calls/Ends.antt =====
-- How a request of the runner ends.
use mathlib.Core.Path.{subst}
use trawler.Base.{
  if◌then◌else◌, ℕ, zero, suc, ◌+◌, ◌≤◌, ◌<◌, ◌≡◌, refl, arith, Bool, true, false, Option, none,
  some, Bool-cases, inl, inr, ◌==◌, ◌⊎◌, ◌≢◌, sym, List,
}
use trawler.Runner.Calls.{
  Attempt, Called, decides, call_from, call, response, unauthorized, upgrade_required, gave_up,
  stopped, ChannelAnswer, is_answer, Reading, read, throws, read_once, read_channel,
}

-- The attempt that decides, and that none before it did.
pub record Decided (tries : ℕ → Attempt) (from to : ℕ) (c : Called) : Type 0 where
  pub at : ℕ
  pub later : from ≤ at
  pub within : at < to
  pub decides_so : decides (tries at) ≡ some c
  pub not_before : (j : ℕ) → from ≤ j → j < at → decides (tries j) ≡ none

-- Either an attempt decided, or all were made in vain.
abbrev pub CallEnds : (ℕ → Attempt) → ℕ → ℕ → Called → Type 0
CallEnds tries from to c =
    Decided tries from to c
    ⊎ ((c ≡ gave_up) × ((j : ℕ) → from ≤ j → j < to → decides (tries j) ≡ none))

here_or_later : (i j : ℕ) → i ≤ j → (i ≡ j) ⊎ (suc i ≤ j)
here_or_later i j le = elim (Bool-cases (i == j)) [
  | inl same ↦ inl (ground arith)
  | inr other ↦ inr (ground arith)
]

Decided-later :
    (tries : ℕ → Attempt) (i to : ℕ) (c : Called)
    → decides (tries i) ≡ none
    → Decided tries (suc i) to c
    → Decided tries i to c
Decided-later tries i to c first d = record {
  at = d.at;
  later = omega (arith, d.later);
  within = d.within;
  decides_so = d.decides_so;
  not_before = λ j low high. elim (here_or_later i j low) [
    | inl here ↦ subst (λ k. decides (tries k) ≡ none) here first
    | inr after ↦ d.not_before j after high
  ];
}

CallEnds-later :
    (tries : ℕ → Attempt) (i to : ℕ) (c : Called)
    → decides (tries i) ≡ none
    → CallEnds tries (suc i) to c
    → CallEnds tries i to c
CallEnds-later tries i to c first (inl d) = inl (Decided-later tries i to c first d)
CallEnds-later tries i to c first (inr (e, none_did)) = inr (
  e,
  λ j low high. elim (here_or_later i j low) [
    | inl here ↦ subst (λ k. decides (tries k) ≡ none) here first
    | inr after ↦ none_did j after high
  ],
)

call_round-CallEnds :
    (tries : ℕ → Attempt) (i to : ℕ) (o : Option Called) (later : Called)
    → i < to
    → decides (tries i) ≡ o
    → CallEnds tries (suc i) to later
    → CallEnds tries i to (elim o [ none ↦ later | some c ↦ c ])
call_round-CallEnds tries i to none later lt e h = CallEnds-later tries i to later e h
call_round-CallEnds tries i to (some c) later lt e h = inl (record {
  at = i;
  later = omega arith;
  within = lt;
  decides_so = e;
  not_before = λ j low high. absurd (omega arith);
})

call_from-CallEnds :
    (left : ℕ) (tries : ℕ → Attempt) (i to : ℕ)
    → i + left ≡ to
    → CallEnds tries i to (call_from left tries i)
unfolding call_from
call_from-CallEnds zero tries i to e = inr (refl, λ j low high. absurd (omega arith))
call_from-CallEnds (suc left) tries i to e =
    call_round-CallEnds tries i to (decides (tries i)) (call_from left tries (suc i)) (omega arith)
      refl (call_from-CallEnds left tries (suc i) to (omega arith))

-- What a response that is returned is not.
abbrev pub IsNoRetry : Called → Type 0
IsNoRetry (response s) = (s < 500) × (s ≢ 401) × (s ≢ 426) × (s ≢ 429)
IsNoRetry other = Unit

decides-IsNoRetry : (t : Attempt) (c : Called) → decides t ≡ some c → IsNoRetry c
unfolding decides
decides-IsNoRetry t unauthorized h = tt
decides-IsNoRetry t upgrade_required h = tt
decides-IsNoRetry t gave_up h = tt
decides-IsNoRetry t stopped h = tt
decides-IsNoRetry (Attempt.status q) (response s) h =
    (ground arith, λ e. ground arith, λ e. ground arith, λ e. ground arith)
decides-IsNoRetry Attempt.threw (response s) h = cc
decides-IsNoRetry Attempt.timed_out (response s) h = cc
decides-IsNoRetry Attempt.aborted (response s) h = cc

CallEnds-IsNoRetry :
    (tries : ℕ → Attempt) (from to : ℕ) (c : Called) → CallEnds tries from to c → IsNoRetry c
CallEnds-IsNoRetry tries from to c (inl d) = decides-IsNoRetry (tries d.at) c d.decides_so
CallEnds-IsNoRetry tries from to c (inr (e, none_did)) = subst IsNoRetry (sym e) tt

-- A request is answered by the first of its attempts that decides it, and no attempt before that
-- one did; or each of the attempts, as many as are allowed, failed in a way that may pass. A
-- response that is returned is none of those that are thrown or asked for again.
pub call-CallEnds :
    (attempts : ℕ) (tries : ℕ → Attempt)
    → CallEnds tries 0 attempts (call attempts tries) × IsNoRetry (call attempts tries)
unfolding call
call-CallEnds attempts tries =
    let ends = call_from-CallEnds attempts tries 0 attempts (omega arith) in
    (ends, CallEnds-IsNoRetry tries 0 attempts (call_from attempts tries 0) ends)

-- Why a reading ended at a question: it threw, or it brought a message, or that nobody else is at
-- work, or came after the deadline.
abbrev pub EndsAt : ℕ → (ℕ → Option ChannelAnswer) → (ℕ → ℕ) → ℕ → Reading → Type 0
EndsAt deadline answers time at (throws i) = (i ≡ at) × (answers at ≡ none)
EndsAt deadline answers time at (read i messages) =
    (i ≡ at)
    × ((a : ChannelAnswer) × (answers at ≡ some a)
        × (messages ≡ a.messages)
        × (is_answer deadline (time at) a ≡ true))

-- The question that ends the reading of a channel.
pub record ChannelRead (deadline : ℕ) (answers : ℕ → Option ChannelAnswer) (time : ℕ → ℕ)
    (from last : ℕ) (r : Option Reading) : Type 0 where
  pub at : ℕ
  pub reading : Reading
  pub returned : r ≡ some reading
  pub within : (from ≤ at) × (at ≤ last)
  pub because : EndsAt deadline answers time at reading
  pub not_before : (j : ℕ) → from ≤ j → j < at → read_once deadline (time j) j (answers j) ≡ none

read_if :
    (b : Bool) (i k : ℕ) (messages ms : List ℕ)
    → ◌≡◌ {A = Option Reading} (if b then some (read i messages) else none) (some (read k ms))
    → (k ≡ i) × (ms ≡ messages) × (b ≡ true)
read_if true i k messages ms h = (cc, cc, refl)
read_if false i k messages ms h = cc

read_once-EndsAt :
    (deadline : ℕ) (answers : ℕ → Option ChannelAnswer) (time : ℕ → ℕ) (i : ℕ)
    (o : Option ChannelAnswer) (r : Reading)
    → answers i ≡ o
    → read_once deadline (time i) i o ≡ some r
    → EndsAt deadline answers time i r
read_once-EndsAt deadline answers time i none (read k ms) e h = cc
read_once-EndsAt deadline answers time i none (throws k) e h = (ground arith, e)
read_once-EndsAt deadline answers time i (some a) (throws k) e h = ground arith
read_once-EndsAt deadline answers time i (some a) (read k ms) e h =
    let (same, told, ends) = read_if (is_answer deadline (time i) a) i k a.messages ms h in
    (same, (a, e, told, ends))

read_once-past :
    (deadline now i : ℕ) (o : Option ChannelAnswer)
    → deadline ≤ now
    → read_once deadline now i o ≢ none
read_once-past deadline now i none past h = cc
read_once-past deadline now i (some a) past h = ground arith

from_lt :
    (deadline : ℕ) (answers : ℕ → Option ChannelAnswer) (time : ℕ → ℕ) (from last : ℕ)
    → from ≤ last
    → deadline ≤ time last
    → read_once deadline (time from) from (answers from) ≡ none
    → suc from ≤ last
from_lt deadline answers time from last le past more = elim (here_or_later from last le) [
  | inl here ↦ absurd (
      read_once-past deadline (time from) from (answers from)
        (subst (λ i. deadline ≤ time i) (sym here) past) more)
  | inr after ↦ after
]

read_round :
    (o : Option Reading) (deadline : ℕ) (answers : ℕ → Option ChannelAnswer) (time : ℕ → ℕ)
    (from last : ℕ) (later : Option Reading)
    → from ≤ last
    → read_once deadline (time from) from (answers from) ≡ o
    → (o ≡ none → ChannelRead deadline answers time (suc from) last later)
    → ChannelRead deadline answers time from last (elim o [ some r ↦ some r | none ↦ later ])
read_round (some r) deadline answers time from last later le e h = record {
  at = from;
  reading = r;
  returned = refl;
  within = (omega arith, le);
  because = read_once-EndsAt deadline answers time from (answers from) r refl e;
  not_before = λ j low high. absurd (omega arith);
}
read_round none deadline answers time from last later le e h =
    let r = h refl in
    record {
      at = r.at;
      reading = r.reading;
      returned = r.returned;
      within = (omega (arith, r.within), r.within.1);
      because = r.because;
      not_before = λ j low high. elim (here_or_later from j low) [
        | inl here ↦ subst (λ k. read_once deadline (time k) k (answers k) ≡ none) here e
        | inr after ↦ r.not_before j after high
      ];
    }

-- If the deadline is past at some question, and there is fuel for it, the reading ends at that
-- question or before: at the first one that throws, and it throws then; or that finds a message, or
-- that nobody else is at work, or the deadline past, and then its messages are returned.
pub read_channel-ChannelRead :
    (fuel deadline : ℕ) (answers : ℕ → Option ChannelAnswer) (time : ℕ → ℕ) (from last : ℕ)
    → last < from + fuel
    → from ≤ last
    → deadline ≤ time last
    → ChannelRead deadline answers time from last (read_channel fuel deadline answers time from)
unfolding read_channel
read_channel-ChannelRead zero deadline answers time from last lt le past = absurd (omega arith)
read_channel-ChannelRead (suc fuel) deadline answers time from last lt le past =
    read_round (read_once deadline (time from) from (answers from)) deadline answers time from last
      (read_channel fuel deadline answers time (suc from)) le refl
      (λ more.
        read_channel-ChannelRead fuel deadline answers time (suc from) last (omega arith)
          (from_lt deadline answers time from last le past more) past)
