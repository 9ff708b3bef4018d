-- ===== src/Runner/Calls.antt =====
-- What the runner asks of the control plane, again where that may help (`call`, `#upload`,
-- `permanent`, `worthRetrying` and the channel's `read` of worker.ts). The answers are a sequence,
-- one for each attempt; the waits between attempts and the times are sequences too.
pub mod Ends
use trawler.Base.{
  ℕ, zero, suc, ◌+◌, ◌-◌, Bool, true, false, Option, none, some, List, [], ◌∷◌, leb, ltb, ◌==◌, not,
  ◌&&◌, ◌||◌, if◌then◌else◌, length,
}

-- `attempts`, where the runner sets none, and `UPLOAD_ATTEMPTS`.
abbrev pub default_attempts : ℕ
default_attempts = 6

abbrev pub upload_wait_ms : ℕ
upload_wait_ms = 35000

-- One attempt: a status, an attempt that threw, or one that threw since the runner stops.
pub data Attempt : Type 0 where
  status : ℕ → Attempt
  threw timed_out aborted : Attempt

-- What `call` returns or throws.
pub data Called : Type 0 where
  response : ℕ → Called
  unauthorized upgrade_required gave_up stopped : Called

abbrev pub is_final : ℕ → Bool
is_final s = ltb s 500 && not (s == 429)

-- What a single attempt decides, or that another is made.
unfoldable pub decides : Attempt → Option Called
decides (status s) =
    if s == 401
    then some unauthorized
    else if s == 426
    then some upgrade_required
    else if is_final s
    then some (response s)
    else none
decides threw = none
decides timed_out = none
decides aborted = some stopped

unfoldable pub call_from : ℕ → (ℕ → Attempt) → ℕ → Called
unfolding decides
call_from zero tries i = gave_up
call_from (suc left) tries i = elim (decides (tries i)) [
  | none ↦ call_from left tries (suc i)
  | some c ↦ c
]

unfoldable pub call : ℕ → (ℕ → Attempt) → Called
unfolding call_from
call attempts tries = call_from attempts tries 0

abbrev pub permanent : ℕ → Bool
permanent s = leb 400 s && ltb s 500 && not (s == 408) && not (s == 429)

abbrev pub worth_retrying : ℕ → Bool
worth_retrying s = s == 429 || (leb 500 s && not (s == 501))

-- `res.ok`
abbrev pub is_ok : ℕ → Bool
is_ok s = leb 200 s && ltb s 300

pub data Uploaded : Type 0 where
  uploaded refused dropped gave_up : Uploaded

-- What one attempt of an upload decides. An attempt that takes too long, or that is dropped, is
-- the last one.
unfoldable pub upload_decides : Attempt → Option Uploaded
upload_decides (status s) =
    if is_ok s
    then some Uploaded.uploaded
    else if worth_retrying s
    then none
    else some Uploaded.refused
upload_decides threw = none
upload_decides timed_out = some Uploaded.dropped
upload_decides aborted = some Uploaded.dropped

-- `elapsed` is the time since the start after each attempt, `wait` the wait before the next.
unfoldable pub upload_from : ℕ → (ℕ → Attempt) → (ℕ → ℕ) → (ℕ → ℕ) → ℕ → Uploaded
unfolding upload_decides
upload_from zero tries elapsed wait i = Uploaded.gave_up
upload_from (suc left) tries elapsed wait i = elim (upload_decides (tries i)) [
  | some u ↦ u
  | none ↦ elim (left == 0 || ltb upload_wait_ms (elapsed i + wait i)) [
    | true ↦ Uploaded.gave_up
    | false ↦ upload_from left tries elapsed wait (suc i)
  ]
]

-- What a question to the channel brings, if it does not throw.
pub record ChannelAnswer : Type 0 where
  pub messages : List ℕ
  pub others_working : Option Bool

abbrev pub is_answer : ℕ → ℕ → ChannelAnswer → Bool
is_answer deadline now a =
    ltb 0 (length a.messages)
    || (elim a.others_working [ none ↦ false | some working ↦ not working ])
    || leb deadline now

-- How the reading ends: by the messages of a question, or by what one threw.
pub data Reading : Type 0 where
  read : ℕ → List ℕ → Reading
  throws : ℕ → Reading

-- What one question decides, if anything; `none` is a status that is not ok, a time-out or an
-- answer that cannot be read.
abbrev pub read_once : ℕ → ℕ → ℕ → Option ChannelAnswer → Option Reading
read_once deadline now i none = some (throws i)
read_once deadline now i (some a) =
    if is_answer deadline now a then some (read i a.messages) else none

-- The channel is asked until a question throws, it has messages, the others are done, or the
-- deadline is past; the time of each question is given. `none` is that the fuel ran out.
unfoldable pub read_channel : ℕ → ℕ → (ℕ → Option ChannelAnswer) → (ℕ → ℕ) → ℕ → Option Reading
read_channel zero deadline answers time i = none
read_channel (suc fuel) deadline answers time i = elim (read_once deadline (time i) i (answers i)) [
  | some r ↦ some r
  | none ↦ read_channel fuel deadline answers time (suc i)
]
