-- ===== src/Queue/Channel/Heard.antt =====
-- What a job hears on the channel (`channelFor` of queue.ts).
use trawler.Base.{
  ◌≡◌, refl, ℕ, zero, suc, ◌≤◌, Bool, true, false, Option, none, some, List, [], ◌∷◌, arith, map,
  filter, take, length, All, find?, ltb, ◌<◌, ◌&&◌, if◌then◌else◌,
}
use trawler.Queue.Rows.{Rows, Job, Around}
use trawler.Queue.Jobs.{Result, ok, refused, invalid_job_token}
use trawler.Queue.Channel.{
  MessageRow, ChannelMessage, Channel, channel_for, channel_found, heard, message_of, is_heard,
  max_channel_messages, is_distinct, is_by_other, holds_lease, author_of,
}

length-take_le {ℓ} : {A : Type ℓ} (n : ℕ) (xs : List A) → length (take n xs) ≤ n
length-take_le zero xs = omega arith
length-take_le (suc n) [] = omega arith
length-take_le (suc n) (x ∷ xs) = omega (arith, length-take_le n xs)

length-map {ℓ κ} :
    {A : Type ℓ} {B : Type κ} (f : A → B) (xs : List A) → length (map f xs) ≡ length xs
length-map f [] = refl
length-map f (x ∷ xs) = omega (arith, length-map f xs)

pub All-take {ℓ κ} :
    {A : Type ℓ} (P : A → Type κ) (n : ℕ) (xs : List A) → All P xs → All P (take n xs)
All-take P zero xs h = tt
All-take P (suc n) [] h = tt
All-take P (suc n) (x ∷ xs) (p, h) = (p, All-take P n xs h)

All-if {ℓ κ} :
    {A : Type ℓ} (P : A → Type κ) (b : Bool) (x : A) (xs : List A)
    → (b ≡ true → P x)
    → All P xs
    → All P (if b then x ∷ xs else xs)
All-if P true x xs h k = (h refl, k)
All-if P false x xs h k = k

pub All-filter {ℓ} : {A : Type ℓ} (p : A → Bool) (xs : List A) → All (λ x. p x ≡ true) (filter p xs)
All-filter p [] = tt
All-filter p (x ∷ xs) = All-if (λ y. p y ≡ true) (p x) x (filter p xs) (λ h. h) (All-filter p xs)

All-map {ℓ κ μ ν} :
    {A : Type ℓ} {B : Type κ} (P : A → Type μ) (Q : B → Type ν) (f : A → B) (xs : List A)
    → ((x : A) → P x → Q (f x))
    → All P xs
    → All Q (map f xs)
All-map P Q f [] h k = tt
All-map P Q f (x ∷ xs) h (p, k) = (h x p, All-map P Q f xs h k)

-- A message that is new to the job, of another person than its own.
abbrev pub IsNewsFor : ℕ → Job → ChannelMessage → Type 0
IsNewsFor after job m = (after < m.id) × (is_distinct m.persona_id job.persona_key ≡ true)

-- What a job gets from the channel, if there is such a job.
abbrev pub Hears : ℕ → Option Job → Result Channel → Type 0
Hears after none r = r ≡ refused invalid_job_token
Hears after (some job) (refused why) = 1 ≤ 0
Hears after (some job) (ok c) =
    (length c.messages ≤ max_channel_messages) × All (IsNewsFor after job) c.messages

by_other-news :
    (author : Option Job) (job : Job) (after id : ℕ)
    → (ltb after id && (elim author [ none ↦ false | some j ↦ is_by_other job j ])) ≡ true
    → (after < id)
      × (is_distinct (elim author [ none ↦ none | some j ↦ j.persona_key ]) job.persona_key ≡ true)
by_other-news none job after id h = (ground arith, ground arith)
by_other-news (some j) job after id h = (ground arith, ground arith)

heard-news :
    (s : Rows) (job : Job) (after : ℕ) (messages : List MessageRow)
    → All (IsNewsFor after job) (map (message_of s) (heard s job after messages))
heard-news s job after messages =
    All-map (λ m. is_heard s job after m ≡ true) (IsNewsFor after job) (message_of s)
      (heard s job after messages) (λ m h. by_other-news (author_of s m) job after m.id h)
      (All-take (λ m. is_heard s job after m ≡ true) max_channel_messages
        (filter (is_heard s job after) messages) (All-filter (is_heard s job after) messages))

found-Hears :
    (s : Rows) (after : ℕ) (messages : List MessageRow) (found : Option Job)
    → Hears after found (channel_found s after messages found)
found-Hears s after messages none = refl
found-Hears s after messages (some job) = (
  omega (
    arith,
    length-map (message_of s) (heard s job after messages),
    length-take_le max_channel_messages (filter (is_heard s job after) messages),
  ),
  heard-news s job after messages,
)

-- Where no job of that id holds its lease with that token, the channel is refused. Else the job
-- gets at most `max_channel_messages` messages, each of them with an id past `after`, and of a
-- person who is not the job's own.
pub channel_for-Hears :
    (a : Around) (hash id after : ℕ) (messages : List MessageRow) (s : Rows)
    → Hears after (find? (holds_lease a hash id) s.jobs) (channel_for a hash id after messages s)
unfolding channel_for
channel_for-Hears a hash id after messages s =
    found-Hears s after messages (find? (holds_lease a hash id) s.jobs)
