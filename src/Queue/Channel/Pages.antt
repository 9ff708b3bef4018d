-- ===== src/Queue/Channel/Pages.antt =====
-- The messages of a channel, page by page.
use mathlib.Core.Path.{subst}
use trawler.Queue.Channel.Heard.{All-take, All-filter}
use trawler.Base.{
  ◌≡◌, refl, sym, ap, ◌∙◌, ℕ, zero, suc, ◌≤◌, ◌<◌, Bool, true, false, Option, none, some, List, [],
  ◌∷◌, ◌++◌, arith, map, filter, take, length, All, find?, ltb, ◌&&◌, if◌then◌else◌, length-append,
  length-filter,
}
use trawler.Queue.Rows.{Rows, Job, Around}
use trawler.Queue.Jobs.{ok, refused}
use trawler.Queue.Channel.{
  MessageRow, ChannelMessage, channel_for, channel_found, heard, message_of, is_heard,
  max_channel_messages, is_by_other, holds_lease, author_of,
}

-- The messages stand in the order of their ids.
abbrev pub IsOrdered : List MessageRow → Type 0
IsOrdered [] = Unit
IsOrdered (m ∷ messages) = All (λ (n : MessageRow). m.id < n.id) messages × IsOrdered messages

abbrev last_id : ℕ → List ChannelMessage → ℕ
last_id after [] = after
last_id after (m ∷ messages) = last_id m.id messages

abbrev page_then : List ChannelMessage → (ℕ → List ChannelMessage) → List ChannelMessage
page_then [] rest = []
page_then (m ∷ page) rest = (m ∷ page) ++ rest (last_id m.id page)

-- The pages of a job that asks again, after the last message that it has, until it hears nothing.
unfoldable pub pages : ℕ → Around → ℕ → ℕ → ℕ → List MessageRow → Rows → List ChannelMessage
pages zero a hash id after messages s = []
pages (suc fuel) a hash id after messages s = elim (channel_for a hash id after messages s) [
  | refused why ↦ []
  | ok c ↦ page_then c.messages (λ last. pages fuel a hash id last messages s)
]

-- What remains of the messages after an id.
abbrev later : (MessageRow → Bool) → ℕ → List MessageRow → List MessageRow
later p after messages = filter (λ (m : MessageRow). ltb after m.id && p m) messages

abbrev last_row : ℕ → List MessageRow → ℕ
last_row after [] = after
last_row after (m ∷ messages) = last_row m.id messages

All-after :
    (after : ℕ) (m : MessageRow) (messages : List MessageRow)
    → after < m.id
    → All (λ (k : MessageRow). m.id < k.id) messages
    → All (λ (k : MessageRow). after < k.id) messages
All-after after m [] lt h = tt
All-after after m (k ∷ messages) lt (le, h) = (omega arith, All-after after m messages lt h)

-- Messages that are all later need no test of their ids.
later_eq :
    (p : MessageRow → Bool) (after : ℕ) (messages : List MessageRow)
    → All (λ (m : MessageRow). after < m.id) messages
    → later p after messages ≡ filter p messages
later_eq p after [] h = refl
later_eq p after (m ∷ messages) (lt, h) = ground (arith, later_eq p after messages h)

last_row_le :
    (b c : ℕ) (page : List MessageRow)
    → b ≤ c
    → All (λ (m : MessageRow). b < m.id) page
    → b ≤ last_row c page
last_row_le b c [] le h = le
last_row_le b c (m ∷ page) le (lt, h) = last_row_le b m.id page (omega (arith, lt)) h

All-later :
    (p : MessageRow → Bool) (after : ℕ) (messages : List MessageRow)
    → All (λ (m : MessageRow). (ltb after m.id && p m) ≡ true) messages
    → All (λ (m : MessageRow). after < m.id) messages
All-later p after [] h = tt
All-later p after (m ∷ messages) (e, h) = (ground arith, All-later p after messages h)

page_later :
    (p : MessageRow → Bool) (n after : ℕ) (messages : List MessageRow)
    → after ≤ last_row after (take n (later p after messages))
page_later p n after messages =
    last_row_le after after (take n (later p after messages)) (omega arith) (
      All-later p after (take n (later p after messages)) (
        All-take (λ (m : MessageRow). (ltb after m.id && p m) ≡ true) n (later p after messages)
          (All-filter (λ (m : MessageRow). ltb after m.id && p m) messages)))

not_later :
    (p : MessageRow → Bool) (last : ℕ) (m : MessageRow) (messages : List MessageRow)
    → (ltb last m.id && p m) ≡ false
    → later p last (m ∷ messages) ≡ later p last messages
not_later p last m messages e = ground arith

-- A page and what is later than its last message.
abbrev IsPaged : (MessageRow → Bool) → List MessageRow → ℕ → ℕ → List MessageRow → Type 0
IsPaged p messages n after found =
    take n found ++ later p (last_row after (take n found)) messages ≡ found

page_round :
    (b : Bool) (p : MessageRow → Bool) (n after : ℕ) (m : MessageRow) (messages : List MessageRow)
    → (ltb after m.id && p m) ≡ b
    → All (λ (k : MessageRow). m.id < k.id) messages
    → IsPaged p messages n after (later p after messages)
    → ((k : ℕ) → IsPaged p messages k m.id (later p m.id messages))
    → IsPaged p
        (m ∷ messages)
        n
        after
        (if b then m ∷ later p after messages else later p after messages)
page_round false p n after m messages e ordered here there =
    let le = page_later p n after messages in
    ap (λ rest. take n (later p after messages) ++ rest)
      (not_later p (last_row after (take n (later p after messages))) m messages
        (ground (arith, le)))
    ∙ here
page_round true p zero after m messages e ordered here there = ground arith
page_round true p (suc n) after m messages e ordered here there =
    let le = page_later p n m.id messages in
    let same : later p m.id messages ≡ later p after messages =
      later_eq p m.id messages ordered
      ∙ sym (later_eq p after messages (All-after after m messages (ground arith) ordered)) in
    subst (λ found. IsPaged p (m ∷ messages) (suc n) after (m ∷ found)) same
      (ap (λ l. m ∷ l)
        (ap (λ rest. take n (later p m.id messages) ++ rest)
            (not_later p (last_row m.id (take n (later p m.id messages))) m messages
              (ground (arith, le)))
          ∙ there n))

later-IsPaged :
    (p : MessageRow → Bool) (n after : ℕ) (messages : List MessageRow)
    → IsOrdered messages
    → IsPaged p messages n after (later p after messages)
later-IsPaged p zero after [] h = refl
later-IsPaged p (suc n) after [] h = refl
later-IsPaged p n after (m ∷ messages) (first, h) =
    page_round (ltb after m.id && p m) p n after m messages refl first
      (later-IsPaged p n after messages h) (λ k. later-IsPaged p k m.id messages h)

message_of-last :
    (s : Rows) (id : ℕ) (page : List MessageRow)
    → last_id id (map (message_of s) page) ≡ last_row id page
message_of-last s id [] = refl
message_of-last s id (m ∷ page) = message_of-last s m.id page

map-append {ℓ κ} :
    {A : Type ℓ} {B : Type κ} (f : A → B) (xs ys : List A) → map f (xs ++ ys) ≡ map f xs ++ map f ys
map-append f [] ys = refl
map-append f (x ∷ xs) ys = ap (λ l. f x ∷ l) (map-append f xs ys)

take_nil {ℓ} : {A : Type ℓ} (n : ℕ) (xs : List A) → 0 < n → take n xs ≡ [] → xs ≡ []
take_nil n [] lt e = refl
take_nil zero (x ∷ xs) lt e = absurd (omega arith)
take_nil (suc n) (x ∷ xs) lt e = cc

page_then-all :
    (s : Rows) (after : ℕ) (page more found : List MessageRow) (rest : ℕ → List ChannelMessage)
    → page ++ more ≡ found
    → (page ≡ [] → found ≡ [])
    → (1 ≤ length page → rest (last_row after page) ≡ map (message_of s) more)
    → page_then (map (message_of s) page) rest ≡ map (message_of s) found
page_then-all s after [] more found rest e none_left h =
    sym (ap (map (message_of s)) (none_left refl))
page_then-all s after (m ∷ page) more found rest e none_left h =
    ap (λ l. map (message_of s) (m ∷ page) ++ l)
      (ap rest (message_of-last s m.id page) ∙ h (omega arith))
    ∙ sym (map-append (message_of s) (m ∷ page) more)
    ∙ ap (map (message_of s)) e

abbrev by_another : Rows → Job → MessageRow → Bool
by_another s job m = elim (author_of s m) [ none ↦ false | some j ↦ is_by_other job j ]

found_round :
    (a : Around) (hash id after fuel : ℕ) (messages : List MessageRow) (s : Rows) (job : Job)
    (f : Option Job)
    → f ≡ some job
    → page_then
        (map (message_of s) (heard s job after messages))
        (λ last. pages fuel a hash id last messages s)
      ≡ map (message_of s) (filter (is_heard s job after) messages)
    → (elim (channel_found s after messages f) [
      | refused why ↦ []
      | ok c ↦ page_then c.messages (λ last. pages fuel a hash id last messages s)
    ])
      ≡ map (message_of s) (filter (is_heard s job after) messages)
found_round a hash id after fuel messages s job f e h =
    subst
      (λ g.
        (elim (channel_found s after messages g) [
          | refused why ↦ []
          | ok c ↦ page_then c.messages (λ last. pages fuel a hash id last messages s)
        ])
        ≡ map (message_of s) (filter (is_heard s job after) messages))
      (sym e) h

pages_from :
    (fuel : ℕ) (a : Around) (hash id after : ℕ) (messages : List MessageRow) (s : Rows) (job : Job)
    → find? (holds_lease a hash id) s.jobs ≡ some job
    → IsOrdered messages
    → length (later (by_another s job) after messages) < fuel
    → pages fuel a hash id after messages s
      ≡ map (message_of s) (filter (is_heard s job after) messages)
unfolding pages channel_for
pages_from zero a hash id after messages s job e ordered lt = absurd (omega arith)
pages_from (suc fuel) a hash id after messages s job e ordered lt =
    let found = later (by_another s job) after messages in
    let page = take max_channel_messages found in
    let more = later (by_another s job) (last_row after page) messages in
    let paged : page ++ more ≡ found =
      later-IsPaged (by_another s job) max_channel_messages after messages ordered in
    found_round a hash id after fuel messages s job (find? (holds_lease a hash id) s.jobs) e (
      page_then-all s after page more found (λ last. pages fuel a hash id last messages s) paged
        (take_nil max_channel_messages found (omega arith))
        (λ some_page.
          pages_from fuel a hash id (last_row after page) messages s job e ordered
            (omega (arith, lt, ap length paged, length-append page more))))

-- A job that asks for the messages after one, and then again after the last message of each
-- answer, hears nothing at last, and has then heard each message that is later than the first one
-- and said by another person's session, once and in the order of their ids.
pub pages_all :
    (a : Around) (hash id after : ℕ) (messages : List MessageRow) (s : Rows) (job : Job)
    → find? (holds_lease a hash id) s.jobs ≡ some job
    → IsOrdered messages
    → pages (suc (length messages)) a hash id after messages s
      ≡ map (message_of s) (filter (is_heard s job after) messages)
pages_all a hash id after messages s job e ordered =
    pages_from (suc (length messages)) a hash id after messages s job e ordered
      (omega (arith, length-filter (is_heard s job after) messages))
