-- ===== src/Core/Session/Told.antt =====
-- What a session tells its run: `emit` of packages/core/src/role-session.ts scrubs each event, with
-- the secrets that the scrubber has by then.
use trawler.Base.{ℕ, suc, ◌≤◌, ◌≡◌, refl, none, some, List, [], ◌∷◌, map}
use trawler.Protocol.Types.{Finding}
use trawler.Core.Session.{
  Emitted, note_event, finding_event, goal_event, standby_event, message_event,
  bot_protection_event, account_event,
}
use trawler.Core.Session.Kept.{findings_of, notes_of}

-- `scrub` on the texts of a finding and of an event.
abbrev pub scrub_finding : (ℕ → ℕ) → Finding → Finding
scrub_finding scrub f = record f {
  id = scrub f.id;
  goal = scrub f.goal;
  title = scrub f.title;
  observed = scrub f.observed;
  reproduction = map scrub f.reproduction;
  people = elim f.people [ none ↦ none | some people ↦ some (map scrub people) ];
}

abbrev pub scrub_event : (ℕ → ℕ) → Emitted → Emitted
scrub_event scrub (note_event text) = note_event (scrub text)
scrub_event scrub (finding_event f) = finding_event (scrub_finding scrub f)
scrub_event scrub (goal_event o) =
    goal_event (record o { goal = scrub o.goal; note = scrub o.note })
scrub_event scrub standby_event = standby_event
scrub_event scrub (message_event text) = message_event (scrub text)
scrub_event scrub (bot_protection_event met) = bot_protection_event (scrub met)
scrub_event scrub (account_event text) = note_event (scrub text)

-- The events that reach the run; `scrub n` is what the scrubber does to a text at the `n`-th.
abbrev pub told_events : (ℕ → ℕ → ℕ) → ℕ → List Emitted → List Emitted
told_events scrub n [] = []
told_events scrub n (e ∷ events) = scrub_event (scrub n) e ∷ told_events scrub (suc n) events

-- The second findings are the first, each scrubbed.
abbrev pub FindingsTold : (ℕ → ℕ → ℕ) → List Finding → List Finding → Type 0
FindingsTold scrub [] [] = Unit
FindingsTold scrub [] (g ∷ gs) = 1 ≤ 0
FindingsTold scrub (f ∷ fs) [] = 1 ≤ 0
FindingsTold scrub (f ∷ fs) (g ∷ gs) =
    ((n : ℕ) × (g ≡ scrub_finding (scrub n) f)) × FindingsTold scrub fs gs

-- The second notes are the first, each scrubbed, with notes of accounts between them.
pub data NotesTold (scrub : ℕ → ℕ → ℕ) : List ℕ → List ℕ → Type 0 where
  no_notes : NotesTold scrub [] []
  note_told :
      (n text : ℕ) {ns ms : List ℕ}
      → NotesTold scrub ns ms
      → NotesTold scrub (text ∷ ns) (scrub n text ∷ ms)
  of_account : (text : ℕ) {ns ms : List ℕ} → NotesTold scrub ns ms → NotesTold scrub ns (text ∷ ms)

pub told_events-FindingsTold :
    (scrub : ℕ → ℕ → ℕ) (n : ℕ) (events : List Emitted)
    → FindingsTold scrub (findings_of events) (findings_of (told_events scrub n events))
told_events-FindingsTold scrub n [] = tt
told_events-FindingsTold scrub n (finding_event f ∷ events) =
    ((n, refl), told_events-FindingsTold scrub (suc n) events)
told_events-FindingsTold scrub n (note_event t ∷ events) =
    told_events-FindingsTold scrub (suc n) events
told_events-FindingsTold scrub n (goal_event o ∷ events) =
    told_events-FindingsTold scrub (suc n) events
told_events-FindingsTold scrub n (standby_event ∷ events) =
    told_events-FindingsTold scrub (suc n) events
told_events-FindingsTold scrub n (message_event t ∷ events) =
    told_events-FindingsTold scrub (suc n) events
told_events-FindingsTold scrub n (bot_protection_event t ∷ events) =
    told_events-FindingsTold scrub (suc n) events
told_events-FindingsTold scrub n (account_event t ∷ events) =
    told_events-FindingsTold scrub (suc n) events

pub told_events-NotesTold :
    (scrub : ℕ → ℕ → ℕ) (n : ℕ) (events : List Emitted)
    → NotesTold scrub (notes_of events) (notes_of (told_events scrub n events))
told_events-NotesTold scrub n [] = no_notes
told_events-NotesTold scrub n (note_event t ∷ events) =
    note_told n t (told_events-NotesTold scrub (suc n) events)
told_events-NotesTold scrub n (account_event t ∷ events) =
    of_account (scrub n t) (told_events-NotesTold scrub (suc n) events)
told_events-NotesTold scrub n (finding_event f ∷ events) =
    told_events-NotesTold scrub (suc n) events
told_events-NotesTold scrub n (goal_event o ∷ events) = told_events-NotesTold scrub (suc n) events
told_events-NotesTold scrub n (standby_event ∷ events) = told_events-NotesTold scrub (suc n) events
told_events-NotesTold scrub n (message_event t ∷ events) =
    told_events-NotesTold scrub (suc n) events
told_events-NotesTold scrub n (bot_protection_event t ∷ events) =
    told_events-NotesTold scrub (suc n) events
