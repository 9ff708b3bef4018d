-- ===== src/Core/Asks.antt =====
-- Questions to a model that may be asked again: the groups of defects (packages/core/src/group.ts),
-- the limits of a setup (triage.ts) and the verdict on a defect (`judge` of replay.ts). The model's
-- replies are a parameter, numbered by the calls before them; money is in nano-dollars.
pub mod Outcomes
pub mod Firsts
use trawler.Base.{
  ℕ, zero, suc, ◌+◌, ◌-◌, Bool, true, false, Option, none, some, List, [], ◌∷◌, ◌++◌, map, not,
  ◌&&◌, ◌||◌, leb, ltb, ◌==◌, if◌then◌else◌, is_some, any, mem, get_elem?,
}
use trawler.Protocol.Types.{StopReason, Verdict, Observation}
use trawler.Protocol.Groups.{settle_groups}
use trawler.Core.AgentLoop.{Failure}

-- `Budget`, and the calls that were counted by `tallyStep`.
pub record Purse : Type 0 where
  pub steps : ℕ
  pub spent : ℕ
  pub limit_usd : ℕ

abbrev pub is_exceeded : Purse → Bool
is_exceeded p = leb p.limit_usd (p.spent + 1)

-- A reply: what was read of it, if anything, and its cost; or an exception.
pub data Reply {ℓ} (A : Type ℓ) : Type ℓ where
  said : Option A → ℕ → Reply A
  threw : Failure → Reply A

pub data Asked {ℓ} (A : Type ℓ) : Type ℓ where
  answered : Option A → Purse → Asked A
  failed : Failure → Purse → Asked A

abbrev pub pay : ℕ → Purse → Purse
pay cost p = record p { steps = suc p.steps; spent = p.spent + cost }

-- Why there is no answer.
pub data NoAnswer : Type 0 where
  gave_none : NoAnswer
  failed_with : ℕ → NoAnswer

pub record Answer {ℓ} (A : Type ℓ) : Type ℓ where
  pub answer : Option A
  pub stopped_by : StopReason
  pub error : Option NoAnswer
  pub purse : Purse

module _ {ℓ} {A : Type ℓ} where
  abbrev pub or_again : Option A → Purse → Asked A → Asked A
  or_again (some a) p again = answered (some a) p
  or_again none p again = again

  -- `for (let reply = 0; reply < REPLIES && answer === null && !budget.exceeded; reply++)`
  unfoldable pub ask : ℕ → (ℕ → Reply A) → Purse → Asked A
  ask zero replies p = answered none p
  ask (suc left) replies p = if is_exceeded p then answered none p else (elim (replies p.steps) [
    | threw e ↦ failed e p
    | said o cost ↦ let again = ask left replies (pay cost p) in or_again o (pay cost p) again
  ])

  -- What follows the loop, the `catch` included.
  abbrev pub settle : Asked A → Answer A
  settle (answered (some a) p) = record {
    answer = some a;
    stopped_by = StopReason.done;
    error = none;
    purse = p;
  }
  settle (answered none p) =
      if is_exceeded p
      then record { answer = none; stopped_by = StopReason.budget; error = none; purse = p }
      else record {
        answer = none;
        stopped_by = StopReason.error;
        error = some gave_none;
        purse = p;
      }
  settle (failed e p) =
      if e.by_run
      then record {
        answer = none;
        stopped_by = StopReason.budget;
        error = some (failed_with e.text);
        purse = p;
      }
      else record {
        answer = none;
        stopped_by = StopReason.error;
        error = some (failed_with e.text);
        purse = p;
      }

  unfoldable pub ask_model : ℕ → (ℕ → Reply A) → Purse → Answer A
  unfolding ask
  ask_model times replies p =
      if is_exceeded p
      then record { answer = none; stopped_by = StopReason.budget; error = none; purse = p }
      else settle (ask times replies p)

-- `GROUP_REPLIES`, `TRIAGE_REPLIES`, `JUDGE_REPLIES`
abbrev pub replies_asked : ℕ
replies_asked = 2

-- A pair of a key and what was given for it.
pub record Given : Type 0 where
  pub key : ℕ
  pub value : ℕ

abbrev pub has_key : ℕ → List Given → Bool
has_key k = any (λ (g : Given). g.key == k)

-- `if (keys.has(id) && value && !chosen.has(id)) chosen.set(id, value)`, for each of a list.
unfoldable pub choose_firsts : List ℕ → List Given → List (Option Given) → List Given
choose_firsts keys chosen [] = chosen
choose_firsts keys chosen (none ∷ matches) = choose_firsts keys chosen matches
choose_firsts keys chosen (some g ∷ matches) =
    choose_firsts keys
      (if mem g.key keys && not (has_key g.key chosen) then chosen ++ g ∷ [] else chosen) matches

-- `item` counts from 1.
pub record NotABugMatch : Type 0 where
  pub id : ℕ
  pub item : ℕ

-- The report that an item names, and its `ref`, which it may lack.
abbrev pub ref_of : List (Option ℕ) → ℕ → Option ℕ
ref_of refs item = elim (if item == 0 then none else get_elem? refs (item - 1)) [
  | none ↦ none
  | some ref ↦ ref
]

abbrev pub match_of : List (Option ℕ) → Option NotABugMatch → Option Given
match_of refs none = none
match_of refs (some m) = elim (ref_of refs m.item) [
  | none ↦ none
  | some ref ↦ some (record { key = m.id; value = ref })
]

-- `knownNotBugs` of group.ts: the reports of defects that match one that was marked not a bug.
unfoldable pub known_not_bugs : List ℕ → List (Option ℕ) → List (Option NotABugMatch) → List Given
unfolding choose_firsts
known_not_bugs keys refs matches = choose_firsts keys [] (map (match_of refs) matches)

-- `settleLimits` of triage.ts; a limit whose reason is blank is none.
unfoldable pub settle_limits : List ℕ → List (Option Given) → List Given
unfolding choose_firsts
settle_limits keys limits = choose_firsts keys [] limits

pub record GroupAnswer : Type 0 where
  pub groups : List (List ℕ)
  pub not_bugs : List (Option NotABugMatch)

pub record GroupResult : Type 0 where
  pub groups : Option (List (List ℕ))
  pub known : List Given
  pub stopped_by : StopReason

abbrev group_result : List ℕ → List (Option ℕ) → Answer GroupAnswer → GroupResult
group_result keys refs r = elim r.answer [
  | none ↦ record { groups = none; known = []; stopped_by = r.stopped_by }
  | some a ↦ record {
    groups = some (settle_groups keys a.groups);
    known = known_not_bugs keys refs a.not_bugs;
    stopped_by = r.stopped_by;
  }
]

unfoldable pub group_defects :
    List ℕ → List (Option ℕ) → (ℕ → Reply GroupAnswer) → Purse → GroupResult
unfolding ask_model settle_groups known_not_bugs
group_defects keys refs replies p = group_result keys refs (ask_model replies_asked replies p)

unfoldable pub triage_findings :
    List ℕ → (ℕ → Reply (List (Option Given))) → Purse → List Given × StopReason
unfolding ask_model settle_limits
triage_findings keys replies p =
    let r = ask_model replies_asked replies p in
    (elim r.answer [ none ↦ [] | some limits ↦ settle_limits keys limits ], r.stopped_by)

-- `isNoReport`: nothing was carried out and nothing blocked it.
abbrev pub is_no_report : Observation → Bool
is_no_report o = not o.completed && not (is_some o.blocked_at) && not o.bot_protection

unfoldable pub judge : Observation → (ℕ → Reply Verdict) → Purse → Option Verdict × StopReason
unfolding ask_model
judge o replies p =
    if o.bot_protection
    then (some Verdict.inconclusive, StopReason.done)
    else if is_no_report o
    then (none, StopReason.no_report)
    else (let r = ask_model replies_asked replies p in (r.answer, r.stopped_by))
