-- ===== src/Ci/Decision.antt =====
-- Whether a job passes (`decide` of apps/ci/src/decision.ts). The messages are their kinds.
use trawler.Base.{
  ℕ, ◌<◌, ◌≡◌, ◌↔◌, Bool, true, false, Option, not, ltb, if◌then◌else◌, is_some, arith,
}

-- `RunResult.status`
pub data ResultStatus : Type 0 where
  queued running succeeded failed cancelled stopped_budget : ResultStatus

pub data FailOn : Type 0 where
  new_confirmed any_confirmed never : FailOn

pub record RunResult : Type 0 where
  pub number : ℕ
  pub status : ResultStatus
  pub finished : Bool
  pub skipped : Bool
  pub confirmed : ℕ
  pub unverified : Option ℕ
  pub lead_fallback : Option ℕ

pub data Message : Type 0 where
  was_skipped out_of_budget ended_early passes_always found_defects not_clean clean : Message

pub record Decision : Type 0 where
  pub exit_code : ℕ
  pub message : Message

abbrev is_stopped : ResultStatus → Bool
is_stopped ResultStatus.stopped_budget = true
is_stopped _ = false

abbrev pub is_succeeded : ResultStatus → Bool
is_succeeded ResultStatus.succeeded = true
is_succeeded _ = false

abbrev pub is_never : FailOn → Bool
is_never FailOn.never = true
is_never _ = false

unfoldable pub decide : RunResult → FailOn → Decision
decide r fail_on =
    if r.skipped
    then record { exit_code = 0; message = Message.was_skipped }
    else if is_stopped r.status
    then record { exit_code = 0; message = Message.out_of_budget }
    else if not (is_succeeded r.status)
    then record { exit_code = 0; message = Message.ended_early }
    else if is_never fail_on
    then record { exit_code = 0; message = Message.passes_always }
    else if ltb 0 r.confirmed
    then record { exit_code = 1; message = Message.found_defects }
    else if is_some r.lead_fallback
    then record { exit_code = 0; message = Message.not_clean }
    else record { exit_code = 0; message = Message.clean }

-- A job fails exactly where the run was not skipped, succeeded, and confirmed a defect, and the job
-- is told to fail on one; and it is called clean exactly where such a run confirmed none and tested
-- what it was meant to.
pub decide-fails :
    (r : RunResult) (fail_on : FailOn)
    → (((decide r fail_on).exit_code ≡ 1) ↔ (
        (r.skipped ≡ false)
        × (is_succeeded r.status ≡ true)
        × (is_never fail_on ≡ false)
        × (0 < r.confirmed)))
      × (((decide r fail_on).message ≡ Message.clean) ↔ (
          (r.skipped ≡ false)
          × (is_succeeded r.status ≡ true)
          × (is_never fail_on ≡ false)
          × (r.confirmed ≡ 0)
          × (is_some r.lead_fallback ≡ false)))
unfolding decide
decide-fails r fail_on = ground arith
