-- ===== src/Queue/Assign.antt =====
-- What a runner is told of the job that it gets (`turnAt` and the assignment of `claimOnce`).
use trawler.Base.{
  ℕ, suc, ◌-◌, min, Bool, false, Option, none, some, List, [], ◌∷◌, not, ◌&&◌, ◌==◌, if◌then◌else◌,
  is_at, is_some, any, find?, mem, length, get_elem?, take,
}
use trawler.Protocol.Types.{JobKind, is_role_session, is_account_check}
use trawler.Protocol.Turns.{Turn, turns_of}
use trawler.Queue.Rows.{Rows, Run, Job, FindingRow}
use trawler.Runs.{turn_steps, replay_steps}

-- `ACCOUNT_CHECK_STEPS`
abbrev account_check_steps : ℕ
account_check_steps = 12

pub record Assignment : Type 0 where
  pub job_id : ℕ
  pub run_id : ℕ
  pub kind : JobKind
  pub persona_key : Option ℕ
  pub turn : Option Turn
  pub returning : Bool
  pub max_steps : ℕ
  pub budget_usd : ℕ

-- `turnAt`: none where the plan has no such turn, or another person's.
unfoldable pub turn_at : Run → Job → Option Turn
unfolding turns_of
turn_at run j =
    elim (get_elem? (turns_of run.config_snapshot.personas run.config_snapshot.goals) j.position) [
      | none ↦ none
      | some turn ↦ if is_at j.persona_key turn.persona_id then some turn else none
    ]

-- Whether the person had a turn before this one.
abbrev is_returning : Run → Job → Bool
is_returning run j =
    any (λ (t : Turn). is_at j.persona_key t.persona_id)
      (take j.position (turns_of run.config_snapshot.personas run.config_snapshot.goals))

-- `new Set(by).size`
abbrev distinct_count : List ℕ → ℕ
distinct_count [] = 0
distinct_count (x ∷ xs) = let rest = distinct_count xs in if mem x xs then rest else suc rest

abbrev people_in : FindingRow → ℕ
people_in f = elim f.step_people [ none ↦ 0 | some people ↦ distinct_count people ]

abbrev steps_of : Run → Job → Option Turn → Option FindingRow → ℕ
steps_of run j turn finding =
    if is_role_session j.kind
    then (elim turn [
      | none ↦ run.max_steps
      | some t ↦ turn_steps (length t.goal_ids) run.max_steps
    ])
    else if is_account_check j.kind
    then min account_check_steps run.replay_steps
    else (elim finding [
      | none ↦ replay_steps run.replay_steps 0 0
      | some f ↦ replay_steps run.replay_steps (length f.reproduction) (people_in f)
    ])

abbrev assignment : Run → Job → Option Turn → Option FindingRow → Assignment
assignment run j turn finding = record {
  job_id = j.id;
  run_id = run.id;
  kind = j.kind;
  persona_key = j.persona_key;
  turn = turn;
  returning = elim turn [ none ↦ false | some t ↦ is_returning run j ];
  max_steps = steps_of run j turn finding;
  budget_usd = run.budget_usd - run.cost_usd;
}

abbrev with_finding : Run → Job → Option FindingRow → Option Assignment
with_finding run j finding =
    if is_role_session j.kind && is_some run.sign_up_seed
    then (elim (turn_at run j) [
      | none ↦ none
      | some turn ↦ some (assignment run j (some turn) finding)
    ])
    else some (assignment run j none finding)

-- What the runner is told, or none where it cannot be put together. `loads` says whether the
-- project's configuration could be read and its seed decrypted.
unfoldable pub prepare : Bool → Rows → Job → Option Assignment
unfolding turn_at turns_of turn_steps replay_steps
prepare loads s j = if not loads then none else (elim j.finding_key [
  | none ↦ with_finding s.run j none
  | some key ↦ elim (find? (λ (f : FindingRow). f.key == key) s.findings) [
    | none ↦ none
    | some f ↦ with_finding s.run j (some f)
  ]
])
