-- ===== src/Queue/Findings.antt =====
-- The findings of a run as the planner reads and changes them: the defects in order of report, the
-- friction that is checked like a defect, the groups of equal defects, and the dismissals
-- (queue.ts, and `markKnownNotBugs` of dismissals.ts).
use trawler.Base.{
  ℕ, suc, Bool, false, Option, none, some, List, [], ◌∷◌, ◌++◌, map, not, ◌&&◌, ◌||◌, leb, ltb,
  ◌==◌, if◌then◌else◌, is_at, is_some, any, filter, find?, mem, length,
}
use trawler.Base.Rows.{update}
use trawler.Protocol.Types.{FindingKind, is_defect, is_failed, is_confirmed}
use trawler.Queue.Rows.{
  Rows, Run, FindingRow, OutcomeRow, DismissalRow, DismissedBy, Around, Elsewhere,
}

-- `ORDER BY`, and `toSorted`: a stable sort.
module _ {ℓ} {A : Type ℓ} (before : A → A → Bool) where
  abbrev insert_sorted : A → List A → List A
  insert_sorted x [] = x ∷ []
  insert_sorted x (y ∷ ys) =
      let rest = insert_sorted x ys in if before x y then x ∷ y ∷ ys else y ∷ rest

  unfoldable pub sort : List A → List A
  sort [] = []
  sort (x ∷ xs) = insert_sorted x (sort xs)

-- `ORDER BY created_at, key`
abbrev reported_before : FindingRow → FindingRow → Bool
reported_before f g =
    ltb f.created_at g.created_at || (f.created_at == g.created_at && leb f.key g.key)

abbrev pub key_of : FindingRow → ℕ
key_of f = f.key

unfoldable pub defects_of : List FindingRow → List FindingRow
unfolding sort
defects_of findings = sort reported_before (filter (λ f. is_defect f.kind) findings)

unfoldable pub reported_defects_of : List FindingRow → List FindingRow
unfolding defects_of
reported_defects_of findings = filter (λ f. not (is_some f.filed_as)) (defects_of findings)

-- `g.persona_key = f.persona_key`: false where either is null.
abbrev same_person : Option ℕ → Option ℕ → Bool
same_person none q = false
same_person (some p) q = is_at q p

-- Friction with steps to follow, on a goal that its person failed.
abbrev is_checked_friction : List OutcomeRow → FindingRow → Bool
is_checked_friction outcomes f =
    not (is_defect f.kind)
    && leb 2 (length f.reproduction)
    && any
        (λ (o : OutcomeRow).
          is_failed o.status && o.goal == f.goal && same_person o.persona_key f.persona_key)
        outcomes

abbrev file_as_defect : FindingRow → FindingRow
file_as_defect f = record f { kind = FindingKind.defect; filed_as = some FindingKind.friction }

-- The rows after the update, and the keys that it returns.
unfoldable pub friction_to_check : Rows → List FindingRow × List ℕ
unfolding update sort
friction_to_check s = (
  update (is_checked_friction s.outcomes) file_as_defect s.findings,
  map key_of (sort reported_before (filter (is_checked_friction s.outcomes) s.findings)),
)

abbrev pub dismissed : List DismissalRow → ℕ → Bool
dismissed dismissals key = any (λ (d : DismissalRow). d.finding_key == key) dismissals

unfoldable pub confirmed_of : Rows → List FindingRow
unfolding defects_of
confirmed_of s =
    filter
      (λ f. is_confirmed f.verdict && not (is_some f.same_as) && not (dismissed s.dismissals f.key))
      (defects_of s.findings)

-- `INSERT … ON CONFLICT (run_id, finding_key) DO NOTHING`
unfoldable pub dismiss : DismissalRow → List DismissalRow → List DismissalRow
dismiss row dismissals =
    if dismissed dismissals row.finding_key then dismissals else dismissals ++ row ∷ []

-- The text of the reason, with `KNOWN_LIMIT` before it and clipped, is a number.
limit_rows : List ℕ → List (ℕ × ℕ) → List DismissalRow → List DismissalRow
unfolding dismiss
limit_rows confirmed [] dismissals = dismissals
limit_rows confirmed ((key, reason) ∷ limits) dismissals = limit_rows confirmed limits (
    if mem key confirmed
    then dismiss
        (record {
          finding_key = key;
          reason = reason;
          dismissed_by = DismissedBy.by_trawler;
          matched_run_id = none;
        })
        dismissals
    else dismissals)

unfoldable pub mark_known_limits : List (ℕ × ℕ) → Rows → Rows
unfolding limit_rows confirmed_of
mark_known_limits limits s = record s {
  dismissals = limit_rows (map key_of (confirmed_of s)) limits s.dismissals;
}

abbrev names : ℕ → ℕ → Elsewhere → Bool
names run_id key e = e.run_id == run_id && e.finding_key == key

match_row : Around → Run → ℕ → Option (ℕ × ℕ) → List DismissalRow → List DismissalRow
unfolding dismiss
match_row a run key none dismissals = dismissals
match_row a run key (some (run_id, finding_key)) dismissals =
    elim (find? (names run_id finding_key) a.dismissed_elsewhere) [
      | none ↦ dismissals
      | some source ↦
          if source.run_id == run.id
          then dismissals
          else dismiss
              (record {
                finding_key = key;
                reason = source.reason;
                dismissed_by = DismissedBy.by_trawler;
                matched_run_id = some source.run_id;
              })
              dismissals
    ]

-- A reference that names no run and finding is `none`.
unfoldable pub mark_known_not_bugs :
    Around → Run → List (ℕ × Option (ℕ × ℕ)) → List DismissalRow → List DismissalRow
unfolding match_row
mark_known_not_bugs a run [] dismissals = dismissals
mark_known_not_bugs a run ((key, ref) ∷ matches) dismissals =
    mark_known_not_bugs a run matches (match_row a run key ref dismissals)

-- `keys.indexOf(key)`, where the key is among them.
abbrev index_of : List ℕ → ℕ → ℕ
index_of [] key = 0
index_of (k ∷ keys) key = if k == key then 0 else suc (index_of keys key)

-- Each group with the member that was reported first at its head.
unfoldable pub first_reported : List ℕ → List (List ℕ) → List (List ℕ)
unfolding sort
first_reported keys groups = map (sort (λ x y. leb (index_of keys x) (index_of keys y))) groups

-- `for (const [representative, ...same] of firstReported)`
unfoldable pub join_groups : List (List ℕ) → List FindingRow → List FindingRow
unfolding update
join_groups [] findings = findings
join_groups ([] ∷ groups) findings = join_groups groups findings
join_groups ((representative ∷ same) ∷ groups) findings =
    join_groups groups
      (update (λ f. mem f.key same) (λ f. record f { same_as = some representative }) findings)

abbrev pub head_is : ℕ → List ℕ → Bool
head_is key [] = false
head_is key (k ∷ _) = k == key

-- `representativeOf`, and the matches that have one.
abbrev pub matches_of : List (List ℕ) → List (ℕ × Option (ℕ × ℕ)) → List (ℕ × Option (ℕ × ℕ))
matches_of groups [] = []
matches_of groups ((key, ref) ∷ known) =
    let rest = matches_of groups known in
    elim (find? (mem key) groups) [
      | none ↦ rest
      | some group ↦ elim group [ [] ↦ rest | representative ∷ _ ↦ (representative, ref) ∷ rest ]
    ]

-- The first report of the same defect that has no replay takes the place of `key`.
abbrev pub succeeds : ℕ → FindingRow → Bool
succeeds key f = is_at f.same_as key && not (is_some f.replay)

abbrev pub rename_matched : ℕ → ℕ → DismissalRow → DismissalRow
rename_matched key successor d = record d { finding_key = successor }

abbrev pub succeed : ℕ → Rows → Option FindingRow → Rows × Option ℕ
succeed key s none = (s, none)
succeed key s (some successor) =
    let freed =
      update (λ (f : FindingRow). f.key == successor.key) (λ f. record f { same_as = none })
        s.findings in
    let joined =
      update (λ (f : FindingRow). is_at f.same_as key || f.key == key)
        (λ f. record f { same_as = some successor.key }) freed in
    (
      record s {
        findings = joined;
        dismissals =
            update (λ (d : DismissalRow). d.finding_key == key && is_some d.matched_run_id)
              (rename_matched key successor.key) s.dismissals;
      },
      some successor.key,
    )

unfoldable pub hand_over_to_next_report : ℕ → Rows → Rows × Option ℕ
unfolding defects_of update
hand_over_to_next_report key s = succeed key s (find? (succeeds key) (defects_of s.findings))
