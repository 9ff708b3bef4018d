-- ===== src/Core/Session/Kept.antt =====
-- What holds of a session whatever its model calls.
use trawler.Base.{
  ℕ, ◌≡◌, ◌∙◌, ap, refl, sym, Bool, true, false, Option, none, some, List, [], ◌∷◌, ◌++◌, not, ◌&&◌,
  ◌||◌, ◌==◌, if◌then◌else◌, is_some, any, any-append, append_nil, append_assoc, arith, mem, ==_iff,
}
use trawler.Base.Rows.{update, any-update-none, keys}
use trawler.Protocol.Types.{GoalOutcome, GoalStatus, Finding}
use trawler.Core.Session.{
  Session, Emitted, note_event, finding_event, goal_event, standby_event, Reply, closed, emit,
  is_open_goal, has_goal, note, same_finding, first_same, record_finding, is_seen, unless_same,
  submit_parsed, submit_finding, set_goal, given_status, record_status, goal_status, end_session,
  stand_by, finish_with, standby_started, finished_now,
}

-- The findings and the notes among events.
abbrev finding_of : Emitted → List Finding
finding_of (finding_event f) = f ∷ []
finding_of _ = []

abbrev note_of : Emitted → List ℕ
note_of (note_event n) = n ∷ []
note_of _ = []

abbrev pub findings_of : List Emitted → List Finding
findings_of [] = []
findings_of (e ∷ events) = finding_of e ++ findings_of events

abbrev pub notes_of : List Emitted → List ℕ
notes_of [] = []
notes_of (e ∷ events) = note_of e ++ notes_of events

findings_of-emit :
    (xs : List Emitted) (e : Emitted) → findings_of (xs ++ e ∷ []) ≡ findings_of xs ++ finding_of e
findings_of-emit [] e = append_nil (finding_of e)
findings_of-emit (x ∷ xs) e =
    ap (λ l. finding_of x ++ l) (findings_of-emit xs e)
    ∙ sym (append_assoc (finding_of x) (findings_of xs) (finding_of e))

notes_of-emit :
    (xs : List Emitted) (e : Emitted) → notes_of (xs ++ e ∷ []) ≡ notes_of xs ++ note_of e
notes_of-emit [] e = append_nil (note_of e)
notes_of-emit (x ∷ xs) e =
    ap (λ l. note_of x ++ l) (notes_of-emit xs e)
    ∙ sym (append_assoc (note_of x) (notes_of xs) (note_of e))

abbrev pub goal_of : GoalOutcome → ℕ
goal_of o = o.goal

-- Setting a goal's status keeps the goals.
keys-same_goal :
    (o : GoalOutcome) (os : List GoalOutcome)
    → keys goal_of (update (λ (p : GoalOutcome). p.goal == o.goal) (λ _. o) os) ≡ keys goal_of os
unfolding update
keys-same_goal o [] = refl
keys-same_goal o (p ∷ os) = ground (arith, keys-same_goal o os, ==_iff p.goal o.goal)

module _ (lower : ℕ → ℕ) where
  -- No two of the findings are the same.
  abbrev pub AllDiffer : List Finding → Type 0
  AllDiffer [] = Unit
  AllDiffer (f ∷ findings) =
      (any (λ (g : Finding). same_finding lower g f) findings ≡ false) × AllDiffer findings

  -- Once the session is finished, or on standby, every goal has a status; the goals are those that
  -- it began with; findings are about these, no two are the same, and each was given to `emit`, as
  -- the notes were.
  pub record IsKept (goals : List ℕ) (s : Session) : Type 0 where
    pub settled :
        is_some s.state.finished || is_some s.state.standby ≡ true
        → any is_open_goal s.state.goals ≡ false
    pub same_goals : keys goal_of s.state.goals ≡ goals
    pub about_goals : any (λ (f : Finding). not (mem f.goal goals)) s.state.findings ≡ false
    pub differ : AllDiffer s.state.findings
    pub findings_emitted : findings_of s.emitted ≡ s.state.findings
    pub notes_emitted : notes_of s.emitted ≡ s.state.notes

  -- The parts of the invariant on the events, once one more was emitted.
  pub quiet_findings :
      (xs : List Emitted) (e : Emitted) (fs : List Finding)
      → finding_of e ≡ []
      → findings_of xs ≡ fs
      → findings_of (xs ++ e ∷ []) ≡ fs
  quiet_findings xs e fs none_in h =
      findings_of-emit xs e
      ∙ ap (λ l. findings_of xs ++ l) none_in
      ∙ append_nil (findings_of xs)
      ∙ h

  pub quiet_notes :
      (xs : List Emitted) (e : Emitted) (ns : List ℕ)
      → note_of e ≡ []
      → notes_of xs ≡ ns
      → notes_of (xs ++ e ∷ []) ≡ ns
  quiet_notes xs e ns none_in h =
      notes_of-emit xs e ∙ ap (λ l. notes_of xs ++ l) none_in ∙ append_nil (notes_of xs) ∙ h

  pub IsKept-if :
      (goals : List ℕ) {A : Type 0} (b : Bool) (x y : Session × A)
      → (b ≡ true → IsKept goals x.0)
      → (b ≡ false → IsKept goals y.0)
      → IsKept goals (if b then x else y).0
  IsKept-if goals true x y h k = h refl
  IsKept-if goals false x y h k = k refl

  pub note-IsKept :
      (goals : List ℕ) (text : Option ℕ) (s : Session)
      → IsKept goals s
      → IsKept goals (note text s).0
  unfolding note
  note-IsKept goals none s h =
      IsKept-if goals (is_some s.state.finished) (s, closed) _ (λ _. h) (λ _. h)
  note-IsKept goals (some kept) s h =
      IsKept-if goals (is_some s.state.finished) (s, closed) _ (λ _. h)
        (λ _. record {
          settled = h.settled;
          same_goals = h.same_goals;
          about_goals = h.about_goals;
          differ = h.differ;
          findings_emitted =
              quiet_findings s.emitted (note_event kept) s.state.findings refl h.findings_emitted;
          notes_emitted =
              notes_of-emit s.emitted (note_event kept) ∙ ap (λ l. l ++ kept ∷ []) h.notes_emitted;
        })

  same_finding_sym :
      (f g : Finding) → same_finding lower f g ≡ false → same_finding lower g f ≡ false
  same_finding_sym f g h = ground (
    arith,
    ==_iff f.goal g.goal,
    ==_iff g.goal f.goal,
    ==_iff (lower f.title) (lower g.title),
    ==_iff (lower g.title) (lower f.title),
  )

  first_same-none :
      (f : Finding) (fs : List Finding)
      → first_same lower f fs ≡ none
      → any (λ (g : Finding). same_finding lower g f) fs ≡ false
  first_same-none f [] e = refl
  first_same-none f (g ∷ fs) e = ground (arith, first_same-none f fs)

  AllDiffer-append :
      (fs : List Finding) (f : Finding) (id : ℕ)
      → any (λ (g : Finding). same_finding lower g f) fs ≡ false
      → AllDiffer fs
      → AllDiffer (fs ++ record f { id = id } ∷ [])
  AllDiffer-append [] f id e h = (refl, tt)
  AllDiffer-append (g ∷ fs) f id e (new, h) = (
    ground (
      arith,
      any-append (λ (k : Finding). same_finding lower k g) fs (record f { id = id } ∷ []),
      same_finding_sym g f,
    ),
    AllDiffer-append fs f id (ground arith) h,
  )

  goal_known :
      (goal : ℕ) (os : List GoalOutcome)
      → any (λ (o : GoalOutcome). o.goal == goal) os ≡ true
      → mem goal (keys goal_of os) ≡ true
  goal_known goal [] e = e
  goal_known goal (o ∷ os) e = ground (arith, goal_known goal os)

  recorded-IsKept :
      (goals : List ℕ) (f : Finding) (id : ℕ) (s : Session)
      → has_goal f.goal s.state ≡ true
      → first_same lower f s.state.findings ≡ none
      → IsKept goals s
      → IsKept goals (record_finding lower f id s)
  recorded-IsKept goals f id s known new h = record {
    settled = h.settled;
    same_goals = h.same_goals;
    about_goals = ground (
      arith,
      h.about_goals,
      any-append (λ (g : Finding). not (mem g.goal goals)) s.state.findings
          (record f { id = id } ∷ []),
      ap (mem f.goal) h.same_goals,
      goal_known f.goal s.state.goals known,
    );
    differ =
        AllDiffer-append s.state.findings f id (first_same-none f s.state.findings new) h.differ;
    findings_emitted =
        findings_of-emit s.emitted (finding_event (record f { id = id }))
        ∙ ap (λ l. l ++ record f { id = id } ∷ []) h.findings_emitted;
    notes_emitted =
        quiet_notes s.emitted (finding_event (record f { id = id })) s.state.notes refl
          h.notes_emitted;
  }

  unless_same-IsKept :
      (goals : List ℕ) (f : Finding) (id : ℕ) (s : Session) (same : Option Finding)
      → first_same lower f s.state.findings ≡ same
      → has_goal f.goal s.state ≡ true
      → IsKept goals s
      → IsKept goals (unless_same lower f id s same).0
  unless_same-IsKept goals f id s none new known h = recorded-IsKept goals f id s known new h
  unless_same-IsKept goals f id s (some g) new known h = h

  submit_parsed-IsKept :
      (goals : List ℕ) (id goal : ℕ) (s : Session) (parsed : Option Finding)
      → has_goal goal s.state ≡ true
      → IsKept goals s
      → IsKept goals (submit_parsed lower id goal s parsed).0
  submit_parsed-IsKept goals id goal s none known h = h
  submit_parsed-IsKept goals id goal s (some f) known h =
      unless_same-IsKept goals (record f { goal = goal }) id s
        (first_same lower (record f { goal = goal }) s.state.findings) refl known h

  pub submit_finding-IsKept :
      (goals : List ℕ) (blocked : Bool) (goal : Option ℕ) (parsed : ℕ → Option Finding) (id : ℕ)
      (s : Session)
      → IsKept goals s
      → IsKept goals (submit_finding lower blocked goal parsed id s).0
  unfolding submit_finding
  submit_finding-IsKept goals blocked none parsed id s h =
      IsKept-if goals (is_some s.state.finished) (s, closed) _ (λ _. h)
        (λ _.
          IsKept-if goals blocked (s, Reply.bot_protected) _ (λ _. h)
            (λ _.
              IsKept-if goals (not (is_seen lower s.state.page)) (s, Reply.not_looked)
                (s, Reply.unknown_goal) (λ _. h) (λ _. h)))
  submit_finding-IsKept goals blocked (some g) parsed id s h =
      IsKept-if goals (is_some s.state.finished) (s, closed) _ (λ _. h)
        (λ _.
          IsKept-if goals blocked (s, Reply.bot_protected) _ (λ _. h)
            (λ _.
              IsKept-if goals (not (is_seen lower s.state.page)) (s, Reply.not_looked) _ (λ _. h)
                (λ _.
                  IsKept-if goals (has_goal g s.state) (submit_parsed lower id g s (parsed g))
                    (s, Reply.unknown_goal)
                    (λ known. submit_parsed-IsKept goals id g s (parsed g) known h) (λ _. h))))

  -- A goal that gets a status other than not attempted.
  status-IsKept :
      (goals : List ℕ) (o : GoalOutcome) (s : Session)
      → is_open_goal o ≡ false
      → IsKept goals s
      → IsKept goals (emit (goal_event o) (record s { state = set_goal o s.state }))
  status-IsKept goals o s closed_goal h = record {
    settled = λ over.
        any-update-none is_open_goal (λ (p : GoalOutcome). p.goal == o.goal) (λ _. o) s.state.goals
          (λ p e. ground (arith, closed_goal)) (h.settled over);
    same_goals = keys-same_goal o s.state.goals ∙ h.same_goals;
    about_goals = h.about_goals;
    differ = h.differ;
    findings_emitted =
        quiet_findings s.emitted (goal_event o) s.state.findings refl h.findings_emitted;
    notes_emitted = quiet_notes s.emitted (goal_event o) s.state.notes refl h.notes_emitted;
  }

  record_status-IsKept :
      (goals : List ℕ) (goal text : ℕ) (s : Session) (reached : Option Bool)
      → IsKept goals s
      → IsKept goals (record_status goal text s (given_status reached)).0
  record_status-IsKept goals goal text s none h = h
  record_status-IsKept goals goal text s (some true) h =
      status-IsKept goals (record { goal = goal; status = GoalStatus.reached; note = text }) s refl
        h
  record_status-IsKept goals goal text s (some false) h =
      status-IsKept goals (record { goal = goal; status = GoalStatus.failed; note = text }) s refl h

  pub goal_status-IsKept :
      (goals : List ℕ) (goal : Option ℕ) (reached : Option Bool) (text : ℕ) (s : Session)
      → IsKept goals s
      → IsKept goals (goal_status goal reached text s).0
  unfolding goal_status
  goal_status-IsKept goals none reached text s h =
      IsKept-if goals (is_some s.state.finished) (s, closed) (s, Reply.unknown_goal) (λ _. h)
        (λ _. h)
  goal_status-IsKept goals (some g) reached text s h =
      IsKept-if goals (is_some s.state.finished) (s, closed) _ (λ _. h)
        (λ _.
          IsKept-if goals (has_goal g s.state) (record_status g text s (given_status reached))
            (s, Reply.unknown_goal) (λ _. record_status-IsKept goals g text s reached h) (λ _. h))

  -- The session ends, where every goal has a status.
  pub end_session-IsKept :
      (goals : List ℕ) (summary : ℕ) (s : Session)
      → any is_open_goal s.state.goals ≡ false
      → IsKept goals s
      → IsKept goals (end_session summary s)
  end_session-IsKept goals summary s all h = record {
    settled = λ _. all;
    same_goals = h.same_goals;
    about_goals = h.about_goals;
    differ = h.differ;
    findings_emitted = h.findings_emitted;
    notes_emitted = h.notes_emitted;
  }

  pub finish_with-IsKept :
      (goals : List ℕ) (others_working : Bool) (now : ℕ) (s : Session) (summary : Option ℕ)
      → IsKept goals s
      → IsKept goals (finish_with others_working now s summary).0
  finish_with-IsKept goals others_working now s none h = h
  finish_with-IsKept goals others_working now s (some kept) h =
      IsKept-if goals (any is_open_goal s.state.goals) (s, _) _ (λ _. h)
        (λ all.
          IsKept-if goals (not (is_some s.state.standby) && others_working)
            (stand_by now kept s, standby_started) (end_session kept s, finished_now)
            (λ _. record {
              settled = λ _. all;
              same_goals = h.same_goals;
              about_goals = h.about_goals;
              differ = h.differ;
              findings_emitted =
                  quiet_findings s.emitted standby_event s.state.findings refl h.findings_emitted;
              notes_emitted =
                  quiet_notes s.emitted standby_event s.state.notes refl h.notes_emitted;
            })
            (λ _. end_session-IsKept goals kept s all h))
