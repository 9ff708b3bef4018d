-- ===== src/Queue/Tests/Pauses.antt =====
-- The run of Queue/Tests.antt in a project that is paused.
use trawler.Base.{◌≡◌, false, none, some, [], ◌∷◌, any}
use trawler.Base.Rows.{count_if}
use trawler.Queue.Rows.{CancelReason}
use trawler.Queue.Pause.{Project, to_cancel, cancel_live_runs, pause_project}
use trawler.Queue.Pause.Stopped.{PauseEnds, cancel_live_runs-none, pause_project-PauseEnds}
use trawler.Queue.Tests.{start, around}

abbrev project : Project
project = record { paused_at = none; paused_by = none; runs = start ∷ [] }

cancel_live_runs-none_example :
    (any
        (to_cancel CancelReason.key_removed)
        (cancel_live_runs (around 5000) CancelReason.key_removed (start ∷ start ∷ [])).0
      ≡ false)
    × ((cancel_live_runs (around 5000) CancelReason.key_removed (start ∷ start ∷ [])).1
        ≡ count_if (to_cancel CancelReason.key_removed) (start ∷ start ∷ []))
cancel_live_runs-none_example =
    cancel_live_runs-none (around 5000) CancelReason.key_removed (start ∷ start ∷ [])

pause_project-PauseEnds_example :
    PauseEnds (some 7) project (pause_project (around 5000) 9 (some 7) (some project))
pause_project-PauseEnds_example = pause_project-PauseEnds (around 5000) 9 (some 7) project
