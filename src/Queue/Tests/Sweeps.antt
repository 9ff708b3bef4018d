-- ===== src/Queue/Tests/Sweeps.antt =====
-- A run that has gone on for four hours, and one that was never claimed.
use trawler.Base.{some, List, [], ◌∷◌}
use trawler.Queue.Rows.{RunStatus}
use trawler.Queue.Claim.{Entry}
use trawler.Queue.Sweeps.{
  past_limits, unclaimed, client_gone, stop_runs_past_limits, stop_unclaimed_runs,
  stop_runs_of_gone_clients,
}
use trawler.Queue.Sweeps.Ends.{IsSwept, sweep_ends}
use trawler.Queue.Tests.{start, first_run, around}

abbrev late_and_new : List Entry
late_and_new =
    record {
      around = around 14401000;
      rows = record start {
        run = record first_run { status = RunStatus.running; started_at = some 1000 };
      };
    }
    ∷ record { around = around 14401000; rows = start }
    ∷ []

sweep_ends_example :
    IsSwept past_limits late_and_new (stop_runs_past_limits late_and_new)
    × IsSwept unclaimed late_and_new (stop_unclaimed_runs late_and_new)
    × IsSwept client_gone late_and_new (stop_runs_of_gone_clients late_and_new)
sweep_ends_example = sweep_ends late_and_new
