-- ===== src/Tests/Pipelining.antt =====
-- `ls | ls` in the system that keeps a log.
use redshell.Base.{◌≡◌, refl, Option, none, some, List, [], ◌∷◌, ◌++◌, ℕ, ok, length}
use redshell.Builtins.{World, success}
use redshell.Command.{Command, pipe_connection}
use redshell.Jobs.Loop.{
  Frame, on, run_commands, execute_commands_in_queue, fixed_for, first_frame, launch_at,
}
use redshell.Jobs.Order.Pipeline.{AwaitsEach}
use redshell.Jobs.Order.Pipeline.Whole.{forks, execute_commands_in_queue-AwaitsEach}
use redshell.Jobs.Order.{Event, forked, waited}
use redshell.Jobs.{Done, gave, store_pipe}
use redshell.Tests.Chains.{chained}
use redshell.Tests.Ordering.{
  logging, logged, unset, jobs, quiet_world, list_files, logged-Observed, idle_pid,
}

abbrev piped_files : Command
piped_files = record list_files { connection_mask = pipe_connection }

abbrev behind_pipeline : Frame chained logging logged
behind_pipeline = record {
  fd_in = none;
  fd_out = none;
  pid = some 1;
  last_command = some list_files;
  launched =
      launch_at chained logging logged (launch_at chained logging logged unset 0 (some 0)) 1
        (some 1);
  pipes = record { cells = store_pipe chained logging logged unset 0 (some (7, 8)); size = 2 };
  fg_pid = some (some 1);
  world = record quiet_world { state = forked (some 0) ∷ forked (some 1) ∷ [] };
}

abbrev pipeline_events : List Event
pipeline_events =
    forked (some 0) ∷ forked (some 1) ∷ waited (some 1) ∷ waited (some 0) ∷ waited (some 1) ∷ []

pipeline-run :
    run_commands chained logging logged
      (fixed_for chained logging logged (piped_files ∷ list_files ∷ []) quiet_world)
      0
      (piped_files ∷ list_files ∷ [])
      (first_frame chained logging logged unset unset
        (piped_files ∷ list_files ∷ [])
        none
        quiet_world)
    ≡ ok (on behind_pipeline)
unfolding jobs
pipeline-run = refl

abbrev pipeline_done : Done chained logging logged
pipeline_done = gave success (record quiet_world { state = pipeline_events })

pipeline-executed :
    execute_commands_in_queue chained logging logged 1 unset unset
      (piped_files ∷ list_files ∷ [])
      none
      quiet_world
    ≡ ok (pipeline_done, idle_pid)
unfolding jobs
pipeline-executed = refl

execute_commands_in_queue-AwaitsEach_example :
    (w' : World chained logging) × (pipeline_done ≡ gave success w')
    × ((pids : List (Option ℕ)) × (tail : List Event) × (length pids ≡ 2)
        × AwaitsEach pids tail
        × (w'.state ≡ forks pids ++ (waited (some 1) ∷ tail)))
execute_commands_in_queue-AwaitsEach_example =
    execute_commands_in_queue-AwaitsEach chained logging logged logged-Observed 1 unset unset
      piped_files list_files [] none none quiet_world behind_pipeline pipeline_done (refl, refl)
      pipeline-run pipeline-executed
