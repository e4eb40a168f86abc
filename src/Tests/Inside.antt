-- ===== src/Tests/Inside.antt =====
-- `pwd` alone in a queue, in the system that keeps a log.
use redshell.Base.{◌≡◌, refl, some, [], ◌∷◌, codes, ok, str_eq, ◌>>=◌}
use redshell.Builtins.{is_among, commands, execute_builtin_command}
use redshell.Command.{Command, command_new}
use redshell.Jobs.Inside.{inside, execute_commands_in_queue-inside}
use redshell.Jobs.Loop.{execute_commands_in_queue}
use redshell.Tests.Chains.{chained}
use redshell.Tests.Ordering.{logging, logged, unset, quiet_world, idle_pid}

abbrev directory_shown : Command
directory_shown = record command_new { path = some (codes "pwd"); argv = some (codes "pwd" ∷ []) }

execute_commands_in_queue-inside_example :
    execute_commands_in_queue chained logging logged 1 unset unset
      (directory_shown ∷ [])
      idle_pid
      quiet_world
    ≡ (execute_builtin_command chained logging (codes "pwd" ∷ []) quiet_world >>= λ e.
        ok (inside chained logging logged e, idle_pid))
unfolding is_among commands str_eq
execute_commands_in_queue-inside_example =
    execute_commands_in_queue-inside chained logging logged 1 unset unset directory_shown
      (codes "pwd") [] idle_pid quiet_world refl refl refl refl refl refl refl
