-- ===== src/Tests/Running.antt =====
-- Queues in a system in which every call succeeds and `fork` goes on in the parent.
use redshell.Base.{
  arith, ◌+◌, ◌-◌, ◌≡◌, refl, Option, none, some, List, [], ◌∷◌, ℕ, codes, ok, str_eq, ◌++◌,
}
use redshell.Builtins.{Environment, World, success, is_builtin, is_among, commands}
use redshell.Command.Blocks.{times, owned, times-command_free}
use redshell.Command.{argument_vector, command_free, Command, command_new, pipe_connection}
use redshell.Jobs.Loop.{
  Frame, Fixed, on, run_commands, run_command, settle_last, redirect_in, redirect_out, run_single,
  runs_here, forked_single,
}
use redshell.Jobs.Pipelines.{pipe_made, child_input-neighbours}
use redshell.Jobs.Untouched.{Keeps, run_commands-Keeps}
use redshell.Jobs.{reaped, System, parent, replaced, Pipes, open_pipes, child_input}
use redshell.Main.Interrupts.{interrupt-run_commands}
use redshell.Main.{Signals, sigint, signal_handler}
use redshell.Tests.Chains.{chained}

-- the state is the number that the next call returns
abbrev counting : Environment
counting = record {
  State = ℕ;
  setenv = λ s key value. (success, s);
  getenv = λ s key. none;
  getcwd = λ s. some (codes "/");
  chdir = λ s path. (success, s);
  perror = λ s path. [];
}

abbrev calls : System counting
calls = record {
  dup = λ s fd. (some s, s + 1);
  dup2 = λ s fd target. s;
  open_read = λ s path. (some s, s + 1);
  open_write = λ s path. (some s, s + 1);
  close = λ s fd. s;
  pipe = λ s. (some (s, s + 1), s + 2);
  fork = λ s. (parent (some s), s + 1);
  waitpid = λ s pid. (reaped s, s);
  execvp = λ s path argv. replaced s;
}

abbrev start_world : World chained counting
start_world = record { aliases = []; state = 3; out = []; err = [] }

abbrev ls : Command
ls = record command_new { path = some (codes "ls"); argv = some (codes "ls" ∷ []) }

abbrev piped_ls : Command
piped_ls = record ls { connection_mask = pipe_connection }

abbrev no_pipes_yet : Pipes chained counting calls
no_pipes_yet = record { cells = λ i. some 99; size = 4 }

abbrev start_frame : Frame chained counting calls
start_frame = record {
  fd_in = none;
  fd_out = none;
  pid = none;
  last_command = none;
  launched = λ i. some 99;
  pipes = no_pipes_yet;
  fg_pid = none;
  world = start_world;
}

abbrev three : Fixed chained counting calls
three = record { n_commands = 3; stdin_copy = some 10; stdout_copy = some 11 }

child_input-neighbours_example :
    ((from : Option ℕ) × (child_input chained counting calls
          (open_pipes chained counting calls (3 - 1) 0 no_pipes_yet 3).0
          3
          1
          piped_ls
          20
        ≡ ok 20))
    × (child_input chained counting calls
          (open_pipes chained counting calls (3 - 1) 0 no_pipes_yet 3).0
          3
          2
          ls
          30
        ≡ ok 30)
unfolding pipe_made
child_input-neighbours_example =
    child_input-neighbours chained counting calls no_pipes_yet 3 0 5 6 piped_ls ls 3 20 30 refl
      (omega arith) refl refl refl

run_commands-Keeps_example :
    Keeps chained counting calls start_frame
      (run_commands chained counting calls three 0 (ls ∷ ls ∷ []) start_frame)
run_commands-Keeps_example =
    run_commands-Keeps chained counting calls three 0 (ls ∷ ls ∷ []) start_frame (refl, (refl, tt))
      refl

abbrev signals : Signals (List ℕ)
signals = record {
  kill = λ s pid sig. s ++ 1 ∷ [];
  waitpid = λ s pid. s ++ 2 ∷ [];
  wait_any = λ s. s ++ 3 ∷ [];
  newline = λ s. s ++ 4 ∷ [];
  unexpected = λ s n. s ++ 5 ∷ [];
}

abbrev ls_runs : Frame chained counting calls
ls_runs = record start_frame {
  pid = some 3;
  last_command = some ls;
  world = record start_world { state = 4 };
}

ls_runs-next : run_commands chained counting calls three 0 (ls ∷ []) start_frame ≡ ok (on ls_runs)
unfolding run_commands run_command settle_last redirect_in redirect_out run_single runs_here
    is_builtin is_among commands forked_single str_eq
ls_runs-next = refl

interrupt-run_commands_example : signal_handler signals sigint none [] ≡ (none, 4 ∷ [])
interrupt-run_commands_example =
    interrupt-run_commands chained counting calls signals [] three 0 (ls ∷ []) start_frame ls_runs
      (refl, tt) refl refl ls_runs-next

abbrev redirected_ls : Command
redirected_ls = record ls { redirect_to_path = some (codes "out") }

times-command_free_example :
    times argument_vector (command_free redirected_ls) ≡ owned redirected_ls argument_vector
times-command_free_example = times-command_free redirected_ls argument_vector
