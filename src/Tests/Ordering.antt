-- ===== src/Tests/Ordering.antt =====
-- Two commands in a system that keeps a log of its forks and waits.
use redshell.Base.{
  arith, ◌≡◌, refl, Option, none, some, List, [], ◌∷◌, ◌++◌, ℕ, codes, ok, length, str_eq, ◌==◌,
  if◌then◌else◌, ap, sym, ◌∙◌,
}
use redshell.Builtins.{Environment, World, success, is_builtin, is_among, commands}
use redshell.Command.{Command, command_new, sequential}
use redshell.Jobs.Loop.{
  Frame, on, run_commands, run_command, settle_last, redirect_in, redirect_out, run_single,
  runs_here, forked_single, execute_commands_in_queue, fixed_for, first_frame, finish, wait_all,
  waits_again, wait_again, run_piped, forked_piped, launch_at,
}
use redshell.Jobs.Order.Waits.{Awaited, execute_commands_in_queue-Schedule}
use redshell.Jobs.Order.{Event, forked, waited, Observed, Schedule}
use redshell.Jobs.Returns.{execute_commands_in_queue-Halts}
use redshell.Jobs.Runnable.{Waitable, IsRunnable}
use redshell.Jobs.{
  Errno, echild, eintr, another_errno, Waited, reaped, failed, System, Forked, child, Done, gave,
  parent, replaced, wait_for, close_pipes, open_pipes,
}
use redshell.Tests.Chains.{chained, chained-Lawful}

abbrev pub logging : Environment
logging = record {
  State = List Event;
  setenv = λ s key value. (success, s);
  getenv = λ s key. none;
  getcwd = λ s. some (codes "/");
  chdir = λ s path. (success, s);
  perror = λ s path. [];
}

-- there is no process 99
abbrev pub outcome : Option ℕ → Waited
outcome none = failed echild
outcome (some n) = if n == 99 then failed echild else reaped n

-- a process's number is the number of the events before it
abbrev pub logged : System logging
logged = record {
  dup = λ s fd. (some fd, s);
  dup2 = λ s fd target. s;
  open_read = λ s path. (some 5, s);
  open_write = λ s path. (some 6, s);
  close = λ s fd. s;
  pipe = λ s. (some (7, 8), s);
  fork = λ s. (parent (some (length s)), s ++ forked (some (length s)) ∷ []);
  waitpid = λ s pid. (outcome pid, s ++ waited pid ∷ []);
  execvp = λ s path argv. replaced s;
}

abbrev process_of : Forked → Option ℕ
process_of child = none
process_of (parent pid) = pid

abbrev pub logged-Observed : Observed logging logged
logged-Observed = record {
  log = λ s. s;
  log-dup = λ s fd. refl;
  log-dup2 = λ s fd target. refl;
  log-open_read = λ s path. refl;
  log-open_write = λ s path. refl;
  log-close = λ s fd. refl;
  log-pipe = λ s. refl;
  log-fork = λ s s' pid forks.
      let process : some (length s) ≡ pid = ap (λ r. process_of r.0) forks in
      sym (ap (λ r. r.1) forks) ∙ ap (λ p. s ++ forked p ∷ []) process;
  log-waitpid = λ s pid. refl;
}

outcome-failed : (pid : Option ℕ) (errno : Errno) → outcome pid ≡ failed errno → errno ≡ echild
outcome-failed none errno same = cc
outcome-failed (some n) errno same = ground arith

never_eintr : (pid : Option ℕ) → outcome pid ≡ failed eintr → ⊥
never_eintr pid same = let clash = outcome-failed pid eintr same in absurd cc

never_another : (pid : Option ℕ) (n : ℕ) → outcome pid ≡ failed (another_errno n) → ⊥
never_another pid n same = let clash = outcome-failed pid (another_errno n) same in absurd cc

abbrev logged-Waitable : Waitable logging logged
logged-Waitable = record {
  in_parent = λ s. (_, refl);
  directory = λ s. (_, refl);
  limit = 1;
  pending = λ s. 0;
  pending-limit = λ s. omega arith;
  waitpid-pending = λ s pid. omega arith;
  waitpid-errno = λ s pid n same. never_another pid n same;
  waitpid-interrupted = λ s pid again. absurd (never_eintr pid again);
}

abbrev pub quiet_world : World chained logging
quiet_world = record { aliases = []; state = []; out = []; err = [] }

abbrev pub list_files : Command
list_files = record command_new { path = some (codes "ls"); argv = some (codes "ls" ∷ []) }

abbrev pub files_first : Command
files_first = record list_files { connection_mask = sequential }

abbrev pub unset : ℕ → Option ℕ
unset i = some 99

abbrev behind_both : Frame chained logging logged
behind_both = record {
  fd_in = none;
  fd_out = none;
  pid = some 2;
  last_command = some list_files;
  launched = unset;
  pipes = record { cells = unset; size = 2 };
  fg_pid = none;
  world = record quiet_world { state = forked (some 0) ∷ waited (some 0) ∷ forked (some 2) ∷ [] };
}

abbrev all_events : List Event
all_events =
    forked (some 0)
    ∷ waited (some 0)
    ∷ forked (some 2)
    ∷ waited (some 2)
    ∷ waited (some 99)
    ∷ waited (some 99)
    ∷ []

unfoldable pub jobs : Unit {0}
unfolding run_commands run_command settle_last redirect_in redirect_out run_single runs_here
    is_builtin is_among commands forked_single str_eq execute_commands_in_queue finish wait_all
    waits_again wait_again wait_for close_pipes run_piped forked_piped open_pipes launch_at
jobs = tt

two-run :
    run_commands chained logging logged
      (fixed_for chained logging logged (files_first ∷ list_files ∷ []) quiet_world)
      0
      (files_first ∷ list_files ∷ [])
      (first_frame chained logging logged unset unset
        (files_first ∷ list_files ∷ [])
        none
        quiet_world)
    ≡ ok (on behind_both)
unfolding jobs
two-run = refl

abbrev both_done : Done chained logging logged
both_done = gave success (record quiet_world { state = all_events })

abbrev pub idle_pid : Option (Option ℕ)
idle_pid = none

two-executed :
    execute_commands_in_queue chained logging logged 1 unset unset
      (files_first ∷ list_files ∷ [])
      none
      quiet_world
    ≡ ok (both_done, idle_pid)
unfolding jobs
two-executed = refl

execute_commands_in_queue-Schedule_example :
    (idle_pid ≡ none)
    × ((w' : World chained logging) × (both_done ≡ gave success w')
        × ((events tail : List Event) × Schedule chained logging logged logged-Observed none none
              (files_first ∷ list_files ∷ [])
              events
            × Awaited unset 0 2 tail
            × (w'.state ≡ events ++ tail)))
execute_commands_in_queue-Schedule_example =
    execute_commands_in_queue-Schedule chained logging logged logged-Observed 1 unset unset
      files_first (list_files ∷ []) none none quiet_world behind_both both_done two-run two-executed

list_files-IsRunnable : IsRunnable list_files
list_files-IsRunnable = record {
  name = codes "ls";
  arguments = [];
  argv = refl;
  path = refl;
  complete = λ same. absurd cc;
}

execute_commands_in_queue-Halts_example :
    (r : Done chained logging logged × Option (Option ℕ)) × (execute_commands_in_queue chained
        logging logged 1 unset unset
        (list_files ∷ [])
        none
        quiet_world
      ≡ ok r)
execute_commands_in_queue-Halts_example =
    execute_commands_in_queue-Halts chained chained-Lawful logging logged logged-Waitable 1 unset
      unset (list_files ∷ []) none quiet_world (list_files-IsRunnable, tt) (omega arith)
