-- ===== src/Jobs.antt =====
-- src/jobs.c: one process's run of `executeCommand` and `executeCommandsInQueue`. The system calls
-- come from a `System`; -1 is `none` where a number is a descriptor or a process. `fork` says in which
-- of the two processes the run goes on. Arrays are functions with the length beside them, and what
-- they hold at the start is an argument. Memory that is freed is not modelled.
pub mod Aliases
pub mod Inside
pub mod Loop
pub mod Order
pub mod Pipelines
pub mod Queued
pub mod Redirected
pub mod Returns
pub mod Runnable
pub mod Untouched
use redshell.Alias.Table.{HashTable}
use redshell.Alias.{Alias}
use redshell.Base.{
  ℕ, zero, suc, ◌+◌, ◌-◌, ◌*◌, Bool, true, false, ◌||◌, Option, none, some, List, [], ◌∷◌, ◌++◌,
  Bytes, codes, ltb, ◌==◌, if◌then◌else◌, Run, null_pointer, out_of_bounds, ok, fault, ◌>>=◌,
}
use redshell.Builtins.{
  Status, success, failure, Environment, World, Ended, returned, exited, execute_builtin_command,
}
use redshell.Command.{Connection, Command, is_pipe, is_background}

-- the process in which `fork` returned, with its result in the parent
pub data Forked : Type 0 where
  child : Forked
  parent : Option ℕ → Forked

pub data Executed (S : Type 0) : Type 0 where
  -- another program runs in the process
  replaced : S → Executed S
  -- `execvp` returned -1, and whether errno is ENOENT
  refused : Bool → S → Executed S

-- the values of errno that `waitpid` may leave
pub data Errno : Type 0 where
  echild eintr : Errno
  another_errno : ℕ → Errno

-- the result of `waitpid`: the process that ended, or -1 with errno
pub data Waited : Type 0 where
  reaped : ℕ → Waited
  failed : Errno → Waited

pub record System (env : Environment) : Type 0 where
  pub dup : env.State → ℕ → Option ℕ × env.State
  pub dup2 : env.State → Option ℕ → ℕ → env.State
  pub open_read : env.State → Bytes → Option ℕ × env.State
  pub open_write : env.State → Bytes → Option ℕ × env.State
  pub close : env.State → Option ℕ → env.State
  pub pipe : env.State → Option (ℕ × ℕ) × env.State
  pub fork : env.State → Forked × env.State
  pub waitpid : env.State → Option ℕ → Waited × env.State
  pub execvp : env.State → Option Bytes → List Bytes → Executed env.State

module _ (h : HashTable Alias) (env : Environment) (sys : System env) where
  open env use {State}
  open sys use {dup, dup2, open_read, open_write, close, pipe, fork, waitpid, execvp}

  -- how a run of a process ends
  pub data Done : Type 0 where
    gave : Status → World h env → Done
    gone : World h env → Done
    became : World h env → Done

  abbrev pub with_state : World h env → State → World h env
  with_state w s = record w { state = s }

  -- the message for a command that could not be executed
  abbrev pub complain : Bool → Bytes → World h env → World h env
  complain true path w = record w { err = w.err ++ (path ++ codes ": command not found\n") }
  complain false path w = record w { err = w.err ++ env.perror w.state (some path) }

  abbrev pub after_exec : Bytes → World h env → Executed State → Done
  after_exec path w (replaced s) = became (with_state w s)
  after_exec path w (refused missing s) = gave failure (complain missing path (with_state w s))

  -- behind `_executeBuiltinCommand`
  unfoldable pub try_external : Option Bytes → List Bytes → Ended h env → Run Done
  try_external path argv (exited w) = ok (gone w)
  try_external path argv (returned success w) = ok (gave success w)
  try_external none argv (returned failure w) = fault null_pointer
  try_external (some path) argv (returned failure w) =
      ok (after_exec path w (execvp w.state (some path) argv))

  unfoldable pub execute_argv : Option (List Bytes) → Option Bytes → World h env → Run Done
  unfolding try_external
  execute_argv none path w = fault null_pointer
  execute_argv (some argv) path w =
      execute_builtin_command h env argv w >>= λ e. try_external path argv e

  unfoldable pub execute_command : Command → World h env → Run Done
  unfolding execute_argv
  execute_command cmd w = execute_argv cmd.argv cmd.path w

  -- `exit(status)` in the child
  abbrev pub leave : Done → Done
  leave (gave _ w) = gone w
  leave (gone w) = gone w
  leave (became w) = became w

  -- `pipes` of the length `tot_pipes`
  pub record Pipes : Type 0 where
    pub cells : ℕ → Option ℕ
    pub size : ℕ

  unfoldable pub pipe_end : Pipes → ℕ → Run (Option ℕ)
  pipe_end p i = if ltb i p.size then ok (p.cells i) else fault out_of_bounds

  -- `pipes[2*(i-1)]`
  unfoldable pub input_end : Pipes → ℕ → Run (Option ℕ)
  unfolding pipe_end
  input_end p zero = fault out_of_bounds
  input_end p (suc i) = pipe_end p (2 * i)

  -- `_closepipes` of the first `count`, from `i` on
  unfoldable pub close_pipes : Pipes → ℕ → ℕ → State → State
  close_pipes p i zero s = s
  close_pipes p i (suc count) s = close_pipes p (i + 1) count (close s (p.cells i))

  abbrev pub store_pipe : (ℕ → Option ℕ) → ℕ → Option (ℕ × ℕ) → ℕ → Option ℕ
  store_pipe cells j none k = cells k
  store_pipe cells j (some (a, b)) k =
      if k == j then some a else if k == j + 1 then some b else cells k

  -- `for (j = 0; j < tot_pipes; j += 2) pipe(pipes+j);` for the pairs that are left
  unfoldable pub open_pipes : ℕ → ℕ → Pipes → State → Pipes × State
  open_pipes zero j p s = (p, s)
  open_pipes (suc pairs) j p s =
      let made = pipe s in
      open_pipes pairs (j + 2) (record p { cells = store_pipe p.cells j made.0 }) made.1

  -- the connection of the command before, none at the first
  abbrev pub was_pipe : Option Command → Bool
  was_pipe none = false
  was_pipe (some last) = is_pipe last.connection_mask

  -- whether the command before runs in the foreground
  abbrev pub to_wait : Option Command → Bool
  to_wait none = false
  to_wait (some last) =
      if is_pipe last.connection_mask
      then false
      else if is_background last.connection_mask
      then false
      else true

  unfoldable pub wait_for : Option Command → Option ℕ → State → State
  wait_for last none s = s
  wait_for last (some pid) s = if to_wait last then (waitpid s (some pid)).1 else s

  abbrev pub close_open : Option ℕ → State → State
  close_open none s = s
  close_open (some fd) s = close s (some fd)

  abbrev pub dup2_open : Option ℕ → ℕ → State → State
  dup2_open none target s = s
  dup2_open (some fd) target s = dup2 s (some fd) target

  -- the ends of the pipes that the child takes
  unfoldable pub child_output : Pipes → ℕ → Option Command → State → Run State
  unfolding pipe_end
  child_output p n last s =
      if was_pipe last
      then ok s
      else if ltb 1 n
      then (pipe_end p 1 >>= λ fd. ok (dup2 s fd 1))
      else ok s

  unfoldable pub child_input : Pipes → ℕ → ℕ → Command → State → Run State
  unfolding input_end pipe_end
  child_input p n i cmd s =
      if is_pipe cmd.connection_mask
      then (do from ← input_end p i; to ← pipe_end p (2 * i + 1); ok (dup2 (dup2 s from 0) to 1))
      else if ltb 1 n
      then (input_end p i >>= λ fd. ok (dup2 s fd 0))
      else ok s

  unfoldable pub piped_child : Pipes → ℕ → ℕ → Option Command → Command → World h env → Run Done
  unfolding child_output child_input close_pipes execute_command
  piped_child p n i last cmd w = do
    s ← child_output p n last w.state
    s ← child_input p n i cmd s
    done ← execute_command cmd (with_state w (close_pipes p 0 p.size s))
    ok (leave done)

  unfoldable pub single_child : Command → World h env → Run Done
  unfolding execute_command
  single_child cmd w = execute_command cmd w >>= λ done. ok (leave done)
