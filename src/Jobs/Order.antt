-- ===== src/Jobs/Order.antt =====
-- The order in which the shell starts processes and waits for them: what the calls add to a log of
-- the forks and the waits.
pub mod Goes
pub mod Pipeline
pub mod Rounds
pub mod Waits
use mathlib.Core.List.{append_assoc, append-nil}
use redshell.Alias.Table.{HashTable}
use redshell.Alias.{Alias}
use redshell.Base.{
  ℕ, zero, suc, ◌+◌, ◌≡◌, refl, Bool, true, false, Option, none, some, List, [], ◌∷◌, ◌++◌, Bytes,
  length, ◌==◌, if◌then◌else◌, Run, Fault, ok, fault, ◌>>=◌, ◌∙◌, ap, sym, ◌||◌, Bool-cases, inl,
  inr,
}
use redshell.Builtins.{Environment, World}
use redshell.Command.{Command, is_pipe}
use redshell.Jobs.Loop.{
  Frame, Fixed, Step, on, over, in_frame, settle_last, opened_in, redirect_in, opened_out,
  redirect_out, then_step, forked_single, runs_here, run_single, dup_both, run_command,
  run_commands, run_piped, forked_piped, returned_zero, restore, finish,
}
use redshell.Jobs.{
  Forked, child, parent, System, Done, Pipes, execute_command, single_child, piped_child,
  open_pipes, close_pipes, was_pipe, to_wait, wait_for, close_open, dup2_open,
}

pub data Event : Type 0 where
  forked waited : Option ℕ → Event

-- a record of the forks and of the waits in a system's state
pub record Observed (env : Environment) (sys : System env) : Type 0 where
  pub log : env.State → List Event
  pub log-dup : (s : env.State) (fd : ℕ) → log (sys.dup s fd).1 ≡ log s
  pub log-dup2 : (s : env.State) (fd : Option ℕ) (target : ℕ) → log (sys.dup2 s fd target) ≡ log s
  pub log-open_read : (s : env.State) (path : Bytes) → log (sys.open_read s path).1 ≡ log s
  pub log-open_write : (s : env.State) (path : Bytes) → log (sys.open_write s path).1 ≡ log s
  pub log-close : (s : env.State) (fd : Option ℕ) → log (sys.close s fd) ≡ log s
  pub log-pipe : (s : env.State) → log (sys.pipe s).1 ≡ log s
  pub log-fork :
      (s s' : env.State) (pid : Option ℕ)
      → sys.fork s ≡ (parent pid, s')
      → log s' ≡ log s ++ forked pid ∷ []
  pub log-waitpid :
      (s : env.State) (pid : Option ℕ) → log (sys.waitpid s pid).1 ≡ log s ++ waited pid ∷ []

module _ (h : HashTable Alias) (env : Environment) (sys : System env)
    (seen : Observed env sys) where
  open env use {State}
  open sys use {dup2, fork, open_read, open_write}
  open seen use {
    log, log-dup2, log-open_read, log-open_write, log-close, log-pipe, log-fork, log-waitpid,
  }

  abbrev pub F : Type 0
  F = Frame h env sys

  -- the wait for the command before, where it runs in the foreground and was started
  abbrev pub waits : Option Command → Option ℕ → List Event
  waits last none = []
  waits last (some pid) = if to_wait h env sys last then waited (some pid) ∷ [] else []

  -- the events of the commands: before a command starts, the one before it is waited for
  pub data Schedule : Option Command → Option ℕ → List Command → List Event → Type 0 where
    finished : (last : Option Command) (pid : Option ℕ) → Schedule last pid [] (waits last pid)
    starts :
        (last : Option Command) (pid : Option ℕ) (cmd : Command) (cmds : List Command)
        (pid' : Option ℕ) (events : List Event)
        → Schedule (some cmd) pid' cmds events
        → Schedule last pid (cmd ∷ cmds) (waits last pid ++ (forked pid' ∷ events))

  abbrev pub log_of : F → List Event
  log_of f = log f.world.state

  log-close_open : (fd : Option ℕ) (s : State) → log (close_open h env sys fd s) ≡ log s
  log-close_open none s = refl
  log-close_open (some fd) s = log-close s (some fd)

  pub log-dup2_open :
      (fd : Option ℕ) (target : ℕ) (s : State) → log (dup2_open h env sys fd target s) ≡ log s
  log-dup2_open none target s = refl
  log-dup2_open (some fd) target s = log-dup2 s (some fd) target

  pub log-wait_for :
      (last : Option Command) (pid : Option ℕ) (s : State)
      → log (wait_for h env sys last pid s) ≡ log s ++ waits last pid
  unfolding wait_for
  log-wait_for last none s = rw append-nil
  log-wait_for last (some pid) s = elim (Bool-cases (to_wait h env sys last)) [
    | inl waiting ↦ rw waiting (log-waitpid s (some pid))
    | inr going ↦ rw going (sym (append-nil (log s)))
  ]

  pub log-settle_last :
      (f : F) → log_of (settle_last h env sys f) ≡ log_of f ++ waits f.last_command f.pid
  unfolding settle_last
  log-settle_last f =
      log-close_open f.fd_out _
      ∙ log-close_open f.fd_in _
      ∙ log-wait_for f.last_command f.pid f.world.state

  pub log-open_pipes :
      (pairs j : ℕ) (p : Pipes h env sys) (s : State)
      → log (open_pipes h env sys pairs j p s).1 ≡ log s
  unfolding open_pipes
  log-open_pipes zero j p s = refl
  log-open_pipes (suc pairs) j p s = log-open_pipes pairs (j + 2) _ _ ∙ log-pipe s

  pub log-restore : (x : Fixed h env sys) (s : State) → log (restore h env sys x s) ≡ log s
  log-restore x s = log-dup2 _ _ _ ∙ log-dup2 _ _ _
