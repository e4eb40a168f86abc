-- ===== src/Main/Interrupts.antt =====
-- An interrupt while commands run that no pipe connects.
use mathlib.Core.Path.{subst}
use redshell.Alias.Table.{HashTable}
use redshell.Alias.{Alias}
use redshell.Base.{ℕ, ◌≡◌, none, List, All, ok, ◌∙◌, false}
use redshell.Builtins.{Environment}
use redshell.Command.{Command}
use redshell.Jobs.Loop.{Frame, Fixed, on, run_commands}
use redshell.Jobs.Untouched.{NoPipe, Keeps, run_commands-Keeps}
use redshell.Jobs.{System, was_pipe}
use redshell.Main.{Signals, sigint, signal_handler}

module _ (h : HashTable Alias) (env : Environment) (sys : System env) where
  -- Where the loop of `executeCommandsInQueue` started with `fg_pid` 0 and went through commands none
  -- of which is followed by a pipe, the handler of an interrupt kills and waits for no process: it
  -- only starts a new line, although the last command may run in the foreground.
  pub interrupt-run_commands :
      {S : Type 0} (calls : Signals S) (s : S) (x : Fixed h env sys) (i : ℕ) (cmds : List Command)
      (f f' : Frame h env sys)
      → All (NoPipe h env sys) cmds
      → was_pipe h env sys f.last_command ≡ false
      → f.fg_pid ≡ none
      → run_commands h env sys x i cmds f ≡ ok (on f')
      → signal_handler calls sigint f'.fg_pid s ≡ (none, calls.newline s)
  unfolding signal_handler
  interrupt-run_commands calls s x i cmds f f' alone no_pipe idle runs =
      let kept =
        subst (Keeps h env sys f) runs (run_commands-Keeps h env sys x i cmds f alone no_pipe) in
      let still : f'.fg_pid ≡ none = kept.1.1.0 ∙ idle in rw still
