-- ===== src/Jobs/Redirected.antt =====
-- A command that no pipe connects, with both of its redirections, in the child and in the shell.
use redshell.Alias.Table.{HashTable}
use redshell.Alias.{Alias}
use redshell.Base.{
  ℕ, ◌≡◌, refl, true, false, Option, some, List, [], ◌∷◌, Bytes, str_eq, ok, ◌>>=◌, ◌&&◌, ◌==◌, not,
  Bool-cases, inl, inr,
}
use redshell.Builtins.{
  Builtin, Environment, World, returned, failure, commands, is_among, is_builtin, execute_among,
  execute_builtin_command,
}
use redshell.Command.{Command, is_pipe, is_background}
use redshell.Jobs.Loop.{
  Frame, Fixed, Step, on, over, in_frame, settle_last, opened_in, redirect_in, opened_out,
  redirect_out, then_step, forked_single, runs_here, run_single, run_command,
}
use redshell.Jobs.{
  Forked, child, parent, System, after_exec, leave, execute_command, execute_argv, try_external,
  single_child, was_pipe, with_state,
}

module _ (h : HashTable Alias) (env : Environment) (sys : System env) where
  open env use {State}
  open sys use {dup2, open_read, open_write, fork, execvp}

  execute_among-unknown :
      (table : List (Bytes × Builtin)) (name : Bytes) (argv : List Bytes) (w : World h env)
      → is_among table name ≡ false
      → execute_among h env table name argv w ≡ ok (returned failure w)
  unfolding execute_among is_among
  execute_among-unknown [] name argv w unknown = refl
  execute_among-unknown ((known, b) ∷ more) name argv w unknown =
      elim (Bool-cases (str_eq known name)) [
        | inl here ↦ let clash : true ≡ false = rw here at unknown in absurd cc
        | inr on_more ↦ rw on_more (execute_among-unknown more name argv w (rw on_more at unknown))
      ]

  single_child-unknown :
      (cmd : Command) (name : Bytes) (argv : List Bytes) (w : World h env)
      → cmd.argv ≡ some (name ∷ argv)
      → cmd.path ≡ some name
      → is_among commands name ≡ false
      → single_child h env sys cmd w
        ≡ ok (
            leave h env sys
              (after_exec h env sys name w (execvp w.state (some name) (name ∷ argv))))
  unfolding single_child execute_command execute_argv execute_builtin_command try_external
  single_child-unknown cmd name argv w words path unknown =
      rw (words, path, execute_among-unknown commands name argv w unknown)

  runs_here-unknown :
      (cmd : Command) (left : ℕ) (name : Bytes)
      → cmd.path ≡ some name
      → is_among commands name ≡ false
      → runs_here h env sys cmd left ≡ ok false
  unfolding runs_here is_builtin
  runs_here-unknown cmd left name path unknown =
      elim (Bool-cases (not (is_background cmd.connection_mask) && (left == 0))) [
        | inl alone ↦ rw (alone, path, unknown)
        | inr more ↦ rw more
      ]

  -- the child ends as `execvp` does, and the shell has its own input and output again
  abbrev pub Split :
      Fixed h env sys
      → Command
      → Bytes
      → List Bytes
      → Frame h env sys
      → Forked × State
      → Step h env sys
      → Type 0
  Split x cmd name argv f (child, s) step =
      step
      ≡ over
          (leave h env sys (
            after_exec h env sys name (with_state h env sys f.world s)
              (execvp s (some name) (name ∷ argv))))
          f.fg_pid
  Split x cmd name argv f (parent pid, s) step =
      (g : Frame h env sys) × (step ≡ on g)
      × (g.world.state ≡ dup2 (dup2 s x.stdin_copy 0) x.stdout_copy 1)
      × (g.pid ≡ pid)
      × (g.last_command ≡ some cmd)

  -- the frame behind the redirections
  abbrev redirected : Frame h env sys → Option ℕ → Option ℕ → State → Frame h env sys
  redirected f input output s = record (in_frame h env sys f s) { fd_in = input; fd_out = output }

  forked_single-Split :
      (x : Fixed h env sys) (cmd : Command) (name : Bytes) (argv : List Bytes) (f : Frame h env sys)
      (input output : Option ℕ) (t : State) (r : Forked × State)
      → cmd.argv ≡ some (name ∷ argv)
      → cmd.path ≡ some name
      → is_among commands name ≡ false
      → (step : Step h env sys) × ((forked_single h env sys x cmd (redirected f input output t) r
            >>= λ step.
                then_step h env sys step (λ g. ok (on (record g { last_command = some cmd }))))
          ≡ ok step)
        × Split x cmd name argv f r step
  unfolding forked_single
  forked_single-Split x cmd name argv f input output t (child, s) words path unknown = (
    _,
    rw (single_child-unknown cmd name argv (with_state h env sys f.world s) words path unknown)
        refl,
    refl,
  )
  forked_single-Split x cmd name argv f input output t (parent pid, s) words path unknown =
      (_, refl, (_, refl, refl, refl, refl))

  -- A command that no pipe connects, whose name is not that of a builtin command, and both of whose
  -- redirections can be opened: the call of `fork` is made with the opened files as the standard input
  -- and output; the child ends as `execvp` of the name with the command's words does, in the state
  -- behind that `fork`; the shell goes on with its own input and output restored, and keeps the
  -- process and the command for the next round.
  pub run_command-Split :
      (x : Fixed h env sys) (i : ℕ) (cmd : Command) (left : ℕ) (f : Frame h env sys) (name : Bytes)
      (argv : List Bytes) (from to : Bytes) (fd fd' : ℕ) (s s' : State)
      → is_pipe cmd.connection_mask ≡ false
      → was_pipe h env sys f.last_command ≡ false
      → cmd.argv ≡ some (name ∷ argv)
      → cmd.path ≡ some name
      → is_among commands name ≡ false
      → cmd.redirect_from_path ≡ some from
      → cmd.redirect_to_path ≡ some to
      → open_read (settle_last h env sys f).world.state from ≡ (some fd, s)
      → open_write s to ≡ (some fd', s')
      → (step : Step h env sys) × (run_command h env sys x i cmd left f ≡ ok step)
        × Split x cmd name argv f (fork (dup2 (dup2 s' (some fd) 0) (some fd') 1)) step
  unfolding run_command redirect_in opened_in redirect_out opened_out run_single settle_last
  run_command-Split x i cmd left f name argv from to fd fd' s s' single alone words path unknown
        input output reads writes =
      let t = dup2 (dup2 s' (some fd) 0) (some fd') 1 in
      let (step, ends, split) =
        forked_single-Split x cmd name argv f (some fd) (some fd') t (fork t) words path unknown in
      (
        step,
        simp
            (
              input,
              reads,
              output,
              writes,
              alone,
              single,
              runs_here-unknown cmd left name path unknown,
            )
            ends,
        split,
      )
