-- ===== src/Jobs/Inside.antt =====
-- A single builtin command, which runs in the shell itself.
use redshell.Alias.Table.{HashTable}
use redshell.Alias.{Alias}
use redshell.Base.{
  ℕ, ◌≡◌, refl, true, false, Option, none, some, List, [], ◌∷◌, Bytes, str_eq, Run, ok, fault,
  ◌>>=◌, Bool-cases, inl, inr,
}
use redshell.Builtins.{
  Builtin, Environment, World, Ended, returned, exited, success, commands, is_among, is_builtin,
  execute_among, execute_builtin_command, call, dropped,
}
use redshell.Command.{Command, is_pipe, is_background}
use redshell.Jobs.Loop.{
  on, over, settle_last, redirect_in, redirect_out, runs_here, run_single, run_command,
  run_commands, returned_zero, finish, then_step, fixed_for, execute_commands_in_queue, Fixed,
  Frame,
}
use redshell.Jobs.{System, Done, gave, gone, execute_argv, try_external, wait_for}

module _ (h : HashTable Alias) (env : Environment) (sys : System env) where
  -- the process goes on with status 0, or `exit` was called
  abbrev pub inside : Ended h env → Done h env sys
  inside (returned status w) = gave success w
  inside (exited w) = gone w

  execute_among-known :
      (table : List (Bytes × Builtin)) (name : Bytes) (argv : List Bytes) (path : Option Bytes)
      (words : List Bytes) (w : World h env)
      → is_among table name ≡ true
      → (execute_among h env table name argv w >>= λ e. try_external h env sys path words e)
        ≡ (execute_among h env table name argv w >>= λ e. ok (inside e))
  unfolding execute_among is_among try_external
  execute_among-known [] name argv path words w known = absurd cc
  execute_among-known ((k, b) ∷ more) name argv path words w known =
      elim (Bool-cases (str_eq k name)) [
        | inl here ↦ rw here (ends (call h env b argv w))
        | inr on_more ↦
            rw on_more (execute_among-known more name argv path words w (rw on_more at known))
      ]
    where
      ends :
          (r : Run (Ended h env))
          → (r >>= (λ e. ok (dropped h env e)) >>= λ e. try_external h env sys path words e)
            ≡ (r >>= (λ e. ok (dropped h env e)) >>= λ e. ok (inside e))
      ends (fault f) = refl
      ends (ok (returned status w')) = refl
      ends (ok (exited w')) = refl

  execute_argv-known :
      (name : Bytes) (argv : List Bytes) (path : Option Bytes)
      → is_among commands name ≡ true
      → (w : World h env)
      → execute_argv h env sys (some (name ∷ argv)) path w
        ≡ (execute_builtin_command h env (name ∷ argv) w >>= λ e. ok (inside e))
  unfolding execute_argv execute_builtin_command
  execute_argv-known name argv path known w =
      execute_among-known commands name argv path (name ∷ argv) w known

  run_single-known :
      (cmd : Command) (name : Bytes) (argv : List Bytes)
      → cmd.argv ≡ some (name ∷ argv)
      → cmd.path ≡ some name
      → is_among commands name ≡ true
      → is_background cmd.connection_mask ≡ false
      → (x : Fixed h env sys) (f : Frame h env sys)
      → run_single h env sys x cmd 0 f ≡ (
          execute_builtin_command h env (name ∷ argv) f.world >>= λ e.
          ok (over (inside e) f.fg_pid))
  unfolding run_single runs_here is_builtin
  run_single-known cmd name argv words path known front x f =
      simp (front, path, known, words, execute_argv-known name argv (some name) known)
        (ends (execute_builtin_command h env (name ∷ argv) f.world))
    where
      ends :
          (r : Run (Ended h env))
          → (r >>= (λ e. ok (inside e)) >>= λ done.
              ok (over (returned_zero h env sys done) f.fg_pid))
            ≡ (r >>= λ e. ok (over (inside e) f.fg_pid))
      ends (fault e) = refl
      ends (ok (returned status w)) = refl
      ends (ok (exited w)) = refl

  -- A queue of one builtin command, whose path is its first word, without redirections, and with no `&`
  -- and no pipe behind it: `execute_commands_in_queue` is the builtin command on its words, in the world
  -- behind the two calls of `dup`. It gives back 0, whatever status the builtin command has, or the shell
  -- exits; `fg_pid` stays as it is, and nothing is forked or waited for.
  pub execute_commands_in_queue-inside :
      (rounds : ℕ) (pipes launched : ℕ → Option ℕ) (cmd : Command) (name : Bytes)
      (argv : List Bytes) (fg : Option (Option ℕ)) (w : World h env)
      → cmd.argv ≡ some (name ∷ argv)
      → cmd.path ≡ some name
      → is_among commands name ≡ true
      → is_pipe cmd.connection_mask ≡ false
      → is_background cmd.connection_mask ≡ false
      → cmd.redirect_from_path ≡ none
      → cmd.redirect_to_path ≡ none
      → execute_commands_in_queue h env sys rounds pipes launched (cmd ∷ []) fg w ≡ (
          execute_builtin_command h env
            (name ∷ argv)
            (record w { state = (sys.dup (sys.dup w.state 0).1 1).1 })
          >>= λ e. ok (inside e, fg))
  unfolding execute_commands_in_queue run_commands run_command settle_last redirect_in redirect_out
      wait_for finish
  execute_commands_in_queue-inside rounds pipes launched cmd name argv fg w words path known single
        front input output =
      simp (input, output, single, run_single-known cmd name argv words path known front)
        (ends (
          execute_builtin_command h env (name ∷ argv)
            (record w { state = (sys.dup (sys.dup w.state 0).1 1).1 })))
    where
      ends :
          (r : Run (Ended h env))
          → (r
              >>= (λ e. ok (over (inside e) fg))
              >>= (λ step.
                  then_step h env sys step (λ f. ok (on (record f { last_command = some cmd }))))
              >>= (λ step. then_step h env sys step (λ f. ok (on f)))
              >>= finish h env sys rounds (fixed_for h env sys (cmd ∷ []) w))
            ≡ (r >>= λ e. ok (inside e, fg))
      ends (fault f) = refl
      ends (ok (returned status w')) = refl
      ends (ok (exited w')) = refl
