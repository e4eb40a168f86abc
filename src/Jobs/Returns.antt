-- ===== src/Jobs/Returns.antt =====
-- That `executeCommandsInQueue` returns in the parent, whatever the calls of the system give back.
use redshell.Alias.Table.{HashTable, Lawful}
use redshell.Alias.{Alias}
use redshell.Base.{
  ℕ, zero, suc, ◌+◌, ◌-◌, ◌≡◌, refl, ◌≤◌, ◌<◌, arith, Bool, true, false, Option, List, [], ◌∷◌, All,
  length, if◌then◌else◌, Run, ok, ◌>>=◌, not, ◌&&◌, ◌==◌, ◌||◌, Bool-cases, inl, inr,
}
use redshell.Builtins.Total.{Halts}
use redshell.Builtins.{Environment, World, is_builtin}
use redshell.Command.{Command, is_pipe, is_background}
use redshell.Jobs.Loop.{
  Frame, Fixed, Step, on, over, in_frame, settle_last, redirect_in, redirect_out, then_step,
  forked_single, runs_here, run_single, dup_both, run_command, run_commands, run_piped,
  forked_piped, restore, finish, waits_again, wait_again, wait_all, execute_commands_in_queue,
  fixed_for, first_frame,
}
use redshell.Jobs.Runnable.{Waitable, IsRunnable, execute_command-Halts}
use redshell.Jobs.{
  Waited, reaped, failed, echild, eintr, another_errno, System, Done, open_pipes, close_pipes,
  was_pipe, wait_for,
}

module _ (h : HashTable Alias) (laws : Lawful h) (env : Environment) (sys : System env)
    (waitable : Waitable env sys) where
  open env use {State}
  open sys use {fork, open_read, open_write, waitpid}
  open waitable use {
    in_parent, directory, limit, pending, pending-limit, waitpid-pending, waitpid-errno,
    waitpid-interrupted,
  }

  then_step-Halts :
      (step : Step h env sys) (k : Frame h env sys → Run (Step h env sys))
      → ((g : Frame h env sys) → Halts (k g))
      → Halts (then_step h env sys step k)
  then_step-Halts (on g) k next = next g
  then_step-Halts (over done fg) k next = (_, refl)

  bind-Halts :
      (run : Run (Step h env sys)) (k : Frame h env sys → Run (Step h env sys))
      → Halts run
      → ((g : Frame h env sys) → Halts (k g))
      → Halts (run >>= λ step. then_step h env sys step k)
  bind-Halts run k (step, runs) next =
      let (a, ends) = then_step-Halts step k next in (a, rw (runs, ends))

  forked_single-Halts :
      (x : Fixed h env sys) (cmd : Command) (f : Frame h env sys)
      → Halts (forked_single h env sys x cmd f (fork f.world.state))
  unfolding forked_single
  forked_single-Halts x cmd f = let (r, forks) = in_parent f.world.state in rw forks (_, refl)

  forked_piped-Halts :
      (x : Fixed h env sys) (i : ℕ) (cmd : Command) (f : Frame h env sys)
      → Halts (forked_piped h env sys x i cmd f (fork f.world.state))
  unfolding forked_piped
  forked_piped-Halts x i cmd f = let (r, forks) = in_parent f.world.state in rw forks (_, refl)

  run_piped-Halts :
      (x : Fixed h env sys) (i : ℕ) (cmd : Command) (f : Frame h env sys)
      → Halts (run_piped h env sys x i cmd f)
  unfolding run_piped
  run_piped-Halts x i cmd f =
      let made = open_pipes h env sys (x.n_commands - 1) 0 f.pipes f.world.state in
      elim (Bool-cases (was_pipe h env sys f.last_command)) [
        | inl piped ↦ rw piped (forked_piped-Halts x i cmd f)
        | inr first ↦
            rw first
              (forked_piped-Halts x i cmd (record (in_frame h env sys f made.1) { pipes = made.0 }))
      ]

  runs_here-Halts :
      (cmd : Command) (left : ℕ) → IsRunnable cmd → Halts (runs_here h env sys cmd left)
  unfolding runs_here is_builtin
  runs_here-Halts cmd left runnable =
      elim (Bool-cases (not (is_background cmd.connection_mask) && (left == 0))) [
        | inl alone ↦ rw (alone, runnable.path) (_, refl)
        | inr more ↦ rw more (_, refl)
      ]

  run_single-Halts :
      (x : Fixed h env sys) (cmd : Command) (left : ℕ) (f : Frame h env sys)
      → IsRunnable cmd
      → Halts (run_single h env sys x cmd left f)
  unfolding run_single
  run_single-Halts x cmd left f runnable =
      let (here, tests) = runs_here-Halts cmd left runnable in
      let (done, ends) = execute_command-Halts h laws env sys directory cmd f.world runnable in
      elim (Bool-cases here) [
        | inl inside ↦ rw (tests, inside, ends) (_, refl)
        | inr outside ↦
            let (step, forks) = forked_single-Halts x cmd f in rw (tests, outside) (step, forks)
      ]

  if-Halts :
      (run run' : Run (Step h env sys))
      → Halts run
      → Halts run'
      → (b : Bool) → Halts (if b then run else run')
  if-Halts run run' halts halts' true = halts
  if-Halts run run' halts halts' false = halts'

  run_command-Halts :
      (x : Fixed h env sys) (i : ℕ) (cmd : Command) (left : ℕ) (f : Frame h env sys)
      → IsRunnable cmd
      → Halts (run_command h env sys x i cmd left f)
  unfolding run_command
  run_command-Halts x i cmd left f runnable =
      then_step-Halts (redirect_in h env sys cmd.redirect_from_path (settle_last h env sys f)) _
        (λ g. then_step-Halts (redirect_out h env sys cmd.redirect_to_path g) _ (λ k.
          bind-Halts _ _
            (if-Halts _ _ (run_piped-Halts x i cmd (dup_both h env sys k))
              (run_single-Halts x cmd left (dup_both h env sys k) runnable)
              (was_pipe h env sys k.last_command || is_pipe cmd.connection_mask))
            (λ m. (_, refl))))

  run_commands-Halts :
      (x : Fixed h env sys) (i : ℕ) (cmds : List Command) (f : Frame h env sys)
      → All IsRunnable cmds
      → Halts (run_commands h env sys x i cmds f)
  unfolding run_commands
  run_commands-Halts x i [] f runnable = (_, refl)
  run_commands-Halts x i (cmd ∷ more) f runnable =
      bind-Halts _ _ (run_command-Halts x i cmd (length more) f runnable.0)
        (λ g. run_commands-Halts x (i + 1) more g runnable.1)

  -- a wait that is made again was interrupted
  waits_again-pending :
      (s : State) (pid : Option ℕ) (w : Waited)
      → (waitpid s pid).0 ≡ w
      → waits_again w ≡ true
      → pending (waitpid s pid).1 < pending s
  unfolding waits_again
  waits_again-pending s pid (reaped n) same again = absurd cc
  waits_again-pending s pid (failed echild) same again = absurd cc
  waits_again-pending s pid (failed eintr) same again = waitpid-interrupted s pid same
  waits_again-pending s pid (failed (another_errno n)) same again =
      absurd (waitpid-errno s pid n same)

  -- with the bound above what can interrupt
  wait_again-Halts :
      (rounds : ℕ) (pid : Option ℕ) (s : State)
      → pending s < rounds
      → (s' : State) × (wait_again h env sys rounds pid s ≡ ok s') × (pending s' ≤ pending s)
  unfolding wait_again
  wait_again-Halts zero pid s enough = absurd (omega arith)
  wait_again-Halts (suc rounds) pid s enough = elim (Bool-cases (waits_again (waitpid s pid).0)) [
    | inl again ↦
        let fewer = waits_again-pending s pid _ refl again in
        let (s', ends, less) =
          wait_again-Halts rounds pid (waitpid s pid).1 (omega (arith, fewer)) in
        (s', rw (again, ends), omega (arith, fewer, less))
    | inr done ↦ ((waitpid s pid).1, rw done, waitpid-pending s pid)
  ]

  wait_all-Halts :
      (rounds : ℕ) (launched : ℕ → Option ℕ) (i left : ℕ) (s : State)
      → pending s < rounds
      → Halts (wait_all h env sys rounds launched i left s)
  unfolding wait_all
  wait_all-Halts rounds launched i zero s enough = (_, refl)
  wait_all-Halts rounds launched i (suc left) s enough =
      let (s', ends, less) = wait_again-Halts rounds (launched i) s enough in
      rw ends (wait_all-Halts rounds launched (i + 1) left s' (omega (arith, less)))

  finish-Halts :
      (rounds : ℕ) (x : Fixed h env sys) (step : Step h env sys)
      → limit ≤ rounds
      → Halts (finish h env sys rounds x step)
  unfolding finish
  finish-Halts rounds x (over done fg) enough = (_, refl)
  finish-Halts rounds x (on f) enough =
      let s = close_pipes h env sys f.pipes 0 f.pipes.size f.world.state in
      let s' = wait_for h env sys f.last_command f.pid (restore h env sys x s) in
      let (s'', ends) =
        wait_all-Halts rounds f.launched 0 x.n_commands s' (omega (arith, pending-limit s')) in
      rw ends (_, refl)

  loop-Halts :
      (rounds : ℕ) (x : Fixed h env sys) (cmds : List Command) (f : Frame h env sys)
      → All IsRunnable cmds
      → limit ≤ rounds
      → Halts (run_commands h env sys x 0 cmds f >>= finish h env sys rounds x)
  loop-Halts rounds x cmds f runnable enough =
      let (step, runs) = run_commands-Halts x 0 cmds f runnable in
      rw runs (finish-Halts rounds x step enough)

  -- In the parent, with a working directory, where a call of `waitpid` that fails was interrupted or
  -- leaves ECHILD, and with a limit on how often waits are interrupted, but none on how often they
  -- leave ECHILD:
  -- `execute_commands_in_queue` returns on every queue of commands that have words, where each
  -- `export` has an argument, with as many rounds of waiting as the limit, whatever the calls for
  -- redirections, pipes and descriptors give back.
  pub execute_commands_in_queue-Halts :
      (rounds : ℕ) (pipes launched : ℕ → Option ℕ) (cmds : List Command) (fg : Option (Option ℕ))
      (w : World h env)
      → All IsRunnable cmds
      → limit ≤ rounds
      → (r : Done h env sys × Option (Option ℕ)) × (execute_commands_in_queue h env sys rounds pipes
            launched cmds fg w
          ≡ ok r)
  unfolding execute_commands_in_queue
  execute_commands_in_queue-Halts rounds pipes launched [] fg w runnable enough = (_, refl)
  execute_commands_in_queue-Halts rounds pipes launched (cmd ∷ more) fg w runnable enough =
      loop-Halts rounds (fixed_for h env sys (cmd ∷ more) w) (cmd ∷ more)
        (first_frame h env sys pipes launched (cmd ∷ more) fg w) runnable enough
