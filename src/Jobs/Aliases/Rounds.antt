-- ===== src/Jobs/Aliases/Rounds.antt =====
-- The aliases over the rounds of `executeCommandsInQueue`, in each of its processes.
use redshell.Alias.Table.{HashTable}
use redshell.Alias.{Alias, add_alias, remove_alias}
use redshell.Base.{
  ℕ, ◌+◌, ◌-◌, Option, none, some, List, [], ◌∷◌, Bytes, length, Run, ok, ◌>>=◌, ◌||◌, Bool-cases,
  inl, inr, IfOk, bind-IfOk, if-IfOk, always-IfOk,
}
use redshell.Builtins.{Environment, World}
use redshell.Command.{Command, is_pipe}
use redshell.Jobs.Aliases.{DoneWith, execute_command-Keeps, single_child-Keeps, piped_child-Keeps}
use redshell.Jobs.Loop.{
  Frame, Fixed, Step, on, over, in_frame, settle_last, opened_in, redirect_in, opened_out,
  redirect_out, then_step, forked_single, runs_here, run_single, dup_both, run_command,
  run_commands, run_piped, forked_piped, returned_zero, finish, wait_all, execute_commands_in_queue,
  fixed_for, first_frame,
}
use redshell.Jobs.{
  Forked, child, parent, System, Done, gave, gone, became, execute_command, open_pipes, was_pipe,
  with_state,
}

module _ (h : HashTable Alias) (env : Environment) (P : h.Table → Type 0)
    (adds : (t : h.Table) (key value : Bytes) → P t → P (add_alias h t key value))
    (removes : (t : h.Table) (key : Bytes) → P t → P (remove_alias h t key))
    (sys : System env) where
  open env use {State}
  open sys use {fork, open_read, open_write}

  abbrev Ends : Done h env sys → Type 0
  Ends = DoneWith h env P sys

  abbrev FrameWith : Frame h env sys → Type 0
  FrameWith f = P f.world.aliases

  abbrev StepWith : Step h env sys → Type 0
  StepWith (on f) = FrameWith f
  StepWith (over done fg) = Ends done

  then_step-Keeps :
      (step : Step h env sys) (k : Frame h env sys → Run (Step h env sys))
      → StepWith step
      → ((g : Frame h env sys) → FrameWith g → IfOk StepWith (k g))
      → IfOk StepWith (then_step h env sys step k)
  then_step-Keeps (on g) k holds next = next g holds
  then_step-Keeps (over done fg) k holds next = holds

  redirect_in-StepWith :
      (path : Option Bytes) (f : Frame h env sys)
      → FrameWith f
      → StepWith (redirect_in h env sys path f)
  unfolding redirect_in opened_in
  redirect_in-StepWith none f holds = holds
  redirect_in-StepWith (some path) f holds = opened (open_read f.world.state path)
    where
      opened : (r : Option ℕ × State) → StepWith (opened_in h env sys path f r)
      opened (none, s) = holds
      opened (some fd, s) = holds

  redirect_out-StepWith :
      (path : Option Bytes) (f : Frame h env sys)
      → FrameWith f
      → StepWith (redirect_out h env sys path f)
  unfolding redirect_out opened_out
  redirect_out-StepWith none f holds = holds
  redirect_out-StepWith (some path) f holds = opened (open_write f.world.state path)
    where
      opened : (r : Option ℕ × State) → StepWith (opened_out h env sys path f r)
      opened (none, s) = holds
      opened (some fd, s) = holds

  over-Keeps :
      (run : Run (Done h env sys)) (fg : Option (Option ℕ))
      → IfOk Ends run
      → IfOk StepWith (run >>= λ done. ok (over done fg))
  over-Keeps run fg holds = bind-IfOk Ends StepWith run _ holds (λ done ends. ends)

  forked_single-Keeps :
      (x : Fixed h env sys) (cmd : Command) (f : Frame h env sys) (r : Forked × State)
      → FrameWith f
      → IfOk StepWith (forked_single h env sys x cmd f r)
  unfolding forked_single
  forked_single-Keeps x cmd f (child, s) holds =
      over-Keeps _ f.fg_pid (single_child-Keeps h env P adds removes sys cmd _ holds)
  forked_single-Keeps x cmd f (parent pid, s) holds = holds

  forked_piped-Keeps :
      (x : Fixed h env sys) (i : ℕ) (cmd : Command) (f : Frame h env sys) (r : Forked × State)
      → FrameWith f
      → IfOk StepWith (forked_piped h env sys x i cmd f r)
  unfolding forked_piped
  forked_piped-Keeps x i cmd f (child, s) holds = over-Keeps _ f.fg_pid (
      piped_child-Keeps h env P adds removes sys f.pipes x.n_commands i f.last_command cmd
        (with_state h env sys f.world s) holds)
  forked_piped-Keeps x i cmd f (parent pid, s) holds = holds

  run_piped-Keeps :
      (x : Fixed h env sys) (i : ℕ) (cmd : Command) (f : Frame h env sys)
      → FrameWith f
      → IfOk StepWith (run_piped h env sys x i cmd f)
  unfolding run_piped
  run_piped-Keeps x i cmd f holds =
      let made = open_pipes h env sys (x.n_commands - 1) 0 f.pipes f.world.state in
      let opened : Frame h env sys = record (in_frame h env sys f made.1) { pipes = made.0 } in
      elim (Bool-cases (was_pipe h env sys f.last_command)) [
        | inl piped ↦ rw piped (forked_piped-Keeps x i cmd f (fork f.world.state) holds)
        | inr first ↦ rw first (forked_piped-Keeps x i cmd opened (fork made.1) holds)
      ]

  returned_zero-Ends : (done : Done h env sys) → Ends done → Ends (returned_zero h env sys done)
  returned_zero-Ends (gave status w) holds = holds
  returned_zero-Ends (gone w) holds = holds
  returned_zero-Ends (became w) holds = holds

  run_single-Keeps :
      (x : Fixed h env sys) (cmd : Command) (left : ℕ) (f : Frame h env sys)
      → FrameWith f
      → IfOk StepWith (run_single h env sys x cmd left f)
  unfolding run_single
  run_single-Keeps x cmd left f holds =
      bind-IfOk (λ _. Unit {0}) StepWith (runs_here h env sys cmd left) _
        (always-IfOk (λ _. Unit {0}) _ (λ _. tt))
        (λ here _.
          if-IfOk StepWith _ _
            (bind-IfOk Ends StepWith (execute_command h env sys cmd f.world) _
              (execute_command-Keeps h env P adds removes sys cmd f.world holds) returned_zero-Ends)
            (forked_single-Keeps x cmd f (fork f.world.state) holds) here)

  run_command-Keeps :
      (x : Fixed h env sys) (i : ℕ) (cmd : Command) (left : ℕ) (f : Frame h env sys)
      → FrameWith f
      → IfOk StepWith (run_command h env sys x i cmd left f)
  unfolding run_command settle_last
  run_command-Keeps x i cmd left f holds =
      then_step-Keeps (redirect_in h env sys cmd.redirect_from_path (settle_last h env sys f)) _
        (redirect_in-StepWith _ (settle_last h env sys f) holds)
        (λ g g_holds.
          then_step-Keeps (redirect_out h env sys cmd.redirect_to_path g) _
            (redirect_out-StepWith _ g g_holds)
            (λ k k_holds.
              bind-IfOk StepWith StepWith _ _
                (if-IfOk StepWith _ _ (run_piped-Keeps x i cmd (dup_both h env sys k) k_holds)
                  (run_single-Keeps x cmd left (dup_both h env sys k) k_holds)
                  (was_pipe h env sys k.last_command || is_pipe cmd.connection_mask))
                (λ step step_holds. then_step-Keeps step _ step_holds (λ m m_holds. m_holds))))

  run_commands-Keeps :
      (x : Fixed h env sys) (i : ℕ) (cmds : List Command) (f : Frame h env sys)
      → FrameWith f
      → IfOk StepWith (run_commands h env sys x i cmds f)
  unfolding run_commands
  run_commands-Keeps x i [] f holds = holds
  run_commands-Keeps x i (cmd ∷ more) f holds =
      bind-IfOk StepWith StepWith (run_command h env sys x i cmd (length more) f) _
        (run_command-Keeps x i cmd (length more) f holds)
        (λ step step_holds.
          then_step-Keeps step _ step_holds
            (λ g g_holds. run_commands-Keeps x (i + 1) more g g_holds))

  finish-Keeps :
      (rounds : ℕ) (x : Fixed h env sys) (step : Step h env sys)
      → StepWith step
      → IfOk (λ r. Ends r.0) (finish h env sys rounds x step)
  unfolding finish
  finish-Keeps rounds x (over done fg) holds = holds
  finish-Keeps rounds x (on f) holds =
      bind-IfOk (λ _. Unit {0}) (λ r. Ends r.0)
        (wait_all h env sys rounds f.launched 0 x.n_commands _) _
        (always-IfOk (λ _. Unit {0}) _ (λ _. tt)) (λ s _. holds)

  -- a property of the aliases that adding and removing an alias keeps
  pub execute_commands_in_queue-Keeps :
      (rounds : ℕ) (pipes launched : ℕ → Option ℕ) (cmds : List Command) (fg : Option (Option ℕ))
      (w : World h env)
      → P w.aliases
      → IfOk
          (λ r. DoneWith h env P sys r.0)
          (execute_commands_in_queue h env sys rounds pipes launched cmds fg w)
  unfolding execute_commands_in_queue
  execute_commands_in_queue-Keeps rounds pipes launched [] fg w holds = holds
  execute_commands_in_queue-Keeps rounds pipes launched (cmd ∷ more) fg w holds =
      let x = fixed_for h env sys (cmd ∷ more) w in
      bind-IfOk StepWith (λ r. Ends r.0)
        (run_commands h env sys x 0 (cmd ∷ more)
          (first_frame h env sys pipes launched (cmd ∷ more) fg w))
        _
        (run_commands-Keeps x 0 (cmd ∷ more)
          (first_frame h env sys pipes launched (cmd ∷ more) fg w) holds)
        (finish-Keeps rounds x)
