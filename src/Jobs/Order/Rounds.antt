-- ===== src/Jobs/Order/Rounds.antt =====
-- The events of the loop of `executeCommandsInQueue`, and of what follows it.
use mathlib.Core.Path.{subst}
use mathlib.Core.List.{append_assoc}
use redshell.Alias.Table.{HashTable}
use redshell.Alias.{Alias}
use redshell.Base.{
  ℕ, ◌+◌, ◌-◌, ◌≡◌, refl, some, List, [], ◌∷◌, ◌++◌, length, if◌then◌else◌, Run, ok, fault, ◌>>=◌,
  ◌∙◌, ap, ◌||◌, Bool-cases, inl, inr,
}
use redshell.Builtins.{Environment}
use redshell.Command.{Command, is_pipe}
use redshell.Jobs.Loop.{
  Frame, Fixed, Step, on, over, in_frame, settle_last, redirect_in, redirect_out, then_step,
  forked_single, runs_here, run_single, dup_both, run_command, run_commands, run_piped,
  forked_piped, returned_zero,
}
use redshell.Jobs.Order.Goes.{
  Goes, then_step-Goes, bind-Goes, over-Goes, if-Goes, test-Goes, Unlogged, redirect_in-GoesOn,
  redirect_out-GoesOn,
}
use redshell.Jobs.Order.{
  Event, forked, Observed, waits, Schedule, finished, starts, log-dup2_open, log-settle_last,
  log-open_pipes, log-restore,
}
use redshell.Jobs.{
  Forked, child, parent, System, with_state, execute_command, single_child, piped_child, open_pipes,
  was_pipe,
}

module _ (h : HashTable Alias) (env : Environment) (sys : System env)
    (seen : Observed env sys) where
  open env use {State}
  open sys use {fork, open_read, open_write}
  open seen use {log, log-open_read, log-open_write, log-fork}

  -- a process is started, and nothing is waited for
  abbrev Started : List Event → Frame h env sys → Type 0
  Started before g = log g.world.state ≡ before ++ forked g.pid ∷ []

  forked_single-Goes :
      (x : Fixed h env sys) (cmd : Command) (f : Frame h env sys) (r : Forked × State)
      → fork f.world.state ≡ r
      → Goes h env sys (Started (log f.world.state)) (forked_single h env sys x cmd f r)
  unfolding forked_single
  forked_single-Goes x cmd f (child, s) made =
      over-Goes h env sys (Started (log f.world.state)) (single_child h env sys cmd _)
        (λ done. done) f.fg_pid
  forked_single-Goes x cmd f (parent pid, s) made =
      log-restore h env sys seen x s ∙ log-fork f.world.state s pid made

  forked_piped-Goes :
      (x : Fixed h env sys) (i : ℕ) (cmd : Command) (f : Frame h env sys) (r : Forked × State)
      → fork f.world.state ≡ r
      → Goes h env sys (Started (log f.world.state)) (forked_piped h env sys x i cmd f r)
  unfolding forked_piped
  forked_piped-Goes x i cmd f (child, s) made =
      over-Goes h env sys (Started (log f.world.state))
        (piped_child h env sys f.pipes x.n_commands i f.last_command cmd
          (with_state h env sys f.world s))
        (λ done. done) f.fg_pid
  forked_piped-Goes x i cmd f (parent pid, s) made = log-fork f.world.state s pid made

  run_piped-Goes :
      (x : Fixed h env sys) (i : ℕ) (cmd : Command) (f : Frame h env sys)
      → Goes h env sys (Started (log f.world.state)) (run_piped h env sys x i cmd f)
  unfolding run_piped
  run_piped-Goes x i cmd f = elim (Bool-cases (was_pipe h env sys f.last_command)) [
    | inl piped ↦ rw piped (forked_piped-Goes x i cmd f _ refl)
    | inr first ↦
        let made = open_pipes h env sys (x.n_commands - 1) 0 f.pipes f.world.state in
        let opened : Frame h env sys = record (in_frame h env sys f made.1) { pipes = made.0 } in
        let quiet : log made.1 ≡ log f.world.state =
          log-open_pipes h env sys seen (x.n_commands - 1) 0 f.pipes f.world.state in
        rw first (
          subst
            (λ before.
              Goes h env sys (Started before) (forked_piped h env sys x i cmd opened (fork made.1)))
            quiet (forked_piped-Goes x i cmd opened (fork made.1) refl))
  ]

  run_single-Goes :
      (x : Fixed h env sys) (cmd : Command) (left : ℕ) (f : Frame h env sys)
      → Goes h env sys (Started (log f.world.state)) (run_single h env sys x cmd left f)
  unfolding run_single
  run_single-Goes x cmd left f =
      test-Goes h env sys (Started (log f.world.state)) (runs_here h env sys cmd left) _ _
        (over-Goes h env sys (Started (log f.world.state)) (execute_command h env sys cmd f.world)
          (returned_zero h env sys) f.fg_pid)
        (forked_single-Goes x cmd f (fork f.world.state) refl)

  -- what a round adds to the log
  abbrev Ran : Frame h env sys → Command → Frame h env sys → Type 0
  Ran f cmd g =
      (log g.world.state
        ≡ log f.world.state ++ (waits h env sys seen f.last_command f.pid ++ forked g.pid ∷ []))
      × (g.last_command ≡ some cmd)

  settled_run-Goes :
      (x : Fixed h env sys) (i : ℕ) (cmd : Command) (left : ℕ) (f k : Frame h env sys)
      → Unlogged h env sys seen f (waits h env sys seen f.last_command f.pid) k
      → Goes h env sys (Ran f cmd) (
          (if was_pipe h env sys k.last_command || is_pipe cmd.connection_mask
            then run_piped h env sys x i cmd (dup_both h env sys k)
            else run_single h env sys x cmd left (dup_both h env sys k))
          >>= λ step.
              then_step h env sys step (λ g. ok (on (record g { last_command = some cmd }))))
  settled_run-Goes x i cmd left f k unlogged =
      let k' = dup_both h env sys k in
      let before = waits h env sys seen f.last_command f.pid in
      let quiet : log k'.world.state ≡ log f.world.state ++ before =
        log-dup2_open h env sys seen k.fd_out 1 _
        ∙ log-dup2_open h env sys seen k.fd_in 0 k.world.state
        ∙ unlogged.0 in
      bind-Goes h env sys (Started (log k'.world.state)) (Ran f cmd) _ _
        (if-Goes h env sys (Started (log k'.world.state)) _ _ (run_piped-Goes x i cmd k')
          (run_single-Goes x cmd left k')
          (was_pipe h env sys k.last_command || is_pipe cmd.connection_mask))
        (λ g started. (
          started
              ∙ ap (λ events. events ++ forked g.pid ∷ []) quiet
              ∙ append_assoc (log f.world.state) before (forked g.pid ∷ []),
          refl,
        ))

  run_command-Goes :
      (x : Fixed h env sys) (i : ℕ) (cmd : Command) (left : ℕ) (f : Frame h env sys)
      → Goes h env sys (Ran f cmd) (run_command h env sys x i cmd left f)
  unfolding run_command settle_last
  run_command-Goes x i cmd left f =
      let before = waits h env sys seen f.last_command f.pid in
      let P = Unlogged h env sys seen f before in
      then_step-Goes h env sys P (Ran f cmd)
        (redirect_in h env sys cmd.redirect_from_path (settle_last h env sys f)) _
        (redirect_in-GoesOn h env sys seen _ f (settle_last h env sys f) before
          (log-settle_last h env sys seen f, (refl, (refl, refl))))
        (λ g unlogged.
          then_step-Goes h env sys P (Ran f cmd) (redirect_out h env sys cmd.redirect_to_path g) _
            (redirect_out-GoesOn h env sys seen _ f g before unlogged)
            (λ k unlogged'. settled_run-Goes x i cmd left f k unlogged'))

  -- what the rounds and the wait behind them add to the log
  abbrev pub Scheduled : Frame h env sys → List Command → Frame h env sys → Type 0
  Scheduled f cmds g =
      (events : List Event) × Schedule h env sys seen f.last_command f.pid cmds events
      × (log g.world.state ++ waits h env sys seen g.last_command g.pid
          ≡ log f.world.state ++ events)

  Scheduled-more :
      (f : Frame h env sys) (cmd : Command) (cmds : List Command) (g k : Frame h env sys)
      → Ran f cmd g
      → Scheduled g cmds k
      → Scheduled f (cmd ∷ cmds) k
  Scheduled-more f cmd cmds g k ran (events, schedule, logged) = (
    _,
    starts f.last_command f.pid cmd cmds g.pid events
        (subst (λ last. Schedule h env sys seen last g.pid cmds events) ran.1 schedule),
    logged
        ∙ ap (λ before. before ++ events) ran.0
        ∙ append_assoc (log f.world.state) _ events
        ∙ ap (λ more. log f.world.state ++ more)
            (append_assoc (waits h env sys seen f.last_command f.pid) (forked g.pid ∷ []) events),
  )

  pub run_commands-Goes :
      (x : Fixed h env sys) (i : ℕ) (cmds : List Command) (f : Frame h env sys)
      → Goes h env sys (Scheduled f cmds) (run_commands h env sys x i cmds f)
  unfolding run_commands
  run_commands-Goes x i [] f = (_, finished f.last_command f.pid, refl)
  run_commands-Goes x i (cmd ∷ more) f =
      bind-Goes h env sys (Ran f cmd) (Scheduled f (cmd ∷ more)) _ _
        (run_command-Goes x i cmd (length more) f)
        (λ g ran.
          weaken g ran (run_commands h env sys x (i + 1) more g)
            (run_commands-Goes x (i + 1) more g))
    where
      weaken :
          (g : Frame h env sys)
          → Ran f cmd g
          → (run : Run (Step h env sys)) → Goes h env sys (Scheduled g more) run
          → Goes h env sys (Scheduled f (cmd ∷ more)) run
      weaken g ran (fault e) holds = tt
      weaken g ran (ok (over done fg)) holds = tt
      weaken g ran (ok (on k)) holds = Scheduled-more f cmd more g k ran holds
