-- ===== src/Jobs/Order/Pipeline/Whole.antt =====
-- All rounds of a pipeline, and the waits behind them.
use mathlib.Core.Path.{subst}
use mathlib.Core.List.{append_assoc, append-nil}
use redshell.Alias.Table.{HashTable}
use redshell.Alias.{Alias}
use redshell.Base.{
  ℕ, suc, ◌+◌, ◌<◌, ◌≡◌, refl, arith, true, false, Option, some, List, [], ◌∷◌, ◌++◌, map, length,
  Run, ok, fault, ◌>>=◌, ◌∙◌, ap, sym, ◌||◌,
}
use redshell.Builtins.{Environment, World, success}
use redshell.Command.{Command, is_pipe}
use redshell.Jobs.Loop.{
  Frame, Fixed, Step, on, over, run_command, run_commands, finish, execute_commands_in_queue,
  fixed_for, first_frame,
}
use redshell.Jobs.Order.Pipeline.{
  AwaitsEach, IsPipeline, AtPlaces, Awaited-each, launch_at-same, launch_at-below, RanPiped,
  run_command-RanPiped,
}
use redshell.Jobs.Order.Goes.{Goes, bind-Goes}
use redshell.Jobs.Order.Waits.{Awaited, Finished, finish-Finished}
use redshell.Jobs.Order.{Event, forked, Observed, waits}
use redshell.Jobs.{System, Done, gave, was_pipe, to_wait}

-- the processes that a pipeline's commands are started as
abbrev pub forks : List (Option ℕ) → List Event
forks = map forked

module _ (h : HashTable Alias) (env : Environment) (sys : System env)
    (seen : Observed env sys) where
  open seen use {log, log-dup}

  -- the processes of the commands, in the log and in the array
  abbrev AllLaunched : Frame h env sys → ℕ → List Command → Frame h env sys → Type 0
  AllLaunched f i cmds g =
      (pids : List (Option ℕ)) × (length pids ≡ length cmds)
      × (log g.world.state ≡ log f.world.state ++ forks pids)
      × AtPlaces g.launched i pids
      × ((j : ℕ) → j < i → g.launched j ≡ f.launched j)

  AllLaunched-more :
      (f m g : Frame h env sys) (i : ℕ) (cmd : Command) (cmds : List Command)
      → RanPiped h env sys seen f i cmd m
      → AllLaunched m (i + 1) cmds g
      → AllLaunched f i (cmd ∷ cmds) g
  AllLaunched-more f m g i cmd cmds (logged, (array, last)) (pids, same, logged', at, below) = (
    m.pid ∷ pids,
    ap (λ n. suc n) same,
    logged'
        ∙ ap (λ before. before ++ forks pids) logged
        ∙ append_assoc (log f.world.state) (forked m.pid ∷ []) (forks pids),
    (
      below i (omega arith)
          ∙ ap (λ a. a i) array
          ∙ launch_at-same h env sys seen f.launched i m.pid,
      at,
    ),
    λ j less.
        below j (omega arith)
        ∙ ap (λ a. a j) array
        ∙ launch_at-below h env sys seen f.launched i m.pid j less,
  )

  more-Goes :
      (f m : Frame h env sys) (i : ℕ) (cmd : Command) (cmds : List Command)
      (run : Run (Step h env sys))
      → RanPiped h env sys seen f i cmd m
      → Goes h env sys (AllLaunched m (i + 1) cmds) run
      → Goes h env sys (AllLaunched f i (cmd ∷ cmds)) run
  more-Goes f m i cmd cmds (fault e) ran goes = tt
  more-Goes f m i cmd cmds (ok (over done fg)) ran goes = tt
  more-Goes f m i cmd cmds (ok (on g)) ran goes = AllLaunched-more f m g i cmd cmds ran goes

  piped-going :
      (c : Command) → is_pipe c.connection_mask ≡ true → to_wait h env sys (some c) ≡ false
  piped-going c piped = rw piped

  run_commands-AllLaunched :
      (x : Fixed h env sys) (i : ℕ) (cmd : Command) (more : List Command) (f : Frame h env sys)
      → IsPipeline (cmd ∷ more)
      → to_wait h env sys f.last_command ≡ false
      → (was_pipe h env sys f.last_command || is_pipe cmd.connection_mask) ≡ true
      → Goes h env sys (AllLaunched f i (cmd ∷ more)) (run_commands h env sys x i (cmd ∷ more) f)
  unfolding run_commands
  run_commands-AllLaunched x i cmd [] f pipeline going piped =
      bind-Goes h env sys (RanPiped h env sys seen f i cmd) (AllLaunched f i (cmd ∷ [])) _ _
        (run_command-RanPiped h env sys seen x i cmd 0 f going piped)
        (λ g ran.
          AllLaunched-more f g g i cmd [] ran
            ([], refl, sym (append-nil (log g.world.state)), tt, λ j less. refl))
  run_commands-AllLaunched x i cmd (next_cmd ∷ more) f pipeline going piped =
      bind-Goes h env sys (RanPiped h env sys seen f i cmd)
        (AllLaunched f i (cmd ∷ next_cmd ∷ more))
        (run_command h env sys x i cmd (length (next_cmd ∷ more)) f) _
        (run_command-RanPiped h env sys seen x i cmd (length (next_cmd ∷ more)) f going piped)
        (λ g ran.
          more-Goes f g i cmd (next_cmd ∷ more)
            (run_commands h env sys x (i + 1) (next_cmd ∷ more) g) ran
            (run_commands-AllLaunched x (i + 1) next_cmd more g pipeline.1
              (ap (to_wait h env sys) ran.1.1 ∙ piped-going cmd pipeline.0)
              (ap (λ c. was_pipe h env sys c || is_pipe next_cmd.connection_mask) ran.1.1
                ∙ rw pipeline.0)))

  loop-pipeline :
      (rounds : ℕ) (x : Fixed h env sys) (cmds : List Command) (f g : Frame h env sys)
      (r : Done h env sys × Option (Option ℕ))
      → x.n_commands ≡ length cmds
      → AllLaunched f 0 cmds g
      → Finished h env sys seen g x (ok r)
      → (w : World h env) × (r.0 ≡ gave success w)
        × ((pids : List (Option ℕ)) × (tail : List Event) × (length pids ≡ length cmds)
            × AwaitsEach pids tail
            × (log w.state
                ≡ log f.world.state
                  ++ (forks pids ++ (waits h env sys seen g.last_command g.pid ++ tail))))
  loop-pipeline rounds x cmds f g r n (pids, same, logged, at, below)
        (idle, (w, gave_it, (tail, all, logged'))) =
      (
        w,
        gave_it,
        (
          pids,
          tail,
          same,
          Awaited-each g.launched 0 pids tail at
              (subst (λ n. Awaited g.launched 0 n tail) (n ∙ sym same) all),
          logged'
              ∙ ap (λ before. (before ++ waits h env sys seen g.last_command g.pid) ++ tail) logged
              ∙ simp append_assoc,
        ),
      )

  -- On a queue of two commands or more that is one pipeline, where the loop goes through in the parent
  -- and `execute_commands_in_queue` returns, it gives back 0, and it has called `fork` once for each
  -- command before it waited for any; then it has waited for the last command, if it runs in the
  -- foreground and was started, and for each of the processes that the calls of `fork` returned, in
  -- their order.
  pub execute_commands_in_queue-AwaitsEach :
      (rounds : ℕ) (pipes launched : ℕ → Option ℕ) (cmd next_cmd : Command) (more : List Command)
      (fg fg' : Option (Option ℕ)) (w : World h env) (g : Frame h env sys) (done : Done h env sys)
      → IsPipeline (cmd ∷ next_cmd ∷ more)
      → run_commands h env sys
          (fixed_for h env sys (cmd ∷ next_cmd ∷ more) w)
          0
          (cmd ∷ next_cmd ∷ more)
          (first_frame h env sys pipes launched (cmd ∷ next_cmd ∷ more) fg w)
        ≡ ok (on g)
      → execute_commands_in_queue h env sys rounds pipes launched (cmd ∷ next_cmd ∷ more) fg w
        ≡ ok (done, fg')
      → (w' : World h env) × (done ≡ gave success w')
        × ((pids : List (Option ℕ)) × (tail : List Event) × (length pids
              ≡ length (cmd ∷ next_cmd ∷ more))
            × AwaitsEach pids tail
            × (log w'.state
                ≡ log w.state
                  ++ (forks pids ++ (waits h env sys seen g.last_command g.pid ++ tail))))
  unfolding execute_commands_in_queue
  execute_commands_in_queue-AwaitsEach rounds pipes launched cmd next_cmd more fg fg' w g done
        pipeline runs ends =
      let cmds = cmd ∷ next_cmd ∷ more in
      let x = fixed_for h env sys cmds w in
      let f = first_frame h env sys pipes launched cmds fg w in
      let all : AllLaunched f 0 cmds g =
        subst (Goes h env sys (AllLaunched f 0 cmds)) runs
          (run_commands-AllLaunched x 0 cmd (next_cmd ∷ more) f pipeline refl pipeline.0) in
      let behind : finish h env sys rounds x (on g) ≡ ok (done, fg') =
        ap (λ run. run >>= finish h env sys rounds x) (sym runs) ∙ ends in
      let finished =
        subst (Finished h env sys seen g x) behind (finish-Finished h env sys seen rounds x g) in
      let (w', gave_it, (pids, tail, same, all_awaited, logged)) =
        loop-pipeline rounds x cmds f g (done, fg') refl all finished in
      let quiet : log f.world.state ≡ log w.state =
        log-dup (sys.dup w.state 0).1 1 ∙ log-dup w.state 0 in
      (
        w',
        gave_it,
        (
          pids,
          tail,
          same,
          all_awaited,
          logged
              ∙ ap
                  (λ before.
                    before ++ (forks pids ++ (waits h env sys seen g.last_command g.pid ++ tail)))
                  quiet,
        ),
      )
