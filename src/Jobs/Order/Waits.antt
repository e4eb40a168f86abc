-- ===== src/Jobs/Order/Waits.antt =====
-- The waits behind the loop of `executeCommandsInQueue`, and the order of all of its events.
use mathlib.Core.Path.{subst}
use mathlib.Core.List.{append_assoc, append-nil}
use redshell.Alias.Table.{HashTable}
use redshell.Alias.{Alias}
use redshell.Base.{
  ℕ, zero, suc, ◌+◌, ◌≡◌, refl, Option, none, List, [], ◌∷◌, ◌++◌, length, Run, ok, fault, ◌>>=◌,
  ◌∙◌, ap, sym, Bool-cases, inl, inr,
}
use redshell.Builtins.{Environment, World, success}
use redshell.Command.{Command}
use redshell.Jobs.Loop.{
  Frame, Fixed, on, run_commands, waits_again, wait_again, wait_all, restore, finish,
  execute_commands_in_queue, fixed_for, first_frame,
}
use redshell.Jobs.Order.Goes.{Goes}
use redshell.Jobs.Order.Rounds.{Scheduled, run_commands-Goes}
use redshell.Jobs.Order.{Event, waited, Observed, waits, Schedule, log-wait_for, log-restore}
use redshell.Jobs.{System, Done, gave, with_state, close_pipes, wait_for, Pipes}

-- one or more waits for a process
pub data Again (pid : Option ℕ) : List Event → Type 0 where
  once : Again pid (waited pid ∷ [])
  once_more : (events : List Event) → Again pid events → Again pid (waited pid ∷ events)

-- the waits for the processes of an array, from one on, each once or more
pub data Awaited (launched : ℕ → Option ℕ) : ℕ → ℕ → List Event → Type 0 where
  awaited_all : (i : ℕ) → Awaited launched i 0 []
  awaits :
      (i left : ℕ) (events events' : List Event)
      → Again (launched i) events
      → Awaited launched (i + 1) left events'
      → Awaited launched i (suc left) (events ++ events')

module _ (h : HashTable Alias) (env : Environment) (sys : System env)
    (seen : Observed env sys) where
  open env use {State}
  open sys use {waitpid}
  open seen use {log, log-dup, log-close, log-waitpid}

  -- where the run returns, what it adds to the log
  abbrev Logs : State → (List Event → Type 0) → Run State → Type 0
  Logs s P (fault e) = Unit
  Logs s P (ok s') = (events : List Event) × P events × (log s' ≡ log s ++ events)

  log-close_pipes :
      (p : Pipes h env sys) (i count : ℕ) (s : State)
      → log (close_pipes h env sys p i count s) ≡ log s
  unfolding close_pipes
  log-close_pipes p i zero s = refl
  log-close_pipes p i (suc count) s = log-close_pipes p (i + 1) count _ ∙ log-close s (p.cells i)

  Logs-before :
      (s s' : State) (e : Event) (P Q : List Event → Type 0) (run : Run State)
      → log s' ≡ log s ++ e ∷ []
      → ((events : List Event) → P events → Q (e ∷ events))
      → Logs s' P run
      → Logs s Q run
  Logs-before s s' e P Q (fault _) logged more holds = tt
  Logs-before s s' e P Q (ok s'') logged more (events, holds, logged') = (
    _,
    more events holds,
    logged' ∙ ap (λ before. before ++ events) logged ∙ append_assoc (log s) (e ∷ []) events,
  )

  wait_again-Again :
      (rounds : ℕ) (pid : Option ℕ) (s : State)
      → Logs s (Again pid) (wait_again h env sys rounds pid s)
  unfolding wait_again
  wait_again-Again zero pid s = tt
  wait_again-Again (suc rounds) pid s =
      let rest = wait_again h env sys rounds pid (waitpid s pid).1 in
      elim (Bool-cases (waits_again (waitpid s pid).0)) [
        | inl interrupted ↦ rw interrupted (
            Logs-before s (waitpid s pid).1 (waited pid) (Again pid) (Again pid) rest
              (log-waitpid s pid) (λ events again. once_more events again)
              (wait_again-Again rounds pid (waitpid s pid).1))
        | inr done ↦ rw done (_, once, log-waitpid s pid)
      ]

  Logs-bind :
      (s : State) (P Q R : List Event → Type 0) (run : Run State) (k : State → Run State)
      → ((events events' : List Event) → P events → Q events' → R (events ++ events'))
      → Logs s P run
      → ((s' : State) → Logs s' Q (k s'))
      → Logs s R (run >>= k)
  Logs-bind s P Q R (fault e) k both logs next = tt
  Logs-bind s P Q R (ok s') k both (events, holds, logged) next = joined (k s') (next s')
    where
      joined : (run : Run State) → Logs s' Q run → Logs s R run
      joined (fault e) logs = tt
      joined (ok s'') (events', holds', logged') = (
        _,
        both events events' holds holds',
        logged' ∙ ap (λ before. before ++ events') logged ∙ append_assoc (log s) events events',
      )

  wait_all-Awaited :
      (rounds : ℕ) (launched : ℕ → Option ℕ) (i left : ℕ) (s : State)
      → Logs s (Awaited launched i left) (wait_all h env sys rounds launched i left s)
  unfolding wait_all
  wait_all-Awaited rounds launched i zero s = ([], awaited_all i, sym (append-nil (log s)))
  wait_all-Awaited rounds launched i (suc left) s =
      Logs-bind s (Again (launched i)) (Awaited launched (i + 1) left)
        (Awaited launched i (suc left)) (wait_again h env sys rounds (launched i) s) _
        (λ events events' again all. awaits i left events events' again all)
        (wait_again-Again rounds (launched i) s)
        (λ s'. wait_all-Awaited rounds launched (i + 1) left s')

  abbrev pub Finished :
      Frame h env sys → Fixed h env sys → Run (Done h env sys × Option (Option ℕ)) → Type 0
  Finished g x (fault e) = Unit
  Finished g x (ok (done, fg)) =
      (fg ≡ none)
      × ((w : World h env) × (done ≡ gave success w)
          × ((tail : List Event) × Awaited g.launched 0 x.n_commands tail
              × (log w.state
                  ≡ (log g.world.state ++ waits h env sys seen g.last_command g.pid) ++ tail)))

  pub finish-Finished :
      (rounds : ℕ) (x : Fixed h env sys) (g : Frame h env sys)
      → Finished g x (finish h env sys rounds x (on g))
  unfolding finish
  finish-Finished rounds x g =
      let s = close_pipes h env sys g.pipes 0 g.pipes.size g.world.state in
      let s' = wait_for h env sys g.last_command g.pid (restore h env sys x s) in
      let quiet : log s' ≡ log g.world.state ++ waits h env sys seen g.last_command g.pid =
        log-wait_for h env sys seen g.last_command g.pid _
        ∙ ap (λ before. before ++ waits h env sys seen g.last_command g.pid)
            (log-restore h env sys seen x s
              ∙ log-close_pipes g.pipes 0 g.pipes.size g.world.state) in
      waited_all s' quiet (wait_all h env sys rounds g.launched 0 x.n_commands s')
        (wait_all-Awaited rounds g.launched 0 x.n_commands s')
    where
      waited_all :
          (s' : State)
          → log s' ≡ log g.world.state ++ waits h env sys seen g.last_command g.pid
          → (run : Run State) → Logs s' (Awaited g.launched 0 x.n_commands) run
          → Finished g x (run >>= λ s. ok (gave success (with_state h env sys g.world s), none))
      waited_all s' quiet (fault e) logs = tt
      waited_all s' quiet (ok s) (tail, all, logged) =
          (refl, (_, refl, (tail, all, logged ∙ ap (λ before. before ++ tail) quiet)))

  loop-Schedule :
      (rounds : ℕ) (x : Fixed h env sys) (cmds : List Command) (f g : Frame h env sys)
      (done : Done h env sys) (fg : Option (Option ℕ))
      → run_commands h env sys x 0 cmds f ≡ ok (on g)
      → finish h env sys rounds x (on g) ≡ ok (done, fg)
      → (fg ≡ none)
        × ((w : World h env) × (done ≡ gave success w)
            × ((events tail : List Event) × Schedule h env sys seen f.last_command f.pid cmds events
                × Awaited g.launched 0 x.n_commands tail
                × (log w.state ≡ log f.world.state ++ (events ++ tail))))
  loop-Schedule rounds x cmds f g done fg runs ends =
      let (events, schedule, logged) =
        subst (Goes h env sys (Scheduled h env sys seen f cmds)) runs
          (run_commands-Goes h env sys seen x 0 cmds f) in
      let (idle, (w, gave_it, (tail, all, logged'))) =
        subst (Finished g x) ends (finish-Finished rounds x g) in
      (
        idle,
        (
          w,
          gave_it,
          (
            events,
            tail,
            schedule,
            all,
            logged'
                ∙ ap (λ before. before ++ tail) logged
                ∙ append_assoc (log f.world.state) events tail,
          ),
        ),
      )

  -- Where the loop over a queue that has a command goes through in the parent, and
  -- `execute_commands_in_queue` returns, it gives back 0 and `fg_pid` is 0. The calls of `fork` and of
  -- `waitpid` it made are, in this order: one `fork` for each command, in the order of the queue, and
  -- behind the `fork` of a command that runs in the foreground and has no pipe behind it, before
  -- anything else, the wait for its process, where there is one; then one or more waits for each
  -- entry of `launched`, in the order of the array.
  pub execute_commands_in_queue-Schedule :
      (rounds : ℕ) (pipes launched : ℕ → Option ℕ) (cmd : Command) (more : List Command)
      (fg fg' : Option (Option ℕ)) (w : World h env) (g : Frame h env sys) (done : Done h env sys)
      → run_commands h env sys
          (fixed_for h env sys (cmd ∷ more) w)
          0
          (cmd ∷ more)
          (first_frame h env sys pipes launched (cmd ∷ more) fg w)
        ≡ ok (on g)
      → execute_commands_in_queue h env sys rounds pipes launched (cmd ∷ more) fg w ≡ ok (done, fg')
      → (fg' ≡ none)
        × ((w' : World h env) × (done ≡ gave success w')
            × ((events tail : List Event) × Schedule h env sys seen none none (cmd ∷ more) events
                × Awaited g.launched 0 (length (cmd ∷ more)) tail
                × (log w'.state ≡ log w.state ++ (events ++ tail))))
  unfolding execute_commands_in_queue
  execute_commands_in_queue-Schedule rounds pipes launched cmd more fg fg' w g done runs ends =
      let x = fixed_for h env sys (cmd ∷ more) w in
      let f = first_frame h env sys pipes launched (cmd ∷ more) fg w in
      let quiet : log f.world.state ≡ log w.state =
        log-dup (sys.dup w.state 0).1 1 ∙ log-dup w.state 0 in
      let behind : finish h env sys rounds x (on g) ≡ ok (done, fg') =
        ap (λ run. run >>= finish h env sys rounds x) (sym runs) ∙ ends in
      let (idle, (w', gave_it, (events, tail, schedule, all, logged))) =
        loop-Schedule rounds x (cmd ∷ more) f g done fg' runs behind in
      (
        idle,
        (
          w',
          gave_it,
          (events, tail, schedule, all, logged ∙ ap (λ before. before ++ (events ++ tail)) quiet),
        ),
      )
