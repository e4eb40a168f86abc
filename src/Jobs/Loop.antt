-- ===== src/Jobs/Loop.antt =====
-- The loop of `executeCommandsInQueue` over the commands of the queue, and what follows it.
use redshell.Alias.Table.{HashTable}
use redshell.Alias.{Alias}
use redshell.Base.{
  ℕ, zero, suc, ◌+◌, ◌-◌, ◌*◌, Bool, true, false, ◌||◌, ◌&&◌, not, Option, none, some, List, [],
  ◌∷◌, ◌++◌, Bytes, length, ◌==◌, if◌then◌else◌, Run, out_of_fuel, ok, fault, ◌>>=◌,
}
use redshell.Builtins.{success, failure, Environment, World, is_builtin}
use redshell.Command.{Command, is_pipe, is_background}
use redshell.Jobs.{
  Errno, echild, eintr, another_errno, Waited, reaped, failed, Forked, child, parent, System, Done,
  gave, gone, became, with_state, execute_command, Pipes, close_pipes, open_pipes, was_pipe,
  wait_for, close_open, dup2_open, piped_child, single_child,
}

abbrev pub is_echild : Errno → Bool
is_echild echild = true
is_echild eintr = false
is_echild (another_errno n) = false

-- `waitpid(…) == -1 && errno != ECHILD`
unfoldable pub waits_again : Waited → Bool
waits_again (reaped pid) = false
waits_again (failed errno) = not (is_echild errno)

module _ (h : HashTable Alias) (env : Environment) (sys : System env) where
  open env use {State}
  open sys use {dup, dup2, open_read, open_write, close, fork, waitpid}

  -- the variables of the loop, and `fg_pid`
  pub record Frame : Type 0 where
    pub fd_in : Option ℕ
    pub fd_out : Option ℕ
    pub pid : Option ℕ
    pub last_command : Option Command
    pub launched : ℕ → Option ℕ
    pub pipes : Pipes h env sys
    -- none where it is 0, and the result of a `fork` otherwise
    pub fg_pid : Option (Option ℕ)
    pub world : World h env

  -- what `executeCommandsInQueue` sets once: `n_commands` and the copies of 0 and 1
  pub record Fixed : Type 0 where
    pub n_commands : ℕ
    pub stdin_copy : Option ℕ
    pub stdout_copy : Option ℕ

  -- after a command: the loop goes on, or the function or the process ended
  pub data Step : Type 0 where
    on : Frame → Step
    over : Done h env sys → Option (Option ℕ) → Step

  abbrev pub in_frame : Frame → State → Frame
  in_frame f s = record f { world = with_state h env sys f.world s }

  abbrev pub report : World h env → State → Bytes → World h env
  report w s path = record w { state = s; err = w.err ++ env.perror s (some path) }

  -- the command before is waited for, and its redirections are closed
  unfoldable pub settle_last : Frame → Frame
  unfolding wait_for
  settle_last f =
      let s = wait_for h env sys f.last_command f.pid f.world.state in
      let s = close_open h env sys f.fd_in s in
      let s = close_open h env sys f.fd_out s in
      record (in_frame f s) { fd_in = none; fd_out = none }

  unfoldable pub opened_in : Bytes → Frame → Option ℕ × State → Step
  opened_in path f (none, s) = over (gave failure (report f.world s path)) f.fg_pid
  opened_in path f (some fd, s) = on (record (in_frame f s) { fd_in = some fd })

  unfoldable pub redirect_in : Option Bytes → Frame → Step
  unfolding opened_in
  redirect_in none f = on f
  redirect_in (some path) f = opened_in path f (open_read f.world.state path)

  -- `if (fd_in == -1) close(fd_in);` before the function returns
  abbrev pub close_missing : Option ℕ → State → State
  close_missing none s = close s none
  close_missing (some fd) s = s

  unfoldable pub opened_out : Bytes → Frame → Option ℕ × State → Step
  opened_out path f (none, s) =
      let w = report f.world s path in
      over (gave failure (with_state h env sys w (close_missing f.fd_in w.state))) f.fg_pid
  opened_out path f (some fd, s) = on (record (in_frame f s) { fd_out = some fd })

  unfoldable pub redirect_out : Option Bytes → Frame → Step
  unfolding opened_out
  redirect_out none f = on f
  redirect_out (some path) f = opened_out path f (open_write f.world.state path)

  abbrev pub then_step : Step → (Frame → Run Step) → Run Step
  then_step (on f) k = k f
  then_step (over done fg) k = ok (over done fg)

  unfoldable pub launch_at : (ℕ → Option ℕ) → ℕ → Option ℕ → ℕ → Option ℕ
  launch_at launched i pid j = if j == i then pid else launched j

  unfoldable pub forked_piped : Fixed → ℕ → Command → Frame → Forked × State → Run Step
  unfolding piped_child launch_at
  forked_piped x i cmd f (child, s) = do
    done ←
        piped_child h env sys f.pipes x.n_commands i f.last_command cmd
          (with_state h env sys f.world s)
    ok (over done f.fg_pid)
  forked_piped x i cmd f (parent pid, s) = ok (
      on (record (in_frame f s) {
        pid = pid;
        launched = launch_at f.launched i pid;
        fg_pid = some pid;
      }))

  -- "Parte de um pipe"
  unfoldable pub run_piped : Fixed → ℕ → Command → Frame → Run Step
  unfolding open_pipes forked_piped
  run_piped x i cmd f =
      let made = open_pipes h env sys (x.n_commands - 1) 0 f.pipes f.world.state in
      let opened = record (in_frame f made.1) { pipes = made.0 } in
      let f' : Frame = if was_pipe h env sys f.last_command then f else opened in
      forked_piped x i cmd f' (fork f'.world.state)

  -- "Restore stdin and stdout"
  abbrev pub restore : Fixed → State → State
  restore x s = dup2 (dup2 s x.stdin_copy 0) x.stdout_copy 1

  unfoldable pub forked_single : Fixed → Command → Frame → Forked × State → Run Step
  unfolding single_child
  forked_single x cmd f (child, s) = do
    done ← single_child h env sys cmd (with_state h env sys f.world s)
    ok (over done f.fg_pid)
  forked_single x cmd f (parent pid, s) = ok (on (record (in_frame f (restore x s)) { pid = pid }))

  -- the test of a single builtin command: `left` commands are left in the queue
  unfoldable pub runs_here : Command → ℕ → Run Bool
  unfolding is_builtin
  runs_here cmd left =
      if not (is_background cmd.connection_mask) && (left == 0)
      then is_builtin cmd.path
      else ok false

  abbrev pub returned_zero : Done h env sys → Done h env sys
  returned_zero (gave _ w) = gave success w
  returned_zero (gone w) = gone w
  returned_zero (became w) = became w

  -- behind the builtin commands: that neither this command nor the one before is piped holds here
  unfoldable pub run_single : Fixed → Command → ℕ → Frame → Run Step
  unfolding runs_here forked_single execute_command
  run_single x cmd left f = runs_here cmd left >>= λ here.
      if here
      then (execute_command h env sys cmd f.world >>= λ done.
          ok (over (returned_zero done) f.fg_pid))
      else forked_single x cmd f (fork f.world.state)

  abbrev pub dup_both : Frame → Frame
  dup_both f =
      in_frame f (dup2_open h env sys f.fd_out 1 (dup2_open h env sys f.fd_in 0 f.world.state))

  -- a round of the loop
  unfoldable pub run_command : Fixed → ℕ → Command → ℕ → Frame → Run Step
  unfolding settle_last redirect_in redirect_out run_piped run_single
  run_command x i cmd left f = then_step (redirect_in cmd.redirect_from_path (settle_last f)) (λ f.
      then_step (redirect_out cmd.redirect_to_path f) (λ f.
        let f' = dup_both f in
        let piped = was_pipe h env sys f.last_command || is_pipe cmd.connection_mask in
        (if piped then run_piped x i cmd f' else run_single x cmd left f') >>= λ step.
        then_step step (λ f''. ok (on (record f'' { last_command = some cmd })))))

  unfoldable pub run_commands : Fixed → ℕ → List Command → Frame → Run Step
  unfolding run_command
  run_commands x i [] f = ok (on f)
  run_commands x i (cmd ∷ more) f =
      run_command x i cmd (length more) f >>= λ step. then_step step (run_commands x (i + 1) more)

  -- `while (waitpid(launched[i], NULL, 0) == -1 && errno != ECHILD);` with a bound on the rounds
  unfoldable pub wait_again : ℕ → Option ℕ → State → Run State
  unfolding waits_again
  wait_again zero pid s = fault out_of_fuel
  wait_again (suc rounds) pid s =
      let waited = waitpid s pid in
      let rest = wait_again rounds pid waited.1 in
      if waits_again waited.0 then rest else ok waited.1

  unfoldable pub wait_all : ℕ → (ℕ → Option ℕ) → ℕ → ℕ → State → Run State
  unfolding wait_again
  wait_all rounds launched i zero s = ok s
  wait_all rounds launched i (suc left) s =
      wait_again rounds (launched i) s >>= wait_all rounds launched (i + 1) left

  -- behind the loop, in the parent
  unfoldable pub finish : ℕ → Fixed → Step → Run (Done h env sys × Option (Option ℕ))
  unfolding close_pipes wait_for wait_all
  finish rounds x (over done fg) = ok (done, fg)
  finish rounds x (on f) = do
    let s = close_pipes h env sys f.pipes 0 f.pipes.size f.world.state
    let s = wait_for h env sys f.last_command f.pid (restore x s)
    s ← wait_all rounds f.launched 0 x.n_commands s
    ok (gave success (with_state h env sys f.world s), none)

  -- behind the two calls of `dup`
  abbrev pub fixed_for : List Command → World h env → Fixed
  fixed_for cmds w =
      let copied_in = dup w.state 0 in
      record {
        n_commands = length cmds;
        stdin_copy = copied_in.0;
        stdout_copy = (dup copied_in.1 1).0;
      }

  abbrev pub first_frame :
      (ℕ → Option ℕ) → (ℕ → Option ℕ) → List Command → Option (Option ℕ) → World h env → Frame
  first_frame pipes launched cmds fg w = record {
    fd_in = none;
    fd_out = none;
    pid = none;
    last_command = none;
    launched = launched;
    pipes = record { cells = pipes; size = 2 * (length cmds - 1) };
    fg_pid = fg;
    world = with_state h env sys w (dup (dup w.state 0).1 1).1;
  }

  -- `pipes` and `launched` hold at first what the stack holds
  unfoldable pub execute_commands_in_queue :
      ℕ
      → (ℕ → Option ℕ)
      → (ℕ → Option ℕ)
      → List Command
      → Option (Option ℕ)
      → World h env
      → Run (Done h env sys × Option (Option ℕ))
  unfolding run_commands finish
  execute_commands_in_queue rounds pipes launched [] fg w = ok (gave success w, fg)
  execute_commands_in_queue rounds pipes launched (cmd ∷ more) fg w =
      let x = fixed_for (cmd ∷ more) w in
      run_commands x 0 (cmd ∷ more) (first_frame pipes launched (cmd ∷ more) fg w)
      >>= finish rounds x
