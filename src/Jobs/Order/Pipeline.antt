-- ===== src/Jobs/Order/Pipeline.antt =====
-- A queue that is one pipeline: each of its processes is waited for.
pub mod Whole
use mathlib.Core.Path.{subst}
use mathlib.Core.List.{append_assoc, append-nil}
use redshell.Alias.Table.{HashTable}
use redshell.Alias.{Alias}
use redshell.Base.{
  ℕ, zero, suc, ◌+◌, ◌-◌, ◌<◌, ◌≡◌, refl, arith, Bool, true, false, Option, none, some, List, [],
  ◌∷◌, ◌++◌, map, length, ◌==◌, if◌then◌else◌, Run, ok, fault, ◌>>=◌, ◌∙◌, ap, sym, ◌||◌,
  Bool-cases, inl, inr,
}
use redshell.Builtins.{Environment, World, success}
use redshell.Command.{Command, is_pipe}
use redshell.Jobs.Loop.{
  Frame, Fixed, Step, on, over, in_frame, settle_last, redirect_in, redirect_out, then_step,
  launch_at, dup_both, run_command, run_commands, run_piped, run_single, forked_piped, finish,
  execute_commands_in_queue, fixed_for, first_frame,
}
use redshell.Jobs.Order.Goes.{
  Goes, GoesOn, then_step-Goes, bind-Goes, over-Goes, Unlogged, redirect_in-GoesOn,
  redirect_out-GoesOn,
}
use redshell.Jobs.Order.Waits.{Again, Awaited, awaited_all, awaits, Finished, finish-Finished}
use redshell.Jobs.Order.{
  Event, forked, waited, Observed, waits, log-dup2_open, log-settle_last, log-open_pipes,
}
use redshell.Jobs.{
  Forked, child, parent, System, Done, gave, with_state, piped_child, open_pipes, was_pipe, to_wait,
}

-- the waits for processes, in their order, each once or more
pub data AwaitsEach : List (Option ℕ) → List Event → Type 0 where
  no_process : AwaitsEach [] []
  each :
      (pid : Option ℕ) (pids : List (Option ℕ)) (events events' : List Event)
      → Again pid events
      → AwaitsEach pids events'
      → AwaitsEach (pid ∷ pids) (events ++ events')

-- two commands at least, each with a pipe behind it but for the last
abbrev pub IsPipeline : List Command → Type 0
IsPipeline [] = ⊥
IsPipeline (c ∷ []) = is_pipe c.connection_mask ≡ false
IsPipeline (c ∷ d ∷ cs) = (is_pipe c.connection_mask ≡ true) × IsPipeline (d ∷ cs)

-- the array holds the processes, from one place on
abbrev pub AtPlaces : (ℕ → Option ℕ) → ℕ → List (Option ℕ) → Type 0
AtPlaces launched i [] = Unit
AtPlaces launched i (pid ∷ pids) = (launched i ≡ pid) × AtPlaces launched (i + 1) pids

pub Awaited-each :
    (launched : ℕ → Option ℕ) (i : ℕ) (pids : List (Option ℕ)) (events : List Event)
    → AtPlaces launched i pids
    → Awaited launched i (length pids) events
    → AwaitsEach pids events
Awaited-each launched i [] _ at (awaited_all _) = no_process
Awaited-each launched i (pid ∷ pids) _ at (awaits _ _ events events' again all) =
    each pid pids events events' (subst (λ p. Again p events) at.0 again)
      (Awaited-each launched (i + 1) pids events' at.1 all)

module _ (h : HashTable Alias) (env : Environment) (sys : System env)
    (seen : Observed env sys) where
  open env use {State}
  open sys use {fork}
  open seen use {log, log-dup, log-fork}

  pub launch_at-same :
      (launched : ℕ → Option ℕ) (i : ℕ) (pid : Option ℕ)
      → launch_at h env sys launched i pid i ≡ pid
  unfolding launch_at
  launch_at-same launched i pid = ground arith

  pub launch_at-below :
      (launched : ℕ → Option ℕ) (i : ℕ) (pid : Option ℕ) (j : ℕ)
      → j < i
      → launch_at h env sys launched i pid j ≡ launched j
  unfolding launch_at
  launch_at-below launched i pid j less = ground arith

  -- a process is started and noted
  abbrev Launched : List Event → (ℕ → Option ℕ) → ℕ → Frame h env sys → Type 0
  Launched before launched i g =
      (log g.world.state ≡ before ++ forked g.pid ∷ [])
      × (g.launched ≡ launch_at h env sys launched i g.pid)

  forked_piped-Launched :
      (x : Fixed h env sys) (i : ℕ) (cmd : Command) (f : Frame h env sys) (r : Forked × State)
      → fork f.world.state ≡ r
      → Goes h env sys
          (Launched (log f.world.state) f.launched i)
          (forked_piped h env sys x i cmd f r)
  unfolding forked_piped
  forked_piped-Launched x i cmd f (child, s) made =
      over-Goes h env sys (Launched (log f.world.state) f.launched i)
        (piped_child h env sys f.pipes x.n_commands i f.last_command cmd
          (with_state h env sys f.world s))
        (λ done. done) f.fg_pid
  forked_piped-Launched x i cmd f (parent pid, s) made = (log-fork f.world.state s pid made, refl)

  run_piped-Launched :
      (x : Fixed h env sys) (i : ℕ) (cmd : Command) (f : Frame h env sys)
      → Goes h env sys (Launched (log f.world.state) f.launched i) (run_piped h env sys x i cmd f)
  unfolding run_piped
  run_piped-Launched x i cmd f =
      let made = open_pipes h env sys (x.n_commands - 1) 0 f.pipes f.world.state in
      let opened : Frame h env sys = record (in_frame h env sys f made.1) { pipes = made.0 } in
      let quiet : log made.1 ≡ log f.world.state =
        log-open_pipes h env sys seen (x.n_commands - 1) 0 f.pipes f.world.state in
      elim (Bool-cases (was_pipe h env sys f.last_command)) [
        | inl piped ↦ rw piped (forked_piped-Launched x i cmd f (fork f.world.state) refl)
        | inr first ↦ rw first (
            subst
              (λ before.
                Goes h env sys (Launched before f.launched i)
                  (forked_piped h env sys x i cmd opened (fork made.1)))
              quiet (forked_piped-Launched x i cmd opened (fork made.1) refl))
      ]

  -- a round in a pipeline
  abbrev pub RanPiped : Frame h env sys → ℕ → Command → Frame h env sys → Type 0
  RanPiped f i cmd g =
      (log g.world.state ≡ log f.world.state ++ forked g.pid ∷ [])
      × ((g.launched ≡ launch_at h env sys f.launched i g.pid) × (g.last_command ≡ some cmd))

  settled-RanPiped :
      (x : Fixed h env sys) (i : ℕ) (cmd : Command) (left : ℕ) (f k : Frame h env sys)
      → (was_pipe h env sys f.last_command || is_pipe cmd.connection_mask) ≡ true
      → Unlogged h env sys seen f [] k
      → Goes h env sys (RanPiped f i cmd) (
          (if was_pipe h env sys k.last_command || is_pipe cmd.connection_mask
            then run_piped h env sys x i cmd (dup_both h env sys k)
            else run_single h env sys x cmd left (dup_both h env sys k))
          >>= λ step.
              then_step h env sys step (λ g. ok (on (record g { last_command = some cmd }))))
  settled-RanPiped x i cmd left f k piped (logged, (last, (pid, array))) =
      let k' = dup_both h env sys k in
      let quiet : log k'.world.state ≡ log f.world.state =
        log-dup2_open h env sys seen k.fd_out 1 _
        ∙ log-dup2_open h env sys seen k.fd_in 0 k.world.state
        ∙ logged
        ∙ append-nil (log f.world.state) in
      let tested : (was_pipe h env sys k.last_command || is_pipe cmd.connection_mask) ≡ true =
        ap (λ c. was_pipe h env sys c || is_pipe cmd.connection_mask) last ∙ piped in
      rw tested (
        bind-Goes h env sys (Launched (log k'.world.state) k.launched i) (RanPiped f i cmd) _ _
          (run_piped-Launched x i cmd k')
          (λ g (logged', array'). (
            logged' ∙ ap (λ before. before ++ forked g.pid ∷ []) quiet,
            (array' ∙ ap (λ a. launch_at h env sys a i g.pid) array, refl),
          )))

  pub run_command-RanPiped :
      (x : Fixed h env sys) (i : ℕ) (cmd : Command) (left : ℕ) (f : Frame h env sys)
      → to_wait h env sys f.last_command ≡ false
      → (was_pipe h env sys f.last_command || is_pipe cmd.connection_mask) ≡ true
      → Goes h env sys (RanPiped f i cmd) (run_command h env sys x i cmd left f)
  unfolding run_command settle_last
  run_command-RanPiped x i cmd left f going piped =
      let P = Unlogged h env sys seen f [] in
      let start : P (settle_last h env sys f) = (
        log-settle_last h env sys seen f
            ∙ ap (λ events. log f.world.state ++ events) (waits-none f.last_command f.pid going),
        (refl, (refl, refl)),
      ) in
      then_step-Goes h env sys P (RanPiped f i cmd)
        (redirect_in h env sys cmd.redirect_from_path (settle_last h env sys f)) _
        (redirect_in-GoesOn h env sys seen _ f (settle_last h env sys f) [] start)
        (λ g unlogged.
          then_step-Goes h env sys P (RanPiped f i cmd)
            (redirect_out h env sys cmd.redirect_to_path g) _
            (redirect_out-GoesOn h env sys seen _ f g [] unlogged)
            (λ k unlogged'. settled-RanPiped x i cmd left f k piped unlogged'))
    where
      waits-none :
          (last : Option Command) (pid : Option ℕ)
          → to_wait h env sys last ≡ false
          → waits h env sys seen last pid ≡ []
      waits-none last none going = refl
      waits-none last (some pid) going = rw going
