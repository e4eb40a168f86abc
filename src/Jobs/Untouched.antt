-- ===== src/Jobs/Untouched.antt =====
-- Queues without pipes: the loop writes neither `pipes` nor `launched`, which `executeCommandsInQueue`
-- reads behind it, and never sets `fg_pid`, which the signal handler reads.
use redshell.Alias.Table.{HashTable}
use redshell.Alias.{Alias}
use redshell.Base.{
  ℕ, ◌+◌, ◌≡◌, refl, Bool, true, false, Option, none, some, List, [], ◌∷◌, Bytes, All, length,
  if◌then◌else◌, Run, ok, fault, ◌>>=◌, ◌∙◌, ◌||◌,
}
use redshell.Builtins.{Environment}
use redshell.Command.{Command, is_pipe}
use redshell.Jobs.Loop.{
  Frame, Fixed, Step, on, over, settle_last, opened_in, redirect_in, opened_out, redirect_out,
  then_step, forked_single, runs_here, run_single, dup_both, run_command, run_commands,
  returned_zero,
}
use redshell.Jobs.{Forked, child, parent, System, Done, execute_command, was_pipe}

module _ (h : HashTable Alias) (env : Environment) (sys : System env) where
  open env use {State}
  open sys use {fork, open_read, open_write}

  abbrev F : Type 0
  F = Frame h env sys

  abbrev pub NoPipe : Command → Type 0
  NoPipe cmd = is_pipe cmd.connection_mask ≡ false

  -- the arrays, `fg_pid` and that the command before is not piped
  abbrev pub IsKept : F → F → Type 0
  IsKept f f' =
      (f'.pipes ≡ f.pipes)
      × ((f'.launched ≡ f.launched)
          × ((f'.fg_pid ≡ f.fg_pid) × (was_pipe h env sys f'.last_command ≡ false)))

  abbrev pub KeepsStep : F → Step h env sys → Type 0
  KeepsStep f (on f') = IsKept f f'
  KeepsStep f (over done fg) = fg ≡ f.fg_pid

  abbrev pub Keeps : F → Run (Step h env sys) → Type 0
  Keeps f (fault e) = Unit
  Keeps f (ok step) = KeepsStep f step

  IsKept-trans : (f g k : F) → IsKept f g → IsKept g k → IsKept f k
  IsKept-trans f g k (p, (l, (n, w))) (p', (l', (n', w'))) = (p' ∙ p, (l' ∙ l, (n' ∙ n, w')))

  Keeps-trans : (f g : F) (run : Run (Step h env sys)) → IsKept f g → Keeps g run → Keeps f run
  Keeps-trans f g (fault e) kept keeps = tt
  Keeps-trans f g (ok (on k)) kept keeps = IsKept-trans f g k kept keeps
  Keeps-trans f g (ok (over done fg)) kept keeps = keeps ∙ kept.1.1.0

  then_step-Keeps :
      (f : F) (step : Step h env sys) (k : F → Run (Step h env sys))
      → KeepsStep f step
      → ((g : F) → was_pipe h env sys g.last_command ≡ false → Keeps g (k g))
      → Keeps f (then_step h env sys step k)
  then_step-Keeps f (over done fg) k keeps next = keeps
  then_step-Keeps f (on g) k keeps next = Keeps-trans f g (k g) keeps (next g keeps.1.1.1)

  bind-Keeps :
      (f : F) (run : Run (Step h env sys)) (k : F → Run (Step h env sys))
      → Keeps f run
      → ((g : F) → was_pipe h env sys g.last_command ≡ false → Keeps g (k g))
      → Keeps f (run >>= λ step. then_step h env sys step k)
  bind-Keeps f (fault e) k keeps next = tt
  bind-Keeps f (ok step) k keeps next = then_step-Keeps f step k keeps next

  over-Keeps :
      (f : F) (run : Run (Done h env sys)) (g : Done h env sys → Done h env sys)
      → Keeps f (run >>= λ done. ok (over (g done) f.fg_pid))
  over-Keeps f (fault e) g = tt
  over-Keeps f (ok done) g = refl

  redirect_in-KeepsStep :
      (path : Option Bytes) (f : F)
      → was_pipe h env sys f.last_command ≡ false
      → KeepsStep f (redirect_in h env sys path f)
  unfolding redirect_in opened_in
  redirect_in-KeepsStep none f no_pipe = (refl, (refl, (refl, no_pipe)))
  redirect_in-KeepsStep (some path) f no_pipe = opened (open_read f.world.state path)
    where
      opened : (r : Option ℕ × State) → KeepsStep f (opened_in h env sys path f r)
      opened (none, s) = refl
      opened (some fd, s) = (refl, (refl, (refl, no_pipe)))

  redirect_out-KeepsStep :
      (path : Option Bytes) (f : F)
      → was_pipe h env sys f.last_command ≡ false
      → KeepsStep f (redirect_out h env sys path f)
  unfolding redirect_out opened_out
  redirect_out-KeepsStep none f no_pipe = (refl, (refl, (refl, no_pipe)))
  redirect_out-KeepsStep (some path) f no_pipe = opened (open_write f.world.state path)
    where
      opened : (r : Option ℕ × State) → KeepsStep f (opened_out h env sys path f r)
      opened (none, s) = refl
      opened (some fd, s) = (refl, (refl, (refl, no_pipe)))

  forked_single-Keeps :
      (x : Fixed h env sys) (cmd : Command) (f : F) (r : Forked × State)
      → was_pipe h env sys f.last_command ≡ false
      → Keeps f (forked_single h env sys x cmd f r)
  unfolding forked_single
  forked_single-Keeps x cmd f (child, s) no_pipe = over-Keeps f _ (λ done. done)
  forked_single-Keeps x cmd f (parent pid, s) no_pipe = (refl, (refl, (refl, no_pipe)))

  test-Keeps :
      (f : F) (run : Run Bool) (k : Bool → Run (Step h env sys))
      → ((b : Bool) → Keeps f (k b))
      → Keeps f (run >>= k)
  test-Keeps f (fault e) k keeps = tt
  test-Keeps f (ok b) k keeps = keeps b

  if-Keeps :
      (f : F) (run run' : Run (Step h env sys))
      → Keeps f run
      → Keeps f run'
      → (b : Bool) → Keeps f (if b then run else run')
  if-Keeps f run run' keeps keeps' true = keeps
  if-Keeps f run run' keeps keeps' false = keeps'

  run_single-Keeps :
      (x : Fixed h env sys) (cmd : Command) (left : ℕ) (f : F)
      → was_pipe h env sys f.last_command ≡ false
      → Keeps f (run_single h env sys x cmd left f)
  unfolding run_single
  run_single-Keeps x cmd left f no_pipe = test-Keeps f (runs_here h env sys cmd left) _ (
      if-Keeps f _ _
        (over-Keeps f (execute_command h env sys cmd f.world) (returned_zero h env sys))
        (forked_single-Keeps x cmd f (fork f.world.state) no_pipe))

  run_command-Keeps :
      (x : Fixed h env sys) (i : ℕ) (cmd : Command) (left : ℕ) (f : F)
      → NoPipe cmd
      → was_pipe h env sys f.last_command ≡ false
      → Keeps f (run_command h env sys x i cmd left f)
  unfolding run_command settle_last
  run_command-Keeps x i cmd left f alone no_pipe =
      Keeps-trans f (settle_last h env sys f) _ (refl, (refl, (refl, no_pipe)))
        (then_step-Keeps (settle_last h env sys f)
          (redirect_in h env sys cmd.redirect_from_path (settle_last h env sys f)) _
          (redirect_in-KeepsStep _ (settle_last h env sys f) no_pipe)
          (λ g g_none.
            then_step-Keeps g (redirect_out h env sys cmd.redirect_to_path g) _
              (redirect_out-KeepsStep _ g g_none)
              (λ k k_none.
                let test : (was_pipe h env sys k.last_command || is_pipe cmd.connection_mask)
                    ≡ false =
                  rw k_none alone in
                rw test (
                  Keeps-trans k (dup_both h env sys k) _ (refl, (refl, (refl, k_none)))
                    (bind-Keeps (dup_both h env sys k) _ _
                      (run_single-Keeps x cmd left (dup_both h env sys k) k_none)
                      (λ m m_none. (refl, (refl, (refl, alone)))))))))

  -- On commands none of which is followed by a pipe, the loop leaves `pipes` and `launched` as they
  -- were, not initialised, and `fg_pid` as it was, in whichever process it goes on and wherever it
  -- stops.
  pub run_commands-Keeps :
      (x : Fixed h env sys) (i : ℕ) (cmds : List Command) (f : F)
      → All NoPipe cmds
      → was_pipe h env sys f.last_command ≡ false
      → Keeps f (run_commands h env sys x i cmds f)
  unfolding run_commands
  run_commands-Keeps x i [] f alone no_pipe = (refl, (refl, (refl, no_pipe)))
  run_commands-Keeps x i (cmd ∷ more) f alone no_pipe =
      bind-Keeps f (run_command h env sys x i cmd (length more) f) _
        (run_command-Keeps x i cmd (length more) f alone.0 no_pipe)
        (λ g g_none. run_commands-Keeps x (i + 1) more g alone.1 g_none)
