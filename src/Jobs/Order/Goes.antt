-- ===== src/Jobs/Order/Goes.antt =====
-- Properties of the frame where the loop of `executeCommandsInQueue` goes on, in the parent.
use redshell.Alias.Table.{HashTable}
use redshell.Alias.{Alias}
use redshell.Base.{
  ℕ, ◌≡◌, Bool, true, false, Option, none, some, List, ◌++◌, Bytes, if◌then◌else◌, Run, ok, fault,
  ◌>>=◌, ◌∙◌,
}
use redshell.Builtins.{Environment}
use redshell.Jobs.Loop.{
  Frame, Step, on, over, opened_in, redirect_in, opened_out, redirect_out, then_step,
}
use redshell.Jobs.Order.{Event, Observed}
use redshell.Jobs.{System, Done}

module _ (h : HashTable Alias) (env : Environment) (sys : System env) where
  -- a property of the frame, where the loop goes on
  abbrev pub GoesOn : (Frame h env sys → Type 0) → Step h env sys → Type 0
  GoesOn P (on g) = P g
  GoesOn P (over done fg) = Unit

  abbrev pub Goes : (Frame h env sys → Type 0) → Run (Step h env sys) → Type 0
  Goes P (fault e) = Unit
  Goes P (ok step) = GoesOn P step

  pub then_step-Goes :
      (P Q : Frame h env sys → Type 0) (step : Step h env sys)
      (k : Frame h env sys → Run (Step h env sys))
      → GoesOn P step
      → ((g : Frame h env sys) → P g → Goes Q (k g))
      → Goes Q (then_step h env sys step k)
  then_step-Goes P Q (over done fg) k holds next = tt
  then_step-Goes P Q (on g) k holds next = next g holds

  pub bind-Goes :
      (P Q : Frame h env sys → Type 0) (run : Run (Step h env sys))
      (k : Frame h env sys → Run (Step h env sys))
      → Goes P run
      → ((g : Frame h env sys) → P g → Goes Q (k g))
      → Goes Q (run >>= λ step. then_step h env sys step k)
  bind-Goes P Q (fault e) k holds next = tt
  bind-Goes P Q (ok step) k holds next = then_step-Goes P Q step k holds next

  pub over-Goes :
      (P : Frame h env sys → Type 0) (run : Run (Done h env sys))
      (g : Done h env sys → Done h env sys) (fg : Option (Option ℕ))
      → Goes P (run >>= λ done. ok (over (g done) fg))
  over-Goes P (fault e) g fg = tt
  over-Goes P (ok done) g fg = tt

  pub if-Goes :
      (P : Frame h env sys → Type 0) (run run' : Run (Step h env sys))
      → Goes P run
      → Goes P run'
      → (b : Bool) → Goes P (if b then run else run')
  if-Goes P run run' holds holds' true = holds
  if-Goes P run run' holds holds' false = holds'

  pub test-Goes :
      (P : Frame h env sys → Type 0) (test : Run Bool) (run run' : Run (Step h env sys))
      → Goes P run
      → Goes P run'
      → Goes P (test >>= λ here. if here then run else run')
  test-Goes P (fault e) run run' holds holds' = tt
  test-Goes P (ok here) run run' holds holds' = if-Goes P run run' holds holds' here

module _ (h : HashTable Alias) (env : Environment) (sys : System env)
    (seen : Observed env sys) where
  open env use {State}
  open sys use {open_read, open_write}
  open seen use {log, log-open_read, log-open_write}

  -- the log with events behind it, the command before, its process and the array
  abbrev pub Unlogged : Frame h env sys → List Event → Frame h env sys → Type 0
  Unlogged f events g =
      (log g.world.state ≡ log f.world.state ++ events)
      × ((g.last_command ≡ f.last_command) × ((g.pid ≡ f.pid) × (g.launched ≡ f.launched)))

  pub redirect_in-GoesOn :
      (path : Option Bytes) (f g : Frame h env sys) (events : List Event)
      → Unlogged f events g
      → GoesOn h env sys (Unlogged f events) (redirect_in h env sys path g)
  unfolding redirect_in opened_in
  redirect_in-GoesOn none f g events same = same
  redirect_in-GoesOn (some path) f g events same =
      opened (open_read g.world.state path) (log-open_read g.world.state path)
    where
      opened :
          (r : Option ℕ × State)
          → log r.1 ≡ log g.world.state
          → GoesOn h env sys (Unlogged f events) (opened_in h env sys path g r)
      opened (none, s) quiet = tt
      opened (some fd, s) quiet = (quiet ∙ same.0, same.1)

  pub redirect_out-GoesOn :
      (path : Option Bytes) (f g : Frame h env sys) (events : List Event)
      → Unlogged f events g
      → GoesOn h env sys (Unlogged f events) (redirect_out h env sys path g)
  unfolding redirect_out opened_out
  redirect_out-GoesOn none f g events same = same
  redirect_out-GoesOn (some path) f g events same =
      opened (open_write g.world.state path) (log-open_write g.world.state path)
    where
      opened :
          (r : Option ℕ × State)
          → log r.1 ≡ log g.world.state
          → GoesOn h env sys (Unlogged f events) (opened_out h env sys path g r)
      opened (none, s) quiet = tt
      opened (some fd, s) quiet = (quiet ∙ same.0, same.1)
