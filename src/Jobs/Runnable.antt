-- ===== src/Jobs/Runnable.antt =====
-- Commands that `executeCommand` returns on, and systems whose waits come to an end.
use redshell.Alias.Table.{HashTable, Lawful}
use redshell.Alias.{Alias}
use redshell.Base.{ℕ, ◌≡◌, refl, ◌≤◌, ◌<◌, Option, some, List, ◌∷◌, Bytes}
use redshell.Builtins.Total.{Halts, IsComplete, execute_builtin_command-Halts}
use redshell.Builtins.{Environment, World, Ended, returned, exited, success, failure}
use redshell.Command.{Command}
use redshell.Jobs.{
  failed, eintr, another_errno, parent, System, execute_command, execute_argv, try_external,
}

-- `fork` goes on in the parent, there is a working directory, and each state says how many
-- interruptions of waits may still come, which are fewer than the limit
pub record Waitable (env : Environment) (sys : System env) : Type 0 where
  pub in_parent : (s : env.State) → (r : Option ℕ × env.State) × (sys.fork s ≡ (parent r.0, r.1))
  pub directory : (s : env.State) → (dir : Bytes) × (env.getcwd s ≡ some dir)
  pub limit : ℕ
  pub pending : env.State → ℕ
  pub pending-limit : (s : env.State) → pending s < limit
  pub waitpid-pending : (s : env.State) (pid : Option ℕ) → pending (sys.waitpid s pid).1 ≤ pending s
  -- without options, the only other errno is ECHILD
  pub waitpid-errno :
      (s : env.State) (pid : Option ℕ) (n : ℕ)
      → (sys.waitpid s pid).0 ≡ failed (another_errno n)
      → ⊥
  pub waitpid-interrupted :
      (s : env.State) (pid : Option ℕ)
      → (sys.waitpid s pid).0 ≡ failed eintr
      → pending (sys.waitpid s pid).1 < pending s

-- what the parser makes of a command whose words are there, where `export` has an argument
pub record IsRunnable (cmd : Command) : Type 0 where
  pub name : Bytes
  pub arguments : List Bytes
  pub argv : cmd.argv ≡ some (name ∷ arguments)
  pub path : cmd.path ≡ some name
  pub complete : IsComplete name arguments

module _ (h : HashTable Alias) (laws : Lawful h) (env : Environment) (sys : System env)
    (directory : (s : env.State) → (dir : Bytes) × (env.getcwd s ≡ some dir)) where
  try_external-Halts :
      (name : Bytes) (argv : List Bytes) (e : Ended h env)
      → Halts (try_external h env sys (some name) argv e)
  unfolding try_external
  try_external-Halts name argv (exited w) = (_, refl)
  try_external-Halts name argv (returned success w) = (_, refl)
  try_external-Halts name argv (returned failure w) = (_, refl)

  pub execute_command-Halts :
      (cmd : Command) (w : World h env) → IsRunnable cmd → Halts (execute_command h env sys cmd w)
  unfolding execute_command execute_argv
  execute_command-Halts cmd w runnable =
      let (e, called) =
        execute_builtin_command-Halts h laws env directory runnable.name runnable.arguments w
          runnable.complete in
      let (done, ends) = try_external-Halts runnable.name (runnable.name ∷ runnable.arguments) e in
      (done, rw (runnable.argv, runnable.path, called, ends))
