-- ===== src/Builtins/Total.antt =====
-- Which argument vectors `_executeBuiltinCommand` returns on.
use redshell.Alias.Table.{HashTable, Lawful}
use redshell.Alias.{Alias}
use redshell.Base.{
  ◌≡◌, refl, ◌≢◌, Bool, Option, none, some, List, [], ◌∷◌, Bytes, codes, from_byte, Run, ok, sym,
  ◌∙◌,
}
use redshell.Builtins.Laws.{name_of, Dispatched, calls, unknown, execute_builtin_command-Dispatched}
use redshell.Builtins.{
  Builtin, alias, cd, echo, exit, export, pwd, unalias, Environment, World, Ended, call,
  execute_builtin_command, cmd_alias, cmd_unalias, cmd_cd, cmd_echo, cmd_exit, cmd_export, cmd_pwd,
  define, set_variable, print_directory,
}

-- the run returns
abbrev pub Halts : {A : Type 0} → Run A → Type 0
Halts {A} run = (a : A) × (run ≡ ok a)

-- `export` has an argument
abbrev pub IsComplete : Bytes → List Bytes → Type 0
IsComplete name argv = name ≡ codes "export" → argv ≢ []

module _ (h : HashTable Alias) (laws : Lawful h) (env : Environment)
    (there : (s : env.State) → (dir : Bytes) × (env.getcwd s ≡ some dir)) where
  open env use {getcwd}

  define-Halts :
      (word : Bytes) (at : Option Bytes) (w : World h env) → Halts (define h env word at w)
  unfolding define
  define-Halts word none w = (_, refl)
  define-Halts word (some at) w = (_, refl)

  set_variable-Halts :
      (word : Bytes) (at : Option Bytes) (w : World h env) → Halts (set_variable h env word at w)
  unfolding set_variable
  set_variable-Halts word none w = (_, refl)
  set_variable-Halts word (some at) w = (_, refl)

  print_directory-Halts :
      (found : Option Bytes) (w : World h env)
      → (dir : Bytes) × (found ≡ some dir)
      → Halts (print_directory h env found w)
  unfolding print_directory
  print_directory-Halts found w (dir, same) = rw same (_, refl)

  call-Halts :
      (b : Builtin) (argv : List Bytes) (w : World h env)
      → IsComplete (name_of b) argv
      → Halts (call h env b argv w)
  unfolding call cmd_alias cmd_cd cmd_echo cmd_exit cmd_export cmd_pwd cmd_unalias print_directory
  call-Halts alias [] w complete = (_, refl)
  call-Halts alias (word ∷ more) w complete = define-Halts word (from_byte b'=' word) w
  call-Halts cd argv w complete = (_, refl)
  call-Halts echo argv w complete = (_, refl)
  call-Halts exit argv w complete = (_, refl)
  call-Halts export [] w complete = absurd (complete refl refl)
  call-Halts export (word ∷ more) w complete = set_variable-Halts word (from_byte b'=' word) w
  call-Halts pwd argv w complete = print_directory-Halts (getcwd w.state) w (there w.state)
  call-Halts unalias [] w complete = (_, refl)
  call-Halts unalias (word ∷ more) w complete = (_, refl)

  Dispatched-Halts :
      (name : Bytes) (argv : List Bytes) (w : World h env) (test : Run Bool)
      (run : Run (Ended h env))
      → IsComplete name argv
      → Dispatched h laws env name argv w test run
      → Halts run
  Dispatched-Halts name argv w test run complete (calls b named) =
      let (e, same) = call-Halts b argv w (λ e. complete (sym named ∙ e)) in rw same (_, refl)
  Dispatched-Halts name argv w test run complete (unknown none_else) = (_, refl)

  pub execute_builtin_command-Halts :
      (name : Bytes) (argv : List Bytes) (w : World h env)
      → IsComplete name argv
      → Halts (execute_builtin_command h env (name ∷ argv) w)
  execute_builtin_command-Halts name argv w complete =
      Dispatched-Halts name argv w _ _ complete
        (execute_builtin_command-Dispatched h laws env name argv w)
