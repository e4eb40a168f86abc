-- ===== src/Builtins.antt =====
-- src/builtins.c and `_executeBuiltinCommand` of src/jobs.c. The environment, the directories and
-- the texts of `perror` are the system's and come from an `Environment`. An argument vector is the
-- list of its words, without the null pointer behind them.
pub mod Laws
pub mod Total
use redshell.Alias.Table.{HashTable}
use redshell.Alias.{Alias, add_alias, remove_alias, print_aliases}
use redshell.Base.{
  ℕ, Bool, true, false, Option, none, some, List, [], ◌∷◌, ◌++◌, Bytes, codes, str_eq, before_byte,
  from_byte, if◌then◌else◌, Run, null_pointer, ok, fault, ◌>>=◌,
}

-- 0 and -1
pub data Status : Type 0 where
  success failure : Status

pub record Environment : Type 1 where
  pub State : Type 0
  pub setenv : State → Bytes → Bytes → Status × State
  pub getenv : State → Bytes → Option Bytes
  pub getcwd : State → Option Bytes
  pub chdir : State → Option Bytes → Status × State
  -- what `perror` writes
  pub perror : State → Option Bytes → Bytes

pub data Builtin : Type 0 where
  alias cd echo exit export pwd unalias : Builtin

-- `commands[]`
unfoldable pub commands : List (Bytes × Builtin)
commands =
    (codes "alias", alias)
    ∷ (codes "cd", cd)
    ∷ (codes "echo", echo)
    ∷ (codes "exit", exit)
    ∷ (codes "export", export)
    ∷ (codes "pwd", pwd)
    ∷ (codes "unalias", unalias)
    ∷ []

-- the loop of `isBuiltin`
unfoldable pub is_among : List (Bytes × Builtin) → Bytes → Bool
is_among [] cmd = false
is_among ((name, _) ∷ more) cmd = if str_eq name cmd then true else is_among more cmd

unfoldable pub is_builtin : Option Bytes → Run Bool
unfolding is_among commands
is_builtin none = fault null_pointer
is_builtin (some cmd) = ok (is_among commands cmd)

-- what `cmd_echo` prints
unfoldable pub echo_text : List Bytes → Bytes
echo_text [] = codes "\n"
echo_text (w ∷ []) = w ++ codes "\n"
echo_text (w ∷ v ∷ ws) = w ++ (codes " " ++ echo_text (v ∷ ws))

unfoldable pub concat : List Bytes → Bytes
concat [] = []
concat (s ∷ ss) = s ++ concat ss

abbrev pub behind_byte : Bytes → Bytes
behind_byte [] = []
behind_byte (_ ∷ value) = value

module _ (h : HashTable Alias) (env : Environment) where
  open h use {Table}
  open env use {State, setenv, getenv, getcwd, chdir, perror}

  -- what a builtin command reads and changes
  pub record World : Type 0 where
    pub aliases : Table
    pub state : State
    pub out : Bytes
    pub err : Bytes

  pub data Ended : Type 0 where
    returned : Status → World → Ended
    exited : World → Ended

  abbrev pub print : World → Bytes → World
  print w text = record w { out = w.out ++ text }

  unfoldable pub cmd_echo : List Bytes → World → Run Ended
  unfolding echo_text
  cmd_echo argv w = ok (returned success (print w (echo_text argv)))

  -- `setenv` of the parts around the `=` that `strstr` found
  unfoldable pub set_variable : Bytes → Option Bytes → World → Run Ended
  set_variable word none w = ok (returned failure w)
  set_variable word (some at) w =
      let result = setenv w.state (before_byte b'=' word) (behind_byte at) in
      ok (returned result.0 (record w { state = result.1 }))

  unfoldable pub cmd_export : List Bytes → World → Run Ended
  unfolding set_variable
  cmd_export [] w = fault null_pointer
  cmd_export (word ∷ _) w = set_variable word (from_byte b'=' word) w

  unfoldable pub print_directory : Option Bytes → World → Run Ended
  print_directory none w = fault null_pointer
  print_directory (some dir) w = ok (returned success (print w (dir ++ codes "\n")))

  unfoldable pub cmd_pwd : List Bytes → World → Run Ended
  unfolding print_directory
  cmd_pwd argv w = print_directory (getcwd w.state) w

  -- "Assume the user's home directory as path if none given"
  abbrev pub path_of : List Bytes → World → Option Bytes
  path_of [] w = getenv w.state (codes "HOME")
  path_of (path ∷ _) w = some path

  unfoldable pub report : Option Bytes → Status × State → World → World
  report path (success, state) w = record w { state = state }
  report path (failure, state) w = record w { state = state; err = w.err ++ perror state path }

  unfoldable pub cmd_cd : List Bytes → World → Run Ended
  unfolding report
  cmd_cd argv w =
      let path = path_of argv w in
      let result = chdir w.state path in ok (returned result.0 (report path result w))

  unfoldable pub cmd_exit : List Bytes → World → Run Ended
  cmd_exit argv w = ok (exited (print w (codes "Bye!\n")))

  unfoldable pub define : Bytes → Option Bytes → World → Run Ended
  define word none w = ok (returned failure w)
  define word (some at) w = ok (
      returned success
        (record w { aliases = add_alias h w.aliases (before_byte b'=' word) (behind_byte at) }))

  unfoldable pub cmd_alias : List Bytes → World → Run Ended
  unfolding define concat
  cmd_alias [] w = ok (returned success (print w (concat (print_aliases h w.aliases))))
  cmd_alias (word ∷ _) w = define word (from_byte b'=' word) w

  unfoldable pub cmd_unalias : List Bytes → World → Run Ended
  cmd_unalias [] w =
      ok (returned failure (record w { err = w.err ++ codes "unalias: not enough arguments\n" }))
  cmd_unalias (word ∷ _) w =
      ok (returned success (record w { aliases = remove_alias h w.aliases word }))

  -- the function in the table
  unfoldable pub call : Builtin → List Bytes → World → Run Ended
  unfolding cmd_alias cmd_cd cmd_echo cmd_exit cmd_export cmd_pwd cmd_unalias
  call alias argv w = cmd_alias argv w
  call cd argv w = cmd_cd argv w
  call echo argv w = cmd_echo argv w
  call exit argv w = cmd_exit argv w
  call export argv w = cmd_export argv w
  call pwd argv w = cmd_pwd argv w
  call unalias argv w = cmd_unalias argv w

  -- the status of the builtin command is dropped
  abbrev pub dropped : Ended → Ended
  dropped (returned _ w) = returned success w
  dropped (exited w) = exited w

  -- the loop of `_executeBuiltinCommand`
  unfoldable pub execute_among : List (Bytes × Builtin) → Bytes → List Bytes → World → Run Ended
  unfolding call
  execute_among [] name argv w = ok (returned failure w)
  execute_among ((known, builtin) ∷ more) name argv w =
      let rest = execute_among more name argv w in
      if str_eq known name then (call builtin argv w >>= λ e. ok (dropped e)) else rest

  unfoldable pub execute_builtin_command : List Bytes → World → Run Ended
  unfolding execute_among commands
  execute_builtin_command [] w = fault null_pointer
  execute_builtin_command (name ∷ argv) w = execute_among commands name argv w
