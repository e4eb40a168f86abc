-- ===== src/Jobs/Aliases.antt =====
-- The aliases while commands run: only `alias` and `unalias` change them.
pub mod Rounds
use redshell.Alias.Table.{HashTable}
use redshell.Alias.{Alias, add_alias, remove_alias}
use redshell.Base.{
  ℕ, zero, suc, ◌+◌, ◌-◌, ◌≡◌, refl, Bool, true, false, Option, none, some, List, [], ◌∷◌, Bytes,
  str_eq, from_byte, before_byte, length, if◌then◌else◌, Run, ok, fault, ◌>>=◌, ◌||◌, Bool-cases,
  inl, inr, IfOk, bind-IfOk, if-IfOk, always-IfOk,
}
use redshell.Builtins.{
  Builtin, alias, cd, echo, exit, export, pwd, unalias, Environment, World, Ended, returned, exited,
  Status, success, failure, call, dropped, commands, execute_among, execute_builtin_command,
  cmd_alias, cmd_unalias, cmd_cd, cmd_echo, cmd_exit, cmd_export, cmd_pwd, define, set_variable,
  print_directory, report, path_of,
}
use redshell.Command.{Command, is_pipe}
use redshell.Jobs.{
  Forked, child, parent, System, Done, gave, gone, became, Executed, replaced, refused, Pipes,
  execute_command, execute_argv, try_external, after_exec, complain, open_pipes, close_pipes,
  was_pipe, wait_for, with_state, piped_child, single_child, leave, child_output, child_input,
}

module _ (h : HashTable Alias) (env : Environment) (P : h.Table → Type 0) where
  abbrev pub EndedWith : Ended h env → Type 0
  EndedWith (returned status w) = P w.aliases
  EndedWith (exited w) = P w.aliases

  abbrev pub DoneWith : (sys : System env) → Done h env sys → Type 0
  DoneWith sys (gave status w) = P w.aliases
  DoneWith sys (gone w) = P w.aliases
  DoneWith sys (became w) = P w.aliases

module _ (h : HashTable Alias) (env : Environment) (P : h.Table → Type 0)
    (adds : (t : h.Table) (key value : Bytes) → P t → P (add_alias h t key value))
    (removes : (t : h.Table) (key : Bytes) → P t → P (remove_alias h t key)) where
  open env use {State, getcwd, setenv, chdir}

  abbrev EndedOk : Ended h env → Type 0
  EndedOk = EndedWith h env P

  set_variable-Keeps :
      (word : Bytes) (at : Option Bytes) (w : World h env)
      → P w.aliases
      → IfOk EndedOk (set_variable h env word at w)
  unfolding set_variable
  set_variable-Keeps word none w holds = holds
  set_variable-Keeps word (some at) w holds = holds

  define-Keeps :
      (word : Bytes) (at : Option Bytes) (w : World h env)
      → P w.aliases
      → IfOk EndedOk (define h env word at w)
  unfolding define
  define-Keeps word none w holds = holds
  define-Keeps word (some at) w holds = adds w.aliases _ _ holds

  print_directory-Keeps :
      (found : Option Bytes) (w : World h env)
      → P w.aliases
      → IfOk EndedOk (print_directory h env found w)
  unfolding print_directory
  print_directory-Keeps none w holds = tt
  print_directory-Keeps (some dir) w holds = holds

  report-Keeps :
      (path : Option Bytes) (r : Status × State) (w : World h env)
      → P w.aliases
      → P (report h env path r w).aliases
  unfolding report
  report-Keeps path (success, s) w holds = holds
  report-Keeps path (failure, s) w holds = holds

  call-Keeps :
      (b : Builtin) (argv : List Bytes) (w : World h env)
      → P w.aliases
      → IfOk EndedOk (call h env b argv w)
  unfolding call cmd_alias cmd_cd cmd_echo cmd_exit cmd_export cmd_pwd cmd_unalias
  call-Keeps alias [] w holds = holds
  call-Keeps alias (word ∷ more) w holds = define-Keeps word (from_byte b'=' word) w holds
  call-Keeps cd argv w holds =
      report-Keeps (path_of h env argv w) (chdir w.state (path_of h env argv w)) w holds
  call-Keeps echo argv w holds = holds
  call-Keeps exit argv w holds = holds
  call-Keeps export [] w holds = tt
  call-Keeps export (word ∷ more) w holds = set_variable-Keeps word (from_byte b'=' word) w holds
  call-Keeps pwd argv w holds = print_directory-Keeps (getcwd w.state) w holds
  call-Keeps unalias [] w holds = holds
  call-Keeps unalias (word ∷ more) w holds = removes w.aliases word holds

  dropped-EndedOk : (e : Ended h env) → EndedOk e → EndedOk (dropped h env e)
  dropped-EndedOk (returned status w) holds = holds
  dropped-EndedOk (exited w) holds = holds

  execute_among-Keeps :
      (table : List (Bytes × Builtin)) (name : Bytes) (argv : List Bytes) (w : World h env)
      → P w.aliases
      → IfOk EndedOk (execute_among h env table name argv w)
  unfolding execute_among
  execute_among-Keeps [] name argv w holds = holds
  execute_among-Keeps ((known, b) ∷ more) name argv w holds =
      if-IfOk EndedOk _ _
        (bind-IfOk EndedOk EndedOk (call h env b argv w) _ (call-Keeps b argv w holds)
          dropped-EndedOk)
        (execute_among-Keeps more name argv w holds) (str_eq known name)

  module _ (sys : System env) where
    open sys use {execvp}

    abbrev Ends : Done h env sys → Type 0
    Ends = DoneWith h env P sys

    after_exec-Keeps :
        (path : Bytes) (w : World h env) (r : Executed State)
        → P w.aliases
        → Ends (after_exec h env sys path w r)
    after_exec-Keeps path w (replaced s) holds = holds
    after_exec-Keeps path w (refused true s) holds = holds
    after_exec-Keeps path w (refused false s) holds = holds

    try_external-Keeps :
        (path : Option Bytes) (argv : List Bytes) (e : Ended h env)
        → EndedOk e
        → IfOk Ends (try_external h env sys path argv e)
    unfolding try_external
    try_external-Keeps path argv (exited w) holds = holds
    try_external-Keeps path argv (returned success w) holds = holds
    try_external-Keeps none argv (returned failure w) holds = tt
    try_external-Keeps (some path) argv (returned failure w) holds =
        after_exec-Keeps path w (execvp w.state (some path) argv) holds

    execute_argv-Keeps :
        (argv : Option (List Bytes)) (path : Option Bytes) (w : World h env)
        → P w.aliases
        → IfOk Ends (execute_argv h env sys argv path w)
    unfolding execute_argv execute_builtin_command
    execute_argv-Keeps none path w holds = tt
    execute_argv-Keeps (some []) path w holds = tt
    execute_argv-Keeps (some (name ∷ argv)) path w holds =
        bind-IfOk EndedOk Ends (execute_among h env commands name argv w) _
          (execute_among-Keeps commands name argv w holds)
          (λ e ended. try_external-Keeps path (name ∷ argv) e ended)

    pub execute_command-Keeps :
        (cmd : Command) (w : World h env)
        → P w.aliases
        → IfOk Ends (execute_command h env sys cmd w)
    unfolding execute_command
    execute_command-Keeps cmd w holds = execute_argv-Keeps cmd.argv cmd.path w holds

    leave-Ends : (done : Done h env sys) → Ends done → Ends (leave h env sys done)
    leave-Ends (gave status w) holds = holds
    leave-Ends (gone w) holds = holds
    leave-Ends (became w) holds = holds

    pub single_child-Keeps :
        (cmd : Command) (w : World h env) → P w.aliases → IfOk Ends (single_child h env sys cmd w)
    unfolding single_child
    single_child-Keeps cmd w holds =
        bind-IfOk Ends Ends (execute_command h env sys cmd w) _ (execute_command-Keeps cmd w holds)
          leave-Ends

    pub piped_child-Keeps :
        (p : Pipes h env sys) (n i : ℕ) (last : Option Command) (cmd : Command) (w : World h env)
        → P w.aliases
        → IfOk Ends (piped_child h env sys p n i last cmd w)
    unfolding piped_child
    piped_child-Keeps p n i last cmd w holds =
        bind-IfOk (λ _. Unit {0}) Ends (child_output h env sys p n last w.state) _
          (always-IfOk (λ _. Unit {0}) _ (λ _. tt))
          (λ s _.
            bind-IfOk (λ _. Unit {0}) Ends (child_input h env sys p n i cmd s) _
              (always-IfOk (λ _. Unit {0}) _ (λ _. tt))
              (λ s' _. bind-IfOk Ends Ends _ _ (execute_command-Keeps cmd _ holds) leave-Ends))
