-- ===== src/Tests/Building.antt =====
-- The builtin commands in an environment without variables, whose directory is `/`.
use redshell.Alias.{alias_new}
use redshell.Alias.Table.{find}
use redshell.Base.{◌≡◌, refl, none, some, [], ◌∷◌, Bytes, codes, ok, str_eq, if◌then◌else◌, arith}
use redshell.Builtins.Laws.{
  Dispatched, execute_builtin_command-Dispatched, cmd_alias-cmd_unalias, cmd_export-setenv,
}
use redshell.Builtins.{
  Environment, World, returned, success, is_builtin, commands, execute_builtin_command,
  execute_among, call, cmd_alias, cmd_unalias, cmd_export, failure, cmd_echo, echo_text,
}
use redshell.Tests.Chains.{chained, chained-Lawful}

abbrev root_only : Environment
root_only = record {
  State = Unit {0};
  setenv = λ s key value. (success, s);
  getenv = λ s key. none;
  getcwd = λ s. some (codes "/");
  chdir = λ s path. (success, s);
  perror = λ s path. [];
}

abbrev fresh_world : World chained root_only
fresh_world = record { aliases = []; state = tt; out = []; err = [] }

echoed :
    execute_builtin_command chained root_only
      (codes "echo" ∷ codes "foo" ∷ codes "bar" ∷ [])
      fresh_world
    ≡ ok (returned success (record fresh_world { out = codes "foo bar\n" }))
unfolding execute_builtin_command execute_among commands call cmd_echo echo_text str_eq
echoed = refl

execute_builtin_command-Dispatched_example :
    Dispatched chained chained-Lawful root_only
      (codes "echo")
      (codes "foo" ∷ [])
      fresh_world
      (is_builtin (some (codes "echo")))
      (execute_builtin_command chained root_only (codes "echo" ∷ codes "foo" ∷ []) fresh_world)
execute_builtin_command-Dispatched_example =
    execute_builtin_command-Dispatched chained chained-Lawful root_only (codes "echo")
      (codes "foo" ∷ []) fresh_world

cmd_alias-cmd_unalias_example :
    (w' w'' : World chained root_only) × (cmd_alias chained root_only
        (codes "ll=ls -l" ∷ [])
        fresh_world
      ≡ ok (returned success w'))
    × (cmd_unalias chained root_only (codes "ll" ∷ []) w' ≡ ok (returned success w''))
    × ((j : Bytes)
        → (find j w'.aliases
            ≡ (if str_eq (codes "ll") j then some (alias_new (codes "ls -l")) else none))
          × (find j w''.aliases ≡ (if str_eq (codes "ll") j then none else none)))
unfolding find
cmd_alias-cmd_unalias_example =
    cmd_alias-cmd_unalias chained chained-Lawful root_only (codes "ll") (codes "ls -l") []
      fresh_world (omega arith, (omega arith, tt))

cmd_export-setenv_example :
    (cmd_export chained root_only (codes "PAGER=less" ∷ []) fresh_world
      ≡ ok (returned success fresh_world))
    × (cmd_export chained root_only (codes "PAGER" ∷ []) fresh_world
        ≡ ok (returned failure fresh_world))
cmd_export-setenv_example =
    cmd_export-setenv chained chained-Lawful root_only (codes "PAGER") (codes "less") [] fresh_world
      (omega arith, (omega arith, (omega arith, (omega arith, (omega arith, tt)))))
