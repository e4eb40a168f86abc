-- ===== src/Builtins/Laws.antt =====
-- The table of the builtin commands is searched alike in both places, and `alias` and `unalias`
-- change the aliases as their arguments say.
use redshell.Alias.Table.{HashTable, Lawful}
use redshell.Alias.{Alias, alias_new, add_alias, remove_alias}
use redshell.Base.{
  ℕ, ◌≡◌, refl, ◌≢◌, Bool, true, false, none, some, List, [], ◌∷◌, ◌++◌, Bytes, codes, str_eq,
  str_eq→eq, before_byte, from_byte, if◌then◌else◌, Run, ok, ◌>>=◌, All, Bool-cases, inl, inr, ◌∙◌,
  ap, sym, arith, ◌==◌,
}
use redshell.Builtins.{
  Builtin, alias, cd, echo, exit, export, pwd, unalias, commands, is_among, is_builtin, Environment,
  World, Ended, returned, success, failure, call, dropped, execute_among, execute_builtin_command,
  cmd_alias, cmd_unalias, define, cmd_export, set_variable,
}

before-append_sep :
    (sep : ℕ) (key value : Bytes)
    → All (λ c. c ≢ sep) key
    → before_byte sep (key ++ sep ∷ value) ≡ key
unfolding before_byte
before-append_sep sep [] value h = ground arith
before-append_sep sep (c ∷ key) value h =
    let other : (c == sep) ≡ false = ground (arith, h.0) in
    rw other (ap (λ t. c ∷ t) (before-append_sep sep key value h.1))

from-append_sep :
    (sep : ℕ) (key value : Bytes)
    → All (λ c. c ≢ sep) key
    → from_byte sep (key ++ sep ∷ value) ≡ some (sep ∷ value)
unfolding from_byte
from-append_sep sep [] value h = ground arith
from-append_sep sep (c ∷ key) value h =
    let other : (c == sep) ≡ false = ground (arith, h.0) in
    rw other (from-append_sep sep key value h.1)

from-absent : (sep : ℕ) (key : Bytes) → All (λ c. c ≢ sep) key → from_byte sep key ≡ none
unfolding from_byte
from-absent sep [] h = refl
from-absent sep (c ∷ key) h =
    let other : (c == sep) ≡ false = ground (arith, h.0) in rw other (from-absent sep key h.1)

abbrev pub name_of : Builtin → Bytes
name_of alias = codes "alias"
name_of cd = codes "cd"
name_of echo = codes "echo"
name_of exit = codes "exit"
name_of export = codes "export"
name_of pwd = codes "pwd"
name_of unalias = codes "unalias"

commands-named : All (λ (known, b). name_of b ≡ known) commands
unfolding commands
commands-named = (refl, (refl, (refl, (refl, (refl, (refl, (refl, tt)))))))

name-among : (b : Builtin) → is_among commands (name_of b) ≡ true
unfolding is_among commands str_eq
name-among alias = refl
name-among cd = refl
name-among echo = refl
name-among exit = refl
name-among export = refl
name-among pwd = refl
name-among unalias = refl

names_complete : (name : Bytes) → is_among commands name ≡ false → (b : Builtin) → name_of b ≢ name
names_complete name gone b same =
    let clash : true ≡ false = sym (name-among b) ∙ ap (λ n. is_among commands n) same ∙ gone in
    absurd cc

module _ (h : HashTable Alias) (laws : Lawful h) (env : Environment) where
  open h use {Table, lookup}

  -- a builtin command of that name is called on the arguments, or there is none of that name
  pub data Dispatched (name : Bytes) (argv : List Bytes) (w : World h env)
      : Run Bool → Run (Ended h env) → Type 0 where
    calls :
        (b : Builtin)
        → name_of b ≡ name
        → Dispatched name argv w (ok true) (call h env b argv w >>= λ e. ok (dropped h env e))
    unknown :
        ((b : Builtin) → name_of b ≢ name)
        → Dispatched name argv w (ok false) (ok (returned failure w))

  among-Dispatched :
      (table : List (Bytes × Builtin)) (name : Bytes) (argv : List Bytes) (w : World h env)
      → All (λ (known, b). name_of b ≡ known) table
      → (is_among table name ≡ false → (b : Builtin) → name_of b ≢ name)
      → Dispatched name argv w (ok (is_among table name)) (execute_among h env table name argv w)
  unfolding is_among execute_among
  among-Dispatched [] name argv w named none_else = unknown (none_else refl)
  among-Dispatched ((known, b) ∷ more) name argv w named none_else =
      elim (Bool-cases (str_eq known name)) [
        | inl here ↦ rw here (calls b (named.0 ∙ str_eq→eq known name here))
        | inr on ↦ rw on (among-Dispatched more name argv w named.1 (λ e. none_else (rw (on, e))))
      ]

  -- On every word, `is_builtin` says whether the word is the name of a builtin command, and
  -- `execute_builtin_command` calls that command on the words behind it, and drops its status, or
  -- reports a failure and changes nothing where there is none.
  pub execute_builtin_command-Dispatched :
      (name : Bytes) (argv : List Bytes) (w : World h env)
      → Dispatched name argv w
          (is_builtin (some name))
          (execute_builtin_command h env (name ∷ argv) w)
  unfolding is_builtin execute_builtin_command
  execute_builtin_command-Dispatched name argv w =
      among-Dispatched commands name argv w commands-named (names_complete name)

  -- On a word `key=value`, whose key has no `=`, `cmd_alias` sets the key's alias to the value, not
  -- in use, and no other; `cmd_unalias` on the key then leaves every other key as it was, and no
  -- alias for the key.
  pub cmd_alias-cmd_unalias :
      (key value : Bytes) (more : List Bytes) (w : World h env)
      → All (λ c. c ≢ b'=') key
      → (w' w'' : World h env) × (cmd_alias h env ((key ++ b'=' ∷ value) ∷ more) w
          ≡ ok (returned success w'))
        × (cmd_unalias h env (key ∷ more) w' ≡ ok (returned success w''))
        × ((j : Bytes)
            → (lookup w'.aliases j
                ≡ (if str_eq key j then some (alias_new value) else lookup w.aliases j))
              × (lookup w''.aliases j ≡ (if str_eq key j then none else lookup w.aliases j)))
  unfolding cmd_alias cmd_unalias define add_alias remove_alias
  cmd_alias-cmd_unalias key value more w no_sep =
      let w' : World h env = record w { aliases = add_alias h w.aliases key value } in
      let w'' : World h env = record w' { aliases = remove_alias h w'.aliases key } in
      (
        w',
        w'',
        rw (from-append_sep b'=' key value no_sep, before-append_sep b'=' key value no_sep),
        refl,
        λ j.
            let set = laws.lookup-insert w.aliases key (alias_new value) j in
            let unset = laws.lookup-remove w'.aliases key j in
            (
              set,
              unset ∙ elim (Bool-cases (str_eq key j)) [
                | inl hit ↦ rw hit
                | inr miss ↦ rw miss (rw miss at set)
              ],
            ),
      )

  -- On a word `key=value`, whose key has no `=`, `cmd_export` sets the variable of the key to the value
  -- and gives back what `setenv` does, and nothing else of the world changes; on a word without `=` it
  -- fails, and nothing changes.
  pub cmd_export-setenv :
      (key value : Bytes) (more : List Bytes) (w : World h env)
      → All (λ c. c ≢ b'=') key
      → (cmd_export h env ((key ++ b'=' ∷ value) ∷ more) w
          ≡ ok (
              returned
                (env.setenv w.state key value).0
                (record w { state = (env.setenv w.state key value).1 })))
        × (cmd_export h env (key ∷ more) w ≡ ok (returned failure w))
  unfolding cmd_export set_variable
  cmd_export-setenv key value more w no_sep = (
    rw (from-append_sep b'=' key value no_sep, before-append_sep b'=' key value no_sep),
    rw (from-absent b'=' key no_sep),
  )
