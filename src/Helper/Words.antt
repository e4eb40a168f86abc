-- ===== src/Helper/Words.antt =====
-- `expand` and `expandGlob` of src/helper.c. `wordexp` is the C library's: a function of the string
-- that it is given, with `none` for every non-zero status.
use redshell.Base.{Option, none, some, List, [], ◌∷◌, Bytes, null_pointer, Run, ok, fault, ◌>>=◌}
use redshell.Command.{Command}

abbrev pub WordExp : Type 0
WordExp = Bytes → Option (List Bytes)

-- the result of `expand` for the words found: only a single word is kept
abbrev pub single_word : List Bytes → Option Bytes
single_word (w ∷ []) = some w
single_word _ = none

unfoldable pub expand : WordExp → Bytes → Option Bytes
expand wordexp input = elim (wordexp input) [ none ↦ none | some words ↦ single_word words ]

-- a field of the struct that the pointer leads to
unfoldable pub deref {ℓ} : {A : Type ℓ} → Option A → Run A
deref none = fault null_pointer
deref (some a) = ok a

-- `argv` filled with the words of `wordexp`, which returned `found`; `none` is the status -1, and
-- the command is written only after `wordexp` succeeded
unfoldable pub set_argv : Option Command → Option (List Bytes) → Run (Option Command)
unfolding deref
set_argv command none = ok none
set_argv command (some words) = deref command >>= λ c. ok (some (record c { argv = some words }))

unfoldable pub expand_glob : WordExp → Option Command → Bytes → Run (Option Command)
unfolding set_argv
expand_glob wordexp command cmd = set_argv command (wordexp cmd)
