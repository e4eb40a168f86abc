-- ===== src/Command/Blocks.antt =====
-- `commandFree` frees what the command owns.
use redshell.Base.{
  ℕ, ◌+◌, ◌≡◌, refl, Option, none, some, List, [], ◌∷◌, ◌++◌, Bool, true, false, Bytes, arith,
  length, ltb, leb, ◌&&◌, ◌==◌, if◌then◌else◌,
}
use redshell.Command.{
  Command, Block, argument, argument_vector, to_path, from_path, whole_command, free_arguments,
  free_argv, free_path, command_free,
}

abbrev pub same_block : Block → Block → Bool
same_block (argument i) (argument j) = i == j
same_block argument_vector argument_vector = true
same_block to_path to_path = true
same_block from_path from_path = true
same_block whole_command whole_command = true
same_block _ _ = false

-- how often a block is freed
abbrev pub times : Block → List Block → ℕ
times b [] = 0
times b (c ∷ blocks) = (if same_block b c then 1 else 0) + times b blocks

abbrev pub is_some : Option Bytes → ℕ
is_some none = 0
is_some (some _) = 1

-- one for a word of `argv` at position `i` or behind it, and for the array
abbrev in_words : ℕ → List Bytes → Block → ℕ
in_words i words (argument j) = if leb i j && ltb j (i + length words) then 1 else 0
in_words i words argument_vector = 1
in_words i words _ = 0

abbrev in_argv : Option (List Bytes) → Block → ℕ
in_argv none b = 0
in_argv (some words) b = in_words 0 words b

-- one for a block that the command owns
abbrev pub owned : Command → Block → ℕ
owned c (argument i) = in_argv c.argv (argument i)
owned c argument_vector = in_argv c.argv argument_vector
owned c to_path = is_some c.redirect_to_path
owned c from_path = is_some c.redirect_from_path
owned c whole_command = 1

times-append : (b : Block) (xs ys : List Block) → times b (xs ++ ys) ≡ times b xs + times b ys
times-append b [] ys = omega arith
times-append b (x ∷ xs) ys = omega (arith, times-append b xs ys)

times-free_arguments :
    (b : Block) (i : ℕ) (words : List Bytes) → times b (free_arguments i words) ≡ in_words i words b
unfolding free_arguments
times-free_arguments (argument j) i [] = ground arith
times-free_arguments (argument j) i (w ∷ words) =
    ground (arith, times-free_arguments (argument j) (i + 1) words)
times-free_arguments argument_vector i [] = refl
times-free_arguments argument_vector i (w ∷ words) =
    omega (arith, times-free_arguments argument_vector (i + 1) words)
times-free_arguments to_path i [] = refl
times-free_arguments to_path i (w ∷ words) =
    omega (arith, times-free_arguments to_path (i + 1) words)
times-free_arguments from_path i [] = refl
times-free_arguments from_path i (w ∷ words) =
    omega (arith, times-free_arguments from_path (i + 1) words)
times-free_arguments whole_command i [] = refl
times-free_arguments whole_command i (w ∷ words) =
    omega (arith, times-free_arguments whole_command (i + 1) words)

times-free_argv :
    (b : Block) (argv : Option (List Bytes)) → times b (free_argv argv) ≡ in_argv argv b
times-free_argv b none = refl
times-free_argv b (some words) = times-free_arguments b 0 words

no_words :
    (argv : Option (List Bytes))
    → (in_argv argv to_path ≡ 0) × ((in_argv argv from_path ≡ 0) × (in_argv argv whole_command ≡ 0))
no_words none = (refl, (refl, refl))
no_words (some words) = (refl, (refl, refl))

times-free_path :
    (b c : Block) (path : Option Bytes)
    → times b (free_path c path) ≡ (if same_block b c then is_some path else 0)
times-free_path b c none = ground arith
times-free_path b c (some name) = ground arith

-- `command_free` frees each block that the command owns once, and no other: the words of `argv` and
-- the array where there is one, the names of the redirections that there are, and the command. The
-- path, which is the first word, is not freed again.
pub times-command_free : (c : Command) (b : Block) → times b (command_free c) ≡ owned c b
unfolding command_free
times-command_free c b =
    let words = times-free_argv b c.argv in
    let to = times-free_path b to_path c.redirect_to_path in
    let from = times-free_path b from_path c.redirect_from_path in
    rw
      (
        times-append b (free_argv c.argv) _,
        times-append b (free_path to_path c.redirect_to_path) _,
        times-append b (free_path from_path c.redirect_from_path) (whole_command ∷ []),
        words,
        to,
        from,
      )
      (sums c b)
  where
    sums :
        (c : Command) (b : Block)
        → in_argv c.argv b
            + ((if same_block b to_path then is_some c.redirect_to_path else 0)
                + ((if same_block b from_path then is_some c.redirect_from_path else 0)
                    + times b (whole_command ∷ [])))
          ≡ owned c b
    sums c (argument i) = omega arith
    sums c argument_vector = omega arith
    sums c to_path = let none_here = (no_words c.argv).0 in omega arith
    sums c from_path = let none_here = (no_words c.argv).1.0 in omega arith
    sums c whole_command = let none_here = (no_words c.argv).1.1 in omega arith
