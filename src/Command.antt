-- ===== src/Command.antt =====
-- src/command.h and src/command.c: a command of a line, as the parser builds it and the job control
-- runs it. A pointer to a string is an `Option Bytes`; `argv` is the words before its null entry.
pub mod Blocks
use redshell.Base.{ℕ, ◌+◌, Option, none, some, List, [], ◌∷◌, ◌++◌, Bool, true, false, Bytes}

pub data Connection : Type 0 where
  no_connection pipe_connection background sequential : Connection

pub record Command : Type 0 where
  pub path : Option Bytes
  pub argc : ℕ
  pub argv : Option (List Bytes)
  pub redirect_to_path : Option Bytes
  pub redirect_from_path : Option Bytes
  pub connection_mask : Connection

abbrev pub command_new : Command
command_new = record {
  path = none;
  argc = 0;
  argv = none;
  redirect_to_path = none;
  redirect_from_path = none;
  connection_mask = no_connection;
}

abbrev pub is_pipe : Connection → Bool
is_pipe pipe_connection = true
is_pipe _ = false

abbrev pub is_background : Connection → Bool
is_background background = true
is_background _ = false

-- the allocated memory that a command leads to: a word of `argv` by its position, the array, the
-- names of the redirections, and the command; `path` is the first word
pub data Block : Type 0 where
  argument : ℕ → Block
  argument_vector to_path from_path whole_command : Block

-- the `while` over `argv`, from position `i` on
unfoldable pub free_arguments : ℕ → List Bytes → List Block
free_arguments i [] = argument_vector ∷ []
free_arguments i (_ ∷ words) = argument i ∷ free_arguments (i + 1) words

abbrev pub free_argv : Option (List Bytes) → List Block
free_argv none = []
free_argv (some words) = free_arguments 0 words

abbrev pub free_path : Block → Option Bytes → List Block
free_path block none = []
free_path block (some _) = block ∷ []

-- the calls of `free` in `commandFree`
unfoldable pub command_free : Command → List Block
unfolding free_arguments
command_free c =
    free_argv c.argv
    ++ (free_path to_path c.redirect_to_path
        ++ (free_path from_path c.redirect_from_path ++ whole_command ∷ []))
