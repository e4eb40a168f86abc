-- ===== src/Main/Cutting.antt =====
-- A round of `run` on a pipeline whose second command has no words.
use redshell.Alias.Table.{HashTable}
use redshell.Alias.{Alias}
use redshell.Base.{ℕ, ◌≡◌, true, none, some, Option, List, [], ◌∷◌, ◌++◌, Bytes, ok, ◌>>=◌, All}
use redshell.Builtins.{Environment, World}
use redshell.Command.{Command, is_pipe}
use redshell.Helper.Aliases.{expand_alias}
use redshell.Helper.Words.{WordExp}
use redshell.Jobs.Loop.{execute_commands_in_queue}
use redshell.Jobs.{System}
use redshell.Main.{Memory, expansion, execute_parsed, run_round}
use redshell.Parser.Grammar.Cuts.{parse_input-cut}
use redshell.Parser.Grammar.{Complex, commands, by_pipe, IsLine, render, kept}
use redshell.Parser.Lookup.{CharType}
use redshell.Parser.Machine.{illegal_character}
use redshell.Parser.Outline.Rounds.{IsChar}
use redshell.Shell.{linked}

module _ (h : HashTable Alias) (env : Environment) (sys : System env)
    (wordexp : env.State → WordExp) where
  -- On two commands with a pipe between them, where `wordexp` finds the words of the first and refuses
  -- those of the second, a round reports an illegal character, adds the line to the history and
  -- executes the first command alone, connected to a pipe: a pipeline without its second command.
  pub run_round-cut :
      (t : CharType) (m : Memory h env sys wordexp) (history : List Bytes) (fg : Option (Option ℕ))
      (w : World h env) (first second : Complex) (line line' : Bytes) (words : List Bytes)
      (aliases aliases' : h.Table)
      → IsLine (commands ((first, by_pipe) ∷ []) second)
      → All IsChar (render (commands ((first, by_pipe) ∷ []) second))
      → expand_alias h w.aliases (kept first.text) ≡ ok (line, aliases)
      → wordexp w.state line ≡ some words
      → expand_alias h aliases (kept second.text) ≡ ok (line', aliases')
      → wordexp w.state line' ≡ none
      → (c : Command) × (is_pipe c.connection_mask ≡ true)
        × (c.argv ≡ some words)
        × (run_round h env sys wordexp t m
              (expansion (render (commands ((first, by_pipe) ∷ []) second)))
              history
              fg
              w
            ≡ (execute_commands_in_queue h env sys m.rounds m.pipes m.launched
                  (c ∷ [])
                  fg
                  (record w { aliases = aliases' })
                >>= λ (done, fg'). ok (record {
                  done = done;
                  fg_pid = fg';
                  history = history ++ render (commands ((first, by_pipe) ∷ []) second) ∷ [];
                  messages = illegal_character ∷ [];
                })))
  unfolding run_round execute_parsed
  run_round-cut t m history fg w first second line line' words aliases aliases' is chars e1 w1 e2
        w2 =
      let (c, piped, named, parses) =
        parse_input-cut (linked h (wordexp w.state)) t m.params w.aliases first second line line'
          words aliases aliases' is chars e1 w1 e2 w2 in
      (c, piped, named, rw parses)
