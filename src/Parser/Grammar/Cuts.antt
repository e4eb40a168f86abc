-- ===== src/Parser/Grammar/Cuts.antt =====
-- A line one of whose commands cannot be expanded: what is before that command stays in the queue.
use redshell.Base.{
  ◌≡◌, refl, true, none, some, Option, List, [], ◌∷◌, Bytes, ok, ◌>>=◌, All, ◌∙◌, ap,
}
use redshell.Command.{Command, is_pipe}
use redshell.Parser.Grammar.Lines.{parse_input-meaning}
use redshell.Parser.Grammar.{
  Complex, commands, by_pipe, IsText, IsLine, render, enter_all, meaning, kept, draft_of,
  mask_before, own_mask, ended,
}
use redshell.Parser.Lookup.{CharType}
use redshell.Parser.Machine.{Expander, Params, Parsed, illegal_character, parse_input}
use redshell.Parser.Outline.Rounds.{IsChar}
use redshell.Parser.Outline.{Draft, complete, settle, command_of, enter, nothing}

module _ (e : Expander) where
  open e use {Aliases, expand_alias, wordexp}

  -- a command whose words are found, or are not
  complete-words :
      (d : Draft) (text : Bytes) (p : Parsed Aliases) (line : Bytes) (aliases : Aliases)
      (found : Option (List Bytes))
      → IsText text
      → expand_alias p.aliases (kept text) ≡ ok (line, aliases)
      → wordexp line ≡ found
      → complete e d (kept text) p ≡ ok (settle e d (record p { aliases = aliases }) found)
  unfolding complete
  complete-words d [] p line aliases found is expands words = absurd is
  complete-words d (c ∷ text) p line aliases found is expands words = rw (expands, words)

  -- Of two commands with a pipe between them, where the words of the first are found and those of the
  -- second are refused, `parse_input` returns the first alone, connected to a pipe, and reports an
  -- illegal character.
  pub parse_input-cut :
      (t : CharType) (junk : Params) (aliases : Aliases) (first second : Complex)
      (line line' : Bytes) (words : List Bytes) (aliases' aliases'' : Aliases)
      → IsLine (commands ((first, by_pipe) ∷ []) second)
      → All IsChar (render (commands ((first, by_pipe) ∷ []) second))
      → expand_alias aliases (kept first.text) ≡ ok (line, aliases')
      → wordexp line ≡ some words
      → expand_alias aliases' (kept second.text) ≡ ok (line', aliases'')
      → wordexp line' ≡ none
      → (c : Command) × (is_pipe c.connection_mask ≡ true)
        × (c.argv ≡ some words)
        × (parse_input e t junk aliases (render (commands ((first, by_pipe) ∷ []) second))
            ≡ ok
                (record { queue = c ∷ []; aliases = aliases''; messages = illegal_character ∷ [] }))
  unfolding meaning enter_all
  parse_input-cut t junk aliases first second line line' words aliases' aliases'' is chars e1 w1 e2
        w2 =
      let l = commands ((first, by_pipe) ∷ []) second in
      let d = draft_of first (mask_before by_pipe first.ampersand) in
      let done =
        complete-words d first.text (nothing e aliases) line aliases' (some words) is.0.0.text e1
          w1 in
      let kept_one =
        enter e (record (nothing e aliases) { aliases = aliases' }) (command_of e d words) in
      let refused =
        complete-words (draft_of second (own_mask second.ampersand)) second.text kept_one line'
          aliases'' none is.1.text e2 w2 in
      (
        command_of e d words,
        refl,
        refl,
        parse_input-meaning e t junk aliases l is chars ∙ rw done (ap (λ r. r >>= ended e) refused),
      )
