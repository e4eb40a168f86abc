-- ===== src/Parser/Grammar/Sequence.antt =====
-- A line of two lines with a `;` between them.
pub mod Whole
use mathlib.Core.List.{append_assoc, append-nil}
use redshell.Base.{
  ℕ, ◌≡◌, refl, Bool, Option, none, some, List, [], ◌∷◌, ◌++◌, Bytes, Run, ok, fault, ◌>>=◌, All,
  ◌∙◌, ap, sym,
}
use redshell.Command.{Command, background, is_background}
use redshell.Parser.Grammar.Lines.{parse_input-meaning}
use redshell.Parser.Grammar.{
  Complex, Separator, by_pipe, by_seq, Line, commands, IsComplex, IsText, AreComplexes, IsLine,
  render_complex, render_separator, render_done, render, enter_all, enter_complex, meaning, kept,
  draft_of, mask_before, own_mask, ended,
}
use redshell.Parser.Lookup.{CharType}
use redshell.Parser.Machine.{
  Expander, Params, Parsed, Message, illegal_character, parse_input, seq_mask,
}
use redshell.Parser.Outline.Rounds.{IsChar}
use redshell.Parser.Outline.{
  Draft, Stage, going, quit, complete, settle, command_of, enter, nothing,
}

module _ (e : Expander) where
  open e use {Aliases, expand_alias, wordexp}

  -- what the action for `;` does to a command's connection
  abbrev pub seal : Command → Command
  seal c = record c { connection_mask = seq_mask e c.connection_mask }

  -- to the last command
  abbrev pub sealed : List Command → List Command
  sealed [] = []
  sealed (c ∷ []) = seal c ∷ []
  sealed (b ∷ c ∷ cs) = b ∷ sealed (c ∷ cs)

  pub sealed-snoc : (cs : List Command) (c : Command) → sealed (cs ++ c ∷ []) ≡ cs ++ seal c ∷ []
  sealed-snoc [] c = refl
  sealed-snoc (b ∷ []) c = refl
  sealed-snoc (b ∷ d ∷ cs) c = ap (λ more. b ∷ more) (sealed-snoc (d ∷ cs) c)

  -- with commands before those of `p`
  abbrev pub behind : List Command → Parsed Aliases → Parsed Aliases
  behind q p = record p { queue = q ++ p.queue }

  abbrev behind_stage : List Command → Stage Aliases → Stage Aliases
  behind_stage q (going d p) = going d (behind q p)
  behind_stage q (quit p) = quit (behind q p)

  settle-behind :
      (q : List Command) (d : Draft) (p : Parsed Aliases) (found : Option (List Bytes))
      → settle e d (behind q p) found ≡ behind_stage q (settle e d p found)
  settle-behind q d p none = refl
  settle-behind q d p (some ws) =
      ap (λ cs. going d (record p { queue = cs })) (append_assoc q p.queue (command_of e d ws ∷ []))

  complete-behind :
      (q : List Command) (d : Draft) (text : Bytes) (p : Parsed Aliases)
      → complete e d text (behind q p)
        ≡ (complete e d text p >>= λ stage. ok (behind_stage q stage))
  unfolding complete
  complete-behind q d [] p = refl
  complete-behind q d (c ∷ text) p = expanded (expand_alias p.aliases (c ∷ text))
    where
      expanded :
          (r : Run (Bytes × Aliases))
          → (r >>= λ (line, aliases).
              ok (settle e d (record (behind q p) { aliases = aliases }) (wordexp line)))
            ≡ (r
                >>= (λ (line, aliases).
                    ok (settle e d (record p { aliases = aliases }) (wordexp line)))
                >>= λ stage. ok (behind_stage q stage))
      expanded (fault f) = refl
      expanded (ok (line, aliases)) =
          ap ok (settle-behind q d (record p { aliases = aliases }) (wordexp line))

  pub enter_all-behind :
      (q : List Command) (done : List (Complex × Separator)) (last : Complex) (p : Parsed Aliases)
      → enter_all e done last (behind q p) ≡ (enter_all e done last p >>= λ p'. ok (behind q p'))
  unfolding enter_all
  enter_all-behind q [] last p =
      rw (complete-behind q (draft_of last (own_mask last.ampersand)) (kept last.text) p)
        (ends (enter_complex e last (own_mask last.ampersand) p))
    where
      ends :
          (r : Run (Stage Aliases))
          → (r >>= (λ stage. ok (behind_stage q stage)) >>= ended e)
            ≡ (r >>= ended e >>= λ p'. ok (behind q p'))
      ends (fault f) = refl
      ends (ok (going d p')) = refl
      ends (ok (quit p')) = refl
  enter_all-behind q ((c, s) ∷ done) last p =
      rw (complete-behind q (draft_of c (mask_before s c.ampersand)) (kept c.text) p)
        (ends (enter_complex e c (mask_before s c.ampersand) p) (enter_all-behind q done last))
    where
      ends :
          (r : Run (Stage Aliases))
          → ((p' : Parsed Aliases)
              → enter_all e done last (behind q p')
                ≡ (enter_all e done last p' >>= λ p''. ok (behind q p'')))
          → (r
              >>= (λ stage. ok (behind_stage q stage))
              >>= elim [ going _ p' ↦ enter_all e done last p' | quit p' ↦ ok p' ])
            ≡ (r >>= elim [ going _ p' ↦ enter_all e done last p' | quit p' ↦ ok p' ] >>= λ p'.
                ok (behind q p'))
      ends (fault f) later = refl
      ends (ok (going d p')) later = later p'
      ends (ok (quit p')) later = refl
