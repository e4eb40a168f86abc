-- ===== src/Parser/Grammar/Endings.antt =====
-- The last command of a line is not followed by a pipe.
use mathlib.Core.Path.{subst}
use redshell.Base.{
  ◌≡◌, refl, inl, inr, false, Option, none, some, List, [], ◌∷◌, ◌++◌, Bytes, Run, ok, fault, ◌>>=◌,
  All, sym, ◌∙◌, take,
}
use redshell.Command.{Command, is_pipe}
use redshell.Parser.Grammar.Decides.{parse_input-Refused}
use redshell.Parser.Grammar.Refusals.{
  complete-Stopped, Stopped, Refused, faulted, unexpanded, misplaced,
}
use redshell.Parser.Grammar.{
  Complex, Separator, Line, blanks, commands, IsComplex, IsText, IsLine, enter_all, ended, meaning,
  kept, draft_of, own_mask, mask_before,
}
use redshell.Parser.Lookup.{CharType}
use redshell.Parser.Machine.{Expander, Params, Parsed, Message, illegal_character, parse_input}
use redshell.Parser.Outline.Rounds.{IsChar}
use redshell.Parser.Outline.{Draft, Stage, going, quit, complete, settle, nothing}

abbrev pub EndsUnpiped : List Command → Type 0
EndsUnpiped [] = Unit
EndsUnpiped (c ∷ []) = is_pipe c.connection_mask ≡ false
EndsUnpiped (_ ∷ c ∷ cs) = EndsUnpiped (c ∷ cs)

EndsUnpiped-snoc :
    (cs : List Command) (c : Command)
    → is_pipe c.connection_mask ≡ false
    → EndsUnpiped (cs ++ c ∷ [])
EndsUnpiped-snoc [] c unpiped = unpiped
EndsUnpiped-snoc (_ ∷ []) c unpiped = unpiped
EndsUnpiped-snoc (_ ∷ b ∷ cs) c unpiped = EndsUnpiped-snoc (b ∷ cs) c unpiped

pub loud : (messages : List Message) (m : Message) → messages ++ m ∷ [] ≡ [] → ⊥
loud [] m e = absurd (cc)
loud (_ ∷ messages) m e = absurd (cc)

module _ (e : Expander) where
  open e use {Aliases, expand_alias, wordexp}

  -- where the run returned and printed nothing
  abbrev QuietEndsUnpiped : Run (Parsed Aliases) → Type 0
  QuietEndsUnpiped (fault f) = Unit
  QuietEndsUnpiped (ok p) = p.messages ≡ [] → EndsUnpiped p.queue

  -- the last command of a line
  last-EndsUnpiped :
      (d : Draft) (text : Bytes) (p : Parsed Aliases)
      → is_pipe d.mask ≡ false
      → IsText text
      → QuietEndsUnpiped (complete e d (kept text) p >>= ended e)
  unfolding complete
  last-EndsUnpiped d [] p unpiped is = absurd is
  last-EndsUnpiped d (c ∷ text) p unpiped is =
      expanded (expand_alias p.aliases (c ∷ take 1023 text))
    where
      settled :
          (p' : Parsed Aliases) (found : Option (List Bytes))
          → QuietEndsUnpiped (ok (settle e d p' found) >>= ended e)
      settled p' none = λ quiet. absurd (loud p'.messages illegal_character quiet)
      settled p' (some ws) = λ quiet. EndsUnpiped-snoc p'.queue _ unpiped

      expanded :
          (r : Run (Bytes × Aliases))
          → QuietEndsUnpiped (
              (r >>= λ (line, aliases).
              ok (settle e d (record p { aliases = aliases }) (wordexp line)))
              >>= ended e)
      expanded (fault f) = tt
      expanded (ok (line, aliases)) = settled (record p { aliases = aliases }) (wordexp line)

  own_mask-unpiped : (amp : Option Bytes) → is_pipe (own_mask amp) ≡ false
  own_mask-unpiped none = refl
  own_mask-unpiped (some gap) = refl

  Quiet-quit :
      (p : Parsed Aliases) (messages : List Message)
      → p.messages ≡ messages ++ illegal_character ∷ []
      → QuietEndsUnpiped (ok p)
  Quiet-quit p messages loud_p =
      λ quiet. absurd (loud messages illegal_character (sym loud_p ∙ quiet))

  -- behind a command that is not the last
  next-EndsUnpiped :
      (r : Run (Stage Aliases)) (k : Parsed Aliases → Run (Parsed Aliases))
      → Stopped e r
      → ((p : Parsed Aliases) → QuietEndsUnpiped (k p))
      → QuietEndsUnpiped (r >>= elim [ going _ p ↦ k p | quit p ↦ ok p ])
  next-EndsUnpiped (fault f) k stopped later = tt
  next-EndsUnpiped (ok (going d p)) k stopped later = later p
  next-EndsUnpiped (ok (quit p)) k (wordless, (messages, loud_p)) later =
      Quiet-quit p messages loud_p

  enter_all-EndsUnpiped :
      (done : List (Complex × Separator)) (last : Complex) (p : Parsed Aliases)
      → IsComplex last
      → QuietEndsUnpiped (enter_all e done last p)
  unfolding enter_all
  enter_all-EndsUnpiped [] last p is =
      last-EndsUnpiped (draft_of last (own_mask last.ampersand)) last.text p
        (own_mask-unpiped last.ampersand) is.text
  enter_all-EndsUnpiped ((c, s) ∷ done) last p is =
      next-EndsUnpiped _ (enter_all e done last)
        (complete-Stopped e (draft_of c (mask_before s c.ampersand)) (kept c.text) p)
        (λ p'. enter_all-EndsUnpiped done last p' is)

  meaning-EndsUnpiped :
      (aliases : Aliases) (l : Line) → IsLine l → QuietEndsUnpiped (meaning e aliases l)
  unfolding meaning
  meaning-EndsUnpiped aliases (blanks gap) is = λ quiet. tt
  meaning-EndsUnpiped aliases (commands done last) is =
      enter_all-EndsUnpiped done last (nothing e aliases) is.1

  Refused-QuietEndsUnpiped : (run : Run (Parsed Aliases)) → Refused e run → QuietEndsUnpiped run
  Refused-QuietEndsUnpiped run (faulted f fails) = tt
  Refused-QuietEndsUnpiped run (unexpanded p messages wordless loud_p) =
      Quiet-quit p messages loud_p
  Refused-QuietEndsUnpiped run (misplaced p messages before here empty loud_p) =
      λ quiet. absurd (loud messages _ (sym loud_p ∙ quiet))

  -- On every line of characters, none of them the terminator: where `parse_input` returns and prints
  -- no message, the last command of the queue is not connected to another by a pipe.
  pub parse_input-EndsUnpiped :
      (t : CharType) (junk : Params) (aliases : Aliases) (line : Bytes) (p : Parsed Aliases)
      → All IsChar line
      → parse_input e t junk aliases line ≡ ok p
      → p.messages ≡ []
      → EndsUnpiped p.queue
  parse_input-EndsUnpiped t junk aliases line p chars parses quiet =
      subst QuietEndsUnpiped parses
        (elim (parse_input-Refused e t junk aliases line chars) [
          | inl (l, (is, (same, runs))) ↦ rw runs (meaning-EndsUnpiped aliases l is)
          | inr (no_tree, refused) ↦ Refused-QuietEndsUnpiped _ refused
        ])
        quiet
