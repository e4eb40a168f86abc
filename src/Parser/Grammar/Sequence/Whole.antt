-- ===== src/Parser/Grammar/Sequence/Whole.antt =====
-- The commands of the first line, then those of the second.
use mathlib.Core.Path.{subst}
use mathlib.Core.List.{append_assoc, append-nil}
use redshell.Base.{
  ◌≡◌, refl, Option, none, some, List, [], ◌∷◌, ◌++◌, Bytes, Run, ok, fault, ◌>>=◌, All, ◌∙◌, ap,
  sym, IfOk, All-append, arith,
}
use redshell.Parser.Grammar.Endings.{loud}
use redshell.Parser.Grammar.Lines.{parse_input-meaning}
use redshell.Parser.Grammar.Refusals.{Stopped, complete-Stopped}
use redshell.Parser.Grammar.Sequence.{seal, sealed, sealed-snoc, behind, enter_all-behind}
use redshell.Parser.Grammar.{
  Complex, Separator, by_seq, commands, IsComplex, IsText, AreComplexes, IsLine, render_complex,
  render_separator, render_done, render, enter_all, meaning, kept, draft_of, mask_before, own_mask,
  ended,
}
use redshell.Parser.Lookup.{CharType}
use redshell.Parser.Machine.{Expander, Params, Parsed, illegal_character, parse_input}
use redshell.Parser.Outline.Rounds.{IsChar}
use redshell.Parser.Outline.{
  Stage, going, quit, complete, settle, command_of, enter, refuse, nothing,
}

render-sequence :
    (done : List (Complex × Separator)) (c : Complex) (done' : List (Complex × Separator))
    (last : Complex)
    → render (commands (done ++ (c, by_seq) ∷ done') last)
      ≡ render (commands done c) ++ b';' ∷ render (commands done' last)
unfolding render_done
render-sequence [] c done' last =
    append_assoc (render_complex c) (b';' ∷ render_done done') (render_complex last)
render-sequence ((b, s) ∷ done) c done' last =
    append_assoc (render_complex b) _ (render_complex last)
    ∙ ap (λ more. render_complex b ++ render_separator s ∷ more) (render-sequence done c done' last)
    ∙ sym (simp append_assoc)

AreComplexes-append :
    (done : List (Complex × Separator)) (c : Complex) (done' : List (Complex × Separator))
    → AreComplexes done
    → IsComplex c
    → AreComplexes done'
    → AreComplexes (done ++ (c, by_seq) ∷ done')
AreComplexes-append [] c done' are is are' = (is, are')
AreComplexes-append (b ∷ done) c done' are is are' =
    (are.0, AreComplexes-append done c done' are.1 is are')

module _ (e : Expander) where
  open e use {Aliases, expand_alias, wordexp}

  -- behind a `;`
  abbrev sealed_all : Parsed Aliases → Parsed Aliases
  sealed_all p = record p { queue = sealed e p.queue }

  seal-command_of :
      (c : Complex) (ws : List Bytes)
      → seal e (command_of e (draft_of c (own_mask c.ampersand)) ws)
        ≡ command_of e (draft_of c (mask_before by_seq c.ampersand)) ws
  seal-command_of c ws = masks c.ampersand
    where
      masks :
          (amp : Option Bytes)
          → seal e (command_of e (draft_of c (own_mask amp)) ws)
            ≡ command_of e (draft_of c (mask_before by_seq amp)) ws
      masks none = refl
      masks (some gap) = refl

  -- the last command of a line that ended without a message
  settle-sealed :
      (c : Complex) (p p1 : Parsed Aliases) (found : Option (List Bytes))
      → ended e (settle e (draft_of c (own_mask c.ampersand)) p found) ≡ ok p1
      → p1.messages ≡ []
      → settle e (draft_of c (mask_before by_seq c.ampersand)) p found
        ≡ going (draft_of c (mask_before by_seq c.ampersand)) (sealed_all p1)
  settle-sealed c p p1 none ends quiet =
      let same : (refuse e p).messages ≡ p1.messages =
        subst (IfOk (λ r. (refuse e p).messages ≡ r.messages)) ends refl in
      absurd (loud p.messages illegal_character (same ∙ quiet))
  settle-sealed c p p1 (some ws) ends quiet =
      let d = draft_of c (mask_before by_seq c.ampersand) in
      let cmd = command_of e (draft_of c (own_mask c.ampersand)) ws in
      subst (IfOk (λ r. going d (enter e p (command_of e d ws)) ≡ going d (sealed_all r))) ends (
        ap (λ cs. going d (record p { queue = cs }))
          (ap (λ last. p.queue ++ last ∷ []) (sym (seal-command_of c ws))
            ∙ sym (sealed-snoc e p.queue cmd)))

  complete-sealed :
      (c : Complex) (text : Bytes) (p p1 : Parsed Aliases)
      → IsText text
      → (complete e (draft_of c (own_mask c.ampersand)) (kept text) p >>= ended e) ≡ ok p1
      → p1.messages ≡ []
      → complete e (draft_of c (mask_before by_seq c.ampersand)) (kept text) p
        ≡ ok (going (draft_of c (mask_before by_seq c.ampersand)) (sealed_all p1))
  unfolding complete
  complete-sealed c [] p p1 is ends quiet = absurd is
  complete-sealed c (b ∷ text) p p1 is ends quiet =
      expanded (expand_alias p.aliases (kept (b ∷ text))) ends
    where
      expanded :
          (r : Run (Bytes × Aliases))
          → (r
              >>= (λ (line, aliases). ok (
                  settle e
                    (draft_of c (own_mask c.ampersand))
                    (record p { aliases = aliases })
                    (wordexp line)))
              >>= ended e)
            ≡ ok p1
          → (r >>= λ (line, aliases). ok (
              settle e
                (draft_of c (mask_before by_seq c.ampersand))
                (record p { aliases = aliases })
                (wordexp line)))
            ≡ ok (going (draft_of c (mask_before by_seq c.ampersand)) (sealed_all p1))
      expanded (fault f) ends' = absurd cc
      expanded (ok (line, aliases)) ends' =
          ap ok (settle-sealed c (record p { aliases = aliases }) p1 (wordexp line) ends' quiet)

  enter_all-sequence :
      (done : List (Complex × Separator)) (c : Complex) (done' : List (Complex × Separator))
      (last : Complex) (p p1 : Parsed Aliases)
      → IsText c.text
      → enter_all e done c p ≡ ok p1
      → p1.messages ≡ []
      → enter_all e (done ++ (c, by_seq) ∷ done') last p ≡ enter_all e done' last (sealed_all p1)
  unfolding enter_all
  enter_all-sequence [] c done' last p p1 is ends quiet =
      rw (complete-sealed c c.text p p1 is ends quiet)
  enter_all-sequence ((b, s) ∷ done) c done' last p p1 is ends quiet =
      on (complete e (draft_of b (mask_before s b.ampersand)) (kept b.text) p)
        (complete-Stopped e (draft_of b (mask_before s b.ampersand)) (kept b.text) p) ends
        (λ p' ends'. enter_all-sequence done c done' last p' p1 is ends' quiet)
    where
      on :
          (r : Run (Stage Aliases))
          → Stopped e r
          → (r >>= elim [ going _ p' ↦ enter_all e done c p' | quit p' ↦ ok p' ]) ≡ ok p1
          → ((p' : Parsed Aliases)
              → enter_all e done c p' ≡ ok p1
              → enter_all e (done ++ (c, by_seq) ∷ done') last p'
                ≡ enter_all e done' last (sealed_all p1))
          → (r >>= elim [
            | going _ p' ↦ enter_all e (done ++ (c, by_seq) ∷ done') last p'
            | quit p' ↦ ok p'
          ])
            ≡ enter_all e done' last (sealed_all p1)
      on (fault f) stopped ends' later = absurd cc
      on (ok (going d p')) stopped ends' later = later p' ends'
      on (ok (quit p')) (wordless, (messages, loud_p)) ends' later =
          let same : p'.messages ≡ p1.messages =
            subst (IfOk (λ r. p'.messages ≡ r.messages)) ends' refl in
          absurd (loud messages illegal_character (sym loud_p ∙ same ∙ quiet))

  sealed_all-behind :
      (p1 : Parsed Aliases)
      → p1.messages ≡ []
      → sealed_all p1 ≡ behind e (sealed e p1.queue) (nothing e p1.aliases)
  sealed_all-behind p1 quiet =
      ap (λ m. record p1 { queue = sealed e p1.queue; messages = m }) quiet
      ∙ ap (λ q. record (nothing e p1.aliases) { queue = q }) (sym (append-nil (sealed e p1.queue)))

  -- The line of two lines of trees that have commands, with a `;` between them: where `parse_input`
  -- returns on the first without a message, and on the second with the aliases that the first leaves,
  -- it returns on the whole the commands of the first, the last of them with the connection that the
  -- action for `;` gives it, and behind them the commands of the second, with the second's aliases
  -- and messages.
  pub parse_input-sequence :
      (t : CharType) (junk : Params) (aliases : Aliases) (done : List (Complex × Separator))
      (c : Complex) (done' : List (Complex × Separator)) (last : Complex) (p1 p2 : Parsed Aliases)
      → IsLine (commands done c)
      → IsLine (commands done' last)
      → All IsChar (render (commands done c))
      → All IsChar (render (commands done' last))
      → parse_input e t junk aliases (render (commands done c)) ≡ ok p1
      → p1.messages ≡ []
      → parse_input e t junk p1.aliases (render (commands done' last)) ≡ ok p2
      → parse_input e t junk aliases
          (render (commands done c) ++ b';' ∷ render (commands done' last))
        ≡ ok (record p2 { queue = sealed e p1.queue ++ p2.queue })
  unfolding meaning
  parse_input-sequence t junk aliases done c done' last p1 p2 is is' chars chars' first quiet
        second =
      let whole = commands (done ++ (c, by_seq) ∷ done') last in
      let first' : enter_all e done c (nothing e aliases) ≡ ok p1 =
        sym (parse_input-meaning e t junk aliases (commands done c) is chars) ∙ first in
      let second' : enter_all e done' last (nothing e p1.aliases) ≡ ok p2 =
        sym (parse_input-meaning e t junk p1.aliases (commands done' last) is' chars') ∙ second in
      let chars'' : All IsChar (render (commands done c) ++ b';' ∷ render (commands done' last)) =
        All-append {0, 0} IsChar _ _ chars ((omega arith), chars') in
      ap (parse_input e t junk aliases) (sym (render-sequence done c done' last))
      ∙ parse_input-meaning e t junk aliases whole
          (AreComplexes-append done c done' is.0 is.1 is'.0, is'.1)
          (subst (All IsChar) (sym (render-sequence done c done' last)) chars'')
      ∙ enter_all-sequence done c done' last (nothing e aliases) p1 is.1.text first' quiet
      ∙ ap (enter_all e done' last) (sealed_all-behind p1 quiet)
      ∙ enter_all-behind e (sealed e p1.queue) done' last (nothing e p1.aliases)
      ∙ ap (λ run. run >>= λ p. ok (behind e (sealed e p1.queue) p)) second'
