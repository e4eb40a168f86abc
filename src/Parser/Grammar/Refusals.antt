-- ===== src/Parser/Grammar/Refusals.antt =====
-- Lines that the chart does not accept.
use redshell.Base.{
  ℕ, ◌≡◌, refl, true, false, Option, none, some, List, [], ◌∷◌, ◌++◌, Bytes, Run, Fault, ok, fault,
  ◌>>=◌, ap, Bool-cases, inl, inr,
}
use redshell.Parser.Chart.{
  State, error, start, in_command, after_bg, after_separator, before_command, before_in, in_in,
  before_second_out, in_second_out, before_out, in_out, before_second_in, in_second_in, blank_line,
  final, Action, append, append_in, append_out, new, term, pipe, bg, seq, nul, next, end_move,
  name_move, classify, is_error,
}
use redshell.Parser.Grammar.Language.{accepts}
use redshell.Parser.Grammar.Sweep.{follow-round}
use redshell.Parser.Machine.{Expander, Parsed, Message, illegal_character, parser_error_near}
use redshell.Parser.Outline.{Draft, Stage, going, quit, complete, settle, act, act_all, follow}

zero-nul : classify 0 ≡ nul
unfolding classify
zero-nul = refl

module _ (e : Expander) where
  open e use {Aliases, expand_alias, wordexp}

  -- a call of `expandAlias` that reaches the undefined behaviour
  abbrev pub Faulting : Fault → Type 0
  Faulting f = (aliases : Aliases) × (text : Bytes) × (expand_alias aliases text ≡ fault f)

  -- a text whose words `wordexp` refuses once its aliases are expanded, with the aliases after that
  abbrev pub Wordless : Aliases → Type 0
  Wordless after =
      (aliases : Aliases) × (text line : Bytes) × (expand_alias aliases text ≡ ok (line, after))
      × (wordexp line ≡ none)

  -- how a line that is refused ends: `expandAlias` reached undefined behaviour, `wordexp` refused a
  -- command before the place of the error, or the error is reported and no command is kept
  pub data Refused : Run (Parsed Aliases) → Type 0 where
    faulted : (f : Fault) → Faulting f → Refused (fault f)
    unexpanded :
        (p : Parsed Aliases) (messages : List Message)
        → Wordless p.aliases
        → p.messages ≡ messages ++ illegal_character ∷ []
        → Refused (ok p)
    misplaced :
        (p : Parsed Aliases) (messages : List Message) (before here : Option ℕ)
        → p.queue ≡ []
        → p.messages ≡ messages ++ parser_error_near before here ∷ []
        → Refused (ok p)

  -- a stage that ended did so at a word that could not be expanded
  abbrev pub Stopped : Run (Stage Aliases) → Type 0
  Stopped (fault f) = Faulting f
  Stopped (ok (going d p)) = Unit
  Stopped (ok (quit p)) =
      Wordless p.aliases
      × ((messages : List Message) × (p.messages ≡ messages ++ illegal_character ∷ []))

  pub complete-Stopped :
      (d : Draft) (text : Bytes) (p : Parsed Aliases) → Stopped (complete e d text p)
  unfolding complete
  complete-Stopped d [] p = tt
  complete-Stopped d (c ∷ text) p = expanded (expand_alias p.aliases (c ∷ text)) refl
    where
      settled :
          (line : Bytes) (aliases : Aliases) (found : Option (List Bytes))
          → expand_alias p.aliases (c ∷ text) ≡ ok (line, aliases)
          → wordexp line ≡ found
          → Stopped (ok (settle e d (record p { aliases = aliases }) found))
      settled line aliases none called refuses =
          ((p.aliases, c ∷ text, line, called, refuses), (p.messages, refl))
      settled line aliases (some ws) called found = tt

      expanded :
          (r : Run (Bytes × Aliases))
          → expand_alias p.aliases (c ∷ text) ≡ r
          → Stopped (
              r >>= λ (line, aliases).
              ok (settle e d (record p { aliases = aliases }) (wordexp line)))
      expanded (fault f) called = (p.aliases, c ∷ text, called)
      expanded (ok (line, aliases)) called = settled line aliases (wordexp line) called refl

  act-Stopped : (a : Action) (c : ℕ) (d : Draft) (p : Parsed Aliases) → Stopped (act e a c d p)
  unfolding act
  act-Stopped append c d p = tt
  act-Stopped append_in c d p = tt
  act-Stopped append_out c d p = tt
  act-Stopped new c d p = tt
  act-Stopped term c d p = complete-Stopped d d.buffer p
  act-Stopped pipe c d p = tt
  act-Stopped bg c d p = tt
  act-Stopped seq c d p = tt

  act_all-Stopped :
      (acts : List Action) (c : ℕ) (d : Draft) (p : Parsed Aliases) → Stopped (act_all e acts c d p)
  unfolding act_all
  act_all-Stopped [] c d p = tt
  act_all-Stopped (a ∷ acts) c d p =
      on (act e a c d p) (act-Stopped a c d p) (act_all-Stopped acts c)
    where
      on :
          (r : Run (Stage Aliases))
          → Stopped r
          → ((d' : Draft) (p' : Parsed Aliases) → Stopped (act_all e acts c d' p'))
          → Stopped (r >>= elim [ going d' p' ↦ act_all e acts c d' p' | quit p' ↦ ok (quit p') ])
      on (fault f) stopped rest = stopped
      on (ok (going d' p')) stopped rest = rest d' p'
      on (ok (quit p')) stopped rest = stopped

  -- behind the actions of a byte
  after_acts-Refused :
      (r : Run (Stage Aliases)) (k : Draft → Parsed Aliases → Run (Parsed Aliases))
      → Stopped r
      → ((d : Draft) (p : Parsed Aliases) → Refused (k d p))
      → Refused (r >>= elim [ quit p ↦ ok p | going d p ↦ k d p ])
  after_acts-Refused (fault f) k stopped refuses = faulted f stopped
  after_acts-Refused (ok (going d p)) k stopped refuses = refuses d p
  after_acts-Refused (ok (quit p)) k stopped refuses =
      unexpanded p stopped.1.0 stopped.0 stopped.1.1

  end-is_error : (s : State) → accepts s [] ≡ false → is_error (next s nul).to ≡ true
  unfolding accepts next end_move name_move
  end-is_error error h = refl
  end-is_error start h = cc
  end-is_error in_command h = cc
  end-is_error after_bg h = cc
  end-is_error after_separator h = refl
  end-is_error before_command h = refl
  end-is_error before_in h = refl
  end-is_error in_in h = cc
  end-is_error before_second_out h = refl
  end-is_error in_second_out h = cc
  end-is_error before_out h = refl
  end-is_error in_out h = cc
  end-is_error before_second_in h = refl
  end-is_error in_second_in h = cc
  end-is_error blank_line h = cc
  end-is_error final h = refl

  pub follow-Refused :
      (s : State) (before : Option ℕ) (line : Bytes) (d : Draft) (p : Parsed Aliases)
      → accepts s line ≡ false
      → Refused (follow e s before (line ++ 0 ∷ []) d p)
  unfolding follow accepts
  follow-Refused s before [] d p h =
      rw (follow-round e s (next s nul) 0 (ap (next s) zero-nul) before [] d p) (
        after_acts-Refused _ _ (act_all-Stopped (next s nul).acts 0 d p)
          (λ d' p'. rw (end-is_error s h) (misplaced _ p'.messages before (some 0) refl refl)))
  follow-Refused s before (c ∷ rest) d p h =
      after_acts-Refused _ _ (act_all-Stopped (next s (classify c)).acts c d p) (λ d' p'.
        elim (Bool-cases (is_error (next s (classify c)).to)) [
          | inl stuck ↦ rw stuck (misplaced _ p'.messages before (some c) refl refl)
          | inr on ↦ rw on (follow-Refused (next s (classify c)).to (some c) rest d' p' h)
        ])
