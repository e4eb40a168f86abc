-- ===== src/Parser/Shapes.antt =====
-- What the commands that the parser puts into the queue look like.
use mathlib.Core.Path.{subst}
use redshell.Base.{
  ℕ, ◌≡◌, sym, ◌∙◌, refl, Option, none, some, List, [], ◌∷◌, ◌++◌, Bytes, All, Run, ok, fault,
  ◌>>=◌, Bool-cases, inl, inr,
}
use redshell.Command.{Command}
use redshell.Parser.Chart.{
  State, start, Action, append, append_in, append_out, new, term, pipe, bg, seq, next, classify,
  is_error,
}
use redshell.Parser.Lookup.{CharType}
use redshell.Parser.Machine.{Expander, Params, Parsed, parse_input}
use redshell.Parser.Outline.Rounds.{IsChar, parse_input-outline}
use redshell.Parser.Outline.{
  Draft, blank_draft, Stage, going, quit, head, complete, settle, act, act_all, follow, nothing,
  outline,
}

module _ (e : Expander) where
  open e use {Aliases, expand_alias, wordexp}

  -- the words are those of an expansion, and the path is the first of them
  pub record IsShaped (c : Command) : Type 0 where
    pub words : List Bytes
    pub line : Bytes
    pub expanded : wordexp line ≡ some words
    pub argv : c.argv ≡ some words
    pub path : c.path ≡ head words

  abbrev pub AreShaped : List Command → Type 0
  AreShaped = All IsShaped

  AreShaped-snoc :
      (cs : List Command) (c : Command) → AreShaped cs → IsShaped c → AreShaped (cs ++ c ∷ [])
  AreShaped-snoc [] c are is = (is, tt)
  AreShaped-snoc (b ∷ cs) c are is = (are.0, AreShaped-snoc cs c are.1 is)

  -- of a run that returned
  abbrev Shapes : Run (Parsed Aliases) → Type 0
  Shapes (fault f) = Unit
  Shapes (ok p) = AreShaped p.queue

  abbrev ShapesStage : Run (Stage Aliases) → Type 0
  ShapesStage (fault f) = Unit
  ShapesStage (ok (going d p)) = AreShaped p.queue
  ShapesStage (ok (quit p)) = AreShaped p.queue

  complete-Shapes :
      (d : Draft) (text : Bytes) (p : Parsed Aliases)
      → AreShaped p.queue
      → ShapesStage (complete e d text p)
  unfolding complete
  complete-Shapes d [] p are = are
  complete-Shapes d (c ∷ text) p are = expanded (expand_alias p.aliases (c ∷ text))
    where
      settled :
          (line : Bytes) (aliases : Aliases) (found : Option (List Bytes))
          → wordexp line ≡ found
          → ShapesStage (ok (settle e d (record p { aliases = aliases }) found))
      settled line aliases none at = are
      settled line aliases (some ws) at =
          AreShaped-snoc p.queue _ are
            (record { words = ws; line = line; expanded = at; argv = refl; path = refl })

      expanded :
          (r : Run (Bytes × Aliases))
          → ShapesStage (
              r >>= λ (line, aliases).
              ok (settle e d (record p { aliases = aliases }) (wordexp line)))
      expanded (fault f) = tt
      expanded (ok (line, aliases)) = settled line aliases (wordexp line) refl

  act-Shapes :
      (a : Action) (c : ℕ) (d : Draft) (p : Parsed Aliases)
      → AreShaped p.queue
      → ShapesStage (act e a c d p)
  unfolding act
  act-Shapes append c d p are = are
  act-Shapes append_in c d p are = are
  act-Shapes append_out c d p are = are
  act-Shapes new c d p are = are
  act-Shapes term c d p are = complete-Shapes d d.buffer p are
  act-Shapes pipe c d p are = are
  act-Shapes bg c d p are = are
  act-Shapes seq c d p are = are

  act_all-Shapes :
      (acts : List Action) (c : ℕ) (d : Draft) (p : Parsed Aliases)
      → AreShaped p.queue
      → ShapesStage (act_all e acts c d p)
  unfolding act_all
  act_all-Shapes [] c d p are = are
  act_all-Shapes (a ∷ acts) c d p are =
      on (act e a c d p) (act-Shapes a c d p are) (act_all-Shapes acts c)
    where
      on :
          (r : Run (Stage Aliases))
          → ShapesStage r
          → ((d' : Draft) (p' : Parsed Aliases)
              → AreShaped p'.queue
              → ShapesStage (act_all e acts c d' p'))
          → ShapesStage
              (r >>= elim [ going d' p' ↦ act_all e acts c d' p' | quit p' ↦ ok (quit p') ])
      on (fault f) shapes rest = tt
      on (ok (going d' p')) shapes rest = rest d' p' shapes
      on (ok (quit p')) shapes rest = shapes

  after_acts-Shapes :
      (r : Run (Stage Aliases)) (k : Draft → Parsed Aliases → Run (Parsed Aliases))
      → ShapesStage r
      → ((d : Draft) (p : Parsed Aliases) → AreShaped p.queue → Shapes (k d p))
      → Shapes (r >>= elim [ quit p ↦ ok p | going d p ↦ k d p ])
  after_acts-Shapes (fault f) k shapes later = tt
  after_acts-Shapes (ok (going d p)) k shapes later = later d p shapes
  after_acts-Shapes (ok (quit p)) k shapes later = shapes

  follow-Shapes :
      (s : State) (before : Option ℕ) (line : Bytes) (d : Draft) (p : Parsed Aliases)
      → AreShaped p.queue
      → Shapes (follow e s before line d p)
  unfolding follow
  follow-Shapes s before [] d p are = are
  follow-Shapes s before (c ∷ rest) d p are =
      after_acts-Shapes _ _ (act_all-Shapes (next s (classify c)).acts c d p are) (λ d' p' are'.
        elim (Bool-cases (is_error (next s (classify c)).to)) [
          | inl stuck ↦ rw stuck tt
          | inr on ↦ rw on (follow-Shapes (next s (classify c)).to (some c) rest d' p' are')
        ])

  -- Where `parse_input` returns on a line of characters, none of them the terminator, each of its
  -- commands holds in `argv` the words of an expansion, and its path is the first of these words, or
  -- the null pointer where there are none: also where a later command of the line was refused.
  pub parse_input-AreShaped :
      (t : CharType) (junk : Params) (aliases : Aliases) (line : Bytes) (p : Parsed Aliases)
      → All IsChar line
      → parse_input e t junk aliases line ≡ ok p
      → AreShaped p.queue
  unfolding outline
  parse_input-AreShaped t junk aliases line p chars parses =
      let same : outline e aliases line ≡ ok p =
        sym (parse_input-outline e t junk aliases line chars) ∙ parses in
      subst Shapes same
        (follow-Shapes start none (line ++ 0 ∷ []) blank_draft (nothing e aliases) tt)
