-- ===== src/Parser/Grammar/Decides.antt =====
-- Every line is that of a syntax tree, or is refused.
use mathlib.Core.List.{append_assoc, append-nil}
use redshell.Base.{
  ◌≡◌, refl, ◌⊎◌, inl, inr, true, false, none, some, List, [], ◌∷◌, ◌++◌, Bytes, Run, ok, fault,
  All, Bool-cases, ap, ◌∙◌, sym,
}
use redshell.Parser.Buffer.Holds.{NonZero}
use redshell.Parser.Chart.{start}
use redshell.Parser.Grammar.Language.{accepts, More, AreMore, render_more}
use redshell.Parser.Grammar.Language.Steps.{accepts-Language}
use redshell.Parser.Grammar.Lines.{outline-meaning}
use redshell.Parser.Grammar.Refusals.{Refused, faulted, unexpanded, misplaced, follow-Refused}
use redshell.Parser.Grammar.{
  Complex, Separator, Line, blanks, commands, IsComplex, AreComplexes, IsLine, render_complex,
  render_done, render, meaning, enter_all, kept, draft_of, own_mask, mask_before,
}
use redshell.Parser.Lookup.{CharType}
use redshell.Parser.Machine.{Expander, Params, Parsed, parse_input}
use redshell.Parser.Outline.Rounds.{IsChar, parse_input-outline}
use redshell.Parser.Outline.{going, Draft, complete, nothing, outline, blank_draft}

-- the tree of a command and those behind it
tree : Complex → More → List (Complex × Separator) × Complex
tree c [] = ([], c)
tree c ((s, d) ∷ more) = let rest = tree d more in ((c, s) ∷ rest.0, rest.1)

tree-render :
    (c : Complex) (more : More)
    → render_done (tree c more).0 ++ render_complex (tree c more).1
      ≡ render_complex c ++ render_more more
unfolding tree render_done render_more
tree-render c [] = simp append-nil
tree-render c ((s, d) ∷ more) = simp (append_assoc, tree-render d more)

tree-AreComplexes :
    (c : Complex) (more : More)
    → IsComplex c
    → AreMore more
    → AreComplexes (tree c more).0 × IsComplex (tree c more).1
unfolding tree
tree-AreComplexes c [] is are = (tt, is)
tree-AreComplexes c ((s, d) ∷ more) is are =
    let rest = tree-AreComplexes d more are.0 are.1 in ((is, rest.0), rest.1)

-- the line of a tree
abbrev pub IsRendered : Bytes → Type 0
IsRendered line = (l : Line) × (IsLine l × (render l ≡ line))

accepted-IsRendered :
    (line : Bytes) → All NonZero line → accepts start line ≡ true → IsRendered line
accepted-IsRendered line live h = elim (accepts-Language start line live h) [
  | inl gap ↦ (blanks line, (gap, refl))
  | inr (c, (more, (is, (are, e)))) ↦ (
    commands (tree c more).0 (tree c more).1,
    (tree-AreComplexes c more is are, tree-render c more ∙ sym e),
  )
]

-- an expander that never refuses and keeps nothing
abbrev lenient : Expander
lenient = record {
  Aliases = Unit {0};
  expand_alias = λ a line. ok (line, a);
  wordexp = λ line. some [];
}

abbrev Silent : Run (Parsed (Unit {0})) → Type 0
Silent (fault f) = ⊥
Silent (ok p) = p.messages ≡ []

complete-lenient :
    (d : Draft) (text : Bytes) (p : Parsed (Unit {0}))
    → p.messages ≡ []
    → (d' : Draft) × ((p' : Parsed (Unit {0})) × ((complete lenient d text p ≡ ok (going d' p'))
          × (p'.messages ≡ [])))
unfolding complete
complete-lenient d [] p quiet = (d, (p, (refl, quiet)))
complete-lenient d (c ∷ text) p quiet = (_, (_, (refl, quiet)))

enter_all-Silent :
    (done : List (Complex × Separator)) (last : Complex) (p : Parsed (Unit {0}))
    → p.messages ≡ []
    → Silent (enter_all lenient done last p)
unfolding enter_all
enter_all-Silent [] last p quiet =
    let (d, (p', (step, quiet'))) =
      complete-lenient (draft_of last (own_mask last.ampersand)) (kept last.text) p quiet in
    rw step quiet'
enter_all-Silent ((c, s) ∷ done) last p quiet =
    let (d, (p', (step, quiet'))) =
      complete-lenient (draft_of c (mask_before s c.ampersand)) (kept c.text) p quiet in
    rw step (enter_all-Silent done last p' quiet')

meaning-Silent : (l : Line) → Silent (meaning lenient tt l)
unfolding meaning
meaning-Silent (blanks gap) = refl
meaning-Silent (commands done last) = enter_all-Silent done last (nothing lenient tt) refl

-- nothing that is refused is silent
Refused-loud : (run : Run (Parsed (Unit {0}))) → Refused lenient run → Silent run → ⊥
Refused-loud run (faulted f fails) quiet = quiet
Refused-loud run (unexpanded p [] wordless loud) quiet = let clash = sym loud ∙ quiet in absurd (cc)
Refused-loud run (unexpanded p (m ∷ ms) wordless loud) quiet =
    let clash = sym loud ∙ quiet in absurd (cc)
Refused-loud run (misplaced p [] before here empty loud) quiet =
    let clash = sym loud ∙ quiet in absurd (cc)
Refused-loud run (misplaced p (m ∷ ms) before here empty loud) quiet =
    let clash = sym loud ∙ quiet in absurd (cc)

outline-Refused :
    (e : Expander) (aliases : e.Aliases) (line : Bytes)
    → accepts start line ≡ false
    → Refused e (outline e aliases line)
unfolding outline
outline-Refused e aliases line h =
    follow-Refused e start none line blank_draft (nothing e aliases) h

-- a line of a tree is accepted
pub refused-no_tree : (line : Bytes) → accepts start line ≡ false → IsRendered line → ⊥
refused-no_tree line h (l, (is, e)) =
    Refused-loud (outline lenient tt line) (outline-Refused lenient tt line h)
      (rw (← e, outline-meaning lenient l is tt) (meaning-Silent l))

IsChar-NonZero : (line : Bytes) → All IsChar line → All NonZero line
IsChar-NonZero [] h = tt
IsChar-NonZero (c ∷ line) h = (h.0.0, IsChar-NonZero line h.1)

pub parse_input-Refused :
    (e : Expander) (t : CharType) (junk : Params) (aliases : e.Aliases) (line : Bytes)
    → All IsChar line
    → ((l : Line) × (IsLine l
          × ((render l ≡ line) × (parse_input e t junk aliases line ≡ meaning e aliases l))))
      ⊎ ((IsRendered line → ⊥) × Refused e (parse_input e t junk aliases line))
parse_input-Refused e t junk aliases line chars =
    let same = parse_input-outline e t junk aliases line chars in
    elim (Bool-cases (accepts start line)) [
      | inl yes_line ↦
          let (l, (is, e')) = accepted-IsRendered line (IsChar-NonZero line chars) yes_line in
          inl
            (l, (is, (e', same ∙ ap (outline e aliases) (sym e') ∙ outline-meaning e l is aliases)))
      | inr no_line ↦
          inr (refused-no_tree line no_line, rw same (outline-Refused e aliases line no_line))
    ]
