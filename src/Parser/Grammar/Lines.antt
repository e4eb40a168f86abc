-- ===== src/Parser/Grammar/Lines.antt =====
-- Whole lines: `parse_input` on the line of a tree.
use mathlib.Core.List.{append_assoc}
use redshell.Base.{
  ℕ, ◌≡◌, refl, Option, none, some, List, [], ◌∷◌, ◌++◌, Bytes, All, Run, ok, ap, ◌∙◌,
}
use redshell.Parser.Chart.{State, in_command, start, after_separator, blank_line, next, classify}
use redshell.Parser.Grammar.Accepts.{
  resume, begun, complex-Reaches, end-ended, separator-Reaches, start-Reaches, after-resume,
}
use redshell.Parser.Grammar.Sweep.{Reaches, reaches, then-Reaches, gap-Reaches, follow-round}
use redshell.Parser.Grammar.{
  Complex, Separator, Line, blanks, commands, IsBlank, IsText, IsComplex, AreComplexes, IsLine,
  render_files, render_ampersand, render_complex, render_separator, render_done, render, enter_all,
  meaning,
}
use redshell.Parser.Machine.{Expander, Params, Parsed, parse_input}
use redshell.Parser.Lookup.{CharType}
use redshell.Parser.Outline.Rounds.{IsChar, parse_input-outline}
use redshell.Parser.Outline.{Draft, blank_draft, complete, act, act_all, follow, nothing, outline}

module _ (e : Expander) where
  open e use {Aliases}

  reached :
      {run k : Run (Parsed Aliases)} {s : State} {rest : Bytes} {d : Draft} {p : Parsed Aliases}
      → Reaches e run s rest d p
      → ((before : Option ℕ) → follow e s before rest d p ≡ k)
      → run ≡ k
  reached (reaches b there) on = there ∙ on b

  -- what a complex becomes from its second byte on, followed by `tail`
  abbrev Continues : Bytes → Bytes → (Parsed Aliases → Run (Parsed Aliases)) → Type 0
  Continues text rest k =
      (x : ℕ) (xs : Bytes)
      → text ≡ x ∷ xs
      → (p : Parsed Aliases) (before : Option ℕ)
      → follow e in_command before (xs ++ rest) (begun e x) p ≡ k p

  from_start :
      (lead text rest : Bytes) (k : Parsed Aliases → Run (Parsed Aliases))
      → All IsBlank lead
      → IsText text
      → Continues text rest k
      → (d : Draft) (p : Parsed Aliases) (before : Option ℕ)
      → follow e start before (lead ++ (text ++ rest)) d p ≡ k p
  from_start lead [] rest k blank is on d p before = absurd is
  from_start lead (x ∷ xs) rest k blank is on d p before =
      reached (start-Reaches e lead x (xs ++ rest) blank is.0 d p before) (on x xs refl p)

  from_separator :
      (lead text rest : Bytes) (k : Parsed Aliases → Run (Parsed Aliases))
      → All IsBlank lead
      → IsText text
      → Continues text rest k
      → (d : Draft) (p : Parsed Aliases) (before : Option ℕ)
      → follow e after_separator before (lead ++ (text ++ rest)) d p
        ≡ resume e (complete e d d.buffer p) k
  from_separator lead [] rest k blank is on d p before = absurd is
  from_separator lead (x ∷ xs) rest k blank is on d p before =
      after-resume e lead x (xs ++ rest) blank is.0 k (on x xs refl) d p before

  -- the rest of a complex and what follows it
  abbrev behind : Complex → Bytes → Bytes
  behind c tail = render_files c.files ++ (render_ampersand c.ampersand ++ tail)

  render_complex-append :
      (c : Complex) (tail : Bytes) → render_complex c ++ tail ≡ c.lead ++ (c.text ++ behind c tail)
  render_complex-append c tail = simp append_assoc

  last-Continues :
      (c : Complex) → IsComplex c → Continues c.text (behind c (0 ∷ [])) (enter_all e [] c)
  unfolding enter_all
  last-Continues c is x xs same p before =
      let text : IsText (x ∷ xs) = rw same at is.text in
      rw same (
        reached
          (complex-Reaches e c.files c.ampersand x xs (0 ∷ []) text.1 is.files is.ampersand p
            before)
          (λ b. end-ended e c.files c.ampersand _ p b))

  -- the line behind a separator, which first completes the command before it
  abbrev Follows : List (Complex × Separator) → Complex → Type 0
  Follows done last =
      (d : Draft) (p : Parsed Aliases) (before : Option ℕ)
      → follow e after_separator before (render_done done ++ (render_complex last ++ 0 ∷ [])) d p
        ≡ resume e (complete e d d.buffer p) (enter_all e done last)

  next-Continues :
      (c : Complex) (s : Separator) (done : List (Complex × Separator)) (last : Complex)
      → IsComplex c
      → Follows done last
      → Continues c.text
          (behind c (render_separator s ∷ (render_done done ++ (render_complex last ++ 0 ∷ []))))
          (enter_all e ((c, s) ∷ done) last)
  unfolding enter_all
  next-Continues c s done last is later x xs same p before =
      let text : IsText (x ∷ xs) = rw same at is.text in
      rw same (
        reached
          (then-Reaches e
            (complex-Reaches e c.files c.ampersand x xs _ text.1 is.files is.ampersand p before)
            (separator-Reaches e c.files c.ampersand s _ _ _ _ p))
          (later _ p))

  render_done-cons :
      (c : Complex) (s : Separator) (done : List (Complex × Separator)) (tail : Bytes)
      → render_done ((c, s) ∷ done) ++ tail
        ≡ c.lead ++ (c.text ++ behind c (render_separator s ∷ (render_done done ++ tail)))
  unfolding render_done
  render_done-cons c s done tail = simp append_assoc

  all-Follows :
      (done : List (Complex × Separator)) (last : Complex)
      → AreComplexes done
      → IsComplex last
      → Follows done last
  unfolding render_done
  all-Follows [] last are is d p before =
      rw (render_complex-append last (0 ∷ []))
        (from_separator last.lead last.text _ _ is.lead is.text (last-Continues last is) d p before)
  all-Follows ((c, s) ∷ done) last are is d p before =
      rw (render_done-cons c s done (render_complex last ++ 0 ∷ [])) (
        from_separator c.lead c.text _ _ are.0.lead are.0.text
          (next-Continues c s done last are.0 (all-Follows done last are.1 is)) d p before)

  commands-follow :
      (done : List (Complex × Separator)) (last : Complex)
      → AreComplexes done
      → IsComplex last
      → (d : Draft) (p : Parsed Aliases) (before : Option ℕ)
      → follow e start before (render_done done ++ (render_complex last ++ 0 ∷ [])) d p
        ≡ enter_all e done last p
  unfolding render_done
  commands-follow [] last are is d p before =
      rw (render_complex-append last (0 ∷ []))
        (from_start last.lead last.text _ _ is.lead is.text (last-Continues last is) d p before)
  commands-follow ((c, s) ∷ done) last are is d p before =
      rw (render_done-cons c s done (render_complex last ++ 0 ∷ [])) (
        from_start c.lead c.text _ _ are.0.lead are.0.text
          (next-Continues c s done last are.0 (all-Follows done last are.1 is)) d p before)

  blanks-follow :
      (gap : Bytes)
      → All IsBlank gap
      → (p : Parsed Aliases) → follow e start none (gap ++ 0 ∷ []) blank_draft p ≡ ok p
  unfolding follow act_all act complete next classify
  blanks-follow [] h p = refl
  blanks-follow (c ∷ gap) h p =
      follow-round e start _ c (ap (next start) h.0) none (gap ++ 0 ∷ []) blank_draft p
      ∙ reached (gap-Reaches e blank_line refl refl gap (0 ∷ []) h.1 blank_draft p (some c))
          (λ b. refl)

  pub outline-meaning :
      (l : Line)
      → IsLine l
      → (aliases : Aliases) → outline e aliases (render l) ≡ meaning e aliases l
  unfolding outline meaning
  outline-meaning (blanks gap) is aliases = blanks-follow gap is (nothing e aliases)
  outline-meaning (commands done last) is aliases =
      rw (append_assoc (render_done done) (render_complex last) (0 ∷ []))
        (commands-follow done last is.0 is.1 blank_draft (nothing e aliases) none)

  -- On the line of every syntax tree of the grammar, whose bytes are characters and none of them the
  -- terminator, `parse_input` computes the tree's meaning: the commands in order, each with its text
  -- expanded to words, its redirections and its connection, up to the first whose words `wordexp`
  -- refuses. Texts and names are cut at BUFSIZE bytes.
  pub parse_input-meaning :
      (t : CharType) (junk : Params) (aliases : Aliases) (l : Line)
      → IsLine l
      → All IsChar (render l)
      → parse_input e t junk aliases (render l) ≡ meaning e aliases l
  parse_input-meaning t junk aliases l is chars =
      parse_input-outline e t junk aliases (render l) chars ∙ outline-meaning l is aliases
