-- ===== src/Parser/Grammar/Accepts.antt =====
-- The outline of a grammatical line is the line's meaning.
use redshell.Base.{
  ℕ, ◌≡◌, refl, false, Option, none, some, List, [], ◌∷◌, ◌++◌, Bytes, All, arith, Run, ok, fault,
  ◌>>=◌, ap, ◌∙◌, if◌then◌else◌,
}
use redshell.Command.{no_connection, background}
use redshell.Parser.Buffer.Holds.{appended}
use redshell.Parser.Chart.{
  Action, append, new, State, start, in_command, after_bg, after_separator, before_command,
  blank_line, next, classify, is_error,
}
use redshell.Parser.Grammar.Pieces.{
  draft, files_state, tail_state, tail_state-Ends, files_state-ampersand, command-Collects,
  files-Reaches,
}
use redshell.Parser.Grammar.Sweep.{
  Reaches, reaches, then-Reaches, gap-Reaches, text-Reaches, fill, fill-take, follow-round,
}
use redshell.Parser.Grammar.{
  Redirections, Separator, by_pipe, by_seq, IsBlank, IsPlain, InText, AreFiles, IsAmpersand,
  render_files, render_ampersand, render_separator, kept, input_of, output_of, own_mask,
  mask_before, ended,
}
use redshell.Parser.Machine.{Expander, Parsed}
use redshell.Parser.Outline.{
  Draft, blank_draft, Stage, going, quit, complete, act, act_all, reject, follow,
}

module _ (e : Expander) where
  open e use {Aliases}

  -- go on after a command was completed
  abbrev pub resume :
      Run (Stage Aliases) → (Parsed Aliases → Run (Parsed Aliases)) → Run (Parsed Aliases)
  resume r k = r >>= elim [ quit p ↦ ok p | going _ p ↦ k p ]

  pub resume_congr :
      (r : Run (Stage Aliases)) (k k' : Parsed Aliases → Run (Parsed Aliases))
      → ((p : Parsed Aliases) → k p ≡ k' p)
      → resume r k ≡ resume r k'
  resume_congr (fault f) k k' h = refl
  resume_congr (ok (quit p)) k k' h = refl
  resume_congr (ok (going d p)) k k' h = h p

  -- the `&` behind the redirections
  ampersand-Reaches :
      (files : Redirections) (amp : Option Bytes) (rest buffer input output : Bytes)
      → IsAmpersand amp
      → (p : Parsed Aliases) (before : Option ℕ)
      → Reaches e
          (follow e
            (files_state files)
            before
            (render_ampersand amp ++ rest)
            (draft buffer input output no_connection)
            p)
          (tail_state files amp)
          rest
          (draft buffer input output (own_mask amp))
          p
  unfolding act_all act next
  ampersand-Reaches files none rest buffer input output h p before = reaches before refl
  ampersand-Reaches files (some gap) rest buffer input output h p before =
      let now =
        follow-round e (files_state files) _ b'&' (files_state-ampersand files) before (gap ++ rest)
          (draft buffer input output no_connection) p in
      rw now (
        gap-Reaches e after_bg refl refl gap rest h (draft buffer input output background) p
          (some b'&'))

  -- the draft when the first byte of a text has been read
  abbrev pub begun : ℕ → Draft
  begun x = draft (appended [] x) [] [] no_connection

  -- the rest of a complex behind its first byte
  pub complex-Reaches :
      (files : Redirections) (amp : Option Bytes) (x : ℕ) (xs tail : Bytes)
      → All InText xs
      → AreFiles files
      → IsAmpersand amp
      → (p : Parsed Aliases) (before : Option ℕ)
      → Reaches e
          (follow e in_command before
            (xs ++ (render_files files ++ (render_ampersand amp ++ tail)))
            (begun x)
            p)
          (tail_state files amp)
          tail
          (draft (kept (x ∷ xs)) (kept (input_of files)) (kept (output_of files)) (own_mask amp))
          p
  unfolding fill
  complex-Reaches files amp x xs tail text are is p before =
      rw (← fill-take [] (x ∷ xs) (omega arith)) (
        then-Reaches e
          (text-Reaches e (command-Collects e [] no_connection) xs
            (render_files files ++ (render_ampersand amp ++ tail)) text (appended [] x) p before)
          (λ b.
            then-Reaches e
              (files-Reaches e files (render_ampersand amp ++ tail) _ no_connection are p b)
              (ampersand-Reaches files amp tail _ _ _ is p)))

  -- the end of the line behind a complex
  pub end-ended :
      (files : Redirections) (amp : Option Bytes) (d : Draft) (p : Parsed Aliases)
      (before : Option ℕ)
      → follow e (tail_state files amp) before (0 ∷ []) d p ≡ (complete e d d.buffer p >>= ended e)
  unfolding act_all act follow classify
  end-ended files amp d p before =
      follow-round e (tail_state files amp) _ 0 (tail_state-Ends files amp).nul before [] d p
      ∙ drop_new (complete e d d.buffer p)
    where
      drop_new :
          (r : Run (Stage Aliases))
          → (r
              >>= elim [ going d' p' ↦ ok (going d' p') | quit p' ↦ ok (quit p') ]
              >>= elim [ quit p' ↦ ok p' | going d' p' ↦ ok p' ])
            ≡ (r >>= ended e)
      drop_new (fault f) = refl
      drop_new (ok (going d' p')) = refl
      drop_new (ok (quit p')) = refl

  -- a separator behind a complex sets the connection and waits
  pub separator-Reaches :
      (files : Redirections) (amp : Option Bytes) (s : Separator) (rest b i o : Bytes)
      (p : Parsed Aliases) (before : Option ℕ)
      → Reaches e
          (follow e
            (tail_state files amp)
            before
            (render_separator s ∷ rest)
            (draft b i o (own_mask amp))
            p)
          after_separator
          rest
          (draft b i o (mask_before s amp))
          p
  unfolding act_all act classify
  separator-Reaches files amp by_pipe rest b i o p before =
      reaches (some b'|') (
        follow-round e (tail_state files amp) _ b'|' (tail_state-Ends files amp).bar before rest _
          p)
  separator-Reaches files none by_seq rest b i o p before = reaches (some b';') (
      follow-round e (tail_state files none) _ b';' (tail_state-Ends files none).semicolon before
        rest _ p)
  separator-Reaches files (some gap) by_seq rest b i o p before = reaches (some b';') (
      follow-round e (tail_state files (some gap)) _ b';'
        (tail_state-Ends files (some gap)).semicolon before rest _ p)

  pub start-Reaches :
      (lead : Bytes) (x : ℕ) (xs : Bytes)
      → All IsBlank lead
      → IsPlain x
      → (d : Draft) (p : Parsed Aliases) (before : Option ℕ)
      → Reaches e (follow e start before (lead ++ x ∷ xs) d p) in_command xs (begun x) p
  unfolding act_all act next
  start-Reaches [] x xs h plain_x d p before =
      reaches (some x) (follow-round e start _ x (ap (next start) plain_x) before xs d p)
  start-Reaches (y ∷ lead) x xs h plain_x d p before =
      rw (follow-round e start _ y (ap (next start) h.0) before (lead ++ x ∷ xs) d p) (
        then-Reaches e (gap-Reaches e blank_line refl refl lead (x ∷ xs) h.1 blank_draft p (some y))
          (λ b.
            reaches (some x)
              (follow-round e blank_line _ x (ap (next blank_line) plain_x) b xs blank_draft p)))

  -- the actions behind `term`, when they leave the draft `d₀`
  resume-act_all :
      (todo : List Action) (c : ℕ) (s : State) (rest : Bytes) (d₀ : Draft)
      → is_error s ≡ false
      → ((d : Draft) (p : Parsed Aliases) → act_all e todo c d p ≡ ok (going d₀ p))
      → (before : Option ℕ) (r : Run (Stage Aliases))
      → (r >>= elim [ going d p ↦ act_all e todo c d p | quit p ↦ ok (quit p) ] >>= elim [
        | quit p ↦ ok p
        | going d p ↦
            let on = follow e s (some c) rest d p in
            if is_error s then ok (reject e before c p) else on
      ])
        ≡ resume r (λ p. follow e s (some c) rest d₀ p)
  resume-act_all todo c s rest d₀ live acts before (fault f) = refl
  resume-act_all todo c s rest d₀ live acts before (ok (quit p)) = refl
  resume-act_all todo c s rest d₀ live acts before (ok (going d p)) = rw (acts d p, live)

  -- behind a separator, the first byte of the next complex completes the command before it
  pub after-resume :
      (lead : Bytes) (x : ℕ) (xs : Bytes)
      → All IsBlank lead
      → IsPlain x
      → (k : Parsed Aliases → Run (Parsed Aliases))
      → ((p : Parsed Aliases) (before : Option ℕ) → follow e in_command before xs (begun x) p ≡ k p)
      → (d : Draft) (p : Parsed Aliases) (before : Option ℕ)
      → follow e after_separator before (lead ++ x ∷ xs) d p ≡ resume (complete e d d.buffer p) k
  unfolding act_all act next
  after-resume [] x xs h plain_x k on d p before =
      follow-round e after_separator _ x (ap (next after_separator) plain_x) before xs d p
      ∙ resume-act_all (new ∷ append ∷ []) x in_command xs (begun x) refl (λ d' p'. refl) before
          (complete e d d.buffer p)
      ∙ resume_congr _ _ k (λ p'. on p' (some x))
  after-resume (y ∷ lead) x xs h plain_x k on d p before =
      follow-round e after_separator _ y (ap (next after_separator) h.0) before (lead ++ x ∷ xs) d p
      ∙ resume-act_all (new ∷ []) y before_command (lead ++ x ∷ xs) blank_draft refl (λ d' p'. refl)
          before (complete e d d.buffer p)
      ∙ resume_congr _ _ k (λ p'. reached p' (
          then-Reaches e
            (gap-Reaches e before_command refl refl lead (x ∷ xs) h.1 blank_draft p' (some y))
            (λ b. reaches (some x) (
              follow-round e before_command _ x (ap (next before_command) plain_x) b xs blank_draft
                p'))))
    where
      reached :
          (p' : Parsed Aliases) {run : Run (Parsed Aliases)}
          → Reaches e run in_command xs (begun x) p'
          → run ≡ k p'
      reached p' (reaches b there) = there ∙ on p' b
