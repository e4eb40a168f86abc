-- ===== src/Parser/Safe.antt =====
-- The parser reaches no undefined behaviour but that of the `expandAlias` it calls.
use redshell.Base.{
  ℕ, ◌+◌, ◌≤◌, ◌≡◌, refl, true, Option, none, some, List, [], ◌∷◌, ◌++◌, Bytes, arith, length,
  length-append, All, leb, Run, out_of_bounds, ok, fault, ◌>>=◌, Bool-cases, inl, inr,
}
use redshell.Parser.Buffer.{buf_size}
use redshell.Parser.Buffer.Holds.{appended}
use redshell.Parser.Chart.{
  Action, append, append_in, append_out, new, term, pipe, bg, seq, Class, nul, blank, ampersand,
  semicolon, less, greater, bar, plain, State, error, start, in_command, after_bg, after_separator,
  before_command, before_in, in_in, before_second_out, in_second_out, before_out, in_out,
  before_second_in, in_second_in, blank_line, final, next, end_move, name_move, classify, is_error,
}
use redshell.Parser.Lookup.{CharType}
use redshell.Parser.Machine.{Expander, Params, Parsed, parse_input}
use redshell.Parser.Outline.Rounds.{IsChar, parse_input-outline}
use redshell.Parser.Outline.{
  Draft, blank_draft, Stage, going, quit, complete, settle, act, act_all, follow, nothing, outline,
}

-- the run returned a value with the property, or left an array, which `Overflows` allows
pub data Safe (Overflows : Type 0) {A : Type 0} (P : A → Type 0) : Run A → Type 0 where
  left_array : Overflows → Safe Overflows P (fault out_of_bounds)
  safe : (a : A) → P a → Safe Overflows P (ok a)

Safe-then :
    {Overflows A B : Type 0} {P : A → Type 0} {Q : B → Type 0} (run : Run A) (next_run : A → Run B)
    → Safe Overflows P run
    → ((a : A) → P a → Safe Overflows Q (next_run a))
    → Safe Overflows Q (run >>= next_run)
Safe-then run next_run (left_array o) h = left_array o
Safe-then run next_run (safe a p) h = h a p

-- the bytes that an action adds to the text of a command
abbrev size_of : Action → ℕ
size_of append = 1
size_of _ = 0

abbrev sizes : List Action → ℕ
sizes [] = 0
sizes (a ∷ acts) = size_of a + sizes acts

on_classes :
    (P : Class → Type 0)
    → P nul
    → P blank
    → P ampersand
    → P semicolon
    → P less
    → P greater
    → P bar
    → P plain
    → (k : Class) → P k
on_classes P a b c d e f g h nul = a
on_classes P a b c d e f g h blank = b
on_classes P a b c d e f g h ampersand = c
on_classes P a b c d e f g h semicolon = d
on_classes P a b c d e f g h less = e
on_classes P a b c d e f g h greater = f
on_classes P a b c d e f g h bar = g
on_classes P a b c d e f g h plain = h

next-sizes : (s : State) (k : Class) → leb (sizes (next s k).acts) 1 ≡ true
unfolding next end_move name_move
next-sizes error = on_classes _ refl refl refl refl refl refl refl refl
next-sizes start = on_classes _ refl refl refl refl refl refl refl refl
next-sizes in_command = on_classes _ refl refl refl refl refl refl refl refl
next-sizes after_bg = on_classes _ refl refl refl refl refl refl refl refl
next-sizes after_separator = on_classes _ refl refl refl refl refl refl refl refl
next-sizes before_command = on_classes _ refl refl refl refl refl refl refl refl
next-sizes before_in = on_classes _ refl refl refl refl refl refl refl refl
next-sizes in_in = on_classes _ refl refl refl refl refl refl refl refl
next-sizes before_second_out = on_classes _ refl refl refl refl refl refl refl refl
next-sizes in_second_out = on_classes _ refl refl refl refl refl refl refl refl
next-sizes before_out = on_classes _ refl refl refl refl refl refl refl refl
next-sizes in_out = on_classes _ refl refl refl refl refl refl refl refl
next-sizes before_second_in = on_classes _ refl refl refl refl refl refl refl refl
next-sizes in_second_in = on_classes _ refl refl refl refl refl refl refl refl
next-sizes blank_line = on_classes _ refl refl refl refl refl refl refl refl
next-sizes final = on_classes _ refl refl refl refl refl refl refl refl

appended-length : (xs : Bytes) (c : ℕ) → length (appended xs c) ≤ length xs + 1
unfolding appended
appended-length xs c = ground (arith, length-append {0} xs (c ∷ []))

appended-small : (xs : Bytes) (c : ℕ) → length xs ≤ buf_size → length (appended xs c) ≤ buf_size
unfolding appended
appended-small xs c small = ground (arith, length-append {0} xs (c ∷ []))

module _ (e : Expander) (Overflows : Type 0) (Good : e.Aliases → Type 0) (room : ℕ)
    (expands : (a : e.Aliases) (s : Bytes)
      → Good a
      → length s ≤ room
      → length s ≤ buf_size
      → Safe Overflows (λ r. Good r.1) (e.expand_alias a s)) where
  open e use {Aliases, expand_alias, wordexp}

  -- room is left for `n` more bytes, and the text is one of the parser's array
  abbrev Fits : ℕ → Draft → Type 0
  Fits n d = (length d.buffer + n ≤ room) × (length d.buffer ≤ buf_size)

  abbrev Within : ℕ → Stage Aliases → Type 0
  Within n (going d p) = Good p.aliases × (Fits n d)
  Within n (quit p) = Good p.aliases

  settle-Within :
      (n : ℕ) (d : Draft) (p : Parsed Aliases) (found : Option (List Bytes))
      → Good p.aliases
      → Fits n d
      → Within n (settle e d p found)
  settle-Within n d p none good fits = good
  settle-Within n d p (some ws) good fits = (good, fits)

  complete-Safe :
      (n : ℕ) (d : Draft) (text : Bytes) (p : Parsed Aliases)
      → Good p.aliases
      → length text ≤ room
      → length text ≤ buf_size
      → Fits n d
      → Safe Overflows (Within n) (complete e d text p)
  unfolding complete
  complete-Safe n d [] p good short small fits = safe _ (good, fits)
  complete-Safe n d (c ∷ text) p good short small fits =
      Safe-then _ _ (expands p.aliases (c ∷ text) good short small) (λ (line, aliases) good'.
        safe _ (settle-Within n d (record p { aliases = aliases }) (wordexp line) good' fits))

  act-Safe :
      (a : Action) (n c : ℕ) (d : Draft) (p : Parsed Aliases)
      → Good p.aliases
      → Fits (size_of a + n) d
      → Safe Overflows (Within n) (act e a c d p)
  unfolding act
  act-Safe append n c d p good fits =
      safe _ (good, (omega (arith, appended-length d.buffer c), appended-small d.buffer c fits.1))
  act-Safe append_in n c d p good fits = safe _ (good, omega arith)
  act-Safe append_out n c d p good fits = safe _ (good, omega arith)
  act-Safe new n c d p good fits = safe _ (good, omega arith)
  act-Safe term n c d p good fits =
      complete-Safe n d d.buffer p good (omega arith) fits.1 (omega arith)
  act-Safe pipe n c d p good fits = safe _ (good, omega arith)
  act-Safe bg n c d p good fits = safe _ (good, omega arith)
  act-Safe seq n c d p good fits = safe _ (good, omega arith)

  -- after an action, with the run that follows where the command is still read
  stage-Safe :
      {B : Type 0} {P : B → Type 0} (n : ℕ) (k : Draft → Parsed Aliases → Run B)
      (stop : Parsed Aliases → Run B)
      → ((d : Draft) (p : Parsed Aliases) → Good p.aliases → Fits n d → Safe Overflows P (k d p))
      → ((p : Parsed Aliases) → Good p.aliases → Safe Overflows P (stop p))
      → (s : Stage Aliases) → Within n s
      → Safe Overflows P (elim s [ going d p ↦ k d p | quit p ↦ stop p ])
  stage-Safe n k stop on off (going d p) (good, fits) = on d p good fits
  stage-Safe n k stop on off (quit p) good = off p good

  act_all-Safe :
      (acts : List Action) (n c : ℕ) (d : Draft) (p : Parsed Aliases)
      → Good p.aliases
      → Fits (sizes acts + n) d
      → Safe Overflows (Within n) (act_all e acts c d p)
  unfolding act_all
  act_all-Safe [] n c d p good fits = safe _ (good, omega arith)
  act_all-Safe (a ∷ acts) n c d p good fits =
      Safe-then _ _ (act-Safe a (sizes acts + n) c d p good (omega arith)) (
        stage-Safe (sizes acts + n) (act_all e acts c) (λ p'. ok (quit p')) (act_all-Safe acts n c)
          (λ p' good'. safe _ good'))

  follow-Safe :
      (s : State) (before : Option ℕ) (line : Bytes) (d : Draft) (p : Parsed Aliases)
      → Good p.aliases
      → Fits (length line) d
      → Safe Overflows (λ p'. Good p'.aliases) (follow e s before line d p)
  unfolding follow
  follow-Safe s before [] d p good fits = safe p good
  follow-Safe s before (c ∷ rest) d p good fits =
      let roomy : length d.buffer + (sizes (next s (classify c)).acts + length rest) ≤ room =
        ground (arith, next-sizes s (classify c)) in
      Safe-then _ _
        (act_all-Safe (next s (classify c)).acts (length rest) c d p good (roomy, fits.1))
        (stage-Safe (length rest) _ (λ p'. ok p')
          (λ d' p' good' fits'. elim (Bool-cases (is_error (next s (classify c)).to)) [
            | inl stuck ↦ rw stuck (safe _ good')
            | inr on ↦ rw on (follow-Safe (next s (classify c)).to (some c) rest d' p' good' fits')
          ])
          (λ p' good'. safe p' good'))

  -- Where every call of `expandAlias` on a string of at most as many bytes as the line and its
  -- terminator, and at most BUFSIZE, returns, or leaves an array if that is allowed, so does `parse_input` on a line of
  -- characters: it follows no null pointer, leaves none of its own arrays and always ends.
  pub parse_input-Safe :
      (t : CharType) (junk : Params) (aliases : Aliases) (line : Bytes)
      → All IsChar line
      → Good aliases
      → length line + 1 ≤ room
      → Safe Overflows (λ p. Good p.aliases) (parse_input e t junk aliases line)
  unfolding outline
  parse_input-Safe t junk aliases line chars good fits =
      rw (parse_input-outline e t junk aliases line chars) (
        follow-Safe start none (line ++ 0 ∷ []) blank_draft (nothing e aliases) good
          (omega (arith, length-append {0} line (0 ∷ [])), omega arith))
