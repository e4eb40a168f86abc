-- ===== src/Parser/Grammar.antt =====
-- The grammar of src/parser.rl (`main`, `complex`, `redir_alpha`, `redir_beta`, `stdin`, `stdout`,
-- `string`) as syntax trees: a tree holds every byte of its line. `render` is the line of a tree,
-- and `meaning` is what its commands become, one after the other.
pub mod Accepts
pub mod Language
pub mod Leading
pub mod Lines
pub mod Refusals
pub mod Cuts
pub mod Decides
pub mod Endings
pub mod Sequence
pub mod Sweep
pub mod Pieces
use redshell.Base.{
  ℕ, ◌≡◌, ◌⊎◌, Option, none, some, List, [], ◌∷◌, ◌++◌, Bytes, All, Run, ok, ◌>>=◌, if◌then◌else◌,
  take,
}
use redshell.Command.{Connection, no_connection, pipe_connection, background, sequential, Command}
use redshell.Parser.Buffer.{buf_size}
use redshell.Parser.Chart.{Class, blank, plain, classify}
use redshell.Parser.Machine.{Expander, Parsed}
use redshell.Parser.Outline.{Draft, Stage, going, quit, complete, nothing}

-- `space* string`, the name of a file behind `<` or `>`
pub record Name : Type 0 where
  pub gap : Bytes
  pub text : Bytes

pub data Redirections : Type 0 where
  no_file : Redirections
  from_file : Name → Redirections
  to_file : Name → Redirections
  from_to : Name → Name → Redirections
  to_from : Name → Name → Redirections

-- `complex`; `ampersand` is the blanks behind a `&`
pub record Complex : Type 0 where
  pub lead : Bytes
  pub text : Bytes
  pub files : Redirections
  pub ampersand : Option Bytes

pub data Separator : Type 0 where
  by_pipe by_seq : Separator

pub data Line : Type 0 where
  blanks : Bytes → Line
  commands : List (Complex × Separator) → Complex → Line

abbrev pub IsBlank : ℕ → Type 0
IsBlank c = classify c ≡ blank

abbrev pub IsPlain : ℕ → Type 0
IsPlain c = classify c ≡ plain

abbrev pub InText : ℕ → Type 0
InText c = IsBlank c ⊎ IsPlain c

-- `string`, with the blanks behind it
abbrev pub IsText : Bytes → Type 0
IsText [] = ⊥
IsText (c ∷ text) = IsPlain c × All InText text

abbrev pub IsName : Name → Type 0
IsName n = All IsBlank n.gap × IsText n.text

abbrev pub AreFiles : Redirections → Type 0
AreFiles no_file = Unit
AreFiles (from_file n) = IsName n
AreFiles (to_file n) = IsName n
AreFiles (from_to n m) = IsName n × IsName m
AreFiles (to_from n m) = IsName n × IsName m

abbrev pub IsAmpersand : Option Bytes → Type 0
IsAmpersand none = Unit
IsAmpersand (some gap) = All IsBlank gap

pub record IsComplex (c : Complex) : Type 0 where
  pub lead : All IsBlank c.lead
  pub text : IsText c.text
  pub files : AreFiles c.files
  pub ampersand : IsAmpersand c.ampersand

abbrev pub AreComplexes : List (Complex × Separator) → Type 0
AreComplexes = All (λ (c, _). IsComplex c)

abbrev pub IsLine : Line → Type 0
IsLine (blanks gap) = All IsBlank gap
IsLine (commands done last) = AreComplexes done × IsComplex last

abbrev pub render_name : Name → Bytes
render_name n = n.gap ++ n.text

abbrev pub render_files : Redirections → Bytes
render_files no_file = []
render_files (from_file n) = b'<' ∷ render_name n
render_files (to_file n) = b'>' ∷ render_name n
render_files (from_to n m) = b'<' ∷ (render_name n ++ b'>' ∷ render_name m)
render_files (to_from n m) = b'>' ∷ (render_name n ++ b'<' ∷ render_name m)

abbrev pub render_ampersand : Option Bytes → Bytes
render_ampersand none = []
render_ampersand (some gap) = b'&' ∷ gap

abbrev pub render_complex : Complex → Bytes
render_complex c = c.lead ++ (c.text ++ (render_files c.files ++ render_ampersand c.ampersand))

abbrev pub render_separator : Separator → ℕ
render_separator by_pipe = b'|'
render_separator by_seq = b';'

unfoldable pub render_done : List (Complex × Separator) → Bytes
render_done [] = []
render_done ((c, s) ∷ done) = render_complex c ++ render_separator s ∷ render_done done

abbrev pub render : Line → Bytes
render (blanks gap) = gap
render (commands done last) = render_done done ++ render_complex last

-- what the buffer keeps of a text
abbrev pub kept : Bytes → Bytes
kept = take buf_size

abbrev pub input_of : Redirections → Bytes
input_of no_file = []
input_of (from_file n) = n.text
input_of (to_file n) = []
input_of (from_to n m) = n.text
input_of (to_from n m) = m.text

abbrev pub output_of : Redirections → Bytes
output_of no_file = []
output_of (from_file n) = []
output_of (to_file n) = n.text
output_of (from_to n m) = m.text
output_of (to_from n m) = n.text

-- the connection of a command that ends its line
abbrev pub own_mask : Option Bytes → Connection
own_mask none = no_connection
own_mask (some _) = background

-- a pipe overrides a `&`, and a `;` does not
abbrev pub mask_before : Separator → Option Bytes → Connection
mask_before by_pipe _ = pipe_connection
mask_before by_seq none = sequential
mask_before by_seq (some _) = background

abbrev pub draft_of : Complex → Connection → Draft
draft_of c mask = record {
  buffer = kept c.text;
  stdin = kept (input_of c.files);
  stdout = kept (output_of c.files);
  mask = mask;
}

module _ (e : Expander) where
  open e use {Aliases}

  abbrev pub ended : Stage Aliases → Run (Parsed Aliases)
  ended (going _ p) = ok p
  ended (quit p) = ok p

  abbrev pub enter_complex : Complex → Connection → Parsed Aliases → Run (Stage Aliases)
  enter_complex c mask = complete e (draft_of c mask) (kept c.text)

  -- the commands are expanded in order; the first that cannot be ends the line
  unfoldable pub enter_all :
      List (Complex × Separator) → Complex → Parsed Aliases → Run (Parsed Aliases)
  enter_all [] last p = enter_complex last (own_mask last.ampersand) p >>= ended
  enter_all ((c, s) ∷ done) last p =
      enter_complex c (mask_before s c.ampersand) p
      >>= elim [ going _ p' ↦ enter_all done last p' | quit p' ↦ ok p' ]

  unfoldable pub meaning : Aliases → Line → Run (Parsed Aliases)
  unfolding enter_all
  meaning aliases (blanks _) = ok (nothing e aliases)
  meaning aliases (commands done last) = enter_all done last (nothing e aliases)
