-- ===== src/Parser/Grammar/Language.antt =====
-- The language of the chart from each of its states on, in the terms of the grammar.
pub mod Parts
pub mod Steps
use redshell.Base.{ℕ, ◌≡◌, ◌⊎◌, Bool, true, false, Option, List, [], ◌∷◌, ◌++◌, Bytes, All}
use redshell.Parser.Chart.{
  State, error, start, in_command, after_bg, after_separator, before_command, before_in, in_in,
  before_second_out, in_second_out, before_out, in_out, before_second_in, in_second_in, blank_line,
  final, nul, next, classify,
}
use redshell.Parser.Grammar.{
  Name, Complex, Separator, IsBlank, InText, IsName, IsAmpersand, IsComplex, render_name,
  render_ampersand, render_separator, render_complex,
}

abbrev pub is_final : State → Bool
is_final final = true
is_final _ = false

-- whether the chart ends at `final` on the bytes and the terminator
unfoldable pub accepts : State → Bytes → Bool
accepts s [] = is_final (next s nul).to
accepts s (c ∷ xs) = accepts (next s (classify c)).to xs

-- the commands behind a command, each with the separator before it
abbrev pub More : Type 0
More = List (Separator × Complex)

abbrev pub AreMore : More → Type 0
AreMore = All (λ (_, c). IsComplex c)

unfoldable pub render_more : More → Bytes
render_more [] = []
render_more ((s, c) ∷ more) = render_separator s ∷ (render_complex c ++ render_more more)

-- blanks, and what is behind a command
abbrev pub GapMore : Bytes → Type 0
GapMore xs =
    (gap : Bytes) × ((more : More) × (All IsBlank gap
        × (AreMore more × (xs ≡ gap ++ render_more more))))

-- an `&` or none, and what is behind a command
abbrev pub AmpersandMore : Bytes → Type 0
AmpersandMore xs =
    (amp : Option Bytes) × ((more : More) × (IsAmpersand amp
        × (AreMore more × (xs ≡ render_ampersand amp ++ render_more more))))

-- the rest of a text, and what `P` describes
abbrev pub TextThen : (Bytes → Type 0) → Bytes → Type 0
TextThen P xs = (text : Bytes) × ((ys : Bytes) × (All InText text × (P ys × (xs ≡ text ++ ys))))

-- the name of a file, and what `P` describes
abbrev pub NameThen : (Bytes → Type 0) → Bytes → Type 0
NameThen P xs =
    (name : Name) × ((ys : Bytes) × (IsName name × (P ys × (xs ≡ render_name name ++ ys))))

-- a second redirection or none, and what is behind it
abbrev pub SecondThen : ℕ → (Bytes → Type 0) → Bytes → Type 0
SecondThen c P xs = P xs ⊎ ((ys : Bytes) × ((xs ≡ c ∷ ys) × NameThen P ys))

-- the redirections and what is behind them
abbrev pub FilesThen : (Bytes → Type 0) → Bytes → Type 0
FilesThen P xs =
    P xs
    ⊎ (((ys : Bytes) × ((xs ≡ b'<' ∷ ys) × NameThen (SecondThen b'>' P) ys))
        ⊎ ((ys : Bytes) × ((xs ≡ b'>' ∷ ys) × NameThen (SecondThen b'<' P) ys)))

-- commands
abbrev pub Commands : Bytes → Type 0
Commands xs =
    (c : Complex) × ((more : More) × (IsComplex c
        × (AreMore more × (xs ≡ render_complex c ++ render_more more))))

abbrev pub BlankOrCommands : Bytes → Type 0
BlankOrCommands xs = All IsBlank xs ⊎ Commands xs

-- what the state accepts
abbrev pub Language : State → Bytes → Type 0
Language error xs = ⊥
Language start xs = BlankOrCommands xs
Language in_command xs = TextThen (FilesThen AmpersandMore) xs
Language after_bg xs = GapMore xs
Language after_separator xs = Commands xs
Language before_command xs = Commands xs
Language before_in xs = NameThen (SecondThen b'>' AmpersandMore) xs
Language in_in xs = TextThen (SecondThen b'>' AmpersandMore) xs
Language before_second_out xs = NameThen AmpersandMore xs
Language in_second_out xs = TextThen AmpersandMore xs
Language before_out xs = NameThen (SecondThen b'<' AmpersandMore) xs
Language in_out xs = TextThen (SecondThen b'<' AmpersandMore) xs
Language before_second_in xs = NameThen AmpersandMore xs
Language in_second_in xs = TextThen AmpersandMore xs
Language blank_line xs = BlankOrCommands xs
Language final xs = ⊥
