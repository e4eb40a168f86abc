-- ===== src/Parser/Grammar/Leading.antt =====
-- Blanks before a line.
use mathlib.Core.Path.{subst}
use mathlib.Core.List.{append_assoc}
use redshell.Base.{◌≡◌, refl, [], ◌∷◌, ◌++◌, Bytes, All, All-append, ◌∙◌, ap, sym}
use redshell.Parser.Grammar.Lines.{parse_input-meaning}
use redshell.Parser.Grammar.{
  Complex, Line, blanks, commands, IsBlank, IsComplex, IsLine, render_done, render, enter_all,
  meaning,
}
use redshell.Parser.Lookup.{CharType}
use redshell.Parser.Machine.{Expander, Params, parse_input}
use redshell.Parser.Outline.Rounds.{IsChar}

-- the tree with blanks before its first command
abbrev led_by : Bytes → Complex → Complex
led_by gap c = record c { lead = gap ++ c.lead }

abbrev lead_line : Bytes → Line → Line
lead_line gap (blanks more) = blanks (gap ++ more)
lead_line gap (commands [] last) = commands [] (led_by gap last)
lead_line gap (commands ((c, s) ∷ done) last) = commands ((led_by gap c, s) ∷ done) last

led_by-IsComplex :
    (gap : Bytes) (c : Complex) → All IsBlank gap → IsComplex c → IsComplex (led_by gap c)
led_by-IsComplex gap c blank is = record {
  lead = All-append {0, 0} IsBlank gap c.lead blank is.lead;
  text = is.text;
  files = is.files;
  ampersand = is.ampersand;
}

IsLine-lead_line : (gap : Bytes) (l : Line) → All IsBlank gap → IsLine l → IsLine (lead_line gap l)
IsLine-lead_line gap (blanks more) blank is = All-append {0, 0} IsBlank gap more blank is
IsLine-lead_line gap (commands [] last) blank is = (tt, led_by-IsComplex gap last blank is.1)
IsLine-lead_line gap (commands ((c, s) ∷ done) last) blank is =
    ((led_by-IsComplex gap c blank is.0.0, is.0.1), is.1)

render-lead_line : (gap : Bytes) (l : Line) → render (lead_line gap l) ≡ gap ++ render l
unfolding render_done
render-lead_line gap (blanks more) = refl
render-lead_line gap (commands [] last) = append_assoc gap last.lead _
render-lead_line gap (commands ((c, s) ∷ done) last) = simp append_assoc

meaning-lead_line :
    (e : Expander) (aliases : e.Aliases) (gap : Bytes) (l : Line)
    → meaning e aliases (lead_line gap l) ≡ meaning e aliases l
unfolding meaning enter_all
meaning-lead_line e aliases gap (blanks more) = refl
meaning-lead_line e aliases gap (commands [] last) = refl
meaning-lead_line e aliases gap (commands ((c, s) ∷ done) last) = refl

-- Blanks before the line of a tree change nothing: `parse_input` returns the same on both, the
-- aliases and the messages included, or reaches the same undefined behaviour.
pub parse_input-lead_line :
    (e : Expander) (t : CharType) (junk : Params) (aliases : e.Aliases) (gap : Bytes) (l : Line)
    → All IsBlank gap
    → IsLine l
    → All IsChar gap
    → All IsChar (render l)
    → parse_input e t junk aliases (gap ++ render l) ≡ parse_input e t junk aliases (render l)
parse_input-lead_line e t junk aliases gap l blank is gap_chars chars =
    let chars' : All IsChar (render (lead_line gap l)) =
      subst (All IsChar) (sym (render-lead_line gap l))
        (All-append {0, 0} IsChar gap (render l) gap_chars chars) in
    ap (parse_input e t junk aliases) (sym (render-lead_line gap l))
    ∙ parse_input-meaning e t junk aliases (lead_line gap l) (IsLine-lead_line gap l blank is)
        chars'
    ∙ meaning-lead_line e aliases gap l
    ∙ sym (parse_input-meaning e t junk aliases l is chars)
