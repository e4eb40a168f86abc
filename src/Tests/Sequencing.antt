-- ===== src/Tests/Sequencing.antt =====
-- `ls` and `wc` on one line.
use redshell.Base.{◌≡◌, refl, arith, inr, none, some, [], ◌∷◌, Bytes, codes, ok}
use redshell.Command.{Command, command_new, sequential}
use redshell.Parser.Chart.{classify, is_blank}
use redshell.Parser.Grammar.Leading.{parse_input-lead_line}
use redshell.Parser.Grammar.Sequence.Whole.{parse_input-sequence}
use redshell.Parser.Grammar.{Complex, commands, IsComplex, no_file, render_done}
use redshell.Parser.Lookup.{signed_char}
use redshell.Parser.Machine.{Parsed, parse_input}
use redshell.Tests.Parsing.{plain_expander, junk, program}

abbrev single : Bytes → Complex
single text = record { lead = []; text = text; files = no_file; ampersand = none }

ls-IsComplex : IsComplex (single (codes "ls"))
unfolding classify is_blank
ls-IsComplex = record { lead = tt; text = (refl, (inr refl, tt)); files = tt; ampersand = tt }

wc-IsComplex : IsComplex (single (codes "wc"))
unfolding classify is_blank
wc-IsComplex = record { lead = tt; text = (refl, (inr refl, tt)); files = tt; ampersand = tt }

abbrev word_command : Bytes → Command
word_command word = record command_new { path = some word; argv = some (word ∷ []) }

abbrev word_parsed : Bytes → Parsed (Unit {0})
word_parsed word = record { queue = word_command word ∷ []; aliases = tt; messages = [] }

ls-parsed :
    parse_input plain_expander signed_char junk tt (codes "ls") ≡ ok (word_parsed (codes "ls"))
unfolding program
ls-parsed = refl

wc-parsed :
    parse_input plain_expander signed_char junk tt (codes "wc") ≡ ok (word_parsed (codes "wc"))
unfolding program
wc-parsed = refl

parse_input-sequence_example :
    parse_input plain_expander signed_char junk tt (codes "ls;wc")
    ≡ ok (record (word_parsed (codes "wc")) {
      queue =
          record (word_command (codes "ls")) { connection_mask = sequential }
          ∷ word_command (codes "wc")
          ∷ [];
    })
unfolding render_done
parse_input-sequence_example =
    parse_input-sequence plain_expander signed_char junk tt [] (single (codes "ls")) []
      (single (codes "wc")) (word_parsed (codes "ls")) (word_parsed (codes "wc")) (tt, ls-IsComplex)
      (tt, wc-IsComplex) (omega arith) (omega arith) ls-parsed refl wc-parsed

parse_input-lead_line_example :
    parse_input plain_expander signed_char junk tt (codes "  wc")
    ≡ parse_input plain_expander signed_char junk tt (codes "wc")
unfolding classify is_blank render_done
parse_input-lead_line_example =
    parse_input-lead_line plain_expander signed_char junk tt (codes "  ")
      (commands [] (single (codes "wc"))) (refl, (refl, tt)) (tt, wc-IsComplex) (omega arith)
      (omega arith)
