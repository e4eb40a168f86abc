-- ===== src/Tests/Parsing.antt =====
-- Lines of tests/test_parser.c, with a `wordexp` that splits at blanks and knows no aliases.
use redshell.Base.{
  arith, inl, inr, Option, none, some, List, [], ◌∷◌, ◌++◌, ◌≡◌, refl, Bytes, codes, if◌then◌else◌,
  ok,
}
use redshell.Command.{pipe_connection, background, sequential, Command}
use redshell.Helper.Words.{WordExp, expand, expand_glob}
use redshell.Parser.Buffer.{Buffer, append_byte, c_string, write, reset}
use redshell.Parser.Chart.Agrees.{lookup_transition-next, encode}
use redshell.Parser.Chart.{is_blank, in_command, next, classify, state_code}
use redshell.Parser.Outline.Rounds.{parse_input-outline}
use redshell.Parser.Outline.{outline}
use redshell.Parser.Grammar.Endings.{EndsUnpiped, parse_input-EndsUnpiped}
use redshell.Parser.Grammar.Lines.{parse_input-meaning}
use redshell.Parser.Grammar.{
  Line, commands, no_file, to_file, by_pipe, render, render_done, meaning, IsLine,
}
use redshell.Parser.Shapes.{AreShaped, parse_input-AreShaped}
use redshell.Parser.Lookup.{signed_char, lookup_transition}
use redshell.Parser.Machine.{
  Expander, Params, Parsed, parser_error_near, parse_input, loop, finish, take_transition,
  perform_all, perform, new_action, term_action, set_mask, expanded, enqueue, redirection,
}

-- the words of a line, `word` being the one that is read
words_from : Bytes → Bytes → List Bytes
words_from [] [] = []
words_from (w ∷ word) [] = (w ∷ word) ∷ []
words_from word (c ∷ line) =
    let next = words_from (word ++ c ∷ []) line in
    let skip = words_from [] line in
    if is_blank c then (elim word [ [] ↦ skip | w ∷ ws ↦ (w ∷ ws) ∷ skip ]) else next

unfoldable pub words : WordExp
unfolding words_from
words line = some (words_from [] line)

abbrev pub plain_expander : Expander
plain_expander = record {
  Aliases = Unit {0};
  expand_alias = λ a line. ok (line, a);
  wordexp = words;
}

abbrev pub buffer_of_ones : Buffer
buffer_of_ones = record { cells = λ i. 1; len = 7 }

abbrev pub junk : Params
junk = record { buffer = buffer_of_ones; stdin = buffer_of_ones; stdout = buffer_of_ones; cs = 9 }

unfoldable pub program : Unit {0}
unfolding words is_blank parse_input loop finish take_transition lookup_transition perform_all
    perform new_action term_action set_mask expanded enqueue redirection expand expand_glob
    append_byte c_string write reset
program = tt

abbrev argv_of : Command → Option (List Bytes)
argv_of c = c.argv

abbrev piped_line : Bytes
piped_line = codes " ps>out; dmesg |tail -1< in &"

abbrev piped_parsed : Parsed (Unit {0})
piped_parsed = record {
  queue =
      record {
        path = some (codes "ps");
        argc = 0;
        argv = some (codes "ps" ∷ []);
        redirect_to_path = some (codes "out");
        redirect_from_path = none;
        connection_mask = sequential;
      }
      ∷ record {
        path = some (codes "dmesg");
        argc = 0;
        argv = some (codes "dmesg" ∷ []);
        redirect_to_path = none;
        redirect_from_path = none;
        connection_mask = pipe_connection;
      }
      ∷ record {
        path = some (codes "tail");
        argc = 0;
        argv = some (codes "tail" ∷ codes "-1" ∷ []);
        redirect_to_path = none;
        redirect_from_path = some (codes "in");
        connection_mask = background;
      }
      ∷ [];
  aliases = tt;
  messages = [];
}

pipeline : parse_input plain_expander signed_char junk tt piped_line ≡ ok piped_parsed
unfolding program
pipeline = refl

-- the third redirection is refused, and nothing of the line is kept
redirections :
    parse_input plain_expander signed_char junk tt (codes "cat > out < in > out2")
    ≡ ok (record {
      queue = [];
      aliases = tt;
      messages = parser_error_near (some b' ') (some b'>') ∷ [];
    })
unfolding program
redirections = refl

-- the error message of a line that begins with `;` reads the byte before the line
semicolon :
    parse_input plain_expander signed_char junk tt (codes ";")
    ≡ ok (record { queue = []; aliases = tt; messages = parser_error_near none (some b';') ∷ [] })
unfolding program
semicolon = refl

empty_line :
    parse_input plain_expander signed_char junk tt []
    ≡ ok (record { queue = []; aliases = tt; messages = [] })
unfolding program
empty_line = refl

lookup_transition-next_example :
    lookup_transition signed_char (state_code in_command) b'|'
    ≡ encode (next in_command (classify b'|')) ∷ []
lookup_transition-next_example =
    lookup_transition-next signed_char in_command b'|' refl (omega arith)

parse_input-outline_example :
    parse_input plain_expander signed_char junk tt (codes "ls -l | wc > out")
    ≡ outline plain_expander tt (codes "ls -l | wc > out")
parse_input-outline_example =
    parse_input-outline plain_expander signed_char junk tt (codes "ls -l | wc > out") (omega arith)

-- ` ls -l |wc > out &`
abbrev a_line : Line
a_line =
    commands
      ((
        record { lead = codes " "; text = codes "ls -l "; files = no_file; ampersand = none },
        by_pipe,
      )
        ∷ [])
      (record {
        lead = [];
        text = codes "wc ";
        files = to_file (record { gap = codes " "; text = codes "out " });
        ampersand = some [];
      })

a_line-IsLine : IsLine a_line
unfolding classify is_blank
a_line-IsLine = (
  (
    record {
      lead = (refl, tt);
      text = (refl, (inr refl, (inl refl, (inr refl, (inr refl, (inl refl, tt))))));
      files = tt;
      ampersand = tt;
    },
    tt,
  ),
  record {
    lead = tt;
    text = (refl, (inr refl, (inl refl, tt)));
    files = ((refl, tt), (refl, (inr refl, (inr refl, (inl refl, tt)))));
    ampersand = tt;
  },
)

parse_input-meaning_example :
    parse_input plain_expander signed_char junk tt (render a_line)
    ≡ meaning plain_expander tt a_line
unfolding render_done
parse_input-meaning_example =
    parse_input-meaning plain_expander signed_char junk tt a_line a_line-IsLine (omega arith)

parse_input-EndsUnpiped_example : EndsUnpiped piped_parsed.queue
parse_input-EndsUnpiped_example =
    parse_input-EndsUnpiped plain_expander signed_char junk tt piped_line piped_parsed (omega arith)
      pipeline refl

parse_input-AreShaped_example : AreShaped plain_expander piped_parsed.queue
parse_input-AreShaped_example =
    parse_input-AreShaped plain_expander signed_char junk tt piped_line piped_parsed (omega arith)
      pipeline
