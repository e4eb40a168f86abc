-- ===== src/Tests/Linking.antt =====
-- A line with an alias, through the parser as it is linked.
use redshell.Alias.Table.{find}
use redshell.Alias.Weight.{total, sum_over}
use redshell.Base.{arith, ◌+◌, ◌<◌, length, codes, str_eq}
use redshell.Helper.Aliases.Ends.{Same}
use redshell.Parser.Buffer.{buf_size}
use redshell.Parser.Lookup.{signed_char}
use redshell.Parser.Machine.{parse_input}
use redshell.Parser.Safe.{Safe}
use redshell.Shell.{linked, full_length, parse_input-linked-Returns}
use redshell.Tests.Aliasing.{two_aliases}
use redshell.Tests.Chains.{chained, chained-Lawful, strip, visible}
use redshell.Tests.Parsing.{words, junk}

two_aliases-small :
    total chained chained-Lawful full_length two_aliases + length (codes "ll; ls|wc") < buf_size
unfolding find visible strip sum_over str_eq
two_aliases-small = omega arith

parse_input-linked-Returns_example :
    Safe ⊥
      (λ p. Same chained chained-Lawful two_aliases p.aliases)
      (parse_input (linked chained words) signed_char junk two_aliases (codes "ll; ls|wc"))
parse_input-linked-Returns_example =
    parse_input-linked-Returns chained chained-Lawful words signed_char junk two_aliases
      (codes "ll; ls|wc") (omega arith) two_aliases-small
