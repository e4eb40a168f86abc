-- ===== src/Tests/Refusing.antt =====
-- Lines whose words an expander refuses.
use redshell.Base.{
  ◌≡◌, refl, arith, inl, inr, true, none, some, [], ◌∷◌, codes, str_eq, ok, ◌>>=◌, List,
  before_byte, from_byte, rest_of, if◌then◌else◌,
}
use redshell.Command.{Command, is_pipe}
use redshell.Alias.Table.{find}
use redshell.Alias.{get_alias, use_alias, release_aliases, release_each}
use redshell.Helper.Aliases.{expand_alias, expand_loop, expand_round, copy_back, concatenate}
use redshell.Helper.Words.{WordExp}
use redshell.Jobs.Loop.{execute_commands_in_queue}
use redshell.Jobs.Order.{Event}
use redshell.Main.Cutting.{run_round-cut}
use redshell.Main.{Memory, expansion, run_round}
use redshell.Parser.Chart.{classify, is_blank}
use redshell.Parser.Grammar.{Complex, IsLine, no_file, commands, by_pipe, render_done}
use redshell.Parser.Lookup.{signed_char}
use redshell.Parser.Machine.{Expander, illegal_character}
use redshell.Tests.Chains.{chained, visible, strip}
use redshell.Tests.Ordering.{logging, logged, unset, quiet_world}
use redshell.Tests.Parsing.{plain_expander, junk}

-- refuses a parenthesis alone
abbrev picky : Expander
picky = record plain_expander {
  wordexp = λ line. if str_eq line (codes "(") then none else some (codes "ls" ∷ []);
}

abbrev ls_first : Complex
ls_first = record { lead = []; text = codes "ls "; files = no_file; ampersand = none }

abbrev parenthesis : Complex
parenthesis = record { lead = []; text = codes "("; files = no_file; ampersand = none }

cut-IsLine : IsLine (commands ((ls_first, by_pipe) ∷ []) parenthesis)
unfolding classify is_blank
cut-IsLine = (
  (record { lead = tt; text = (refl, (inr refl, (inl refl, tt))); files = tt; ampersand = tt }, tt),
  record { lead = tt; text = (refl, tt); files = tt; ampersand = tt },
)

abbrev picked : List Event → WordExp
picked s = picky.wordexp

abbrev picked_memory : Memory chained logging logged picked
picked_memory = record { params = junk; pipes = unset; launched = unset; rounds = 1 }

run_round-cut_example :
    (c : Command) × (is_pipe c.connection_mask ≡ true)
    × (c.argv ≡ some (codes "ls" ∷ []))
    × (run_round chained logging logged picked signed_char picked_memory
          (expansion (codes "ls |("))
          []
          none
          quiet_world
        ≡ (execute_commands_in_queue chained logging logged 1 unset unset (c ∷ []) none quiet_world
            >>= λ (done, fg'). ok (record {
              done = done;
              fg_pid = fg';
              history = codes "ls |(" ∷ [];
              messages = illegal_character ∷ [];
            })))
unfolding str_eq render_done expand_alias expand_loop expand_round copy_back concatenate get_alias
    use_alias release_aliases release_each find visible strip before_byte from_byte rest_of
run_round-cut_example =
    run_round-cut chained logging logged picked signed_char picked_memory [] none quiet_world
      ls_first parenthesis (codes "ls ") (codes "(") (codes "ls" ∷ []) [] [] cut-IsLine
      (omega arith) refl refl refl refl
