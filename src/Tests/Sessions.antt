-- ===== src/Tests/Sessions.antt =====
-- A session of three lines, the first of which adds an alias.
use redshell.Base.{
  ◌⊎◌, ◌≡◌, refl, arith, Bool, true, false, none, some, List, [], ◌∷◌, ◌++◌, Bytes, codes, ok,
  before_byte, from_byte, rest_of,
}
use redshell.Alias.{
  alias_new, initialize_aliases, add_alias, get_alias, use_alias, release_aliases, release_each,
}
use redshell.Alias.Table.{find}
use redshell.Builtins.{
  World, execute_builtin_command, execute_among, call, cmd_alias, define, success,
}
use redshell.Helper.Aliases.{expand_alias, expand_loop, expand_round, copy_back, concatenate}
use redshell.Helper.Words.{WordExp}
use redshell.Jobs.Order.{Event, forked, waited}
use redshell.Jobs.{Done, gave, execute_command, execute_argv, try_external}
use redshell.Main.Refusing.{Unrun, WordsRefused, run_round-Unrun}
use redshell.Main.Session.{IdleEnd, main-run_rounds}
use redshell.Main.{
  Signal, Process, after_handlers, Readline, initialize_readline, running, Memory, Expansion,
  expansion, Round, run_round, run_rounds, execute_parsed, main, setup_signal_handler,
}
use redshell.Parser.Chart.{start, classify, next}
use redshell.Parser.Grammar.Decides.{refused-no_tree}
use redshell.Parser.Grammar.Language.{accepts}
use redshell.Parser.Machine.{parser_error_near}
use redshell.Parser.Lookup.{signed_char}
use redshell.Prompt.{set_prompt, user_prompt, format_prompt}
use redshell.Tests.Chains.{chained, chained-Lawful, visible, strip, overwrite}
use redshell.Tests.Ordering.{logging, logged, unset, jobs}
use redshell.Tests.Parsing.{words, junk, program}

-- once something ran, every word is found as `again`
abbrev words_in : List Event → WordExp
words_in [] = words
words_in (_ ∷ _) = λ line. some (codes "again" ∷ [])

abbrev memory : Memory chained logging logged words_in
memory = record { params = junk; pipes = unset; launched = unset; rounds = 1 }

-- an alias is added and used, and what was run changes the words of the last line
abbrev session : List (Memory chained logging logged words_in × Expansion)
session =
    (memory, expansion (codes "alias a=b"))
    ∷ (memory, expansion (codes "a c"))
    ∷ (memory, expansion (codes "x"))
    ∷ []

abbrev prompt_text : Bytes
prompt_text = 27 ∷ codes "[1;31mme@host > " ++ 27 ∷ codes "[0m"

abbrev no_failure : List Event → Signal → Bool × List Event
no_failure s signal = (false, s)

abbrev unset_readline : Readline
unset_readline = record { readline_name = []; attempted_completion_function = some 7 }

abbrev own_readline : Readline
own_readline = record { readline_name = codes "redshell"; attempted_completion_function = none }

abbrev before_main : Process chained.Table (List Event)
before_main = record { table = none; prompt = none; readline = unset_readline; system = [] }

abbrev in_run : Process chained.Table (List Event)
in_run = record { table = some []; prompt = some prompt_text; readline = own_readline; system = [] }

started :
    main chained no_failure (some (codes "me")) (codes "host") before_main ≡ ok (running in_run)
unfolding main after_handlers initialize_readline setup_signal_handler set_prompt initialize_aliases
    user_prompt format_prompt
started = refl

abbrev first_world : World chained logging
first_world = record { aliases = []; state = []; out = []; err = [] }

abbrev last_world : World chained logging
last_world = record first_world {
  aliases = (codes "a", alias_new (codes "b")) ∷ [];
  state =
      forked (some 0)
      ∷ waited (some 0)
      ∷ waited (some 99)
      ∷ forked (some 3)
      ∷ waited (some 3)
      ∷ waited (some 99)
      ∷ [];
}

abbrev last_round : Round (Done chained logging logged)
last_round = record {
  done = gave success last_world;
  fg_pid = none;
  history = codes "alias a=b" ∷ codes "a c" ∷ codes "x" ∷ [];
  messages = [];
}

all_rounds :
    run_rounds chained logging logged words_in signed_char session [] none first_world
    ≡ ok last_round
unfolding program jobs run_rounds run_round execute_parsed execute_command execute_argv
    execute_builtin_command execute_among call cmd_alias define try_external expand_alias
    expand_loop expand_round copy_back concatenate get_alias use_alias release_aliases release_each
    find visible strip overwrite add_alias before_byte from_byte rest_of
all_rounds = refl

main-run_rounds_example : IdleEnd chained chained-Lawful logging logged words_in last_round.done
main-run_rounds_example =
    main-run_rounds chained chained-Lawful logging logged words_in no_failure (some (codes "me"))
      (codes "host") before_main in_run [] [] [] signed_char session last_round started refl
      (omega arith, (omega arith, (omega arith, tt))) all_rounds

abbrev all_fail : List Event → Signal → Bool × List Event
all_fail s signal = (true, s)

abbrev refused_round : Round (Done chained logging logged)
refused_round = record {
  done = gave success first_world;
  fg_pid = none;
  history = [];
  messages = parser_error_near none (some b';') ∷ [];
}

semicolon-round :
    run_round chained logging logged words_in signed_char memory
      (expansion (codes ";"))
      []
      none
      first_world
    ≡ ok refused_round
unfolding program jobs run_round execute_parsed
semicolon-round = refl

semicolon-refused : accepts start (codes ";") ≡ false
unfolding accepts classify next
semicolon-refused = refl

run_round-Unrun_example :
    Unrun chained logging logged words_in [] none first_world refused_round
    ⊎ WordsRefused chained logging logged words_in refused_round
run_round-Unrun_example =
    run_round-Unrun chained logging logged words_in signed_char memory (codes ";") [] none
      first_world refused_round (omega arith) (refused-no_tree (codes ";") semicolon-refused)
      semicolon-round
