-- ===== src/Main.antt =====
-- src/main.c: the signal handler, `main`, and a round of the loop of `run`. `readline` and `history_expand`
-- give the round its input, and `kill` and `waitpid` are the system's.
pub mod Cleanup
pub mod Cutting
pub mod Interrupts
pub mod Refusing
pub mod Session
use redshell.Alias.Table.{HashTable}
use redshell.Alias.{Alias, AliasBlock, initialize_aliases, destroy_aliases}
use redshell.Base.{
  Bool, true, false, if◌then◌else◌, ℕ, Option, none, some, List, [], ◌∷◌, ◌++◌, Bytes, codes, Run,
  ok, ◌>>=◌,
}
use redshell.Builtins.{success, Environment, World}
use redshell.Command.{Command}
use redshell.Helper.Words.{WordExp}
use redshell.Jobs.Loop.{execute_commands_in_queue}
use redshell.Jobs.{System, Done, gave, gone, became}
use redshell.Parser.Lookup.{CharType}
use redshell.Parser.Machine.{Params, Message, Parsed, parse_input}
use redshell.Prompt.{set_prompt}
use redshell.Shell.{linked}

pub data Signal : Type 0 where
  sigint sigchld : Signal
  another : ℕ → Signal

-- what the handler calls; a process is `none` where its number is -1
pub record Signals (S : Type 0) : Type 0 where
  pub kill : S → Option ℕ → Signal → S
  -- of one process
  pub waitpid : S → Option ℕ → S
  -- of any process of the group, without blocking
  pub wait_any : S → S
  pub newline : S → S
  pub unexpected : S → ℕ → S

unfoldable pub signal_handler :
    {S : Type 0} → Signals S → Signal → Option (Option ℕ) → S → Option (Option ℕ) × S
signal_handler calls sigint none s = (none, calls.newline s)
signal_handler calls sigint (some fg_pid) s =
    (none, calls.newline (calls.waitpid (calls.kill s fg_pid sigint) fg_pid))
signal_handler calls sigchld fg_pid s = (fg_pid, calls.wait_any s)
signal_handler calls (another n) fg_pid s = (fg_pid, calls.unexpected s n)

-- the result of `history_expand`: a message where it is below 0 or 2, or the line
pub data Expansion : Type 0 where
  printed : Bytes → Expansion
  expansion : Bytes → Expansion

pub record Round (D : Type 0) : Type 0 where
  pub done : D
  pub fg_pid : Option (Option ℕ)
  pub history : List Bytes
  pub messages : List Message

-- `if (commandQueue->count > 0) add_history(expansion);`
abbrev pub remember : List Bytes → Bytes → List Command → List Bytes
remember history line [] = history
remember history line (_ ∷ _) = history ++ line ∷ []

-- `wordexp` reads the variables, the directory and the files of the state in which a line is parsed
module _ (h : HashTable Alias) (env : Environment) (sys : System env)
    (wordexp : env.State → WordExp) where
  -- the contents of the memory that a round finds, and the bound on the rounds of waiting
  pub record Memory : Type 0 where
    pub params : Params
    pub pipes : ℕ → Option ℕ
    pub launched : ℕ → Option ℕ
    pub rounds : ℕ

  unfoldable pub execute_parsed :
      Memory
      → List Bytes
      → Bytes
      → Option (Option ℕ)
      → World h env
      → Parsed h.Table
      → Run (Round (Done h env sys))
  execute_parsed m history line fg w p = do
    (done, fg') ←
        execute_commands_in_queue h env sys m.rounds m.pipes m.launched p.queue fg
          (record w { aliases = p.aliases })
    ok (record {
      done = done;
      fg_pid = fg';
      history = remember history line p.queue;
      messages = p.messages;
    })

  unfoldable pub run_round :
      CharType
      → Memory
      → Expansion
      → List Bytes
      → Option (Option ℕ)
      → World h env
      → Run (Round (Done h env sys))
  unfolding execute_parsed
  run_round t m (printed text) history fg w = ok (record {
    done = gave success (record w { err = w.err ++ (text ++ codes "\n") });
    fg_pid = fg;
    history = history;
    messages = [];
  })
  run_round t m (expansion line) history fg w =
      parse_input (linked h (wordexp w.state)) t m.params w.aliases line
      >>= execute_parsed m history line fg w

  -- where the process goes on, it runs the rounds that are left
  abbrev pub go_on :
      (List Bytes → Option (Option ℕ) → World h env → Run (Round (Done h env sys)))
      → Round (Done h env sys)
      → Done h env sys
      → Run (Round (Done h env sys))
  go_on later r (gave status w) =
      later r.history r.fg_pid w >>= λ r'. ok (record r' { messages = r.messages ++ r'.messages })
  go_on later r (gone w) = ok r
  go_on later r (became w) = ok r

  -- the loop of `run` over the lines that are read, with the memory that each round finds
  unfoldable pub run_rounds :
      CharType
      → List (Memory × Expansion)
      → List Bytes
      → Option (Option ℕ)
      → World h env
      → Run (Round (Done h env sys))
  unfolding run_round
  run_rounds t [] history fg w =
      ok (record { done = gave success w; fg_pid = fg; history = history; messages = [] })
  run_rounds t ((m, line) ∷ more) history fg w =
      run_round t m line history fg w >>= λ r. go_on (run_rounds t more) r r.done

-- `setupSignalHandler`, with the calls of `sigaction` that say whether they failed
unfoldable pub setup_signal_handler : {S : Type 0} → (S → Signal → Bool × S) → S → Bool × S
setup_signal_handler sigaction s =
    let interrupt = sigaction s sigint in
    let children = sigaction interrupt.1 sigchld in if interrupt.0 then interrupt else children

-- the variables of readline that `initializeReadline` sets
pub record Readline : Type 0 where
  pub readline_name : Bytes
  -- none where it is the null pointer
  pub attempted_completion_function : Option ℕ

unfoldable pub initialize_readline : Readline → Readline
initialize_readline r = record {
  readline_name = codes "redshell";
  attempted_completion_function = none;
}

-- the static variables, the variables of readline and the system's state
pub record Process (T S : Type 0) : Type 0 where
  -- `table` of alias.c
  pub table : Option T
  pub prompt : Option Bytes
  pub readline : Readline
  pub system : S

-- `main` returned, or called `run`
pub data Started (T S : Type 0) : Type 0 where
  exit_failure : Process T S → Started T S
  running : Process T S → Started T S

-- behind `setupSignalHandler`
unfoldable pub after_handlers :
    {S : Type 0} (h : HashTable Alias)
    → Option Bytes
    → Bytes
    → Process h.Table S
    → Bool × S
    → Run (Started h.Table S)
unfolding set_prompt initialize_aliases initialize_readline
after_handlers h user hostname p (true, s) = ok (exit_failure (record p { system = s }))
after_handlers h user hostname p (false, s) = do
  text ← set_prompt none user hostname
  let p = record p { system = s; prompt = some text }
  let p = record p { table = some (initialize_aliases h) }
  ok (running (record p { readline = initialize_readline p.readline }))

unfoldable pub main :
    {S : Type 0} (h : HashTable Alias)
    → (S → Signal → Bool × S)
    → Option Bytes
    → Bytes
    → Process h.Table S
    → Run (Started h.Table S)
unfolding setup_signal_handler after_handlers
main h sigaction user hostname p =
    after_handlers h user hostname p (setup_signal_handler sigaction p.system)

-- registered with `atexit`
unfoldable pub cleanup :
    {S : Type 0} (h : HashTable Alias) → Process h.Table S → Run (List AliasBlock × Option h.Table)
unfolding destroy_aliases
cleanup h p = destroy_aliases h p.table
