-- ===== src/Parser/Machine.antt =====
-- `parseInput` of src/parser.c: the state that the generated loop works on, the eight actions, the
-- loop over the bytes, and what follows it. The queue is the list of its commands, front first.
-- `expandAlias`, `wordexp` and the state of the aliases come from an `Expander`.
use redshell.Base.{
  ℕ, zero, suc, Option, none, some, List, [], ◌∷◌, ◌++◌, Bytes, ltb, ◌==◌, if◌then◌else◌, Run,
  out_of_fuel, ok, fault, ◌>>=◌,
}
use redshell.Command.{
  Connection, pipe_connection, background, sequential, is_background, Command, command_new,
}
use redshell.Helper.Words.{WordExp, expand, expand_glob, deref}
use redshell.Parser.Buffer.{Buffer, append_byte, reset, c_string}
use redshell.Parser.Lookup.{CharType, Transition, lookup_transition}
use redshell.Parser.Tables.{parser_start, parser_error}

-- what the parser calls: `expandAlias` with the state that it keeps, and the C library's `wordexp`
pub record Expander : Type 1 where
  pub Aliases : Type 0
  pub expand_alias : Aliases → Bytes → Run (Bytes × Aliases)
  pub wordexp : WordExp

-- `struct params`, each array with its length
pub record Params : Type 0 where
  pub buffer : Buffer
  pub stdin : Buffer
  pub stdout : Buffer
  pub cs : ℕ

-- what is printed on the standard error; the bytes are those at `p - 1`, none before the line, and
-- at `p`, none behind it
pub data Message : Type 0 where
  illegal_character : Message
  parser_error_near : Option ℕ → Option ℕ → Message

pub record Machine (A : Type 0) : Type 0 where
  pub fsm : Params
  pub queue : List Command
  pub command : Option Command
  pub aliases : A
  pub messages : List Message

-- after an action: `left` is the jump to `_out` behind `p++`
pub data Flow (A : Type 0) : Type 0 where
  running : Machine A → Flow A
  left : Machine A → Flow A

-- at `_out`, with the bytes before and at `p`
pub record Exit (A : Type 0) : Type 0 where
  pub machine : Machine A
  pub before : Option ℕ
  pub here : Option ℕ

pub record Parsed (A : Type 0) : Type 0 where
  pub queue : List Command
  pub aliases : A
  pub messages : List Message

abbrev pub first : Bytes → Option ℕ
first [] = none
first (c ∷ _) = some c

-- `argv[0]`, which is the null pointer behind the last word
abbrev pub first_word : Option (List Bytes) → Run (Option Bytes)
first_word none = deref none
first_word (some []) = ok none
first_word (some (w ∷ _)) = ok (some w)

module _ (e : Expander) where
  open e use {Aliases, expand_alias, wordexp}

  -- `if (len > 0) … = expand(…);`
  unfoldable pub redirection : Buffer → Option Bytes → Run (Option Bytes)
  redirection b old =
      if ltb 0 b.len then (c_string b >>= λ name. ok (expand wordexp name)) else ok old

  -- the action `term` after `expandGlob` succeeded
  unfoldable pub enqueue : Machine Aliases → Command → Run (Flow Aliases)
  unfolding deref
  enqueue m c = do
    path ← first_word c.argv
    from ← redirection m.fsm.stdin c.redirect_from_path
    to ← redirection m.fsm.stdout c.redirect_to_path
    ok (
        running (record m {
          queue =
              m.queue
              ++ record c { path = path; redirect_from_path = from; redirect_to_path = to } ∷ [];
          command = none;
        }))

  unfoldable pub expanded : Machine Aliases → Option Command → Run (Flow Aliases)
  expanded m none = ok (left (record m { messages = m.messages ++ illegal_character ∷ [] }))
  expanded m (some c) = enqueue m c

  unfoldable pub term_action : Machine Aliases → Run (Flow Aliases)
  term_action m =
      if ltb 0 m.fsm.buffer.len
      then (do
        line ← c_string m.fsm.buffer
        (tmp, aliases) ← expand_alias m.aliases line
        command ← expand_glob wordexp m.command tmp
        expanded (record m { aliases = aliases }) command)
      else ok (running m)

  -- `command->connectionMask = …`
  unfoldable pub set_mask : (Connection → Connection) → Machine Aliases → Run (Flow Aliases)
  unfolding deref
  set_mask f m = do
    c ← deref m.command
    ok (running (record m { command = some (record c { connection_mask = f c.connection_mask }) }))

  unfoldable pub new_action : Machine Aliases → Run (Flow Aliases)
  new_action m = do
    buffer ← reset m.fsm.buffer
    stdout ← reset m.fsm.stdout
    stdin ← reset m.fsm.stdin
    let fsm = record m.fsm { buffer = buffer; stdin = stdin; stdout = stdout }
    ok (running (record m { fsm = fsm; command = some command_new }))

  abbrev pub seq_mask : Connection → Connection
  seq_mask mask = if is_background mask then mask else sequential

  -- the `switch` on an action's number
  unfoldable pub perform : ℕ → ℕ → Machine Aliases → Run (Flow Aliases)
  perform zero c m = do
    b ← append_byte m.fsm.buffer c
    ok (running (record m { fsm = record m.fsm { buffer = b } }))
  perform (suc zero) c m = do
    b ← append_byte m.fsm.stdin c
    ok (running (record m { fsm = record m.fsm { stdin = b } }))
  perform (suc (suc zero)) c m = do
    b ← append_byte m.fsm.stdout c
    ok (running (record m { fsm = record m.fsm { stdout = b } }))
  perform (suc (suc (suc zero))) c m = new_action m
  perform (suc (suc (suc (suc zero)))) c m = term_action m
  perform (suc (suc (suc (suc (suc zero))))) c m = set_mask (λ _. pipe_connection) m
  perform (suc (suc (suc (suc (suc (suc zero)))))) c m = set_mask (λ _. background) m
  perform (suc (suc (suc (suc (suc (suc (suc zero))))))) c m = set_mask seq_mask m
  perform _ c m = ok (running m)

  -- the loop over the transition's actions
  unfoldable pub perform_all : List ℕ → ℕ → Machine Aliases → Run (Flow Aliases)
  perform_all [] c m = ok (running m)
  perform_all (a ∷ rest) c m =
      perform a c m >>= elim [ running m' ↦ perform_all rest c m' | left m' ↦ ok (left m') ]

  -- one round: the transition is looked up and its actions run
  unfoldable pub take_transition : List Transition → ℕ → Machine Aliases → Run (Flow Aliases)
  take_transition [] c m = fault out_of_fuel
  take_transition (t ∷ _) c m =
      perform_all t.actions c (record m { fsm = record m.fsm { cs = t.target } })

  -- from `_resume` with `p` at the head of the bytes left, `before` the byte at `p - 1`
  unfoldable pub loop : CharType → Option ℕ → Bytes → Machine Aliases → Run (Exit Aliases)
  loop t before [] m = ok (record { machine = m; before = before; here = none })
  loop t before (c ∷ rest) m = take_transition (lookup_transition t m.fsm.cs c) c m >>= elim [
    | left m' ↦ ok (record { machine = m'; before = some c; here = first rest })
    | running m' ↦
        let on = loop t (some c) rest m' in
        if m'.fsm.cs == parser_error
        then ok (record { machine = m'; before = before; here = some c })
        else on
  ]

  -- behind the loop: on an error the queue is freed and a new one returned
  unfoldable pub finish : Exit Aliases → Parsed Aliases
  finish x =
      if x.machine.fsm.cs == parser_error
      then record {
        queue = [];
        aliases = x.machine.aliases;
        messages = x.machine.messages ++ parser_error_near x.before x.here ∷ [];
      }
      else record {
        queue = x.machine.queue;
        aliases = x.machine.aliases;
        messages = x.machine.messages;
      }

  -- `junk` is the memory that `malloc` returns, whose contents are not known
  unfoldable pub parse_input : CharType → Params → Aliases → Bytes → Run (Parsed Aliases)
  parse_input t junk aliases line = do
    let fsm : Params = record junk { buffer = record junk.buffer { len = 0 }; cs = parser_start }
    let start : Machine Aliases = record {
      fsm = fsm;
      queue = [];
      command = none;
      aliases = aliases;
      messages = [];
    }
    x ← loop t none (line ++ 0 ∷ []) start
    ok (finish x)
