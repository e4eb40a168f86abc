-- ===== src/Main/Session.antt =====
-- The aliases over the rounds of `run`, from the start of the program.
use mathlib.Core.Path.{subst}
use redshell.Alias.Laws.{cleared}
use redshell.Alias.Table.{HashTable, Lawful}
use redshell.Alias.{Alias, alias_new, add_alias, remove_alias, initialize_aliases}
use redshell.Base.{
  ℕ, ◌+◌, ◌≡◌, refl, Bool, true, false, Option, none, some, ◌>>=◌, List, [], ◌∷◌, Bytes, arith,
  length, All, Run, ok, fault, ◌∙◌, ap, sym, str_eq, Bool-cases, inl, inr, IfOk, bind-IfOk,
}
use redshell.Builtins.{Environment, World}
use redshell.Helper.Aliases.Ends.{expand_alias-Outcome}
use redshell.Helper.Aliases.Outcomes.{Outcome-map}
use redshell.Helper.Words.{WordExp}
use redshell.Jobs.Aliases.Rounds.{execute_commands_in_queue-Keeps}
use redshell.Jobs.Aliases.{DoneWith}
use redshell.Jobs.Loop.{execute_commands_in_queue}
use redshell.Jobs.{System, Done, gave, gone, became}
use redshell.Main.{
  Signal, Memory, Expansion, printed, expansion, Round, execute_parsed, run_round, run_rounds,
  go_on, Started, Process, exit_failure, running, main, after_handlers, initialize_readline,
  setup_signal_handler,
}
use redshell.Parser.Lookup.{CharType}
use redshell.Parser.Machine.{parse_input}
use redshell.Parser.Outline.Rounds.{IsChar}
use redshell.Parser.Safe.{Safe, left_array, safe, parse_input-Safe}
use redshell.Prompt.{set_prompt}
use redshell.Shell.{linked, cleared_idem, Outcome-Safe}

Safe-IfOk :
    {Overflows A : Type 0} {P : A → Type 0} (run : Run A) → Safe Overflows P run → IfOk P run
Safe-IfOk run (left_array o) = tt
Safe-IfOk run (safe a p) = p

module _ (h : HashTable Alias) (laws : Lawful h) where
  open h use {Table, lookup}

  -- no alias is in use
  abbrev pub IsIdle : Table → Type 0
  IsIdle t = (key : Bytes) → cleared (lookup t key) ≡ lookup t key

  add_alias-IsIdle : (t : Table) (key value : Bytes) → IsIdle t → IsIdle (add_alias h t key value)
  unfolding add_alias
  add_alias-IsIdle t key value idle j =
      rw (laws.lookup-insert t key (alias_new value) j)
        (elim (Bool-cases (str_eq key j)) [ inl hit ↦ rw hit | inr miss ↦ rw miss (idle j) ])

  remove_alias-IsIdle : (t : Table) (key : Bytes) → IsIdle t → IsIdle (remove_alias h t key)
  unfolding remove_alias
  remove_alias-IsIdle t key idle j =
      rw (laws.lookup-remove t key j)
        (elim (Bool-cases (str_eq key j)) [ inl hit ↦ rw hit | inr miss ↦ rw miss (idle j) ])

  initialize_aliases-IsIdle : IsIdle (initialize_aliases h)
  unfolding initialize_aliases
  initialize_aliases-IsIdle key = rw (laws.lookup-empty key)

  module _ (env : Environment) (sys : System env) (wordexp : env.State → WordExp) where
    parse_input-IsIdle :
        (c : CharType) (m : Memory h env sys wordexp) (s : env.State) (t : Table) (line : Bytes)
        → All IsChar line
        → IsIdle t
        → IfOk (λ p. IsIdle p.aliases) (parse_input (linked h (wordexp s)) c m.params t line)
    parse_input-IsIdle c m s t line chars idle = Safe-IfOk _ (
        parse_input-Safe (linked h (wordexp s)) (Unit {0}) IsIdle (length line + 1)
          (λ t' text idle' _ _.
            Outcome-Safe _ (λ _. tt)
              (Outcome-map
                (λ r released key.
                  ap cleared (released.1 key) ∙ cleared_idem (lookup t' key) ∙ sym (released.1 key))
                (expand_alias-Outcome h laws t' text)))
          c m.params t line chars idle (omega arith))

    -- in whichever way the process ends
    abbrev pub IdleEnd : Done h env sys → Type 0
    IdleEnd = DoneWith h env IsIdle sys

    abbrev IdleRound : Round (Done h env sys) → Type 0
    IdleRound r = IdleEnd r.done

    abbrev pub IsTyped : Expansion → Type 0
    IsTyped (printed text) = Unit
    IsTyped (expansion line) = All IsChar line

    run_round-IdleRound :
        (c : CharType) (m : Memory h env sys wordexp) (line : Expansion) (history : List Bytes)
        (fg : Option (Option ℕ)) (w : World h env)
        → IsTyped line
        → IsIdle w.aliases
        → IfOk IdleRound (run_round h env sys wordexp c m line history fg w)
    unfolding run_round execute_parsed
    run_round-IdleRound c m (printed text) history fg w typed idle = idle
    run_round-IdleRound c m (expansion line) history fg w typed idle =
        bind-IfOk (λ p. IsIdle p.aliases) IdleRound _ _
          (parse_input-IsIdle c m w.state w.aliases line typed idle)
          (λ p p_idle.
            bind-IfOk (λ r. IdleEnd r.0) IdleRound
              (execute_commands_in_queue h env sys m.rounds m.pipes m.launched p.queue fg
                (record w { aliases = p.aliases }))
              _
              (execute_commands_in_queue-Keeps h env IsIdle add_alias-IsIdle remove_alias-IsIdle sys
                m.rounds m.pipes m.launched p.queue fg (record w { aliases = p.aliases }) p_idle)
              (λ r ends. ends))

    go_on-IdleRound :
        (later : List Bytes → Option (Option ℕ) → World h env → Run (Round (Done h env sys)))
        (r : Round (Done h env sys)) (done : Done h env sys)
        → ((history : List Bytes) (fg : Option (Option ℕ)) (w : World h env)
            → IsIdle w.aliases
            → IfOk IdleRound (later history fg w))
        → r.done ≡ done
        → IdleEnd done
        → IfOk IdleRound (go_on h env sys wordexp later r done)
    go_on-IdleRound later r (gave status w) keeps same ends =
        bind-IfOk IdleRound IdleRound (later r.history r.fg_pid w) _
          (keeps r.history r.fg_pid w ends) (λ r' idle. idle)
    go_on-IdleRound later r (gone w) keeps same ends = rw same ends
    go_on-IdleRound later r (became w) keeps same ends = rw same ends

    run_rounds-IdleRound :
        (c : CharType) (lines : List (Memory h env sys wordexp × Expansion)) (history : List Bytes)
        (fg : Option (Option ℕ)) (w : World h env)
        → All (λ (_, line). IsTyped line) lines
        → IsIdle w.aliases
        → IfOk IdleRound (run_rounds h env sys wordexp c lines history fg w)
    unfolding run_rounds
    run_rounds-IdleRound c [] history fg w typed idle = idle
    run_rounds-IdleRound c ((m, line) ∷ more) history fg w typed idle =
        bind-IfOk IdleRound IdleRound (run_round h env sys wordexp c m line history fg w) _
          (run_round-IdleRound c m line history fg w typed.0 idle)
          (λ r ends.
            go_on-IdleRound (run_rounds h env sys wordexp c more) r r.done
              (λ history' fg' w' idle'. run_rounds-IdleRound c more history' fg' w' typed.1 idle')
              refl ends)

    abbrev StartedIdle : {S : Type 0} → Started Table S → Type 0
    StartedIdle (exit_failure p) = Unit
    StartedIdle (running p) = (t : Table) × (p.table ≡ some t) × IsIdle t

    after_handlers-StartedIdle :
        {S : Type 0} (user : Option Bytes) (hostname : Bytes) (p : Process Table S)
        (handlers : Bool × S)
        → IfOk StartedIdle (after_handlers h user hostname p handlers)
    unfolding after_handlers
    after_handlers-StartedIdle user hostname p (true, s) = tt
    after_handlers-StartedIdle user hostname p (false, s) = prompted (set_prompt none user hostname)
      where
        prompted :
            (prompt : Run Bytes)
            → IfOk StartedIdle (
                prompt >>= λ text. ok (
                  running (record p {
                    system = s;
                    prompt = some text;
                    table = some (initialize_aliases h);
                    readline = initialize_readline p.readline;
                  })))
        prompted (fault e) = tt
        prompted (ok text) = (initialize_aliases h, refl, initialize_aliases-IsIdle)

    -- From the process that `main` calls `run` in, over any sequence of lines of characters, whatever
    -- the commands do, and whatever words `wordexp` finds in the state that they leave: where the
    -- rounds return, in whichever process and way they end, no alias is in use. The rounds include the
    -- builtin commands that add and remove aliases, and the lines that are refused.
    pub main-run_rounds :
        (sigaction : env.State → Signal → Bool × env.State) (user : Option Bytes) (hostname : Bytes)
        (p p' : Process Table env.State) (t : Table) (out err : Bytes) (c : CharType)
        (lines : List (Memory h env sys wordexp × Expansion)) (r : Round (Done h env sys))
        → main h sigaction user hostname p ≡ ok (running p')
        → p'.table ≡ some t
        → All (λ (_, line). IsTyped line) lines
        → run_rounds h env sys wordexp c lines [] none
            (record { aliases = t; state = p'.system; out = out; err = err })
          ≡ ok r
        → IdleEnd r.done
    unfolding main
    main-run_rounds sigaction user hostname p p' t out err c lines r starts there typed ends =
        let (t', made, idle) =
          subst (IfOk StartedIdle) starts (
            after_handlers-StartedIdle user hostname p (setup_signal_handler sigaction p.system)) in
        let both = sym made ∙ there in
        let same : t' ≡ t = cc in
        subst (IfOk IdleRound) ends
          (run_rounds-IdleRound c lines [] none _ typed (subst IsIdle same idle))
