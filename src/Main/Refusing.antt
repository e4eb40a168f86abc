-- ===== src/Main/Refusing.antt =====
-- A round of `run` on a line that is not of the grammar.
use mathlib.Core.Path.{subst}
use redshell.Alias.Table.{HashTable}
use redshell.Alias.{Alias}
use redshell.Base.{
  ℕ, ◌≡◌, refl, ◌⊎◌, inl, inr, Option, List, [], ◌∷◌, ◌++◌, Bytes, All, Run, ok, fault, ◌>>=◌, ◌∙◌,
  IfOk,
}
use redshell.Builtins.{Environment, World, success}
use redshell.Helper.Words.{WordExp}
use redshell.Jobs.Loop.{execute_commands_in_queue}
use redshell.Jobs.{System, Done, gave}
use redshell.Main.{Memory, expansion, Round, remember, execute_parsed, run_round}
use redshell.Parser.Grammar.Decides.{IsRendered, parse_input-Refused}
use redshell.Parser.Grammar.Refusals.{Refused, faulted, unexpanded, misplaced}
use redshell.Parser.Lookup.{CharType}
use redshell.Parser.Machine.{Parsed, Message, illegal_character, parser_error_near, parse_input}
use redshell.Parser.Outline.Rounds.{IsChar}
use redshell.Shell.{linked}

module _ (h : HashTable Alias) (env : Environment) (sys : System env)
    (wordexp : env.State → WordExp) where
  -- nothing but the aliases' marks may have changed, and the error is reported
  abbrev pub Unrun : List Bytes → Option (Option ℕ) → World h env → Round (Done h env sys) → Type 0
  Unrun history fg w r =
      ((t : h.Table) × (r.done ≡ gave success (record w { aliases = t })))
      × ((r.history ≡ history)
          × ((r.fg_pid ≡ fg)
              × ((messages : List Message) × (before here : Option ℕ) × (r.messages
                    ≡ messages ++ parser_error_near before here ∷ []))))

  -- `wordexp` refused words before the place of the error
  abbrev pub WordsRefused : Round (Done h env sys) → Type 0
  WordsRefused r = (messages : List Message) × (r.messages ≡ messages ++ illegal_character ∷ [])

  execute_parsed-messages :
      (m : Memory h env sys wordexp) (history : List Bytes) (line : Bytes) (fg : Option (Option ℕ))
      (w : World h env) (p : Parsed h.Table)
      → IfOk
          (λ (r : Round (Done h env sys)). r.messages ≡ p.messages)
          (execute_parsed h env sys wordexp m history line fg w p)
  unfolding execute_parsed
  execute_parsed-messages m history line fg w p = kept (
      execute_commands_in_queue h env sys m.rounds m.pipes m.launched p.queue fg
        (record w { aliases = p.aliases }))
    where
      kept :
          (run : Run (Done h env sys × Option (Option ℕ)))
          → IfOk
              (λ (r : Round (Done h env sys)). r.messages ≡ p.messages)
              (run >>= λ (done, fg'). ok (record {
                done = done;
                fg_pid = fg';
                history = remember history line p.queue;
                messages = p.messages;
              }))
      kept (fault f) = tt
      kept (ok (done, fg')) = refl

  execute_parsed-empty :
      (m : Memory h env sys wordexp) (history : List Bytes) (line : Bytes) (fg : Option (Option ℕ))
      (w : World h env) (p : Parsed h.Table)
      → p.queue ≡ []
      → execute_parsed h env sys wordexp m history line fg w p
        ≡ ok (record {
          done = gave success (record w { aliases = p.aliases });
          fg_pid = fg;
          history = history;
          messages = p.messages;
        })
  unfolding execute_parsed execute_commands_in_queue
  execute_parsed-empty m history line fg w p empty = rw empty

  Refused-Unrun :
      (m : Memory h env sys wordexp) (history : List Bytes) (line : Bytes) (fg : Option (Option ℕ))
      (w : World h env) (run : Run (Parsed h.Table))
      → Refused (linked h (wordexp w.state)) run
      → IfOk
          (λ r. Unrun history fg w r ⊎ WordsRefused r)
          (run >>= execute_parsed h env sys wordexp m history line fg w)
  Refused-Unrun m history line fg w run (faulted f fails) = tt
  Refused-Unrun m history line fg w run (unexpanded p messages wordless loud) =
      refused (execute_parsed h env sys wordexp m history line fg w p)
        (execute_parsed-messages m history line fg w p)
    where
      refused :
          (run : Run (Round (Done h env sys)))
          → IfOk (λ (r : Round (Done h env sys)). r.messages ≡ p.messages) run
          → IfOk (λ r. Unrun history fg w r ⊎ WordsRefused r) run
      refused (fault f) same = tt
      refused (ok r) same = inr (messages, same ∙ loud)
  Refused-Unrun m history line fg w run (misplaced p messages before here empty loud) =
      rw (execute_parsed-empty m history line fg w p empty)
        (inl ((p.aliases, refl), (refl, (refl, (messages, before, here, loud)))))

  -- On a line of characters that is not the line of a syntax tree of the grammar, where a round of
  -- `run` ends, no command has run: the world is as it was but for the aliases, the line is not added
  -- to the history, `fg_pid` is as it was, and the last message is the parser's error; or the last
  -- message is that `wordexp` refused the words of a command.
  pub run_round-Unrun :
      (c : CharType) (m : Memory h env sys wordexp) (line : Bytes) (history : List Bytes)
      (fg : Option (Option ℕ)) (w : World h env) (r : Round (Done h env sys))
      → All IsChar line
      → (IsRendered line → ⊥)
      → run_round h env sys wordexp c m (expansion line) history fg w ≡ ok r
      → Unrun history fg w r ⊎ WordsRefused r
  unfolding run_round
  run_round-Unrun c m line history fg w r chars no_tree ends =
      subst (IfOk (λ r. Unrun history fg w r ⊎ WordsRefused r)) ends (
        Refused-Unrun m history line fg w
          (parse_input (linked h (wordexp w.state)) c m.params w.aliases line) refused)
    where
      refused :
          Refused
            (linked h (wordexp w.state))
            (parse_input (linked h (wordexp w.state)) c m.params w.aliases line)
      refused =
          elim (parse_input-Refused (linked h (wordexp w.state)) c m.params w.aliases line chars) [
            | inl (l, (is, (same, _))) ↦ absurd (no_tree (l, (is, same)))
            | inr (_, refused') ↦ refused'
          ]
