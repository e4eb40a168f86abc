-- ===== src/Parser/Outline.antt =====
-- The parser without its memory: the chart's moves over the texts read so far. There are no arrays,
-- no pointers and no tables here; `parse_input` is proved to compute the same.
pub mod Phases
pub mod Relation
pub mod Actions
pub mod Rounds
use redshell.Base.{ℕ, Option, none, some, List, [], ◌∷◌, ◌++◌, Bytes, if◌then◌else◌, Run, ok, ◌>>=◌}
use redshell.Command.{Connection, no_connection, pipe_connection, background, Command, command_new}
use redshell.Helper.Words.{expand}
use redshell.Parser.Buffer.Holds.{appended}
use redshell.Parser.Chart.{
  Action, append, append_in, append_out, new, term, pipe, bg, seq, State, start, next, classify,
  is_error,
}
use redshell.Parser.Machine.{Expander, illegal_character, parser_error_near, Parsed, seq_mask}

-- the command that is being read
pub record Draft : Type 0 where
  pub buffer : Bytes
  pub stdin : Bytes
  pub stdout : Bytes
  pub mask : Connection

abbrev pub blank_draft : Draft
blank_draft = record { buffer = []; stdin = []; stdout = []; mask = no_connection }

pub data Stage (A : Type 0) : Type 0 where
  going : Draft → Parsed A → Stage A
  quit : Parsed A → Stage A

abbrev pub head : List Bytes → Option Bytes
head [] = none
head (w ∷ _) = some w

module _ (e : Expander) where
  open e use {Aliases, expand_alias, wordexp}

  abbrev pub redirected : Bytes → Option Bytes
  redirected [] = none
  redirected (c ∷ name) = expand wordexp (c ∷ name)

  -- the command that a draft becomes, once its text is expanded to words
  abbrev pub command_of : Draft → List Bytes → Command
  command_of d ws = record command_new {
    path = head ws;
    argv = some ws;
    redirect_from_path = redirected d.stdin;
    redirect_to_path = redirected d.stdout;
    connection_mask = d.mask;
  }

  abbrev pub refuse : Parsed Aliases → Parsed Aliases
  refuse p = record p { messages = p.messages ++ illegal_character ∷ [] }

  abbrev pub enter : Parsed Aliases → Command → Parsed Aliases
  enter p c = record p { queue = p.queue ++ c ∷ [] }

  -- what becomes of a draft for which `wordexp` returned `found`
  abbrev pub settle : Draft → Parsed Aliases → Option (List Bytes) → Stage Aliases
  settle d p none = quit (refuse p)
  settle d p (some ws) = going d (enter p (command_of d ws))

  unfoldable pub complete : Draft → Bytes → Parsed Aliases → Run (Stage Aliases)
  complete d [] p = ok (going d p)
  complete d (c ∷ text) p = do
    (line, aliases) ← expand_alias p.aliases (c ∷ text)
    ok (settle d (record p { aliases = aliases }) (wordexp line))

  unfoldable pub act : Action → ℕ → Draft → Parsed Aliases → Run (Stage Aliases)
  unfolding complete
  act append c d p = ok (going (record d { buffer = appended d.buffer c }) p)
  act append_in c d p = ok (going (record d { stdin = appended d.stdin c }) p)
  act append_out c d p = ok (going (record d { stdout = appended d.stdout c }) p)
  act new c d p = ok (going blank_draft p)
  act term c d p = complete d d.buffer p
  act pipe c d p = ok (going (record d { mask = pipe_connection }) p)
  act bg c d p = ok (going (record d { mask = background }) p)
  act seq c d p = ok (going (record d { mask = seq_mask e d.mask }) p)

  unfoldable pub act_all : List Action → ℕ → Draft → Parsed Aliases → Run (Stage Aliases)
  unfolding act
  act_all [] c d p = ok (going d p)
  act_all (a ∷ rest) c d p =
      act a c d p >>= elim [ going d' p' ↦ act_all rest c d' p' | quit p' ↦ ok (quit p') ]

  abbrev pub reject : Option ℕ → ℕ → Parsed Aliases → Parsed Aliases
  reject before c p = record {
    queue = [];
    aliases = p.aliases;
    messages = p.messages ++ parser_error_near before (some c) ∷ [];
  }

  unfoldable pub follow : State → Option ℕ → Bytes → Draft → Parsed Aliases → Run (Parsed Aliases)
  unfolding act_all
  follow s before [] d p = ok p
  follow s before (c ∷ rest) d p =
      let m = next s (classify c) in
      act_all m.acts c d p >>= elim [
        | quit p' ↦ ok p'
        | going d' p' ↦
            let on = follow m.to (some c) rest d' p' in
            if is_error m.to then ok (reject before c p') else on
      ]

  abbrev pub nothing : Aliases → Parsed Aliases
  nothing aliases = record { queue = []; aliases = aliases; messages = [] }

  unfoldable pub outline : Aliases → Bytes → Run (Parsed Aliases)
  unfolding follow
  outline aliases line = follow start none (line ++ 0 ∷ []) blank_draft (nothing aliases)
