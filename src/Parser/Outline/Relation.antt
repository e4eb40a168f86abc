-- ===== src/Parser/Outline/Relation.antt =====
-- The machine of src/parser.c beside the outline: when a run of one follows a run of the other.
use mathlib.Core.Option.{some-injective}
use mathlib.Core.Path.{subst}
use redshell.Base.{ℕ, ◌≡◌, true, Option, some, [], Fault, Run, ok, fault}
use redshell.Command.{Command, command_new}
use redshell.Parser.Buffer.Holds.{Holds}
use redshell.Parser.Machine.{Params, Machine, Flow, running, left, Parsed}
use redshell.Parser.Outline.Phases.{Phase, idle, held, loose, serves}
use redshell.Parser.Outline.{Draft, Stage, going, quit}

-- the machine with the results of `p`
abbrev pub mach : {A : Type 0} → Params → Parsed A → Option Command → Machine A
mach fsm p command = record {
  fsm = fsm;
  queue = p.queue;
  command = command;
  aliases = p.aliases;
  messages = p.messages;
}

abbrev pub drafted : Draft → Command
drafted d = record command_new { connection_mask = d.mask }

-- the buffers hold the texts of the draft
pub record Holding (fsm : Params) (d : Draft) : Type 0 where
  pub buffer : Holds fsm.buffer d.buffer
  pub stdin : Holds fsm.stdin d.stdin
  pub stdout : Holds fsm.stdout d.stdout

abbrev pub InPhase : Phase → Params → Option Command → Draft → Type 0
InPhase idle fsm command d = (fsm.buffer.len ≡ 0) × (d.buffer ≡ [])
InPhase held fsm command d = (command ≡ some (drafted d)) × Holding fsm d
InPhase loose fsm command d = Unit

-- the runs reach the same undefined behaviour, or the same results in state `k` and phase `ph`
pub data Follows {A : Type 0} (k : ℕ) (ph : Phase) : Run (Flow A) → Run (Stage A) → Type 0 where
  faults : (f : Fault) → Follows k ph (fault f) (fault f)
  goes :
      {fsm : Params} {command : Option Command} {d : Draft} {p : Parsed A}
      → fsm.cs ≡ k
      → InPhase ph fsm command d
      → Follows k ph (ok (running (mach fsm p command))) (ok (going d p))
  quits :
      {fsm : Params} {command : Option Command} {p : Parsed A}
      → fsm.cs ≡ k
      → Follows k ph (ok (left (mach fsm p command))) (ok (quit p))

pub as_phase :
    {A : Type 0} {k : ℕ} {ph ph' : Phase} {r : Run (Flow A)} {s : Run (Stage A)}
    → some ph ≡ some ph'
    → Follows k ph r s
    → Follows k ph' r s
as_phase {k} {r = r} {s = s} same f = subst (λ q. Follows k q r s) (some-injective _ _ same) f

-- a stronger phase serves for a weaker one
pub InPhase-serves :
    (ph' ph : Phase) (fsm : Params) (command : Option Command) (d : Draft)
    → serves (some ph') ph ≡ true
    → InPhase ph' fsm command d
    → InPhase ph fsm command d
InPhase-serves ph' loose fsm command d fits h = tt
InPhase-serves held held fsm command d fits h = h
InPhase-serves idle idle fsm command d fits h = h
InPhase-serves idle held fsm command d fits h = absurd (cc)
InPhase-serves loose held fsm command d fits h = absurd (cc)
InPhase-serves held idle fsm command d fits h = absurd (cc)
InPhase-serves loose idle fsm command d fits h = absurd (cc)

-- the phase does not read the state's number
pub InPhase-cs :
    (ph : Phase) (fsm : Params) (command : Option Command) (d : Draft) (cs : ℕ)
    → InPhase ph fsm command d
    → InPhase ph (record fsm { cs = cs }) command d
InPhase-cs idle fsm command d cs h = h
InPhase-cs held fsm command d cs h =
    (h.0, record { buffer = h.1.buffer; stdin = h.1.stdin; stdout = h.1.stdout })
InPhase-cs loose fsm command d cs h = tt
