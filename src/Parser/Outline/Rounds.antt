-- ===== src/Parser/Outline/Rounds.antt =====
-- The rounds of the loop: `parse_input` computes the outline of the line, whatever the memory that
-- `malloc` returned and whatever the type `char`.
use redshell.Base.{
  ℕ, ◌<◌, ◌≡◌, refl, ◌≢◌, true, false, Option, none, some, List, [], ◌∷◌, ◌++◌, map, Bytes, All,
  arith, ap, ◌∙◌, Bool-cases, Option-cases, inl, inr, Run, ok, ◌>>=◌, ◌==◌, if◌then◌else◌,
}
use redshell.Command.{Command}
use redshell.Parser.Chart.Agrees.{lookup_transition-next}
use redshell.Parser.Chart.{
  Action, State, error, start, next, classify, action_code, state_code, is_error,
}
use redshell.Parser.Lookup.{CharType, lookup_transition}
use redshell.Parser.Machine.{
  Expander, Params, Machine, Flow, running, left, Exit, Parsed, first, perform_all, take_transition,
  loop, finish, parse_input,
}
use redshell.Parser.Tables.{parser_error}
use redshell.Parser.Outline.Actions.{perform-act}
use redshell.Parser.Outline.Phases.{
  Phase, phases_after, phases_after-cons, phase_of, serves, next-serves, next-error,
}
use redshell.Parser.Outline.Relation.{
  mach, InPhase, Follows, faults, goes, quits, as_phase, InPhase-serves, InPhase-cs,
}
use redshell.Parser.Outline.{
  Draft, blank_draft, Stage, going, quit, act_all, reject, follow, nothing, outline,
}

-- a byte of a line: neither NUL nor wider than a byte
abbrev pub IsChar : ℕ → Type 0
IsChar c = (c ≢ 0) × (c < 256)

module _ (e : Expander) where
  open e use {Aliases}

  module _ (k c : ℕ) where
    -- both sides go on with the actions left
    perform_rest :
        (rest : List Action) (ph ph' : Phase) {r : Run (Flow Aliases)} {s : Run (Stage Aliases)}
        → ((fsm : Params) (command : Option Command) (d : Draft) (p : Parsed Aliases)
            → fsm.cs ≡ k
            → InPhase ph fsm command d
            → Follows k ph'
                (perform_all e (map action_code rest) c (mach fsm p command))
                (act_all e rest c d p))
        → Follows k ph r s
        → Follows k ph'
            (r >>= elim [
              | running m' ↦ perform_all e (map action_code rest) c m'
              | left m' ↦ ok (left m')
            ])
            (s >>= elim [ going d' p' ↦ act_all e rest c d' p' | quit p' ↦ ok (quit p') ])
    perform_rest rest ph ph' on (faults f) = faults f
    perform_rest rest ph ph' on (goes {fsm} {command} {d} {p} at h) = on fsm command d p at h
    perform_rest rest ph ph' on (quits at) = quits at

    perform_all-act_all :
        (todo : List Action) (ph : Phase) {ph' : Phase}
        → phases_after (classify c) todo ph ≡ some ph'
        → (fsm : Params) (command : Option Command) (d : Draft) (p : Parsed Aliases) → fsm.cs ≡ k
        → InPhase ph fsm command d
        → Follows k ph'
            (perform_all e (map action_code todo) c (mach fsm p command))
            (act_all e todo c d p)
    unfolding perform_all act_all phases_after
    perform_all-act_all [] ph step fsm command d p at h = as_phase step (goes at h)
    perform_all-act_all (a ∷ todo) ph {ph'} step fsm command d p at h =
        let (ph'', now, later) = phases_after-cons (classify c) a todo ph step in
        perform_rest todo ph'' ph' (perform_all-act_all todo ph'' later)
          (perform-act e k c fsm command d p at a ph now h)

  state_code-error : (s : State) → (state_code s == 0) ≡ is_error s
  state_code-error error = refl
  state_code-error start = refl
  state_code-error _ = refl

  -- the moves of the tables from a state that goes on
  module _ (t : CharType) (s : State) (live : is_error s ≡ false) (c : ℕ) (small : c < 256) where
    abbrev to : State
    to = (next s (classify c)).to

    weaken :
        (ph' : Phase) {r : Run (Flow Aliases)} {q : Run (Stage Aliases)}
        → serves (some ph') (phase_of to) ≡ true
        → Follows (state_code to) ph' r q
        → Follows (state_code to) (phase_of to) r q
    weaken ph' fits (faults f) = faults f
    weaken ph' fits (goes {fsm} {command} {d} at h) =
        goes at (InPhase-serves ph' _ fsm command d fits h)
    weaken ph' fits (quits at) = quits at

    take_transition-act_all :
        (fsm : Params) (command : Option Command) (d : Draft) (p : Parsed Aliases)
        → fsm.cs ≡ state_code s
        → InPhase (phase_of s) fsm command d
        → Follows
            (state_code to)
            (phase_of to)
            (take_transition e (lookup_transition t fsm.cs c) c (mach fsm p command))
            (act_all e (next s (classify c)).acts c d p)
    unfolding take_transition
    take_transition-act_all fsm command d p at h =
        let kept = next-serves s (classify c) live in
        elim (Option-cases (phases_after (classify c) (next s (classify c)).acts (phase_of s))) [
          | inl bad ↦ let off : false ≡ true = rw bad at kept in cc
          | inr (ph', good) ↦
              rw (ap (λ cs. lookup_transition t cs c) at, lookup_transition-next t s c live small)
                (weaken ph' (rw good at kept) (
                  perform_all-act_all (state_code to) c _ (phase_of s) good _ command d p refl
                    (InPhase-cs (phase_of s) fsm command d (state_code to) h)))
        ]

  -- what `parse_input` makes of the loop's end
  abbrev finished : Run (Exit Aliases) → Run (Parsed Aliases)
  finished r = r >>= λ x. ok (finish e x)

  finish-running :
      (s : State) (fsm : Params) (command : Option Command) (p : Parsed Aliases)
      (before here : Option ℕ)
      → is_error s ≡ false
      → fsm.cs ≡ state_code s
      → finish e (record { machine = mach fsm p command; before = before; here = here }) ≡ p
  unfolding finish
  finish-running s fsm command p before here live at =
      let on : (fsm.cs == 0) ≡ false = rw at (state_code-error s ∙ live) in rw on

  finish-error :
      (s : State) (fsm : Params) (command : Option Command) (p : Parsed Aliases) (before : Option ℕ)
      (c : ℕ)
      → is_error s ≡ true
      → fsm.cs ≡ state_code s
      → finish e (record { machine = mach fsm p command; before = before; here = some c })
        ≡ reject e before c p
  unfolding finish
  finish-error s fsm command p before c stop at =
      let off : (fsm.cs == 0) ≡ true = rw at (state_code-error s ∙ stop) in rw off

  module _ (t : CharType) where
    abbrev Agreement : Bytes → Type 0
    Agreement line =
        (s : State) (before : Option ℕ)
        → is_error s ≡ false
        → (fsm : Params) (command : Option Command) (d : Draft) (p : Parsed Aliases)
        → fsm.cs ≡ state_code s
        → InPhase (phase_of s) fsm command d
        → finished (loop e t before line (mach fsm p command)) ≡ follow e s before line d p

    -- the round of a byte that leads to the state `s`, and the rounds after it
    round_rest :
        (c : ℕ) (line : Bytes) (s : State) (before : Option ℕ) {r : Run (Flow Aliases)}
        {q : Run (Stage Aliases)}
        → Agreement line
        → Follows (state_code s) (phase_of s) r q
        → is_error s ≡ false
        → finished (
            r >>= elim [
              | left m' ↦ ok (record { machine = m'; before = some c; here = first line })
              | running m' ↦
                  let on = loop e t (some c) line m' in
                  if m'.fsm.cs == parser_error
                  then ok (record { machine = m'; before = before; here = some c })
                  else on
            ])
          ≡ (q >>= elim [
            | quit p' ↦ ok p'
            | going d' p' ↦
                let on = follow e s (some c) line d' p' in
                if is_error s then ok (reject e before c p') else on
          ])
    round_rest c line s before rest (faults f) live = refl
    round_rest c line s before rest (quits {fsm} {command} {p} at) live =
        ap ok (finish-running s fsm command p (some c) (first line) live at)
    round_rest c line s before rest (goes {fsm} {command} {d} {p} at h) live =
        let on : (fsm.cs == 0) ≡ false = rw at (state_code-error s ∙ live) in
        rw (on, live) (rest s (some c) live fsm command d p at h)

    -- a move to the error state only changes the state
    stop_transition :
        (s : State) (c : ℕ)
        → is_error s ≡ false
        → c < 256
        → (next s (classify c)).acts ≡ []
        → (m : Machine Aliases) → m.fsm.cs ≡ state_code s
        → take_transition e (lookup_transition t m.fsm.cs c) c m
          ≡ ok (
              running
                (record m { fsm = record m.fsm { cs = state_code (next s (classify c)).to } }))
    unfolding take_transition perform_all
    stop_transition s c live small none_left m at =
        rw (
          ap (λ cs. lookup_transition t cs c) at,
          lookup_transition-next t s c live small,
          none_left,
        )

    act_all-nil :
        (todo : List Action) (c : ℕ) (d : Draft) (p : Parsed Aliases)
        → todo ≡ []
        → act_all e todo c d p ≡ ok (going d p)
    unfolding act_all
    act_all-nil todo c d p same = rw same

    loop-follow : (line : Bytes) → All (λ c. c < 256) line → Agreement line
    unfolding loop follow
    loop-follow [] small s before live fsm command d p at h =
        ap ok (finish-running s fsm command p before none live at)
    loop-follow (c ∷ line) small s before live fsm command d p at h =
        elim (Bool-cases (is_error (next s (classify c)).to)) [
          | inl stop ↦
              let none_left = next-error s (classify c) stop in
              rw
                (
                  stop_transition s c live small.0 none_left (mach fsm p command) at,
                  act_all-nil _ c d p none_left,
                  stop,
                  state_code-error (next s (classify c)).to,
                  stop,
                )
                (ap ok (
                  finish-error (next s (classify c)).to
                    (record fsm { cs = state_code (next s (classify c)).to }) command p before c
                    stop refl))
          | inr on ↦
              round_rest c line (next s (classify c)).to before (loop-follow line small.1)
                (take_transition-act_all t s live c small.0 fsm command d p at h) on
        ]

  small_line : (line : Bytes) → All IsChar line → All (λ c. c < 256) (line ++ 0 ∷ [])
  small_line [] h = (omega arith, tt)
  small_line (c ∷ line) h = (h.0.1, small_line line h.1)

  -- For every line of characters, none of them the terminator, whatever the memory that `malloc`
  -- returned holds and whether `char` is signed or not, `parse_input` with its tables, searches,
  -- arrays and pointers returns what the outline without them does, messages included, or reaches
  -- the same undefined behaviour of `expandAlias`.
  pub parse_input-outline :
      (t : CharType) (junk : Params) (aliases : Aliases) (line : Bytes)
      → All IsChar line
      → parse_input e t junk aliases line ≡ outline e aliases line
  unfolding parse_input outline
  parse_input-outline t junk aliases line chars =
      loop-follow t (line ++ 0 ∷ []) (small_line line chars) start none refl
        (record junk { buffer = record junk.buffer { len = 0 }; cs = 1 }) none blank_draft
        (nothing e aliases) refl (unfold phase_of in (refl, refl))
