-- ===== src/Parser/Outline/Actions.antt =====
-- Each action on the parser's memory does what the outline does with the texts.
use redshell.Base.{
  ℕ, ◌≡◌, refl, ◌≢◌, true, false, Option, none, some, List, [], ◌∷◌, ◌++◌, Bytes, arith, Run, ok,
  fault, ◌>>=◌, ltb, ltb-suc,
}
use redshell.Command.{Command, Connection, pipe_connection, background}
use redshell.Helper.Words.{expand_glob, set_argv}
use redshell.Parser.Buffer.Holds.{Holds, c_string-Holds, append_byte-Holds, reset-Holds}
use redshell.Parser.Buffer.{Buffer}
use redshell.Parser.Chart.{
  Action, append, append_in, append_out, new, term, pipe, bg, seq, nul, classify, action_code,
}
use redshell.Parser.Machine.{
  Expander, Params, running, Parsed, perform, term_action, new_action, set_mask, seq_mask,
  redirection, enqueue, expanded,
}
use redshell.Parser.Outline.Phases.{Phase, idle, held, loose, phase_after, append_phase-some}
use redshell.Parser.Outline.Relation.{
  mach, drafted, Holding, InPhase, Follows, faults, goes, quits, as_phase,
}
use redshell.Parser.Outline.{
  Draft, blank_draft, going, redirected, settle, command_of, complete, act,
}

module _ (e : Expander) where
  open e use {Aliases, expand_alias, wordexp}

  redirection-Holds :
      {b : Buffer} (name : Bytes) → Holds b name → redirection e b none ≡ ok (redirected e name)
  unfolding redirection
  redirection-Holds [] h = rw h.len
  redirection-Holds (c ∷ name) h = rw (c_string-Holds h, h.len, ltb-suc)

  enqueue-command_of :
      (fsm : Params) (d : Draft) (ws : List Bytes) (p : Parsed Aliases)
      → Holds fsm.stdin d.stdin
      → Holds fsm.stdout d.stdout
      → enqueue e (mach fsm p (some (drafted d))) (record (drafted d) { argv = some ws })
        ≡ ok (running (mach fsm (record p { queue = p.queue ++ command_of e d ws ∷ [] }) none))
  unfolding enqueue
  enqueue-command_of fsm d [] p i o = rw (redirection-Holds d.stdin i, redirection-Holds d.stdout o)
  enqueue-command_of fsm d (w ∷ ws) p i o =
      rw (redirection-Holds d.stdin i, redirection-Holds d.stdout o)

  module _ (k : ℕ) (fsm : Params) (d : Draft) (at : fsm.cs ≡ k) where
    glob-Follows :
        (p : Parsed Aliases) (found : Option (List Bytes))
        → Holds fsm.stdin d.stdin
        → Holds fsm.stdout d.stdout
        → Follows k loose
            (set_argv (some (drafted d)) found >>= expanded e (mach fsm p (some (drafted d))))
            (ok (settle e d p found))
    unfolding set_argv expanded
    glob-Follows p none i o = quits at
    glob-Follows p (some ws) i o = rw (enqueue-command_of fsm d ws p i o) (goes at tt)

    -- the part of `term` behind `expandAlias`
    after_alias-Follows :
        (p : Parsed Aliases) (r : Run (Bytes × Aliases))
        → Holds fsm.stdin d.stdin
        → Holds fsm.stdout d.stdout
        → Follows k loose
            (r >>= λ (tmp, aliases).
              expand_glob wordexp (some (drafted d)) tmp
              >>= expanded e (mach fsm (record p { aliases = aliases }) (some (drafted d))))
            (r >>= λ (tmp, aliases). ok (settle e d (record p { aliases = aliases }) (wordexp tmp)))
    unfolding expand_glob
    after_alias-Follows p (fault f) i o = faults f
    after_alias-Follows p (ok (tmp, aliases)) i o =
        glob-Follows (record p { aliases = aliases }) (wordexp tmp) i o

    term-Follows :
        (p : Parsed Aliases) (text : Bytes)
        → Holds fsm.buffer text
        → Holding fsm d
        → Follows k loose (term_action e (mach fsm p (some (drafted d)))) (complete e d text p)
    unfolding term_action complete
    term-Follows p [] b h = rw b.len (goes at tt)
    term-Follows p (c ∷ text) b h =
        let used : ltb 0 fsm.buffer.len ≡ true = ground (arith, b.len) in
        rw (used, c_string-Holds b) (after_alias-Follows p _ h.stdin h.stdout)

  module _ (k : ℕ) (fsm : Params) (p : Parsed Aliases) (at : fsm.cs ≡ k) where
    -- nothing has been read: `term` does nothing
    idle-Follows :
        (d : Draft) (command : Option Command) (text : Bytes)
        → fsm.buffer.len ≡ 0
        → text ≡ []
        → Follows k loose (term_action e (mach fsm p command)) (complete e d text p)
    unfolding term_action complete
    idle-Follows d command text empty same =
        let unused : ltb 0 fsm.buffer.len ≡ false = ground arith in rw (same, unused) (goes at tt)

    new-Follows :
        (command : Option Command)
        → Follows k held (new_action e (mach fsm p command)) (ok (going blank_draft p))
    unfolding new_action
    new-Follows command =
        let (buffer, run, holds) = reset-Holds fsm.buffer in
        let (stdout, run', holds') = reset-Holds fsm.stdout in
        let (stdin, run'', holds'') = reset-Holds fsm.stdin in
        rw (run, run', run'')
          (goes at (refl, record { buffer = holds; stdin = holds''; stdout = holds' }))

  module _ (k : ℕ) {fsm : Params} {d : Draft} (p : Parsed Aliases) (at : fsm.cs ≡ k) where
    mask-Follows :
        (f : Connection → Connection)
        → Holding fsm d
        → Follows k held
            (set_mask e f (mach fsm p (some (drafted d))))
            (ok (going (record d { mask = f d.mask }) p))
    unfolding set_mask
    mask-Follows f h =
        goes at (refl, record { buffer = h.buffer; stdin = h.stdin; stdout = h.stdout })

    append-Follows :
        (c : ℕ)
        → c ≢ 0
        → Holding fsm d
        → Follows k held (perform e 0 c (mach fsm p (some (drafted d)))) (act e append c d p)
    unfolding perform act
    append-Follows c n h =
        let (b, run, holds) = append_byte-Holds c h.buffer n in
        rw run (goes at (refl, record { buffer = holds; stdin = h.stdin; stdout = h.stdout }))

    append_in-Follows :
        (c : ℕ)
        → c ≢ 0
        → Holding fsm d
        → Follows k held (perform e 1 c (mach fsm p (some (drafted d)))) (act e append_in c d p)
    unfolding perform act
    append_in-Follows c n h =
        let (b, run, holds) = append_byte-Holds c h.stdin n in
        rw run (goes at (refl, record { buffer = h.buffer; stdin = holds; stdout = h.stdout }))

    append_out-Follows :
        (c : ℕ)
        → c ≢ 0
        → Holding fsm d
        → Follows k held (perform e 2 c (mach fsm p (some (drafted d)))) (act e append_out c d p)
    unfolding perform act
    append_out-Follows c n h =
        let (b, run, holds) = append_byte-Holds c h.stdout n in
        rw run (goes at (refl, record { buffer = h.buffer; stdin = h.stdin; stdout = holds }))

  classify-ne-nul : (c : ℕ) → classify c ≢ nul → c ≢ 0
  unfolding classify
  classify-ne-nul c h z = h (rw z refl)

  module _ (k c : ℕ) (fsm : Params) (command : Option Command) (d : Draft) (p : Parsed Aliases)
      (at : fsm.cs ≡ k) where
    -- an action that the phase allows follows the outline's into the next phase
    pub perform-act :
        (a : Action) (ph : Phase) {ph' : Phase}
        → phase_after (classify c) a ph ≡ some ph'
        → InPhase ph fsm command d
        → Follows k ph' (perform e (action_code a) c (mach fsm p command)) (act e a c d p)
    unfolding phase_after perform act
    perform-act new ph step h = as_phase step (new-Follows k fsm p at command)
    perform-act term idle step h =
        as_phase step (idle-Follows k fsm p at d command d.buffer h.0 h.1)
    perform-act term held step h =
        as_phase step (rw h.0 (term-Follows k fsm d at p d.buffer h.1.buffer h.1))
    perform-act append held step h =
        let (n, same) = append_phase-some _ step in
        rw (same, h.0) (append-Follows k p at c (classify-ne-nul c n) h.1)
    perform-act append_in held step h =
        let (n, same) = append_phase-some _ step in
        rw (same, h.0) (append_in-Follows k p at c (classify-ne-nul c n) h.1)
    perform-act append_out held step h =
        let (n, same) = append_phase-some _ step in
        rw (same, h.0) (append_out-Follows k p at c (classify-ne-nul c n) h.1)
    perform-act pipe held step h =
        as_phase step (rw h.0 (mask-Follows k p at (λ _. pipe_connection) h.1))
    perform-act bg held step h = as_phase step (rw h.0 (mask-Follows k p at (λ _. background) h.1))
    perform-act seq held step h = as_phase step (rw h.0 (mask-Follows k p at (seq_mask e) h.1))
    perform-act _ _ step h = cc
