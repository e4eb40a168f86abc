-- ===== src/Parser/Grammar/Sweep.antt =====
-- Stretches of a line over which the chart stays in one state.
use mathlib.Core.List.{append_assoc, append-nil}
use redshell.Base.{
  ℕ, ◌≤◌, ◌≡◌, refl, inl, inr, false, Option, some, [], ◌∷◌, ◌++◌, Bytes, All, arith, length, take,
  take_all, take-append_full, length-append, Run, ok, ◌>>=◌, ltb, ltb→lt, if◌then◌else◌, Bool-cases,
  ◌∙◌, ap, sym,
}
use redshell.Parser.Buffer.Holds.{appended}
use redshell.Parser.Buffer.{buf_size}
use redshell.Parser.Chart.{Action, State, blank, plain, next, classify, Move, move, is_error}
use redshell.Parser.Grammar.{IsBlank, InText, IsText, kept}
use redshell.Parser.Machine.{Expander, Parsed}
use redshell.Parser.Outline.{Draft, going, quit, reject, act, act_all, follow}

-- the buffer after a stretch of text
unfoldable pub fill : Bytes → Bytes → Bytes
fill text [] = text
fill text (c ∷ rest) = fill (appended text c) rest

full-fill : (text rest : Bytes) → length text ≡ buf_size → fill text rest ≡ text
unfolding fill appended
full-fill text [] full = refl
full-fill text (c ∷ rest) full =
    let stop : ltb (length text) buf_size ≡ false = ground arith in
    rw stop (full-fill text rest full)

pub fill-take :
    (text rest : Bytes) → length text ≤ buf_size → fill text rest ≡ take buf_size (text ++ rest)
unfolding fill appended
fill-take text [] h = rw append-nil (sym (take_all buf_size text h))
fill-take text (c ∷ rest) h = elim (Bool-cases (ltb (length text) buf_size)) [
  | inl room ↦
      let longer : length (text ++ c ∷ []) ≤ buf_size =
        omega (arith, length-append {0} text (c ∷ []), ltb→lt _ _ room) in
      rw room (
        fill-take (text ++ c ∷ []) rest longer
        ∙ ap (take buf_size) (append_assoc text (c ∷ []) rest))
  | inr full ↦
      let full_now : length text ≡ buf_size = ground arith in
      rw full
        (full-fill text rest full_now ∙ sym (take-append_full buf_size text (c ∷ rest) full_now))
]

module _ (e : Expander) where
  open e use {Aliases}

  -- one round of the outline, with the move given
  abbrev pub round : Move → Option ℕ → ℕ → Bytes → Draft → Parsed Aliases → Run (Parsed Aliases)
  round m before c rest d p = act_all e m.acts c d p >>= elim [
    | quit p' ↦ ok p'
    | going d' p' ↦
        let on = follow e m.to (some c) rest d' p' in
        if is_error m.to then ok (reject e before c p') else on
  ]

  pub follow-round :
      (s : State) (m : Move) (c : ℕ)
      → next s (classify c) ≡ m
      → (before : Option ℕ) (rest : Bytes) (d : Draft) (p : Parsed Aliases)
      → follow e s before (c ∷ rest) d p ≡ round m before c rest d p
  unfolding follow
  follow-round s m c step before rest d p = ap (λ n. round n before c rest d p) step

  -- the run goes on in state `s` with `rest`, whatever byte stands before it
  pub data Reaches (run : Run (Parsed Aliases)) (s : State) (rest : Bytes) (d : Draft)
      (p : Parsed Aliases) : Type 0 where
    reaches : (before : Option ℕ) → run ≡ follow e s before rest d p → Reaches run s rest d p

  pub then-Reaches :
      {run : Run (Parsed Aliases)} {s s' : State} {rest rest' : Bytes} {d d' : Draft}
      {p p' : Parsed Aliases}
      → Reaches run s rest d p
      → ((before : Option ℕ) → Reaches (follow e s before rest d p) s' rest' d' p')
      → Reaches run s' rest' d' p'
  then-Reaches (reaches b now) later = rw now (later b)

  -- one byte with no action
  pub quiet_byte :
      (s s' : State) (c : ℕ) (rest : Bytes) (d : Draft) (p : Parsed Aliases)
      → next s (classify c) ≡ move s' []
      → is_error s' ≡ false
      → (before : Option ℕ) → Reaches (follow e s before (c ∷ rest) d p) s' rest d p
  unfolding act_all
  quiet_byte s s' c rest d p step live before =
      reaches (some c) (follow-round s _ c step before rest d p ∙ rw live)

  -- blanks that the state passes over
  pub gap-Reaches :
      (s : State)
      → next s blank ≡ move s []
      → is_error s ≡ false
      → (gap rest : Bytes) → All IsBlank gap
      → (d : Draft) (p : Parsed Aliases) (before : Option ℕ)
      → Reaches (follow e s before (gap ++ rest) d p) s rest d p
  gap-Reaches s step live [] rest h d p before = reaches before refl
  gap-Reaches s step live (c ∷ gap) rest h d p before =
      then-Reaches (quiet_byte s s c (gap ++ rest) d p (ap (next s) h.0 ∙ step) live before)
        (gap-Reaches s step live gap rest h.1 d p)

  -- the state adds text to a buffer by the action `a`; `put` is the draft with that buffer
  pub record Collects (s : State) (a : Action) (put : Bytes → Draft) : Type 0 where
    pub blank_step : next s blank ≡ move s (a ∷ [])
    pub plain_step : next s plain ≡ move s (a ∷ [])
    pub live : is_error s ≡ false
    pub acts :
        (c : ℕ) (text : Bytes) (p : Parsed Aliases)
        → act e a c (put text) p ≡ ok (going (put (appended text c)) p)

  module _ {s : State} {a : Action} {put : Bytes → Draft} (collects : Collects s a put) where
    InText-step : (c : ℕ) → InText c → next s (classify c) ≡ move s (a ∷ [])
    InText-step c (inl h) = ap (next s) h ∙ collects.blank_step
    InText-step c (inr h) = ap (next s) h ∙ collects.plain_step

    pub text-Reaches :
        (xs rest : Bytes)
        → All InText xs
        → (text : Bytes) (p : Parsed Aliases) (before : Option ℕ)
        → Reaches (follow e s before (xs ++ rest) (put text) p) s rest (put (fill text xs)) p
    unfolding act_all fill
    text-Reaches [] rest h text p before = reaches before refl
    text-Reaches (c ∷ xs) rest h text p before =
        let now = follow-round s _ c (InText-step c h.0) before (xs ++ rest) (put text) p in
        rw (now, collects.acts c text p, collects.live)
          (text-Reaches xs rest h.1 (appended text c) p (some c))

    -- a whole text, whose first byte leads here from the state `here`
    pub first-Reaches :
        (here : State)
        → next here plain ≡ move s (a ∷ [])
        → (text rest : Bytes) → IsText text
        → (p : Parsed Aliases) (before : Option ℕ)
        → Reaches (follow e here before (text ++ rest) (put []) p) s rest (put (kept text)) p
    unfolding act_all fill
    first-Reaches here step [] rest h p before = absurd h
    first-Reaches here step (c ∷ xs) rest h p before =
        let now =
          follow-round here _ c (ap (next here) h.0 ∙ step) before (xs ++ rest) (put []) p in
        rw (now, collects.acts c [] p, collects.live, ← fill-take [] (c ∷ xs) (omega arith))
          (text-Reaches xs rest h.1 (appended [] c) p (some c))
