-- ===== src/Parser/Chart/Agrees.antt =====
-- The two searches and the tables of src/parser.c give the moves of the chart.
use redshell.Base.{
  ℕ, zero, suc, ◌<◌, ◌≡◌, refl, Bool, true, false, ◌&&◌, List, [], ◌∷◌, map, arith, ◌==◌,
}
use redshell.Parser.Chart.{
  State, error, start, in_command, Move, next, classify, action_code, state_code, is_error,
}
use redshell.Parser.Lookup.{CharType, signed_char, unsigned_char, Transition, lookup_transition}

list_eq : List ℕ → List ℕ → Bool
list_eq [] [] = true
list_eq (a ∷ xs) (b ∷ ys) = a == b && list_eq xs ys
list_eq _ _ = false

list_eq_sound : (xs ys : List ℕ) → list_eq xs ys ≡ true → xs ≡ ys
unfolding list_eq
list_eq_sound [] [] h = refl
list_eq_sound (a ∷ xs) (b ∷ ys) h = ground (arith, list_eq_sound xs ys)
list_eq_sound [] (b ∷ ys) h = cc
list_eq_sound (a ∷ xs) [] h = cc

-- the move of the chart in the numbers of the tables
abbrev pub encode : Move → Transition
encode m = record { target = state_code m.to; actions = map action_code m.acts }

agree : List Transition → Transition → Bool
unfolding list_eq
agree (t ∷ []) u = t.target == u.target && list_eq t.actions u.actions
agree _ u = false

agree_sound : (ts : List Transition) (u : Transition) → agree ts u ≡ true → ts ≡ u ∷ []
unfolding agree
agree_sound (t ∷ []) u h = ground (arith, list_eq_sound t.actions u.actions)
agree_sound [] u h = cc
agree_sound (t ∷ t' ∷ ts) u h = cc

-- `test` passes on every byte below `bound`
passes_below : (test : ℕ → Bool) (bound : ℕ) → Bool
passes_below test zero = true
passes_below test (suc bound) = passes_below test bound && test bound

passes_below-at :
    (test : ℕ → Bool) (bound c : ℕ) → passes_below test bound ≡ true → c < bound → test c ≡ true
unfolding passes_below
passes_below-at test zero c passed small = elim small [ ]
passes_below-at test (suc bound) c passed small = ground (arith, passes_below-at test bound c)

agrees_at : CharType → State → ℕ → Bool
unfolding agree
agrees_at t s c = agree (lookup_transition t (state_code s) c) (encode (next s (classify c)))

row_signed : (s : State) → is_error s ≡ false → passes_below (agrees_at signed_char s) 256 ≡ true
unfolding passes_below agrees_at lookup_transition next classify
row_signed error h = cc
row_signed start h = refl
row_signed in_command h = refl
row_signed _ h = refl

row_unsigned :
    (s : State) → is_error s ≡ false → passes_below (agrees_at unsigned_char s) 256 ≡ true
unfolding passes_below agrees_at lookup_transition next classify
row_unsigned error h = cc
row_unsigned start h = refl
row_unsigned _ h = refl

row : (t : CharType) (s : State) → is_error s ≡ false → passes_below (agrees_at t s) 256 ≡ true
row signed_char s h = row_signed s h
row unsigned_char s h = row_unsigned s h

-- In every state but the error state and on every byte, whether `char` is signed or not, the binary
-- searches of the parser find exactly one transition, and its target and its actions are those of
-- the chart.
pub lookup_transition-next :
    (t : CharType) (s : State) (c : ℕ)
    → is_error s ≡ false
    → c < 256
    → lookup_transition t (state_code s) c ≡ encode (next s (classify c)) ∷ []
unfolding agrees_at
lookup_transition-next t s c live small =
    agree_sound _ _ (passes_below-at (agrees_at t s) 256 c (row t s live) small)
