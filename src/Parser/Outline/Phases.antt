-- ===== src/Parser/Outline/Phases.antt =====
-- What the memory of the parser holds between two actions, and that the chart runs an action only
-- where it may: a phase for each state, and the phase that each action leads to.
use redshell.Base.{
  ◌≡◌, refl, ◌≢◌, Bool, true, false, Option, none, some, List, [], ◌∷◌, arith, Option-cases, inl,
  inr,
}
use redshell.Parser.Chart.{
  Action, append, append_in, append_out, new, term, pipe, bg, seq, State, error, start, final,
  Class, nul, blank, ampersand, semicolon, less, greater, bar, plain, next, is_error,
}

-- `idle` before the first command, `held` while a command is being read, `loose` after it is queued
pub data Phase : Type 0 where
  idle held loose : Phase

unfoldable pub phase_of : State → Phase
phase_of start = idle
phase_of final = loose
phase_of error = loose
phase_of _ = held

-- a byte is appended only if it is not NUL
unfoldable pub append_phase : Class → Option Phase
append_phase nul = none
append_phase _ = some held

-- an action on a command wants one that is held
unfoldable pub phase_after : Class → Action → Phase → Option Phase
unfolding append_phase
phase_after k new _ = some held
phase_after k term idle = some loose
phase_after k term held = some loose
phase_after k append held = append_phase k
phase_after k append_in held = append_phase k
phase_after k append_out held = append_phase k
phase_after k pipe held = some held
phase_after k bg held = some held
phase_after k seq held = some held
phase_after k _ _ = none

pub append_phase-some :
    {ph : Phase} (k : Class) → append_phase k ≡ some ph → (k ≢ nul) × (ph ≡ held)
unfolding append_phase
append_phase-some k h = ground arith

unfoldable pub phases_after : Class → List Action → Phase → Option Phase
unfolding phase_after
phases_after k [] ph = some ph
phases_after k (a ∷ rest) ph = elim (phase_after k a ph) [
  | none ↦ none
  | some ph' ↦ phases_after k rest ph'
]

-- every phase will do where nothing is asked of the memory
abbrev pub serves : Option Phase → Phase → Bool
serves none _ = false
serves (some _) loose = true
serves (some held) held = true
serves (some idle) idle = true
serves (some _) _ = false

serves_next : (s : State) (k : Class) → Bool
unfolding phases_after next phase_of
serves_next s k = serves (phases_after k (next s k).acts (phase_of s)) (phase_of (next s k).to)

-- every move of the chart keeps to the phases
pub next-serves :
    (s : State) (k : Class)
    → is_error s ≡ false
    → serves (phases_after k (next s k).acts (phase_of s)) (phase_of (next s k).to) ≡ true
unfolding phases_after next phase_of
next-serves error k h = cc
next-serves start nul h = refl
next-serves start blank h = refl
next-serves start ampersand h = refl
next-serves _ nul h = refl
next-serves _ blank h = refl
next-serves _ ampersand h = refl
next-serves _ semicolon h = refl
next-serves _ less h = refl
next-serves _ greater h = refl
next-serves _ bar h = refl
next-serves _ plain h = refl

pub phases_after-cons :
    (k : Class) (a : Action) (todo : List Action) (ph : Phase) {ph'' : Phase}
    → phases_after k (a ∷ todo) ph ≡ some ph''
    → (ph' : Phase) × (phase_after k a ph ≡ some ph') × (phases_after k todo ph' ≡ some ph'')
unfolding phases_after
phases_after-cons k a todo ph h = elim (Option-cases (phase_after k a ph)) [
  | inl stop ↦ absurd (ground arith)
  | inr (ph', go) ↦ (ph', go, ground arith)
]

-- a move to the error state runs no action
pub next-error : (s : State) (k : Class) → is_error (next s k).to ≡ true → (next s k).acts ≡ []
unfolding next
next-error error nul h = refl
next-error _ nul h = ground arith
next-error _ blank h = ground arith
next-error _ ampersand h = ground arith
next-error _ semicolon h = ground arith
next-error _ less h = ground arith
next-error _ greater h = ground arith
next-error _ bar h = ground arith
next-error _ plain h = ground arith
