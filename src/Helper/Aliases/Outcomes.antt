-- ===== src/Helper/Aliases/Outcomes.antt =====
-- The two ways in which `expandAlias` ends: it returns, or it writes past an array.
use redshell.Base.{
  ◌+◌, ◌≤◌, ◌≡◌, refl, true, ◌++◌, Bytes, arith, length, Run, out_of_bounds, ok, fault, ◌>>=◌, leb,
  Bool-cases, inl, inr,
}
use redshell.Helper.Aliases.{concatenate}
use redshell.Parser.Buffer.{buf_size}

-- the run returned a value with the property, or wrote past an array
pub data Outcome {A : Type 0} (P : A → Type 0) : Run A → Type 0 where
  overflow : Outcome P (fault out_of_bounds)
  returns : (a : A) → P a → Outcome P (ok a)

-- the run returned a value with the property
pub data Returns {A : Type 0} (P : A → Type 0) : Run A → Type 0 where
  returned : (a : A) → P a → Returns P (ok a)

pub Outcome-then :
    {A B : Type 0} {P : A → Type 0} {Q : B → Type 0} (run : Run A) (next : A → Run B)
    → Outcome P run
    → ((a : A) → P a → Outcome Q (next a))
    → Outcome Q (run >>= next)
Outcome-then run next overflow h = overflow
Outcome-then run next (returns a p) h = h a p

pub Outcome-map :
    {A : Type 0} {P Q : A → Type 0} {run : Run A}
    → ((a : A) → P a → Q a)
    → Outcome P run
    → Outcome Q run
Outcome-map f overflow = overflow
Outcome-map f (returns a p) = returns a (f a p)

pub concatenate-Outcome : (s t : Bytes) → Outcome (λ u. u ≡ s ++ t) (concatenate s t)
unfolding concatenate
concatenate-Outcome s t = elim (Bool-cases (leb (length s + length t) buf_size)) [
  | inl fits ↦ rw fits (returns (s ++ t) refl)
  | inr over ↦ rw over overflow
]

pub concatenate-fits :
    (s t : Bytes) → length s + length t ≤ buf_size → concatenate s t ≡ ok (s ++ t)
unfolding concatenate
concatenate-fits s t fits =
    let test : leb (length s + length t) buf_size ≡ true = ground arith in rw test

pub Returns-then :
    {A B : Type 0} {P : A → Type 0} {Q : B → Type 0} (run : Run A) (next : A → Run B)
    → Returns P run
    → ((a : A) → P a → Returns Q (next a))
    → Returns Q (run >>= next)
Returns-then run next (returned a p) h = h a p

pub Outcome-Returns :
    {A : Type 0} {P Q : A → Type 0} {run : Run A} → Outcome P run → Returns Q run → Returns P run
Outcome-Returns overflow other = elim other [ ]
Outcome-Returns (returns a p) other = returned a p
