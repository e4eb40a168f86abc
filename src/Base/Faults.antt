-- ===== src/Base/Faults.antt =====
-- Runs of C code: the undefined behaviour that the code reached, or a value.
use redshell.Base.Tests.{if◌then◌else◌}
use mathlib.Core.Bool.{Bool, true, false}

pub data Fault : Type 0 where
  -- a read or write through a null pointer
  null_pointer : Fault
  -- a read or write outside an array
  out_of_bounds : Fault
  -- the bound on the rounds of a loop was reached; theorems exclude it
  out_of_fuel : Fault

pub data Run {ℓ} (A : Type ℓ) : Type ℓ where
  fault : Fault → Run A
  ok : A → Run A

-- go on with `next` after a run that returned
infixl 5 ◌>>=◌
abbrev pub ◌>>=◌ {ℓ κ} : {A : Type ℓ} {B : Type κ} → Run A → (A → Run B) → Run B
run >>= next = elim run [ fault reached ↦ fault reached | ok value ↦ next value ]

-- a property of the value, where the run returns
abbrev pub IfOk : {A : Type 0} → (A → Type 0) → Run A → Type 0
IfOk P (fault reached) = Unit
IfOk P (ok value) = P value

pub bind-IfOk :
    {A B : Type 0} (P : A → Type 0) (Q : B → Type 0) (run : Run A) (next : A → Run B)
    → IfOk P run
    → ((value : A) → P value → IfOk Q (next value))
    → IfOk Q (run >>= next)
bind-IfOk P Q (fault reached) next holds then_holds = tt
bind-IfOk P Q (ok value) next holds then_holds = then_holds value holds

pub if-IfOk :
    {A : Type 0} (P : A → Type 0) (run run' : Run A)
    → IfOk P run
    → IfOk P run'
    → (b : Bool) → IfOk P (if b then run else run')
if-IfOk P run run' holds holds' true = holds
if-IfOk P run run' holds holds' false = holds'

pub always-IfOk : {A : Type 0} (P : A → Type 0) (run : Run A) → ((value : A) → P value) → IfOk P run
always-IfOk P (fault reached) holds = tt
always-IfOk P (ok value) holds = holds value
