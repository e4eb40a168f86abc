-- ===== src/Base/Strings.antt =====
-- The C library's functions on strings that the program uses.
use Prim.Native.Nat.{ℕ}
use mathlib.Core.Bool.{Bool, true, false, ◌&&◌}
use mathlib.Core.List.{[], ◌∷◌, ◌++◌}
use mathlib.Core.Logic.{◌↔◌, inl, inr}
use mathlib.Core.Option.{Option, none, some}
use mathlib.Core.Path.{◌≡◌, refl, ap}
use native.Mathlib.Omega.{arith}
use redshell.Base.Tests.{Bytes, Bool-cases, ◌==◌, if◌then◌else◌}

-- `strcmp(s, t) == 0`
unfoldable pub str_eq : Bytes → Bytes → Bool
str_eq [] [] = true
str_eq [] (d ∷ t) = false
str_eq (c ∷ s) [] = false
str_eq (c ∷ s) (d ∷ t) = c == d && str_eq s t

pub str_eq→eq : (s t : Bytes) → str_eq s t ≡ true → s ≡ t
unfolding str_eq
str_eq→eq [] [] h = refl
str_eq→eq [] (d ∷ t) h = cc
str_eq→eq (c ∷ s) [] h = cc
str_eq→eq (c ∷ s) (d ∷ t) h = ground (arith, str_eq→eq s t)

pub str_eq_refl : (s : Bytes) → str_eq s s ≡ true
unfolding str_eq
str_eq_refl [] = refl
str_eq_refl (c ∷ s) = ground (arith, str_eq_refl s)

pub str_eq_iff : (s t : Bytes) → (str_eq s t ≡ true) ↔ (s ≡ t)
str_eq_iff s t = (str_eq→eq s t, λ e. rw e (str_eq_refl t))

-- the bytes before the first `sep`
unfoldable pub before_byte : ℕ → Bytes → Bytes
before_byte sep [] = []
before_byte sep (c ∷ s) = if c == sep then [] else c ∷ before_byte sep s

-- `strstr` for the one byte `sep`: the string from its first occurrence on
unfoldable pub from_byte : ℕ → Bytes → Option Bytes
from_byte sep [] = none
from_byte sep (c ∷ s) = if c == sep then some (c ∷ s) else from_byte sep s

-- what `strcat` of that string appends
abbrev pub or_empty : Option Bytes → Bytes
or_empty none = []
or_empty (some s) = s

unfoldable pub rest_of : ℕ → Bytes → Bytes
rest_of sep s = or_empty (from_byte sep s)

pub before-append-rest : (sep : ℕ) (s : Bytes) → before_byte sep s ++ rest_of sep s ≡ s
unfolding before_byte from_byte rest_of
before-append-rest sep [] = refl
before-append-rest sep (c ∷ s) = elim (Bool-cases (c == sep)) [
  | inl here ↦ rw here
  | inr on ↦ rw on (ap (λ t. c ∷ t) (before-append-rest sep s))
]

-- empty, or with `sep` in front
abbrev pub StartsWith : ℕ → Bytes → Type 0
StartsWith sep [] = Unit
StartsWith sep (c ∷ _) = c ≡ sep

pub rest_of-StartsWith : (sep : ℕ) (s : Bytes) → StartsWith sep (rest_of sep s)
unfolding from_byte rest_of
rest_of-StartsWith sep [] = tt
rest_of-StartsWith sep (c ∷ s) = elim (Bool-cases (c == sep)) [
  | inl here ↦ rw here (ground arith)
  | inr on ↦ rw on (rest_of-StartsWith sep s)
]

pub before-append :
    (sep : ℕ) (s t : Bytes) → StartsWith sep t → before_byte sep (s ++ t) ≡ before_byte sep s
unfolding before_byte
before-append sep [] [] h = refl
before-append sep [] (d ∷ t) h = ground arith
before-append sep (c ∷ s) t h = rw (before-append sep s t h)

pub rest-append :
    (sep : ℕ) (s t : Bytes) → StartsWith sep t → rest_of sep (s ++ t) ≡ rest_of sep s ++ t
unfolding from_byte rest_of
rest-append sep [] [] h = refl
rest-append sep [] (d ∷ t) h = ground arith
rest-append sep (c ∷ s) t h = elim (Bool-cases (c == sep)) [
  | inl here ↦ rw here
  | inr on ↦ rw on (rest-append sep s t h)
]

pub before-before : (sep : ℕ) (s : Bytes) → before_byte sep (before_byte sep s) ≡ before_byte sep s
unfolding before_byte
before-before sep [] = refl
before-before sep (c ∷ s) = elim (Bool-cases (c == sep)) [
  | inl here ↦ rw here
  | inr on ↦ rw (on, on) (ap (λ t. c ∷ t) (before-before sep s))
]

pub rest_of-nil : (sep : ℕ) → rest_of sep [] ≡ []
unfolding from_byte rest_of
rest_of-nil sep = refl
