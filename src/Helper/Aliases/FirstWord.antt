-- ===== src/Helper/Aliases/FirstWord.antt =====
-- The rewriting of a line's first word, as a relation, and how the loop of `expandAlias` follows it.
use mathlib.Core.List.{append_assoc, append-nil}
use redshell.Alias.{Alias}
use redshell.Base.{
  ◌≤◌, ◌<◌, ◌≡◌, refl, Option, none, some, [], ◌∷◌, ◌++◌, Bytes, arith, length, length-append,
  take_all, if◌then◌else◌, ◌==◌, Bool-cases, inl, inr, ◌∙◌, rest_of-nil, before-append, rest-append,
  rest_of-StartsWith, str_eq,
}
use redshell.Helper.Aliases.Outcomes.{Outcome, returns, concatenate-Outcome}
use redshell.Helper.Aliases.{copy_back, arguments, command_word}
use redshell.Parser.Buffer.{buf_size}

-- the values of the words that may still be replaced
abbrev pub Words : Type 0
Words = Bytes → Option Bytes

abbrev pub without : Bytes → Words → Words
without w free k = if str_eq w k then none else free k

-- `line` becomes `line'` where its first word is replaced by its value as long as there is one,
-- each word at most once
pub data Rewrites : Words → Bytes → Bytes → Type 0 where
  settled :
      (free : Words) (line : Bytes) → free (command_word line) ≡ none → Rewrites free line line
  replaced :
      (free : Words) (line value line' : Bytes)
      → free (command_word line) ≡ some value
      → Rewrites (without (command_word line) free) (value ++ arguments line) line'
      → Rewrites free line line'

-- the aliases that the array of the result holds, and that are not empty
abbrev pub AreShort : Words → Type 0
AreShort free = (k v : Bytes) → free k ≡ some v → (0 < length v) × (length v ≤ buf_size)

abbrev pub free_value : Option Alias → Option Bytes
free_value none = none
free_value (some a) = if a.in_use == 0 then some a.value else none

pub without-AreShort : (w : Bytes) (free : Words) → AreShort free → AreShort (without w free)
without-AreShort w free short k v at = elim (Bool-cases (str_eq w k)) [
  | inl hit ↦ let clash : none ≡ some v = rw hit at at in cc
  | inr miss ↦ short k v (rw miss at at)
]

-- what stands for a line while it is rewritten: nothing yet, or what its first word became, before
-- the arguments of the command
pub data Stands (command : Bytes) : Bytes → Bytes → Bytes → Type 0 where
  untouched : Stands command command [] (command_word command)
  begun :
      (final cmd : Bytes)
      → 0 < length final
      → command_word final ≡ cmd
      → Stands command (final ++ arguments command) final cmd

pub word-Stands :
    (command line final cmd : Bytes) → Stands command line final cmd → command_word line ≡ cmd
word-Stands command line final cmd untouched = refl
word-Stands command line final cmd (begun _ _ some_bytes same) =
    before-append b' ' final (arguments command) (rest_of-StartsWith b' ' command) ∙ same

-- one replacement
pub next-Stands :
    (command line final cmd value : Bytes)
    → Stands command line final cmd
    → 0 < length value
    → Stands command (value ++ arguments line) (value ++ arguments final) (command_word value)
next-Stands command line final cmd value untouched some_bytes =
    rw (rest_of-nil b' ', append-nil value) (begun value (command_word value) some_bytes refl)
next-Stands command line final cmd value (begun _ _ _ _) some_bytes =
    let before = value ++ arguments final in
    let longer = length-append value (arguments final) in
    rw
      (
        rest-append b' ' final (arguments command) (rest_of-StartsWith b' ' command),
        ← append_assoc value (arguments final) (arguments command),
      )
      (begun before (command_word value) (omega arith)
        (before-append b' ' value (arguments final) (rest_of-StartsWith b' ' final)))

pub copy_back-Stands :
    (command line final cmd : Bytes)
    → length command ≤ buf_size
    → Stands command line final cmd
    → Outcome (λ result. result ≡ line) (copy_back final command)
unfolding copy_back
copy_back-Stands command line final cmd small untouched =
    returns _ (take_all buf_size command small)
copy_back-Stands command line [] cmd small (begun _ _ some_bytes _) =
    absurd (omega (arith, some_bytes))
copy_back-Stands command line (c ∷ final) cmd small (begun _ _ _ _) =
    concatenate-Outcome (c ∷ final) (arguments command)
