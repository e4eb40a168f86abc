-- ===== src/Helper/Aliases/Fits.antt =====
-- `expandAlias` stays in its arrays where the aliases are short.
use redshell.Alias.Table.{HashTable, Lawful}
use redshell.Alias.Weight.{total, Got, refused, given, get_alias-Got, total-taken}
use redshell.Alias.{Alias, get_alias}
use redshell.Base.{
  ℕ, zero, suc, ◌+◌, ◌≤◌, ◌<◌, refl, Option, none, some, [], ◌∷◌, ◌++◌, Bytes, arith, length,
  length-append, length-take, take, Run, if◌then◌else◌, ◌==◌, rest_of, before_byte,
  before-append-rest, ap,
}
use redshell.Helper.Aliases.{
  copy_back, expand_round, expand_loop, expand_alias, arguments, command_word,
}
use redshell.Parser.Buffer.{buf_size}
use redshell.Helper.Aliases.Outcomes.{Returns, returned, Returns-then, concatenate-fits}
use redshell.Helper.Aliases.Ends.{one_if_free, enough_rounds}

rest_of-length : (sep : ℕ) (s : Bytes) → length (rest_of sep s) ≤ length s
rest_of-length sep s =
    let whole = ap (λ u. length u) (before-append-rest sep s) in
    let sum = length-append (before_byte sep s) (rest_of sep s) in omega arith

-- the bytes that an alias adds where it may be expanded
abbrev pub free_length : Option Alias → ℕ
free_length none = 0
free_length (some a) = if a.in_use == 0 then length a.value else 0

module _ (h : HashTable Alias) (laws : Lawful h) where
  open h use {Table, lookup, entries}

  -- the loop where the free aliases and what is joined so far fit the array together
  round-fits :
      (again : Table → Bytes → Bytes → Run (Bytes × Table)) (rounds room : ℕ) (t : Table)
      (final cmd : Bytes) (r : Option Bytes × Table)
      → ((t' : Table) (f c : Bytes)
          → total h laws one_if_free t' < rounds
          → length f + total h laws free_length t' ≤ room
          → Returns (λ (f', _). length f' ≤ room) (again t' f c))
      → room ≤ buf_size
      → total h laws one_if_free t < suc rounds
      → length final + total h laws free_length t ≤ room
      → Got h laws t cmd r
      → Returns (λ (f', _). length f' ≤ room) (expand_round h again final r)
  unfolding expand_round
  round-fits again rounds room t final cmd r on small enough fits (refused none_free) =
      returned _ (omega arith)
  round-fits again rounds room t final cmd r on small enough fits (given a at free) =
      let less = total-taken h laws one_if_free t cmd a at refl in
      let shorter = total-taken h laws free_length t cmd a at refl in
      let value = take buf_size a.value in
      let kept = length-take buf_size a.value in
      let tail = rest_of-length b' ' final in
      let joined : length value + length (arguments final) ≤ room =
        ground (arith, kept, tail, shorter, fits, free) in
      let sum = length-append value (arguments final) in
      rw (concatenate-fits value (arguments final) (omega arith)) (
        on _ (value ++ arguments final) _ (ground (arith, less, free))
          (ground (arith, sum, kept, tail, shorter, fits, free)))

  expand_loop-fits :
      (rounds room : ℕ) (t : Table) (final cmd : Bytes)
      → room ≤ buf_size
      → total h laws one_if_free t < rounds
      → length final + total h laws free_length t ≤ room
      → Returns (λ (f, _). length f ≤ room) (expand_loop h rounds t final cmd)
  unfolding expand_loop
  expand_loop-fits zero room t final cmd small enough fits = absurd (omega arith)
  expand_loop-fits (suc rounds) room t final cmd small enough fits =
      round-fits (expand_loop h rounds) rounds room t final cmd (get_alias h t cmd)
        (λ t' f c. expand_loop-fits rounds room t' f c small) small enough fits
        (get_alias-Got h laws t cmd)

  copy_back-fits :
      (final command : Bytes)
      → length final + length command ≤ buf_size
      → Returns (λ _. Unit {0}) (copy_back final command)
  unfolding copy_back
  copy_back-fits [] command fits = returned _ tt
  copy_back-fits (c ∷ final) command fits =
      rw
        (concatenate-fits (c ∷ final) (arguments command)
          (omega (arith, rest_of-length b' ' command)))
        (returned _ tt)

  pub expand_alias-fits :
      (t : Table) (command : Bytes)
      → total h laws free_length t + length command ≤ buf_size
      → Returns (λ _. Unit {0}) (expand_alias h t command)
  unfolding expand_alias
  expand_alias-fits t command fits =
      Returns-then _ _
        (expand_loop-fits (length (entries t) + 1) (total h laws free_length t) t []
          (command_word command) (omega arith) (enough_rounds h laws t) (omega arith))
        (λ (final, t') short.
          Returns-then _ _ (copy_back-fits final command (omega arith)) (λ result _. returned _ tt))
