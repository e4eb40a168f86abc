-- ===== src/Tests/Aliasing.antt =====
-- Aliases of tests/test_alias.c and tests/test_helper.c in a table of one chain.
use mathlib.Core.Path.{subst}
use redshell.Alias.Laws.{cleared, lookup-release_aliases}
use redshell.Alias.{
  AliasBlock, destroy_aliases, alias_new, initialize_aliases, add_alias, remove_alias, use_alias,
  get_alias, release_each, release_aliases, print_aliases,
}
use redshell.Alias.Freed.{times, key_of, destroy_aliases-times}
use redshell.Alias.Table.{one_if, find}
use redshell.Alias.Weight.{total, sum_over}
use redshell.Base.{
  ◌+◌, ◌<◌, ◌≤◌, length, arith, ◌≡◌, refl, Option, none, some, List, [], ◌∷◌, Bytes, codes, ok,
  Bool-cases, inl, inr, str_eq, from_byte, before_byte, rest_of,
}
use redshell.Helper.Aliases.Ends.{Released, expand_alias-Outcome}
use redshell.Helper.Aliases.FirstWord.{AreShort}
use redshell.Helper.Aliases.Fits.{free_length}
use redshell.Helper.Aliases.Outcomes.{Outcome, Returns}
use redshell.Helper.Aliases.Rewriting.{
  free_values, Expands, expand_alias-Rewrites, expand_alias-Returns,
}
use redshell.Helper.Aliases.{concatenate, copy_back, expand_round, expand_loop, expand_alias}
use redshell.Parser.Buffer.{buf_size}
use redshell.Tests.Chains.{Chain, chained, chained-Lawful, strip, visible, overwrite}

aliases : Unit {0}
unfolding find initialize_aliases add_alias remove_alias use_alias get_alias release_each
    release_aliases print_aliases concatenate copy_back expand_round expand_loop expand_alias strip
    visible overwrite str_eq from_byte before_byte rest_of
aliases = tt

-- `alias ll='ls -lh'` and `alias ls='ls --color'`
abbrev pub two_aliases : Chain
two_aliases =
    (codes "ll", alias_new (codes "ls -lh")) ∷ (codes "ls", alias_new (codes "ls --color")) ∷ []

added :
    add_alias chained
      (add_alias chained (initialize_aliases chained) (codes "ls") (codes "ls --color"))
      (codes "ll")
      (codes "ls -lh")
    ≡ two_aliases
unfolding aliases
added = refl

printed : print_aliases chained two_aliases ≡ codes "ll='ls -lh'\n" ∷ codes "ls='ls --color'\n" ∷ []
unfolding aliases
printed = refl

twice :
    expand_alias chained two_aliases (codes "ll /tmp")
    ≡ ok (codes "ls --color -lh /tmp", two_aliases)
unfolding aliases
twice = refl

-- an alias to nothing is ignored
emptied :
    expand_alias chained (add_alias chained [] (codes "a") []) (codes "a b")
    ≡ ok (codes "a b", add_alias chained [] (codes "a") [])
unfolding aliases
emptied = refl

abbrev IsShort : Option Bytes → Type 0
IsShort none = Unit
IsShort (some v) = (0 < length v) × (length v ≤ buf_size)

two_aliases-AreShort : AreShort (free_values chained chained-Lawful two_aliases)
unfolding find
two_aliases-AreShort k v at = elim (Bool-cases (str_eq (codes "ll") k)) [
  | inl hit ↦
      let same : some (codes "ls -lh") ≡ some v = rw hit at at in
      subst IsShort same (omega arith, omega arith)
  | inr miss ↦ elim (Bool-cases (str_eq (codes "ls") k)) [
    | inl hit ↦
        let same : some (codes "ls --color") ≡ some v = rw (miss, hit) at at in
        subst IsShort same (omega arith, omega arith)
    | inr miss' ↦ let clash : none ≡ some v = rw (miss, miss') at at in cc
  ]
]

two_aliases-fit :
    total chained chained-Lawful free_length two_aliases + length (codes "ll /tmp") ≤ buf_size
unfolding find visible strip sum_over str_eq
two_aliases-fit = omega arith

lookup-release_aliases_example :
    find (codes "ll") (release_aliases chained two_aliases)
    ≡ cleared (find (codes "ll") two_aliases)
lookup-release_aliases_example =
    lookup-release_aliases chained chained-Lawful two_aliases (codes "ll")

expand_alias-Outcome_example :
    Outcome
      (λ r. Released chained chained-Lawful two_aliases r.1)
      (expand_alias chained two_aliases (codes "ll /tmp"))
expand_alias-Outcome_example =
    expand_alias-Outcome chained chained-Lawful two_aliases (codes "ll /tmp")

expand_alias-Rewrites_example :
    Outcome
      (Expands chained chained-Lawful two_aliases (codes "ll /tmp"))
      (expand_alias chained two_aliases (codes "ll /tmp"))
expand_alias-Rewrites_example =
    expand_alias-Rewrites chained chained-Lawful two_aliases (codes "ll /tmp") (omega arith)
      two_aliases-AreShort

expand_alias-Returns_example :
    Returns
      (Expands chained chained-Lawful two_aliases (codes "ll /tmp"))
      (expand_alias chained two_aliases (codes "ll /tmp"))
expand_alias-Returns_example =
    expand_alias-Returns chained chained-Lawful two_aliases (codes "ll /tmp") two_aliases-fit
      two_aliases-AreShort

destroy_aliases-times_example :
    (bs : List AliasBlock) × (destroy_aliases chained (some two_aliases) ≡ ok (bs, none))
    × ((b : AliasBlock) → times b bs ≡ one_if (chained.lookup two_aliases (key_of b)))
destroy_aliases-times_example = destroy_aliases-times chained chained-Lawful two_aliases
