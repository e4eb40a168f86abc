-- ===== src/Helper/Aliases/Ends.antt =====
-- `expandAlias` ends, and keeps the aliases.
use redshell.Alias.Laws.{is_free, cleared, lookup-release_aliases}
use redshell.Alias.Table.{HashTable, Lawful}
use redshell.Alias.Weight.{
  total, Got, refused, given, get_alias-Got, total-taken, keys, sum_over, taken, cleared-taken,
}
use redshell.Alias.{Alias, get_alias, release_each, release_aliases}
use redshell.Base.{
  ◌∙◌, ℕ, zero, suc, ◌+◌, ◌≤◌, ◌<◌, ◌≡◌, refl, Option, List, [], ◌∷◌, Bytes, arith, length, take,
  Run, if◌then◌else◌,
}
use redshell.Helper.Aliases.{
  copy_back, expand_round, expand_loop, expand_alias, arguments, command_word,
}
use redshell.Parser.Buffer.{buf_size}
use redshell.Helper.Aliases.Outcomes.{
  Outcome, overflow, returns, Outcome-then, Outcome-map, concatenate-Outcome,
}

copy_back-Outcome : (final command : Bytes) → Outcome (λ _. Unit {0}) (copy_back final command)
unfolding copy_back
copy_back-Outcome [] command = returns _ tt
copy_back-Outcome (c ∷ final) command = weaken (concatenate-Outcome (c ∷ final) (arguments command))
  where
    weaken : {P : Bytes → Type 0} {run : Run Bytes} → Outcome P run → Outcome (λ _. Unit {0}) run
    weaken overflow = overflow
    weaken (returns a p) = returns a tt

-- one for an alias that may be expanded
abbrev pub one_if_free : Option Alias → ℕ
one_if_free o = if is_free o then 1 else 0

sum_over-length :
    (weigh : Bytes → ℕ)
    → ((k : Bytes) → weigh k ≤ 1)
    → (es : List (Bytes × Alias)) → sum_over weigh (keys es) ≤ length es
unfolding sum_over
sum_over-length weigh h [] = omega arith
sum_over-length weigh h ((k, a) ∷ es) = omega (arith, h k, sum_over-length weigh h es)

one_if_free-le : (o : Option Alias) → one_if_free o ≤ 1
one_if_free-le o = ground arith

module _ (h : HashTable Alias) (laws : Lawful h) where
  open h use {Table, lookup, entries, assign}

  -- the tables have the same keys, with the same values under them
  abbrev pub Same : Table → Table → Type 0
  Same t t' =
      (keys (entries t') ≡ keys (entries t))
      × ((j : Bytes) → cleared (lookup t' j) ≡ cleared (lookup t j))

  pub Same-trans : (t t' t'' : Table) → Same t t' → Same t' t'' → Same t t''
  Same-trans t t' t'' s s' = (s'.0 ∙ s.0, λ j. s'.1 j ∙ s.1 j)

  round-Outcome :
      (again : Table → Bytes → Bytes → Run (Bytes × Table)) (rounds : ℕ) (t : Table)
      (final cmd : Bytes) (r : Option Bytes × Table)
      → ((t' : Table) (f c : Bytes)
          → total h laws one_if_free t' < rounds
          → Outcome (λ r. Same t' r.1) (again t' f c))
      → total h laws one_if_free t < suc rounds
      → Got h laws t cmd r
      → Outcome (λ r. Same t r.1) (expand_round h again final r)
  unfolding expand_round
  round-Outcome again rounds t final cmd r on enough (refused none_free) =
      returns _ (refl, λ j. refl)
  round-Outcome again rounds t final cmd r on enough (given a at free) =
      Outcome-then _ _ (concatenate-Outcome (take buf_size a.value) (arguments final)) (λ joined _.
        Outcome-map
          (λ r same.
            Same-trans t (assign t cmd (taken h laws a)) r.1
              (laws.keys-assign t cmd (taken h laws a), cleared-taken h laws t cmd a at) same)
          (on _ joined _ (
            let less = total-taken h laws one_if_free t cmd a at refl in
            ground (arith, less, free))))

  expand_loop-Outcome :
      (rounds : ℕ) (t : Table) (final cmd : Bytes)
      → total h laws one_if_free t < rounds
      → Outcome (λ r. Same t r.1) (expand_loop h rounds t final cmd)
  unfolding expand_loop
  expand_loop-Outcome zero t final cmd enough = absurd (omega arith)
  expand_loop-Outcome (suc rounds) t final cmd enough =
      round-Outcome (expand_loop h rounds) rounds t final cmd (get_alias h t cmd)
        (expand_loop-Outcome rounds) enough (get_alias-Got h laws t cmd)

  pub enough_rounds : (t : Table) → total h laws one_if_free t < length (entries t) + 1
  enough_rounds t = omega (arith, sum_over-length _ (λ k. one_if_free-le (lookup t k)) (entries t))

  keys-release_each :
      (es : List (Bytes × Alias)) (t : Table)
      → keys (entries (release_each h es t)) ≡ keys (entries t)
  unfolding release_each
  keys-release_each [] t = refl
  keys-release_each ((k, a) ∷ es) t =
      let a' : Alias = record a { in_use = 0 } in
      keys-release_each es (assign t k a') ∙ laws.keys-assign t k a'

  -- the aliases after an expansion: those before it, none in use
  abbrev pub Released : Table → Table → Type 0
  Released t t' =
      (keys (entries t') ≡ keys (entries t)) × ((j : Bytes) → lookup t' j ≡ cleared (lookup t j))

  release_aliases-Released : (t t' : Table) → Same t t' → Released t (release_aliases h t')
  unfolding release_aliases
  release_aliases-Released t t' same = (
    keys-release_each (entries t') t' ∙ same.0,
    λ j. lookup-release_aliases h laws t' j ∙ same.1 j,
  )

  -- Whatever the aliases and the command, cycles of aliases included, the loop of `expand_alias` ends
  -- within one round more than there are aliases: it overflows an array, or returns with the aliases
  -- that there were, none of them in use.
  pub expand_alias-Outcome :
      (t : Table) (command : Bytes) → Outcome (λ r. Released t r.1) (expand_alias h t command)
  unfolding expand_alias
  expand_alias-Outcome t command =
      Outcome-then _ _
        (expand_loop-Outcome (length (entries t) + 1) t [] (command_word command) (enough_rounds t))
        (λ (final, t') same.
          Outcome-then _ _ (copy_back-Outcome final command)
            (λ result _. returns _ (release_aliases-Released t t' same)))
