-- ===== src/Helper/Aliases/Rewriting.antt =====
-- What `expandAlias` computes: its first word is rewritten again and again.
use mathlib.Core.Path.{subst}
use redshell.Alias.Laws.{cleared, is_free, lookup-release_aliases}
use redshell.Alias.Table.{HashTable, Lawful}
use redshell.Alias.Weight.{
  Got, refused, given, get_alias-Got, taken, cleared-taken, total, total-taken,
}
use redshell.Alias.{Alias, get_alias}
use redshell.Base.{
  ℕ, zero, suc, ◌+◌, ◌≤◌, ◌<◌, ◌≡◌, refl, true, false, Option, none, some, [], ◌++◌, Bytes, arith,
  length, take, take_all, Run, Bool-cases, inl, inr, ◌∙◌, sym, str_eq,
}
use redshell.Helper.Aliases.Ends.{one_if_free, enough_rounds}
use redshell.Helper.Aliases.Fits.{free_length, expand_alias-fits}
use redshell.Helper.Aliases.Outcomes.{
  Outcome, returns, overflow, Outcome-then, concatenate-Outcome, Returns, Outcome-Returns,
}
use redshell.Helper.Aliases.{expand_round, expand_loop, expand_alias, arguments, command_word}
use redshell.Parser.Buffer.{buf_size}
use redshell.Helper.Aliases.FirstWord.{
  Words, without, Rewrites, settled, replaced, AreShort, free_value, Stands, untouched,
  without-AreShort, word-Stands, next-Stands, copy_back-Stands,
}

module _ (h : HashTable Alias) (laws : Lawful h) where
  open h use {Table, lookup, entries, assign}

  abbrev pub free_values : Table → Words
  free_values t k = free_value (lookup t k)

  free_values-taken :
      (t : Table) (k : Bytes) (a : Alias)
      → lookup t k ≡ some a
      → free_values (assign t k (taken h laws a)) ≡ without k (free_values t)
  free_values-taken t k a at i j = pointwise j i
    where
      pointwise :
          (j : Bytes) → free_values (assign t k (taken h laws a)) j ≡ without k (free_values t) j
      pointwise j =
          rw (laws.lookup-assign t k a (taken h laws a) j at)
            (elim (Bool-cases (str_eq k j)) [ inl hit ↦ rw hit | inr miss ↦ rw miss ])

  not_free : (o : Option Alias) → is_free o ≡ false → free_value o ≡ none
  not_free none no_free = refl
  not_free (some a) no_free = rw no_free

  -- what the loop returns, for a line that stands at its beginning
  record Rewritten (command line : Bytes) (t : Table) (r : Bytes × Table) : Type 0 where
    result : Bytes
    word : Bytes
    steps : Rewrites (free_values t) line result
    stands : Stands command result r.0 word
    values : (j : Bytes) → cleared (lookup r.1 j) ≡ cleared (lookup t j)

  further :
      (command line : Bytes) (t : Table) (a : Alias) (r : Bytes × Table)
      → lookup t (command_word line) ≡ some a
      → is_free (some a) ≡ true
      → Rewritten command
          (a.value ++ arguments line)
          (assign t (command_word line) (taken h laws a))
          r
      → Rewritten command line t r
  further command line t a r at free on = record {
    result = on.result;
    word = on.word;
    steps =
        replaced (free_values t) line a.value on.result (rw at (rw free))
          (rw (← free_values-taken t (command_word line) a at) on.steps);
    stands = on.stands;
    values = λ j. on.values j ∙ cleared-taken h laws t (command_word line) a at j;
  }

  round-Rewritten :
      (again : Table → Bytes → Bytes → Run (Bytes × Table)) (rounds : ℕ) (command line : Bytes)
      (t : Table) (final cmd : Bytes) (r : Option Bytes × Table)
      → ((line' : Bytes) (t' : Table) (f c : Bytes)
          → total h laws one_if_free t' < rounds
          → AreShort (free_values t')
          → Stands command line' f c
          → Outcome (Rewritten command line' t') (again t' f c))
      → total h laws one_if_free t < suc rounds
      → AreShort (free_values t)
      → Stands command line final cmd
      → command_word line ≡ cmd
      → Got h laws t cmd r
      → Outcome (Rewritten command line t) (expand_round h again final r)
  unfolding expand_round
  round-Rewritten again rounds command line t final cmd r on enough short stands word
        (refused none_free) =
      returns _ (record {
        result = line;
        word = cmd;
        steps = settled (free_values t) line (rw word (not_free (lookup t cmd) none_free));
        stands = stands;
        values = λ j. refl;
      })
  round-Rewritten again rounds command line t final cmd r on enough short stands word
        (given a at free) =
      let here : free_values t cmd ≡ some a.value = rw at (rw free) in
      let value = short cmd a.value here in
      Outcome-then _ _ (concatenate-Outcome (take buf_size a.value) (arguments final))
        (λ joined same.
          rw (same, take_all buf_size a.value value.1)
            (deepen (
              on (a.value ++ arguments line) _ (a.value ++ arguments final) (command_word a.value)
                (let less = total-taken h laws one_if_free t cmd a at refl in
                  ground (arith, less, free))
                (subst AreShort (sym (free_values-taken t cmd a at))
                  (without-AreShort cmd (free_values t) short))
                (next-Stands command line final cmd a.value stands value.0))))
    where
      deepen :
          {run : Run (Bytes × Table)}
          → Outcome
              (Rewritten command (a.value ++ arguments line) (assign t cmd (taken h laws a)))
              run
          → Outcome (Rewritten command line t) run
      deepen overflow = overflow
      deepen (returns b p) = returns b (further command line t a b (rw word at) free (rw word p))

  expand_loop-Rewritten :
      (rounds : ℕ) (command line : Bytes) (t : Table) (final cmd : Bytes)
      → total h laws one_if_free t < rounds
      → AreShort (free_values t)
      → Stands command line final cmd
      → Outcome (Rewritten command line t) (expand_loop h rounds t final cmd)
  unfolding expand_loop
  expand_loop-Rewritten zero command line t final cmd enough short stands = absurd (omega arith)
  expand_loop-Rewritten (suc rounds) command line t final cmd enough short stands =
      round-Rewritten (expand_loop h rounds) rounds command line t final cmd (get_alias h t cmd)
        (λ line' t' f c. expand_loop-Rewritten rounds command line' t' f c) enough short stands
        (word-Stands command line final cmd stands) (get_alias-Got h laws t cmd)

  -- the line is the rewritten command, and no alias stays in use
  abbrev pub Expands : Table → Bytes → Bytes × Table → Type 0
  Expands t command r =
      Rewrites (free_values t) command r.0 × ((j : Bytes) → lookup r.1 j ≡ cleared (lookup t j))

  -- For a command of at most BUFSIZE bytes and free aliases of 1 to BUFSIZE bytes, `expand_alias`
  -- overflows its array or returns the command rewritten: its first word is replaced by its alias as
  -- long as there is a free one that was not used before. No alias is left in use, and none is
  -- changed otherwise.
  pub expand_alias-Rewrites :
      (t : Table) (command : Bytes)
      → length command ≤ buf_size
      → AreShort (free_values t)
      → Outcome (Expands t command) (expand_alias h t command)
  unfolding expand_alias
  expand_alias-Rewrites t command small short =
      Outcome-then _ _
        (expand_loop-Rewritten (length (entries t) + 1) command command t [] (command_word command)
          (enough_rounds h laws t) short untouched)
        (λ (final, t') p.
          Outcome-then _ _ (copy_back-Stands command p.result final p.word small p.stands)
            (λ result same.
              returns _ (rw same p.steps, λ j. lookup-release_aliases h laws t' j ∙ p.values j)))

  -- Where the command and the values of all free aliases have at most BUFSIZE bytes together, and no
  -- free alias is empty or longer than BUFSIZE, `expand_alias` stays within its arrays and returns
  -- the command with its first word replaced by its alias as long as there is a free one that was not
  -- used before. No alias is left in use, and none is changed otherwise.
  pub expand_alias-Returns :
      (t : Table) (command : Bytes)
      → total h laws free_length t + length command ≤ buf_size
      → AreShort (free_values t)
      → Returns (Expands t command) (expand_alias h t command)
  expand_alias-Returns t command fits short =
      Outcome-Returns (expand_alias-Rewrites t command (omega arith) short)
        (expand_alias-fits h laws t command fits)
