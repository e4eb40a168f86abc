-- ===== src/Alias/Weight.antt =====
-- Sums over the aliases of a table, and how taking an alias into use lowers them.
use redshell.Alias.Laws.{is_free, has_key, find-has_key, cleared}
use redshell.Alias.Table.{HashTable, Lawful}
use redshell.Alias.{Alias, get_alias, use_alias}
use redshell.Base.{
  ℕ, ◌+◌, ◌≤◌, ◌≡◌, refl, true, false, Option, none, some, List, [], ◌∷◌, map, Bytes, arith, ◌==◌,
  if◌then◌else◌, str_eq, str_eq→eq, str_eq_refl, ◌∙◌, sym, Bool-cases, inl, inr,
}

abbrev pub keys : List (Bytes × Alias) → List Bytes
keys = map (λ (k, _). k)

-- the sum of `weigh` over the values under the keys
unfoldable pub sum_over : (Bytes → ℕ) → List Bytes → ℕ
sum_over weigh [] = 0
sum_over weigh (k ∷ more) = weigh k + sum_over weigh more

-- a sum in which the key `k` weighs nothing any more
sum_over-le :
    (f g : Bytes → ℕ) (k : Bytes)
    → ((j : Bytes) → g j ≡ (if str_eq k j then 0 else f j))
    → (ks : List Bytes) → sum_over g ks ≤ sum_over f ks
unfolding sum_over
sum_over-le f g k h [] = omega arith
sum_over-le f g k h (j ∷ ks) = ground (arith, h j, sum_over-le f g k h ks)

sum_over-lt :
    (f g : Bytes → ℕ) (k : Bytes)
    → ((j : Bytes) → g j ≡ (if str_eq k j then 0 else f j))
    → (es : List (Bytes × Alias)) → has_key k es ≡ true
    → sum_over g (keys es) + f k ≤ sum_over f (keys es)
unfolding sum_over has_key
sum_over-lt f g k h [] there = absurd (cc)
sum_over-lt f g k h ((j, a) ∷ es) there = elim (Bool-cases (str_eq j k)) [
  | inl here ↦
      let same : j ≡ k = str_eq→eq j k here in
      let gone : g j ≡ 0 = h j ∙ rw (same, str_eq_refl k) in
      rw gone (rw same (omega (arith, sum_over-le f g k h (keys es))))
  | inr on ↦ ground (arith, h j, sum_over-lt f g k h es)
]

module _ (h : HashTable Alias) (laws : Lawful h) where
  open h use {Table, lookup, entries, assign}

  abbrev pub total : (Option Alias → ℕ) → Table → ℕ
  total weigh t = sum_over (λ k. weigh (lookup t k)) (keys (entries t))

  has_key_of_some :
      (t : Table) (k : Bytes) (a : Alias) → lookup t k ≡ some a → has_key k (entries t) ≡ true
  has_key_of_some t k a at = elim (Bool-cases (has_key k (entries t))) [
    | inl there ↦ there
    | inr gone ↦
        let clash : none ≡ some a =
          sym (find-has_key k (entries t) gone) ∙ laws.find-entries t k ∙ at in
        cc
  ]

  abbrev pub taken : Alias → Alias
  taken a = record a { in_use = 1 }

  pub total-taken :
      (weigh : Option Alias → ℕ) (t : Table) (k : Bytes) (a : Alias)
      → lookup t k ≡ some a
      → weigh (some (taken a)) ≡ 0
      → total weigh (assign t k (taken a)) + weigh (some a) ≤ total weigh t
  total-taken weigh t k a at nothing = rw (laws.keys-assign t k (taken a)) (
      rw at at (
        sum_over-lt (λ j. weigh (lookup t j)) (λ j. weigh (lookup (assign t k (taken a)) j)) k
          (λ j.
            rw (laws.lookup-assign t k a (taken a) j at)
              (elim (Bool-cases (str_eq k j)) [ inl hit ↦ rw (hit, nothing) | inr miss ↦ rw miss ]))
          (entries t) (has_key_of_some t k a at)))

  -- the two ways in which `getAlias` ends
  pub data Got (t : Table) (k : Bytes) : Option Bytes × Table → Type 0 where
    refused : is_free (lookup t k) ≡ false → Got t k (none, t)
    given :
        (a : Alias)
        → lookup t k ≡ some a
        → is_free (some a) ≡ true
        → Got t k (some a.value, assign t k (taken a))

  use_alias-Got :
      (t : Table) (k : Bytes) (o : Option Alias) → lookup t k ≡ o → Got t k (use_alias h t k o)
  unfolding use_alias
  use_alias-Got t k none at = refused (rw at)
  use_alias-Got t k (some a) at = elim (Bool-cases (a.in_use == 0)) [
    | inl free ↦ rw free (given a at free)
    | inr used ↦ rw used (refused (rw at used))
  ]

  pub get_alias-Got : (t : Table) (k : Bytes) → Got t k (get_alias h t k)
  unfolding get_alias
  get_alias-Got t k = use_alias-Got t k (lookup t k) refl

  -- taking an alias into use changes no value
  pub cleared-taken :
      (t : Table) (k : Bytes) (a : Alias)
      → lookup t k ≡ some a
      → (j : Bytes) → cleared (lookup (assign t k (taken a)) j) ≡ cleared (lookup t j)
  cleared-taken t k a at j =
      rw (laws.lookup-assign t k a (taken a) j at) (elim (Bool-cases (str_eq k j)) [
        | inl hit ↦ rw hit (rw (← str_eq→eq k j hit, at))
        | inr miss ↦ rw miss
      ])
