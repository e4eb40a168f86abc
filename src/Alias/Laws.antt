-- ===== src/Alias/Laws.antt =====
-- What the operations on aliases do to every key, over a table that behaves as documented.
use redshell.Alias.Table.{HashTable, Lawful, find}
use redshell.Alias.{Alias, release_each, release_aliases}
use redshell.Base.{
  ◌≡◌, refl, Bool, false, Option, none, some, List, [], ◌∷◌, Bytes, arith, All, ◌==◌, if◌then◌else◌,
  str_eq, str_eq→eq, ◌∙◌, ap, sym, Bool-cases, Option-cases, inl, inr, ◌||◌,
}

-- an alias that is not in use
abbrev pub cleared : Option Alias → Option Alias
cleared none = none
cleared (some a) = some (record a { in_use = 0 })

abbrev pub is_free : Option Alias → Bool
is_free none = false
is_free (some a) = a.in_use == 0

-- the key stands among the entries
unfoldable pub has_key : Bytes → List (Bytes × Alias) → Bool
has_key k [] = false
has_key k ((j, _) ∷ more) = str_eq j k || has_key k more

pub find-has_key : (k : Bytes) (es : List (Bytes × Alias)) → has_key k es ≡ false → find k es ≡ none
unfolding has_key find
find-has_key k [] h = refl
find-has_key k ((j, v) ∷ more) h = ground (arith, find-has_key k more)

module _ (h : HashTable Alias) (laws : Lawful h) where
  open h use {Table, lookup, entries, assign}

  -- the entry's value is the one under its key, whether in use or not
  abbrev Current : Table → List (Bytes × Alias) → Type 0
  Current t = All (λ (k, a). cleared (lookup t k) ≡ cleared (some a))

  -- one round of `releaseAliases`
  assign-cleared :
      (t : Table) (k : Bytes) (a : Alias)
      → cleared (lookup t k) ≡ cleared (some a)
      → (j : Bytes)
      → lookup (assign t k (record a { in_use = 0 })) j
        ≡ (if str_eq k j then cleared (lookup t j) else lookup t j)
  assign-cleared t k a same j = elim (Option-cases (lookup t k)) [
    | inl gone ↦ let clash : none ≡ cleared (some a) = rw gone at same in cc
    | inr (b, there) ↦
        laws.lookup-assign t k b (record a { in_use = 0 }) j there
        ∙ elim (Bool-cases (str_eq k j)) [
          | inr miss ↦ rw miss
          | inl hit ↦ rw (hit, ← str_eq→eq k j hit) (sym same)
        ]
  ]

  cleared-assign :
      (t : Table) (k : Bytes) (a : Alias)
      → cleared (lookup t k) ≡ cleared (some a)
      → (j : Bytes)
      → cleared (lookup (assign t k (record a { in_use = 0 })) j) ≡ cleared (lookup t j)
  cleared-assign t k a same j = rw (assign-cleared t k a same j) (elim (Bool-cases (str_eq k j)) [
    | inl hit ↦ rw hit (cleared-cleared (lookup t j))
    | inr miss ↦ rw miss
  ])
    where
      cleared-cleared : (o : Option Alias) → cleared (cleared o) ≡ cleared o
      cleared-cleared none = refl
      cleared-cleared (some b) = refl

  Current-mono :
      (t t' : Table) (es : List (Bytes × Alias))
      → ((j : Bytes) → cleared (lookup t' j) ≡ cleared (lookup t j))
      → Current t es
      → Current t' es
  Current-mono t t' [] same c = tt
  Current-mono t t' ((k, a) ∷ es) same c = (same k ∙ c.0, Current-mono t t' es same c.1)

  release_each_lem :
      (es : List (Bytes × Alias)) (t : Table)
      → Current t es
      → (j : Bytes)
      → lookup (release_each h es t) j ≡ (if has_key j es then cleared (lookup t j) else lookup t j)
  unfolding release_each has_key
  release_each_lem [] t c j = refl
  release_each_lem ((k, a) ∷ es) t c j =
      let t' = assign t k (record a { in_use = 0 }) in
      let same = cleared-assign t k a c.0 in
      release_each_lem es t' (Current-mono t t' es same c.1) j
      ∙ rw (same j, assign-cleared t k a c.0 j) (ground arith)

  entries-Current :
      (t : Table) (es : List (Bytes × Alias))
      → All (λ (k, a). lookup t k ≡ some a) es
      → Current t es
  entries-Current t [] c = tt
  entries-Current t ((k, a) ∷ es) c = (ap cleared c.0, entries-Current t es c.1)

  -- `releaseAliases` leaves every alias with its value and not in use, and adds or drops none.
  pub lookup-release_aliases :
      (t : Table) (j : Bytes) → lookup (release_aliases h t) j ≡ cleared (lookup t j)
  unfolding release_aliases
  lookup-release_aliases t j =
      release_each_lem (entries t) t (entries-Current t (entries t) (laws.entries-lookup t)) j
      ∙ elim (Bool-cases (has_key j (entries t))) [
        | inl there ↦ rw there
        | inr gone ↦
            let nothing : lookup t j ≡ none =
              sym (laws.find-entries t j) ∙ find-has_key j (entries t) gone in
            rw (gone, nothing)
      ]
