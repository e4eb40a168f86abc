-- ===== src/Alias/Freed.antt =====
-- What `destroyAliases` frees.
use redshell.Alias.Table.{
  HashTable, Lawful, FreeCall, freed_key, freed_value, Part, the_key, the_value, times_call, one_if,
}
use redshell.Alias.{
  Alias, AliasBlock, key_block, value_block, alias_block, alias_free, registered, called,
  destroy_aliases,
}
use redshell.Base.{
  ℕ, ◌+◌, ◌≡◌, refl, Bool, false, none, some, List, [], ◌∷◌, Bytes, str_eq, ok, ◌∙◌, arith,
  if◌then◌else◌,
}

-- the key whose alias a block belongs to
abbrev pub key_of : AliasBlock → Bytes
key_of (key_block key) = key
key_of (value_block key) = key
key_of (alias_block key) = key

-- the part of the entry
abbrev part_of : AliasBlock → Part
part_of (key_block key) = the_key
part_of (value_block key) = the_value
part_of (alias_block key) = the_value

abbrev pub same_block : AliasBlock → AliasBlock → Bool
same_block (key_block key) (key_block k) = str_eq k key
same_block (value_block key) (value_block k) = str_eq k key
same_block (alias_block key) (alias_block k) = str_eq k key
same_block _ _ = false

-- how often a block is freed
abbrev pub times : AliasBlock → List AliasBlock → ℕ
times b [] = 0
times b (c ∷ bs) = (if same_block b c then 1 else 0) + times b bs

times-called :
    (b : AliasBlock) (calls : List (FreeCall Alias))
    → times b (called calls) ≡ times_call (part_of b) (key_of b) calls
unfolding called registered alias_free times_call
times-called (key_block key) [] = refl
times-called (value_block key) [] = refl
times-called (alias_block key) [] = refl
times-called (key_block key) (freed_key k ∷ calls) =
    omega (arith, times-called (key_block key) calls)
times-called (key_block key) (freed_value k v ∷ calls) =
    omega (arith, times-called (key_block key) calls)
times-called (value_block key) (freed_key k ∷ calls) =
    omega (arith, times-called (value_block key) calls)
times-called (value_block key) (freed_value k v ∷ calls) =
    omega (arith, times-called (value_block key) calls)
times-called (alias_block key) (freed_key k ∷ calls) =
    omega (arith, times-called (alias_block key) calls)
times-called (alias_block key) (freed_value k v ∷ calls) =
    omega (arith, times-called (alias_block key) calls)

module _ (h : HashTable Alias) (laws : Lawful h) where
  -- On a table, `destroy_aliases` returns with no table left. It has freed the key, the value and the
  -- struct of every alias of the table once each, and no other alias's.
  pub destroy_aliases-times :
      (t : h.Table)
      → (bs : List AliasBlock) × (destroy_aliases h (some t) ≡ ok (bs, none))
        × ((b : AliasBlock) → times b bs ≡ one_if (h.lookup t (key_of b)))
  unfolding destroy_aliases
  destroy_aliases-times t = (
    called (h.hash_table_free t),
    refl,
    λ b. times-called b (h.hash_table_free t) ∙ laws.free-once t (part_of b) (key_of b),
  )
