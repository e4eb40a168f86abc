-- ===== src/Alias.antt =====
-- src/alias.c: the aliases in the hash table of src/hash-table.h, which is the library C Algorithms'
-- and a parameter here. The table owns its values, and a pointer to a value that the table returned
-- is written by `assign` at the value's key. Allocation is taken to succeed, as the code does.
pub mod Freed
pub mod Table
pub mod Laws
pub mod Weight
use redshell.Alias.Table.{HashTable, FreeCall, freed_key, freed_value}
use redshell.Base.{
  ℕ, Bool, true, false, Option, none, some, List, [], ◌∷◌, ◌++◌, map, Bytes, codes, ◌==◌,
  if◌then◌else◌, Run, null_pointer, ok, fault,
}

-- `struct alias_t`
pub record Alias : Type 0 where
  pub value : Bytes
  pub in_use : ℕ

abbrev pub alias_new : Bytes → Alias
alias_new value = record { value = value; in_use = 0 }

-- the blocks of an alias: the key, the value and the struct of the alias of a key
pub data AliasBlock : Type 0 where
  key_block value_block alias_block : Bytes → AliasBlock

-- `free(alias->value); free(alias);`
unfoldable pub alias_free : Bytes → List AliasBlock
alias_free key = value_block key ∷ alias_block key ∷ []

-- the functions that `initializeAliases` registers: `free` for a key, `aliasFree` for a value
unfoldable pub registered : FreeCall Alias → List AliasBlock
unfolding alias_free
registered (freed_key key) = key_block key ∷ []
registered (freed_value key alias) = alias_free key

-- what the calls free
unfoldable pub called : List (FreeCall Alias) → List AliasBlock
unfolding registered
called [] = []
called (c ∷ more) = registered c ++ called more

module _ (h : HashTable Alias) where
  open h use {Table, empty, insert, remove, lookup, entries, assign, hash_table_free}

  unfoldable pub initialize_aliases : Table
  initialize_aliases = empty

  unfoldable pub add_alias : Table → Bytes → Bytes → Table
  add_alias table key value = insert table key (alias_new value)

  unfoldable pub remove_alias : Table → Bytes → Table
  remove_alias table key = remove table key

  -- `alias != NULL && alias->in_use == 0`
  unfoldable pub use_alias : Table → Bytes → Option Alias → Option Bytes × Table
  use_alias table key none = (none, table)
  use_alias table key (some alias) =
      if alias.in_use == 0
      then (some alias.value, assign table key (record alias { in_use = 1 }))
      else (none, table)

  unfoldable pub get_alias : Table → Bytes → Option Bytes × Table
  unfolding use_alias
  get_alias table key = use_alias table key (lookup table key)

  unfoldable pub release_each : List (Bytes × Alias) → Table → Table
  release_each [] table = table
  release_each ((key, alias) ∷ more) table =
      release_each more (assign table key (record alias { in_use = 0 }))

  unfoldable pub release_aliases : Table → Table
  unfolding release_each
  release_aliases table = release_each (entries table) table

  -- what is printed: `key='value'` for each entry, in the table's order
  unfoldable pub print_aliases : Table → List Bytes
  print_aliases table =
      map (λ (key, alias). key ++ (codes "='" ++ (alias.value ++ codes "'\n"))) (entries table)

  -- `table`, null before `initializeAliases`, which `hash_table_free` follows; it is null again
  unfoldable pub destroy_aliases : Option Table → Run (List AliasBlock × Option Table)
  unfolding called
  destroy_aliases none = fault null_pointer
  destroy_aliases (some table) = ok (called (hash_table_free table), none)
