-- ===== src/Alias/Table.antt =====
-- The hash table of src/hash-table.h as a parameter: its operations, with what the header says of
-- them. Keys are strings, compared as `string_equal` does.
use redshell.Base.{
  ℕ, ◌+◌, Bool, false, ◌≡◌, Option, none, some, List, [], ◌∷◌, map, Bytes, str_eq, if◌then◌else◌,
  All,
}

-- the value under the first entry of a key
unfoldable pub find {ℓ} : {V : Type ℓ} → Bytes → List (Bytes × V) → Option V
find key [] = none
find key ((k, v) ∷ more) = if str_eq k key then some v else find key more

-- a call of one of the functions that are registered, for the key or the value of an entry
pub data FreeCall (V : Type 0) : Type 0 where
  freed_key : Bytes → FreeCall V
  freed_value : Bytes → V → FreeCall V

pub data Part : Type 0 where
  the_key the_value : Part

abbrev pub is_call : {V : Type 0} → Part → Bytes → FreeCall V → Bool
is_call the_key key (freed_key k) = str_eq k key
is_call the_value key (freed_value k v) = str_eq k key
is_call the_key key (freed_value k v) = false
is_call the_value key (freed_key k) = false

-- how often the part of a key's entry is freed
unfoldable pub times_call : {V : Type 0} → Part → Bytes → List (FreeCall V) → ℕ
times_call part key [] = 0
times_call part key (c ∷ more) = (if is_call part key c then 1 else 0) + times_call part key more

abbrev pub one_if : {V : Type 0} → Option V → ℕ
one_if none = 0
one_if (some v) = 1

pub record HashTable (V : Type 0) : Type 1 where
  pub Table : Type 0
  pub empty : Table
  pub insert : Table → Bytes → V → Table
  pub remove : Table → Bytes → Table
  pub lookup : Table → Bytes → Option V
  -- the entries in the order in which an iterator returns them
  pub entries : Table → List (Bytes × V)
  -- a write through the pointer to the value under a key
  pub assign : Table → Bytes → V → Table
  -- the calls of the functions that are registered, in their order
  pub hash_table_free : Table → List (FreeCall V)

-- the documented behaviour
pub record Lawful {V : Type 0} (h : HashTable V) : Type 0 where
  pub lookup-empty : (k : Bytes) → h.lookup h.empty k ≡ none
  -- an existing entry under the same key is overwritten
  pub lookup-insert :
      (t : h.Table) (k : Bytes) (v : V) (j : Bytes)
      → h.lookup (h.insert t k v) j ≡ (if str_eq k j then some v else h.lookup t j)
  pub lookup-remove :
      (t : h.Table) (k j : Bytes)
      → h.lookup (h.remove t k) j ≡ (if str_eq k j then none else h.lookup t j)
  -- an iterator returns every entry
  pub find-entries : (t : h.Table) (k : Bytes) → find k (h.entries t) ≡ h.lookup t k
  -- an entry is the only one of its key
  pub entries-lookup : (t : h.Table) → All (λ (k, v). h.lookup t k ≡ some v) (h.entries t)
  -- a write to a value changes what is read under its key
  pub lookup-assign :
      (t : h.Table) (k : Bytes) (old v : V) (j : Bytes)
      → h.lookup t k ≡ some old
      → h.lookup (h.assign t k v) j ≡ (if str_eq k j then some v else h.lookup t j)
  -- and leaves the entries where they are
  pub keys-assign :
      (t : h.Table) (k : Bytes) (v : V)
      → map (λ (key, _). key) (h.entries (h.assign t k v)) ≡ map (λ (key, _). key) (h.entries t)
  -- with the table every entry is removed, and its key and its value are freed
  pub free-once :
      (t : h.Table) (part : Part) (k : Bytes)
      → times_call part k (h.hash_table_free t) ≡ one_if (h.lookup t k)
