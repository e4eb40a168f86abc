-- ===== src/Tests/Chains.antt =====
-- A hash table with a single chain, which keeps the documented behaviour.
use redshell.Alias.Table.{
  HashTable, Lawful, find, FreeCall, freed_key, freed_value, Part, the_key, the_value, times_call,
  one_if,
}
use redshell.Alias.{Alias}
use redshell.Base.{
  ℕ, ◌+◌, Bool, ◌≡◌, refl, true, false, none, some, List, [], ◌∷◌, map, Bytes, str_eq, str_eq→eq,
  str_eq_refl, if◌then◌else◌, All, Bool-cases, inl, inr, ap, ◌∙◌, sym, arith,
}

abbrev pub Chain : Type 0
Chain = List (Bytes × Alias)

-- without the entries of a key
unfoldable pub strip : Bytes → Chain → Chain
strip k [] = []
strip k ((j, v) ∷ t) = let rest = strip k t in if str_eq k j then rest else (j, v) ∷ rest

-- a key's first entry hides those behind it
unfoldable pub visible : Chain → Chain
unfolding strip
visible [] = []
visible ((k, v) ∷ t) = (k, v) ∷ strip k (visible t)

unfoldable pub overwrite : Chain → Bytes → Alias → Chain
overwrite [] k v = []
overwrite ((j, w) ∷ t) k v =
    let rest = overwrite t k v in if str_eq j k then (j, v) ∷ rest else (j, w) ∷ rest

-- the key and the value of each entry are freed
unfoldable pub free_each : Chain → List (FreeCall Alias)
free_each [] = []
free_each ((k, v) ∷ t) = freed_key k ∷ freed_value k v ∷ free_each t

abbrev pub chained : HashTable Alias
chained = record {
  Table = Chain;
  empty = [];
  insert = λ t k v. (k, v) ∷ t;
  remove = λ t k. strip k t;
  lookup = λ t k. find k t;
  entries = visible;
  assign = overwrite;
  hash_table_free = λ t. free_each (visible t);
}

find-strip :
    (k j : Bytes) (t : Chain) → find j (strip k t) ≡ (if str_eq k j then none else find j t)
unfolding find strip
find-strip k j [] = ground arith
find-strip k j ((i, v) ∷ t) = elim (Bool-cases (str_eq k i)) [
  | inl hit ↦ rw (hit, find-strip k j t, str_eq→eq k i hit) (ground arith)
  | inr miss ↦
      rw (miss, find-strip k j t)
        (elim (Bool-cases (str_eq i j)) [
          | inl here ↦ rw (here, ← str_eq→eq i j here, miss)
          | inr on ↦ rw on
        ])
]

find-visible : (k : Bytes) (t : Chain) → find k (visible t) ≡ find k t
unfolding find visible
find-visible k [] = refl
find-visible k ((j, v) ∷ t) = rw (find-strip j k (visible t), find-visible k t) (ground arith)

strip-All :
    (P : Bytes × Alias → Type 0) (k : Bytes) (t : Chain)
    → All P t
    → All (λ (j, v). P (j, v) × (str_eq k j ≡ false)) (strip k t)
unfolding strip
strip-All P k [] ps = tt
strip-All P k ((j, v) ∷ t) ps = elim (Bool-cases (str_eq k j)) [
  | inl hit ↦ rw hit (strip-All P k t ps.1)
  | inr miss ↦ rw miss ((ps.0, miss), strip-All P k t ps.1)
]

visible-find : (t : Chain) → All (λ (k, v). find k t ≡ some v) (visible t)
unfolding find visible
visible-find [] = tt
visible-find ((k, v) ∷ t) =
    (rw (str_eq_refl k), shown (strip k (visible t)) (strip-All _ k (visible t) (visible-find t)))
  where
    shown :
        (es : Chain)
        → All (λ (j, w). (find j t ≡ some w) × (str_eq k j ≡ false)) es
        → All (λ (j, w). (if str_eq k j then some v else find j t) ≡ some w) es
    shown [] ps = tt
    shown ((j, w) ∷ es) ps = (rw (ps.0.1) (ps.0.0), shown es ps.1)

find-overwrite :
    (t : Chain) (k : Bytes) (old v : Alias) (j : Bytes)
    → find k t ≡ some old
    → find j (overwrite t k v) ≡ (if str_eq k j then some v else find j t)
unfolding find overwrite
find-overwrite [] k old v j at = cc
find-overwrite ((i, w) ∷ t) k old v j at = elim (Bool-cases (str_eq i k)) [
  | inl hit ↦ rw hit (
      rw (str_eq→eq i k hit) (elim (Bool-cases (str_eq k j)) [
        | inl same ↦ rw same
        | inr other ↦ rw other (missing t k v j other)
      ]))
  | inr miss ↦ rw miss (
      rw (find-overwrite t k old v j (rw miss at at)) (elim (Bool-cases (str_eq i j)) [
        | inl here ↦
            rw (here, ← str_eq→eq i j here)
              (elim (Bool-cases (str_eq k i)) [
                | inl same ↦
                    let clash : true ≡ false =
                      sym (str_eq_refl k) ∙ ap (λ s. str_eq s k) (str_eq→eq k i same) ∙ miss in
                    cc
                | inr other ↦ rw other
              ])
        | inr on ↦ rw on
      ]))
]
  where
    missing :
        (t : Chain) (k : Bytes) (v : Alias) (j : Bytes)
        → str_eq k j ≡ false
        → find j (overwrite t k v) ≡ find j t
    missing [] k v j other = refl
    missing ((i, w) ∷ t) k v j other = elim (Bool-cases (str_eq i k)) [
      | inl hit ↦ rw hit (rw (missing t k v j other) (rw (str_eq→eq i k hit, other)))
      | inr miss ↦ rw miss (rw (missing t k v j other))
    ]

keys : Chain → List Bytes
keys = map (λ (k, _). k)

strip_keys : Bytes → List Bytes → List Bytes
strip_keys k [] = []
strip_keys k (j ∷ t) = let rest = strip_keys k t in if str_eq k j then rest else j ∷ rest

keys-strip : (k : Bytes) (t : Chain) → keys (strip k t) ≡ strip_keys k (keys t)
unfolding strip keys strip_keys
keys-strip k [] = refl
keys-strip k ((j, v) ∷ t) = elim (Bool-cases (str_eq k j)) [
  | inl hit ↦ rw hit (keys-strip k t)
  | inr miss ↦ rw miss (ap (λ ks. j ∷ ks) (keys-strip k t))
]

keys-overwrite :
    (t : Chain) (k : Bytes) (v : Alias) → keys (visible (overwrite t k v)) ≡ keys (visible t)
unfolding visible overwrite keys
keys-overwrite [] k v = refl
keys-overwrite ((j, w) ∷ t) k v = elim (Bool-cases (str_eq j k)) [
  | inl hit ↦ rw hit (ap (λ ks. j ∷ ks) (stripped (keys-overwrite t k v)))
  | inr miss ↦ rw miss (ap (λ ks. j ∷ ks) (stripped (keys-overwrite t k v)))
]
  where
    stripped :
        keys (visible (overwrite t k v)) ≡ keys (visible t)
        → keys (strip j (visible (overwrite t k v))) ≡ keys (strip j (visible t))
    stripped same =
        keys-strip j (visible (overwrite t k v))
        ∙ ap (λ ks. strip_keys j ks) same
        ∙ sym (keys-strip j (visible t))

times-entry :
    (part : Part) (j i : Bytes) (v : Alias) (calls : List (FreeCall Alias))
    → times_call part j (freed_key i ∷ freed_value i v ∷ calls)
      ≡ (if str_eq i j then 1 else 0) + times_call part j calls
unfolding times_call
times-entry the_key j i v calls = omega arith
times-entry the_value j i v calls = omega arith

no_calls : (part : Part) (j : Bytes) → times_call {V = Alias} part j [] ≡ 0
unfolding times_call
no_calls part j = refl

if_zero : (b : Bool) (n : ℕ) → 0 + (if b then 0 else n) ≡ (if b then 0 else 0 + n)
if_zero b n = ground arith

times-strip :
    (part : Part) (k j : Bytes) (t : Chain)
    → times_call part j (free_each (strip k t))
      ≡ (if str_eq k j then 0 else times_call part j (free_each t))
unfolding strip free_each
times-strip part k j [] = elim (Bool-cases (str_eq k j)) [
  | inl here ↦ rw here (no_calls part j)
  | inr on ↦ rw on
]
times-strip part k j ((i, v) ∷ t) = elim (Bool-cases (str_eq k i)) [
  | inl hit ↦
      rw (hit, times-strip part k j t, times-entry part j i v (free_each t), ← str_eq→eq k i hit)
        (elim (Bool-cases (str_eq k j)) [
          | inl here ↦ rw here (omega arith)
          | inr on ↦ rw on (omega arith)
        ])
  | inr miss ↦
      rw
        (
          miss,
          times-entry part j i v (free_each (strip k t)),
          times-strip part k j t,
          times-entry part j i v (free_each t),
        )
        (elim (Bool-cases (str_eq i j)) [
          | inl here ↦ rw (here, ← str_eq→eq i j here, miss) (omega arith)
          | inr on ↦ rw on (if_zero (str_eq k j) _)
        ])
]

times-visible :
    (part : Part) (k : Bytes) (t : Chain)
    → times_call part k (free_each (visible t)) ≡ one_if (find k t)
unfolding free_each visible find
times-visible part k [] = no_calls part k
times-visible part k ((j, v) ∷ t) =
    rw
      (
        times-entry part k j v (free_each (strip j (visible t))),
        times-strip part j k (visible t),
        times-visible part k t,
      )
      (elim (Bool-cases (str_eq j k)) [
        | inl here ↦ rw here (omega arith)
        | inr on ↦ rw on (omega arith)
      ])

pub chained-Lawful : Lawful chained
unfolding find visible strip overwrite keys
chained-Lawful = record {
  lookup-empty = λ k. refl;
  lookup-insert = λ t k v j. refl;
  lookup-remove = λ t k j. find-strip k j t;
  find-entries = λ t k. find-visible k t;
  entries-lookup = visible-find;
  lookup-assign = find-overwrite;
  keys-assign = keys-overwrite;
  free-once = λ t part k. times-visible part k t;
}
