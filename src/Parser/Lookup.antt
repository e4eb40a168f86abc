-- ===== src/Parser/Lookup.antt =====
-- How src/parser.c finds the transition for a byte: the two binary searches between `_resume` and
-- `_match`, and the tables read at `_match`. Positions are offsets into `_parser_trans_keys`. The
-- C code keeps a pointer to the last candidate, which may lie before the table; `hi` here is that
-- pointer plus the width of an entry, so it is never negative and `_upper < _lower` is `hi ≤ lo`.
use redshell.Base.{
  ℕ, zero, suc, ◌+◌, ◌-◌, ◌*◌, ◌/◌, ◌%◌, Bool, List, [], ◌∷◌, ltb, leb, if◌then◌else◌, get_or, take,
  drop,
}
use redshell.Parser.Tables.{
  parser_actions, parser_key_offsets, parser_trans_keys, parser_single_lengths,
  parser_range_lengths, parser_index_offsets, parser_indicies, parser_trans_targs,
  parser_trans_actions,
}

-- Whether `char` is signed is the compiler's choice, and `*p < *_mid` compares values of that type.
pub data CharType : Type 0 where
  signed_char unsigned_char : CharType

-- A byte's rank in the order of `char`.
unfoldable pub rank : CharType → ℕ → ℕ
rank signed_char c = (c + 128) % 256
rank unsigned_char c = c

abbrev pub char_lt : CharType → ℕ → ℕ → Bool
char_lt t a b = ltb (rank t a) (rank t b)

pub data Search : Type 0 where
  found : ℕ → Search
  missing : Search
  no_rounds : Search

unfoldable pub key_at : ℕ → ℕ
unfolding parser_trans_keys
key_at i = get_or parser_trans_keys i 0

-- the `while (1)` over single keys, for at most `rounds` rounds
unfoldable pub search_single : ℕ → CharType → ℕ → ℕ → ℕ → Search
unfolding rank key_at
search_single zero t c lo hi = if leb hi lo then missing else no_rounds
search_single (suc rounds) t c lo hi =
    let mid : ℕ = lo + (hi - 1 - lo) / 2 in
    let left : Search = search_single rounds t c lo mid in
    let right : Search = search_single rounds t c (mid + 1) hi in
    if leb hi lo
    then missing
    else if char_lt t c (key_at mid)
    then left
    else if char_lt t (key_at mid) c
    then right
    else found mid

-- the `while (1)` over ranges, two keys to a range
unfoldable pub search_range : ℕ → CharType → ℕ → ℕ → ℕ → Search
unfolding rank key_at
search_range zero t c lo hi = if leb hi lo then missing else no_rounds
search_range (suc rounds) t c lo hi =
    let mid : ℕ = lo + (hi - 2 - lo) / 2 / 2 * 2 in
    let left : Search = search_range rounds t c lo mid in
    let right : Search = search_range rounds t c (mid + 2) hi in
    if leb hi lo
    then missing
    else if char_lt t c (key_at mid)
    then left
    else if char_lt t (key_at (mid + 1)) c
    then right
    else found mid

-- `_trans` where the ranges have been searched from `keys` on
unfoldable pub range_trans : ℕ → ℕ → ℕ → Search → List ℕ
range_trans trans keys klen (found mid) = (trans + (mid - keys) / 2) ∷ []
range_trans trans keys klen missing = (trans + klen) ∷ []
range_trans trans keys klen no_rounds = []

unfoldable pub single_trans : CharType → ℕ → ℕ → ℕ → ℕ → ℕ → Search → List ℕ
unfolding search_range range_trans
single_trans t c trans keys klen rlen (found mid) = (trans + (mid - keys)) ∷ []
single_trans t c trans keys klen rlen missing =
    range_trans (trans + klen) (keys + klen) rlen
      (search_range rlen t c (keys + klen) (keys + klen + 2 * rlen))
single_trans t c trans keys klen rlen no_rounds = []

-- `_trans` at `_match`, as a list of at most one element: none where a search ran out of rounds
unfoldable pub find_trans : CharType → ℕ → ℕ → List ℕ
unfolding search_single single_trans parser_key_offsets parser_index_offsets parser_single_lengths
    parser_range_lengths
find_trans t cs c =
    let keys : ℕ = get_or parser_key_offsets cs 0 in
    let klen : ℕ = get_or parser_single_lengths cs 0 in
    single_trans t c (get_or parser_index_offsets cs 0) keys klen (get_or parser_range_lengths cs 0)
      (search_single klen t c keys (keys + klen))

-- the actions listed from `offset` in `_parser_actions`, the count first; offset 0 has none
unfoldable pub actions_at : ℕ → List ℕ
unfolding parser_actions
actions_at zero = []
actions_at (suc i) = take (get_or parser_actions (suc i) 0) (drop (suc (suc i)) parser_actions)

pub record Transition : Type 0 where
  pub target : ℕ
  pub actions : List ℕ

unfoldable pub transition_at : ℕ → Transition
unfolding actions_at parser_indicies parser_trans_targs parser_trans_actions
transition_at trans =
    let i : ℕ = get_or parser_indicies trans 0 in
    record {
      target = get_or parser_trans_targs i 0;
      actions = actions_at (get_or parser_trans_actions i 0);
    }

unfoldable pub transitions : List ℕ → List Transition
unfolding transition_at
transitions [] = []
transitions (trans ∷ _) = transition_at trans ∷ []

-- the transition from state `cs` on byte `c`
unfoldable pub lookup_transition : CharType → ℕ → ℕ → List Transition
unfolding find_trans transitions
lookup_transition t cs c = transitions (find_trans t cs c)
