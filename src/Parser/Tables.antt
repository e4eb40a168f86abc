-- ===== src/Parser/Tables.antt =====
-- The constant tables of src/parser.c, as Ragel wrote them.
use redshell.Base.{ℕ, List, [], ◌∷◌}

unfoldable pub parser_actions : List ℕ
parser_actions =
    0 ∷ 1 ∷ 0 ∷ 1 ∷ 1 ∷ 1 ∷ 2 ∷ 1 ∷ 3 ∷ 1 ∷ 4 ∷ 1 ∷ 5 ∷ 1 ∷ 6 ∷ 1 ∷ 7 ∷ 2 ∷ 3 ∷ 0 ∷ 2 ∷ 4 ∷ 3 ∷ 3
    ∷ 4 ∷ 3 ∷ 0 ∷ []

unfoldable pub parser_key_offsets : List ℕ
parser_key_offsets =
    0 ∷ 0 ∷ 9 ∷ 15 ∷ 21 ∷ 30 ∷ 39 ∷ 48 ∷ 54 ∷ 63 ∷ 69 ∷ 78 ∷ 84 ∷ 93 ∷ 99 ∷ 108 ∷ []

unfoldable pub parser_trans_keys : List ℕ
parser_trans_keys =
    0 ∷ 32 ∷ 38 ∷ 62 ∷ 124 ∷ 9 ∷ 13 ∷ 59 ∷ 60 ∷ 0 ∷ 38 ∷ 59 ∷ 60 ∷ 62 ∷ 124 ∷ 0 ∷ 32 ∷ 59 ∷ 124 ∷ 9
    ∷ 13 ∷ 0 ∷ 32 ∷ 38 ∷ 62 ∷ 124 ∷ 9 ∷ 13 ∷ 59 ∷ 60 ∷ 0 ∷ 32 ∷ 38 ∷ 62 ∷ 124 ∷ 9 ∷ 13 ∷ 59 ∷ 60 ∷ 0
    ∷ 32 ∷ 38 ∷ 62 ∷ 124 ∷ 9 ∷ 13 ∷ 59 ∷ 60 ∷ 0 ∷ 38 ∷ 59 ∷ 60 ∷ 62 ∷ 124 ∷ 0 ∷ 32 ∷ 38 ∷ 62 ∷ 124
    ∷ 9 ∷ 13 ∷ 59 ∷ 60 ∷ 0 ∷ 38 ∷ 59 ∷ 60 ∷ 62 ∷ 124 ∷ 0 ∷ 32 ∷ 38 ∷ 62 ∷ 124 ∷ 9 ∷ 13 ∷ 59 ∷ 60 ∷ 0
    ∷ 38 ∷ 59 ∷ 60 ∷ 62 ∷ 124 ∷ 0 ∷ 32 ∷ 38 ∷ 62 ∷ 124 ∷ 9 ∷ 13 ∷ 59 ∷ 60 ∷ 0 ∷ 38 ∷ 59 ∷ 60 ∷ 62
    ∷ 124 ∷ 0 ∷ 32 ∷ 38 ∷ 62 ∷ 124 ∷ 9 ∷ 13 ∷ 59 ∷ 60 ∷ 0 ∷ []

unfoldable pub parser_single_lengths : List ℕ
parser_single_lengths = 0 ∷ 5 ∷ 6 ∷ 4 ∷ 5 ∷ 5 ∷ 5 ∷ 6 ∷ 5 ∷ 6 ∷ 5 ∷ 6 ∷ 5 ∷ 6 ∷ 5 ∷ 0 ∷ []

unfoldable pub parser_range_lengths : List ℕ
parser_range_lengths = 0 ∷ 2 ∷ 0 ∷ 1 ∷ 2 ∷ 2 ∷ 2 ∷ 0 ∷ 2 ∷ 0 ∷ 2 ∷ 0 ∷ 2 ∷ 0 ∷ 2 ∷ 0 ∷ []

unfoldable pub parser_index_offsets : List ℕ
parser_index_offsets =
    0 ∷ 0 ∷ 8 ∷ 15 ∷ 21 ∷ 29 ∷ 37 ∷ 45 ∷ 52 ∷ 60 ∷ 67 ∷ 75 ∷ 82 ∷ 90 ∷ 97 ∷ 105 ∷ []

unfoldable pub parser_indicies : List ℕ
parser_indicies =
    1 ∷ 2 ∷ 3 ∷ 3 ∷ 3 ∷ 2 ∷ 3 ∷ 0 ∷ 1 ∷ 5 ∷ 6 ∷ 7 ∷ 8 ∷ 9 ∷ 4 ∷ 1 ∷ 10 ∷ 6 ∷ 9 ∷ 10 ∷ 3 ∷ 3 ∷ 12 ∷ 3
    ∷ 3 ∷ 3 ∷ 12 ∷ 3 ∷ 11 ∷ 3 ∷ 13 ∷ 3 ∷ 3 ∷ 3 ∷ 13 ∷ 3 ∷ 4 ∷ 3 ∷ 7 ∷ 3 ∷ 3 ∷ 3 ∷ 7 ∷ 3 ∷ 14 ∷ 1 ∷ 5
    ∷ 6 ∷ 3 ∷ 15 ∷ 9 ∷ 14 ∷ 3 ∷ 15 ∷ 3 ∷ 3 ∷ 3 ∷ 15 ∷ 3 ∷ 16 ∷ 1 ∷ 5 ∷ 6 ∷ 3 ∷ 3 ∷ 9 ∷ 16 ∷ 3 ∷ 8
    ∷ 3 ∷ 3 ∷ 3 ∷ 8 ∷ 3 ∷ 17 ∷ 1 ∷ 5 ∷ 6 ∷ 18 ∷ 3 ∷ 9 ∷ 17 ∷ 3 ∷ 18 ∷ 3 ∷ 3 ∷ 3 ∷ 18 ∷ 3 ∷ 19 ∷ 1
    ∷ 5 ∷ 6 ∷ 3 ∷ 3 ∷ 9 ∷ 19 ∷ 1 ∷ 20 ∷ 3 ∷ 3 ∷ 3 ∷ 20 ∷ 3 ∷ 4 ∷ 3 ∷ 0 ∷ []

unfoldable pub parser_trans_targs : List ℕ
parser_trans_targs =
    2 ∷ 15 ∷ 14 ∷ 0 ∷ 2 ∷ 3 ∷ 4 ∷ 6 ∷ 10 ∷ 4 ∷ 3 ∷ 2 ∷ 5 ∷ 5 ∷ 7 ∷ 8 ∷ 9 ∷ 11 ∷ 12 ∷ 13 ∷ 14 ∷ []

unfoldable pub parser_trans_actions : List ℕ
parser_trans_actions =
    17 ∷ 9 ∷ 7 ∷ 0 ∷ 1 ∷ 13 ∷ 15 ∷ 0 ∷ 0 ∷ 11 ∷ 0 ∷ 23 ∷ 20 ∷ 0 ∷ 3 ∷ 0 ∷ 5 ∷ 5 ∷ 0 ∷ 3 ∷ 0 ∷ []

abbrev pub parser_start : ℕ
parser_start = 1

abbrev pub parser_first_final : ℕ
parser_first_final = 15

abbrev pub parser_error : ℕ
parser_error = 0
