-- ===== src/Parser/Chart.antt =====
-- The machine that the tables of src/parser.c encode, written out: a name for each state, the class
-- of a byte, and the move of each state on each class.
pub mod Agrees
use redshell.Base.{ℕ, Bool, true, false, ◌||◌, ◌&&◌, List, [], ◌∷◌, map, leb, ◌==◌, if◌then◌else◌}

-- `_parser_actions`' numbers, by the names that src/parser.rl gives the actions
pub data Action : Type 0 where
  append append_in append_out new term pipe bg seq : Action

-- the states 0 to 15
pub data State : Type 0 where
  error start in_command after_bg after_separator before_command : State
  before_in in_in before_second_out in_second_out : State
  before_out in_out before_second_in in_second_in : State
  blank_line final : State

-- the classes of bytes that the grammar tells apart
pub data Class : Type 0 where
  nul blank ampersand semicolon less greater bar plain : Class

unfoldable pub is_blank : ℕ → Bool
is_blank c = c == b' ' || (leb 9 c && leb c 13)

unfoldable pub classify : ℕ → Class
unfolding is_blank
classify c =
    if c == 0
    then nul
    else if is_blank c
    then blank
    else if c == b'&'
    then ampersand
    else if c == b';'
    then semicolon
    else if c == b'<'
    then less
    else if c == b'>'
    then greater
    else if c == b'|'
    then bar
    else plain

pub record Move : Type 0 where
  pub to : State
  pub acts : List Action

abbrev pub move : State → List Action → Move
move s todo = record { to = s; acts = todo }

abbrev pub stuck : Move
stuck = move error []

-- the moves on a byte that ends a command or its redirections
unfoldable pub end_move : Class → Move
end_move nul = move final (term ∷ [])
end_move semicolon = move after_separator (seq ∷ [])
end_move bar = move after_separator (pipe ∷ [])
end_move ampersand = move after_bg (bg ∷ [])
end_move _ = stuck

-- the moves before the first byte of a file name
unfoldable pub name_move : State → State → Action → Class → Move
name_move here inside act blank = move here []
name_move here inside act plain = move inside (act ∷ [])
name_move _ _ _ _ = stuck

unfoldable pub next : State → Class → Move
unfolding end_move name_move
next start nul = move final (term ∷ [])
next start blank = move blank_line (new ∷ [])
next start plain = move in_command (new ∷ append ∷ [])
next in_command blank = move in_command (append ∷ [])
next in_command plain = move in_command (append ∷ [])
next in_command less = move before_in []
next in_command greater = move before_out []
next in_command c = end_move c
next after_bg blank = move after_bg []
next after_bg ampersand = stuck
next after_bg c = end_move c
next after_separator blank = move before_command (term ∷ new ∷ [])
next after_separator plain = move in_command (term ∷ new ∷ append ∷ [])
next before_command blank = move before_command []
next before_command plain = move in_command (append ∷ [])
next before_in c = name_move before_in in_in append_in c
next in_in blank = move in_in (append_in ∷ [])
next in_in plain = move in_in (append_in ∷ [])
next in_in greater = move before_second_out []
next in_in c = end_move c
next before_second_out c = name_move before_second_out in_second_out append_out c
next in_second_out blank = move in_second_out (append_out ∷ [])
next in_second_out plain = move in_second_out (append_out ∷ [])
next in_second_out c = end_move c
next before_out c = name_move before_out in_out append_out c
next in_out blank = move in_out (append_out ∷ [])
next in_out plain = move in_out (append_out ∷ [])
next in_out less = move before_second_in []
next in_out c = end_move c
next before_second_in c = name_move before_second_in in_second_in append_in c
next in_second_in blank = move in_second_in (append_in ∷ [])
next in_second_in plain = move in_second_in (append_in ∷ [])
next in_second_in c = end_move c
next blank_line nul = move final (term ∷ [])
next blank_line blank = move blank_line []
next blank_line plain = move in_command (append ∷ [])
next _ _ = stuck

abbrev pub action_code : Action → ℕ
action_code append = 0
action_code append_in = 1
action_code append_out = 2
action_code new = 3
action_code term = 4
action_code pipe = 5
action_code bg = 6
action_code seq = 7

abbrev pub state_code : State → ℕ
state_code error = 0
state_code start = 1
state_code in_command = 2
state_code after_bg = 3
state_code after_separator = 4
state_code before_command = 5
state_code before_in = 6
state_code in_in = 7
state_code before_second_out = 8
state_code in_second_out = 9
state_code before_out = 10
state_code in_out = 11
state_code before_second_in = 12
state_code in_second_in = 13
state_code blank_line = 14
state_code final = 15

-- states in which the machine goes on: the loop leaves at `error`
abbrev pub is_error : State → Bool
is_error error = true
is_error _ = false
