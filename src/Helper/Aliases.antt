-- ===== src/Helper/Aliases.antt =====
-- `expandAlias` of src/helper.c over the aliases. The strings in arrays of BUFSIZE + 1 bytes are
-- their bytes, and a `strcat` past the end of such an array is a fault. The loop is given one round
-- more than there are aliases.
pub mod Ends
pub mod FirstWord
pub mod Fits
pub mod Outcomes
pub mod Rewriting
use redshell.Alias.Table.{HashTable}
use redshell.Alias.{Alias, get_alias, release_aliases}
use redshell.Base.{
  ℕ, zero, suc, ◌+◌, Option, none, some, List, [], ◌∷◌, ◌++◌, Bytes, leb, ◌==◌, if◌then◌else◌,
  length, take, before_byte, rest_of, Run, Fault, out_of_bounds, out_of_fuel, ok, fault, ◌>>=◌,
}
use redshell.Parser.Buffer.{buf_size}

-- `strcat(s, t)`, where `s` is in such an array
unfoldable pub concatenate : Bytes → Bytes → Run Bytes
concatenate s t = if leb (length s + length t) buf_size then ok (s ++ t) else fault out_of_bounds

abbrev pub command_word : Bytes → Bytes
command_word = before_byte b' '

abbrev pub arguments : Bytes → Bytes
arguments = rest_of b' '

-- "copy back the rest of the command"
unfoldable pub copy_back : Bytes → Bytes → Run Bytes
copy_back [] command = ok (take buf_size command)
copy_back (c ∷ final) command = concatenate (c ∷ final) (arguments command)

module _ (h : HashTable Alias) where
  open h use {Table, entries}

  -- a round with the result of `getAlias`; `again` is the loop
  unfoldable pub expand_round :
      (Table → Bytes → Bytes → Run (Bytes × Table))
      → Bytes
      → Option Bytes × Table
      → Run (Bytes × Table)
  expand_round again final (none, table) = ok (final, table)
  expand_round again final (some aux, table) = do
    joined ← concatenate (take buf_size aux) (arguments final)
    again table joined (command_word aux)

  -- the `while`
  unfoldable pub expand_loop : ℕ → Table → Bytes → Bytes → Run (Bytes × Table)
  unfolding expand_round
  expand_loop zero table final cmd = fault out_of_fuel
  expand_loop (suc rounds) table final cmd =
      expand_round (expand_loop rounds) final (get_alias h table cmd)

  unfoldable pub expand_alias : Table → Bytes → Run (Bytes × Table)
  expand_alias table command = do
    (final, table) ← expand_loop (length (entries table) + 1) table [] (command_word command)
    result ← copy_back final command
    ok (result, release_aliases h table)
