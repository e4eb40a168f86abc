-- ===== src/Parser/Buffer.antt =====
-- The text buffers of `struct params`: an array of BUFSIZE + 1 bytes and the length used so far.
-- An access outside the array is a fault.
pub mod Holds
use redshell.Base.{
  ℕ, zero, suc, ◌+◌, List, [], ◌∷◌, Bytes, ltb, leb, ◌==◌, if◌then◌else◌, Fault, out_of_bounds, Run,
  ok, fault, ◌>>=◌,
}

-- BUFSIZE of src/common.h
abbrev pub buf_size : ℕ
buf_size = 1024

abbrev pub Cells : Type 0
Cells = ℕ → ℕ

pub record Buffer : Type 0 where
  pub cells : Cells
  pub len : ℕ

unfoldable pub write : Cells → ℕ → ℕ → Cells
write cells i v j = if j == i then v else cells j

-- `cells[i] = v`
unfoldable pub store : Cells → ℕ → ℕ → Run Cells
store cells i v = if leb i buf_size then ok (write cells i v) else fault out_of_bounds

-- `if (len < BUFSIZE) { cells[len++] = c; cells[len] = 0; }`
unfoldable pub append_byte : Buffer → ℕ → Run Buffer
unfolding store
append_byte b c =
    if ltb b.len buf_size
    then (do
      cells ← store b.cells b.len c
      cells ← store cells (b.len + 1) 0
      ok (record { cells = cells; len = b.len + 1 }))
    else ok b

-- `len = 0; cells[0] = 0;`
unfoldable pub reset : Buffer → Run Buffer
unfolding store
reset b = do cells ← store b.cells 0 0; ok (record { cells = cells; len = 0 })

-- the string at `cells + i`, of which `left` bytes lie in the array
unfoldable pub read_from : ℕ → Cells → ℕ → Run Bytes
read_from zero cells i = fault out_of_bounds
read_from (suc left) cells i =
    let rest = read_from left cells (i + 1) in
    if cells i == 0 then ok [] else (rest >>= λ s. ok (cells i ∷ s))

unfoldable pub c_string : Buffer → Run Bytes
unfolding read_from
c_string b = read_from (buf_size + 1) b.cells 0
