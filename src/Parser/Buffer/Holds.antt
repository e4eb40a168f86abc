-- ===== src/Parser/Buffer/Holds.antt =====
-- What a buffer holds as a string, and that the operations on buffers stay within the array.
use native.Mathlib.Nat.{add-zero, zero-add, add_assoc, add_comm}
use native.Mathlib.Numerals.{add-one}
use redshell.Base.{
  ℕ, zero, suc, ◌+◌, ◌≤◌, ◌<◌, ◌≡◌, refl, ◌≢◌, [], ◌∷◌, ◌++◌, Bytes, ltb→lt, arith, length, get_or,
  All, length-append, ok, Bool-cases, inl, inr, ltb, if◌then◌else◌, ◌==◌, false,
}
use redshell.Parser.Buffer.{buf_size, Cells, Buffer, write, append_byte, reset, read_from, c_string}

abbrev pub NonZero : ℕ → Type 0
NonZero c = c ≢ 0

-- the array holds the bytes of `xs` and a terminator behind them
pub record Holds (b : Buffer) (xs : Bytes) : Type 0 where
  pub len : b.len ≡ length xs
  pub fits : length xs ≤ buf_size
  pub text : All NonZero xs
  pub cells : (i : ℕ) → i ≤ length xs → b.cells i ≡ get_or xs i 0

read_from_lem :
    (left : ℕ) (cells : Cells) (i : ℕ) (xs : Bytes)
    → All NonZero xs
    → ((j : ℕ) → j ≤ length xs → cells (i + j) ≡ get_or xs j 0)
    → length xs < left
    → read_from left cells i ≡ ok xs
unfolding read_from
read_from_lem zero cells i xs text agree room = absurd (omega arith)
read_from_lem (suc left) cells i [] text agree room =
    let here : cells i ≡ 0 = rw add-zero at (agree 0 (omega arith)) in rw here
read_from_lem (suc left) cells i (x ∷ xs) text agree room =
    let here : cells i ≡ x = rw add-zero at (agree 0 (omega arith)) in
    let rest : read_from left cells (i + 1) ≡ ok xs =
      read_from_lem left cells (i + 1) xs text.1
        (λ j h. rw (add_assoc, add_comm 1 j, add-one) (agree (suc j) (omega arith)))
        (omega arith) in
    let live : (x == 0) ≡ false = ground arith in rw (here, live, rest)

pub c_string-Holds : {b : Buffer} {xs : Bytes} → Holds b xs → c_string b ≡ ok xs
unfolding c_string
c_string-Holds {b} {xs} h =
    read_from_lem (buf_size + 1) b.cells 0 xs h.text (λ j k. rw zero-add (h.cells j k))
      (omega (arith, h.fits))

pub get_or-append_left :
    (xs ys : Bytes) (i : ℕ) → i < length xs → get_or (xs ++ ys) i 0 ≡ get_or xs i 0
get_or-append_left [] ys i h = absurd (omega arith)
get_or-append_left (x ∷ xs) ys zero h = refl
get_or-append_left (x ∷ xs) ys (suc i) h = get_or-append_left xs ys i (omega arith)

get_or-append_at : (xs : Bytes) (c : ℕ) → get_or (xs ++ c ∷ []) (length xs) 0 ≡ c
get_or-append_at [] c = refl
get_or-append_at (x ∷ xs) c = get_or-append_at xs c

get_or_end : (xs : Bytes) → get_or xs (length xs) 0 ≡ 0
get_or_end [] = refl
get_or_end (x ∷ xs) = get_or_end xs

pub All-append_one : (xs : Bytes) (c : ℕ) → All NonZero xs → NonZero c → All NonZero (xs ++ c ∷ [])
All-append_one [] c h n = (n, tt)
All-append_one (x ∷ xs) c h n = (h.0, All-append_one xs c h.1 n)

-- the text after one more byte: nothing is added to a full buffer
unfoldable pub appended : Bytes → ℕ → Bytes
appended xs c = if ltb (length xs) buf_size then xs ++ c ∷ [] else xs

-- the buffer after the two stores of an append
abbrev written : Buffer → ℕ → Buffer
written b c = record { cells = write (write b.cells b.len c) (b.len + 1) 0; len = b.len + 1 }

written-cells :
    {b : Buffer} {xs : Bytes} (c : ℕ)
    → Holds b xs
    → (i : ℕ) → i ≤ length (xs ++ c ∷ [])
    → (written b c).cells i ≡ get_or (xs ++ c ∷ []) i 0
unfolding write
written-cells {b} {xs} c h i k = ground (
  arith,
  h.len,
  length-append {0} xs (c ∷ []),
  h.cells i,
  get_or-append_left xs (c ∷ []) i,
  get_or-append_at xs c,
  get_or_end (xs ++ c ∷ []),
)

pub append_byte-Holds :
    {b : Buffer} {xs : Bytes} (c : ℕ)
    → Holds b xs
    → NonZero c
    → (b' : Buffer) × (append_byte b c ≡ ok b') × Holds b' (appended xs c)
unfolding append_byte write appended
append_byte-Holds {b} {xs} c h n = elim (Bool-cases (ltb (length xs) buf_size)) [
  | inr full ↦ (b, rw (h.len, full), rw full h)
  | inl free ↦ (
    written b c,
    ground (arith, h.len),
    rw free (record {
      len = omega (arith, length-append {0} xs (c ∷ []), h.len);
      fits = omega (arith, length-append {0} xs (c ∷ []), ltb→lt _ _ free);
      text = All-append_one xs c h.text n;
      cells = written-cells c h;
    }),
  )
]

pub reset-Holds : (b : Buffer) → (b' : Buffer) × (reset b ≡ ok b') × Holds b' []
unfolding reset write
reset-Holds b = (
  record { cells = write b.cells 0 0; len = 0 },
  refl,
  record { len = refl; fits = omega arith; text = tt; cells = λ i h. ground arith },
)
