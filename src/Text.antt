-- ===== src/Text.antt =====
-- src/kernel/lib/string.c, and the printing of numbers of src/kernel/lib/fmt.c. Characters are numbers
-- below 256.
pub mod Bounds
pub mod Format
pub mod FormatBounds
mod Tests
use ricerca.Common.{
  ℕ, zero, suc, ◌+◌, ◌-◌, ◌*◌, ◌/◌, ◌%◌, Bool, true, false, List, [], ◌∷◌, ◌++◌, ◌==◌, ltb, leb,
  if◌then◌else◌, length,
}

-- The result of memcmp: -1, 0 or 1.
pub data Order : Type 0 where
  minus_one equal one : Order

-- memcmp of two areas of the same length
unfoldable pub memcmp : List ℕ → List ℕ → Order
memcmp [] ys = equal
memcmp (x ∷ xs) [] = equal
memcmp (x ∷ xs) (y ∷ ys) = if ltb y x then minus_one else if ltb x y then one else memcmp xs ys

-- digits[mod]
abbrev pub digit : ℕ → ℕ
digit d = if ltb d 10 then 48 + d else 87 + d

-- The do-while loop of fmt_putui: the digits from the last one on, as far as there is `room`.
unfoldable pub put_digits : (room base val : ℕ) → List ℕ
put_digits zero base val = []
put_digits (suc room) base val =
    digit (val % base)
    ∷ elim (val / base == 0) [ true ↦ [] | false ↦ put_digits room base (val / base) ]

-- The padding loop of fmt_putui: zeroes while the buffer holds less than `width` and `size`.
unfoldable pub pad : (left : ℕ) (width written : ℕ) → List ℕ
pad zero width written = []
pad (suc left) width written = if ltb written width then 48 ∷ pad left width (suc written) else []

-- The loop that reverses the buffer.
unfoldable pub reverse : List ℕ → List ℕ
reverse [] = []
reverse (c ∷ cs) = reverse cs ++ c ∷ []

-- fmt_putui: what it writes to the buffer.
unfoldable pub putui : (val size base width : ℕ) → List ℕ
putui val size base width =
    let buf = put_digits size base val in
    reverse (buf ++ pad (size - length buf) width (length buf))

-- int64_t: a number with a sign; `negsuc n` is -(n + 1).
pub data Int64 : Type 0 where
  pos negsuc : ℕ → Int64

-- fmt_puti
unfoldable pub puti : Int64 → (size base : ℕ) → List ℕ
puti (pos n) size base = putui n size base 0
puti (negsuc n) zero base = []
puti (negsuc n) (suc size) base = 45 ∷ putui (suc n) size base 0
