-- ===== src/Text/Bounds.antt =====
-- Printing stays inside its buffer, and comparison finds equal areas.
use ricerca.Common.{
  ℕ, zero, suc, ◌-◌, ◌/◌, ◌≡◌, ◌≤◌, ◌==◌, refl, List, [], ◌∷◌, ◌++◌, length, length-append, arith,
  Bool-cases, inl, inr,
}
use ricerca.Text.{equal, memcmp, put_digits, pad, reverse, putui, Int64, pos, negsuc, puti}

length-put_digits : (room base val : ℕ) → length (put_digits room base val) ≤ room
unfolding put_digits
length-put_digits zero base val = omega arith
length-put_digits (suc room) base val = elim (Bool-cases (val / base == 0)) [
  | inl e ↦ rw e (omega arith)
  | inr e ↦ rw e (omega (arith, length-put_digits room base (val / base)))
]

length-pad : (left width written : ℕ) → length (pad left width written) ≤ left
unfolding pad
length-pad zero width written = omega arith
length-pad (suc left) width written = ground (arith, length-pad left width (suc written))

length-reverse : (cs : List ℕ) → length (reverse cs) ≡ length cs
unfolding reverse
length-reverse [] = refl
length-reverse (c ∷ cs) = omega (arith, length-reverse cs, length-append (reverse cs) (c ∷ []))

pub length-putui : (val size base width : ℕ) → length (putui val size base width) ≤ size
unfolding putui
length-putui val size base width =
    let buf = put_digits size base val in
    let zeroes = pad (size - length buf) width (length buf) in
    omega (
      arith,
      length-reverse (buf ++ zeroes),
      length-append buf zeroes,
      length-put_digits size base val,
      length-pad (size - length buf) width (length buf),
    )

-- Printing a number, with its sign and whatever the base, writes no more bytes than the buffer has.
pub length-puti : (n : Int64) (size base : ℕ) → length (puti n size base) ≤ size
unfolding puti
length-puti (pos n) size base = length-putui n size base 0
length-puti (negsuc n) zero base = omega arith
length-puti (negsuc n) (suc size) base = omega (arith, length-putui (suc n) size base 0)

-- Two areas of the same length that compare as 0 are the same.
pub memcmp-equal : (xs ys : List ℕ) → length xs ≡ length ys → memcmp xs ys ≡ equal → xs ≡ ys
unfolding memcmp
memcmp-equal [] [] h e = refl
memcmp-equal [] (y ∷ ys) h e = absurd (omega (arith, h))
memcmp-equal (x ∷ xs) [] h e = absurd (omega (arith, h))
memcmp-equal (x ∷ xs) (y ∷ ys) h e =
    let rest : memcmp xs ys ≡ equal → xs ≡ ys = memcmp-equal xs ys (omega (arith, h)) in
    ground (arith, e, rest)
