-- ===== src/Text/Tests.antt =====
-- Runs of comparing and printing, and the theorems at them.
use ricerca.Common.{ℕ, ◌≡◌, ◌<◌, List, some, arith, refl, [], ◌∷◌, length}
use ricerca.Text.{memcmp, one, puti, putui, negsuc, put_digits, pad, reverse}
use ricerca.Text.Format.{unsigned, kind_of, vsnprintf}
use ricerca.Text.FormatBounds.{accepts, vsnprintf-room}

-- "-42"
puti_run : puti (negsuc 41) 8 10 ≡ 45 ∷ 52 ∷ 50 ∷ []
unfolding puti putui put_digits pad reverse
puti_run = refl

areas_differ : memcmp (1 ∷ 2 ∷ []) (1 ∷ 3 ∷ []) ≡ one
unfolding memcmp
areas_differ = refl

-- "n=%u" with 42 in a buffer of 4 bytes: "n=4"
vsnprintf-room_example :
    (out : List ℕ) × (vsnprintf 4 (110 ∷ 61 ∷ 37 ∷ 117 ∷ []) (unsigned 42 ∷ []) ≡ some out)
    × (length out < 4)
unfolding accepts kind_of
vsnprintf-room_example =
    vsnprintf-room 4 (110 ∷ 61 ∷ 37 ∷ 117 ∷ []) (unsigned 42 ∷ []) (omega arith) refl
