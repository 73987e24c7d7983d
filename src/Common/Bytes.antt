-- ===== src/Common/Bytes.antt =====
-- Memory as a list of bytes: memcpy into and out of it.
use Prim.Native.Nat.{ℕ, zero, suc, ◌+◌, ◌≤◌, ◌<◌}
use mathlib.Core.Path.{◌≡◌, refl, ap}
use mathlib.Core.Logic.{◌⊎◌}
use mathlib.Core.List.{List, [], ◌∷◌}
use native.Mathlib.Omega.{arith}
use ricerca.Common.Lists.{length, get_elem?}

-- The bytes of an object with those from an index on replaced.
unfoldable pub overwrite : List ℕ → (offset : ℕ) (bytes : List ℕ) → List ℕ
overwrite [] offset bytes = []
overwrite (x ∷ xs) (suc offset) bytes = x ∷ overwrite xs offset bytes
overwrite (x ∷ xs) zero [] = x ∷ xs
overwrite (x ∷ xs) zero (b ∷ bytes) = b ∷ overwrite xs zero bytes

unfoldable pub slice : List ℕ → (offset len : ℕ) → List ℕ
slice [] offset len = []
slice (x ∷ xs) (suc offset) len = slice xs offset len
slice (x ∷ xs) zero zero = []
slice (x ∷ xs) zero (suc len) = x ∷ slice xs zero len

pub length-overwrite :
    (mem : List ℕ) (offset : ℕ) (bytes : List ℕ) → length (overwrite mem offset bytes) ≡ length mem
unfolding overwrite
length-overwrite [] offset bytes = refl
length-overwrite (x ∷ xs) (suc offset) bytes = ap suc (length-overwrite xs offset bytes)
length-overwrite (x ∷ xs) zero [] = refl
length-overwrite (x ∷ xs) zero (b ∷ bytes) = ap suc (length-overwrite xs zero bytes)

pub slice-overwrite :
    (mem : List ℕ) (offset : ℕ) (bytes : List ℕ)
    → offset + length bytes ≤ length mem
    → slice (overwrite mem offset bytes) offset (length bytes) ≡ bytes
unfolding overwrite slice
slice-overwrite [] zero [] h = refl
slice-overwrite [] zero (b ∷ bytes) h = absurd (omega (arith, h))
slice-overwrite [] (suc offset) bytes h = absurd (omega (arith, h))
slice-overwrite (x ∷ xs) (suc offset) bytes h = slice-overwrite xs offset bytes (omega (arith, h))
slice-overwrite (x ∷ xs) zero [] h = refl
slice-overwrite (x ∷ xs) zero (b ∷ bytes) h =
    ap (λ t. b ∷ t) (slice-overwrite xs zero bytes (omega (arith, h)))

-- A byte outside the written slice keeps its value.
pub overwrite-outside :
    (mem : List ℕ) (offset : ℕ) (bytes : List ℕ) (i : ℕ)
    → (i < offset) ⊎ (offset + length bytes ≤ i)
    → get_elem? (overwrite mem offset bytes) i ≡ get_elem? mem i
unfolding overwrite
overwrite-outside [] offset bytes i h = refl
overwrite-outside (x ∷ xs) (suc offset) bytes zero h = refl
overwrite-outside (x ∷ xs) (suc offset) bytes (suc i) h =
    overwrite-outside xs offset bytes i (ground (arith, h))
overwrite-outside (x ∷ xs) zero [] i h = refl
overwrite-outside (x ∷ xs) zero (b ∷ bytes) zero h = absurd (ground (arith, h))
overwrite-outside (x ∷ xs) zero (b ∷ bytes) (suc i) h =
    overwrite-outside xs zero bytes i (ground (arith, h))
