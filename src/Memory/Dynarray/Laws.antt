-- ===== src/Memory/Dynarray/Laws.antt =====
-- What pushing and resizing do to the elements and the capacity.
use native.Mathlib.Decide.{dec_lt}
use ricerca.Common.{
  ℕ, zero, suc, ◌+◌, ◌*◌, ◌≤◌, ◌<◌, ◌≡◌, refl, ap, ◌≢◌, ◌⊎◌, inl, inr, Bool, true, false, none,
  some, List, [], ◌∷◌, ◌++◌, length, length-append, get_elem?, arith, size_max,
}
use ricerca.Memory.SizeOrder.{realloc_succeeds}
use ricerca.Memory.Dynarray.{Dynarray, len, push, resize, refit, change_cap, align_up, growth_delta}

align_up-le : (n : ℕ) → n + 15 ≤ size_max → n ≤ align_up n growth_delta
unfolding align_up
align_up-le n h = omega arith

module _ {ℓ} {A : Type ℓ} where
  -- `count` is at most `capacity`.
  abbrev pub IsValid : Dynarray A → Type 0
  IsValid d = len d ≤ d.capacity

  pub push-items :
      (alloc : Bool) (elem : ℕ) (a : A) (d : Dynarray A) {d' : Dynarray A}
      → push alloc elem a d ≡ some d'
      → d'.items ≡ d.items ++ a ∷ []
  unfolding push change_cap
  push-items alloc elem a d e = ground arith

  -- On success the new element is the last one, nothing else changes, and there is room for it.
  push-some :
      (alloc : Bool) (elem : ℕ) (a : A) (d : Dynarray A) {d' : Dynarray A}
      → IsValid d
      → push alloc elem a d ≡ some d'
      → (d'.items ≡ d.items ++ a ∷ []) × IsValid d'
  unfolding push change_cap
  push-some alloc elem a d v e =
      (push-items alloc elem a d e, ground (arith, length-append d.items (a ∷ [])))

  -- With memory, and a size that does not wrap, a push succeeds.
  pub push_succeeds :
      (elem : ℕ) (a : A) (d : Dynarray A)
      → 16 + (d.capacity + 16) * elem ≤ size_max
      → push true elem a d ≢ none
  unfolding push change_cap realloc_succeeds
  push_succeeds elem a d fits e = ground arith

  -- A push that fails is one into a full array that cannot grow.
  pub push-none :
      (alloc : Bool) (elem : ℕ) (a : A) (d : Dynarray A)
      → push alloc elem a d ≡ none
      → (d.capacity ≤ len d) × ((alloc ≡ false) ⊎ (size_max < 16 + (d.capacity + 16) * elem))
  unfolding push change_cap realloc_succeeds
  push-none false elem a d e = (ground (arith, e), inl refl)
  push-none true elem a d e = (
    ground (arith, e),
    inr (elim (dec_lt size_max (16 + (d.capacity + 16) * elem)) [
      | yes wraps ↦ wraps
      | no fits ↦ absurd (push_succeeds elem a d (omega arith) e)
    ]),
  )

  length-refit : (junk : A) (n : ℕ) (xs : List A) → length (refit junk n xs) ≡ n
  unfolding refit
  length-refit junk zero xs = refl
  length-refit junk (suc n) [] = ap suc (length-refit junk n [])
  length-refit junk (suc n) (x ∷ xs) = ap suc (length-refit junk n xs)

  get_elem?-refit :
      (junk : A) (n i : ℕ) (xs : List A) {a : A}
      → i < n
      → get_elem? xs i ≡ some a
      → get_elem? (refit junk n xs) i ≡ some a
  unfolding refit
  get_elem?-refit junk zero i xs lt e = absurd (omega arith)
  get_elem?-refit junk (suc n) i [] lt e = absurd (ground arith)
  get_elem?-refit junk (suc n) zero (x ∷ xs) lt e = e
  get_elem?-refit junk (suc n) (suc i) (x ∷ xs) lt e = get_elem?-refit junk n i xs (omega arith) e

  -- On success a resize leaves exactly `newsize` elements, keeps those that were there before, and
  -- has room for them all, also where the smaller block could not be allocated.
  pub resize-some :
      (alloc : Bool) (elem : ℕ) (junk : A) (newsize : ℕ) (d : Dynarray A) {d' : Dynarray A}
      → newsize + 15 ≤ size_max
      → resize alloc elem junk newsize d ≡ some d'
      → (len d' ≡ newsize)
        × IsValid d'
        × ((i : ℕ) (a : A)
            → i < newsize
            → get_elem? d.items i ≡ some a
            → get_elem? d'.items i ≡ some a)
  unfolding resize change_cap
  resize-some alloc elem junk newsize d fits e = (
    ground (arith, length-refit junk newsize d.items),
    ground (arith, length-refit junk newsize d.items, align_up-le newsize fits),
    λ i a lt p. ground (arith, get_elem?-refit junk newsize i d.items {a = a} lt p),
  )
