-- ===== src/Memory/Dynarray.antt =====
-- src/kernel/lib/dynarray.h: an array is its elements (`count` of them) and its capacity. The
-- outcome of the heap allocation that an operation may make is the argument `alloc`.
pub mod Laws
use ricerca.Common.{
  ℕ, zero, suc, ◌+◌, ◌-◌, ◌*◌, ◌/◌, ◌%◌, ◌≡◌, ◌≤◌, ◌<◌, refl, Bool, true, false, Option, none, some,
  List, [], ◌∷◌, ◌++◌, ◌==◌, ltb, leb, if◌then◌else◌, length, arith, size_mod,
}
use ricerca.Memory.SizeOrder.{realloc_succeeds}

pub record Dynarray {ℓ} (A : Type ℓ) : Type ℓ where
  pub items : List A
  pub capacity : ℕ

-- DYNARRAY_GROWTH_DELTA and sizeof(struct dynarray_meta)
abbrev pub growth_delta : ℕ
growth_delta = 16

abbrev pub meta_size : ℕ
meta_size = 16

-- align_down and align_up of kernel/misc/misc.h
unfoldable pub align_down : ℕ → ℕ → ℕ
align_down val align = val / align * align % size_mod

unfoldable pub align_up : ℕ → ℕ → ℕ
unfolding align_down
align_up val align = align_down ((val + align + size_mod - 1) % size_mod) align

-- dynarray_new
unfoldable pub new {ℓ} : {A : Type ℓ} → (alloc : Bool) → Option (Dynarray A)
new alloc = if alloc then some (record { items = []; capacity = 0 }) else none

-- The bytes of an array with so many slots of `elem` bytes.
total_size : (elem slots : ℕ) → ℕ
total_size elem slots = (meta_size + slots * elem) % size_mod

module _ {ℓ} {A : Type ℓ} where
  -- dynarray_len
  abbrev pub len : Dynarray A → ℕ
  len d = length d.items

  -- dynarray_change_cap, for elements of `elem` bytes
  unfoldable pub change_cap :
      (alloc : Bool) (elem : ℕ) (newcap : ℕ) → Dynarray A → Option (Dynarray A)
  unfolding total_size
  change_cap alloc elem newcap d =
      if realloc_succeeds alloc (total_size elem newcap) (total_size elem d.capacity)
      then some (record d { capacity = newcap })
      else if leb newcap d.capacity
      then some d
      else none

  -- dynarray_push
  unfoldable pub push : (alloc : Bool) (elem : ℕ) → A → Dynarray A → Option (Dynarray A)
  push alloc elem a d =
      if ltb (len d) d.capacity
      then some (record d { items = d.items ++ a ∷ [] })
      else elim (change_cap alloc elem (d.capacity + growth_delta) d) [
        | none ↦ none
        | some d' ↦ some (record d' { items = d'.items ++ a ∷ [] })
      ]

  -- The first `n` elements; slots behind the old ones hold what the memory held before.
  unfoldable pub refit : (junk : A) → ℕ → List A → List A
  refit junk zero xs = []
  refit junk (suc n) [] = junk ∷ refit junk n []
  refit junk (suc n) (x ∷ xs) = x ∷ refit junk n xs

  -- dynarray_resize
  unfoldable pub resize :
      (alloc : Bool) (elem : ℕ) (junk : A) (newsize : ℕ) → Dynarray A → Option (Dynarray A)
  unfolding refit
  resize alloc elem junk newsize d =
      let newcap = align_up newsize growth_delta in
      if newcap == d.capacity
      then some (record d { items = refit junk newsize d.items })
      else elim (change_cap alloc elem newcap d) [
        | none ↦ none
        | some d' ↦ some (record d' { items = refit junk newsize d'.items })
      ]
