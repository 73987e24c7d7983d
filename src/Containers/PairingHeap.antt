-- ===== src/Containers/PairingHeap.antt =====
-- src/kernel/lib/pairing_heap.h. A hook is its element with its two pointers, `child` and `next`;
-- a NULL pointer is `nil`. The comparator is the callback `cmp`.
pub mod Order
mod Tests
use ricerca.Common.{Bool, Option, none, some, if◌then◌else◌}

pub data Hook {ℓ} (A : Type ℓ) : Type ℓ where
  nil : Hook A
  node : A → (child next : Hook A) → Hook A

module _ {ℓ} {A : Type ℓ} (cmp : A → A → Bool) where
  -- _pairing_heap_meld: the larger root goes to the front of the other's children; the smaller one
  -- keeps its `next`.
  unfoldable pub meld : Hook A → Hook A → Hook A
  meld nil heap2 = heap2
  meld (node a c1 n1) nil = node a c1 n1
  meld (node a c1 n1) (node b c2 n2) =
      if cmp a b then node a (node b c2 c1) n1 else node b (node a c1 c2) n2

  -- _pairing_heap_treeify
  unfoldable pub treeify : Hook A → Hook A
  treeify nil = nil
  treeify (node a c nil) = node a c nil
  treeify (node a c (node b d nn)) = meld (meld (node a c nil) (node b d nil)) (treeify nn)

  -- pairing_heap_insert, on the root
  unfoldable pub insert : Hook A → A → Hook A
  insert root x = meld root (node x nil nil)

  -- pairing_heap_remove_min: the removed element and the new root
  unfoldable pub remove_min : Hook A → Option A × Hook A
  remove_min nil = (none, nil)
  remove_min (node a c n) = (some a, treeify c)

-- pairing_heap_get_min
unfoldable pub get_min {ℓ} : {A : Type ℓ} → Hook A → Option A
get_min nil = none
get_min (node a c n) = some a
