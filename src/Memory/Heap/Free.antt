-- ===== src/Memory/Heap/Free.antt =====
-- mem_heap_free of src/kernel/mem/heap/heap.c gives an object back to the node that its slab names.
use mathlib.Core.Path.{subst}
use ricerca.Common.{
  ℕ, ◌+◌, ◌^◌, ◌≤◌, ◌<◌, ◌≡◌, ◌≢◌, refl, sym, ap, ◌∙◌, true, false, some, ◌∷◌, ◌==◌, ==_refl, arith,
  returns,
}
use ricerca.Memory.SizeOrder.{size_order, slab_orders}
use ricerca.Memory.Phys.Slab.{put}
use ricerca.Memory.Phys.Cover.{spans, held-put}
use ricerca.Memory.Heap.Defs.{Heap, SlabData, put_data, allocate_at, heap_free}
use ricerca.Memory.Heap.Carve.{piece}
use ricerca.Memory.Heap.Slabs.{IsObject, IsSound, data_room}
use ricerca.Memory.Heap.Moves.{put-objects}
use ricerca.Memory.Heap.Node.{allocate_at-some}
use ricerca.Memory.SizeOrder.Bounds.{size_order-IsOrder, slab_sizes}
use ricerca.Memory.Heap.Serve.{gives, allocate_from_slab-some, data_of-put, data_of-put_other}

-- Node id has an object back: it counts as free, is the first of its list, and no other node's data
-- is touched.
pub record Returned (h : Heap) (id order mem : ℕ) (h' : Heap) : Type 0 where
  pub sound : IsSound h'.owner id (h'.data_of id)
  pub account :
      (p : ℕ) → data_room (h'.data_of id) p ≡ data_room (h.data_of id) p + spans mem (2 ^ order) p
  pub elsewhere : (i : ℕ) → i ≢ id → h'.data_of i ≡ h.data_of i
  pub first : (h'.data_of id).free_lists order ≡ mem ∷ (h.data_of id).free_lists order

abbrev with_object : (order mem : ℕ) → SlabData → SlabData
with_object order mem d = record d {
  free_lists = put order (mem ∷ d.free_lists order) d.free_lists;
}

put-Returned :
    (h : Heap) (id order mem : ℕ)
    → 4 ≤ order
    → order < slab_orders
    → IsSound h.owner id (h.data_of id)
    → IsObject h.owner id order mem
    → Returned h id order mem (put_data id (with_object order mem (h.data_of id)) h)
put-Returned h id order mem lo hi ok is =
    let d = h.data_of id in
    let at = data_of-put id (with_object order mem d) h in
    record {
      sound = subst (IsSound h.owner id) (sym at) (record {
        objects = λ i l u.
            put-objects (IsObject h.owner id) order i (mem ∷ d.free_lists order) d.free_lists
              (piece is (ok.objects order lo hi)) (ok.objects i l u);
        unused = ok.unused;
      });
      account = λ p. omega (
        arith,
        ap (λ x. data_room x p) at,
        held-put slab_orders order (mem ∷ d.free_lists order) d.free_lists p hi,
      );
      elsewhere = λ i ne. data_of-put_other id i (with_object order mem d) h ne;
      first = ap (λ (x : SlabData). x.free_lists order) at ∙ rw (==_refl order) refl;
    }

-- A freed object goes to the node that its slab names, and is what that node gives next.
pub heap_free-Returned :
    (win fuel mem size : ℕ) (h : Heap) (id : ℕ)
    → size ≤ 2048
    → IsSound h.owner id (h.data_of id)
    → IsObject h.owner id (size_order size slab_orders) mem
    → (h' : Heap) × (heap_free win mem size h ≡ returns true h')
      × Returned h id (size_order size slab_orders) mem h'
      × (h'' : Heap) × (allocate_at win fuel (size_order size slab_orders) id h'
          ≡ returns (some mem) h'')
unfolding heap_free
heap_free-Returned win fuel mem size h id small ok is =
    let order = size_order size slab_orders in
    let lo = (size_order-IsOrder size slab_orders (omega arith) (omega arith)).above in
    let hi = (slab_sizes size).0 small in
    let not_large : (order == slab_orders) ≡ false = ground arith in
    let h' = put_data id (with_object order mem (h.data_of id)) h in
    let back = put-Returned h id order mem lo hi ok is in
    let freed : heap_free win mem size h ≡ returns true h' =
      rw not_large
        (ap (λ i. returns true (put_data i (with_object order mem (h.data_of i)) h)) is.owned) in
    (
      h',
      freed,
      back,
      gives id order ((h.data_of id).free_lists order) (h'.data_of id) h',
      allocate_at-some win fuel id order h' mem
          (gives id order ((h.data_of id).free_lists order) (h'.data_of id) h')
          (allocate_from_slab-some id order mem ((h.data_of id).free_lists order) h' back.first),
    )
