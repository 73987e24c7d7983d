-- ===== src/Memory/Heap/Serve.antt =====
-- mem_heap_alloc_on_behalf at one node (src/kernel/mem/heap/heap.c), and mem_heap_free of what it gives.
use mathlib.Core.Path.{subst}
use ricerca.Common.{
  ℕ, ◌+◌, ◌^◌, ◌≤◌, ◌<◌, ◌≡◌, ◌≢◌, refl, sym, ap, ◌∙◌, none, some, List, [], ◌∷◌, ◌==◌, ==_refl,
  arith, inl, inr, Bool-cases, returns, fault,
}
use ricerca.Memory.SizeOrder.{slab_orders}
use ricerca.Memory.Phys.Cover.{spans}
use ricerca.Memory.Heap.Defs.{
  Heap, SlabData, put_data, set_owner, add_slab, allocate_from_slab, allocate_new,
}
use ricerca.Memory.Heap.Slabs.{IsObject, IsSound, data_room}
use ricerca.Memory.Heap.Moves.{
  taken, with_slab, taken-IsSound, taken-room, with_slab-IsSound, with_slab-room, with_slab-first,
}

-- Heap h gives an object of node id, and is left as h'. What the node has free then, with the object,
-- is no more than it had and `extra`.
pub record Serves (h : Heap) (id order obj : ℕ) (h' : Heap) (extra : ℕ → ℕ) : Type 0 where
  pub sound : IsSound h'.owner id (h'.data_of id)
  pub object : IsObject h'.owner id order obj
  pub account :
      (p : ℕ)
      → data_room (h'.data_of id) p + spans obj (2 ^ order) p ≤ data_room (h.data_of id) p + extra p
  pub elsewhere : (i : ℕ) → i ≢ id → h'.data_of i ≡ h.data_of i

-- The heap after the first object of a list has been taken from the data d.
abbrev pub gives : (id order : ℕ) (next : List ℕ) → SlabData → Heap → Heap
gives id order next d h = put_data id (taken order next d) h

pub data_of-put : (id : ℕ) (d : SlabData) (h : Heap) → (put_data id d h).data_of id ≡ d
data_of-put id d h = rw (==_refl id) refl

pub data_of-put_other :
    (id i : ℕ) (d : SlabData) (h : Heap) → i ≢ id → (put_data id d h).data_of i ≡ h.data_of i
data_of-put_other id i d h ne = elim (Bool-cases (i == id)) [
  | inl same ↦ absurd (ne (ground arith))
  | inr other ↦ rw other refl
]

pub allocate_from_slab-some :
    (id order obj : ℕ) (next : List ℕ) (h : Heap)
    → (h.data_of id).free_lists order ≡ obj ∷ next
    → allocate_from_slab id order h ≡ some (obj, gives id order next (h.data_of id) h)
unfolding allocate_from_slab
allocate_from_slab-some id order obj next h e =
    ap (λ list. elim list [ [] ↦ none | o ∷ n ↦ some (o, gives id order n (h.data_of id) h) ]) e

-- A service after a step that has added `extra` to what the node has free.
pub later-Serves :
    {h g h' : Heap} {id order obj : ℕ} {extra more : ℕ → ℕ}
    → ((p : ℕ) → data_room (g.data_of id) p ≤ data_room (h.data_of id) p + more p)
    → ((p : ℕ) → extra p ≡ 0)
    → ((i : ℕ) → i ≢ id → g.data_of i ≡ h.data_of i)
    → Serves g id order obj h' extra
    → Serves h id order obj h' more
later-Serves less none_extra same s = record {
  sound = s.sound;
  object = s.object;
  account = λ p. omega (arith, s.account p, less p, none_extra p);
  elsewhere = λ i ne. s.elsewhere i ne ∙ same i ne;
}

add_slab-data_of :
    (id order slab : ℕ) (slabs : List ℕ) (h : Heap)
    → (add_slab id order slab slabs h).data_of id ≡ with_slab order slab slabs (h.data_of id)
unfolding add_slab
add_slab-data_of id order slab slabs h =
    data_of-put id (with_slab order slab slabs (h.data_of id)) h

add_slab-elsewhere :
    (id order slab : ℕ) (slabs : List ℕ) (h : Heap) (i : ℕ)
    → i ≢ id
    → (add_slab id order slab slabs h).data_of i ≡ h.data_of i
unfolding add_slab
add_slab-elsewhere id order slab slabs h i ne =
    data_of-put_other id i (with_slab order slab slabs (h.data_of id)) h ne

add_slab-owner :
    (id order slab : ℕ) (slabs : List ℕ) (h : Heap)
    → (add_slab id order slab slabs h).owner ≡ set_owner slab id h.owner
unfolding add_slab
add_slab-owner id order slab slabs h = refl

module _ (id order : ℕ) (lo : 4 ≤ order) (hi : order < slab_orders) where
  -- An object of a list that is not empty.
  pub taken-Serves :
      (obj : ℕ) (next : List ℕ) (h : Heap)
      → IsSound h.owner id (h.data_of id)
      → (h.data_of id).free_lists order ≡ obj ∷ next
      → Serves h id order obj (gives id order next (h.data_of id) h) (λ p. 0)
  taken-Serves obj next h ok e =
      let d = h.data_of id in
      let at : (gives id order next d h).data_of id ≡ taken order next d =
        data_of-put id (taken order next d) h in
      let (sound, object) = taken-IsSound order ok lo hi obj next e in
      record {
        sound = subst (IsSound h.owner id) (sym at) sound;
        object = object;
        account =
            λ p. omega (arith, ap (λ x. data_room x p) at, taken-room order ok lo hi obj next p e);
        elsewhere = λ i ne. data_of-put_other id i (taken order next d) h ne;
      }

  -- An object of a slab that has been unused.
  pub new-Serves :
      (slab : ℕ) (slabs : List ℕ) (h : Heap)
      → IsSound h.owner id (h.data_of id)
      → (h.data_of id).slabs ≡ slab ∷ slabs
      → (obj : ℕ) × (h' : Heap) × (allocate_new id order slab slabs h ≡ returns (some obj) h')
        × Serves h id order obj h' (λ p. 0)
  unfolding allocate_new
  new-Serves slab slabs h ok e =
      let d = h.data_of id in
      let g = add_slab id order slab slabs h in
      let at : g.data_of id ≡ with_slab order slab slabs d =
        add_slab-data_of id order slab slabs h in
      let (obj, next, first) = with_slab-first order ok lo hi slab slabs e in
      let list : (g.data_of id).free_lists order ≡ obj ∷ next =
        ap (λ (x : SlabData). x.free_lists order) at ∙ first in
      let sound : IsSound g.owner id (g.data_of id) =
        subst (λ o. IsSound o id (g.data_of id)) (sym (add_slab-owner id order slab slabs h))
          (subst (IsSound (set_owner slab id h.owner) id) (sym at)
            (with_slab-IsSound order ok lo hi slab slabs e)) in
      (
        obj,
        gives id order next (g.data_of id) g,
        ap (λ r. elim r [ none ↦ fault | some x ↦ returns (some x.0) x.1 ])
            (allocate_from_slab-some id order obj next g list),
        later-Serves
            (λ p.
              omega
                (arith, ap (λ x. data_room x p) at, with_slab-room order ok lo hi slab slabs e p))
            (λ p. refl) (add_slab-elsewhere id order slab slabs h)
            (taken-Serves obj next g sound list),
      )

pub allocate_from_slab-none :
    (id order : ℕ) (h : Heap)
    → (h.data_of id).free_lists order ≡ []
    → allocate_from_slab id order h ≡ none
unfolding allocate_from_slab
allocate_from_slab-none id order h e =
    ap (λ list. elim list [ [] ↦ none | o ∷ n ↦ some (o, gives id order n (h.data_of id) h) ]) e
