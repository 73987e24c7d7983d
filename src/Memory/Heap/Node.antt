-- ===== src/Memory/Heap/Node.antt =====
-- mem_heap_alloc_on_behalf at one node (src/kernel/mem/heap/heap.c): what it gives on every path.
use mathlib.Core.Path.{subst}
use ricerca.Common.{
  ◌+◌, ◌^◌, ◌≤◌, ℕ, ◌+◌, ◌%◌, ◌≤◌, ◌<◌, ◌≡◌, refl, sym, ap, ◌∙◌, Bool, true, false, Option, none,
  some, List, [], ◌∷◌, size_mod, arith, inl, inr, List-cases, Outcome, returns, suspended, fault,
}
use ricerca.Memory.SizeOrder.{slab_orders}
use ricerca.Memory.Phys.Cover.{spans}
use ricerca.Memory.Phys.Nodes.{Phys, alloc_specific}
use ricerca.Memory.Heap.Defs.{
  Heap, SlabData, slab_size, chunk_size, put_data, allocate_from_slab, allocate_new, chunk_slabs,
  allocate_new_slabs_chunk, allocate_at,
}
use ricerca.Memory.Heap.Slabs.{IsSound, data_room}
use ricerca.Memory.Heap.Moves.{chunk-room, chunk-first, chunk-IsSound}
use ricerca.Memory.Heap.Serve.{
  Serves, later-Serves, allocate_from_slab-none, allocate_from_slab-some, data_of-put,
  data_of-put_other, taken-Serves, new-Serves,
}

-- No two of the free objects and slabs of a node share an address.
abbrev pub IsApart : SlabData → Type 0
IsApart d = (p : ℕ) → data_room d p ≤ 1

-- No free object or slab that is left shares an address with the object that is given, or with another.
abbrev pub IsExclusive : (order obj : ℕ) → SlabData → Type 0
IsExclusive order obj d = (p : ℕ) → data_room d p + spans obj (2 ^ order) p ≤ 1

module _ (win fuel id order : ℕ) (h : Heap) where
  -- What the node does: an object of its own memory, or of a new chunk, or what the physical
  -- allocator answers where it gives no chunk.
  pub data Answer : Outcome Heap (Option ℕ) → Type 0 where
    own :
        {obj : ℕ} {h' : Heap}
        → Serves h id order obj h' (λ p. 0)
        → IsExclusive order obj (h'.data_of id)
        → Answer (returns (some obj) h')
    of_chunk :
        {obj backing : ℕ} {h' : Heap} {p : Phys}
        → alloc_specific fuel chunk_size id h.phys ≡ returns (some backing) p
        → Serves h id order obj h' (spans (win + backing) chunk_size)
        → IsExclusive order obj (h'.data_of id)
        → Answer (returns (some obj) h')
    no_memory :
        {p : Phys}
        → alloc_specific fuel chunk_size id h.phys ≡ returns none p
        → Answer (returns none (record h { phys = p }))
    going_on :
        {p : Phys}
        → alloc_specific fuel chunk_size id h.phys ≡ suspended p
        → Answer (suspended (record h { phys = p }))
    lost : alloc_specific fuel chunk_size id h.phys ≡ fault → Answer fault

  -- The part of the loop's body behind a failed look at the free list and the slabs.
  abbrev chunk_path : Outcome Heap Bool → Outcome Heap (Option ℕ)
  chunk_path (returns true h') = elim ((h'.data_of id).slabs) [
    | slab ∷ slabs ↦ allocate_new id order slab slabs h'
    | [] ↦ fault
  ]
  chunk_path (returns false h') = returns none h'
  chunk_path (suspended h') = suspended h'
  chunk_path fault = fault

  -- The heap behind mem_allocate_new_slabs_chunk.
  abbrev chunked : (backing : ℕ) → Phys → Heap
  chunked backing p =
      put_data id (record (h.data_of id) { slabs = chunk_slabs win backing (h.data_of id).slabs })
        (record h { phys = p })

  abbrev after_phys : Outcome Phys (Option ℕ) → Outcome Heap Bool
  after_phys (returns none p) = returns false (record h { phys = p })
  after_phys (returns (some backing) p) = returns true (chunked backing p)
  after_phys (suspended p) = suspended (record h { phys = p })
  after_phys fault = fault

  -- The part behind a failed look at the free list, on the slabs, and the whole body.
  abbrev slab_path : List ℕ → Outcome Heap (Option ℕ)
  slab_path [] = chunk_path (after_phys (alloc_specific fuel chunk_size id h.phys))
  slab_path (slab ∷ slabs) = allocate_new id order slab slabs h

  abbrev path : Option (ℕ × Heap) → Outcome Heap (Option ℕ)
  path (some (obj, h')) = returns (some obj) h'
  path none = slab_path (h.data_of id).slabs

  pub allocate_at-some :
      (obj : ℕ) (h' : Heap)
      → allocate_from_slab id order h ≡ some (obj, h')
      → allocate_at win fuel order id h ≡ returns (some obj) h'
  unfolding allocate_at allocate_new_slabs_chunk
  allocate_at-some obj h' e = ap path e

  chunk_path-Answer :
      4 ≤ order
      → order < slab_orders
      → win % slab_size ≡ 0
      → ((backing : ℕ) (p : Phys)
          → alloc_specific fuel chunk_size id h.phys ≡ returns (some backing) p
          → win + backing + chunk_size < size_mod)
      → ((backing : ℕ) (p : Phys)
          → alloc_specific fuel chunk_size id h.phys ≡ returns (some backing) p
          → (q : ℕ) → data_room (h.data_of id) q + spans (win + backing) chunk_size q ≤ 1)
      → IsSound h.owner id (h.data_of id)
      → (o : Outcome Phys (Option ℕ)) → alloc_specific fuel chunk_size id h.phys ≡ o
      → Answer (chunk_path (after_phys o))
  chunk_path-Answer lo hi al fit new ok (returns none p) e = no_memory e
  chunk_path-Answer lo hi al fit new ok (suspended p) e = going_on e
  chunk_path-Answer lo hi al fit new ok fault e = lost e
  chunk_path-Answer lo hi al fit new ok (returns (some backing) p) e =
      let d = h.data_of id in
      let d' : SlabData = record d { slabs = chunk_slabs win backing d.slabs } in
      let g = chunked backing p in
      let at : g.data_of id ≡ d' = data_of-put id d' (record h { phys = p }) in
      let (slab, slabs, first) = chunk-first win backing al (fit backing p e) d.slabs in
      let list : (g.data_of id).slabs ≡ slab ∷ slabs = ap (λ (x : SlabData). x.slabs) at ∙ first in
      let (obj, h', is, serves) =
        new-Serves id order lo hi slab slabs g
          (subst (IsSound h.owner id) (sym at) (chunk-IsSound win backing al (fit backing p e) ok))
          list in
      subst Answer
        (sym (
          ap (λ l. elim l [ slab ∷ slabs ↦ allocate_new id order slab slabs g | [] ↦ fault ]) list
          ∙ is))
        (let all : Serves h id order obj h' (spans (win + backing) chunk_size) =
            later-Serves
              (λ q. omega (
                arith,
                ap (λ x. data_room x q) at,
                chunk-room win backing al (fit backing p e) d q,
              ))
              (λ q. refl) (λ i ne. data_of-put_other id i d' (record h { phys = p }) ne) serves in
          of_chunk e all (λ q. omega (arith, all.account q, new backing p e q)))

  own-Answer :
      {obj : ℕ} {h' : Heap}
      → Serves h id order obj h' (λ p. 0)
      → IsApart (h.data_of id)
      → Answer (returns (some obj) h')
  own-Answer serves apart = own serves (λ p. omega (arith, serves.account p, apart p))

  -- For an order that slabs have, in a window at a multiple of a slab, at a sound node of which no
  -- two free objects or slabs share an address, and where the chunks that the physical allocator
  -- gives lie in the window and share none with them, an object that is given lies behind its
  -- slab's header and inside the slab, at a multiple of its size, and shares no address with what
  -- the node still has free, which still shares none among itself; other nodes are as they were.
  -- Otherwise the answer is that of the physical allocator where it gives no chunk.
  pub allocate_at-Answer :
      4 ≤ order
      → order < slab_orders
      → win % slab_size ≡ 0
      → ((backing : ℕ) (p : Phys)
          → alloc_specific fuel chunk_size id h.phys ≡ returns (some backing) p
          → win + backing + chunk_size < size_mod)
      → ((backing : ℕ) (p : Phys)
          → alloc_specific fuel chunk_size id h.phys ≡ returns (some backing) p
          → (q : ℕ) → data_room (h.data_of id) q + spans (win + backing) chunk_size q ≤ 1)
      → IsSound h.owner id (h.data_of id)
      → IsApart (h.data_of id)
      → Answer (allocate_at win fuel order id h)
  unfolding allocate_at allocate_new_slabs_chunk
  allocate_at-Answer lo hi al fit new ok apart =
      elim (List-cases ((h.data_of id).free_lists order)) [
        | inr (obj, next, e) ↦
            subst Answer (sym (ap path (allocate_from_slab-some id order obj next h e)))
              (own-Answer (taken-Serves id order lo hi obj next h ok e) apart)
        | inl empty ↦
            subst Answer (sym (ap path (allocate_from_slab-none id order h empty)))
              (elim (List-cases ((h.data_of id).slabs)) [
                | inl no_slab ↦ subst Answer (sym (ap slab_path no_slab)) (
                    chunk_path-Answer lo hi al fit new ok (alloc_specific fuel chunk_size id h.phys)
                      refl)
                | inr (slab, slabs, e) ↦
                    let (obj, h', is, serves) = new-Serves id order lo hi slab slabs h ok e in
                    subst Answer (sym (ap slab_path e ∙ is)) (own-Answer serves apart)
              ])
      ]
