-- ===== src/Memory/Heap/Moves.antt =====
-- What taking an object, adding a slab and adding a chunk do to the data of a node
-- (src/kernel/mem/heap/heap.c).
use mathlib.Core.Path.{subst}
use ricerca.Common.{
  ℕ, ◌+◌, ◌*◌, ◌%◌, ◌^◌, ◌≤◌, ◌<◌, ◌≡◌, sym, ap, List, ◌∷◌, ◌==◌, ==_refl, size_mod, arith, inl,
  inr, Bool-cases, List-cases,
}
use ricerca.Memory.Dynarray.{align_up, align_down}
use ricerca.Memory.SizeOrder.{slab_orders}
use ricerca.Memory.Phys.Slab.{put}
use ricerca.Memory.Phys.Cover.{spans, blocks, held-put}
use ricerca.Memory.Heap.Defs.{SlabData, slab_size, chunk_size, set_owner, chunk_slabs}
use ricerca.Memory.Heap.Carve.{
  AllPieces, no_piece, piece, carve-AllPieces, carve-blocks, IsCut, chunk-IsCut,
}
use ricerca.Memory.Heap.Slabs.{
  IsObject, IsSlab, IsSound, data_room, cut, cut-blocks, cut-objects, cut-first,
}

-- The data of a node after the first object of a list has been taken, and after the first unused
-- slab has been cut.
abbrev pub taken : (order : ℕ) (next : List ℕ) → SlabData → SlabData
taken order next d = record d { free_lists = put order next d.free_lists }

abbrev pub with_slab : (order slab : ℕ) (slabs : List ℕ) → SlabData → SlabData
with_slab order slab slabs d = record {
  free_lists = put order (cut order slab (d.free_lists order)) d.free_lists;
  slabs = slabs;
}

head-of : {P : ℕ → Type 0} {a : ℕ} {list : List ℕ} → AllPieces P (a ∷ list) → P a
head-of (piece p ps) = p

tail-of : {P : ℕ → Type 0} {a : ℕ} {list : List ℕ} → AllPieces P (a ∷ list) → AllPieces P list
tail-of (piece p ps) = ps

map-pieces :
    {P Q : ℕ → Type 0} {list : List ℕ} → ((a : ℕ) → P a → Q a) → AllPieces P list → AllPieces Q list
map-pieces f no_piece = no_piece
map-pieces f (piece {a} p ps) = piece (f a p) (map-pieces f ps)

-- A write to one free list of objects.
pub put-objects :
    (P : ℕ → ℕ → Type 0) (order i : ℕ) (list : List ℕ) (lists : ℕ → List ℕ)
    → AllPieces (P order) list
    → AllPieces (P i) (lists i)
    → AllPieces (P i) (put order list lists i)
put-objects P order i list lists new old = elim (Bool-cases (i == order)) [
  | inl same ↦
      let e : i ≡ order = ground arith in rw same (subst (λ m. AllPieces (P m) list) (sym e) new)
  | inr other ↦ rw other old
]

module _ {owner : ℕ → ℕ} {id : ℕ} {d : SlabData} (order : ℕ) (ok : IsSound owner id d)
    (lo : 4 ≤ order) (hi : order < slab_orders) where
  pub taken-IsSound :
      (obj : ℕ) (next : List ℕ)
      → d.free_lists order ≡ obj ∷ next
      → IsSound owner id (taken order next d) × IsObject owner id order obj
  taken-IsSound obj next e =
      let here = subst (AllPieces (IsObject owner id order)) e (ok.objects order lo hi) in
      (
        record {
          objects = λ i l h.
              put-objects (IsObject owner id) order i next d.free_lists (tail-of here)
                (ok.objects i l h);
          unused = ok.unused;
        },
        head-of here,
      )

  pub taken-room :
      (obj : ℕ) (next : List ℕ) (p : ℕ)
      → d.free_lists order ≡ obj ∷ next
      → data_room (taken order next d) p + spans obj (2 ^ order) p ≡ data_room d p
  taken-room obj next p e =
      omega
        (arith, held-put slab_orders order next d.free_lists p hi, ap (λ xs. blocks order xs p) e)

  module _ (slab : ℕ) (slabs : List ℕ) (e : d.slabs ≡ slab ∷ slabs) where
    pub its_slab : IsSlab slab
    its_slab = head-of (subst (AllPieces IsSlab) e ok.unused)

    pub with_slab-IsSound : IsSound (set_owner slab id owner) id (with_slab order slab slabs d)
    with_slab-IsSound =
        let owned : (i a : ℕ) → IsObject owner id i a → IsObject (set_owner slab id owner) id i a =
          λ i a is. record {
            aligned = is.aligned;
            behind = is.behind;
            inside = is.inside;
            owned = ground (arith, is.owned);
          } in
        record {
          objects = λ i l h.
              put-objects (IsObject (set_owner slab id owner) id) order i
                (cut order slab (d.free_lists order)) d.free_lists
                (cut-objects owner id order slab (d.free_lists order) lo hi its_slab
                  (map-pieces (owned order) (ok.objects order lo hi)))
                (map-pieces (owned i) (ok.objects i l h));
          unused = tail-of (subst (AllPieces IsSlab) e ok.unused);
        }

    pub with_slab-room : (p : ℕ) → data_room (with_slab order slab slabs d) p ≤ data_room d p
    with_slab-room p = omega (
      arith,
      held-put slab_orders order (cut order slab (d.free_lists order)) d.free_lists p hi,
      cut-blocks order slab (d.free_lists order) p lo hi its_slab,
      ap (λ xs. blocks 16 xs p) e,
    )

    pub with_slab-first :
        (obj : ℕ) × (next : List ℕ) × ((with_slab order slab slabs d).free_lists order ≡ obj ∷ next)
    with_slab-first =
        let (obj, next, is) = cut-first order slab (d.free_lists order) lo hi its_slab in
        (obj, next, rw (==_refl order) is)

module _ (win backing : ℕ) (al : win % slab_size ≡ 0)
    (fit : win + backing + chunk_size < size_mod) where
  chunk_end :
      (k : ℕ) × IsCut backing
        (align_up backing slab_size)
        (align_down (backing + chunk_size) slab_size)
        k
  chunk_end = chunk-IsCut backing (omega arith)

  -- The slabs of a chunk cover no more than the chunk.
  chunk-blocks :
      (slabs : List ℕ) (p : ℕ)
      → (blocks 16 (chunk_slabs win backing slabs) p
          ≤ blocks 16 slabs p + spans (win + backing) chunk_size p)
        × (blocks 16 slabs (win + align_up backing slab_size)
            < blocks 16 (chunk_slabs win backing slabs) (win + align_up backing slab_size))
  unfolding chunk_slabs
  chunk-blocks slabs p =
      let (k, c) = chunk_end in
      let begin = align_up backing slab_size in
      let end = align_down (backing + chunk_size) slab_size in
      let ends : win + begin + k * 2 ^ 16 ≡ win + end = omega (arith, c.pieces) in
      (
        ground (
          arith,
          carve-blocks 64 k 16 (win + begin) (win + end) slabs p c.most ends,
          c.starts,
          c.stops,
          c.pieces,
        ),
        ground (
          arith,
          carve-blocks 64 k 16 (win + begin) (win + end) slabs (win + begin) c.most ends,
          c.least,
        ),
      )

  pub chunk-room :
      (d : SlabData) (p : ℕ)
      → data_room (record d { slabs = chunk_slabs win backing d.slabs }) p
        ≤ data_room d p + spans (win + backing) chunk_size p
  chunk-room d p = omega (arith, (chunk-blocks d.slabs p).0)

  pub chunk-first :
      (slabs : List ℕ)
      → (slab : ℕ) × (rest : List ℕ) × (chunk_slabs win backing slabs ≡ slab ∷ rest)
  chunk-first slabs =
      let q = win + align_up backing slab_size in
      elim (List-cases (chunk_slabs win backing slabs)) [
        | inl none_there ↦
            absurd (omega (arith, (chunk-blocks slabs q).1, ap (λ xs. blocks 16 xs q) none_there))
        | inr there_is ↦ there_is
      ]

  pub chunk-IsSound :
      {owner : ℕ → ℕ} {id : ℕ} {d : SlabData}
      → IsSound owner id d
      → IsSound owner id (record d { slabs = chunk_slabs win backing d.slabs })
  unfolding chunk_slabs
  chunk-IsSound {d = d} ok =
      let (k, c) = chunk_end in
      let begin = align_up backing slab_size in
      let end = align_down (backing + chunk_size) slab_size in
      record {
        objects = ok.objects;
        unused =
            carve-AllPieces (λ a. a % slab_size ≡ 0) IsSlab 64 (win + begin) (win + end) slab_size
              d.slabs (omega (arith, c.multiple)) (λ a m. omega arith)
              (λ a m lt. record {
                multiple = m;
                below = omega (arith, c.multiple, c.pieces, c.stops);
              })
              ok.unused;
      }
