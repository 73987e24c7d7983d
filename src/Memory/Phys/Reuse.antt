-- ===== src/Memory/Phys/Reuse.antt =====
-- Which block mem_phys_slab_alloc of src/kernel/mem/phys/slab.c takes, what its count of the freed
-- orders forgets, and what the links of mem_phys_store_info (src/kernel/mem/phys/phys.c) become.
use ricerca.Common.{
  ℕ, zero, suc, ◌+◌, ◌-◌, ◌%◌, ◌^◌, ◌≤◌, ◌<◌, ◌≡◌, refl, ap, ◌∙◌, true, false, none, some, List, [],
  ◌∷◌, ◌==◌, ==_refl, ltb, size_mod, arith, inl, inr, returns, fault, Bool-cases,
}
use ricerca.Memory.Phys.Slab.{
  PhysSlab, put, enqueue, dequeue, rescan, split_until_target, take, extend, alloc, free, get_order,
  orders_count,
}
use ricerca.Memory.Phys.Orders.{get_order-lt, get_order-IsOrder}
use ricerca.Memory.Phys.Enter.{entered}
use ricerca.Memory.Phys.Nodes.{
  MemRange, ObjectData, Phys, put_range, store_info, walk, alloc_specific,
}

split-same : (base order : ℕ) (s : PhysSlab) → split_until_target base order order s ≡ s
unfolding split_until_target
split-same base zero s = refl
split-same base (suc order) s =
    let not_more : ltb (suc order) (suc order) ≡ false = ground arith in rw not_more refl

take-first :
    (more order : ℕ) (s : PhysSlab) (block : ℕ) (rest : List ℕ)
    → s.free_lists order ≡ block ∷ rest
    → take (suc more) order order s ≡ some (block, dequeue order rest s)
unfolding take
take-first more order s block rest e =
    rw (take, e) (ap (λ t. some (block, t)) (split-same block order (dequeue order rest s)))

-- A request whose own list is not empty gets that list's first block.
pub alloc-first :
    (s : PhysSlab) (size block : ℕ) (rest : List ℕ)
    → get_order size < orders_count
    → get_order size ≤ s.max_freed_order
    → s.free_lists (get_order size) ≡ block ∷ rest
    → alloc size s ≡ some (block, dequeue (get_order size) rest s)
unfolding alloc
alloc-first s size block rest lt low e =
    let fits : (get_order size == orders_count) ≡ false = ground arith in
    let left : s.max_freed_order + 1 - get_order size ≡ suc (s.max_freed_order - get_order size) =
      omega arith in
    rw fits (
      ap (λ o. elim o [ some taken ↦ some taken | none ↦ extend (get_order size) s ])
        (ap (λ n. take n (get_order size) (get_order size) s) left
          ∙ take-first (s.max_freed_order - get_order size) (get_order size) s block rest e))

put_back :
    (lists : ℕ → List ℕ) (order i : ℕ) (block : ℕ)
    → put order (lists order) (put order (block ∷ lists order) lists) i ≡ lists i
put_back lists order i block = elim (Bool-cases (i == order)) [
  | inl same ↦ let e : i ≡ order = ground arith in rw (same, e) refl
  | inr other ↦ rw other refl
]

-- A freed block is what the next request of its size gets, and the free lists are then as before.
pub alloc-free :
    (s : PhysSlab) (addr size : ℕ)
    → size ≤ 2 ^ 63
    → (s' : PhysSlab) × (alloc size (free addr size s) ≡ some (addr, s'))
      × ((i : ℕ) → s'.free_lists i ≡ s.free_lists i)
unfolding free enqueue dequeue
alloc-free s addr size h =
    let o = get_order size in
    let f : PhysSlab = free addr size s in
    let head : f.free_lists o ≡ addr ∷ s.free_lists o = rw (==_refl o) refl in
    (
      dequeue o (s.free_lists o) f,
      alloc-first f size addr (s.free_lists o) (get_order-lt size h) (ground arith) head,
      λ i. put_back s.free_lists o i addr,
    )

alloc-none :
    (s : PhysSlab) (size : ℕ)
    → (get_order size == orders_count) ≡ false
    → s.max_freed_order + 1 - get_order size ≡ 0
    → alloc size s ≡ extend (get_order size) s
unfolding alloc take
alloc-none s size fits none_left = rw (fits, none_left) refl

rescan-none : (i : ℕ) (lists : ℕ → List ℕ) → ((j : ℕ) → j < i → lists j ≡ []) → rescan i lists 0 ≡ 0
unfolding rescan
rescan-none zero lists none_at = refl
rescan-none (suc i) lists none_at =
    rw (rescan, none_at i (omega arith)) (rescan-none i lists (λ j h. none_at j (omega arith)))

-- When the only block of the greatest freed order is taken, the blocks of the order below it are
-- not found any more, where the lists of lower orders are empty.
alloc_forgets :
    (s : PhysSlab) (size size' block other : ℕ) (rest : List ℕ)
    → get_order size ≡ s.max_freed_order
    → get_order size ≡ suc (get_order size')
    → get_order size < orders_count
    → s.free_lists (get_order size) ≡ block ∷ []
    → s.free_lists (get_order size') ≡ other ∷ rest
    → ((i : ℕ) → i < get_order size' → s.free_lists i ≡ [])
    → (s' : PhysSlab) × (alloc size s ≡ some (block, s'))
      × (s'.free_lists (get_order size') ≡ other ∷ rest)
      × (alloc size' s' ≡ extend (get_order size') s')
unfolding dequeue
alloc_forgets s size size' block other rest max below lt one more lower =
    let o = get_order size in
    let o' = get_order size' in
    let s' : PhysSlab = dequeue o [] s in
    let page = (get_order-IsOrder size').above in
    let other_list : (o' == o) ≡ false = ground arith in
    let kept : s'.free_lists o' ≡ other ∷ rest = rw other_list more in
    let is_max : (s.max_freed_order == o) ≡ true = ground arith in
    let start : s.max_freed_order - 1 ≡ o' = omega arith in
    let max_is : s'.max_freed_order ≡ 0 =
      rw (is_max, start)
        (rescan-none o' (put o [] s.free_lists)
          (λ j h. let lower_list : (j == o) ≡ false = ground arith in rw lower_list (lower j h))) in
    let fits : (o' == orders_count) ≡ false = ground arith in
    let no_round : s'.max_freed_order + 1 - o' ≡ 0 = omega arith in
    (s', alloc-first s size block [] lt (omega arith) one, kept, alloc-none s' size' fits no_round)

module _ (fuel size id r : ℕ) (p : Phys) where
  walk-wild : p.ranges (suc r) ≡ none → walk (suc fuel) size id (suc r) p ≡ fault
  unfolding walk
  walk-wild e = rw (walk, e) refl

  module _ (x : MemRange) (here : p.ranges (suc r) ≡ some x) where
    walk-gives :
        (slab : PhysSlab) (block : ℕ)
        → alloc size x.slab ≡ some (block, slab)
        → walk (suc fuel) size id (suc r) p
          ≡ returns (some block) (
              store_info block size
                (suc r)
                (record x { slab = slab })
                id
                (put_range (suc r) (record x { slab = slab }) p))
    unfolding walk
    walk-gives slab block gives = rw (walk, here, gives) refl

    walk-refuses :
        alloc size x.slab ≡ none
        → walk (suc fuel) size id (suc r) p ≡ walk fuel size id x.next_range p
    unfolding walk
    walk-refuses full = rw (walk, here, full) refl

store_info-some :
    (addr size r id : ℕ) (x : MemRange) (info : ℕ → ObjectData) (p : Phys)
    → p.info ≡ some info
    → store_info addr size r x id p ≡ entered addr size r id x info p
unfolding store_info
store_info-some addr size r id x info p e =
    ap (λ i. elim i [ none ↦ p | some old ↦ entered addr size r id x old p ]) e

-- A node of one range, whose slab gives a block: where the slab has no room for the next request,
-- the walk goes on to the address 1, which the count of the block has made of the NULL link.
pub next_range_counts :
    (p : Phys) (info : ℕ → ObjectData) (x : MemRange) (slab : PhysSlab)
    (fuel size size' block id r : ℕ)
    → (p.nodes id).ranges ≡ suc (suc r)
    → p.ranges (suc (suc r)) ≡ some x
    → x.next_range ≡ 0
    → p.ranges 1 ≡ none
    → p.info ≡ some info
    → alloc size x.slab ≡ some (block, slab)
    → alloc size' slab ≡ none
    → (q : Phys) × (alloc_specific (suc fuel) size id p ≡ returns (some block) q)
      × (alloc_specific (suc (suc fuel)) size' id q ≡ fault)
unfolding alloc_specific
next_range_counts p info x slab fuel size size' block id r first here last wild table gives full =
    let y : MemRange = record x { slab = slab } in
    let q = entered block size (suc (suc r)) id y info (put_range (suc (suc r)) y p) in
    let z : MemRange = record y { next_range = (x.next_range + 1) % size_mod } in
    let here' : q.ranges (suc (suc r)) ≡ some z = rw (==_refl (suc (suc r))) refl in
    let apart : (1 == suc (suc r)) ≡ false = ground arith in
    let wild' : q.ranges 1 ≡ none = rw apart wild in
    let next_is : z.next_range ≡ 1 = rw last refl in
    (
      q,
      ap (λ head. walk (suc fuel) size id head p) first
          ∙ walk-gives fuel size id (suc r) p x here slab block gives
          ∙ ap (returns (some block)) (
              store_info-some block size (suc (suc r)) id y info (put_range (suc (suc r)) y p)
                table),
      ap (λ head. walk (suc (suc fuel)) size' id head q) first
          ∙ walk-refuses (suc fuel) size' id (suc r) q z here' full
          ∙ ap (λ next. walk (suc fuel) size' id next q) next_is
          ∙ walk-wild fuel size' id 0 q wild',
    )
