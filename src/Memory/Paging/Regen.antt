-- ===== src/Memory/Paging/Regen.antt =====
-- mem_paging_regen_cache and mem_paging_map_at of src/kernel/mem/virt/paging.c with the allocator that they
-- call.
use ricerca.Common.{
  ℕ, zero, suc, ◌+◌, ◌-◌, ◌≤◌, ◌<◌, ◌≡◌, refl, ap, ◌∙◌, Bool, true, false, Option, none, some, List,
  ◌∷◌, ◌==◌, if◌then◌else◌, arith, inl, inr, Bool-cases, Outcome, returns, suspended, fault,
}
use ricerca.Memory.Phys.Slab.{page_size}
use ricerca.Memory.Phys.Nodes.{Phys, alloc_on_behalf}
use ricerca.Memory.Phys.Ledger.{AreApart, Block}
use ricerca.Memory.Phys.Fresh.{
  Allocated, gives, gives_none, goes_on, breaks, alloc_on_behalf-Allocated, IsRam, IsReady-IsFresh,
  IsReady-once,
}
use ricerca.Memory.Paging.Defs.{
  or_flags, Pages, new_zeroed, regen_cache, map_at, map_locked, perms_mask, levels,
}
use ricerca.Memory.Paging.Tree.{translate, same}
use ricerca.Memory.Paging.Change.{IsTree}
use ricerca.Memory.Paging.Spare.{spare}
use ricerca.Memory.Paging.Map.{map_locked-Mapping}
use ricerca.Memory.Paging.Backed.{IsBacked, put_page, zeroed_at, new-translate, new-IsBacked}

-- What mem_paging_regen_cache leaves: the tree maps what it has mapped, and it and the pages are backed.
-- Where it succeeds, the first `n` pages are there.
pub data Regenerated (area : ℕ → ℕ → ℕ) (l cr3 n : ℕ) (m : Pages)
    : Outcome Pages (Bool × (ℕ → ℕ)) → Type 0 where
  regenerated :
      {bs : List Block} {pages : ℕ → ℕ} {m' : Pages}
      → IsBacked area l cr3 bs pages m'
      → ((k : ℕ) → k < n → 1 ≤ pages k)
      → ((w : ℕ) → translate m'.tables (suc l) cr3 w ≡ translate m.tables (suc l) cr3 w)
      → Regenerated area l cr3 n m (returns (true, pages) m')
  no_memory :
      {bs : List Block} {pages : ℕ → ℕ} {m' : Pages}
      → IsBacked area l cr3 bs pages m'
      → ((w : ℕ) → translate m'.tables (suc l) cr3 w ≡ translate m.tables (suc l) cr3 w)
      → Regenerated area l cr3 n m (returns (false, pages) m')
  no_return : {m' : Pages} → Regenerated area l cr3 n m (suspended m')
  broken : Regenerated area l cr3 n m fault

Regenerated-from :
    {area : ℕ → ℕ → ℕ} {l cr3 n : ℕ} {m m' : Pages} {o : Outcome Pages (Bool × (ℕ → ℕ))}
    → ((w : ℕ) → translate m'.tables (suc l) cr3 w ≡ translate m.tables (suc l) cr3 w)
    → Regenerated area l cr3 n m' o
    → Regenerated area l cr3 n m o
Regenerated-from e (regenerated ok full f) = regenerated ok full (λ w. f w ∙ e w)
Regenerated-from e (no_memory ok f) = no_memory ok (λ w. f w ∙ e w)
Regenerated-from e no_return = no_return
Regenerated-from e broken = broken

-- The body of the loop on a page that is not there.
abbrev filled :
    (m : Pages) (i : ℕ)
    → (ℕ → ℕ)
    → ((ℕ → ℕ) → Pages → Outcome Pages (Bool × (ℕ → ℕ)))
    → Outcome Phys (Option ℕ)
    → Outcome Pages (Bool × (ℕ → ℕ))
filled m i pages next (returns none p) = returns (false, pages) (record m { phys = p })
filled m i pages next (returns (some res) p) =
    next (put_page i res pages) (record { tables = zeroed_at res m.tables; phys = p })
filled m i pages next (suspended p) = suspended (record m { phys = p })
filled m i pages next fault = fault

filled-Regenerated :
    {area : ℕ → ℕ → ℕ} {l cr3 n : ℕ} {bs : List Block} {o : Outcome Phys (Option ℕ)} (i : ℕ)
    (pages : ℕ → ℕ) (m : Pages) (next : (ℕ → ℕ) → Pages → Outcome Pages (Bool × (ℕ → ℕ)))
    → AreApart area
    → IsRam area
    → i < l
    → pages i ≡ 0
    → IsBacked area l cr3 bs pages m
    → Allocated area bs page_size o
    → ((bs' : List Block) (res : ℕ) (m' : Pages)
        → 1 ≤ res
        → IsBacked area l cr3 bs' (put_page i res pages) m'
        → Regenerated area l cr3 n m' (next (put_page i res pages) m'))
    → Regenerated area l cr3 n m (filled m i pages next o)
filled-Regenerated {area} {l} {cr3} {n} {bs} i pages m next far ram lt none_there ok
      (gives {q} b size_is new) go =
    let fresh = IsReady-IsFresh b bs far ram new in
    let m' : Pages = record { tables = zeroed_at b.addr m.tables; phys = q } in
    Regenerated-from (new-translate area l cr3 bs b pages m q ok new fresh) (
      go (b ∷ bs) b.addr m' fresh.nonzero
        (new-IsBacked area l cr3 bs b pages m q ok new fresh i lt none_there))
filled-Regenerated i pages m next far ram lt none_there ok (gives_none still) go =
    no_memory (record { memory = still; owned = ok.owned; ready = ok.ready }) (λ w. refl)
filled-Regenerated i pages m next far ram lt none_there ok goes_on go = no_return
filled-Regenerated i pages m next far ram lt none_there ok breaks go = broken

abbrev zeroed_of : Pages → Outcome Phys (Option ℕ) → Outcome Pages (Option ℕ)
zeroed_of m o = elim o [
  | returns none p ↦ returns none (record m { phys = p })
  | returns (some res) p ↦ returns (some res) (record { tables = zeroed_at res m.tables; phys = p })
  | suspended p ↦ suspended (record m { phys = p })
  | fault ↦ fault
]

abbrev then_filled :
    (i : ℕ)
    → (ℕ → ℕ)
    → ((ℕ → ℕ) → Pages → Outcome Pages (Bool × (ℕ → ℕ)))
    → Outcome Pages (Option ℕ)
    → Outcome Pages (Bool × (ℕ → ℕ))
then_filled i pages next o = elim o [
  | returns none m' ↦ returns (false, pages) m'
  | returns (some res) m' ↦ next (put_page i res pages) m'
  | suspended m' ↦ suspended m'
  | fault ↦ fault
]

filled-steps :
    (m : Pages) (i : ℕ) (pages : ℕ → ℕ) (next : (ℕ → ℕ) → Pages → Outcome Pages (Bool × (ℕ → ℕ)))
    (o : Outcome Phys (Option ℕ))
    → then_filled i pages next (zeroed_of m o) ≡ filled m i pages next o
filled-steps m i pages next (returns none p) = refl
filled-steps m i pages next (returns (some res) p) = refl
filled-steps m i pages next (suspended p) = refl
filled-steps m i pages next fault = refl

regen_cache-filled :
    (fuel id left i : ℕ) (pages : ℕ → ℕ) (m : Pages)
    → (pages i == 0) ≡ true
    → regen_cache fuel id (suc left) i pages m
      ≡ filled m i pages
          (λ pages' m'. regen_cache fuel id left (suc i) pages' m')
          (alloc_on_behalf fuel page_size id m.phys)
unfolding regen_cache new_zeroed
regen_cache-filled fuel id left i pages m e =
    rw (regen_cache, e)
      (filled-steps m i pages (λ pages' m'. regen_cache fuel id left (suc i) pages' m')
        (alloc_on_behalf fuel page_size id m.phys))

pub regen_cache-Regenerated :
    {area : ℕ → ℕ → ℕ} {l cr3 : ℕ} {bs : List Block} (fuel id left i : ℕ) (pages : ℕ → ℕ)
    (m : Pages)
    → AreApart area
    → IsRam area
    → left + i ≡ l
    → ((k : ℕ) → k < i → 1 ≤ pages k)
    → IsBacked area l cr3 bs pages m
    → Regenerated area l cr3 l m (regen_cache fuel id left i pages m)
unfolding regen_cache
regen_cache-Regenerated fuel id zero i pages m far ram all full ok =
    regenerated ok (λ k lt. full k (omega arith)) (λ w. refl)
regen_cache-Regenerated fuel id (suc left) i pages m far ram all full ok =
    elim (Bool-cases (pages i == 0)) [
      | inr there ↦ rw there (
          regen_cache-Regenerated fuel id left (suc i) pages m far ram (omega (arith, all))
            (λ k lt. elim (Bool-cases (k == i)) [
              | inl same ↦ let e : k ≡ i = ground arith in rw e (ground (arith, there))
              | inr other ↦ full k (ground (arith, other, lt))
            ])
            ok)
      | inl empty ↦ rw (regen_cache-filled fuel id left i pages m empty) (
          filled-Regenerated i pages m (λ pages' m'. regen_cache fuel id left (suc i) pages' m') far
            ram (omega (arith, all)) (ground arith) ok
            (alloc_on_behalf-Allocated fuel page_size id m.phys far ok.memory)
            (λ bs' res m' pos ok'.
              regen_cache-Regenerated fuel id left (suc i) (put_page i res pages) m' far ram
                (omega (arith, all))
                (λ k lt. elim (Bool-cases (k == i)) [
                  | inl same ↦ rw same pos
                  | inr other ↦ rw other (full k (ground (arith, other, lt)))
                ])
                ok'))
    ]

-- What mem_paging_map_at may do to the tree of a root: the page is mapped and nothing else changes; or no
-- page is left, and the tree maps what it has mapped. The allocator may not return either.
pub data Mapped (area : ℕ → ℕ → ℕ) (l cr3 v entry : ℕ) (m : Pages)
    : Outcome Pages (Bool × (ℕ → ℕ)) → Type 0 where
  mapped :
      {bs : List Block} {left : ℕ → ℕ} {m' : Pages}
      → IsBacked area l cr3 bs left m'
      → ((w : ℕ)
          → translate m'.tables (suc l) cr3 w
            ≡ (if same (suc l) w v then some entry else translate m.tables (suc l) cr3 w))
      → Mapped area l cr3 v entry m (returns (true, left) m')
  unmapped :
      {bs : List Block} {left : ℕ → ℕ} {m' : Pages}
      → IsBacked area l cr3 bs left m'
      → ((w : ℕ) → translate m'.tables (suc l) cr3 w ≡ translate m.tables (suc l) cr3 w)
      → Mapped area l cr3 v entry m (returns (false, left) m')
  no_return : {m' : Pages} → Mapped area l cr3 v entry m (suspended m')
  broken : Mapped area l cr3 v entry m fault

backed-IsTree :
    {area : ℕ → ℕ → ℕ} {l cr3 : ℕ} {bs : List Block} {pages : ℕ → ℕ} {m : Pages}
    → AreApart area
    → IsBacked area l cr3 bs pages m
    → IsTree m.tables (suc l) cr3 (spare l pages)
backed-IsTree far ok a = omega (arith, ok.owned a, IsReady-once far ok.memory a)

-- The rest of the call.
abbrev finish :
    (l cr3 v paddr perms : ℕ) → Outcome Pages (Bool × (ℕ → ℕ)) → Outcome Pages (Bool × (ℕ → ℕ))
finish l cr3 v paddr perms (returns (true, pages) m) =
    let (left, tables) = map_locked (suc l) cr3 v paddr perms pages m.tables in
    returns (true, left) (record m { tables = tables })
finish l cr3 v paddr perms (returns (false, pages) m) = returns (false, pages) m
finish l cr3 v paddr perms (suspended m) = suspended m
finish l cr3 v paddr perms fault = fault

finish-Mapped :
    {area : ℕ → ℕ → ℕ} {l cr3 : ℕ} {m : Pages} {o : Outcome Pages (Bool × (ℕ → ℕ))}
    (v paddr perms : ℕ)
    → AreApart area
    → Regenerated area l cr3 l m o
    → Mapped area l cr3 v (or_flags paddr (perms_mask perms)) m (finish l cr3 v paddr perms o)
finish-Mapped {area} {l} {cr3} {m} v paddr perms far (regenerated {bs} {pages} {m'} ok full f) =
    let done =
      map_locked-Mapping l cr3 v paddr perms pages m'.tables (backed-IsTree far ok)
        (λ k lt. ok.ready k lt (full k lt)) in
    mapped
      (record {
        memory = ok.memory;
        owned = λ a. omega (arith, done.owned a, ok.owned a);
        ready = done.ready;
      })
      (λ w.
        done.translated w
        ∙ ap (λ o. if same (suc l) w v then some (or_flags paddr (perms_mask perms)) else o) (f w))
finish-Mapped v paddr perms far (no_memory ok f) = unmapped ok f
finish-Mapped v paddr perms far no_return = no_return
finish-Mapped v paddr perms far broken = broken

-- Where the ranges lie apart in usable memory, and the tables and the pages of the mapper are blocks that the
-- allocator has given, no two the same: when mem_paging_map_at returns true the page is mapped with
-- its permissions and every other one translates as before, when it returns false all do, and either way tables
-- and pages are still blocks, no two the same. The allocator may break down or not return.
pub map_at-Mapped :
    {area : ℕ → ℕ → ℕ} {bs : List Block} (fuel id : ℕ) (five_level : Bool) (cr3 v paddr perms : ℕ)
    (zeroed_pages : ℕ → ℕ) (m : Pages)
    → AreApart area
    → IsRam area
    → IsBacked area (levels five_level - 1) cr3 bs zeroed_pages m
    → Mapped area
        (levels five_level - 1)
        cr3
        v
        (or_flags paddr (perms_mask perms))
        m
        (map_at fuel id five_level cr3 v paddr perms zeroed_pages m)
unfolding map_at
map_at-Mapped fuel id true cr3 v paddr perms zeroed_pages m far ram ok =
    finish-Mapped v paddr perms far (
      regen_cache-Regenerated fuel id 4 0 zeroed_pages m far ram refl (λ k lt. absurd (omega arith))
        ok)
map_at-Mapped fuel id false cr3 v paddr perms zeroed_pages m far ram ok =
    finish-Mapped v paddr perms far (
      regen_cache-Regenerated fuel id 3 0 zeroed_pages m far ram refl (λ k lt. absurd (omega arith))
        ok)
