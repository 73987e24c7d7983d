-- ===== src/Memory/Paging/System.antt =====
-- Calls of one mapper, mem_paging_map_at and mem_paging_unmap_at of src/kernel/mem/virt/paging.c, on one
-- root in any order, against a map from addresses to entries.
use mathlib.Core.Path.{subst}
use ricerca.Common.{
  ℕ, suc, ◌-◌, ◌≡◌, refl, ap, ◌∙◌, Bool, true, false, Option, none, some, List, if◌then◌else◌,
  arith, returns,
}
use ricerca.Memory.Phys.Ledger.{AreApart, Block}
use ricerca.Memory.Phys.Fresh.{IsRam, IsReady-once}
use ricerca.Memory.Paging.Defs.{Pages, or_flags, perms_mask, levels, map_at, unmap_at}
use ricerca.Memory.Paging.Tree.{uses, translate, same, uses-frame, translate-frame}
use ricerca.Memory.Paging.Change.{IsTree}
use ricerca.Memory.Paging.Spare.{spare, spare-has}
use ricerca.Memory.Paging.Backed.{IsBacked}
use ricerca.Memory.Paging.Regen.{Mapped, mapped, unmapped, map_at-Mapped}
use ricerca.Memory.Paging.Unmap.{cleared, has_tables, cleared-Changed, freed, unmap_at_complete}
use ricerca.Memory.Paging.Missing.{cleared-missing, unmap_at_missing}

-- The upper tables of an address are all there, or else physical page 0, in which
-- mem_paging_unmap_at then goes on, has no word but 0.
pub data CanWalk (tables : ℕ → ℕ → ℕ) (lvls cr3 v : ℕ) : Type 0 where
  complete : has_tables tables lvls cr3 v ≡ true → CanWalk tables lvls cr3 v
  blank_page_zero :
      has_tables tables lvls cr3 v ≡ false → ((i : ℕ) → tables 0 i ≡ 0) → CanWalk tables lvls cr3 v

-- A call: the mapper's pages, the memory, and what each address is mapped to.
pub data Step (five_level : Bool) (cr3 : ℕ) (pages : ℕ → ℕ) (m : Pages) (view : ℕ → Option ℕ)
    : (ℕ → ℕ) → Pages → (ℕ → Option ℕ) → Type 0 where
  maps :
      {left : ℕ → ℕ} {m' : Pages} (fuel id v paddr perms : ℕ)
      → map_at fuel id five_level cr3 v paddr perms pages m ≡ returns (true, left) m'
      → Step five_level cr3 pages m view left m' (λ w.
        if same (levels five_level) w v then some (or_flags paddr (perms_mask perms)) else view w)
  fails :
      {left : ℕ → ℕ} {m' : Pages} (fuel id v paddr perms : ℕ)
      → map_at fuel id five_level cr3 v paddr perms pages m ≡ returns (false, left) m'
      → Step five_level cr3 pages m view left m' view
  unmaps :
      (v : ℕ)
      → CanWalk m.tables (levels five_level) cr3 v
      → Step five_level cr3 pages m view pages
          (record m { tables = (unmap_at (levels five_level) cr3 v m.tables).1 })
          (λ w. if same (levels five_level) w v then none else view w)

pub data Reach (five_level : Bool) (cr3 : ℕ) (pages : ℕ → ℕ) (m : Pages) (view : ℕ → Option ℕ)
    : (ℕ → ℕ) → Pages → (ℕ → Option ℕ) → Type 0 where
  begin : Reach five_level cr3 pages m view pages m view
  later :
      {pages' pages'' : ℕ → ℕ} {m' m'' : Pages} {view' view'' : ℕ → Option ℕ}
      → Reach five_level cr3 pages m view pages' m' view'
      → Step five_level cr3 pages' m' view' pages'' m'' view''
      → Reach five_level cr3 pages m view pages'' m'' view''

-- Tables and pages are blocks, no two the same, and the tables map what the view says.
pub record IsAccurate (area : ℕ → ℕ → ℕ) (l cr3 : ℕ) (pages : ℕ → ℕ) (m : Pages)
    (view : ℕ → Option ℕ) : Type 0 where
  pub blocks : List Block
  pub backed : IsBacked area l cr3 blocks pages m
  pub translated : (w : ℕ) → translate m.tables (suc l) cr3 w ≡ view w

IsAccurate-IsTree :
    {area : ℕ → ℕ → ℕ} {l cr3 : ℕ} {pages : ℕ → ℕ} {m : Pages} {view : ℕ → Option ℕ}
    → AreApart area
    → IsAccurate area l cr3 pages m view
    → IsTree m.tables (suc l) cr3 (spare l pages)
IsAccurate-IsTree far ok a = omega (arith, ok.backed.owned a, IsReady-once far ok.backed.memory a)

after_map :
    {area : ℕ → ℕ → ℕ} {l cr3 v entry : ℕ} {pages left : ℕ → ℕ} {m m' : Pages} {view : ℕ → Option ℕ}
    → IsAccurate area l cr3 pages m view
    → Mapped area l cr3 v entry m (returns (true, left) m')
    → IsAccurate area l cr3 left m' (λ w. if same (suc l) w v then some entry else view w)
after_map {l = l} {v = v} {entry = entry} ok (mapped {bs} backed f) = record {
  blocks = bs;
  backed = backed;
  translated = λ w. f w ∙ ap (λ o. if same (suc l) w v then some entry else o) (ok.translated w);
}

after_failure :
    {area : ℕ → ℕ → ℕ} {l cr3 v entry : ℕ} {pages left : ℕ → ℕ} {m m' : Pages} {view : ℕ → Option ℕ}
    → IsAccurate area l cr3 pages m view
    → Mapped area l cr3 v entry m (returns (false, left) m')
    → IsAccurate area l cr3 left m' view
after_failure ok (unmapped {bs} backed f) = record {
  blocks = bs;
  backed = backed;
  translated = λ w. f w ∙ ok.translated w;
}

after_unmap :
    {area : ℕ → ℕ → ℕ} {l cr3 : ℕ} {pages : ℕ → ℕ} {m : Pages} {view : ℕ → Option ℕ} (v : ℕ)
    → AreApart area
    → IsAccurate area l cr3 pages m view
    → CanWalk m.tables (suc l) cr3 v
    → IsAccurate area l cr3 pages
        (record m { tables = (unmap_at (suc l) cr3 v m.tables).1 })
        (λ w. if same (suc l) w v then none else view w)
unfolding unmap_at cleared
after_unmap {l = l} {cr3} {pages} {m} {view} v far ok (complete e) =
    let tree = IsAccurate-IsTree far ok in
    let c = cleared-Changed m.tables l cr3 v (λ a. omega (arith, tree a)) e in
    record {
      blocks = ok.blocks;
      backed = record {
        memory = ok.backed.memory;
        owned = λ a. omega (arith, c.used a, ok.backed.owned a);
        ready = λ k lt there.
            let b = ok.backed.ready k lt there in
            let out : uses m.tables (suc l) cr3 (pages k) ≡ 0 =
              omega (arith, tree (pages k), spare-has l k pages lt there) in
            record {
              nonzero = b.nonzero;
              aligned = b.aligned;
              physical = b.physical;
              zeroed = λ i small. c.apart (pages k) i small out refl ∙ b.zeroed i small;
            };
      };
      translated =
          λ w. c.translated w ∙ ap (λ o. if same (suc l) w v then none else o) (ok.translated w);
    }
after_unmap {l = l} {cr3} {pages} {m} {view} v far ok (blank_page_zero e blank) =
    let (kept, missing) = cleared-missing m.tables l cr3 v blank e in
    let t' = cleared (suc l) cr3 v m.tables in
    let frame = λ (w : ℕ). translate-frame m.tables t' l cr3 w (λ a i on lt. kept a i) in
    record {
      blocks = ok.blocks;
      backed = record {
        memory = ok.backed.memory;
        owned = λ a.
            omega
              (arith, uses-frame m.tables t' l cr3 a (λ x i on lt. kept x i), ok.backed.owned a);
        ready = λ k lt there.
            let b = ok.backed.ready k lt there in
            record {
              nonzero = b.nonzero;
              aligned = b.aligned;
              physical = b.physical;
              zeroed = λ i small. kept (pages k) i ∙ b.zeroed i small;
            };
      };
      translated = λ w.
          frame w ∙ (missing w ∙ ap (λ o. if same (suc l) w v then none else o) (ok.translated w));
    }

unmap_at-freed :
    {area : ℕ → ℕ → ℕ} {l cr3 : ℕ} {pages : ℕ → ℕ} {m : Pages} {view : ℕ → Option ℕ} (v : ℕ)
    → IsAccurate area l cr3 pages m view
    → CanWalk m.tables (suc l) cr3 v
    → (unmap_at (suc l) cr3 v m.tables).0 ≡ freed (view v)
unmap_at-freed {l = l} {cr3} {m = m} v ok (complete e) =
    unmap_at_complete m.tables l cr3 v e ∙ ap freed (ok.translated v)
unmap_at-freed {l = l} {cr3} {m = m} v ok (blank_page_zero e blank) =
    unmap_at_missing m.tables l cr3 v blank e ∙ ap freed (ok.translated v)

module _ (area : ℕ → ℕ → ℕ) (far : AreApart area) (ram : IsRam area) (cr3 : ℕ) where
  Step-IsAccurate :
      {pages pages' : ℕ → ℕ} {m m' : Pages} {view view' : ℕ → Option ℕ} (five_level : Bool)
      → IsAccurate area (levels five_level - 1) cr3 pages m view
      → Step five_level cr3 pages m view pages' m' view'
      → IsAccurate area (levels five_level - 1) cr3 pages' m' view'
  Step-IsAccurate {pages} {m = m} true ok (maps fuel id v paddr perms e) = after_map ok (
      subst (Mapped area (levels true - 1) cr3 v (or_flags paddr (perms_mask perms)) m) e
        (map_at-Mapped fuel id true cr3 v paddr perms pages m far ram ok.backed))
  Step-IsAccurate {pages} {m = m} true ok (fails fuel id v paddr perms e) = after_failure ok (
      subst (Mapped area (levels true - 1) cr3 v (or_flags paddr (perms_mask perms)) m) e
        (map_at-Mapped fuel id true cr3 v paddr perms pages m far ram ok.backed))
  Step-IsAccurate true ok (unmaps v e) = after_unmap v far ok e
  Step-IsAccurate {pages} {m = m} false ok (maps fuel id v paddr perms e) = after_map ok (
      subst (Mapped area (levels false - 1) cr3 v (or_flags paddr (perms_mask perms)) m) e
        (map_at-Mapped fuel id false cr3 v paddr perms pages m far ram ok.backed))
  Step-IsAccurate {pages} {m = m} false ok (fails fuel id v paddr perms e) = after_failure ok (
      subst (Mapped area (levels false - 1) cr3 v (or_flags paddr (perms_mask perms)) m) e
        (map_at-Mapped fuel id false cr3 v paddr perms pages m far ram ok.backed))
  Step-IsAccurate false ok (unmaps v e) = after_unmap v far ok e

  after_calls :
      (five_level : Bool) {pages : ℕ → ℕ} {m : Pages} {view : ℕ → Option ℕ} {pages' : ℕ → ℕ}
      {m' : Pages} {view' : ℕ → Option ℕ}
      → IsAccurate area (levels five_level - 1) cr3 pages m view
      → Reach five_level cr3 pages m view pages' m' view'
      → IsAccurate area (levels five_level - 1) cr3 pages' m' view'
  after_calls five_level ok begin = ok
  after_calls five_level ok (later r s) = Step-IsAccurate five_level (after_calls five_level ok r) s

  -- Whatever the calls of one mapper on a root, in any order, where the ranges of the allocator lie apart
  -- in usable memory, and a page is unmapped, mapped or not, only where its upper tables are there or
  -- else physical page 0 has no word but 0: from tables and pages of the mapper that are blocks, no two
  -- the same, and that map what a view says, calls that return lead to such tables and pages, and to
  -- the view in which each address has what the last call on its page that did not fail has given it,
  -- which is nothing after an unmapping. An unmapping then returns the address of the page that the view
  -- has, or 0 where it has none.
  pub Reach-IsAccurate :
      (five_level : Bool) {pages : ℕ → ℕ} {m : Pages} {view : ℕ → Option ℕ} {pages' : ℕ → ℕ}
      {m' : Pages} {view' : ℕ → Option ℕ}
      → IsAccurate area (levels five_level - 1) cr3 pages m view
      → Reach five_level cr3 pages m view pages' m' view'
      → IsAccurate area (levels five_level - 1) cr3 pages' m' view'
        × ((v : ℕ)
            → CanWalk m'.tables (levels five_level) cr3 v
            → (unmap_at (levels five_level) cr3 v m'.tables).0 ≡ freed (view' v))
  Reach-IsAccurate true ok r =
      let ok' = after_calls true ok r in (ok', λ v walk. unmap_at-freed v ok' walk)
  Reach-IsAccurate false ok r =
      let ok' = after_calls false ok r in (ok', λ v walk. unmap_at-freed v ok' walk)
