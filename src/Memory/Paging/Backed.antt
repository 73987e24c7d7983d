-- ===== src/Memory/Paging/Backed.antt =====
-- The page tables of src/kernel/mem/virt/paging.c on top of the physical allocator: each table and each
-- page of a mapper is a block that the allocator has given.
use mathlib.Core.Path.{subst}
use ricerca.Common.{
  ℕ, suc, ◌+◌, ◌≤◌, ◌<◌, ◌≡◌, refl, false, List, ◌∷◌, ◌==◌, ==_refl, if◌then◌else◌, arith, inl, inr,
  Bool-cases,
}
use ricerca.Memory.Phys.Nodes.{Phys}
use ricerca.Memory.Phys.Ledger.{AreApart, Block}
use ricerca.Memory.Phys.Ledger
use ricerca.Memory.Phys.Fresh.{IsReady, IsFresh, own-covers}
use ricerca.Memory.Paging.Defs.{Pages}
use ricerca.Memory.Paging.Total.{total-change}
use ricerca.Memory.Paging.Tree.{uses, translate, same, uses-frame, translate-frame, AgreeOn}
use ricerca.Memory.Paging.Install.{IsBlank}
use ricerca.Memory.Paging.Spare.{spare, at_page, spare-has}
use ricerca.Memory.Paging.Map.{AreReady}

-- The blocks bs hold the tables of the tree and the pages of the mapper, no block two of them.
pub record IsBacked (area : ℕ → ℕ → ℕ) (l cr3 : ℕ) (bs : List Block) (pages : ℕ → ℕ) (m : Pages)
    : Type 0 where
  pub memory : IsReady area m.phys bs
  pub owned : (a : ℕ) → uses m.tables (suc l) cr3 a + spare l pages a ≤ Ledger.total bs a
  pub ready : AreReady l pages m.tables

abbrev pub put_page : (i page : ℕ) → (ℕ → ℕ) → ℕ → ℕ
put_page i page pages k = if k == i then page else pages k

abbrev pub zeroed_at : (page : ℕ) → (ℕ → ℕ → ℕ) → ℕ → ℕ → ℕ
zeroed_at page tables t i = if t == page then 0 else tables t i

module _ (area : ℕ → ℕ → ℕ) (l cr3 : ℕ) (bs : List Block) (b : Block) (pages : ℕ → ℕ) (m : Pages)
    (p : Phys) (ok : IsBacked area l cr3 bs pages m) (new : IsReady area p (b ∷ bs))
    (fresh : IsFresh bs b.addr) where
  abbrev tables' : ℕ → ℕ → ℕ
  tables' = zeroed_at b.addr m.tables

  -- The new page is not in the tree.
  untouched : AgreeOn m.tables tables' (suc l) cr3
  untouched a i on lt = elim (Bool-cases (a == b.addr)) [
    | inr other ↦ rw other refl
    | inl same ↦
        let e : a ≡ b.addr = ground arith in
        let on' = subst (λ z. 1 ≤ uses m.tables (suc l) cr3 z) e on in
        absurd (omega (arith, on', ok.owned b.addr, fresh.apart))
  ]

  pub new-translate : (w : ℕ) → translate tables' (suc l) cr3 w ≡ translate m.tables (suc l) cr3 w
  new-translate w = translate-frame m.tables tables' l cr3 w untouched

  put-spare :
      (i a : ℕ)
      → i < l
      → pages i ≡ 0
      → spare l (put_page i b.addr pages) a ≡ spare l pages a + (if b.addr == a then 1 else 0)
  unfolding spare
  put-spare i a lt none_there =
      let own : at_page (put_page i b.addr pages i) a ≡ (if b.addr == a then 1 else 0) =
        ground (arith, ==_refl i, fresh.nonzero) in
      let old : at_page (pages i) a ≡ 0 = rw none_there refl in
      omega (
        arith,
        own,
        old,
        total-change l i (λ k. at_page (put_page i b.addr pages k) a) (λ k. at_page (pages k) a) lt
            (λ j small other. rw other refl),
      )

  new-IsBlank : IsBlank tables' b.addr
  new-IsBlank = record {
    nonzero = fresh.nonzero;
    aligned = fresh.paged;
    physical = fresh.physical;
    zeroed = λ i lt. rw (==_refl b.addr) refl;
  }

  still-IsBlank : (k : ℕ) → k < l → 1 ≤ pages k → IsBlank tables' (pages k)
  still-IsBlank k lt there =
      let old = ok.ready k lt there in
      let other : (pages k == b.addr) ≡ false = elim (Bool-cases (pages k == b.addr)) [
        | inr other ↦ other
        | inl same ↦
            let e : pages k ≡ b.addr = ground arith in
            let has = subst (λ z. 1 ≤ spare l pages z) e (spare-has l k pages lt there) in
            absurd (omega (arith, has, ok.owned b.addr, fresh.apart))
      ] in
      record {
        nonzero = old.nonzero;
        aligned = old.aligned;
        physical = old.physical;
        zeroed = λ i small. rw other (old.zeroed i small);
      }

  covers-start : (a : ℕ) → (if b.addr == a then 1 else 0) ≤ Ledger.covers b a
  covers-start a = elim (Bool-cases (b.addr == a)) [
    | inr other ↦ rw other (omega arith)
    | inl same ↦
        let e : b.addr ≡ a = ground arith in
        rw same (subst (λ z. 1 ≤ Ledger.covers b z) e (omega (arith, own-covers b)))
  ]

  pub new-IsBacked :
      (i : ℕ)
      → i < l
      → pages i ≡ 0
      → IsBacked area l cr3
          (b ∷ bs)
          (put_page i b.addr pages)
          (record { tables = tables'; phys = p })
  new-IsBacked i lt none_there = record {
    memory = new;
    owned = λ a. omega (
      arith,
      uses-frame m.tables tables' l cr3 a untouched,
      put-spare i a lt none_there,
      ok.owned a,
      covers-start a,
    );
    ready = λ k small there. elim (Bool-cases (k == i)) [
      | inl same ↦ rw same new-IsBlank
      | inr other ↦ rw other (still-IsBlank k small (ground (arith, there, other)))
    ];
  }
