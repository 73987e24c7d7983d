-- ===== src/Memory/Paging/Map.antt =====
-- mem_paging_map_at of src/kernel/mem/virt/paging.c maps one page and no other.
use mathlib.Core.Path.{subst}
use ricerca.Common.{
  ℕ, suc, ◌+◌, ◌≤◌, ◌<◌, ◌≡◌, sym, ◌∙◌, Option, some, if◌then◌else◌, arith, inl, inr,
}
use ricerca.Memory.Paging.Defs.{or_flags, perms_mask, map_locked}
use ricerca.Memory.Paging.Flags.{or_flags-pos, perms_mask-present}
use ricerca.Memory.Paging.Tree.{uses, translate, same}
use ricerca.Memory.Paging.Change.{Changed, IsTree}
use ricerca.Memory.Paging.Install.{IsBlank}
use ricerca.Memory.Paging.Spare.{spare, spare-has, left_of, left_of-cases, left_spare, spent}
use ricerca.Memory.Paging.Grow.{AreBlank, leaf_written, leaf_written-Changed}

-- The pages of a mapper that are there are blank.
abbrev pub AreReady : (n : ℕ) → (ℕ → ℕ) → (ℕ → ℕ → ℕ) → Type 0
AreReady n pages tables = (k : ℕ) → k < n → 1 ≤ pages k → IsBlank tables (pages k)

-- What mem_paging_map_at does to the tree of a root and the pages of a mapper: the page of v gets an entry,
-- every other address keeps its translation, no page is doubled, and the pages that are left are blank.
pub record Mapping (tables tables' : ℕ → ℕ → ℕ) (l cr3 v entry : ℕ) (pages left : ℕ → ℕ)
    : Type 0 where
  pub translated :
      (w : ℕ)
      → translate tables' (suc l) cr3 w
        ≡ (if same (suc l) w v then some entry else translate tables (suc l) cr3 w)
  pub owned :
      (a : ℕ)
      → uses tables' (suc l) cr3 a + spare l left a ≤ uses tables (suc l) cr3 a + spare l pages a
  pub ready : AreReady l left tables'

module _ (l cr3 v : ℕ) (pages : ℕ → ℕ) (tables tables' : ℕ → ℕ → ℕ) (r : Option ℕ)
    (tree : IsTree tables (suc l) cr3 (spare l pages)) (blank : AreBlank l pages tables)
    (c : Changed tables tables' (suc l) cr3 v r (spent l cr3 v pages tables)) where
  -- A page that is left has been in none of the tables, and in one place of the mapper.
  left-unspent :
      (k : ℕ)
      → k < l
      → 1 ≤ left_of (suc l) cr3 v pages tables k
      → left_of (suc l) cr3 v pages tables k ≡ pages k
      → (uses tables (suc l) cr3 (pages k) ≡ 0) × (spent l cr3 v pages tables (pages k) ≡ 0)
  left-unspent k lt there same_page =
      let has = spare-has l k (left_of (suc l) cr3 v pages tables) lt there in
      let has' = subst (λ z. 1 ≤ spare l (left_of (suc l) cr3 v pages tables) z) same_page has in
      let within = left_spare l l cr3 v pages tables (pages k) in
      (omega (arith, has', within, tree (pages k)), omega (arith, has', within, tree (pages k)))

  left-ready : AreReady l (left_of (suc l) cr3 v pages tables) tables'
  left-ready k lt there = elim (left_of-cases l cr3 v k pages tables) [
    | inl taken ↦ absurd (omega (arith, there, taken))
    | inr same_page ↦
        let (out, spared) = left-unspent k lt there same_page in
        let b = blank k lt in
        subst (IsBlank tables') (sym same_page) (record {
          nonzero = b.nonzero;
          aligned = b.aligned;
          physical = b.physical;
          zeroed = λ i small. c.apart (pages k) i small out spared ∙ b.zeroed i small;
        })
  ]

pub map_locked-Mapping :
    (l cr3 v paddr perms : ℕ) (pages : ℕ → ℕ) (tables : ℕ → ℕ → ℕ)
    → IsTree tables (suc l) cr3 (spare l pages)
    → AreBlank l pages tables
    → Mapping tables
        (map_locked (suc l) cr3 v paddr perms pages tables).1
        l
        cr3
        v
        (or_flags paddr (perms_mask perms))
        pages
        (map_locked (suc l) cr3 v paddr perms pages tables).0
unfolding map_locked leaf_written perms_mask
map_locked-Mapping l cr3 v paddr perms pages tables tree blank =
    let c =
      leaf_written-Changed l cr3 v pages tables (or_flags paddr (perms_mask perms))
        (or_flags-pos paddr (perms_mask perms) (perms_mask-present perms)) tree blank in
    record {
      translated = c.translated;
      owned = λ a. omega (arith, c.used a, left_spare l l cr3 v pages tables a);
      ready =
          left-ready l cr3 v pages tables
            (leaf_written (suc l) cr3 v pages tables (or_flags paddr (perms_mask perms)))
            (some (or_flags paddr (perms_mask perms))) tree blank c;
    }
