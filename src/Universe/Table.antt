-- ===== src/Universe/Table.antt =====
-- What a universe stands for: a table of references by handle; and the invariant of the free list.
use ricerca.Common.{
  ℕ, ◌≡◌, ◌≤◌, refl, Bool, true, false, Option, none, some, List, [], ◌∷◌, ◌++◌, ◌==◌,
  if◌then◌else◌, get_elem?, get_elem?-set, get_elem?-snoc, get_elem?-length, set, count,
  count-append, arith, Option-cases, inl, inr,
}
use ricerca.Memory.Dynarray.{Dynarray, len, push}
use ricerca.Memory.Dynarray.Laws.{push-items}
use ricerca.Universe.Defs.{
  Universe, Cell, Ref, is_universe, with_items, placed, move_in_nolock, reclaim, repin, cell_size,
}

abbrev used : Option Cell → Option Ref
used none = none
used (some c) = if c.in_use then some c.ref else none

abbrev pub idle : Option Cell → ℕ
idle none = 0
idle (some c) = if c.in_use then 0 else 1

-- The reference that a handle names.
abbrev pub lookup : Universe → ℕ → Option Ref
lookup u i = used (get_elem? u.cells.items i)

-- A handle that names a reference is the index of a cell in use that holds it.
pub lookup-cell :
    (u : Universe) (i : ℕ) (r : Ref)
    → lookup u i ≡ some r
    → get_elem? u.cells.items i ≡ some (record { in_use = true; ref = r })
lookup-cell u i r e = elim (Option-cases (get_elem? u.cells.items i)) [
  | inl out ↦ absurd (ground arith)
  | inr (c, p) ↦ ground arith
]

-- A reference to a universe never leads to one with a smaller id.
abbrev pub IsOrdered : (ℕ → ℕ) → ℕ → Ref → Type 0
IsOrdered ids id r = is_universe r.type ≡ true → id ≤ ids r.ref

-- The free list holds each cell that is not in use exactly once, and nothing else.
pub record IsSound (ids : ℕ → ℕ) (u : Universe) : Type 0 where
  pub free : (i : ℕ) → count i u.free_list ≡ idle (get_elem? u.cells.items i)
  pub ordered : (i : ℕ) (r : Ref) → lookup u i ≡ some r → IsOrdered ids u.universe_id r

-- `u'` is the table `u` with the entry `r` at handle `i`; mutex and id are the same.
pub record Updates (ids : ℕ → ℕ) (u : Universe) (i : ℕ) (r : Option Ref) (u' : Universe)
    : Type 0 where
  pub sound : IsSound ids u'
  pub table : (j : ℕ) → lookup u' j ≡ (if i == j then r else lookup u j)
  pub mutex : u'.mutex ≡ u.mutex
  pub id : u'.universe_id ≡ u.universe_id

module _ {ids : ℕ → ℕ} {u : Universe} (ok : IsSound ids u) where
  pub reclaim-Updates :
      (i : ℕ) (c : Cell)
      → get_elem? u.cells.items i ≡ some c
      → c.in_use ≡ true
      → Updates ids u i none (reclaim i c u)
  unfolding reclaim
  reclaim-Updates i c e busy = record {
    sound = record {
      free = λ j. ground (
        arith,
        count-append j u.free_list (i ∷ []),
        ok.free j,
        get_elem?-set u.cells.items i j (record c { in_use = false }) c e,
      );
      ordered = λ j r p. ground (
        arith,
        ok.ordered j r,
        get_elem?-set u.cells.items i j (record c { in_use = false }) c e,
      );
    };
    table = λ j. ground (arith, get_elem?-set u.cells.items i j (record c { in_use = false }) c e);
    mutex = refl;
    id = refl;
  }

  pub repin-Updates :
      (i : ℕ) (c : Cell) (key : ℕ)
      → get_elem? u.cells.items i ≡ some c
      → c.in_use ≡ true
      → Updates ids u i (some (record (c.ref) { pin_cookie = key })) (repin i c key u)
  unfolding repin
  repin-Updates i c key e busy = record {
    sound = record {
      free = λ j. ground (arith, ok.free j, get_elem?-set u.cells.items i j new c e);
      ordered = λ j r p.
          ground
            (arith, ok.ordered j r, ok.ordered i c.ref, get_elem?-set u.cells.items i j new c e);
    };
    table = λ j. ground (arith, get_elem?-set u.cells.items i j new c e);
    mutex = refl;
    id = refl;
  }
    where
      new : Cell
      new = record c { ref = record (c.ref) { pin_cookie = key } }

  -- A cell taken from the free list is one that is not in use.
  head_idle :
      (i : ℕ) (rest : List ℕ)
      → u.free_list ≡ i ∷ rest
      → (c : Cell) × (get_elem? u.cells.items i ≡ some c) × (c.in_use ≡ false)
  head_idle i rest e = elim (Option-cases (get_elem? u.cells.items i)) [
    | inl out ↦ absurd (ground (arith, ok.free i))
    | inr (c, p) ↦ (c, p, ground (arith, ok.free i))
  ]

  module _ (ref : Ref) (fits : IsOrdered ids u.universe_id ref) where
    -- The first cell of the free list takes the reference.
    reuse-Updates :
        (i : ℕ) (rest : List ℕ)
        → u.free_list ≡ i ∷ rest
        → (lookup u i ≡ none)
          × Updates ids u i (some ref) (
              with_items
                (record u { free_list = rest })
                (set u.cells.items i (record { in_use = true; ref = ref })))
    reuse-Updates i rest e =
        let (c, p, vacant) = head_idle i rest e in
        (
          ground arith,
          record {
            sound = record {
              free = λ j. ground (arith, ok.free j, get_elem?-set u.cells.items i j new c p);
              ordered =
                  λ j r q. ground (arith, ok.ordered j r, get_elem?-set u.cells.items i j new c p);
            };
            table = λ j. ground (arith, get_elem?-set u.cells.items i j new c p);
            mutex = refl;
            id = refl;
          },
        )
      where
        new : Cell
        new = record { in_use = true; ref = ref }

    -- A new cell behind the last one takes the reference.
    grow-Updates :
        (cells : Dynarray Cell)
        → cells.items ≡ u.cells.items ++ record { in_use = true; ref = ref } ∷ []
        → (lookup u (len u.cells) ≡ none)
          × Updates ids u (len u.cells) (some ref) (record u { cells = cells })
    grow-Updates cells e = (
      ground (arith, get_elem?-length u.cells.items),
      record {
        sound = record {
          free = λ j. ground (
            arith,
            ok.free j,
            get_elem?-snoc u.cells.items new j,
            get_elem?-length u.cells.items,
          );
          ordered = λ j r q. ground (arith, ok.ordered j r, get_elem?-snoc u.cells.items new j);
        };
        table = λ j. ground (arith, get_elem?-snoc u.cells.items new j);
        mutex = refl;
        id = refl;
      },
    )
      where
        new : Cell
        new = record { in_use = true; ref = ref }

  -- A reference that is stored gets a handle that named nothing before, and no other handle changes.
  pub move_in_nolock-Updates :
      (alloc : Bool) (ref : Ref) (i : ℕ) (u' : Universe)
      → move_in_nolock ids alloc ref u ≡ placed i u'
      → (lookup u i ≡ none) × Updates ids u i (some ref) u'
  unfolding move_in_nolock
  move_in_nolock-Updates alloc ref i u' e = go u.free_list refl
    where
      fits : IsOrdered ids u.universe_id ref
      fits = λ t. ground arith

      go : (fs : List ℕ) → u.free_list ≡ fs → (lookup u i ≡ none) × Updates ids u i (some ref) u'
      go (j ∷ rest) p =
          let at_head : i ≡ j = ground arith in
          let same : u'
              ≡ with_items (record u { free_list = rest })
                  (set u.cells.items j (record { in_use = true; ref = ref })) =
            ground arith in
          rw (at_head, same) (reuse-Updates ref fits j rest p)
      go [] p =
          elim (Option-cases (push alloc cell_size (record { in_use = true; ref = ref }) u.cells)) [
            | inl full ↦ absurd (ground arith)
            | inr (cells, q) ↦
                let at_end : i ≡ len u.cells = ground arith in
                let same : u' ≡ record u { cells = cells } = ground arith in
                rw (at_end, same)
                  (grow-Updates ref fits cells
                    (push-items alloc cell_size (record { in_use = true; ref = ref }) u.cells q))
          ]
