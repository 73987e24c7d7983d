-- ===== src/Universe/Refusal.antt =====
-- When a universe of src/kernel/user/universe.c refuses to store a reference.
use mathlib.Core.Path.{subst}
use ricerca.Common.{
  ℕ, ◌+◌, ◌*◌, ◌≤◌, ◌<◌, ◌≡◌, ◌⊎◌, Bool, true, false, List, [], ◌&&◌, ltb, arith, inl, inr,
  Bool-cases, List-cases, Option-cases, size_max,
}
use ricerca.Status.{Status, out_of_memory, invalid_universe_order}
use ricerca.Memory.Dynarray.{Dynarray, len, push}
use ricerca.Memory.Dynarray.Laws.{push-none}
use ricerca.Universe.Defs.{Universe, Cell, Ref, is_universe, refused, move_in_nolock, cell_size}

-- The order: the reference is to a universe with a lesser id. The memory: no cell is free, the array of
-- cells is full, and it cannot grow, as the allocation fails or the size of the array wraps.
pub data Refusal (ids : ℕ → ℕ) (alloc : Bool) (ref : Ref) (id : ℕ) (free : List ℕ)
    (cells : Dynarray Cell) : Status → Type 0 where
  unordered :
      is_universe ref.type ≡ true
      → ids ref.ref < id
      → Refusal ids alloc ref id free cells invalid_universe_order
  no_room :
      free ≡ []
      → cells.capacity ≤ len cells
      → (alloc ≡ false) ⊎ (size_max < 16 + (cells.capacity + 16) * cell_size)
      → Refusal ids alloc ref id free cells out_of_memory

abbrev pub Refuses : (ids : ℕ → ℕ) (alloc : Bool) → Ref → Universe → Status → Type 0
Refuses ids alloc ref u = Refusal ids alloc ref u.universe_id u.free_list u.cells

-- Only for these reasons a reference is not stored, each with its status.
pub move_in_nolock-Refuses :
    (ids : ℕ → ℕ) (alloc : Bool) (ref : Ref) (u : Universe) (s : Status)
    → move_in_nolock ids alloc ref u ≡ refused s
    → Refuses ids alloc ref u s
unfolding move_in_nolock
move_in_nolock-Refuses ids alloc ref u s e =
    elim (Bool-cases (is_universe ref.type && ltb (ids ref.ref) u.universe_id)) [
      | inl order ↦
          let s_is : invalid_universe_order ≡ s = ground (arith, e, order) in
          subst (Refuses ids alloc ref u) s_is
            (unordered (ground (arith, order)) (ground (arith, order)))
      | inr fine ↦ elim (List-cases u.free_list) [
        | inr (i, rest, h) ↦ absurd (ground (arith, e, fine, h))
        | inl empty ↦
            elim (Option-cases
              (push alloc cell_size (record { in_use = true; ref = ref }) u.cells)) [
                | inr (cells, q) ↦ absurd (ground (arith, e, fine, empty, q))
                | inl full ↦
                    let s_is : out_of_memory ≡ s = ground (arith, e, fine, empty, full) in
                    let (there, why) =
                      push-none alloc cell_size (record { in_use = true; ref = ref }) u.cells
                        full in
                    subst (Refuses ids alloc ref u) s_is (no_room empty there why)
              ]
      ]
    ]
