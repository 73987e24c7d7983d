-- ===== src/Universe/Defs.antt =====
-- Universes, their cells, and the functions that run with the universe's mutex held.
use ricerca.Common.{
  ℕ, Bool, true, false, ◌&&◌, none, some, List, [], ◌∷◌, ◌++◌, ltb, if◌then◌else◌, get_elem?, set,
}
use ricerca.Status.{Status, out_of_memory, invalid_universe_order}
use ricerca.Locking.Mutex.Defs.{Mutex}
use ricerca.Memory.Dynarray.{Dynarray, len, push}

-- USER_OBJ_TYPE_*
pub data ObjType : Type 0 where
  none_type caller callee token mailbox universe_type group_cookie entry_cookie : ObjType
  shm_owner shm_rw_ref shm_ro_ref : ObjType

abbrev pub is_universe : ObjType → Bool
is_universe universe_type = true
is_universe _ = false

-- struct user_ref: the address of the object, its type, and the key of who may use the reference.
pub record Ref : Type 0 where
  pub ref : ℕ
  pub type : ObjType
  pub pin_cookie : ℕ

-- struct user_universe_cell; a cell is named by its index.
pub record Cell : Type 0 where
  pub in_use : Bool
  pub ref : Ref

pub record Universe : Type 0 where
  pub mutex : Mutex
  pub free_list : List ℕ
  pub universe_id : ℕ
  pub cells : Dynarray Cell

-- sizeof(struct user_universe_cell)
abbrev pub cell_size : ℕ
cell_size = 48

abbrev pub with_items : Universe → List Cell → Universe
with_items u cs = record u { cells = record u.cells { items = cs } }

-- A reference is stored in a cell, or the universe stays as it was.
pub data Placement : Type 0 where
  placed : ℕ → Universe → Placement
  refused : Status → Placement

-- user_universe_move_in_nolock; `ids` gives the id of the universe at an address, `alloc` the
-- outcome of the allocation that growing the cells may make.
unfoldable pub move_in_nolock : (ids : ℕ → ℕ) (alloc : Bool) → Ref → Universe → Placement
move_in_nolock ids alloc ref u =
    if is_universe ref.type && ltb (ids ref.ref) u.universe_id
    then refused invalid_universe_order
    else elim u.free_list [
      | i ∷ rest ↦ placed i (
          with_items (record u { free_list = rest })
            (set u.cells.items i (record { in_use = true; ref = ref })))
      | [] ↦ elim (push alloc cell_size (record { in_use = true; ref = ref }) u.cells) [
        | none ↦ refused out_of_memory
        | some cells ↦ placed (len u.cells) (record u { cells = cells })
      ]
    ]

-- What user_universe_check_ref_nolock finds at an index: no reference, a cell in use, or memory
-- behind the last cell.
pub data Check : Type 0 where
  invalid out_of_range : Check
  valid : Cell → Check

-- user_universe_check_ref_nolock
unfoldable pub check_ref_nolock : Universe → ℕ → Check
check_ref_nolock u cell =
    if ltb (len u.cells) cell then invalid else elim (get_elem? u.cells.items cell) [
      | none ↦ out_of_range
      | some c ↦ if c.in_use then valid c else invalid
    ]

-- `cells[cell].in_use = false`, and the cell goes to the tail of the free list.
unfoldable pub reclaim : ℕ → Cell → Universe → Universe
reclaim i c u =
    with_items (record u { free_list = u.free_list ++ i ∷ [] })
      (set u.cells.items i (record c { in_use = false }))

-- `cells[handle].ref.pin_cookie = key`
unfoldable pub repin : ℕ → Cell → (key : ℕ) → Universe → Universe
repin i c key u =
    with_items u (set u.cells.items i (record c { ref = record (c.ref) { pin_cookie = key } }))
