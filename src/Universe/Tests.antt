-- ===== src/Universe/Tests.antt =====
-- Runs of the universe calls on small tables, and the theorems at them.
use ricerca.Common.{
  ℕ, zero, suc, ◌≡◌, ◌≢◌, ◌⊎◌, refl, true, false, none, some, [], ◌∷◌, ◌==◌, if◌then◌else◌, arith,
  returns, count, get_elem?,
}
use ricerca.Status.{security_violation, Status, success}
use ricerca.Locking.Mutex.Defs.{init as mutex_init}
use ricerca.Memory.Refcount.{Objects, borrow, drop}
use ricerca.Memory.Dynarray.{resize, change_cap, align_up}
use ricerca.Memory.SizeOrder.{realloc_succeeds, size_order}
use ricerca.Cookie.Defs.{EntryCookie, universal}
use ricerca.Cookie.Auth.{grants}
use ricerca.Universe.Defs.{Universe, Cell, Ref, mailbox, universe_type, move_in_nolock}
use ricerca.Universe.Single.{World, move_in, move_in_pair, drop_cell, locked, unlocked}
use ricerca.Universe.Pair.{move_across, borrow_across}
use ricerca.Universe.Life.{Kernel, fork, Forked, fork-Forked}
use ricerca.Universe.Table.{IsSound, Updates, lookup, idle}
use ricerca.Universe.Frame.{IsReady, Becomes}
use ricerca.Universe.Spec.{move_in-Becomes, drop_cell-Becomes}
use ricerca.Universe.Errors.{Restored, move_in_pair-atomic}
use ricerca.Universe.Refusal.{Refuses}
use ricerca.Universe.Across.{both, move_across-Updates, borrow_across-Updates}

abbrev letter : Ref
letter = record { ref = 100; type = mailbox; pin_cookie = 7 }

abbrev spare : Cell
spare = record { in_use = false; ref = letter }

-- One reference at handle 0, and a free cell.
abbrev table : Universe
table = record {
  mutex = mutex_init;
  free_list = 1 ∷ [];
  universe_id = 5;
  cells = record { items = record { in_use = true; ref = letter } ∷ spare ∷ []; capacity = 16 };
}

abbrev ids : ℕ → ℕ
ids _ = 5

abbrev counts : Objects
counts = record { rc = λ _. record { refcount = 3; drop = true }; disposed = [] }

abbrev world : World
world = record { universe = table; objects = counts }

table-IsSound : IsSound ids table
table-IsSound = record {
  free = elim [
    | zero ↦ refl
    | suc i ↦ elim i as (λ i. count (suc i) (1 ∷ []) ≡ idle (get_elem? table.cells.items (suc i))) [
      | zero ↦ refl
      | suc j ↦ ground arith
    ]
  ];
  ordered = λ i r e t. omega arith;
}

world-IsReady : IsReady ids world
world-IsReady = record { sound = table-IsSound; idle = (refl, refl) }

-- An entry cookie with the key 7, and no group.
abbrev owner : EntryCookie
owner = record { key = 7; mutex = mutex_init; grp_keys = record { items = []; capacity = 0 } }

abbrev stranger : EntryCookie
stranger = record owner { key = 8 }

abbrev parcel : Ref
parcel = record { ref = 200; type = mailbox; pin_cookie = universal }

move_in_reuses :
    move_in 1 ids false parcel world
    ≡ returns
        (success, some 1)
        (record world {
          universe = record table {
            free_list = [];
            cells = record {
              items =
                  record { in_use = true; ref = letter }
                  ∷ record { in_use = true; ref = parcel }
                  ∷ [];
              capacity = 16;
            };
          };
        })
unfolding move_in locked unlocked move_in_nolock
move_in_reuses = refl

move_in-Becomes_example :
    ((i : ℕ) × (w' : World) × (move_in 1 ids true parcel world ≡ returns (success, some i) w')
      × (lookup table i ≡ none)
      × Becomes ids world i (some parcel) counts w')
    ⊎ ((status : Status) × Refuses ids true parcel table status
        × (move_in 1 ids true parcel world ≡ returns (status, none) world))
move_in-Becomes_example = move_in-Becomes world-IsReady 1 true parcel

drop_cell-Becomes_example :
    (w' : World) × (drop_cell 1 owner 0 world ≡ returns success w')
    × Becomes ids world 0 none (drop 100 counts) w'
unfolding grants
drop_cell-Becomes_example = drop_cell-Becomes world-IsReady 1 0 refl owner (refl, refl) refl

move_in_pair-atomic_example :
    ((i j : ℕ) × (w' : World) × (move_in_pair 1 ids true false letter parcel world
        ≡ returns (success, some (i, j)) w')
      × (lookup table i ≡ none)
      × (lookup table j ≡ none)
      × (i ≢ j)
      × ((k : ℕ)
          → lookup w'.universe k
            ≡ (if j == k then some parcel else if i == k then some letter else lookup table k))
      × (w'.objects ≡ counts)
      × IsReady ids w')
    ⊎ ((status : Status) × (w' : World) × (move_in_pair 1 ids true false letter parcel world
          ≡ returns (status, none) w')
        × Restored world-IsReady 1 w')
move_in_pair-atomic_example = move_in_pair-atomic world-IsReady 1 true false letter parcel

move_across-Updates_example :
    ((i : ℕ) × (s' : Universe) × (d' : Universe) × (move_across 1 ids true owner 0
          (both table table counts)
        ≡ returns (success, some i) (both s' d' counts))
      × (lookup table i ≡ none)
      × Updates ids table 0 none s'
      × Updates ids table i (some letter) d')
    ⊎ ((status : Status) × Refuses ids true letter table status
        × (move_across 1 ids true owner 0 (both table table counts)
            ≡ returns (status, none) (both table table counts)))
unfolding grants
move_across-Updates_example =
    move_across-Updates table-IsSound table-IsSound (refl, refl) (refl, refl) owner (refl, refl) 1
      true 0 letter counts refl refl

borrow_across-Updates_example :
    ((i : ℕ) × (d' : Universe) × (grants stranger letter.pin_cookie ≡ true)
      × (borrow_across 1 ids true stranger 0 (both table table counts)
          ≡ returns (success, some i) (both table d' (borrow 100 counts)))
      × (lookup table i ≡ none)
      × Updates ids table i (some letter) d')
    ⊎ ((status : Status) × (((status ≡ security_violation)
            × (grants stranger letter.pin_cookie ≡ false))
          ⊎ ((grants stranger letter.pin_cookie ≡ true) × Refuses ids true letter table status))
        × (borrow_across 1 ids true stranger 0 (both table table counts)
            ≡ returns (status, none) (both table table counts)))
borrow_across-Updates_example =
    borrow_across-Updates table-IsSound table-IsSound (refl, refl) (refl, refl) stranger
      (refl, refl) 1 true 0 letter counts refl (omega arith) (omega arith)

-- A universe that holds a reference to another one, and the kernel that forks it.
abbrev below : Ref
below = record { ref = 300; type = universe_type; pin_cookie = universal }

abbrev kernel : Kernel
kernel = record {
  last_id = 9;
  objects = counts;
  source = record table {
    cells = record { items = record { in_use = true; ref = below } ∷ spare ∷ []; capacity = 16 };
  };
}

fork-Forked_example :
    (u : Universe) × (k' : Kernel) × (fork 1 owner (some 400) true true letter kernel
      ≡ returns (success, some u) k')
    × (k'.source.cells ≡ kernel.source.cells)
    × Forked owner kernel u
unfolding resize change_cap realloc_succeeds align_up size_order
fork-Forked_example = fork-Forked 1 owner 400 letter kernel (refl, refl) refl refl
