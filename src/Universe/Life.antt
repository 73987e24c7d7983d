-- ===== src/Universe/Life.antt =====
-- Creating, destroying and forking universes.
use ricerca.Common.{
  ℕ, zero, suc, ◌+◌, ◌%◌, ◌≡◌, ◌<◌, refl, sym, ◌∙◌, Bool, true, false, Option, none, some, List, [],
  ◌∷◌, ◌++◌, if◌then◌else◌, get_elem?, arith, size_mod, count, Outcome, returns, suspended, fault,
  Bool-cases, inl, inr,
}
use ricerca.Status.{Status, success, out_of_memory, invalid_universe_order}
use ricerca.Locking.Mutex.Defs.{Task, Mutex, lock, unlock, init as mutex_init}
use ricerca.Memory.Refcount.{Objects, init, borrow, drop}
use ricerca.Memory.Dynarray.{Dynarray, new, resize, len}
use ricerca.Cookie.Defs.{EntryCookie, auth}
use ricerca.Cookie.Auth.{IsFree, grants, auth-grants}
use ricerca.Universe.Defs.{Universe, Cell, Ref, cell_size, is_universe, move_in_nolock, refused}
use ricerca.Universe.Table.{lookup, idle}

-- user_universe_last_id, the reference counts, and the universe that is forked.
pub record Kernel : Type 0 where
  pub last_id : ℕ
  pub objects : Objects
  pub source : Universe

-- user_universe_destroy: what happens to the counts; the memory is then given back.
unfoldable pub destroy : List Cell → Objects → Objects
destroy [] o = o
destroy (c ∷ cs) o = destroy cs (if c.in_use then drop c.ref.ref o else o)

-- user_universe_create; `mem` and `alloc` are the outcomes of its two allocations.
unfoldable pub create : (mem : Option ℕ) (alloc : Bool) → Kernel → Status × Option Universe × Kernel
create none alloc k = (out_of_memory, none, k)
create (some res) alloc k = elim (new {A = Cell} alloc) [
  | none ↦ (out_of_memory, none, k)
  | some cells ↦ (
    success,
    some (record { mutex = mutex_init; free_list = []; universe_id = k.last_id; cells = cells }),
    record k { last_id = (k.last_id + 1) % size_mod; objects = init res true k.objects },
  )
]

-- What the copying loop has done from an index on: the new cells, the free ones, and the counts; or
-- it sleeps on the cookie's mutex.
pub data Copied : Type 0 where
  copied : List Cell → List ℕ → Objects → Copied
  asleep : Copied

abbrev prepend : Cell → List ℕ → Copied → Copied
prepend c free (copied cs fs o) = copied (c ∷ cs) (free ++ fs) o
prepend c free asleep = asleep

-- The loop of user_universe_fork; `junk` is what the memory of a new cell held before.
unfoldable pub copy : Task → EntryCookie → (junk : Ref) → (i : ℕ) → List Cell → Objects → Copied
copy me cookie junk i [] o = copied [] [] o
copy me cookie junk i (c ∷ cs) o =
    let keep =
      prepend (record { in_use = true; ref = c.ref }) []
        (copy me cookie junk (suc i) cs (borrow c.ref.ref o)) in
    let skip =
      prepend (record { in_use = false; ref = junk }) (i ∷ []) (copy me cookie junk (suc i) cs o) in
    if c.in_use
    then elim (auth me cookie c.ref.pin_cookie) [
      | returns ok _ ↦ if ok then keep else skip
      | suspended _ ↦ asleep
      | fault ↦ asleep
    ]
    else skip

-- user_universe_fork. Where the cells cannot be resized the source drops the new universe, whose
-- `cells` pointer is not set yet.
unfoldable pub fork :
    Task
    → EntryCookie
    → (mem : Option ℕ) (alloc0 alloc1 : Bool) (junk : Ref) → Kernel
    → Outcome Kernel (Status × Option Universe)
fork me cookie none alloc0 alloc1 junk k = returns (out_of_memory, none) k
fork me cookie (some res) alloc0 alloc1 junk k = elim (new {A = Cell} alloc0) [
  | none ↦ returns (out_of_memory, none) k
  | some cells ↦
      let k' : Kernel = record k {
        last_id = (k.last_id + 1) % size_mod;
        objects = init res true k.objects;
      } in
      let (m, acquired) = lock me k.source.mutex in
      let with_mutex = λ (m : Mutex) (o : Objects). record k' {
        source = record (k.source) { mutex = m };
        objects = o;
      } in
      if acquired
      then elim (resize alloc1 cell_size (record { in_use = false; ref = junk })
          (len k.source.cells) cells) [
            | none ↦ fault
            | some d ↦ elim (copy me cookie junk 0 k.source.cells.items k'.objects) [
              | asleep ↦ suspended (with_mutex m k'.objects)
              | copied cs free o ↦
                  returns
                    (
                      success,
                      some (record {
                        mutex = mutex_init;
                        free_list = free;
                        universe_id = k.last_id;
                        cells = record d { items = cs };
                      }),
                    )
                    (with_mutex (unlock m).0 o)
            ]
          ]
      else suspended (with_mutex m k'.objects)
]

-- The references that a fork keeps.
abbrev pub kept : EntryCookie → Option Ref → Option Ref
kept cookie none = none
kept cookie (some r) = if grants cookie r.pin_cookie then some r else none

abbrev used : Option Cell → Option Ref
used none = none
used (some c) = if c.in_use then some c.ref else none

-- The loop from index `i` on: cell j of the copy is kept as the source's cell j and the cookie say,
-- and the free list holds each cell that is not, once.
record Copies (cookie : EntryCookie) (i : ℕ) (src : List Cell) (cs : List Cell) (fs : List ℕ)
    : Type 0 where
  table : (j : ℕ) → used (get_elem? cs j) ≡ kept cookie (used (get_elem? src j))
  free : (j : ℕ) → count (i + j) fs ≡ idle (get_elem? cs j)
  above : (j : ℕ) → j < i → count j fs ≡ 0

module _ {cookie : EntryCookie} (i : ℕ) (c : Cell) {src cs : List Cell} {fs : List ℕ}
    (rest : Copies cookie (suc i) src cs fs) where
  keep-Copies :
      c.in_use ≡ true
      → grants cookie c.ref.pin_cookie ≡ true
      → Copies cookie i (c ∷ src) (record { in_use = true; ref = c.ref } ∷ cs) fs
  keep-Copies busy may = record {
    table = elim [ zero ↦ ground arith | suc j ↦ rest.table j ];
    free = elim [
      | zero ↦ let e : i + 0 ≡ i = omega arith in rw e (rest.above i (omega arith))
      | suc j ↦ let e : i + suc j ≡ suc i + j = omega arith in rw e (rest.free j)
    ];
    above = λ j h. rest.above j (omega arith);
  }

  skip-Copies :
      (junk : Ref)
      → kept cookie (used (some c)) ≡ none
      → Copies cookie i (c ∷ src) (record { in_use = false; ref = junk } ∷ cs) (i ∷ fs)
  skip-Copies junk out = record {
    table = elim [ zero ↦ sym out | suc j ↦ rest.table j ];
    free = elim [
      | zero ↦
          let e : i + 0 ≡ i = omega arith in
          let old : count (i + 0) fs ≡ 0 = rw e (rest.above i (omega arith)) in ground arith
      | suc j ↦
          let e : i + suc j ≡ suc i + j = omega arith in
          let old : count (i + suc j) fs ≡ idle (get_elem? cs j) = rw e (rest.free j) in
          ground arith
    ];
    above = λ j h. ground (arith, rest.above j);
  }

copy-Copies :
    (me : Task) (cookie : EntryCookie) (junk : Ref) (i : ℕ) (src : List Cell) (o : Objects)
    → IsFree cookie
    → (cs : List Cell) × (fs : List ℕ) × (o' : Objects) × (copy me cookie junk i src o
        ≡ copied cs fs o')
      × Copies cookie i src cs fs
unfolding copy
copy-Copies me cookie junk i [] o f =
    ([], [], o, refl, record { table = λ j. refl; free = λ j. refl; above = λ j h. refl })
copy-Copies me cookie junk i (c ∷ src) o f = elim (Bool-cases c.in_use) [
  | inr vacant ↦
      let (cs, fs, o', e, rest) = copy-Copies me cookie junk (suc i) src o f in
      (
        record { in_use = false; ref = junk } ∷ cs,
        i ∷ fs,
        o',
        rw (vacant, e),
        skip-Copies i c rest junk (rw vacant),
      )
  | inl busy ↦ elim (Bool-cases (grants cookie c.ref.pin_cookie)) [
    | inr no_ ↦
        let (cs, fs, o', e, rest) = copy-Copies me cookie junk (suc i) src o f in
        (
          record { in_use = false; ref = junk } ∷ cs,
          i ∷ fs,
          o',
          rw (busy, auth-grants me cookie c.ref.pin_cookie f, no_, e),
          skip-Copies i c rest junk (rw (busy, no_)),
        )
    | inl may ↦
        let (cs, fs, o', e, rest) = copy-Copies me cookie junk (suc i) src (borrow c.ref.ref o) f in
        (
          record { in_use = true; ref = c.ref } ∷ cs,
          fs,
          o',
          rw (busy, auth-grants me cookie c.ref.pin_cookie f, may, e),
          keep-Copies i c rest busy may,
        )
  ]
]

-- What a fork of `source` for `cookie` is: the table has exactly the references that the cookie may
-- use, the free list holds each other cell once, and the id is the next one.
pub record Forked (cookie : EntryCookie) (k : Kernel) (u : Universe) : Type 0 where
  pub table : (j : ℕ) → lookup u j ≡ kept cookie (lookup k.source j)
  pub free : (j : ℕ) → count j u.free_list ≡ idle (get_elem? u.cells.items j)
  pub id : u.universe_id ≡ k.last_id

-- With both mutexes free and memory for the cells, a fork succeeds, leaves the source's table as it
-- was, and makes a universe as `Forked` says: what the cookie may use, and nothing else.
pub fork-Forked :
    (me : Task) (cookie : EntryCookie) (res : ℕ) (junk : Ref) (k : Kernel) {d : Dynarray Cell}
    → IsFree cookie
    → k.source.mutex.taken ≡ false
    → resize true cell_size
        (record { in_use = false; ref = junk })
        (len k.source.cells)
        (record { items = []; capacity = 0 })
      ≡ some d
    → (u : Universe) × (k' : Kernel) × (fork me cookie (some res) true true junk k
        ≡ returns (success, some u) k')
      × (k'.source.cells ≡ k.source.cells)
      × Forked cookie k u
unfolding fork lock new
fork-Forked me cookie res junk k {d} f idle_ e =
    let (cs, fs, o, p, all) =
      copy-Copies me cookie junk 0 k.source.cells.items (init res true k.objects) f in
    (
      record {
        mutex = mutex_init;
        free_list = fs;
        universe_id = k.last_id;
        cells = record d { items = cs };
      },
      record {
        last_id = (k.last_id + 1) % size_mod;
        objects = o;
        source = record (k.source) {
          mutex = (unlock (record (k.source.mutex) { taken = true })).0;
        };
      },
      rw (idle_, lock) (rw (e, p) (rw (idle_, lock) refl)),
      refl,
      record { table = all.table; free = λ j. ground (arith, all.free j); id = refl },
    )

-- A fork keeps references to universes as it keeps others: one that the cookie may use stands in the
-- new universe although its id is smaller, which storing it there would refuse.
fork_unordered :
    (ids : ℕ → ℕ) (me : Task) (cookie : EntryCookie) (res : ℕ) (junk : Ref) (k : Kernel)
    {d : Dynarray Cell} (j : ℕ) (r : Ref) (alloc : Bool)
    → IsFree cookie
    → k.source.mutex.taken ≡ false
    → resize true cell_size
        (record { in_use = false; ref = junk })
        (len k.source.cells)
        (record { items = []; capacity = 0 })
      ≡ some d
    → lookup k.source j ≡ some r
    → grants cookie r.pin_cookie ≡ true
    → is_universe r.type ≡ true
    → ids r.ref < k.last_id
    → (u : Universe) × (k' : Kernel) × (fork me cookie (some res) true true junk k
        ≡ returns (success, some u) k')
      × (lookup u j ≡ some r)
      × (move_in_nolock ids alloc r u ≡ refused invalid_universe_order)
unfolding move_in_nolock
fork_unordered ids me cookie res junk k j r alloc f idle_ e entry may uni older =
    let (u, k', run, same, all) = fork-Forked me cookie res junk k f idle_ e in
    (u, k', run, all.table j ∙ rw (entry, may), order u all.id)
  where
    order :
        (u : Universe)
        → u.universe_id ≡ k.last_id
        → move_in_nolock ids alloc r u ≡ refused invalid_universe_order
    order u p = ground arith
