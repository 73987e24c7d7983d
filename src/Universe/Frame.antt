-- ===== src/Universe/Frame.antt =====
-- A call on a universe whose mutex is free: what locking, the handle check and the pin check come to.
use ricerca.Common.{
  ℕ, ◌≡◌, ◌≢◌, ◌⊎◌, refl, true, false, Option, none, some, [], ◌==◌, if◌then◌else◌, get_elem?,
  get_elem?-lt, get_elem?-length, get_elem?-none, arith, Option-cases, inl, inr, Outcome,
}
use ricerca.Status.{Status}
use ricerca.Locking.Mutex.Defs.{Task, Mutex}
use ricerca.Memory.Refcount.{Objects}
use ricerca.Memory.Dynarray.{len}
use ricerca.Cookie.Defs.{EntryCookie}
use ricerca.Cookie.Auth.{IsFree, grants, auth-grants}
use ricerca.Universe.Defs.{
  Universe, Cell, Ref, Placement, placed, refused, invalid, out_of_range, valid, check_ref_nolock,
}
use ricerca.Universe.Single.{World, locked, checked, authorized, unlocked}
use ricerca.Universe.Table.{IsSound, Updates, lookup}

-- Nobody holds or waits for the universe's mutex.
abbrev pub IsIdle : Mutex → Type 0
IsIdle m = (m.taken ≡ false) × (m.sleep_queue ≡ [])

-- A world between two calls.
pub record IsReady (ids : ℕ → ℕ) (w : World) : Type 0 where
  pub sound : IsSound ids w.universe
  pub idle : IsIdle w.universe.mutex

-- `w'` is `w` with the entry `r` at handle `i`, and the given reference counts.
pub record Becomes (ids : ℕ → ℕ) (w : World) (i : ℕ) (r : Option Ref) (o : Objects) (w' : World)
    : Type 0 where
  pub ready : IsReady ids w'
  pub table : (j : ℕ) → lookup w'.universe j ≡ (if i == j then r else lookup w.universe j)
  pub objects : w'.objects ≡ o
  pub id : w'.universe.universe_id ≡ w.universe.universe_id

-- What the handle check finds where the table has an entry.
pub check-valid :
    (u : Universe) (i : ℕ) (r : Ref)
    → lookup u i ≡ some r
    → (c : Cell) × (check_ref_nolock u i ≡ valid c)
      × (get_elem? u.cells.items i ≡ some c)
      × (c.in_use ≡ true)
      × (c.ref ≡ r)
unfolding check_ref_nolock
check-valid u i r e = elim (Option-cases (get_elem? u.cells.items i)) [
  | inl out ↦ absurd (ground arith)
  | inr (c, p) ↦ (c, ground (arith, get_elem?-lt u.cells.items i p), p, ground arith, ground arith)
]

pub check-invalid :
    (u : Universe) (i : ℕ) → lookup u i ≡ none → i ≢ len u.cells → check_ref_nolock u i ≡ invalid
unfolding check_ref_nolock
check-invalid u i e ne = elim (Option-cases (get_elem? u.cells.items i)) [
  | inl out ↦ ground (arith, get_elem?-none u.cells.items i out)
  | inr (c, p) ↦ ground (arith, get_elem?-lt u.cells.items i p)
]

-- The handle just behind the last cell passes the bounds check of every universe, and the check
-- reads the memory there.
pub check_reads_behind : (u : Universe) → check_ref_nolock u (len u.cells) ≡ out_of_range
unfolding check_ref_nolock
check_reads_behind u = ground (arith, get_elem?-length u.cells.items)

-- The world with its mutex taken.
abbrev pub held : World → World
held w = record w {
  universe = record (w.universe) { mutex = record (w.universe.mutex) { taken = true } };
}

module _ {ℓ} {A : Type ℓ} (me : Task) (w : World) where
  pub locked-idle :
      (body : World → Outcome World A) → IsIdle w.universe.mutex → locked me w body ≡ body (held w)
  unfolding locked
  locked-idle body (idle, quiet) = rw (idle, locked) refl

  pub checked-valid :
      (i : ℕ) (r : Ref) (bad : Outcome World A) (body : Cell → Outcome World A)
      → lookup w.universe i ≡ some r
      → (c : Cell) × (checked i w bad body ≡ body c)
        × (get_elem? w.universe.cells.items i ≡ some c)
        × (c.in_use ≡ true)
        × (c.ref ≡ r)
  unfolding checked
  checked-valid i r bad body e =
      let (c, p, q, busy, s) = check-valid w.universe i r e in (c, rw (p, checked), q, busy, s)

  pub checked-invalid :
      (i : ℕ) (bad : Outcome World A) (body : Cell → Outcome World A)
      → lookup w.universe i ≡ none
      → i ≢ len w.universe.cells
      → checked i w bad body ≡ bad
  unfolding checked
  checked-invalid i bad body e ne = rw (check-invalid w.universe i e ne, checked)

  pub authorized-grants :
      (cookie : EntryCookie) (r : Ref) (denied allowed : Outcome World A)
      → IsFree cookie
      → authorized me cookie r w denied allowed
        ≡ (if grants cookie r.pin_cookie then allowed else denied)
  unfolding authorized
  authorized-grants cookie r denied allowed f =
      rw (auth-grants me cookie r.pin_cookie f, authorized)

-- Giving the mutex back leaves it as it was before it was taken.
pub unlocked-held :
    (w : World) (u : Universe) (o : Objects)
    → IsIdle w.universe.mutex
    → u.mutex ≡ (held w).universe.mutex
    → unlocked (record { universe = u; objects = o })
      ≡ record { universe = record u { mutex = w.universe.mutex }; objects = o }
unfolding unlocked
unlocked-held w u o (idle, quiet) e = ground arith

module _ {ids : ℕ → ℕ} {w : World} (ok : IsReady ids w) where
  pub held-IsSound : IsSound ids (held w).universe
  held-IsSound = record { free = ok.sound.free; ordered = ok.sound.ordered }

  pub Becomes-Updates :
      {i : ℕ} {r : Option Ref} {u' : Universe} (o : Objects)
      → Updates ids (held w).universe i r u'
      → Becomes ids w i r o
          (record { universe = record u' { mutex = w.universe.mutex }; objects = o })
  Becomes-Updates o up = record {
    ready = record {
      sound = record { free = up.sound.free; ordered = up.sound.ordered };
      idle = ok.idle;
    };
    table = up.table;
    objects = refl;
    id = up.id;
  }

pub Placement-cases :
    (p : Placement)
    → ((i : ℕ) × (u : Universe) × (p ≡ placed i u)) ⊎ ((s : Status) × (p ≡ refused s))
Placement-cases (placed i u) = inl (i, u, refl)
Placement-cases (refused s) = inr (s, refl)
