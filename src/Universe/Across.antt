-- ===== src/Universe/Across.antt =====
-- Moving and borrowing between two universes, and the one-universe case of locking a pair.
use ricerca.Common.{
  ℕ, ◌≡◌, ◌⊎◌, ◌<◌, refl, Bool, true, false, Option, none, some, [], ◌∷◌, ltb, arith, Bool-cases,
  inl, inr, Outcome, returns, suspended, size_max,
}
use ricerca.Status.{Status, success, security_violation}
use ricerca.Locking.Mutex.Defs.{Task, lock, unlock}
use ricerca.Memory.Refcount.{Objects, borrow}
use ricerca.Memory.Refcount.Balance.{refs, drop-borrow}
use ricerca.Cookie.Defs.{EntryCookie}
use ricerca.Cookie.Auth.{IsFree, grants, auth-grants}
use ricerca.Universe.Defs.{Universe, Ref, move_in_nolock, reclaim}
use ricerca.Universe.Pair.{
  same, distinct, PairWorld, lock_pair, unlock_pair, move_across, borrow_across,
}
use ricerca.Universe.Table.{IsSound, Updates, lookup, move_in_nolock-Updates, reclaim-Updates}
use ricerca.Universe.Refusal.{Refuses, move_in_nolock-Refuses}
use ricerca.Universe.Frame.{IsIdle, check-valid, Placement-cases}

-- Locking a universe together with itself takes its free mutex and then sleeps on it, so the body is
-- never reached: the caller waits for a mutex that it holds itself.
lock_pair_same :
    {A : Type 0} (me : Task) (u : Universe) (o : Objects) (body : PairWorld → Outcome PairWorld A)
    → IsIdle u.mutex
    → lock_pair me (record { operands = same u; objects = o }) body
      ≡ suspended (record {
        operands = same (record u { mutex = record { taken = true; sleep_queue = me ∷ [] } });
        objects = o;
      })
unfolding lock_pair lock
lock_pair_same me u o body (idle, quiet) = elim (Bool-cases (ltb u.universe_id u.universe_id)) [
  | inl lt ↦ absurd (ground arith)
  | inr ge ↦ rw (idle, lock) (rw (ge, quiet) refl)
]

abbrev held : Universe → Universe
held u = record u { mutex = record (u.mutex) { taken = true } }

abbrev pub both : Universe → Universe → Objects → PairWorld
both s d o = record { operands = distinct s d; objects = o }

lock_pair-idle :
    {A : Type 0} (me : Task) (s d : Universe) (o : Objects) (body : PairWorld → Outcome PairWorld A)
    → IsIdle s.mutex
    → IsIdle d.mutex
    → lock_pair me (both s d o) body ≡ body (both (held s) (held d) o)
unfolding lock_pair lock
lock_pair-idle me s d o body (si, sq) (di, dq) =
    elim (Bool-cases (ltb s.universe_id d.universe_id)) [
      | inl lt ↦ rw (lt, si, lock) (rw (di, lock) refl)
      | inr ge ↦ rw (ge, di, lock) (rw (si, lock) refl)
    ]

unlock_pair-held :
    (s d s' d' : Universe) (o : Objects)
    → IsIdle s.mutex
    → IsIdle d.mutex
    → s'.mutex ≡ (held s).mutex
    → d'.mutex ≡ (held d).mutex
    → unlock_pair (both s' d' o)
      ≡ both (record s' { mutex = s.mutex }) (record d' { mutex = d.mutex }) o
unfolding unlock_pair unlock
unlock_pair-held s d s' d' o (si, sq) (di, dq) e f = ground arith

held-IsSound : {ids : ℕ → ℕ} {u : Universe} → IsSound ids u → IsSound ids (held u)
held-IsSound ok = record { free = ok.free; ordered = ok.ordered }

-- An update made under the mutex, seen after the mutex is given back.
released :
    {ids : ℕ → ℕ} {u u' : Universe} {i : ℕ} {r : Option Ref}
    → Updates ids (held u) i r u'
    → Updates ids u i r (record u' { mutex = u.mutex })
released up = record {
  sound = record { free = up.sound.free; ordered = up.sound.ordered };
  table = up.table;
  mutex = refl;
  id = up.id;
}

module _ {ids : ℕ → ℕ} {s d : Universe} (s_ok : IsSound ids s) (d_ok : IsSound ids d)
    (s_idle : IsIdle s.mutex) (d_idle : IsIdle d.mutex) (cookie : EntryCookie)
    (free : IsFree cookie) where
  module _ (me : Task) (alloc : Bool) (h : ℕ) (r : Ref) (o : Objects)
      (entry : lookup s h ≡ some r) where
    -- With a cookie that the pin admits, a move succeeds, takes the entry from the one table to a handle
    -- of the other that named nothing, pin included, and changes no count; or the other table refuses
    -- the reference, with the status of the reason that it has, and nothing changes.
    pub move_across-Updates :
        grants cookie r.pin_cookie ≡ true
        → ((i : ℕ) × (s' : Universe) × (d' : Universe) × (move_across me ids alloc cookie h
                (both s d o)
              ≡ returns (success, some i) (both s' d' o))
            × (lookup d i ≡ none)
            × Updates ids s h none s'
            × Updates ids d i (some r) d')
          ⊎ ((status : Status) × Refuses ids alloc r d status
              × (move_across me ids alloc cookie h (both s d o)
                  ≡ returns (status, none) (both s d o)))
    unfolding move_across
    move_across-Updates may =
        let (c, e, at_h, busy, eq_r) = check-valid (held s) h r entry in
        let out = reclaim-Updates (held-IsSound s_ok) h c at_h busy in
        rw (lock_pair-idle me s d o _ s_idle d_idle) (
          rw (e, eq_r, auth-grants me cookie r.pin_cookie free, may)
            (elim (Placement-cases (move_in_nolock ids alloc r (held d))) [
              | inl (i, u, p) ↦
                  let (vacant, into) = move_in_nolock-Updates (held-IsSound d_ok) alloc r i u p in
                  inl (
                    i,
                    record (reclaim h c (held s)) { mutex = s.mutex },
                    record u { mutex = d.mutex },
                    rw (
                      eq_r,
                      p,
                      unlock_pair-held s d (reclaim h c (held s)) u o s_idle d_idle out.mutex
                          into.mutex,
                    ),
                    vacant,
                    released out,
                    released into,
                  )
              | inr (st, p) ↦ inr (
                st,
                move_in_nolock-Refuses ids alloc r (held d) st p,
                rw (eq_r, p, unlock_pair-held s d (held s) (held d) o s_idle d_idle refl refl),
              )
            ]))

    -- With one that it does not admit, nothing changes.
    pub move_across-denied :
        grants cookie r.pin_cookie ≡ false
        → move_across me ids alloc cookie h (both s d o)
          ≡ returns (security_violation, none) (both s d o)
    unfolding move_across
    move_across-denied no_ =
        let (c, e, at_h, busy, eq_r) = check-valid (held s) h r entry in
        rw (lock_pair-idle me s d o _ s_idle d_idle) (
          rw (e, eq_r, auth-grants me cookie r.pin_cookie free, no_)
            (rw (unlock_pair-held s d (held s) (held d) o s_idle d_idle refl refl) refl))

    -- With a cookie that the pin admits, a borrow succeeds, puts the same entry into the other table and
    -- counts one more reference, or the other table refuses it, with the status of the reason that it
    -- has; with one that it does not admit, the answer is "security violation". Whenever it does not
    -- succeed, the reference is given back and nothing has changed.
    pub borrow_across-Updates :
        0 < refs o r.ref
        → refs o r.ref < size_max
        → ((i : ℕ) × (d' : Universe) × (grants cookie r.pin_cookie ≡ true)
            × (borrow_across me ids alloc cookie h (both s d o)
                ≡ returns (success, some i) (both s d' (borrow r.ref o)))
            × (lookup d i ≡ none)
            × Updates ids d i (some r) d')
          ⊎ ((status : Status) × (((status ≡ security_violation)
                  × (grants cookie r.pin_cookie ≡ false))
                ⊎ ((grants cookie r.pin_cookie ≡ true) × Refuses ids alloc r d status))
              × (borrow_across me ids alloc cookie h (both s d o)
                  ≡ returns (status, none) (both s d o)))
    unfolding borrow_across
    borrow_across-Updates pos fits =
        let (c, e, at_h, busy, eq_r) = check-valid (held s) h r entry in
        rw (lock_pair-idle me s d o _ s_idle d_idle) (
          rw (e, eq_r, auth-grants me cookie r.pin_cookie free)
            (elim (Bool-cases (grants cookie r.pin_cookie)) [
              | inr no_ ↦ inr (
                security_violation,
                inl (refl, no_),
                rw
                    (
                      no_,
                      eq_r,
                      unlock_pair-held s d (held s) (held d) (borrow r.ref o) s_idle d_idle refl
                          refl,
                    )
                    (rw (drop-borrow r.ref o pos fits)),
              )
              | inl may ↦ rw may (elim (Placement-cases (move_in_nolock ids alloc r (held d))) [
                | inl (i, u, p) ↦
                    let (vacant, into) = move_in_nolock-Updates (held-IsSound d_ok) alloc r i u p in
                    inl (
                      i,
                      record u { mutex = d.mutex },
                      refl,
                      rw (
                        eq_r,
                        p,
                        eq_r,
                        unlock_pair-held s d (held s) u (borrow r.ref o) s_idle d_idle refl
                            into.mutex,
                      ),
                      vacant,
                      released into,
                    )
                | inr (st, p) ↦ inr (
                  st,
                  inr (refl, move_in_nolock-Refuses ids alloc r (held d) st p),
                  rw
                      (
                        eq_r,
                        p,
                        eq_r,
                        unlock_pair-held s d (held s) (held d) (borrow r.ref o) s_idle d_idle refl
                            refl,
                      )
                      (rw (drop-borrow r.ref o pos fits)),
                )
              ])
            ]))
