-- ===== src/Universe/Spec.antt =====
-- What the operations on one universe do to the table of references and to the reference counts.
use ricerca.Common.{ℕ, ◌≡◌, ◌⊎◌, refl, Bool, true, false, none, some, inl, inr, returns}
use ricerca.Status.{Status, success, security_violation}
use ricerca.Locking.Mutex.Defs.{Task}
use ricerca.Memory.Refcount.{borrow, drop}
use ricerca.Cookie.Defs.{EntryCookie}
use ricerca.Cookie.Auth.{IsFree, grants}
use ricerca.Universe.Defs.{Ref, move_in_nolock, reclaim, repin}
use ricerca.Universe.Single.{World, move_in, drop_cell, borrow_out, move_out, pin_if, checked}
use ricerca.Universe.Table.{lookup, move_in_nolock-Updates, reclaim-Updates, repin-Updates}
use ricerca.Universe.Refusal.{Refuses, move_in_nolock-Refuses}
use ricerca.Universe.Frame.{
  IsReady, Becomes, held, locked-idle, check-valid, authorized-grants, unlocked-held, held-IsSound,
  Becomes-Updates, Placement-cases,
}

module _ {ids : ℕ → ℕ} {w : World} (ok : IsReady ids w) (me : Task) where
  -- Storing a reference succeeds, gives it a handle that named nothing and changes no other handle and no
  -- count; or it is refused for one of the two reasons, with the status of that reason, and changes
  -- nothing: it is to a universe with a lesser id, or no cell is free and the full array cannot grow.
  pub move_in-Becomes :
      (alloc : Bool) (ref : Ref)
      → ((i : ℕ) × (w' : World) × (move_in me ids alloc ref w ≡ returns (success, some i) w')
          × (lookup w.universe i ≡ none)
          × Becomes ids w i (some ref) w.objects w')
        ⊎ ((status : Status) × Refuses ids alloc ref w.universe status
            × (move_in me ids alloc ref w ≡ returns (status, none) w))
  unfolding move_in
  move_in-Becomes alloc ref =
      rw (locked-idle me w _ ok.idle)
        (elim (Placement-cases (move_in_nolock ids alloc ref (held w).universe)) [
          | inl (i, u, e) ↦
              let (vacant, up) = move_in_nolock-Updates (held-IsSound ok) alloc ref i u e in
              inl (
                i,
                record { universe = record u { mutex = w.universe.mutex }; objects = w.objects },
                rw (e, unlocked-held w u w.objects ok.idle up.mutex),
                vacant,
                Becomes-Updates ok w.objects up,
              )
          | inr (s, e) ↦ inr (
            s,
            move_in_nolock-Refuses ids alloc ref (held w).universe s e,
            rw (e, unlocked-held w (held w).universe w.objects ok.idle refl),
          )
        ])

  module _ (i : ℕ) where
    module _ {r : Ref} (entry : lookup w.universe i ≡ some r) where
      -- Moving out an entry gives the reference to the caller, empties the handle and no other, and
      -- changes no count.
      move_out-Becomes :
          (w' : World) × (move_out me i w ≡ returns (success, some r) w')
          × Becomes ids w i none w.objects w'
      unfolding move_out checked
      move_out-Becomes =
          let (c, e, at_i, busy, same) = check-valid (held w).universe i r entry in
          let up = reclaim-Updates (held-IsSound ok) i c at_i busy in
          rw (locked-idle me w _ ok.idle, e, checked)
            (
              record {
                universe = record (reclaim i c (held w).universe) { mutex = w.universe.mutex };
                objects = w.objects;
              },
              rw (same, unlocked-held w (reclaim i c (held w).universe) w.objects ok.idle up.mutex),
              Becomes-Updates ok w.objects up,
            )

      -- Borrowing an entry counts one more reference of its object, gives the caller the object and
      -- its type, and changes no handle.
      pub borrow_out-counts :
          borrow_out me i w
          ≡ returns (success, some (r.type, r.ref)) (record w { objects = borrow r.ref w.objects })
      unfolding borrow_out checked
      borrow_out-counts =
          let (c, e, at_i, busy, same) = check-valid (held w).universe i r entry in
          rw (locked-idle me w _ ok.idle, e, checked)
            (rw (same, unlocked-held w (held w).universe (borrow r.ref w.objects) ok.idle refl)
              refl)

      module _ (cookie : EntryCookie) (free : IsFree cookie) where
        -- A cookie that the pin does not admit cannot drop an entry: nothing changes.
        pub drop_cell-denied :
            grants cookie r.pin_cookie ≡ false
            → drop_cell me cookie i w ≡ returns security_violation w
        unfolding drop_cell checked
        drop_cell-denied no_ =
            let (c, e, at_i, busy, same) = check-valid (held w).universe i r entry in
            rw (locked-idle me w _ ok.idle, e, checked)
              (rw (same, authorized-grants me (held w) cookie r _ _ free, no_)
                (rw (unlocked-held w (held w).universe w.objects ok.idle refl) refl))

        -- A cookie that the pin admits empties the handle, and the object loses one reference.
        pub drop_cell-Becomes :
            grants cookie r.pin_cookie ≡ true
            → (w' : World) × (drop_cell me cookie i w ≡ returns success w')
              × Becomes ids w i none (drop r.ref w.objects) w'
        unfolding drop_cell checked
        drop_cell-Becomes may =
            let (c, e, at_i, busy, same) = check-valid (held w).universe i r entry in
            let up = reclaim-Updates (held-IsSound ok) i c at_i busy in
            (
              record {
                universe = record (reclaim i c (held w).universe) { mutex = w.universe.mutex };
                objects = drop r.ref w.objects;
              },
              rw (locked-idle me w _ ok.idle, e, checked)
                  (rw (same, authorized-grants me (held w) cookie r _ _ free, may)
                    (rw (unlocked-held w (reclaim i c (held w).universe) w.objects ok.idle up.mutex)
                      refl)),
              Becomes-Updates ok (drop r.ref w.objects) up,
            )

      -- A pinning call that the old pin admits sets the new pin and changes nothing else.
      pub pin_if-Becomes :
          (may : ℕ → Bool) (key : ℕ)
          → may r.pin_cookie ≡ true
          → (w' : World) × (pin_if me i may key w ≡ returns success w')
            × Becomes ids w i (some (record r { pin_cookie = key })) w.objects w'
      unfolding pin_if checked
      pin_if-Becomes may key yes_ =
          let (c, e, at_i, busy, same) = check-valid (held w).universe i r entry in
          let up = repin-Updates (held-IsSound ok) i c key at_i busy in
          (
            record {
              universe = record (repin i c key (held w).universe) { mutex = w.universe.mutex };
              objects = w.objects;
            },
            rw (locked-idle me w _ ok.idle, e, checked)
                (rw (same, yes_)
                  (rw (unlocked-held w (repin i c key (held w).universe) w.objects ok.idle up.mutex)
                    refl)),
            rw (← same) (Becomes-Updates ok w.objects up),
          )

      -- One that it does not admit changes nothing.
      pub pin_if-denied :
          (may : ℕ → Bool) (key : ℕ)
          → may r.pin_cookie ≡ false
          → pin_if me i may key w ≡ returns security_violation w
      unfolding pin_if checked
      pin_if-denied may key no_ =
          let (c, e, at_i, busy, same) = check-valid (held w).universe i r entry in
          rw (locked-idle me w _ ok.idle, e, checked)
            (rw (same, no_) (rw (unlocked-held w (held w).universe w.objects ok.idle refl) refl))
