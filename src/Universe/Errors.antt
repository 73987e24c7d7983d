-- ===== src/Universe/Errors.antt =====
-- Handles that name nothing, the handle behind the last cell, and storing two references or none.
use ricerca.Common.{
  ℕ, ◌≡◌, ◌≢◌, ◌⊎◌, refl, ◌∙◌, Bool, none, some, ◌==◌, if◌then◌else◌, arith, ==_refl, inl, inr,
  returns, fault,
}
use ricerca.Status.{Status, success, invalid_handle}
use ricerca.Locking.Mutex.Defs.{Task}
use ricerca.Memory.Dynarray.{len}
use ricerca.Cookie.Defs.{EntryCookie}
use ricerca.Universe.Defs.{Ref, move_in_nolock, reclaim}
use ricerca.Universe.Single.{
  World, move_in_pair, drop_cell, borrow_out, move_out, pin_if, checked, filled,
}
use ricerca.Universe.Table.{lookup, lookup-cell, move_in_nolock-Updates, reclaim-Updates}
use ricerca.Universe.Frame.{
  IsReady, check_reads_behind, check-invalid, held, locked-idle, unlocked-held, held-IsSound,
  Placement-cases,
}

module _ {ids : ℕ → ℕ} {w : World} (ok : IsReady ids w) (me : Task) where
  -- Every call on a handle that names nothing, but for the one just behind the last cell, answers
  -- "invalid handle" and changes nothing.
  pub invalid_handle_unchanged :
      (i : ℕ) (cookie : EntryCookie) (may : ℕ → Bool) (key : ℕ)
      → lookup w.universe i ≡ none
      → i ≢ len w.universe.cells
      → (drop_cell me cookie i w ≡ returns invalid_handle w)
        × (borrow_out me i w ≡ returns (invalid_handle, none) w)
        × (move_out me i w ≡ returns (invalid_handle, none) w)
        × (pin_if me i may key w ≡ returns invalid_handle w)
  unfolding drop_cell borrow_out move_out pin_if checked
  invalid_handle_unchanged i cookie may key vacant ne =
      let bad = check-invalid (held w).universe i vacant ne in
      let back = unlocked-held w (held w).universe w.objects ok.idle refl in
      (
        rw (locked-idle me w _ ok.idle, bad, checked) (rw back refl),
        rw (locked-idle me w _ ok.idle, bad, checked) (rw back refl),
        rw (locked-idle me w _ ok.idle, bad, checked) (rw back refl),
        rw (locked-idle me w _ ok.idle, bad, checked) (rw back refl),
      )

  -- The handle just behind the last cell is no handle, but every call on it passes the bounds check
  -- and goes on with what the memory behind the cells holds.
  pub handle_behind_faults :
      (cookie : EntryCookie) (may : ℕ → Bool) (key : ℕ)
      → (drop_cell me cookie (len w.universe.cells) w ≡ fault)
        × (borrow_out me (len w.universe.cells) w ≡ fault)
        × (move_out me (len w.universe.cells) w ≡ fault)
        × (pin_if me (len w.universe.cells) may key w ≡ fault)
  unfolding drop_cell borrow_out move_out pin_if checked
  handle_behind_faults cookie may key =
      let bad = check_reads_behind (held w).universe in
      (
        rw (locked-idle me w _ ok.idle, bad, checked) refl,
        rw (locked-idle me w _ ok.idle, bad, checked) refl,
        rw (locked-idle me w _ ok.idle, bad, checked) refl,
        rw (locked-idle me w _ ok.idle, bad, checked) refl,
      )

  -- What a failed store of a pair leaves: the same table, sound, under the same free mutex, and the
  -- same counts.
  pub record Restored (w' : World) : Type 0 where
    pub ready : IsReady ids w'
    pub table : (j : ℕ) → lookup w'.universe j ≡ lookup w.universe j
    pub objects : w'.objects ≡ w.objects

  -- Both references are stored, at two new handles, or none is: whenever the second store fails, the
  -- first is undone.
  pub move_in_pair-atomic :
      (alloc0 alloc1 : Bool) (r0 r1 : Ref)
      → ((i j : ℕ) × (w' : World) × (move_in_pair me ids alloc0 alloc1 r0 r1 w
            ≡ returns (success, some (i, j)) w')
          × (lookup w.universe i ≡ none)
          × (lookup w.universe j ≡ none)
          × (i ≢ j)
          × ((k : ℕ)
              → lookup w'.universe k
                ≡ (if j == k then some r1 else if i == k then some r0 else lookup w.universe k))
          × (w'.objects ≡ w.objects)
          × IsReady ids w')
        ⊎ ((status : Status) × (w' : World) × (move_in_pair me ids alloc0 alloc1 r0 r1 w
              ≡ returns (status, none) w')
            × Restored w')
  unfolding move_in_pair
  move_in_pair-atomic alloc0 alloc1 r0 r1 =
      rw (locked-idle me w _ ok.idle)
        (elim (Placement-cases (move_in_nolock ids alloc0 r0 (held w).universe)) [
          | inr (s, e) ↦ inr (
            s,
            w,
            rw (e, unlocked-held w (held w).universe w.objects ok.idle refl),
            record { ready = ok; table = λ j. refl; objects = refl },
          )
          | inl (i, u, e) ↦
              let (vacant, up) = move_in_nolock-Updates (held-IsSound ok) alloc0 r0 i u e in
              elim (Placement-cases (move_in_nolock ids alloc1 r1 u)) [
                | inl (j, u', e') ↦
                    let (vacant', up') = move_in_nolock-Updates up.sound alloc1 r1 j u' e' in
                    inl (
                      i,
                      j,
                      record {
                        universe = record u' { mutex = w.universe.mutex };
                        objects = w.objects;
                      },
                      rw (e, e', unlocked-held w u' w.objects ok.idle (up'.mutex ∙ up.mutex)),
                      vacant,
                      ground (arith, up.table j),
                      λ same. ground (arith, up.table j),
                      λ k. ground (arith, up'.table k, up.table k),
                      refl,
                      record {
                        sound = record { free = up'.sound.free; ordered = up'.sound.ordered };
                        idle = ok.idle;
                      },
                    )
                | inr (s, e') ↦
                    let at_i = lookup-cell u i r0 (up.table i ∙ rw (==_refl i)) in
                    let back = reclaim-Updates up.sound i (filled r0) at_i refl in
                    inr (
                      s,
                      record {
                        universe = record (reclaim i (filled r0) u) { mutex = w.universe.mutex };
                        objects = w.objects;
                      },
                      rw (
                        e,
                        e',
                        unlocked-held w (reclaim i (filled r0) u) w.objects ok.idle
                            (back.mutex ∙ up.mutex),
                      ),
                      record {
                        ready = record {
                          sound = record { free = back.sound.free; ordered = back.sound.ordered };
                          idle = ok.idle;
                        };
                        table = λ j. ground (arith, back.table j, up.table j);
                        objects = refl;
                      },
                    )
              ]
        ])
