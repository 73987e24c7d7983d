-- ===== src/Memory/Refcount/Balance.antt =====
-- Borrowing and dropping in balance, and the one disposal of an object.
use mathlib.Core.Path.{fun_ext}
use ricerca.Common.{ℕ, zero, suc, ◌+◌, ◌≤◌, ◌<◌, ◌≡◌, refl, true, [], ◌∷◌, ◌++◌, arith, size_max}
use ricerca.Memory.Refcount.{Objects, borrow, drop, drops}

abbrev pub refs : Objects → ℕ → ℕ
refs s obj = (s.rc obj).refcount

-- Dropping a borrowed reference again is as if it had not been borrowed.
pub drop-borrow :
    (obj : ℕ) (s : Objects) → 0 < refs s obj → refs s obj < size_max → drop obj (borrow obj s) ≡ s
unfolding drop borrow
drop-borrow obj s pos fits = λ i. record {
  rc = fun_ext {f = (drop obj (borrow obj s)).rc} {g = s.rc} (λ q. ground arith) i;
  disposed = same i;
}
  where
    same : (drop obj (borrow obj s)).disposed ≡ s.disposed
    same = ground arith

drops-none :
    (k n obj : ℕ) (s : Objects)
    → refs s obj ≡ k + suc n
    → refs s obj ≤ size_max
    → ((drops k obj s).disposed ≡ s.disposed)
      × (refs (drops k obj s) obj ≡ suc n)
      × (((drops k obj s).rc obj).drop ≡ (s.rc obj).drop)
unfolding drop
drops-none zero n obj s e fits = (refl, omega arith, refl)
drops-none (suc k) n obj s e fits =
    ground (arith, drops-none k n obj (drop obj s) (ground arith) (ground arith))

drops-snoc : (n obj : ℕ) (s : Objects) → drops (suc n) obj s ≡ drop obj (drops n obj s)
drops-snoc zero obj s = refl
drops-snoc (suc n) obj s = drops-snoc n obj (drop obj s)

-- An object with n + 1 references and a callback is disposed of by the last of n + 1 drops: the
-- first n drops call nothing, and the last one calls its callback once.
drops-dispose_once :
    (n obj : ℕ) (s : Objects)
    → refs s obj ≡ suc n
    → suc n ≤ size_max
    → (s.rc obj).drop ≡ true
    → ((drops n obj s).disposed ≡ s.disposed)
      × ((drops (suc n) obj s).disposed ≡ s.disposed ++ obj ∷ [])
      × (refs (drops (suc n) obj s) obj ≡ 0)
unfolding drop
drops-dispose_once n obj s e fits callback =
    let (same, left, kept) = drops-none n 0 obj s (omega arith) (omega arith) in
    (same, rw (drops-snoc n obj s) (ground arith), rw (drops-snoc n obj s) (ground arith))
