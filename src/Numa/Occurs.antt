-- ===== src/Numa/Occurs.antt =====
-- How often an id stands in an array of src/kernel/sys/numa/numa.c.
use native.Mathlib.Decide.{dec_lt}
use ricerca.Common.{ℕ, zero, suc, ◌+◌, ◌≤◌, ◌<◌, ◌≡◌, refl, Bool, ◌==◌, if◌then◌else◌, arith}
use ricerca.Numa.Defs.{write, swap}

-- How often an id stands in the first n entries.
unfoldable pub occurs : (n id : ℕ) → (ℕ → ℕ) → ℕ
occurs zero id a = 0
occurs (suc n) id a = occurs n id a + (if a n == id then 1 else 0)

-- How many of the first n ids have a node.
unfoldable pub nodes_below : (n : ℕ) → (ℕ → Bool) → ℕ
nodes_below zero initialized = 0
nodes_below (suc n) initialized = nodes_below n initialized + (if initialized n then 1 else 0)

pub occurs-write_above :
    (n id k v : ℕ) (a : ℕ → ℕ) → n ≤ k → occurs n id (write k v a) ≡ occurs n id a
unfolding occurs
occurs-write_above zero id k v a h = refl
occurs-write_above (suc n) id k v a h = ground (arith, occurs-write_above n id k v a (omega arith))

occurs-write :
    (n id k v : ℕ) (a : ℕ → ℕ)
    → k < n
    → occurs n id (write k v a) + (if a k == id then 1 else 0)
      ≡ occurs n id a + (if v == id then 1 else 0)
unfolding occurs
occurs-write zero id k v a h = absurd (omega arith)
occurs-write (suc n) id k v a h = elim (dec_lt k n) [
  | yes below ↦ ground (arith, occurs-write n id k v a below)
  | no last ↦
      let n_k : n ≡ k = omega arith in
      rw n_k (ground (arith, occurs-write_above k id k v a (omega arith)))
]

pub occurs-swap :
    (n id i k : ℕ) (a : ℕ → ℕ) → i < n → k < n → occurs n id (swap i k a) ≡ occurs n id a
occurs-swap n id i k a hi hk =
    ground (arith, occurs-write n id i (a k) a hi, occurs-write n id k (a i) (write i (a k) a) hk)
