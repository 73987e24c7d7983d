-- ===== src/Containers/Intmap/Tally.antt =====
-- How often an address stands in the buckets of a map.
use ricerca.Common.{
  ℕ, zero, suc, ◌+◌, ◌%◌, ◌≡◌, ◌≤◌, ◌<◌, ◌==◌, refl, some, List, [], ◌∷◌, arith, if◌then◌else◌,
}
use ricerca.Containers.Intmap.{Node, Intmap, store, insert, find_key, search, list_remove, remove}

abbrev pub once : ℕ → ℕ → ℕ
once addr c = if addr == c then 1 else 0

abbrev pub occurs : List Node → ℕ → ℕ
occurs [] c = 0
occurs (n ∷ ns) c = once n.addr c + occurs ns c

-- In the first `n` buckets.
unfoldable pub total : (n : ℕ) → (ℕ → List Node) → ℕ → ℕ
total zero f c = 0
total (suc n) f c = total n f c + occurs (f n) c

total-store_above :
    (n : ℕ) (f : ℕ → List Node) (i : ℕ) (ns : List Node) (c : ℕ)
    → n ≤ i
    → total n (store f i ns) c ≡ total n f c
unfolding total
total-store_above zero f i ns c h = refl
total-store_above (suc n) f i ns c h = ground (arith, total-store_above n f i ns c (omega arith))

total-store :
    (n : ℕ) (f : ℕ → List Node) (i : ℕ) (ns : List Node) (c : ℕ)
    → i < n
    → total n (store f i ns) c + occurs (f i) c ≡ total n f c + occurs ns c
unfolding total
total-store zero f i ns c h = absurd (omega (arith, h))
total-store (suc n) f i ns c h =
    ground (arith, total-store n f i ns c, total-store_above n f i ns c)

unfoldable pub listed : Intmap → ℕ → ℕ
unfolding total
listed m c = total m.buckets_count m.nodes c

pub listed-insert :
    (m : Intmap) (node : Node) (c : ℕ)
    → 0 < m.buckets_count
    → listed (insert m node) c ≡ listed m c + once node.addr c
unfolding listed insert
listed-insert m node c pos =
    let i = node.key % m.buckets_count in
    let h = total-store m.buckets_count m.nodes i (node ∷ m.nodes i) c (grind arith) in
    omega (arith, h)

pub find_key-occurs :
    (key : ℕ) (ns : List Node) {n : Node} (c : ℕ)
    → find_key key ns ≡ some n
    → (n.key ≡ key) × (occurs (list_remove n.addr ns) c + once n.addr c ≡ occurs ns c)
unfolding find_key list_remove
find_key-occurs key [] c h = absurd (ground arith)
find_key-occurs key (m ∷ ns) {n} c h = ground (arith, h, find_key-occurs key ns {n = n} c)

pub listed-remove :
    (m : Intmap) (key : ℕ) {n : Node} (c : ℕ)
    → 0 < m.buckets_count
    → search m key ≡ some n
    → listed (remove m n) c + once n.addr c ≡ listed m c
unfolding listed remove search
listed-remove m key {n} c pos h =
    let i = key % m.buckets_count in
    let (same, fewer) = find_key-occurs key (m.nodes i) {n = n} c h in
    let rest = list_remove n.addr (m.nodes i) in
    let t = total-store m.buckets_count m.nodes i rest c (grind arith) in
    rw same (omega (arith, t, fewer))

pub buckets_count-insert : (m : Intmap) (n : Node) → (insert m n).buckets_count ≡ m.buckets_count
unfolding insert
buckets_count-insert m n = refl

pub buckets_count-remove : (m : Intmap) (n : Node) → (remove m n).buckets_count ≡ m.buckets_count
unfolding remove
buckets_count-remove m n = refl
