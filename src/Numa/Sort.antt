-- ===== src/Numa/Sort.antt =====
-- The neighbour list of src/kernel/sys/numa/numa.c has every node once, the nearest first.
use mathlib.Core.Path.{subst}
use ricerca.Common.{
  ℕ, zero, suc, ◌+◌, ◌≤◌, ◌<◌, ◌≡◌, ◌⊎◌, refl, sym, ◌∙◌, ap, Bool, false, Option, ◌==◌, ==_refl,
  ltb, if◌then◌else◌, arith, inl, inr, Bool-cases,
}
use ricerca.Numa.Occurs.{occurs, nodes_below, occurs-write_above, occurs-swap}
use ricerca.Numa.Defs.{Slit, get_distance, write, swap, collect, closest, sort, init_neighbour_list}

-- The entry that the inner loop finds is as near as any.
record IsClosest (distance : ℕ → ℕ) (a : ℕ → ℕ) (left j m r : ℕ) : Type 0 where
  among : (r ≡ m) ⊎ ((j ≤ r) × (r < j + left))
  first : distance (a r) ≤ distance (a m)
  least : (k : ℕ) → j ≤ k → k < j + left → distance (a r) ≤ distance (a k)

closest-IsClosest :
    (distance : ℕ → ℕ) (left j m : ℕ) (a : ℕ → ℕ)
    → IsClosest distance a left j m (closest distance left j m (distance (a m)) a)
unfolding closest
closest-IsClosest distance zero j m a = record {
  among = inl refl;
  first = omega arith;
  least = λ k lo hi. absurd (omega arith);
}
closest-IsClosest distance (suc left) j m a =
    elim (Bool-cases (ltb (distance (a j)) (distance (a m)))) [
      | inl nearer ↦
          let r = closest-IsClosest distance left (suc j) j a in
          rw nearer (record {
            among = elim r.among [
              | inl at_j ↦ inr (omega (arith, at_j), omega (arith, at_j))
              | inr later ↦ inr (omega (arith, later.0), omega (arith, later.1))
            ];
            first = ground (arith, r.first);
            least = λ k lo hi. elim (Bool-cases (k == j)) [
              | inl same ↦
                  let k_j : k ≡ j = ground arith in
                  omega (arith, r.first, ap (λ q. distance (a q)) k_j)
              | inr other ↦ r.least k (ground arith) (omega arith)
            ];
          })
      | inr not_nearer ↦
          let r = closest-IsClosest distance left (suc j) m a in
          rw not_nearer (record {
            among = elim r.among [
              | inl at_m ↦ inl at_m
              | inr later ↦ inr (omega (arith, later.0), omega (arith, later.1))
            ];
            first = r.first;
            least = λ k lo hi. elim (Bool-cases (k == j)) [
              | inl same ↦
                  let k_j : k ≡ j = ground arith in
                  ground (arith, r.first, ap (λ q. distance (a q)) k_j)
              | inr other ↦ r.least k (ground arith) (omega arith)
            ];
          })
    ]

-- What the second loop leaves of the entries from i to n: no entry before them is touched, every id
-- stands there as often, no entry is nearer than all of them were, and they are in order.
record IsSorted (distance : ℕ → ℕ) (n i : ℕ) (a r : ℕ → ℕ) : Type 0 where
  before : (k : ℕ) → k < i → r k ≡ a k
  same_ids : (id : ℕ) → occurs n id r ≡ occurs n id a
  bounded :
      (b : ℕ)
      → ((k : ℕ) → i ≤ k → k < n → b ≤ distance (a k))
      → (k : ℕ) → i ≤ k
      → k < n
      → b ≤ distance (r k)
  ordered : (k l : ℕ) → i ≤ k → k ≤ l → l < n → distance (r k) ≤ distance (r l)

-- The entries behind one that has been swapped are old ones.
swap-bounded :
    (distance : ℕ → ℕ) (n i m b : ℕ) (a : ℕ → ℕ)
    → ((k : ℕ) → i ≤ k → k < n → b ≤ distance (a k))
    → i < n
    → (k : ℕ) → i ≤ k
    → k < n
    → i ≤ m
    → m < n
    → b ≤ distance (swap i m a k)
swap-bounded distance n i m b a h hi k lo lt lo' lt' = elim (Bool-cases (k == m)) [
  | inl at_m ↦ rw at_m (h i (omega arith) hi)
  | inr not_m ↦ elim (Bool-cases (k == i)) [
    | inl at_i ↦ rw (not_m, at_i) (h m lo' lt')
    | inr not_i ↦ rw (not_m, not_i) (h k lo lt)
  ]
]

swap-first : (i m : ℕ) (a : ℕ → ℕ) → swap i m a i ≡ a m
swap-first i m a = elim (Bool-cases (i == m)) [
  | inl same ↦ let i_m : i ≡ m = ground arith in rw same (ap a i_m)
  | inr other ↦ rw (other, ==_refl i) refl
]

swap-before : (i m k : ℕ) (a : ℕ → ℕ) → k < i → i ≤ m → swap i m a k ≡ a k
swap-before i m k a h le =
    let not_m : (k == m) ≡ false = ground arith in
    let not_i : (k == i) ≡ false = ground arith in rw (not_m, not_i) refl

sort-IsSorted :
    (distance : ℕ → ℕ) (left i n : ℕ) (a : ℕ → ℕ)
    → i + left ≡ n
    → IsSorted distance n i a (sort distance left i a)
unfolding sort
sort-IsSorted distance zero i n a e = record {
  before = λ k h. refl;
  same_ids = λ id. refl;
  bounded = λ b h k lo hi. h k lo hi;
  ordered = λ k l lo le hi. absurd (omega arith);
}
sort-IsSorted distance (suc left) i n a e =
    let m = closest distance left (suc i) i (distance (a i)) a in
    let c = closest-IsClosest distance left (suc i) i a in
    let g = swap i m a in
    let s = sort-IsSorted distance left (suc i) n g (omega arith) in
    let hi : i < n = omega arith in
    let lo_m : i ≤ m = elim c.among [ inl at ↦ omega (arith, at) | inr at ↦ omega (arith, at.0) ] in
    let hi_m : m < n = elim c.among [ inl at ↦ omega (arith, at) | inr at ↦ omega (arith, at.1) ] in
    let r = sort distance left (suc i) g in
    let nearest : (k : ℕ) → i ≤ k → k < n → distance (a m) ≤ distance (a k) = λ k lo lt.
      elim (Bool-cases (k == i)) [
        | inl same ↦
            let k_i : k ≡ i = ground arith in omega (arith, c.first, ap (λ q. distance (a q)) k_i)
        | inr other ↦ c.least k (ground arith) (omega arith)
      ] in
    let bounded : (b : ℕ)
        → ((k : ℕ) → i ≤ k → k < n → b ≤ distance (a k))
        → (k : ℕ) → i ≤ k
        → k < n
        → b ≤ distance (r k) =
      λ b h k lo lt. elim (Bool-cases (k == i)) [
        | inl same ↦
            let k_i : k ≡ i = ground arith in
            omega (
              arith,
              swap-bounded distance n i m b a h hi k lo lt lo_m hi_m,
              ap distance (s.before k (omega arith)),
            )
        | inr other ↦
            s.bounded b
              (λ q lo' lt'. swap-bounded distance n i m b a h hi q (omega arith) lt' lo_m hi_m) k
              (ground arith) lt
      ] in
    record {
      before = λ k h. s.before k (omega arith) ∙ swap-before i m k a h lo_m;
      same_ids = λ id. s.same_ids id ∙ occurs-swap n id i m a hi hi_m;
      bounded = bounded;
      ordered = λ k l lo le lt. elim (Bool-cases (k == i)) [
        | inl same ↦
            let k_i : k ≡ i = ground arith in
            omega (
              arith,
              bounded (distance (a m)) nearest l (omega arith) lt,
              ap (λ q. distance (r q)) k_i,
              ap distance (s.before i (omega arith)),
              ap distance (swap-first i m a),
            )
        | inr other ↦ s.ordered k l (ground arith) le lt
      ];
    }

-- What the first loop leaves: it has counted the nodes, and every one of them stands in the array once.
record IsCollected (initialized : ℕ → Bool) (n c : ℕ) (a : ℕ → ℕ) : Type 0 where
  counted : c ≡ nodes_below n initialized
  each : (id : ℕ) → occurs c id a ≡ (if ltb id n then (if initialized id then 1 else 0) else 0)

start-IsCollected : (initialized : ℕ → Bool) (a : ℕ → ℕ) → IsCollected initialized 0 0 a
unfolding occurs nodes_below
start-IsCollected initialized a = record { counted = refl; each = λ id. ground arith }

collect-IsCollected :
    (initialized : ℕ → Bool) (left i c n : ℕ) (a : ℕ → ℕ)
    → i + left ≡ n
    → IsCollected initialized i c a
    → IsCollected initialized n
        (collect initialized left i c a).0
        (collect initialized left i c a).1
unfolding collect occurs nodes_below
collect-IsCollected initialized zero i c n a e ok =
    let i_n : i ≡ n = omega arith in subst (λ m. IsCollected initialized m c a) i_n ok
collect-IsCollected initialized (suc left) i c n a e ok = elim (Bool-cases (initialized i)) [
  | inl has_node ↦ rw has_node (
      collect-IsCollected initialized left (suc i) (suc c) n (write c i a) (omega arith) (record {
        counted = ground (arith, ok.counted);
        each = λ id. elim (Bool-cases (i == id)) [
          | inl same ↦
              let i_id : i ≡ id = ground arith in
              ground (
                arith,
                ok.each id,
                occurs-write_above c id c i a (omega arith),
                ap initialized i_id,
              )
          | inr other ↦ ground (arith, ok.each id, occurs-write_above c id c i a (omega arith))
        ];
      }))
  | inr no_node ↦ rw no_node (
      collect-IsCollected initialized left (suc i) c n a (omega arith) (record {
        counted = ground (arith, ok.counted);
        each = λ id. elim (Bool-cases (i == id)) [
          | inl same ↦
              let i_id : i ≡ id = ground arith in ground (arith, ok.each id, ap initialized i_id)
          | inr other ↦ ground (arith, ok.each id)
        ];
      }))
]

-- A neighbour list has every id below `size` that has a node once and no other, and is in the order of
-- the distance.
pub record IsNearestFirst (distance : ℕ → ℕ) (initialized : ℕ → Bool) (size count : ℕ)
    (list : ℕ → ℕ) : Type 0 where
  pub each :
      (id : ℕ)
      → occurs count id list ≡ (if ltb id size then (if initialized id then 1 else 0) else 0)
  pub ordered : (k l : ℕ) → k ≤ l → l < count → distance (list k) ≤ distance (list l)

-- With the number of the nodes, numa_init_neighbour_list gives every node once, the nearest first.
pub init_neighbour_list-IsNearestFirst :
    (slit : Option Slit) (initialized : ℕ → Bool) (size count id : ℕ) (junk : ℕ → ℕ)
    → count ≡ nodes_below size initialized
    → IsNearestFirst
        (get_distance slit id)
        initialized
        size
        count
        (init_neighbour_list slit initialized size count id junk)
unfolding init_neighbour_list
init_neighbour_list-IsNearestFirst slit initialized size count id junk e =
    let c =
      collect-IsCollected initialized size 0 0 size junk (omega arith)
        (start-IsCollected initialized junk) in
    let a = (collect initialized size 0 0 junk).1 in
    let s = sort-IsSorted (get_distance slit id) count 0 count a (omega arith) in
    record {
      each = λ n. s.same_ids n ∙ ap (λ m. occurs m n a) (e ∙ sym c.counted) ∙ c.each n;
      ordered = λ k l le lt. s.ordered k l (omega arith) le lt;
    }
