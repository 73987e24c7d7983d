-- ===== src/Numa/Defs.antt =====
-- src/kernel/sys/numa/numa.c: the neighbour list of a node, an array of node ids, as a function of the
-- index; and the distance of src/kernel/sys/acpi/numa.c, from the ACPI table SLIT where there is one.
use ricerca.Common.{ℕ, zero, suc, ◌+◌, ◌*◌, Bool, Option, none, some, ◌==◌, ltb, if◌then◌else◌}

-- The fields of struct acpi_slit that are read.
pub record Slit : Type 0 where
  pub localities : ℕ
  pub lengths : ℕ → ℕ

-- acpi_numa_get_distance
unfoldable pub get_distance : Option Slit → (id1 id2 : ℕ) → ℕ
get_distance (some slit) id1 id2 = slit.lengths (id1 * slit.localities + id2)
get_distance none id1 id2 = if id1 == id2 then 0 else 1

abbrev pub write : (index value : ℕ) → (ℕ → ℕ) → ℕ → ℕ
write index value a k = if k == index then value else a k

-- The first loop of numa_init_neighbour_list, over `left` ids from i on: current_index and the array.
unfoldable pub collect : (initialized : ℕ → Bool) (left i current_index : ℕ) → (ℕ → ℕ) → ℕ × (ℕ → ℕ)
collect initialized zero i current_index a = (current_index, a)
collect initialized (suc left) i current_index a =
    let taken = collect initialized left (suc i) (suc current_index) (write current_index i a) in
    let skipped = collect initialized left (suc i) current_index a in
    if initialized i then taken else skipped

-- The inner loop: the index of the least distance among `left` entries from j on and a first one.
unfoldable pub closest : (distance : ℕ → ℕ) (left j minimum_id minimum_distance : ℕ) → (ℕ → ℕ) → ℕ
closest distance zero j minimum_id minimum_distance a = minimum_id
closest distance (suc left) j minimum_id minimum_distance a =
    let nearer = closest distance left (suc j) j (distance (a j)) a in
    let same = closest distance left (suc j) minimum_id minimum_distance a in
    if ltb (distance (a j)) minimum_distance then nearer else same

abbrev pub swap : (i k : ℕ) → (ℕ → ℕ) → ℕ → ℕ
swap i k a = write k (a i) (write i (a k) a)

-- The second loop, over `left` entries from i on.
unfoldable pub sort : (distance : ℕ → ℕ) (left i : ℕ) → (ℕ → ℕ) → ℕ → ℕ
sort distance zero i a = a
sort distance (suc left) i a =
    sort distance left (suc i) (swap i (closest distance left (suc i) i (distance (a i)) a) a)

-- numa_init_neighbour_list, where `junk` is what the memory of the array held before.
unfoldable pub init_neighbour_list :
    Option Slit → (initialized : ℕ → Bool) (size count id : ℕ) (junk : ℕ → ℕ) → ℕ → ℕ
init_neighbour_list slit initialized size count id junk =
    sort (get_distance slit id) count 0 (collect initialized size 0 0 junk).1

-- The last loop of numa_init, over `left` ids from i on: the lists of the nodes, none where no list has
-- been set.
unfoldable pub init_lists :
    Option Slit
    → (initialized : ℕ → Bool) → (size count : ℕ) → (junk : ℕ → ℕ) → (left i : ℕ)
    → (ℕ → Option (ℕ → ℕ))
    → ℕ
    → Option (ℕ → ℕ)
init_lists slit initialized size count junk zero i lists = lists
init_lists slit initialized size count junk (suc left) i lists =
    let list = init_neighbour_list slit initialized size count i junk in
    let set_one : ℕ → Option (ℕ → ℕ) = λ id. if id == i then some list else lists id in
    init_lists slit initialized size count junk left (suc i)
      (if initialized i then set_one else lists)
