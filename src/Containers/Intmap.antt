-- ===== src/Containers/Intmap.antt =====
-- src/kernel/lib/intmap.h. A node is the address of the object that it stands in and its key; a
-- bucket is the list of its nodes from the head on.
pub mod Laws
pub mod Tally
mod Tests
use ricerca.Common.{
  ℕ, ◌%◌, Bool, true, false, Option, none, some, List, [], ◌∷◌, ◌==◌, ltb, if◌then◌else◌,
}

-- struct intmap_node
pub record Node : Type 0 where
  pub addr : ℕ
  pub key : ℕ

-- struct intmap: the buckets by index.
pub record Intmap : Type 0 where
  pub buckets_count : ℕ
  pub nodes : ℕ → List Node

abbrev pub store : (ℕ → List Node) → ℕ → List Node → ℕ → List Node
store f i ns j = if i == j then ns else f j

-- intmap_init; `alloc` is the outcome of the allocation, `junk` what the memory held.
unfoldable pub init : (alloc : Bool) (junk : ℕ → List Node) (buckets : ℕ) → Option Intmap
init false junk buckets = none
init true junk buckets =
    some (record { buckets_count = buckets; nodes = λ i. if ltb i buckets then [] else junk i })

-- intmap_insert
unfoldable pub insert : Intmap → Node → Intmap
insert m node =
    let slot = node.key % m.buckets_count in
    record m { nodes = store m.nodes slot (node ∷ m.nodes slot) }

-- The loop of intmap_search.
unfoldable pub find_key : ℕ → List Node → Option Node
find_key key [] = none
find_key key (n ∷ ns) = if n.key == key then some n else find_key key ns

-- intmap_search
unfoldable pub search : Intmap → ℕ → Option Node
unfolding find_key
search m key = find_key key (m.nodes (key % m.buckets_count))

-- list_remove takes out the node at an address.
unfoldable pub list_remove : ℕ → List Node → List Node
list_remove addr [] = []
list_remove addr (n ∷ ns) = if n.addr == addr then ns else n ∷ list_remove addr ns

-- intmap_remove
unfoldable pub remove : Intmap → Node → Intmap
unfolding list_remove
remove m node =
    let slot = node.key % m.buckets_count in
    record m { nodes = store m.nodes slot (list_remove node.addr (m.nodes slot)) }
