-- ===== src/Containers/Intmap/Laws.antt =====
-- A map from numbers answers each search by the nodes that were put in and not taken out.
use ricerca.Common.{ℕ, ◌%◌, ◌≡◌, ◌≢◌, ◌<◌, true, none, some, List, ◌∷◌, ◌==◌, if◌then◌else◌, arith}
use ricerca.Containers.Intmap.{Node, Intmap, init, insert, find_key, search, list_remove, remove}

-- A new map holds no key.
pub init-search :
    (junk : ℕ → List Node) (buckets key : ℕ) {m : Intmap}
    → 0 < buckets
    → init true junk buckets ≡ some m
    → search m key ≡ none
unfolding init search find_key
init-search junk buckets key pos e = ground arith

-- After an insertion the new node answers for its key, and every other search is as before.
pub search-insert :
    (m : Intmap) (node : Node) (key : ℕ)
    → search (insert m node) key ≡ (if node.key == key then some node else search m key)
unfolding search insert find_key
search-insert m node key = ground arith

-- Every node in a bucket is at the address that its key is listed with.
pub data Lists : Node → List Node → Type 0 where
  here : {n : Node} {ns : List Node} → find_key n.key ns ≡ none → Lists n (n ∷ ns)
  there :
      {n n' : Node} {ns : List Node}
      → n'.addr ≢ n.addr
      → n'.key ≢ n.key
      → Lists n ns
      → Lists n (n' ∷ ns)

find_key-list_remove :
    {node : Node} {ns : List Node} (key : ℕ)
    → Lists node ns
    → find_key key (list_remove node.addr ns) ≡ (if node.key == key then none else find_key key ns)
unfolding find_key list_remove
find_key-list_remove key (here fresh) = ground arith
find_key-list_remove key (there a k rest) = ground (arith, find_key-list_remove key rest)

-- Taking out a node that its bucket lists once leaves nothing under its key and changes no other
-- search.
search-remove :
    (m : Intmap) (node : Node) (key : ℕ)
    → Lists node (m.nodes (node.key % m.buckets_count))
    → search (remove m node) key ≡ (if node.key == key then none else search m key)
unfolding search remove
search-remove m node key listed =
    ground (arith, find_key-list_remove {ns = m.nodes (node.key % m.buckets_count)} key listed)

-- Taking out what has just been put in brings back every search.
pub search-remove-insert :
    (m : Intmap) (node : Node) (key : ℕ) → search (remove (insert m node) node) key ≡ search m key
unfolding search remove insert list_remove find_key
search-remove-insert m node key = ground arith
