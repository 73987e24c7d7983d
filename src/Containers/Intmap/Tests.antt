-- ===== src/Containers/Intmap/Tests.antt =====
-- Runs of the map from numbers, and the theorems at them.
use ricerca.Common.{◌≡◌, refl, some, [], ◌∷◌, arith}
use ricerca.Containers.Intmap.{Node, Intmap, insert, search, find_key, store}
use ricerca.Containers.Intmap.Laws.{Lists, here, there}

abbrev no_nodes : Intmap
no_nodes = record { buckets_count = 4; nodes = λ _. [] }

-- 6 and 10 share a bucket of four.
abbrev six : Node
six = record { addr = 100; key = 6 }

abbrev ten : Node
ten = record { addr = 200; key = 10 }

abbrev both : Intmap
both = record { buckets_count = 4; nodes = store (λ _. []) 2 (ten ∷ six ∷ []) }

insert_both : (insert (insert no_nodes six) ten).nodes 2 ≡ both.nodes 2
unfolding insert
insert_both = refl

search-both : search both 6 ≡ some six
unfolding search find_key
search-both = refl

six-Lists : Lists six (ten ∷ six ∷ [])
unfolding find_key
six-Lists = there (ground arith) (ground arith) (here refl)
