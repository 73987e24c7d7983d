-- ===== src/Memory/Tests.antt =====
-- Runs of the counts, the size orders and the arrays, and the theorems at them.
use ricerca.Common.{ℕ, ◌≡◌, refl, true, [], ◌∷◌}
use ricerca.Memory.Refcount.{Objects}
use ricerca.Memory.SizeOrder.{size_order}
use ricerca.Memory.Dynarray.{Dynarray}

abbrev shared : Objects
shared = record { rc = λ _. record { refcount = 3; drop = true }; disposed = 8 ∷ [] }

order_of_page : size_order 3000 12 ≡ 12
unfolding size_order
order_of_page = refl

abbrev small : Dynarray ℕ
small = record { items = 4 ∷ 5 ∷ []; capacity = 16 }

abbrev pushed : Dynarray ℕ
pushed = record { items = 4 ∷ 5 ∷ 6 ∷ []; capacity = 16 }
