-- ===== src/Symmap/Tests.antt =====
-- A run of the search, and the theorem at it.
use ricerca.Common.{ℕ, zero, suc, ◌+◌, ◌≡◌, ◌⊎◌, refl, some, List, [], ◌∷◌, arith}
use ricerca.Symmap.{search_loop, find_by_addr}
use ricerca.Symmap.Search.{IsSorted, IsBefore, IsLast, find_by_addr-terminates}

-- Functions at 100, 200 and 300.
abbrev starts : List ℕ
starts = 100 ∷ 200 ∷ 300 ∷ []

inside : find_by_addr 250 starts ≡ some 2
unfolding find_by_addr search_loop
inside = refl

starts-IsSorted : IsSorted starts
starts-IsSorted zero j x y le e f = ground (arith, e, f)
starts-IsSorted (suc zero) j x y le e f = ground (arith, le, e, f)
starts-IsSorted (suc (suc i)) j x y le e f = ground (arith, le, e, f)

find_by_addr-terminates_example :
    ((find_by_addr 250 starts ≡ some 0) × IsBefore 250 starts)
    ⊎ ((k : ℕ) × (find_by_addr 250 starts ≡ some (1 + k)) × IsLast 250 starts k)
find_by_addr-terminates_example = find_by_addr-terminates 250 starts starts-IsSorted (omega arith)
