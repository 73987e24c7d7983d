-- ===== src/Numa/Tests.antt =====
-- Neighbour lists of three nodes, and of two whose ids are not the first ones.
use ricerca.Common.{
  ℕ, ◌≡◌, refl, Bool, true, false, Option, none, some, List, [], ◌∷◌, ◌==◌, ◌||◌, ltb,
  if◌then◌else◌,
}
use ricerca.Numa.Defs.{Slit, get_distance, collect, closest, sort, init_neighbour_list, init_lists}
use ricerca.Numa.Occurs.{nodes_below}
use ricerca.Numa.Sort.{IsNearestFirst, init_neighbour_list-IsNearestFirst}

-- Nodes 0, 1 and 2 in a row, with node 2 nearer to 1 than node 0.
abbrev row : Slit
row = record {
  localities = 3;
  lengths = λ i. if i == 3 then 30 else (if i == 4 then 10 else (if i == 5 then 20 else 40));
}

abbrev first_three : ℕ → Bool
first_three i = ltb i 3

abbrev listed : (ℕ → ℕ) → List ℕ
listed a = a 0 ∷ a 1 ∷ a 2 ∷ []

nearest : listed (init_neighbour_list (some row) first_three 3 3 1 (λ i. 7)) ≡ 1 ∷ 2 ∷ 0 ∷ []
unfolding init_neighbour_list collect closest sort get_distance
nearest = refl

init_neighbour_list-IsNearestFirst_example :
    IsNearestFirst
      (get_distance (some row) 1)
      first_three
      3
      3
      (init_neighbour_list (some row) first_three 3 3 1 (λ i. 7))
unfolding nodes_below
init_neighbour_list-IsNearestFirst_example =
    init_neighbour_list-IsNearestFirst (some row) first_three 3 3 1 (λ i. 7) refl

-- Of the nodes 0 and 5 only node 0 gets a list.
abbrev zero_and_five : ℕ → Bool
zero_and_five i = (i == 0) || (i == 5)

abbrev lists_of_two : ℕ → Option (ℕ → ℕ)
lists_of_two = init_lists none zero_and_five 6 2 (λ i. 7) 2 0 (λ id. none)

abbrev has_list : Option (ℕ → ℕ) → Bool
has_list none = false
has_list (some a) = true

no_list : has_list (lists_of_two 5) ≡ false
unfolding init_lists
no_list = refl

a_list : has_list (lists_of_two 0) ≡ true
unfolding init_lists
a_list = refl
