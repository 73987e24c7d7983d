-- ===== src/Containers/PairingHeap/Tests.antt =====
-- Runs of the pairing heap over numbers, and the theorems at them.
use ricerca.Common.{ℕ, ◌+◌, ◌≡◌, refl, some, ltb, arith}
use ricerca.Containers.PairingHeap.{Hook, nil, node, remove_min, get_min, meld, treeify}
use ricerca.Containers.PairingHeap.Order.{IsStrict, Above, IsValid, tally, remove_min-IsValid}

ltb-IsStrict : IsStrict ltb
ltb-IsStrict = record { asym = λ a b h. ground arith; trans = λ a b c h k. ground arith }

-- 1 above 4 and 3.
abbrev three : Hook ℕ
three = node 1 (node 3 nil (node 4 nil nil)) nil

three-IsValid : IsValid ltb ltb-IsStrict three
three-IsValid = record { heap = ground arith; root = tt }

remove_three : remove_min ltb three ≡ (some 1, node 3 (node 4 nil nil) nil)
unfolding remove_min treeify meld
remove_three = refl

remove_min-IsValid_example :
    ((remove_min ltb three).0 ≡ some 1)
    × Above ltb 1 (remove_min ltb three).1
    × IsValid ltb ltb-IsStrict (remove_min ltb three).1
    × ((w : ℕ → ℕ) → tally w three ≡ w 1 + tally w (remove_min ltb three).1)
unfolding get_min
remove_min-IsValid_example = remove_min-IsValid ltb ltb-IsStrict 1 three three-IsValid refl
