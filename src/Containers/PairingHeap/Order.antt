-- ===== src/Containers/PairingHeap/Order.antt =====
-- The heap keeps its elements and gives them out in order.
use ricerca.Common.{ℕ, ◌+◌, ◌≡◌, refl, Bool, true, false, some, arith, Bool-cases, inl, inr}
use ricerca.Containers.PairingHeap.{Hook, nil, node, meld, treeify, insert, remove_min, get_min}

-- What the comparator has to be: a strict order in which "not below" is transitive.
pub record IsStrict {ℓ} {A : Type ℓ} (cmp : A → A → Bool) : Type ℓ where
  pub asym : (a b : A) → cmp a b ≡ true → cmp b a ≡ false
  pub trans : (a b c : A) → cmp b a ≡ false → cmp c b ≡ false → cmp c a ≡ false

-- The root of a heap has no sibling.
abbrev pub IsRoot {ℓ} : {A : Type ℓ} → Hook A → Type 0
IsRoot nil = Unit
IsRoot (node a c nil) = Unit
IsRoot (node a c (node b d n)) = ⊥

-- The sum of a weight over all elements; with the weight 1 at one element, how often it occurs.
unfoldable pub tally {ℓ} : {A : Type ℓ} → (A → ℕ) → Hook A → ℕ
tally w nil = 0
tally w (node a c n) = w a + tally w c + tally w n

module _ {ℓ} {A : Type ℓ} (cmp : A → A → Bool) where
  -- No element of the hooks comes before `a`.
  abbrev pub Above : A → Hook A → Type 0
  Above a nil = Unit
  Above a (node b c n) = (cmp b a ≡ false) × Above a c × Above a n

  -- No element comes before one that it stands under.
  abbrev pub IsHeap : Hook A → Type 0
  IsHeap nil = Unit
  IsHeap (node a c n) = Above a c × IsHeap c × IsHeap n

  meld-IsRoot : (h1 h2 : Hook A) → IsRoot h1 → IsRoot h2 → IsRoot (meld cmp h1 h2)
  unfolding meld
  meld-IsRoot nil h2 p q = q
  meld-IsRoot (node a c1 n1) nil p q = p
  meld-IsRoot (node a c1 nil) (node b c2 nil) p q = elim (Bool-cases (cmp a b)) [
    | inl lt ↦ rw lt tt
    | inr ge ↦ rw ge tt
  ]
  meld-IsRoot (node a c1 (node _ _ _)) (node b c2 n) p q = absurd p
  meld-IsRoot (node a c1 nil) (node b c2 (node _ _ _)) p q = absurd q

  treeify-IsRoot : (h : Hook A) → IsRoot (treeify cmp h)
  unfolding treeify
  treeify-IsRoot nil = tt
  treeify-IsRoot (node a c nil) = tt
  treeify-IsRoot (node a c (node b d nn)) =
      meld-IsRoot (meld cmp (node a c nil) (node b d nil)) (treeify cmp nn)
        (meld-IsRoot (node a c nil) (node b d nil) tt tt) (treeify-IsRoot nn)

  meld-tally :
      (w : A → ℕ) (h1 h2 : Hook A)
      → IsRoot h1
      → IsRoot h2
      → tally w (meld cmp h1 h2) ≡ tally w h1 + tally w h2
  unfolding meld tally
  meld-tally w nil h2 p q = omega arith
  meld-tally w (node a c1 n1) nil p q = omega arith
  meld-tally w (node a c1 nil) (node b c2 nil) p q = ground arith
  meld-tally w (node a c1 (node _ _ _)) (node b c2 n) p q = absurd p
  meld-tally w (node a c1 nil) (node b c2 (node _ _ _)) p q = absurd q

  treeify-tally : (w : A → ℕ) (h : Hook A) → tally w (treeify cmp h) ≡ tally w h
  unfolding treeify tally
  treeify-tally w nil = refl
  treeify-tally w (node a c nil) = refl
  treeify-tally w (node a c (node b d nn)) = omega (
    arith,
    meld-tally w (meld cmp (node a c nil) (node b d nil)) (treeify cmp nn)
        (meld-IsRoot (node a c nil) (node b d nil) tt tt) (treeify-IsRoot nn),
    meld-tally w (node a c nil) (node b d nil) tt tt,
    treeify-tally w nn,
  )

  module _ (strict : IsStrict cmp) where
    Above-trans : (a b : A) (h : Hook A) → cmp b a ≡ false → Above b h → Above a h
    Above-trans a b nil le q = tt
    Above-trans a b (node x c n) le (lex, qc, qn) =
        (strict.trans a b x le lex, Above-trans a b c le qc, Above-trans a b n le qn)

    meld-Above : (a : A) (h1 h2 : Hook A) → Above a h1 → Above a h2 → Above a (meld cmp h1 h2)
    unfolding meld
    meld-Above a nil h2 p q = q
    meld-Above a (node x c1 n1) nil p q = p
    meld-Above a (node x c1 n1) (node y c2 n2) (px, pc, pn) (qy, qc, qn) =
        elim (Bool-cases (cmp x y)) [
          | inl lt ↦ rw lt (px, (qy, qc, pc), pn)
          | inr ge ↦ rw ge (qy, (px, pc, qc), qn)
        ]

    meld-IsHeap : (h1 h2 : Hook A) → IsHeap h1 → IsHeap h2 → IsHeap (meld cmp h1 h2)
    unfolding meld
    meld-IsHeap nil h2 p q = q
    meld-IsHeap (node x c1 n1) nil p q = p
    meld-IsHeap (node x c1 n1) (node y c2 n2) (px, pc, pn) (qy, qc, qn) =
        elim (Bool-cases (cmp x y)) [
          | inl lt ↦ rw lt (
            (strict.asym x y lt, Above-trans x y c2 (strict.asym x y lt) qy, px),
            (qy, qc, pc),
            pn,
          )
          | inr ge ↦ rw ge ((ge, Above-trans y x c1 ge px, qy), (px, pc, qc), qn)
        ]

    treeify-Above : (a : A) (h : Hook A) → Above a h → Above a (treeify cmp h)
    unfolding treeify
    treeify-Above a nil p = p
    treeify-Above a (node x c nil) p = p
    treeify-Above a (node x c (node y d nn)) (px, pc, (py, pd, pn)) =
        meld-Above a (meld cmp (node x c nil) (node y d nil)) (treeify cmp nn)
          (meld-Above a (node x c nil) (node y d nil) (px, pc, tt) (py, pd, tt))
          (treeify-Above a nn pn)

    treeify-IsHeap : (h : Hook A) → IsHeap h → IsHeap (treeify cmp h)
    unfolding treeify
    treeify-IsHeap nil p = p
    treeify-IsHeap (node x c nil) p = p
    treeify-IsHeap (node x c (node y d nn)) (px, pc, (py, pd, pn)) =
        meld-IsHeap (meld cmp (node x c nil) (node y d nil)) (treeify cmp nn)
          (meld-IsHeap (node x c nil) (node y d nil) (px, pc, tt) (py, pd, tt))
          (treeify-IsHeap nn pn)

    -- A heap whose root has no sibling.
    pub record IsValid (h : Hook A) : Type 0 where
      pub heap : IsHeap h
      pub root : IsRoot h

    -- Inserting keeps a valid heap valid and adds the new element, once, to those in the heap.
    pub insert-IsValid :
        (x : A) (h : Hook A)
        → IsValid h
        → IsValid (insert cmp h x) × ((w : A → ℕ) → tally w (insert cmp h x) ≡ tally w h + w x)
    unfolding insert tally
    insert-IsValid x h v = (
      record {
        heap = meld-IsHeap h (node x nil nil) v.heap (tt, tt, tt);
        root = meld-IsRoot h (node x nil nil) v.root tt;
      },
      λ w. omega (arith, meld-tally w h (node x nil nil) v.root tt),
    )

    -- Removing from a valid heap that holds something gives the element that get_min shows; none
    -- that is left comes before it; the heap stays valid and loses that element and no other.
    pub remove_min-IsValid :
        (a : A) (h : Hook A)
        → IsValid h
        → get_min h ≡ some a
        → ((remove_min cmp h).0 ≡ some a)
          × Above a (remove_min cmp h).1
          × IsValid (remove_min cmp h).1
          × ((w : A → ℕ) → tally w h ≡ w a + tally w (remove_min cmp h).1)
    unfolding remove_min get_min tally
    remove_min-IsValid a nil v e = absurd (ground arith)
    remove_min-IsValid a (node x c nil) v e =
        let same : x ≡ a = ground arith in
        rw (← same) (
          refl,
          treeify-Above x c v.heap.0,
          record { heap = treeify-IsHeap c v.heap.1; root = treeify-IsRoot c },
          λ w. omega (arith, treeify-tally w c),
        )
    remove_min-IsValid a (node x c (node y d n)) v e = absurd v.root
