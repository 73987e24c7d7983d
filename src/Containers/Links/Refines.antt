-- ===== src/Containers/Links/Refines.antt =====
-- The lists of src/kernel/lib/list.h are sequences of addresses.
use mathlib.Core.Path.{subst}
use ricerca.Common.{
  ◌∙◌, sym, ℕ, zero, suc, ◌≤◌, ◌≡◌, refl, true, false, List, [], ◌∷◌, ◌==◌, ==_refl, if◌then◌else◌,
  arith, inl, inr, Bool-cases,
}
use ricerca.Containers.Links.Defs.{
  Links, list_append_head, list_remove_head, list_remove_tail, list_remove,
}
use ricerca.Containers.Links.Order.{
  times, first, last, after, before, without, AreNodes, last-times, before-of-first, before-first,
  last-after, after-last,
}
use ricerca.Containers.Links.Without.{
  first-without, last-without, after-without, before-without, without-AreNodes, left_times, next_is,
  prev_is,
}

-- The list holds the nodes of a sequence in its order.
pub record IsLinked (s : Links) (xs : List ℕ) : Type 0 where
  pub nodes : AreNodes xs
  pub head_is : s.head ≡ first xs
  pub tail_is : s.tail ≡ last 0 xs
  pub next_is : (a : ℕ) → 1 ≤ times a xs → s.next a ≡ after xs a
  pub prev_is : (a : ℕ) → 1 ≤ times a xs → s.prev a ≡ before 0 xs a

-- What taking out a node does to the links of the others.
record Unlinked (s : Links) (n : ℕ) (s' : Links) : Type 0 where
  head : s'.head ≡ (if s.head == n then s.next n else s.head)
  tail : s'.tail ≡ (if s.tail == n then s.prev n else s.tail)
  next : (a : ℕ) → 1 ≤ a → s'.next a ≡ (if a == s.prev n then s.next n else s.next a)
  prev : (a : ℕ) → 1 ≤ a → s'.prev a ≡ (if a == s.next n then s.prev n else s.prev a)

node-pos : (xs : List ℕ) (a : ℕ) → AreNodes xs → 1 ≤ times a xs → 1 ≤ a
node-pos xs zero ok h = absurd (omega (arith, h, ok.nonzero))
node-pos xs (suc a) ok h = omega arith

Unlinked-IsLinked :
    (s s' : Links) (n : ℕ) (xs : List ℕ)
    → IsLinked s xs
    → 1 ≤ times n xs
    → Unlinked s n s'
    → IsLinked s' (without n xs)
Unlinked-IsLinked s s' n xs l in_n u =
    let n_pos = node-pos xs n l.nodes in_n in
    let not_null : (0 == n) ≡ false = ground arith in
    record {
      nodes = without-AreNodes n xs l.nodes;
      head_is = ground (arith, u.head, l.head_is, l.next_is n in_n, first-without n xs);
      tail_is =
          ground
            (arith, u.tail, l.tail_is, l.prev_is n in_n, last-without 0 n xs l.nodes not_null in_n);
      next_is = λ a in_a.
          let (in_xs, other) = left_times n a xs l.nodes in_n in_a in
          let a_pos = node-pos xs a l.nodes in_xs in
          u.next a a_pos
          ∙ rw
              (
                l.next_is a in_xs,
                l.next_is n in_n,
                l.prev_is n in_n,
                ← next_is n a xs l.nodes n_pos a_pos in_n,
              )
              (sym (after-without n a xs l.nodes n_pos other));
      prev_is = λ a in_a.
          let (in_xs, other) = left_times n a xs l.nodes in_n in_a in
          let a_pos = node-pos xs a l.nodes in_xs in
          u.prev a a_pos
          ∙ rw
              (
                l.prev_is a in_xs,
                l.next_is n in_n,
                l.prev_is n in_n,
                ← prev_is n a xs l.nodes n_pos a_pos in_xs,
              )
              (sym (before-without 0 n a xs l.nodes other not_null in_xs));
    }

-- The ends of a list are the nodes with a NULL link.
at_head :
    (s : Links) (n : ℕ) (xs : List ℕ)
    → IsLinked s xs
    → 1 ≤ times n xs
    → (s.head == n) ≡ (s.prev n == 0)
at_head s n xs l in_n = elim (Bool-cases (s.head == n)) [
  | inl is_n ↦ ground (
    arith,
    is_n,
    l.head_is,
    l.prev_is n in_n,
    before-of-first 0 xs n (node-pos xs n l.nodes in_n) (ground (arith, l.head_is, is_n)),
  )
  | inr other ↦ elim (Bool-cases (s.prev n == 0)) [
    | inr there_is ↦ rw (other, there_is) refl
    | inl no_prev ↦
        let e =
          before-first 0 xs n in_n l.nodes.nonzero (ground (arith, no_prev, l.prev_is n in_n)) in
        absurd (ground (arith, other, e, l.head_is))
  ]
]

at_tail :
    (s : Links) (n : ℕ) (xs : List ℕ)
    → IsLinked s xs
    → 1 ≤ times n xs
    → (s.tail == n) ≡ (s.next n == 0)
at_tail s n xs l in_n = elim (Bool-cases (s.tail == n)) [
  | inl is_n ↦ ground (
    arith,
    is_n,
    l.next_is n in_n,
    after-last 0 xs n l.nodes in_n (ground (arith, l.tail_is, is_n)),
  )
  | inr other ↦ elim (Bool-cases (s.next n == 0)) [
    | inr there_is ↦ rw (other, there_is) refl
    | inl no_next ↦
        let e = last-after 0 xs n l.nodes in_n (ground (arith, no_next, l.next_is n in_n)) in
        absurd (ground (arith, other, e, l.tail_is))
  ]
]

module _ (s : Links) (n : ℕ) (xs : List ℕ) (l : IsLinked s xs) (in_n : 1 ≤ times n xs) where
  list_remove-Unlinked : Unlinked s n (list_remove s n)
  unfolding list_remove list_remove_head list_remove_tail
  list_remove-Unlinked =
      let h = at_head s n xs l in_n in
      let t = at_tail s n xs l in_n in
      let pos = node-pos xs n l.nodes in_n in
      record {
        head = ground (arith, h, t, pos);
        tail = ground (arith, h, t, pos);
        next = λ a a_pos. ground (arith, h, t, pos);
        prev = λ a a_pos. ground (arith, h, t, pos);
      }

  pub list_remove-IsLinked : IsLinked (list_remove s n) (without n xs)
  list_remove-IsLinked = Unlinked-IsLinked s (list_remove s n) n xs l in_n list_remove-Unlinked

pub last-in : (s : Links) (xs : List ℕ) → IsLinked s xs → 1 ≤ s.tail → 1 ≤ times s.tail xs
unfolding last
last-in s [] l h = absurd (omega (arith, h, l.tail_is))
last-in s (x ∷ xs) l h = subst (λ z. 1 ≤ times z (x ∷ xs)) (sym l.tail_is) (last-times x xs)

-- The ends are taken out as any node is.
pub head_removed : (s : Links) → 1 ≤ s.head → list_remove_head s ≡ (s.head, list_remove s s.head)
unfolding list_remove list_remove_head list_remove_tail
head_removed s h =
    let not_null : (s.head == 0) ≡ false = ground arith in
    rw (not_null, ==_refl s.head)
      (elim (Bool-cases (s.next s.head == 0)) [
        | inl alone ↦ rw alone refl
        | inr others ↦ rw others refl
      ])

pub tail_removed :
    (s : Links) (xs : List ℕ)
    → IsLinked s xs
    → 1 ≤ s.tail
    → list_remove_tail s ≡ (s.tail, list_remove s s.tail)
unfolding list_remove list_remove_head list_remove_tail
tail_removed s xs l h =
    let not_null : (s.tail == 0) ≡ false = ground arith in
    let in_t : 1 ≤ times s.tail xs = last-in s xs l h in
    elim (Bool-cases (s.head == s.tail)) [
      | inl both ↦
          let e : s.head ≡ s.tail = ground arith in
          let head_there : (s.head == 0) ≡ false = ground arith in
          let no_prev : (s.prev s.tail == 0) ≡ true = sym (at_head s s.tail xs l in_t) ∙ both in
          let no_next : (s.next s.tail == 0) ≡ true =
            sym (at_tail s s.tail xs l in_t) ∙ ==_refl s.tail in
          let no_next' = subst (λ z. (s.next z == 0) ≡ true) (sym e) no_next in
          rw (both, not_null, head_there, no_prev, no_next') refl
      | inr apart ↦
          rw (apart, not_null, ==_refl s.tail)
            (elim (Bool-cases (s.prev s.tail == 0)) [
              | inl alone ↦ rw alone refl
              | inr others ↦ rw others refl
            ])
    ]

-- Appending at the ends.
pub list_append_head-IsLinked :
    (s : Links) (n : ℕ) (xs : List ℕ)
    → IsLinked s xs
    → 1 ≤ n
    → times n xs ≡ 0
    → IsLinked (list_append_head s n) (n ∷ xs)
unfolding list_append_head times first last after before
list_append_head-IsLinked s n [] l pos out =
    let empty : (s.head == 0) ≡ true = ground (arith, l.head_is) in
    rw empty (record {
      nodes = record { once = λ a. ground arith; nonzero = ground arith };
      head_is = refl;
      tail_is = refl;
      next_is = λ a in_a. ground (arith, in_a);
      prev_is = λ a in_a. ground (arith, in_a);
    })
list_append_head-IsLinked s n (x ∷ xs) l pos out =
    let there : (s.head == 0) ≡ false = ground (arith, l.head_is, l.nodes.nonzero) in
    rw there (record {
      nodes = record {
        once = λ a. ground (arith, l.nodes.once a, out);
        nonzero = ground (arith, l.nodes.nonzero);
      };
      head_is = refl;
      tail_is = l.tail_is;
      next_is = λ a in_a. ground (arith, in_a, l.next_is a, l.head_is);
      prev_is = λ a in_a. ground (arith, in_a, l.prev_is a, l.head_is, out, l.nodes.once a);
    })
