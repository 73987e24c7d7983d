-- ===== src/Containers/Links/Commands.antt =====
-- The operations of src/kernel/lib/list.h in any order, against those of sequences.
use mathlib.Core.Path.{subst}
use ricerca.Common.{
  ℕ, ◌+◌, ◌≤◌, ◌≡◌, refl, sym, ap, ◌∙◌, true, false, List, [], ◌∷◌, ◌++◌, ◌==◌, ==_refl,
  if◌then◌else◌, arith, inl, inr, Bool-cases,
}
use ricerca.Containers.Links.Defs.{
  Links, list_append_head, list_append_tail, list_remove_head, list_remove_tail, list_remove,
}
use ricerca.Containers.Links.Order.{
  times, first, last, after, before, without, times-first, last-times, absent,
}
use ricerca.Containers.Links.Refines.{
  IsLinked, list_remove-IsLinked, list_append_head-IsLinked, head_removed, tail_removed,
}

times-snoc :
    (xs : List ℕ) (n a : ℕ) → times a (xs ++ (n ∷ [])) ≡ times a xs + (if n == a then 1 else 0)
unfolding times
times-snoc [] n a = omega arith
times-snoc (x ∷ xs) n a = omega (arith, times-snoc xs n a)

first-snoc :
    (xs : List ℕ) (n : ℕ)
    → first (xs ++ (n ∷ [])) ≡ (if times (first xs) xs == 0 then n else first xs)
unfolding first times
first-snoc [] n = refl
first-snoc (x ∷ xs) n = ground (arith, ==_refl x)

last-snoc : (b : ℕ) (xs : List ℕ) (n : ℕ) → last b (xs ++ (n ∷ [])) ≡ n
unfolding last
last-snoc b [] n = refl
last-snoc b (x ∷ xs) n = last-snoc x xs n

before-snoc :
    (b : ℕ) (xs : List ℕ) (n a : ℕ)
    → times n xs ≡ 0
    → 1 ≤ times a (xs ++ (n ∷ []))
    → before b (xs ++ (n ∷ [])) a ≡ (if a == n then last b xs else before b xs a)
unfolding before last times
before-snoc b [] n a out in_a = ground (arith, in_a)
before-snoc b (x ∷ xs) n a out in_a = elim (Bool-cases (x == a)) [
  | inl at_x ↦ let not_n : (a == n) ≡ false = ground (arith, out) in rw (at_x, not_n) refl
  | inr other ↦ rw other (before-snoc x xs n a (omega (arith, out)) (ground (arith, in_a, other)))
]

after-snoc :
    (b : ℕ) (xs : List ℕ) (n a : ℕ)
    → ((c : ℕ) → times c xs ≤ 1)
    → times n xs ≡ 0
    → 1 ≤ times a (xs ++ (n ∷ []))
    → after (xs ++ (n ∷ [])) a ≡ (if a == n then 0 else (if a == last b xs then n else after xs a))
unfolding times after last first
after-snoc b [] n a once out in_a = ground (arith, in_a)
after-snoc b (x ∷ []) n a once out in_a = ground (arith, in_a, out)
after-snoc b (x ∷ y ∷ ys) n a once out in_a = elim (Bool-cases (x == a)) [
  | inl at_x ↦
      let not_n : (a == n) ≡ false = ground (arith, out) in
      let gone : times a (y ∷ ys) ≡ 0 = ground (arith, once a, at_x) in
      let not_last : (a == last y ys) ≡ false =
        ground (arith, absent (y ∷ ys) a (last y ys) gone (last-times y ys)) in
      rw (at_x, not_n, not_last) refl
  | inr other ↦ rw other (
      after-snoc x (y ∷ ys) n a (λ c. omega (arith, once c)) (omega (arith, out))
        (ground (arith, in_a, other)))
]

pub list_append_tail-IsLinked :
    (s : Links) (n : ℕ) (xs : List ℕ)
    → IsLinked s xs
    → 1 ≤ n
    → times n xs ≡ 0
    → IsLinked (list_append_tail s n) (xs ++ (n ∷ []))
unfolding list_append_tail times first last after before
list_append_tail-IsLinked s n [] l pos out =
    let empty : (s.tail == 0) ≡ true = ground (arith, l.tail_is) in
    rw empty (record {
      nodes = record { once = λ a. ground arith; nonzero = ground arith };
      head_is = refl;
      tail_is = refl;
      next_is = λ a in_a. ground (arith, in_a);
      prev_is = λ a in_a. ground (arith, in_a);
    })
list_append_tail-IsLinked s n (x ∷ xs) l pos out =
    let not_null = absent (x ∷ xs) 0 (last x xs) l.nodes.nonzero (last-times x xs) in
    let not_n = absent (x ∷ xs) n (last x xs) out (last-times x xs) in
    let there : (s.tail == 0) ≡ false = ground (arith, l.tail_is, not_null) in
    rw there (record {
      nodes = record {
        once = λ a. ground (arith, l.nodes.once a, out, times-snoc (x ∷ xs) n a);
        nonzero = ground (arith, l.nodes.nonzero, times-snoc (x ∷ xs) n 0);
      };
      head_is = l.head_is;
      tail_is = sym (last-snoc x xs n);
      next_is = λ a in_a. ground (
        arith,
        l.next_is a,
        l.tail_is,
        not_n,
        times-snoc (x ∷ xs) n a,
        after-snoc 0 (x ∷ xs) n a l.nodes.once out in_a,
      );
      prev_is = λ a in_a. ground (
        arith,
        l.prev_is a,
        l.tail_is,
        times-snoc (x ∷ xs) n a,
        before-snoc 0 (x ∷ xs) n a out in_a,
      );
    })

pub data Command : Type 0 where
  append_head : ℕ → Command
  append_tail : ℕ → Command
  remove_head : Command
  remove_tail : Command
  remove_node : ℕ → Command

-- The code's run of an operation: the node that it returns, 0 for none, and the links.
unfoldable pub exec : Command → Links → ℕ × Links
exec (append_head n) s = (0, list_append_head s n)
exec (append_tail n) s = (0, list_append_tail s n)
exec remove_head s = list_remove_head s
exec remove_tail s = list_remove_tail s
exec (remove_node n) s = (0, list_remove s n)

-- The same on a sequence.
unfoldable pub meaning : Command → List ℕ → ℕ × List ℕ
meaning (append_head n) xs = (0, n ∷ xs)
meaning (append_tail n) xs = (0, xs ++ (n ∷ []))
meaning remove_head xs = (first xs, without (first xs) xs)
meaning remove_tail xs = (last 0 xs, without (last 0 xs) xs)
meaning (remove_node n) xs = (0, without n xs)

-- A node is appended where it is in no place of the list, and taken out where it is in one.
abbrev pub IsAllowed : Command → List ℕ → Type 0
IsAllowed (append_head n) xs = (1 ≤ n) × (times n xs ≡ 0)
IsAllowed (append_tail n) xs = (1 ≤ n) × (times n xs ≡ 0)
IsAllowed remove_head xs = 0 ≤ 0
IsAllowed remove_tail xs = 0 ≤ 0
IsAllowed (remove_node n) xs = 1 ≤ times n xs

pub data AreAllowed : List Command → List ℕ → Type 0 where
  stop : {xs : List ℕ} → AreAllowed [] xs
  go :
      {c : Command} {cs : List Command} {xs : List ℕ}
      → IsAllowed c xs
      → AreAllowed cs (meaning c xs).1
      → AreAllowed (c ∷ cs) xs

-- A node that an operation takes out.
removed :
    (s : Links) (xs : List ℕ) (n : ℕ) (out : ℕ × Links)
    → IsLinked s xs
    → out ≡ (n, list_remove s n)
    → 1 ≤ times n xs
    → (out.0 ≡ n) × IsLinked out.1 (without n xs)
removed s xs n out l e in_n = (
  ap (λ o. o.0) e,
  subst (λ o. IsLinked o.1 (without n xs)) (sym e) (list_remove-IsLinked s n xs l in_n),
)

exec-meaning :
    (c : Command) (s : Links) (xs : List ℕ)
    → IsLinked s xs
    → IsAllowed c xs
    → ((exec c s).0 ≡ (meaning c xs).0) × IsLinked (exec c s).1 (meaning c xs).1
unfolding exec meaning first last times list_remove_head without list_remove_tail
exec-meaning (append_head n) s xs l ok = (refl, list_append_head-IsLinked s n xs l ok.0 ok.1)
exec-meaning (append_tail n) s xs l ok = (refl, list_append_tail-IsLinked s n xs l ok.0 ok.1)
exec-meaning remove_head s [] l ok =
    let empty : (s.head == 0) ≡ true = ground (arith, l.head_is) in
    let same : list_remove_head s ≡ (0, s) = rw (list_remove_head, empty) refl in
    (ap (λ o. o.0) same, subst (λ o. IsLinked o.1 []) (sym same) l)
exec-meaning remove_head s (x ∷ xs) l ok =
    let pos : 1 ≤ s.head = ground (arith, l.head_is, l.nodes.nonzero) in
    removed s (x ∷ xs) x (list_remove_head s) l
      (subst (λ z. list_remove_head s ≡ (z, list_remove s z)) l.head_is (head_removed s pos))
      (times-first (x ∷ xs) (omega (arith, pos, l.head_is)))
exec-meaning remove_tail s [] l ok =
    let empty : (s.tail == 0) ≡ true = ground (arith, l.tail_is) in
    let same : list_remove_tail s ≡ (0, s) = rw (list_remove_tail, empty) refl in
    (ap (λ o. o.0) same, subst (λ o. IsLinked o.1 []) (sym same) l)
exec-meaning remove_tail s (x ∷ xs) l ok =
    let not_null = absent (x ∷ xs) 0 (last x xs) l.nodes.nonzero (last-times x xs) in
    let pos : 1 ≤ s.tail = ground (arith, l.tail_is, not_null) in
    removed s (x ∷ xs) (last x xs) (list_remove_tail s) l
      (subst (λ z. list_remove_tail s ≡ (z, list_remove s z)) l.tail_is
        (tail_removed s (x ∷ xs) l pos))
      (last-times x xs)
exec-meaning (remove_node n) s xs l ok = (refl, list_remove-IsLinked s n xs l ok)

-- Any run: what the operations return, and the state at the end.
unfoldable pub exec_all : List Command → Links → List ℕ × Links
unfolding exec
exec_all [] s = ([], s)
exec_all (c ∷ cs) s =
    let (out, s') = exec c s in let (outs, s'') = exec_all cs s' in (out ∷ outs, s'')

unfoldable pub meaning_all : List Command → List ℕ → List ℕ × List ℕ
unfolding meaning
meaning_all [] xs = ([], xs)
meaning_all (c ∷ cs) xs =
    let (out, xs') = meaning c xs in let (outs, xs'') = meaning_all cs xs' in (out ∷ outs, xs'')

-- From a list that holds a sequence of nodes, any run that appends only nodes that are not in the list and
-- takes out only nodes that are returns what the same operations on the sequence give, and ends with the
-- links of the sequence that they end with.
pub exec_all-meaning_all :
    (cs : List Command) (s : Links) (xs : List ℕ)
    → IsLinked s xs
    → AreAllowed cs xs
    → ((exec_all cs s).0 ≡ (meaning_all cs xs).0) × IsLinked (exec_all cs s).1 (meaning_all cs xs).1
unfolding exec_all meaning_all
exec_all-meaning_all [] s xs l ok = (refl, l)
exec_all-meaning_all (c ∷ cs) s xs l (go ok oks) =
    let one = exec-meaning c s xs l ok in
    let rest = exec_all-meaning_all cs (exec c s).1 (meaning c xs).1 one.1 oks in
    (
      ap (λ z. z ∷ (exec_all cs (exec c s).1).0) one.0 ∙ ap (λ zs. (meaning c xs).0 ∷ zs) rest.0,
      rest.1,
    )
