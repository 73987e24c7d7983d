-- ===== src/Tasking/Queue.antt =====
-- The heap of a core's tasks, while the tasks outside of it change.
use ricerca.Common.{ℕ, ◌+◌, ◌≡◌, ◌<◌, inl, inr, refl, ap, Option, none, some, arith, Option-cases}
use ricerca.Containers.PairingHeap.{Hook, nil, node, get_min, remove_min}
use ricerca.Containers.PairingHeap.Order.{
  IsStrict, IsHeap, Above, IsValid, tally, insert-IsValid, remove_min-IsValid,
}
use ricerca.Containers.Intmap.Tally.{once}
use ricerca.Tasking.Defs.{
  Task, Localsched, put_task, cmp_unfairness, enqueue_nolock, try_dequeue_nolock,
}

pub cmp_unfairness-IsStrict : (tasks : ℕ → Task) → IsStrict (cmp_unfairness tasks)
cmp_unfairness-IsStrict tasks = record {
  asym = λ a b h. ground (arith, h);
  trans = λ a b c h k. ground (arith, h, k);
}

-- The heap is in the order of unfairness.
abbrev pub IsOrdered : (ℕ → Task) → Hook ℕ → Type 0
IsOrdered tasks h = IsValid (cmp_unfairness tasks) (cmp_unfairness-IsStrict tasks) h

-- How often a task is in the heap.
abbrev pub queued : Hook ℕ → ℕ → ℕ
queued h t = tally (once t) h

module _ (f g : ℕ → Task) where
  -- The tasks of a heap are as unfair in the one store as in the other.
  abbrev pub Agree : Hook ℕ → Type 0
  Agree h = (t : ℕ) → 0 < queued h t → (f t).unfairness ≡ (g t).unfairness

  pub Above-Agree :
      (a : ℕ) (h : Hook ℕ)
      → (f a).unfairness ≡ (g a).unfairness
      → Agree h
      → Above (cmp_unfairness f) a h
      → Above (cmp_unfairness g) a h
  unfolding tally
  Above-Agree a nil same all p = tt
  Above-Agree a (node b c n) same all (p, pc, pn) =
      let here = all b (ground arith) in
      (
        ground (arith, same, here, p),
        Above-Agree a c same (λ t h. all t (omega (arith, h))) pc,
        Above-Agree a n same (λ t h. all t (omega (arith, h))) pn,
      )

  IsHeap-Agree : (h : Hook ℕ) → Agree h → IsHeap (cmp_unfairness f) h → IsHeap (cmp_unfairness g) h
  unfolding tally
  IsHeap-Agree nil all p = tt
  IsHeap-Agree (node a c n) all (p, pc, pn) = (
    Above-Agree a c (all a (ground arith)) (λ t h. all t (omega (arith, h))) p,
    IsHeap-Agree c (λ t h. all t (omega (arith, h))) pc,
    IsHeap-Agree n (λ t h. all t (omega (arith, h))) pn,
  )

  pub IsOrdered-Agree : (h : Hook ℕ) → Agree h → IsOrdered f h → IsOrdered g h
  IsOrdered-Agree h all ok = record { heap = IsHeap-Agree h all ok.heap; root = ok.root }

-- A task outside the heap may change.
pub Agree-put_task :
    (tasks : ℕ → Task) (t : ℕ) (v : Task) (h : Hook ℕ)
    → queued h t ≡ 0
    → Agree tasks (put_task tasks t v) h
Agree-put_task tasks t v h out u pos = ground (arith, out, pos)

-- What dequeueing comes to.
pub data Dequeued (s : Localsched) : Type 0 where
  nothing : s.heap ≡ nil → try_dequeue_nolock s ≡ (none, s) → Dequeued s
  least :
      (task : ℕ) (rest : Hook ℕ)
      → try_dequeue_nolock s ≡ (some task, record s { heap = rest })
      → Above (cmp_unfairness s.tasks) task rest
      → IsOrdered s.tasks rest
      → ((t : ℕ) → queued s.heap t ≡ once t task + queued rest t)
      → Dequeued s

get_min-none : (h : Hook ℕ) → get_min h ≡ none → h ≡ nil
unfolding get_min
get_min-none nil e = refl
get_min-none (node a c n) e = absurd (ground (arith, e))

remove_min-nil :
    (tasks : ℕ → Task) (h : Hook ℕ) → h ≡ nil → remove_min (cmp_unfairness tasks) h ≡ (none, h)
unfolding remove_min
remove_min-nil tasks h e = rw e refl

try_dequeue_nolock-nil : (s : Localsched) → s.heap ≡ nil → try_dequeue_nolock s ≡ (none, s)
unfolding try_dequeue_nolock
try_dequeue_nolock-nil s e =
    ap (λ (r : Option ℕ × Hook ℕ). (r.0, record s { heap = r.1 })) (remove_min-nil s.tasks s.heap e)

pub try_dequeue_nolock-Dequeued : (s : Localsched) → IsOrdered s.tasks s.heap → Dequeued s
unfolding try_dequeue_nolock
try_dequeue_nolock-Dequeued s ok = elim (Option-cases (get_min s.heap)) [
  | inl e ↦ let h = get_min-none s.heap e in nothing h (try_dequeue_nolock-nil s h)
  | inr (task, e) ↦
      let (found, above, rest, same) =
        remove_min-IsValid (cmp_unfairness s.tasks) (cmp_unfairness-IsStrict s.tasks) task s.heap ok
          e in
      let heap = (remove_min (cmp_unfairness s.tasks) s.heap).1 in
      least task heap (ap (λ o. (o, record s { heap = heap })) found) above rest λ t. same (once t)
]

-- A task that is not there yet is added once.
pub enqueue_nolock-IsOrdered :
    (s : Localsched) (task : ℕ)
    → IsOrdered s.tasks s.heap
    → IsOrdered s.tasks (enqueue_nolock s task).heap
      × ((t : ℕ) → queued (enqueue_nolock s task).heap t ≡ queued s.heap t + once t task)
unfolding enqueue_nolock
enqueue_nolock-IsOrdered s task ok =
    let (ordered, added) =
      insert-IsValid (cmp_unfairness s.tasks) (cmp_unfairness-IsStrict s.tasks) task s.heap ok in
    (ordered, λ t. added (once t))
