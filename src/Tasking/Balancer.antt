-- ===== src/Tasking/Balancer.antt =====
-- src/kernel/thread/tasking/balancer.c: the core that a new task goes to.
use ricerca.Common.{
  ℕ, ◌≡◌, ◌≤◌, ◌<◌, ◌≢◌, refl, Option, none, some, List, [], ◌∷◌, arith, count, ltb, inl, inr,
  List-cases, if◌then◌else◌,
}

-- struct thread_smp_sched_group: its cores by number, and how many tasks have been placed there.
pub record SchedGroup : Type 0 where
  pub cpus : List ℕ
  pub tasks_count : ℕ

-- The loops of the next two functions: `result` is the best up to here.
unfoldable pub least_busy : (load : ℕ → ℕ) (result : ℕ) → List ℕ → ℕ
least_busy load result [] = result
least_busy load result (current ∷ rest) =
    least_busy load (if ltb (load current) (load result) then current else result) rest

-- thread_balancer_least_busy_core; `load` is the tasks_count of each core's scheduler. A group is not
-- empty.
unfoldable pub least_busy_core : (load : ℕ → ℕ) → SchedGroup → Option ℕ
least_busy_core load group = elim (group.cpus) [
  | [] ↦ none
  | cpu ∷ cpus ↦ some (least_busy load cpu cpus)
]

-- thread_balancer_least_busy_group; the ring of the domain's groups is `root` and then `ring`.
unfoldable pub least_busy_group : (groups : ℕ → SchedGroup) (root : ℕ) (ring : List ℕ) → ℕ
least_busy_group groups root ring = least_busy (λ g. (groups g).tasks_count) root ring

-- The core that thread_balancer_allocate_to_any associates a task with
unfoldable pub allocate_to_any :
    (load : ℕ → ℕ) (groups : ℕ → SchedGroup) (root : ℕ) (ring : List ℕ) → Option ℕ
allocate_to_any load groups root ring =
    least_busy_core load (groups (least_busy_group groups root ring))

-- The element is one of those, and none has less load.
abbrev pub IsLeast : (load : ℕ → ℕ) → List ℕ → ℕ → Type 0
IsLeast load cs r = (0 < count r cs) × ((c : ℕ) → 0 < count c cs → load r ≤ load c)

least_busy-IsLeast :
    (load : ℕ → ℕ) (result : ℕ) (rest : List ℕ)
    → IsLeast load (result ∷ rest) (least_busy load result rest)
unfolding least_busy
least_busy-IsLeast load result [] = (ground arith, λ c h. ground (arith, h))
least_busy-IsLeast load result (current ∷ rest) =
    let next = if ltb (load current) (load result) then current else result in
    let (here, least) = least_busy-IsLeast load next rest in
    (ground (arith, here), λ c h. ground (arith, least c, least next, h))

-- A new task goes to a core of a group such that no group of the ring has been given fewer tasks, and
-- no core of that group has been given fewer than it.
allocate_to_any-IsLeast :
    (load : ℕ → ℕ) (groups : ℕ → SchedGroup) (root : ℕ) (ring : List ℕ)
    → ((g : ℕ) → (groups g).cpus ≢ [])
    → (group : ℕ) × (core : ℕ) × (allocate_to_any load groups root ring ≡ some core)
      × IsLeast (λ g. (groups g).tasks_count) (root ∷ ring) group
      × IsLeast load (groups group).cpus core
unfolding allocate_to_any least_busy_core least_busy_group
allocate_to_any-IsLeast load groups root ring full =
    let group = least_busy-IsLeast (λ g. (groups g).tasks_count) root ring in
    let id = least_busy (λ g. (groups g).tasks_count) root ring in
    elim (List-cases (groups id).cpus) [
      | inl e ↦ absurd (full id e)
      | inr (cpu, cpus, e) ↦ (
        id,
        least_busy load cpu cpus,
        rw (e) refl,
        group,
        rw e (least_busy-IsLeast load cpu cpus),
      )
    ]
