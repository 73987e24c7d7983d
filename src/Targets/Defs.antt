-- ===== src/Targets/Defs.antt =====
-- src/kernel/lib/target.c: targets are numbers, and `deps` has the dependencies of each. The links
-- next_to_be_visited and next are the lists that they run through, the stack and the plan.
use ricerca.Common.{
  ℕ, zero, suc, Bool, true, not, none, some, List, [], ◌∷◌, ◌++◌, ◌==◌, if◌then◌else◌, length,
  get_elem?,
}

-- The fields of every struct target that the search writes, its stack, and the plan so far.
pub record Search : Type 0 where
  pub dep_index : ℕ → ℕ
  pub resolved : ℕ → Bool
  pub stack : List ℕ
  pub plan : List ℕ

-- How a round of the loop ends: the stack is empty, the loop goes on, or it panics because `tos`
-- depends on a target that is being resolved; or dep_index is not below deps_count, nor equal to it.
pub data Round : Type 0 where
  ends : Search → Round
  goes : Search → Round
  panics : (dependency tos : ℕ) → Round
  overruns : Round

-- The same of the whole loop; `unfinished` where the fuel does not do.
pub data Result : Type 0 where
  planned : Search → Result
  circular : (dependency tos : ℕ) → Result
  overrun : Result
  unfinished : Result

-- target_compute_plan before its loop, with the fields that earlier calls have left.
abbrev pub begin : (dep_index : ℕ → ℕ) (resolved : ℕ → Bool) (target : ℕ) → Search
begin dep_index resolved target = record {
  dep_index = dep_index;
  resolved = resolved;
  stack = target ∷ [];
  plan = [];
}

abbrev pub mark_resolved : ℕ → (ℕ → Bool) → ℕ → Bool
mark_resolved t resolved u = if u == t then true else resolved u

abbrev pub count_up : ℕ → (ℕ → ℕ) → ℕ → ℕ
count_up t index u = if u == t then suc (index u) else index u

module _ (deps : ℕ → List ℕ) where
  -- The else branch of the loop, where `tos` is on top and looks at its next dependency.
  unfoldable pub look : (tos dependency : ℕ) → Search → Round
  look tos dependency s =
      let s' : Search = record s { dep_index = count_up tos s.dep_index } in
      if s.resolved dependency
      then goes s'
      else (if not (s'.dep_index dependency == 0)
          then panics dependency tos
          else goes (record s' { stack = dependency ∷ s.stack }))

  -- One round of the loop of target_compute_plan, on the stack.
  unfoldable pub turn : (stack : List ℕ) → Search → Round
  turn [] s = ends s
  turn (tos ∷ rest) s =
      if s.dep_index tos == length (deps tos)
      then goes (record s {
        stack = rest;
        resolved = mark_resolved tos s.resolved;
        plan = s.plan ++ tos ∷ [];
      })
      else elim (get_elem? (deps tos) (s.dep_index tos)) [
        | none ↦ overruns
        | some dependency ↦ look tos dependency s
      ]

  -- The loop, for at most `fuel` rounds.
  unfoldable pub loop : (fuel : ℕ) → Search → Result
  loop zero s = unfinished
  loop (suc fuel) s = elim (turn s.stack s) [
    | ends s' ↦ planned s'
    | goes s' ↦ loop fuel s'
    | panics dependency tos ↦ circular dependency tos
    | overruns ↦ overrun
  ]

  -- target_compute_plan
  unfoldable pub compute_plan :
      (fuel : ℕ) (dep_index : ℕ → ℕ) (resolved : ℕ → Bool) (target : ℕ) → Result
  compute_plan fuel dep_index resolved target = loop fuel (begin dep_index resolved target)

-- target_execute_plan: the callbacks are called in the order of the plan.
unfoldable pub execute_plan {ℓ} : {S : Type ℓ} → (callback : ℕ → S → S) → List ℕ → S → S
execute_plan callback [] s = s
execute_plan callback (current ∷ rest) s = execute_plan callback rest (callback current s)
