-- ===== src/Targets/Tests.antt =====
-- The search of src/kernel/lib/target.c run on small graphs.
use ricerca.Common.{ℕ, zero, suc, ◌≤◌, ◌<◌, ◌≡◌, refl, false, List, [], ◌∷◌, arith}
use ricerca.Targets.Defs.{
  Search, Result, planned, circular, compute_plan, loop, turn, look, execute_plan,
}
use ricerca.Targets.Sound.{DependsAt, Needs, itself, further}
use ricerca.Targets.Work.{rounds}
use ricerca.Targets.Correct.{
  IsBounded, IsAtRest, IsPlan, Verdict, compute_plan-Verdict, compute_plan-IsPlan,
}

-- Target 0 depends on 1 and 3, target 1 on 2 and 3, target 2 on 3.
abbrev chart : ℕ → List ℕ
chart zero = 1 ∷ 3 ∷ []
chart (suc zero) = 2 ∷ 3 ∷ []
chart (suc (suc zero)) = 3 ∷ []
chart (suc (suc (suc t))) = []

-- Target 0 depends on 1, target 1 on 2 and target 2 on 1.
abbrev ring : ℕ → List ℕ
ring zero = 1 ∷ []
ring (suc zero) = 2 ∷ []
ring (suc (suc zero)) = 1 ∷ []
ring (suc (suc (suc t))) = []

abbrev plan_of : Result → List ℕ
plan_of r = elim r [ planned s ↦ s.plan | _ ↦ [] ]

deepest_first : plan_of (compute_plan chart 10 (λ t. 0) (λ t. false) 0) ≡ 3 ∷ 2 ∷ 1 ∷ 0 ∷ []
unfolding compute_plan loop turn look
deepest_first = refl

runs_out : compute_plan chart 9 (λ t. 0) (λ t. false) 0 ≡ Result.unfinished
unfolding compute_plan loop turn look
runs_out = refl

finds_ring : compute_plan ring 10 (λ t. 0) (λ t. false) 0 ≡ circular 1 2
unfolding compute_plan loop turn look
finds_ring = refl

in_order : execute_plan (λ t s. t ∷ s) (3 ∷ 2 ∷ []) [] ≡ 2 ∷ 3 ∷ []
unfolding execute_plan
in_order = refl

chart-lt : (t i d : ℕ) → DependsAt chart t i d → (t < d) × (d < 4)
chart-lt zero zero d e = ground arith
chart-lt zero (suc zero) d e = ground arith
chart-lt zero (suc (suc i)) d e = absurd (ground arith)
chart-lt (suc zero) zero d e = ground arith
chart-lt (suc zero) (suc zero) d e = ground arith
chart-lt (suc zero) (suc (suc i)) d e = absurd (ground arith)
chart-lt (suc (suc zero)) zero d e = ground arith
chart-lt (suc (suc zero)) (suc i) d e = absurd (ground arith)
chart-lt (suc (suc (suc t))) i d e = absurd (ground arith)

chart-IsBounded : IsBounded chart 4
chart-IsBounded = record { bound = λ t i d lt e. (chart-lt t i d e).1 }

unvisited-IsAtRest : (deps : ℕ → List ℕ) → IsAtRest deps (λ t. 0) (λ t. false)
unvisited-IsAtRest deps = record {
  done = λ t e. absurd (ground arith);
  closed = λ t e. absurd (ground arith);
  fresh = λ t e. refl;
}

Needs-le : {t u : ℕ} → Needs chart t u → t ≤ u
Needs-le itself = omega arith
Needs-le (further {d = d} {e = e} i w at) = omega (arith, Needs-le w, (chart-lt d i e at).0)

compute_plan-Verdict_example :
    Verdict chart (λ t. false) 0 4 (compute_plan chart 10 (λ t. 0) (λ t. false) 0)
unfolding rounds
compute_plan-Verdict_example =
    compute_plan-Verdict chart (λ t. 0) (λ t. false) 0 4 10 chart-IsBounded
      (unvisited-IsAtRest chart) (omega arith) refl (omega arith)

compute_plan-IsPlan_example :
    (s : Search) × (compute_plan chart 10 (λ t. 0) (λ t. false) 0 ≡ planned s)
    × IsPlan chart (λ t. false) 0 s
unfolding rounds
compute_plan-IsPlan_example =
    compute_plan-IsPlan chart (λ t. 0) (λ t. false) 0 4 10 chart-IsBounded
      (unvisited-IsAtRest chart) (omega arith) refl (omega arith)
      (λ t i d e w. omega (arith, Needs-le w, (chart-lt t i d e).0))
