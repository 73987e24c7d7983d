-- ===== src/Targets/Correct.antt =====
-- target_compute_plan of src/kernel/lib/target.c ends with a plan that respects the dependencies,
-- or panics at a cycle.
use mathlib.Core.Path.{subst}
use ricerca.Common.{
  ℕ, zero, suc, ◌+◌, ◌≤◌, ◌<◌, ◌≡◌, ◌⊎◌, inl, inr, refl, ap, Bool, true, false, List, [], ◌∷◌, ◌==◌,
  length, get_elem?, get_elem?-none, count, arith, Bool-cases, Option-cases,
}
use ricerca.Targets.Defs.{
  Search, begin, count_up, Round, ends, goes, panics, overruns, Result, planned, circular, overrun,
  look, turn, loop, compute_plan,
}
use ricerca.Targets.Sound.{
  DependsAt, Needs, itself, further, Settled, bottom, Stacked, top, empty, Ordered, first, IsSound,
}
use ricerca.Targets.Moves.{pop-IsSound, skip-IsSound, push-IsSound, panic-Needs, is_top, index-lt}
use ricerca.Targets.Work.{rounds, work, work-rounds, work-count_up, work-mark}

-- The targets below n depend on such targets only.
pub record IsBounded (deps : ℕ → List ℕ) (n : ℕ) : Type 0 where
  pub bound : (t i d : ℕ) → t < n → DependsAt deps t i d → d < n

-- Between the calls: a target is resolved with all its dependencies, or not begun.
pub record IsAtRest (deps : ℕ → List ℕ) (index : ℕ → ℕ) (resolved : ℕ → Bool) : Type 0 where
  pub done : (t : ℕ) → resolved t ≡ true → index t ≡ length (deps t)
  pub closed : (t : ℕ) → resolved t ≡ true → Settled deps resolved t (length (deps t))
  pub fresh : (t : ℕ) → resolved t ≡ false → index t ≡ 0

-- What a plan promises, where `before` says which targets are already resolved.
pub record IsPlan (deps : ℕ → List ℕ) (before : ℕ → Bool) (root : ℕ) (s : Search) : Type 0 where
  pub order : Ordered deps before s.plan
  pub reaches : 1 ≤ count root s.plan
  pub needed : (t : ℕ) → 1 ≤ count t s.plan → Needs deps root t
  pub resolves : (t : ℕ) → s.resolved t ≡ true → (before t ≡ true) ⊎ (1 ≤ count t s.plan)
  pub marks : (t : ℕ) → (before t ≡ true) ⊎ (1 ≤ count t s.plan) → s.resolved t ≡ true
  pub rest : IsAtRest deps s.dep_index s.resolved

empty-root :
    {deps : ℕ → List ℕ} {index : ℕ → ℕ} {resolved : ℕ → Bool} {root : ℕ}
    → Stacked deps index resolved root []
    → resolved root ≡ true
empty-root (empty e) = e

Needs-lt : {deps : ℕ → List ℕ} {n t u : ℕ} → IsBounded deps n → t < n → Needs deps t u → u < n
Needs-lt b h itself = h
Needs-lt b h (further {d = d} {e = e} i w at) = b.bound d i e (Needs-lt b h w) at

module _ (deps : ℕ → List ℕ) (before : ℕ → Bool) (root n : ℕ) where
  -- What a round leaves: a sound search with less to do, or a cycle.
  data Sounds (s : Search) : Round → Type 0 where
    sound_end : s.stack ≡ [] → IsSound deps before root s → Sounds s (ends s)
    sound_go :
        {s' : Search}
        → IsSound deps before root s'
        → suc (work deps n s'.dep_index s'.resolved) ≡ work deps n s.dep_index s.resolved
        → Sounds s (goes s')
    sound_panic : {d t : ℕ} (i : ℕ) → DependsAt deps t i d → Needs deps d t → Sounds s (panics d t)

  look-Sounds :
      (s : Search) (tos d : ℕ) (rest : List ℕ)
      → tos < n
      → s.stack ≡ tos ∷ rest
      → DependsAt deps tos (s.dep_index tos) d
      → IsSound deps before root s
      → Sounds s (look deps tos d s)
  unfolding look
  look-Sounds s tos d rest lt e dep ok =
      let less =
        work-count_up deps n tos s.dep_index s.resolved lt (index-lt s tos rest e ok d dep) in
      elim (Bool-cases (s.resolved d)) [
        | inl done ↦ rw done (sound_go (skip-IsSound s tos rest e ok d dep done) less)
        | inr new ↦ elim (Bool-cases (count_up tos s.dep_index d == 0)) [
          | inl unseen ↦
              rw (new, unseen)
                (sound_go (push-IsSound s tos rest e ok d dep new (ground arith)) less)
          | inr seen ↦
              rw (new, seen)
                (sound_panic (s.dep_index tos) dep (panic-Needs s tos rest e ok d dep new seen))
        ]
      ]

  turn-Sounds :
      (stack : List ℕ) (s : Search)
      → IsBounded deps n
      → root < n
      → s.stack ≡ stack
      → IsSound deps before root s
      → Sounds s (turn deps stack s)
  unfolding turn
  turn-Sounds [] s b h e ok = sound_end e ok
  turn-Sounds (tos ∷ rest) s b h e ok =
      let on : 1 ≤ count tos s.stack + count tos s.plan = ground (arith, ap (count tos) e) in
      let lt : tos < n = Needs-lt b h (ok.needed tos on) in
      let it = is_top s tos rest e ok in
      elim (Bool-cases (s.dep_index tos == length (deps tos))) [
        | inl all ↦ rw all (
            sound_go (pop-IsSound s tos rest e ok (ground arith))
              (work-mark deps n tos s.dep_index s.resolved lt it.unresolved))
        | inr more ↦ rw more (elim (Option-cases (get_elem? (deps tos) (s.dep_index tos))) [
          | inl past ↦
              absurd
                (ground (arith, get_elem?-none (deps tos) (s.dep_index tos) past, ok.index tos))
          | inr (d, dep) ↦ rw dep (look-Sounds s tos d rest lt e dep ok)
        ])
      ]

  -- The plan where the stack is empty.
  end-IsPlan :
      (s : Search)
      → before root ≡ false
      → s.stack ≡ []
      → IsSound deps before root s
      → IsPlan deps before root s
  end-IsPlan s new e ok =
      let reached =
        empty-root (subst (λ xs. Stacked deps s.dep_index s.resolved root xs) e ok.stacked) in
      record {
        order = ok.order;
        reaches = elim (ok.planned root reached) [
          | inl early ↦ absurd (ground (arith, early, new))
          | inr on ↦ on
        ];
        needed = λ t on. ok.needed t (omega (arith, on));
        resolves = ok.planned;
        marks =
            λ t either. elim either [ inl early ↦ ok.earlier t early | inr on ↦ ok.marked t on ];
        rest = record {
          done = ok.done;
          closed = ok.closed;
          fresh = λ t open_. ok.fresh t open_ (ap (count t) e);
        };
      }

  -- How the loop ends.
  pub data Verdict : Result → Type 0 where
    has_plan : {s : Search} → IsPlan deps before root s → Verdict (planned s)
    has_cycle : {d t : ℕ} (i : ℕ) → DependsAt deps t i d → Needs deps d t → Verdict (circular d t)

  Sounds-Verdict :
      (s : Search) {r : Round} (fuel : ℕ)
      → before root ≡ false
      → Sounds s r
      → ((s' : Search)
          → IsSound deps before root s'
          → suc (work deps n s'.dep_index s'.resolved) ≡ work deps n s.dep_index s.resolved
          → Verdict (loop deps fuel s'))
      → Verdict (elim r [
        | ends s' ↦ planned s'
        | goes s' ↦ loop deps fuel s'
        | panics dependency tos ↦ circular dependency tos
        | overruns ↦ overrun
      ])
  Sounds-Verdict s fuel new (sound_end e ok) go_on = has_plan (end-IsPlan s new e ok)
  Sounds-Verdict s fuel new (sound_go {s' = s'} ok less) go_on = go_on s' ok less
  Sounds-Verdict s fuel new (sound_panic i at w) go_on = has_cycle i at w

  loop-Verdict :
      (fuel : ℕ) (s : Search)
      → IsBounded deps n
      → root < n
      → before root ≡ false
      → work deps n s.dep_index s.resolved < fuel
      → IsSound deps before root s
      → Verdict (loop deps fuel s)
  unfolding loop
  loop-Verdict zero s b h new enough ok = absurd (omega arith)
  loop-Verdict (suc fuel) s b h new enough ok =
      Sounds-Verdict s fuel new (turn-Sounds s.stack s b h refl ok)
        (λ s' ok' less. loop-Verdict fuel s' b h new (omega (arith, less)) ok')

begin-IsSound :
    {deps : ℕ → List ℕ} {index : ℕ → ℕ} {before : ℕ → Bool} {root : ℕ}
    → IsAtRest deps index before
    → before root ≡ false
    → IsSound deps before root (begin index before root)
begin-IsSound {deps} {before = before} {root} ok new = record {
  stacked = top (λ j d lt e. absurd (omega (arith, ok.fresh root new))) new refl bottom;
  index = λ t. elim (Bool-cases (before t)) [
    | inl early ↦ omega (arith, ok.done t early)
    | inr late ↦ omega (arith, ok.fresh t late)
  ];
  done = ok.done;
  fresh = λ t e off. ok.fresh t e;
  planned = λ t e. inl e;
  marked = λ t on. absurd (omega arith);
  earlier = λ t e. e;
  closed = ok.closed;
  order = first;
  needed = λ t on. let root_t : root ≡ t = ground arith in subst (Needs deps root) root_t itself;
}

Verdict-IsPlan :
    {deps : ℕ → List ℕ} {before : ℕ → Bool} {root n : ℕ} {r : Result}
    → ((t i d : ℕ) → DependsAt deps t i d → ¬ Needs deps d t)
    → Verdict deps before root n r
    → (s : Search) × (r ≡ planned s) × IsPlan deps before root s
Verdict-IsPlan acyclic (has_plan {s} plan) = (s, refl, plan)
Verdict-IsPlan acyclic (has_cycle {d} {t} i at w) = absurd (acyclic t i d at w)

-- Enough rounds give the verdict: one for each dependency and one for each target below n.
pub compute_plan-Verdict :
    (deps : ℕ → List ℕ) (index : ℕ → ℕ) (before : ℕ → Bool) (root n fuel : ℕ)
    → IsBounded deps n
    → IsAtRest deps index before
    → root < n
    → before root ≡ false
    → rounds deps n < fuel
    → Verdict deps before root n (compute_plan deps fuel index before root)
unfolding compute_plan
compute_plan-Verdict deps index before root n fuel b rest h new enough =
    loop-Verdict deps before root n fuel (begin index before root) b h new
      (omega (arith, work-rounds deps n index before, enough)) (begin-IsSound rest new)

-- Where no target needs itself by way of one of its dependencies, there is a plan.
pub compute_plan-IsPlan :
    (deps : ℕ → List ℕ) (index : ℕ → ℕ) (before : ℕ → Bool) (root n fuel : ℕ)
    → IsBounded deps n
    → IsAtRest deps index before
    → root < n
    → before root ≡ false
    → rounds deps n < fuel
    → ((t i d : ℕ) → DependsAt deps t i d → ¬ Needs deps d t)
    → (s : Search) × (compute_plan deps fuel index before root ≡ planned s)
      × IsPlan deps before root s
compute_plan-IsPlan deps index before root n fuel b rest h new enough acyclic =
    Verdict-IsPlan acyclic (compute_plan-Verdict deps index before root n fuel b rest h new enough)
