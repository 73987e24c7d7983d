-- ===== src/Targets/Sound.antt =====
-- What holds in every round of target_compute_plan (src/kernel/lib/target.c).
use mathlib.Core.Path.{subst}
use ricerca.Common.{
  ℕ, suc, ◌+◌, ◌≤◌, ◌<◌, ◌≡◌, ◌⊎◌, inl, inr, sym, ◌∙◌, Bool, true, false, some, List, [], ◌∷◌, ◌++◌,
  ◌==◌, length, get_elem?, count, arith, Bool-cases,
}
use ricerca.Targets.Defs.{Search, mark_resolved, count_up}

module _ (deps : ℕ → List ℕ) where
  -- d is the dependency of t at an index.
  abbrev pub DependsAt : (t i d : ℕ) → Type 0
  DependsAt t i d = get_elem? (deps t) i ≡ some d

  -- t needs d: a chain of dependencies leads from t to d.
  pub data Needs (t : ℕ) : ℕ → Type 0 where
    itself : Needs t t
    further : {d e : ℕ} (i : ℕ) → Needs t d → DependsAt d i e → Needs t e

  -- The dependencies of t below an index are resolved.
  abbrev pub Settled : (ℕ → Bool) → (t i : ℕ) → Type 0
  Settled resolved t i = (j d : ℕ) → j < i → DependsAt t j d → resolved d ≡ true

  module _ (index : ℕ → ℕ) (resolved : ℕ → Bool) (root : ℕ) where
    -- The targets below the top of the stack: each waits for the one above it, the first for d, the
    -- last is the root.
    pub data Waiting : (d : ℕ) → List ℕ → Type 0 where
      bottom : Waiting root []
      waits :
          {d t : ℕ} {rest : List ℕ} (i : ℕ)
          → index t ≡ suc i
          → DependsAt t i d
          → Settled resolved t i
          → resolved t ≡ false
          → count t rest ≡ 0
          → Waiting t rest
          → Waiting d (t ∷ rest)

    pub data Stacked : List ℕ → Type 0 where
      empty : resolved root ≡ true → Stacked []
      top :
          {t : ℕ} {rest : List ℕ}
          → Settled resolved t (index t)
          → resolved t ≡ false
          → count t rest ≡ 0
          → Waiting t rest
          → Stacked (t ∷ rest)

  -- Every target comes once and after its dependencies, but for those resolved before.
  pub data Ordered (before : ℕ → Bool) : List ℕ → Type 0 where
    first : Ordered before []
    next :
        {plan : List ℕ} {t : ℕ}
        → Ordered before plan
        → count t plan ≡ 0
        → before t ≡ false
        → ((i d : ℕ) → DependsAt t i d → (before d ≡ true) ⊎ (1 ≤ count d plan))
        → Ordered before (plan ++ t ∷ [])

  pub record IsSound (before : ℕ → Bool) (root : ℕ) (s : Search) : Type 0 where
    pub stacked : Stacked s.dep_index s.resolved root s.stack
    pub index : (t : ℕ) → s.dep_index t ≤ length (deps t)
    pub done : (t : ℕ) → s.resolved t ≡ true → s.dep_index t ≡ length (deps t)
    pub fresh : (t : ℕ) → s.resolved t ≡ false → count t s.stack ≡ 0 → s.dep_index t ≡ 0
    pub planned : (t : ℕ) → s.resolved t ≡ true → (before t ≡ true) ⊎ (1 ≤ count t s.plan)
    pub marked : (t : ℕ) → 1 ≤ count t s.plan → s.resolved t ≡ true
    pub earlier : (t : ℕ) → before t ≡ true → s.resolved t ≡ true
    pub closed : (t : ℕ) → s.resolved t ≡ true → Settled s.resolved t (length (deps t))
    pub order : Ordered before s.plan
    pub needed : (t : ℕ) → 1 ≤ count t s.stack + count t s.plan → Needs root t

  pub Settled-mark :
      (resolved : ℕ → Bool) (u t i : ℕ)
      → Settled resolved t i
      → Settled (mark_resolved u resolved) t i
  Settled-mark resolved u t i h j d lt e = ground (arith, h j d lt e)

  -- One more dependency that is resolved.
  pub Settled-suc :
      (resolved : ℕ → Bool) (t i d : ℕ)
      → Settled resolved t i
      → DependsAt t i d
      → resolved d ≡ true
      → Settled resolved t (suc i)
  Settled-suc resolved t i d h dep r j e lt dep' = elim (Bool-cases (j == i)) [
    | inl last ↦
        let j_i : j ≡ i = ground arith in
        let at : DependsAt t i e = subst (λ k. DependsAt t k e) j_i dep' in
        ground (arith, sym dep ∙ at)
    | inr sooner ↦ h j e (ground arith) dep'
  ]

  pub Waiting-mark :
      {index : ℕ → ℕ} {resolved : ℕ → Bool} {root d : ℕ} {stack : List ℕ} (u : ℕ)
      → count u stack ≡ 0
      → Waiting index resolved root d stack
      → Waiting index (mark_resolved u resolved) root d stack
  Waiting-mark u off bottom = bottom
  Waiting-mark {resolved = resolved} u off (waits {t = t} i at dep settled open_ once w) =
      waits i at dep (Settled-mark resolved u t i settled) (ground arith) once
        (Waiting-mark u (ground arith) w)

  Waiting-count_up :
      {index : ℕ → ℕ} {resolved : ℕ → Bool} {root d : ℕ} {stack : List ℕ} (u : ℕ)
      → count u stack ≡ 0
      → Waiting index resolved root d stack
      → Waiting (count_up u index) resolved root d stack
  Waiting-count_up u off bottom = bottom
  Waiting-count_up u off (waits i at dep settled open_ once w) =
      waits i (ground arith) dep settled open_ once (Waiting-count_up u (ground arith) w)

  -- The target that a resolved one uncovers.
  pub Stacked-mark :
      {index : ℕ → ℕ} {resolved : ℕ → Bool} {root t : ℕ} {rest : List ℕ}
      → count t rest ≡ 0
      → Waiting index resolved root t rest
      → Stacked index (mark_resolved t resolved) root rest
  Stacked-mark off bottom = empty (ground arith)
  Stacked-mark {resolved = resolved} {t = t} off (waits {t = u} i at dep settled open_ once w) =
      let settled' =
        Settled-suc (mark_resolved t resolved) u i t (Settled-mark resolved t u i settled) dep
          (ground arith) in
      top (λ j d lt e. settled' j d (omega (arith, at)) e) (ground arith) once
        (Waiting-mark t (ground arith) w)

  -- The loop looks at a resolved dependency and stays where it is.
  pub Stacked-skip :
      {index : ℕ → ℕ} {resolved : ℕ → Bool} {root t d : ℕ} {rest : List ℕ}
      → DependsAt t (index t) d
      → resolved d ≡ true
      → Stacked index resolved root (t ∷ rest)
      → Stacked (count_up t index) resolved root (t ∷ rest)
  Stacked-skip {index} {resolved} {t = t} {d} dep done (top settled open_ once w) =
      let settled' = Settled-suc resolved t (index t) d settled dep done in
      top (λ j e lt at. settled' j e (ground arith) at) open_ once (Waiting-count_up t once w)

  -- The loop goes on with a dependency that it has not seen.
  pub Stacked-push :
      {index : ℕ → ℕ} {resolved : ℕ → Bool} {root t d : ℕ} {rest : List ℕ}
      → DependsAt t (index t) d
      → resolved d ≡ false
      → count_up t index d ≡ 0
      → count d (t ∷ rest) ≡ 0
      → Stacked index resolved root (t ∷ rest)
      → Stacked (count_up t index) resolved root (d ∷ t ∷ rest)
  Stacked-push {index} {resolved} {t = t} {d} dep new zero_index off (top settled open_ once w) =
      top (λ j e lt at. absurd (omega (arith, zero_index))) new off
        (waits (index t) (ground arith) dep settled open_ once (Waiting-count_up t once w))

  -- What waits has begun.
  pub Waiting-begun :
      {index : ℕ → ℕ} {resolved : ℕ → Bool} {root d : ℕ} {stack : List ℕ} (u : ℕ)
      → 1 ≤ count u stack
      → Waiting index resolved root d stack
      → 1 ≤ index u
  Waiting-begun u on bottom = absurd (omega arith)
  Waiting-begun {index} u on (waits {t = t} {rest} i at dep settled open_ once w) =
      elim (Bool-cases (t == u)) [
        | inl here ↦ ground (arith, at)
        | inr below ↦ Waiting-begun u (ground arith) w
      ]

  -- What waits needs what it waits for, and the top.
  pub Waiting-Needs :
      {index : ℕ → ℕ} {resolved : ℕ → Bool} {root d : ℕ} {stack : List ℕ} (u : ℕ)
      → 1 ≤ count u stack
      → Waiting index resolved root d stack
      → Needs u d
  Waiting-Needs u on bottom = absurd (omega arith)
  Waiting-Needs {d = d} u on (waits {t = t} {rest} i at dep settled open_ once w) =
      elim (Bool-cases (t == u)) [
        | inl here ↦
            let u_t : t ≡ u = ground arith in subst (λ m. Needs m d) u_t (further i itself dep)
        | inr below ↦ further i (Waiting-Needs u (ground arith) w) dep
      ]
