-- ===== src/Targets/Moves.antt =====
-- A round of target_compute_plan (src/kernel/lib/target.c) keeps what holds in every round.
use mathlib.Core.Path.{subst}
use ricerca.Common.{
  ℕ, ◌≤◌, ◌<◌, ◌≡◌, inl, inr, sym, ap, Bool, true, false, List, [], ◌∷◌, ◌++◌, ◌==◌, length,
  get_elem?-lt, count, count-append, arith, Bool-cases,
}
use ricerca.Targets.Defs.{Search, mark_resolved, count_up}
use ricerca.Targets.Sound.{
  DependsAt, Needs, itself, further, Settled, Waiting, Stacked, top, next, IsSound, Settled-mark,
  Stacked-mark, Stacked-skip, Stacked-push, Waiting-begun, Waiting-Needs,
}

-- What the top of the stack is known by.
pub record IsTop (deps : ℕ → List ℕ) (root : ℕ) (s : Search) (tos : ℕ) (rest : List ℕ)
    : Type 0 where
  pub settled : Settled deps s.resolved tos (s.dep_index tos)
  pub unresolved : s.resolved tos ≡ false
  pub once : count tos rest ≡ 0
  pub waiting : Waiting deps s.dep_index s.resolved root tos rest

Stacked-IsTop :
    {deps : ℕ → List ℕ} {root tos : ℕ} {rest : List ℕ} {s : Search}
    → Stacked deps s.dep_index s.resolved root (tos ∷ rest)
    → IsTop deps root s tos rest
Stacked-IsTop (top settled unresolved once waiting) = record {
  settled = settled;
  unresolved = unresolved;
  once = once;
  waiting = waiting;
}

module _ {deps : ℕ → List ℕ} {before : ℕ → Bool} {root : ℕ} (s : Search) (tos : ℕ) (rest : List ℕ)
    (stack_is : s.stack ≡ tos ∷ rest) (ok : IsSound deps before root s) where
  stacked : Stacked deps s.dep_index s.resolved root (tos ∷ rest)
  stacked = subst (λ xs. Stacked deps s.dep_index s.resolved root xs) stack_is ok.stacked

  pub is_top : IsTop deps root s tos rest
  is_top = Stacked-IsTop stacked

  pub on_stack : (t : ℕ) → count t s.stack ≡ count t (tos ∷ rest)
  on_stack t = ap (count t) stack_is

  -- The top of the stack is resolved.
  pub pop-IsSound :
      s.dep_index tos ≡ length (deps tos)
      → IsSound deps before root (record s {
        stack = rest;
        resolved = mark_resolved tos s.resolved;
        plan = s.plan ++ tos ∷ [];
      })
  pop-IsSound all =
      let it = is_top in
      record {
        stacked = Stacked-mark deps it.once it.waiting;
        index = ok.index;
        done = λ t e. elim (Bool-cases (t == tos)) [
          | inl same ↦
              let t_tos : t ≡ tos = ground arith in
              subst (λ m. s.dep_index m ≡ length (deps m)) (sym t_tos) all
          | inr other ↦ ok.done t (ground arith)
        ];
        fresh = λ t e off. ok.fresh t (ground arith) (ground (arith, on_stack t));
        planned = λ t e. elim (Bool-cases (t == tos)) [
          | inl same ↦ inr (ground (arith, count-append t s.plan (tos ∷ [])))
          | inr other ↦ elim (ok.planned t (ground arith)) [
            | inl early ↦ inl early
            | inr on ↦ inr (omega (arith, on, count-append t s.plan (tos ∷ [])))
          ]
        ];
        marked = λ t on. elim (Bool-cases (t == tos)) [
          | inl same ↦ ground arith
          | inr other ↦
              ground (arith, ok.marked t (ground (arith, count-append t s.plan (tos ∷ []))))
        ];
        earlier = λ t e. ground (arith, ok.earlier t e);
        closed = λ t e. elim (Bool-cases (t == tos)) [
          | inl same ↦
              let t_tos : t ≡ tos = ground arith in
              let own : Settled deps s.resolved tos (length (deps tos)) =
                subst (λ n. Settled deps s.resolved tos n) all it.settled in
              subst (λ m. Settled deps (mark_resolved tos s.resolved) m (length (deps m)))
                (sym t_tos) (Settled-mark deps s.resolved tos tos (length (deps tos)) own)
          | inr other ↦
              Settled-mark deps s.resolved tos t (length (deps t)) (ok.closed t (ground arith))
        ];
        order =
            next ok.order (ground (arith, ok.marked tos, it.unresolved))
              (ground (arith, ok.earlier tos, it.unresolved))
              (λ i d dep.
                ok.planned d
                  (it.settled i d (omega (arith, all, get_elem?-lt (deps tos) i dep)) dep));
        needed = λ t on. ok.needed t (ground (arith, on_stack t, count-append t s.plan (tos ∷ [])));
      }

  module _ (d : ℕ) (dep : DependsAt deps tos (s.dep_index tos) d) where
    pub index-lt : s.dep_index tos < length (deps tos)
    index-lt = get_elem?-lt (deps tos) (s.dep_index tos) dep

    -- The dependency that the top looks at is resolved.
    pub skip-IsSound :
        s.resolved d ≡ true
        → IsSound deps before root (record s { dep_index = count_up tos s.dep_index })
    skip-IsSound done =
        let it = is_top in
        record {
          stacked =
              subst (λ xs. Stacked deps (count_up tos s.dep_index) s.resolved root xs)
                (sym stack_is) (Stacked-skip deps dep done stacked);
          index = λ t. elim (Bool-cases (t == tos)) [
            | inl same ↦
                let t_tos : t ≡ tos = ground arith in
                subst (λ m. count_up tos s.dep_index m ≤ length (deps m)) (sym t_tos)
                  (ground (arith, index-lt))
            | inr other ↦ ground (arith, ok.index t)
          ];
          done = λ t e. elim (Bool-cases (t == tos)) [
            | inl same ↦ absurd (ground (arith, it.unresolved, e))
            | inr other ↦ rw other (ok.done t e)
          ];
          fresh = λ t e off. ground (arith, ok.fresh t e off, on_stack t);
          planned = ok.planned;
          marked = ok.marked;
          earlier = ok.earlier;
          closed = ok.closed;
          order = ok.order;
          needed = ok.needed;
        }

    off_stack : s.resolved d ≡ false → count_up tos s.dep_index d ≡ 0 → count d (tos ∷ rest) ≡ 0
    off_stack new unseen = elim (Bool-cases (tos == d)) [
      | inl same ↦ absurd (ground arith)
      | inr other ↦ elim (Bool-cases (count d rest == 0)) [
        | inl none_there ↦ ground arith
        | inr there_is ↦ absurd (ground (arith, Waiting-begun deps d (ground arith) is_top.waiting))
      ]
    ]

    -- The dependency is new: it is resolved first.
    pub push-IsSound :
        s.resolved d ≡ false
        → count_up tos s.dep_index d ≡ 0
        → IsSound deps before root
            (record s { dep_index = count_up tos s.dep_index; stack = d ∷ s.stack })
    push-IsSound new unseen =
        let it = is_top in
        let off = off_stack new unseen in
        record {
          stacked =
              subst (λ xs. Stacked deps (count_up tos s.dep_index) s.resolved root (d ∷ xs))
                (sym stack_is) (Stacked-push deps dep new unseen off stacked);
          index = λ t. elim (Bool-cases (t == tos)) [
            | inl same ↦
                let t_tos : t ≡ tos = ground arith in
                subst (λ m. count_up tos s.dep_index m ≤ length (deps m)) (sym t_tos)
                  (ground (arith, index-lt))
            | inr other ↦ ground (arith, ok.index t)
          ];
          done = λ t e. elim (Bool-cases (t == tos)) [
            | inl same ↦ absurd (ground (arith, it.unresolved, e))
            | inr other ↦ rw other (ok.done t e)
          ];
          fresh = λ t e off. ground (arith, ok.fresh t e, on_stack t);
          planned = ok.planned;
          marked = ok.marked;
          earlier = ok.earlier;
          closed = ok.closed;
          order = ok.order;
          needed = λ t on. elim (Bool-cases (d == t)) [
            | inl same ↦
                let d_t : d ≡ t = ground arith in
                subst (Needs deps root) d_t
                  (further (s.dep_index tos) (ok.needed tos (ground (arith, on_stack tos))) dep)
            | inr other ↦ ok.needed t (ground arith)
          ];
        }

    -- The dependency is being resolved: it needs the top, which depends on it.
    pub panic-Needs :
        s.resolved d ≡ false → (count_up tos s.dep_index d == 0) ≡ false → Needs deps d tos
    panic-Needs new seen = elim (Bool-cases (tos == d)) [
      | inl same ↦ let tos_d : tos ≡ d = ground arith in subst (λ m. Needs deps m tos) tos_d itself
      | inr other ↦ elim (Bool-cases (count d rest == 0)) [
        | inl none_there ↦ absurd (ground (arith, ok.fresh d new, on_stack d))
        | inr there_is ↦ Waiting-Needs deps d (ground arith) is_top.waiting
      ]
    ]
