-- ===== src/Targets/Work.antt =====
-- How many rounds target_compute_plan (src/kernel/lib/target.c) may still take.
use native.Mathlib.Decide.{dec_lt}
use ricerca.Common.{
  ℕ, zero, suc, ◌+◌, ◌-◌, ◌≤◌, ◌<◌, ◌≡◌, refl, Bool, false, List, if◌then◌else◌, length, arith,
}
use ricerca.Targets.Defs.{mark_resolved, count_up}

module _ (deps : ℕ → List ℕ) where
  -- One round for each dependency of the targets below n, and one for each target.
  unfoldable pub rounds : (n : ℕ) → ℕ
  rounds zero = 0
  rounds (suc n) = suc (rounds n + length (deps n))

  -- Those that are left.
  unfoldable pub work : (n : ℕ) → (ℕ → ℕ) → (ℕ → Bool) → ℕ
  work zero index resolved = 0
  work (suc n) index resolved =
      work n index resolved + (length (deps n) - index n) + (if resolved n then 0 else 1)

  pub work-rounds : (n : ℕ) (index : ℕ → ℕ) (resolved : ℕ → Bool) → work n index resolved ≤ rounds n
  unfolding rounds work
  work-rounds zero index resolved = omega arith
  work-rounds (suc n) index resolved = ground (arith, work-rounds n index resolved)

  work-count_up_above :
      (n t : ℕ) (index : ℕ → ℕ) (resolved : ℕ → Bool)
      → n ≤ t
      → work n (count_up t index) resolved ≡ work n index resolved
  unfolding work
  work-count_up_above zero t index resolved h = refl
  work-count_up_above (suc n) t index resolved h =
      ground (arith, work-count_up_above n t index resolved (omega arith))

  pub work-count_up :
      (n t : ℕ) (index : ℕ → ℕ) (resolved : ℕ → Bool)
      → t < n
      → index t < length (deps t)
      → suc (work n (count_up t index) resolved) ≡ work n index resolved
  unfolding work
  work-count_up zero t index resolved h lt = absurd (omega arith)
  work-count_up (suc n) t index resolved h lt = elim (dec_lt t n) [
    | yes below ↦ ground (arith, work-count_up n t index resolved below lt)
    | no last ↦
        let n_t : n ≡ t = omega arith in
        rw n_t (ground (arith, work-count_up_above t t index resolved (omega arith)))
  ]

  work-mark_above :
      (n t : ℕ) (index : ℕ → ℕ) (resolved : ℕ → Bool)
      → n ≤ t
      → work n index (mark_resolved t resolved) ≡ work n index resolved
  unfolding work
  work-mark_above zero t index resolved h = refl
  work-mark_above (suc n) t index resolved h =
      ground (arith, work-mark_above n t index resolved (omega arith))

  pub work-mark :
      (n t : ℕ) (index : ℕ → ℕ) (resolved : ℕ → Bool)
      → t < n
      → resolved t ≡ false
      → suc (work n index (mark_resolved t resolved)) ≡ work n index resolved
  unfolding work
  work-mark zero t index resolved h open_ = absurd (omega arith)
  work-mark (suc n) t index resolved h open_ = elim (dec_lt t n) [
    | yes below ↦ ground (arith, work-mark n t index resolved below open_)
    | no last ↦
        let n_t : n ≡ t = omega arith in
        rw n_t (ground (arith, work-mark_above t t index resolved (omega arith)))
  ]
