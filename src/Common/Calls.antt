-- ===== src/Common/Calls.antt =====
-- How a call ends: it returns, it is put to sleep on a lock that is taken, or it reads memory
-- outside the object that it indexes, after which C promises nothing.
pub data Outcome {ℓ κ} (S : Type ℓ) (A : Type κ) : Type (ℓ ⊔ κ) where
  returns : A → S → Outcome S A
  suspended : S → Outcome S A
  fault : Outcome S A
