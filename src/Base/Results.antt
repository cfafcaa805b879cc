-- ===== src/Base/Results.antt =====
-- The result of a call that may fail.
pub data Result {ℓ} (A : Type ℓ) (E : Type ℓ) : Type ℓ where
  ok : A → Result A E
  err : E → Result A E
