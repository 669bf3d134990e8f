-- ===== src/Prelude/Results.antt =====
-- The pair (value, error) of a Go function whose value is meaningful exactly where the error is nil.
pub data Result {ℓ κ} (E : Type ℓ) (A : Type κ) : Type (ℓ ⊔ κ) where
  ok : A → Result E A
  err : E → Result E A
