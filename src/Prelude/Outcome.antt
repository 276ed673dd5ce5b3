-- ===== src/Prelude/Outcome.antt =====
-- Go's `(value, error)` results: either the value or the error.

pub data Result {ℓ κ} (E : Type ℓ) (A : Type κ) : Type (ℓ ⊔ κ) where
  ok : A → Result E A
  err : E → Result E A
