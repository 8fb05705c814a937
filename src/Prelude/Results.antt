-- ===== src/Prelude/Results.antt =====
-- Rust's `Result`, and the predicate that a value is there.
pub data Result {ℓ κ} (A : Type ℓ) (E : Type κ) : Type (ℓ ⊔ κ) where
  ok : A → Result A E
  err : E → Result A E
