-- ===== src/Prelude/Errors.antt =====
-- Python exceptions as values: what a call returned, or what it raised.

-- The exceptions that the modelled code raises or lets through.
pub data Exception : Type 0 where
  zero_division value_error state_schema state_corruption : Exception

pub data Outcome {ℓ} (A : Type ℓ) : Type ℓ where
  ok : A → Outcome A
  raise : Exception → Outcome A

infixl 5 ◌>>=◌
abbrev pub ◌>>=◌ {ℓ κ} : {A : Type ℓ} {B : Type κ} → Outcome A → (A → Outcome B) → Outcome B
ok a >>= f = f a
raise e >>= f = raise e
