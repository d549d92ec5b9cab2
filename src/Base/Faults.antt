-- ===== src/Base/Faults.antt =====
-- What a call of C code comes to: a value, or a fault (a NULL pointer read or written, a division by
-- zero, an index out of an array's bounds).

pub data Outcome {ℓ} (A : Type ℓ) : Type ℓ where
  returned : A → Outcome A
  fault : Outcome A

infixl 5 ◌>>=◌
abbrev pub ◌>>=◌ {ℓ κ} : {A : Type ℓ} {B : Type κ} → Outcome A → (A → Outcome B) → Outcome B
returned a >>= f = f a
fault >>= f = fault
