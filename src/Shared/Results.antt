-- ===== src/Shared/Results.antt =====
-- What an operation that may raise gives: an error of the part's own type, or a value.
pub data Fallible {ℓ} (E : Type 0) (A : Type ℓ) : Type ℓ where
  err : E → Fallible E A
  ok : A → Fallible E A

-- The first error ends a `do` block.
infixl 5 ◌>>=◌
abbrev pub ◌>>=◌ {ℓ κ} :
    {E : Type 0} {A : Type ℓ} {B : Type κ} → Fallible E A → (A → Fallible E B) → Fallible E B
err raised >>= next = err raised
ok value >>= next = next value
