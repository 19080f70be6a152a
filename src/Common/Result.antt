-- ===== src/Common/Result.antt =====
-- What a function of the source comes to that may throw.

-- `throws` is a C++ exception, `fault` a read behind the end of the arguments, which is undefined.
pub data Result {ℓ} (A : Type ℓ) : Type ℓ where
  ok : A → Result A
  throws : Result A
  fault : Result A

infixl 5 ◌>>=◌
abbrev pub ◌>>=◌ {ℓ κ} : {A : Type ℓ} {B : Type κ} → Result A → (A → Result B) → Result B
ok a >>= f = f a
throws >>= f = throws
fault >>= f = fault
