-- ===== src/Common/Try.antt =====
-- A call that may raise: an exception of the type `E` is a value.
pub data Try (E A : Type 0) : Type 0 where
  value : A → Try E A
  raise : E → Try E A

infixl 15 ◌>>=◌
abbrev pub ◌>>=◌ : {E A B : Type 0} → Try E A → (A → Try E B) → Try E B
value a >>= f = f a
raise e >>= f = raise e
