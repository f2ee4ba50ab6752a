-- ===== src/Outcome.antt =====
-- The exceptions of the program, and the result of code that may raise one.

-- `struct.error`, `binascii.Error` (a `ValueError`), `UnicodeDecodeError`, `OSError`, `AttributeError` (a method of `None`), `KeyError`, `TypeError`, `IndexError`
-- and `RecursionError`.
pub data Error : Type 0 where
  struct_error value_error unicode_error os_error attribute_error key_error type_error index_error
        recursion_error :
      Error

pub data Outcome {ℓ} (A : Type ℓ) : Type ℓ where
  ok : A → Outcome A
  raised : Error → Outcome A

infixl 10 ◌>>=◌
abbrev pub ◌>>=◌ {ℓ κ} : {A : Type ℓ} {B : Type κ} → Outcome A → (A → Outcome B) → Outcome B
ok a >>= f = f a
raised e >>= f = raised e
