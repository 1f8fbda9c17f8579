-- ===== src/Parse/Error.antt =====
-- The errors that internal/parse returns, and Go's (value, error) pair.

-- The messages of parse.go, in the order of their appearance: "empty address", "dual left",
-- "dual right", "missing address type", "unbalanced quote", "trailing backslash" and
-- "malformed \x escape".
pub data Error : Type 0 where
  empty_address : Error
  dual_left dual_right : Error → Error
  missing_type unbalanced_quote trailing_backslash malformed_hex : Error

pub data Result {ℓ} (Value : Type ℓ) : Type ℓ where
  err : Error → Result Value
  ok : Value → Result Value

module _ {ℓ κ} {A : Type ℓ} {B : Type κ} where
  infixl 5 ◌>>=◌
  abbrev pub ◌>>=◌ : Result A → (A → Result B) → Result B
  err e >>= next = err e
  ok a >>= next = next a

-- What is wrapped by fmt.Errorf with %w.
abbrev pub wrap {ℓ} : {A : Type ℓ} → (Error → Error) → Result A → Result A
wrap f (err e) = err (f e)
wrap f (ok a) = ok a
