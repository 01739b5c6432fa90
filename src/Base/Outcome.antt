-- ===== src/Base/Outcome.antt =====
-- A Go pair `(value, error)` of which the caller reads one part, and contexts.
use mathlib.Core.Path.{◌≡◌}
use mathlib.Core.Option.{some}

pub data Result {ℓ} (E A : Type ℓ) : Type ℓ where
  ok : A → Result E A
  err : E → Result E A

infixl 5 ◌>>=◌
abbrev pub ◌>>=◌ {ℓ} : {E A B : Type ℓ} → Result E A → (A → Result E B) → Result E B
ok a >>= f = f a
err e >>= f = err e

-- `ctx.Err()` of a context that is done.
pub data ContextError : Type 0 where
  canceled deadline_exceeded : ContextError

-- A context that is not nil, as it is when an operation reads it.
pub data Context : Type 0 where
  live : Context
  done : ContextError → Context

pub ok_injective {ℓ} : {E A : Type ℓ} {a b : A} → ◌≡◌ {A = Result E A} (ok a) (ok b) → a ≡ b
ok_injective h = cc

pub some_injective {ℓ} : {A : Type ℓ} {a b : A} → some a ≡ some b → a ≡ b
some_injective h = cc
