-- ===== src/Exec.antt =====
-- Methods that mutate state and may raise. What was written before an exception stays written, so
-- the state comes back beside the exception too.
pub mod Keeps
use hermes_ops.Result.{Result, ok, err}

abbrev pub Exec : Type 0 → Type 0 → Type 0 → Type 0
Exec S E A = S → Result E A × S

module _ {S E A : Type 0} where
  unfoldable pub pure : A → Exec S E A
  pure a s = (ok a, s)

  unfoldable pub raise : E → Exec S E A
  raise e s = (err e, s)

  unfoldable pub lift : Result E A → Exec S E A
  lift r s = (r, s)

module _ {S E A B : Type 0} where
  -- What follows a statement that returned or raised.
  abbrev pub resume : (A → Exec S E B) → Result E A → S → Result E B × S
  resume f (ok a) s = f a s
  resume f (err e) s = (err e, s)

  infixl 10 ◌>>=◌ ◌>>◌
  unfoldable pub ◌>>=◌ : Exec S E A → (A → Exec S E B) → Exec S E B
  unfolding pure raise lift
  ◌>>=◌ m f s = let (r, t) = m s in resume f r t

  abbrev pub ◌>>◌ : Exec S E A → Exec S E B → Exec S E B
  m >> n = m >>= λ _. n
