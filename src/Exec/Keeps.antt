-- ===== src/Exec/Keeps.antt =====
-- A relation between the states before and after an action, one rule for each way to build one.
use hermes_ops.Prelude.{Bool, true, false, Option, none, some, if◌then◌else◌}
use hermes_ops.Result.{Result, ok, err}
use hermes_ops.Exec.{Exec, pure, raise, lift, ◌>>=◌}

-- A relation that may be composed.
pub record IsPreorder {S : Type 0} (R : S → S → Type 0) : Type 0 where
  pub same : (s : S) → R s s
  pub compose : (s t u : S) → R s t → R t u → R s u

-- `m` relates the state that it finds to the state that it leaves, whether it returns or raises.
pub record Keeps {S E A : Type 0} (R : S → S → Type 0) (m : Exec S E A) : Type 0 where
  pub at : (s : S) → R s (m s).1

module _ {S E A : Type 0} {R : S → S → Type 0} (p : IsPreorder R) where
  pub Keeps-pure : (a : A) → Keeps R (pure {E = E} a)
  unfolding pure
  Keeps-pure a = record { at = λ s. p.same s }

  pub Keeps-raise : (e : E) → Keeps R (raise {A = A} e)
  unfolding raise
  Keeps-raise e = record { at = λ s. p.same s }

  pub Keeps-lift : (r : Result E A) → Keeps R (lift r)
  unfolding lift
  Keeps-lift r = record { at = λ s. p.same s }

  pub Keeps-if :
      (b : Bool) (m n : Exec S E A) → Keeps R m → Keeps R n → Keeps R (if b then m else n)
  Keeps-if true m n km kn = km
  Keeps-if false m n km kn = kn

module _ {S E A B : Type 0} {R : S → S → Type 0} (p : IsPreorder R) where
  pub Keeps-option :
      (o : Option A) (m : Exec S E B) (f : A → Exec S E B)
      → Keeps R m
      → ((a : A) → Keeps R (f a))
      → Keeps R (elim o [ none ↦ m | some a ↦ f a ])
  Keeps-option none m f km kf = km
  Keeps-option (some a) m f km kf = kf a

  Keeps-resume :
      (f : A → Exec S E B) (r : Result E A) (s t : S)
      → ((a : A) → Keeps R (f a))
      → R s t
      → R s ((lift r >>= f) t).1
  unfolding ◌>>=◌
  Keeps-resume f (ok a) s t kf h = p.compose s t _ h ((kf a).at t)
  Keeps-resume f (err e) s t kf h = h

  pub Keeps-bind :
      (m : Exec S E A) (f : A → Exec S E B)
      → Keeps R m
      → ((a : A) → Keeps R (f a))
      → Keeps R (m >>= f)
  unfolding ◌>>=◌
  Keeps-bind m f km kf = record { at = λ s. let (r, t) = m s in Keeps-resume f r s t kf (km.at s) }
