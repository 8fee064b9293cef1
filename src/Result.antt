-- ===== src/Result.antt =====
-- A computation that returns a value or raises an exception of the type `E`.
use hermes_ops.Prelude.{◌≡◌, refl, ◌⊎◌, inl, inr, Bool, true, false, not, if◌then◌else◌}

pub data Result {ℓ κ} (E : Type ℓ) (A : Type κ) : Type (ℓ ⊔ κ) where
  ok : A → Result E A
  err : E → Result E A

module _ {E A B : Type 0} where
  infixl 10 ◌>>=◌ ◌>>◌
  abbrev pub ◌>>=◌ : Result E A → (A → Result E B) → Result E B
  ok a >>= f = f a
  err e >>= f = err e

  abbrev pub ◌>>◌ : Result E A → Result E B → Result E B
  m >> n = m >>= λ _. n

-- `if test: raise e`
abbrev pub refuse : {E : Type 0} → Bool → E → Result E (Unit {0})
refuse test e = if test then err e else ok tt

pub Result-cases :
    {E A : Type 0} (r : Result E A) → ((a : A) × (r ≡ ok a)) ⊎ ((e : E) × (r ≡ err e))
Result-cases (ok a) = inl (a, refl)
Result-cases (err e) = inr (e, refl)

-- Inversion of a sequence that returned.
pub >>=-eq-ok :
    {E A B : Type 0} (first : Result E A) (next : A → Result E B) {value : B}
    → (first >>= next) ≡ ok value
    → (got : A) × (first ≡ ok got) × (next got ≡ ok value)
>>=-eq-ok (err raised) next e = cc
>>=-eq-ok (ok got) next e = (got, refl, e)

pub refuse-eq-ok :
    {E : Type 0} (test : Bool) (e : E) {u : Unit {0}} → refuse test e ≡ ok u → test ≡ false
refuse-eq-ok true e h = cc
refuse-eq-ok false e h = refl

pub ok-injective : {E A : Type 0} {a b : A} → ◌≡◌ {A = Result E A} (ok a) (ok b) → a ≡ b
ok-injective h = cc

-- Inversion of a test that must hold before the rest runs.
pub refuse-not-eq-ok :
    {E B : Type 0} (test : Bool) (e : E) (rest : Result E B) {value : B}
    → (refuse (not test) e >> rest) ≡ ok value
    → (test ≡ true) × (rest ≡ ok value)
refuse-not-eq-ok true e rest h = (refl, h)
refuse-not-eq-ok false e rest h = cc
