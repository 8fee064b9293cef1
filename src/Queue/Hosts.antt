-- ===== src/Queue/Hosts.antt =====
-- plugins/honcho-ops/honcho_ops/queue_diagnostic.py: what a host must look like to be passed to ssh.
use Prim.Native.Char.{Char, code}
use hermes_ops.Prelude.{
  ℕ, ◌⊎◌, onto_first, push_first, subst, ◌≡◌, refl, sym, ap, ◌∙◌, inl, inr, String, Bool, true,
  false, not, ◌&&◌, ◌||◌, Option, none, some, List, [], ◌∷◌, ◌==◌, nat_eq, all, length, every,
  contains, alnum, split, split_once, repeats, arith, Bool-cases, &&-both, if◌then◌else◌,
}
use hermes_ops.Result.{Result, ok, err}
use hermes_ops.Queue.{Trouble, honcho_error}
use hermes_ops.Queue.Names.{
  starts_then, name_char, forbidden, is_container, validate_container_name, is_address, is_host,
  is_user, is_destination, validate_ssh_host,
}

-- The text begins with this character, by its code.
unfoldable pub begins : ℕ → String → Bool
begins k String.[] = false
begins k (String.◌∷◌ c s) = nat_eq (code c) k

ok-same : {E A : Type 0} {a b : A} → ◌≡◌ {A = Result E A} (ok a) (ok b) → a ≡ b
ok-same e = cc

-- A text whose first character lies in a class without the hyphen.
starts_then-begins :
    (first rest : ℕ → Bool) (s : String)
    → ((c : ℕ) → first c ≡ true → nat_eq c 45 ≡ false)
    → starts_then first rest s ≡ true
    → begins 45 s ≡ false
unfolding starts_then begins
starts_then-begins first rest String.[] k e = refl
starts_then-begins first rest (String.◌∷◌ c s) k e = k (code c) (&&-both (first (code c)) _ e).0

alnum-hyphen : (c : ℕ) → alnum c ≡ true → nat_eq c 45 ≡ false
alnum-hyphen c e = ground arith

word-hyphen : (c : ℕ) → (alnum c || nat_eq c 95) ≡ true → nat_eq c 45 ≡ false
word-hyphen c e = ground arith

module _ (x : String) where
  -- What a test that must hold lets through.
  passed-ok :
      (b : Bool) {y : String}
      → ◌≡◌ {A = Result Trouble String} (if b then ok x else err honcho_error) (ok y)
      → (b ≡ true) × (x ≡ y)
  passed-ok true e = (refl, ok-same e)
  passed-ok false e = cc

  refused-ok :
      (b : Bool) (r : Result Trouble String) {y : String}
      → ◌≡◌ {A = Result Trouble String} (if b then err honcho_error else r) (ok y)
      → (b ≡ false) × (r ≡ ok y)
  refused-ok true r e = cc
  refused-ok false r e = (refl, e)

-- A container whose name is accepted is named by that name, and the name does not begin with a hyphen.
pub validate_container_name-begins :
    (name accepted : String)
    → validate_container_name name ≡ ok accepted
    → (accepted ≡ name) × (begins 45 accepted ≡ false)
unfolding validate_container_name is_container
validate_container_name-begins name accepted e =
    let (fine, same) = passed-ok name (is_container name) e in
    (
      sym same,
      ap (begins 45) (sym same) ∙ starts_then-begins alnum name_char name alnum-hyphen fine,
    )

false-true : ◌≡◌ {A = Bool} false true → ⊥
false-true e = cc

nat_eq-eq : (a b : ℕ) → nat_eq a b ≡ true → a ≡ b
nat_eq-eq a b e = ground arith

not-begins : (s : String) → (begins 45 s ≡ true → ⊥) → begins 45 s ≡ false
not-begins s k = elim (Bool-cases (begins 45 s)) [ inl e ↦ absurd (k e) | inr e ↦ e ]

||-either : (a b : Bool) → (a || b) ≡ true → (a ≡ true) ⊎ (b ≡ true)
||-either true b e = inl refl
||-either false b e = inr e

some-user :
    {a b : String × String} → ◌≡◌ {A = Option (String × String)} (some a) (some b) → a.0 ≡ b.0
some-user e = cc

not-not : (b : Bool) → not b ≡ false → b ≡ true
not-not true e = refl
not-not false e = cc

||-neither : (a b : Bool) → (a || b) ≡ false → b ≡ false
||-neither true b e = cc
||-neither false b e = e

module _ (word decimal : ℕ → Bool) (no_hyphen : decimal 45 ≡ false) where
  -- The first part of an address begins as the address does.
  part-hyphen :
      (c : Char) (parts : List String)
      → code c ≡ 45
      → all (repeats decimal 1 3) (onto_first c parts) ≡ true
      → ⊥
  unfolding repeats every
  part-hyphen c [] e h = false-true (rw (e, no_hyphen) at h)
  part-hyphen c (w ∷ ws) e h = false-true (rw (e, no_hyphen) at h)

  address-hyphen : (s : String) → is_address word decimal s ≡ true → begins 45 s ≡ true → ⊥
  unfolding is_address begins split
  address-hyphen String.[] e h = false-true h
  address-hyphen (String.◌∷◌ c s) e h =
      let at = nat_eq-eq (code c) 45 h in
      part-hyphen c (split "." s) at
        (&&-both (nat_eq (length (onto_first c (split "." s))) 4)
          (all (repeats decimal 1 3) (onto_first c (split "." s))) (rw at at e)).1

  is_host-begins : (s : String) → is_host word decimal s ≡ true → begins 45 s ≡ false
  unfolding is_host
  is_host-begins s e =
      elim (||-either (starts_then alnum name_char s) (is_address word decimal s) e) [
        | inl name ↦ starts_then-begins alnum name_char s alnum-hyphen name
        | inr address ↦ not-begins s (address-hyphen s address)
      ]

  user-hyphen :
      (c : Char) (parts : Option (String × String)) (user host : String)
      → code c ≡ 45
      → push_first c parts ≡ some (user, host)
      → begins 45 user ≡ true
  unfolding begins
  user-hyphen c none user host e h = cc
  user-hyphen c (some (u, v)) user host e h =
      subst (λ t. begins 45 t ≡ true) (some-user h) (rw e refl)

  split-hyphen :
      (s user host : String)
      → split_once "@" s ≡ some (user, host)
      → begins 45 s ≡ true
      → begins 45 user ≡ true
  unfolding begins split_once
  split-hyphen String.[] user host e h = absurd (false-true h)
  split-hyphen (String.◌∷◌ c s) user host e h =
      let at = nat_eq-eq (code c) 45 h in user-hyphen c (split_once "@" s) user host at (rw at at e)

  parts-begins :
      (s : String) (parts : Option (String × String))
      → split_once "@" s ≡ parts
      → (elim parts [
        | none ↦ is_host word decimal s
        | some (user, host) ↦ is_user word decimal user && is_host word decimal host
      ])
        ≡ true
      → begins 45 s ≡ false
  unfolding is_user
  parts-begins s none e h = is_host-begins s h
  parts-begins s (some (user, host)) e h = not-begins s λ bad.
      let fine = (&&-both (is_user word decimal user) (is_host word decimal host) h).0 in
      false-true (
        sym (
          starts_then-begins (λ c. alnum c || nat_eq c 95)
            (λ c. word c || nat_eq c 46 || nat_eq c 45) user word-hyphen fine)
        ∙ split-hyphen s user host e bad)

  is_destination-begins : (s : String) → is_destination word decimal s ≡ true → begins 45 s ≡ false
  unfolding is_destination
  is_destination-begins s e = parts-begins s (split_once "@" s) refl e

  -- A host that is accepted is passed on as it is. It does not begin with a hyphen, so ssh does not take
  -- it for an option, and it has no bar, no line feed and no null character. The class of decimal
  -- digits has no hyphen.
  pub validate_ssh_host-begins :
      (host accepted : String)
      → validate_ssh_host word decimal host ≡ ok accepted
      → (accepted ≡ host)
        × (begins 45 accepted ≡ false)
        × (contains (forbidden word decimal) accepted ≡ false)
  unfolding validate_ssh_host
  validate_ssh_host-begins host accepted e =
      let (clean, e1) =
        refused-ok host (host == "" || contains (forbidden word decimal) host) _ e in
      let (shaped, e2) = refused-ok host (not (is_destination word decimal host)) _ e1 in
      let same = ok-same e2 in
      (
        sym same,
        subst (λ t. begins 45 t ≡ false) same (is_destination-begins host (not-not _ shaped)),
        subst (λ t. contains (forbidden word decimal) t ≡ false) same
            (||-neither (host == "") (contains (forbidden word decimal) host) clean),
      )
