-- ===== src/Staging/Crashes/Readings.antt =====
-- scripts/staging/hermes_staging_socket_diagnostic.py: what reading a configuration file or
-- nothing shows.
use hermes_ops.Prelude.{
  arith, ℕ, nat_eq, eq_refl, ◌≡◌, refl, sym, ap, Bool, true, false, Option, none, some,
  if◌then◌else◌,
}
use hermes_ops.Result.{Result, ok, err}
use hermes_ops.Staging.Snapshots.{
  Node, Snapshot, World, absent, same_snapshot, read_named, same_bool,
}
use hermes_ops.Staging.Config.{Dir}

pub ok-same : {E A : Type 0} {a b : A} → ◌≡◌ {A = Result E A} (ok a) (ok b) → a ≡ b
ok-same e = cc

guarded-ok :
    {E A : Type 0} (x : E) {a b : A} (c : Bool)
    → ◌≡◌ {A = Result E A} (if c then err x else ok a) (ok b)
    → a ≡ b
guarded-ok x true e = cc
guarded-ok x false e = ok-same e

pub err-ok : {E A : Type 0} {x : E} {a : A} → ◌≡◌ {A = Result E A} (err x) (ok a) → ⊥
err-ok e = cc

pub true-false : ◌≡◌ {A = Bool} true false → ⊥
true-false e = cc

same_bool_refl : (b : Bool) → same_bool b b ≡ true
same_bool_refl true = refl
same_bool_refl false = refl

pub nat_eq_refl : (n : ℕ) → nat_eq n n ≡ true
nat_eq_refl n = ground arith

pub same_snapshot_refl : (v : Snapshot) → same_snapshot v v ≡ true
unfolding same_snapshot
same_snapshot_refl v =
    rw
      (
        same_bool_refl v.existed,
        eq_refl v.sha256,
        nat_eq_refl v.mode,
        nat_eq_refl v.uid,
        nat_eq_refl v.gid,
      )
      refl

abbrev pub beside : Option Node → Option Node → Option Node → Dir
beside o g q = record { current = o; guard = g; quarantine = q }

module _ (w : World) where
  pub read-absent : (v : Snapshot) → read_named w true none ≡ ok v → v.existed ≡ false
  unfolding read_named
  read-absent v e = sym (ap (λ s. s.existed) (ok-same e))

  pub read-there : (n : Node) (v : Snapshot) → read_named w true (some n) ≡ ok v → v.existed ≡ true
  unfolding read_named
  read-there n v e = sym (ap (λ s. s.existed) (guarded-ok _ _ e))

  pub read-strict :
      (n : Node) (v : Snapshot)
      → read_named w true (some n) ≡ ok v
      → read_named w false (some n) ≡ ok v
  unfolding read_named
  read-strict n v e = e

  pub read-nothing : read_named w true none ≡ ok (absent w)
  unfolding read_named
  read-nothing = refl
