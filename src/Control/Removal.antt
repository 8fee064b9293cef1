-- ===== src/Control/Removal.antt =====
-- scripts/deploy/hermes_deployment_controller.py: the removal of a deployment's own lease, in the
-- `finally` of `apply`.
use hermes_ops.Prelude.{
  String, ◌≡◌, refl, sym, subst, not, ◌||◌, ◌∙◌, ap, inl, inr, Bool-cases, false, Option, none,
  some, eq_refl,
}
use hermes_ops.Prelude.Int.{pos}
use hermes_ops.Result.{Result, ok, err, Result-cases}
use hermes_ops.Exec.{pure, raise}
use hermes_ops.Json.{Json, null, bool, int, float, str, arr, obj, is_str, is_int, get_or, same_keys}
use hermes_ops.Control.State.{
  Failure, validation, value_error, File, readable, unreadable, undecodable, Plane,
  validate_environment,
}
use hermes_ops.Control.Leases.{Lease, required, check_lease, check_file, read_lease, unlink}
use hermes_ops.Control.Ops.{drop_found, drop_own_lease}

-- What is read as the lease of the environment is not the deployment's, and it is readable.
abbrev IsReleased : String → Result Failure (Option Lease) → Type 0
IsReleased lease_id (ok none) = Unit {0}
IsReleased lease_id (ok (some l)) = is_str lease_id l.lease_id ≡ false
IsReleased lease_id (err e) = ⊥

-- What a removal leaves of a lease file: one on which the decoding raises stays as it is.
abbrev pub Leaves : String → String → Option File → Option File → Type 0
Leaves env lease_id (some undecodable) after = after ≡ some undecodable
Leaves env lease_id _ after = IsReleased lease_id (check_file env after)

-- The removal's own result, by the lease file that it finds.
abbrev pub dropping : Option File → Result Failure (Unit {0})
dropping (some undecodable) = err value_error
dropping _ = ok tt

err-same : {A : Type 0} {e x : Failure} → ◌≡◌ {A = Result Failure A} (err e) (err x) → e ≡ x
err-same h = cc

ok-err : {A : Type 0} {a : A} {e : Failure} → ◌≡◌ {A = Result Failure A} (ok a) (err e) → ⊥
ok-err h = cc

module _ (env : String) (value : Json) where
  check_file-ok :
      (l : Lease)
      → check_lease env value ≡ ok l
      → check_file env (some (readable value)) ≡ ok (some l)
  unfolding check_file
  check_file-ok l e = rw (e, check_file)

  check_file-err :
      (x : Failure) → check_lease env value ≡ err x → check_file env (some (readable value)) ≡ err x
  unfolding check_file
  check_file-err x e = rw (e, check_file)

-- The check of a decoded lease raises nothing but `ValidationError`.
check_lease-err :
    (env : String) (value : Json) (e : Failure)
    → check_lease env value ≡ err e
    → (message : String) × (e ≡ validation message)
unfolding check_lease
check_lease-err env (obj d) e h =
    elim (Bool-cases
      (not (same_keys required d) || not (is_int (pos 1) (get_or "version" null d)))) [
        | inl bad ↦ (_, sym (err-same (rw bad at h)))
        | inr good ↦ elim (Bool-cases (not (is_str env (get_or "environment" null d)))) [
          | inl other ↦ (_, sym (err-same (rw (good, other) at h)))
          | inr same ↦ absurd (ok-err (rw (good, same) at h))
        ]
      ]
check_lease-err env null e h = (_, sym (err-same h))
check_lease-err env (bool b) e h = (_, sym (err-same h))
check_lease-err env (int i) e h = (_, sym (err-same h))
check_lease-err env (float i) e h = (_, sym (err-same h))
check_lease-err env (str t) e h = (_, sym (err-same h))
check_lease-err env (arr l) e h = (_, sym (err-same h))

module _ (env lease_id : String) (s : Plane) where
  -- The removal from what `_read_lease` gave on.
  abbrev after_drop : Result Failure (Option Lease) → Result Failure (Unit {0}) × Plane
  after_drop r = drop_found env lease_id r s

  -- It ends normally, and the file is not the deployment's own.
  abbrev Released : Result Failure (Option Lease) → Type 0
  Released r =
      ((after_drop r).0 ≡ ok tt)
      × IsReleased lease_id (check_file env ((after_drop r).1.lease_at env))

  unlinked : (message : String) → Released (err (validation message))
  unfolding drop_found unlink check_file
  unlinked message = (refl, rw (eq_refl env) tt)

  drop_found-Released :
      (found : Option Lease) → check_file env (s.lease_at env) ≡ ok found → Released (ok found)
  unfolding drop_found unlink check_file pure
  drop_found-Released none read = (refl, rw read tt)
  drop_found-Released (some l) read = elim (Bool-cases (is_str lease_id l.lease_id)) [
    | inl own ↦ rw own (refl, rw (eq_refl env) tt)
    | inr foreign ↦ rw foreign (refl, rw read foreign)
  ]

  checked-Released :
      (value : Json)
      → s.lease_at env ≡ some (readable value)
      → Released (check_file env (some (readable value)))
  checked-Released value at = elim (Result-cases (check_lease env value)) [
    | inl (l, passed) ↦
        let read = check_file-ok env value l passed in
        subst Released (sym read) (drop_found-Released (some l) (ap (check_file env) at ∙ read))
    | inr (e, refused) ↦
        let (message, same) = check_lease-err env value e refused in
        let read = check_file-err env value e refused ∙ ap err same in
        subst Released (sym read) (unlinked message)
  ]

  read_lease-checked :
      validate_environment env ≡ ok tt → (read_lease env s).0 ≡ check_file env (s.lease_at env)
  unfolding read_lease
  read_lease-checked valid = rw valid refl

  -- Whatever the lease file holds, the deployment's own lease is gone afterwards, and so is a file that
  -- is refused; only an undecodable file stays, and raises.
  unfoldable pub Dropped : Option File → Type 0
  Dropped file =
      ((drop_own_lease env lease_id s).0 ≡ dropping file)
      × Leaves env lease_id file ((drop_own_lease env lease_id s).1.lease_at env)

  pub drop_own_lease-Dropped :
      validate_environment env ≡ ok tt → (file : Option File) → s.lease_at env ≡ file → Dropped file
  unfolding drop_own_lease Dropped drop_found check_file raise
  drop_own_lease-Dropped valid none at =
      rw (read_lease-checked valid, at) (drop_found-Released none (rw at refl))
  drop_own_lease-Dropped valid (some unreadable) at =
      rw (read_lease-checked valid, at) (unlinked "invalid JSON state")
  drop_own_lease-Dropped valid (some undecodable) at = rw (read_lease-checked valid, at) (refl, at)
  drop_own_lease-Dropped valid (some (readable value)) at =
      rw (read_lease-checked valid, at) (checked-Released value at)
