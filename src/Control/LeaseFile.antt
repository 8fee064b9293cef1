-- ===== src/Control/LeaseFile.antt =====
-- scripts/deploy/hermes_deployment_controller.py: what is written as a lease is read back, and what
-- `_expire_or_read` does with a lease file.
use hermes_ops.Prelude.{ℕ, ◌+◌, ◌<◌, String, ◌≡◌, some, arith, eq_refl}
use hermes_ops.Result.{ok}
use hermes_ops.Json.{Json, str, obj, get, same_keys}
use hermes_ops.Control.State.{now, readable, Plane, Host, validate_environment}
use hermes_ops.Control.Leases.{
  check_file, expire_lease, read_lease, Lease, lease_fields, check_lease, parse_utc, expire_or_read,
}

-- The lease file that is written for an environment is accepted, and read back unchanged.
pub check_lease-lease_fields :
    (env : String) (l : Lease)
    → l.environment ≡ str env
    → check_lease env (obj (lease_fields l)) ≡ ok l
unfolding check_lease lease_fields same_keys get
check_lease-lease_fields env l e = rw (e, eq_refl)

pub check_file-lease_fields :
    (env : String) (l : Lease)
    → l.environment ≡ str env
    → check_file env (some (readable (obj (lease_fields l)))) ≡ ok (some l)
unfolding check_file
check_file-lease_fields env l e = rw (check_lease-lease_fields env l e, check_file)

pub read_lease-same : (env : String) (s : Plane) → (read_lease env s).1 ≡ s
unfolding read_lease
read_lease-same env s = ground arith

-- The environment holds a lease that has not expired at the next reading of the clock.
pub record IsActive (h : Host) (env : String) (l : Lease) (s : Plane) : Type 0 where
  pub value : Json
  pub valid : validate_environment env ≡ ok tt
  pub on_disk : s.lease_at env ≡ some (readable value)
  pub checked : check_lease env value ≡ ok l
  pub expires : ℕ
  pub parsed : parse_utc h l.expires_at ≡ ok expires
  pub early : h.clock s.reads < expires

-- An active lease is returned, and only the clock is read.
pub expire_or_read-IsActive :
    (h : Host) (env : String) (l : Lease) (s : Plane)
    → IsActive h env l s
    → expire_or_read h env s ≡ (ok (some l), record s { reads = s.reads + 1 })
unfolding expire_or_read expire_lease read_lease now
expire_or_read-IsActive h env l s a = ground arith
