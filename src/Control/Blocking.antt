-- ===== src/Control/Blocking.antt =====
-- scripts/deploy/hermes_deployment_controller.py: an active lease blocks deployments and soaks.
use hermes_ops.Prelude.{
  ℕ, ◌+◌, String, ◌≡◌, refl, ap, ◌∙◌, Bool, true, false, List, [], ◌∷◌, ◌++◌, update,
}
use hermes_ops.Result.{ok, err}
use hermes_ops.Exec.{◌>>=◌}
use hermes_ops.Control.State.{audit, lease_conflict, Event, Plane, Host, utc_text, unlock}
use hermes_ops.Control.Leases.{Lease}
use hermes_ops.Control.Requests.{ApplyArgs, SoakArgs, check_apply, check_acquire}
use hermes_ops.Control.Ops.{
  apply, apply_locked, acquire_soak, acquire_locked, blocked_fields, ttl_of,
}
use hermes_ops.Control.LeaseFile.{IsActive, expire_or_read-IsActive}
use hermes_ops.Control.Locking.{IsGranted, with_lock-IsGranted}

module _ (h : Host) (l : Lease) where
  abbrev pub blocked_event : Plane → ApplyArgs → Event
  blocked_event s a = record {
    timestamp = utc_text h (h.clock (s.reads + 1));
    event = "deployment-blocked";
    fields = blocked_fields a l;
  }

  -- The lock does not show in the lease file.
  IsActive-locked :
      {env : String} {s : Plane} (locked : String → Bool)
      → IsActive h env l s
      → IsActive h env l (record s { locked = locked })
  IsActive-locked locked a = record {
    value = a.value;
    valid = a.valid;
    on_disk = a.on_disk;
    checked = a.checked;
    expires = a.expires;
    parsed = a.parsed;
    early = a.early;
  }

  apply_locked-IsActive :
      (a : ApplyArgs) (artifacts : List (String × String)) (root : String) (s : Plane)
      → IsActive h a.environment l s
      → apply_locked h a artifacts root s ≡ (
        err (lease_conflict "active lease blocks the deployment"),
        record s { reads = s.reads + 1 + 1; audit = s.audit ++ blocked_event s a ∷ [] },
      )
  unfolding apply_locked audit
  apply_locked-IsActive a artifacts root s active =
      rw (expire_or_read-IsActive h a.environment l s active) refl

  acquire_locked-IsActive :
      (a : SoakArgs) (ttl : ℕ) (s : Plane)
      → IsActive h a.environment l s
      → acquire_locked h a ttl s
        ≡ (err (lease_conflict "active lease already exists"), record s { reads = s.reads + 1 })
  unfolding acquire_locked ◌>>=◌
  acquire_locked-IsActive a ttl s active =
      rw (expire_or_read-IsActive h a.environment l s active) refl

-- The lock was taken and released.
abbrev pub relocked : String → Plane → Plane
relocked env s = record s { locked = update (update s.locked env true) env false }

module _ (h : Host) (l : Lease) (s : Plane) where
  -- Where the checks of the request pass and the lock is granted, a deployment for an environment
  -- whose lease has not expired is refused with a lease conflict.
  -- No command is started and no lease file changes; the audit log gains one line, which names the
  -- request and the blocking lease, and the lock is released.
  pub apply-IsActive :
      (a : ApplyArgs) {checked : List (String × String) × String}
      → check_apply h a ≡ ok checked
      → IsGranted h a.environment
      → IsActive h a.environment l s
      → apply h a s ≡ (
        err (lease_conflict "active lease blocks the deployment"),
        record (relocked a.environment s) {
          reads = s.reads + 1 + 1;
          audit = s.audit ++ blocked_event h l s a ∷ [];
        },
      )
  unfolding apply ◌>>=◌
  apply-IsActive a {checked = checked} passed granted active = rw passed (
      with_lock-IsGranted h a.environment (apply_locked h a checked.0 checked.1) s active.valid
        granted
      ∙ ap (unlock a.environment)
          (apply_locked-IsActive h l a checked.0 checked.1 _ (IsActive-locked h l _ active)))

  -- A well-formed request for a soak lease that gets the lock is refused while another lease is
  -- active: nothing is written, and the lock is released.
  pub acquire_soak-IsActive :
      (a : SoakArgs)
      → check_acquire a ≡ ok tt
      → IsGranted h a.environment
      → IsActive h a.environment l s
      → acquire_soak h a s ≡ (
        err (lease_conflict "active lease already exists"),
        record (relocked a.environment s) { reads = s.reads + 1 },
      )
  unfolding acquire_soak ◌>>=◌
  acquire_soak-IsActive a passed granted active = rw passed (
      with_lock-IsGranted h a.environment (acquire_locked h a (ttl_of h a.ttl_seconds)) s
        active.valid granted
      ∙ ap (unlock a.environment)
          (acquire_locked-IsActive h l a (ttl_of h a.ttl_seconds) _ (IsActive-locked h l _ active)))
