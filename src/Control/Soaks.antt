-- ===== src/Control/Soaks.antt =====
-- scripts/deploy/hermes_deployment_controller.py: soak leases, from their acquisition to their release.
use hermes_ops.Prelude.{
  ℕ, ◌+◌, ◌*◌, ◌/◌, ◌<◌, String, ◌≡◌, refl, sym, ◌∙◌, ap, subst, ◌↔◌, Bool, true, ◌&&◌, none, some,
  List, arith, eq_refl, update, if◌then◌else◌,
}
use hermes_ops.Result.{ok, err}
use hermes_ops.Exec.{◌>>=◌}
use hermes_ops.Json.{str, obj, is_str}
use hermes_ops.Control.State.{
  lease_conflict, readable, aware, Plane, Host, now, audit, validate_environment, unlock,
}
use hermes_ops.Control.Leases.{
  Lease, lease_fields, check_file, parse_utc, read_lease, unlink, write_lease, expire_or_read,
}
use hermes_ops.Control.Requests.{ApplyArgs, SoakArgs, check_apply, check_acquire, check_release}
use hermes_ops.Control.Ops.{
  soak_lease, acquire_soak, acquire_locked, release_soak, release_locked, ttl_of, apply,
}
use hermes_ops.Control.LeaseFile.{IsActive, check_lease-lease_fields}
use hermes_ops.Control.Locking.{IsGranted, with_lock-IsGranted}
use hermes_ops.Control.Blocking.{apply-IsActive}

-- `fromisoformat` reads back what `isoformat` prints of a UTC time without microseconds.
abbrev pub ReadsBack : Host → Type 0
ReadsBack h = (seconds : ℕ) → h.parse (h.render seconds) ≡ aware (seconds * 1000000)

-- The time at which a soak lease that was acquired at `t` expires: its fraction of a second is lost.
abbrev pub soak_end : ℕ → ℕ → ℕ
soak_end ttl t = (t + ttl * 1000000) / 1000000 * 1000000

module _ (h : Host) (a : SoakArgs) (ttl : ℕ) where
  parse_utc-soak_lease :
      (t : ℕ) → ReadsBack h → parse_utc h (soak_lease h a ttl t).expires_at ≡ ok (soak_end ttl t)
  unfolding parse_utc soak_lease
  parse_utc-soak_lease t back = rw (back ((t + ttl * 1000000) / 1000000))

  -- The lease file holds the soak lease that was acquired at `t`.
  abbrev pub IsHeld : ℕ → Plane → Type 0
  IsHeld t s =
      s.lease_at a.environment ≡ some (readable (obj (lease_fields (soak_lease h a ttl t))))

  soak_lease-environment : (t : ℕ) → (soak_lease h a ttl t).environment ≡ str a.environment
  unfolding soak_lease
  soak_lease-environment t = refl

  pub IsHeld-IsActive :
      (t : ℕ) (s : Plane)
      → ReadsBack h
      → validate_environment a.environment ≡ ok tt
      → IsHeld t s
      → h.clock s.reads < soak_end ttl t
      → IsActive h a.environment (soak_lease h a ttl t) s
  IsHeld-IsActive t s back valid held early = record {
    value = obj (lease_fields (soak_lease h a ttl t));
    valid = valid;
    on_disk = held;
    checked = check_lease-lease_fields a.environment _ (soak_lease-environment t);
    expires = soak_end ttl t;
    parsed = parse_utc-soak_lease t back;
    early = early;
  }

check_acquire-valid :
    (a : SoakArgs) → check_acquire a ≡ ok tt → validate_environment a.environment ≡ ok tt
unfolding check_acquire
check_acquire-valid a e = ground arith

-- Whoever may acquire a soak lease may ask for its release.
check_acquire-check_release :
    (a : SoakArgs)
    → check_acquire a ≡ ok tt
    → check_release a.environment a.lease_id a.owner a.authorization ≡ ok tt
unfolding check_acquire check_release
check_acquire-check_release a e = ground arith

module _ (h : Host) (a : SoakArgs) (s : Plane) where
  -- The state under the lock, once no lease is active.
  abbrev pub emptied : Plane
  emptied =
      (expire_or_read h a.environment (record s { locked = update s.locked a.environment true })).1

  abbrev pub acquired_at : ℕ
  acquired_at = h.clock emptied.reads

  -- Where the request is well formed, the lock is free and no lease is active, `acquire_soak` returns
  -- the lease that it leaves on disk.
  pub acquire_soak-idle :
      check_acquire a ≡ ok tt
      → IsGranted h a.environment
      → (expire_or_read h a.environment
          (record s { locked = update s.locked a.environment true })).0
        ≡ ok none
      → ((acquire_soak h a s).0 ≡ ok (soak_lease h a (ttl_of h a.ttl_seconds) acquired_at))
        × IsHeld h a (ttl_of h a.ttl_seconds) acquired_at (acquire_soak h a s).1
  unfolding acquire_soak ◌>>=◌
  acquire_soak-idle passed granted idle =
      let e : acquire_soak h a s
          ≡ unlock a.environment (
              acquire_locked h a (ttl_of h a.ttl_seconds)
                (record s { locked = update s.locked a.environment true })) =
        rw passed (
          with_lock-IsGranted h a.environment (acquire_locked h a (ttl_of h a.ttl_seconds)) s
            (check_acquire-valid a passed) granted) in
      rw e
        (unfold acquire_locked now write_lease audit in rw idle (refl, rw (eq_refl a.environment)))

-- A soak lease protects its environment: from the acquisition on, while nobody touches the lease
-- file, every deployment whose clock reads a time before acquisition plus TTL (rounded down to a
-- second) is refused: it starts no command and changes no lease file. The acquisition got the lock
-- and found no active lease, the deployment passes its checks, and times read back as written.
pub acquire_soak-apply :
    (h : Host) (a : SoakArgs) (s u : Plane) (d : ApplyArgs) {c : List (String × String) × String}
    → ReadsBack h
    → check_acquire a ≡ ok tt
    → IsGranted h a.environment
    → (expire_or_read h a.environment (record s { locked = update s.locked a.environment true })).0
      ≡ ok none
    → u.lease_at a.environment ≡ (acquire_soak h a s).1.lease_at a.environment
    → d.environment ≡ a.environment
    → check_apply h d ≡ ok c
    → h.clock u.reads < soak_end (ttl_of h a.ttl_seconds) (acquired_at h a s)
    → ((apply h d u).0 ≡ err (lease_conflict "active lease blocks the deployment"))
      × ((apply h d u).1.runs ≡ u.runs)
      × ((apply h d u).1.lease_at ≡ u.lease_at)
acquire_soak-apply h a s u d back passed granted idle kept same checked early =
    let ttl = ttl_of h a.ttl_seconds in
    let l = soak_lease h a ttl (acquired_at h a s) in
    let active : IsActive h a.environment l u =
      IsHeld-IsActive h a ttl (acquired_at h a s) u back (check_acquire-valid a passed)
        (kept ∙ (acquire_soak-idle h a s passed granted idle).1) early in
    let e =
      apply-IsActive h l u d checked (subst (IsGranted h) (sym same) granted)
        (subst (λ env. IsActive h env l u) (sym same) active) in
    (ap (λ r. r.0) e, ap (λ r. r.1.runs) e, ap (λ r. r.1.lease_at) e)

-- The identity that a release names is the lease's.
abbrev pub matches : String → String → String → Lease → Bool
matches lease_id owner authorization l =
    is_str "soak" l.kind
    && is_str lease_id l.lease_id
    && is_str owner l.owner
    && is_str authorization l.authorization

module _ (h : Host) (env lease_id owner authorization : String) (s : Plane) (l : Lease) where
  -- A well-formed release request that gets the lock and reads a lease succeeds exactly if this is a
  -- soak lease with the same identifier, owner and authorization. It then removes the lease file;
  -- otherwise no lease file changes.
  pub release_soak-exact :
      check_release env lease_id owner authorization ≡ ok tt
      → validate_environment env ≡ ok tt
      → IsGranted h env
      → check_file env (s.lease_at env) ≡ ok (some l)
      → (((release_soak h env lease_id owner authorization s).0 ≡ ok tt)
          ↔ (matches lease_id owner authorization l ≡ true))
        × ((release_soak h env lease_id owner authorization s).1.lease_at ≡ (
            if matches lease_id owner authorization l
            then update s.lease_at env none
            else s.lease_at))
  unfolding release_soak ◌>>=◌
  release_soak-exact passed valid granted found =
      rw
        (
          passed,
          with_lock-IsGranted h env (release_locked h env lease_id owner authorization) s valid
              granted,
        )
        (unfold release_locked read_lease unlink audit in rw (valid, found) (ground arith))
