-- ===== src/Control/Cleanup.antt =====
-- scripts/deploy/hermes_deployment_controller.py: the life of a deployment's own lease.
use hermes_ops.Prelude.{
  ◌+◌, String, ◌≡◌, refl, ◌∙◌, ap, true, false, Option, none, some, List, [], ◌∷◌, ◌++◌, arith,
  eq_refl, update,
}
use hermes_ops.Prelude.Int.{ℤ, pos}
use hermes_ops.Result.{Result, ok, err}
use hermes_ops.Exec.{pure, raise, lift, resume, ◌>>=◌}
use hermes_ops.Json.{obj}
use hermes_ops.Control.State.{
  Failure, readable, Action, runner_timeout, os_error, Event, Outcome, exited, timed_out, failed,
  Plane, Host, utc_text, now, fresh_id, audit, start, validate_environment, unlock,
}
use hermes_ops.Control.Leases.{Lease, lease_fields, write_lease, expire_or_read}
use hermes_ops.Control.Requests.{ApplyArgs, check_apply, validate_apply}
use hermes_ops.Control.Ops.{
  deploy_timeout_seconds, deployment_lease, deployment_id, deploy_argv, drop_own_lease,
  release_deployment, settle, deploy, apply_locked, apply, released_fields, timeout_fields,
}
use hermes_ops.Control.Locking.{IsGranted, with_lock-IsGranted}
use hermes_ops.Control.Removal.{Leaves, dropping, Dropped, drop_own_lease-Dropped}

-- What `apply` returns or raises for an outcome, and what it logs as `result`.
abbrev pub result_of : Outcome → Result Failure ℤ
result_of (exited code) = ok code
result_of timed_out = err runner_timeout
result_of failed = err os_error

abbrev pub logged_result : Outcome → Option ℤ
logged_result (exited code) = some code
logged_result timed_out = some (pos 124)
logged_result failed = none

-- An exception of the `finally` takes the place of the result.
abbrev pub overridden :
    {A : Type 0} → Result Failure (Unit {0}) → Result Failure A → Result Failure A
overridden (ok u) r = r
overridden (err e) r = err e

resumed :
    {A : Type 0} (f : Unit {0} → Action A) (r : Result Failure (Unit {0})) (t : Plane)
    {result : Result Failure A}
    → ((t : Plane) → f tt t ≡ (result, t))
    → resume f r t ≡ (overridden r result, t)
resumed f (ok u) t e = e t
resumed f (err x) t e = refl

module _ (h : Host) (a : ApplyArgs) (lease_id : String) where
  abbrev pub released_event : Option ℤ → Plane → Event
  released_event result s = record {
    timestamp = utc_text h (h.clock s.reads);
    event = "deployment-released";
    fields = released_fields a lease_id result;
  }

  -- The `finally` of `apply`: the lease is dropped, then the release is logged, and what the removal
  -- raised is raised.
  release_deployment_lem :
      (result : Option ℤ) (s : Plane)
      → release_deployment h a lease_id result s ≡ (
          let t = (drop_own_lease a.environment lease_id s).1 in
          (
            (drop_own_lease a.environment lease_id s).0,
            record t { audit = t.audit ++ released_event result t ∷ []; reads = t.reads + 1 },
          ))
  unfolding release_deployment audit lift ◌>>=◌
  release_deployment_lem result s = refl

  abbrev timed_out_event : Plane → Event
  timed_out_event s = record {
    timestamp = utc_text h (h.clock s.reads);
    event = "deployment-timed-out";
    fields = timeout_fields a lease_id;
  }

  -- The state in which the `finally` begins: a timeout was logged before.
  abbrev pub before_finally : Outcome → Plane → Plane
  before_finally timed_out s = record s {
    audit = s.audit ++ timed_out_event s ∷ [];
    reads = s.reads + 1;
  }
  before_finally _ s = s

  abbrev removal : Outcome → Plane → Result Failure (Unit {0}) × Plane
  removal o s = drop_own_lease a.environment lease_id (before_finally o s)

  abbrev pub dropped : Outcome → Plane → Plane
  dropped o s = (removal o s).1

  pub settle_lem :
      (o : Outcome) (s : Plane)
      → settle h a lease_id o s ≡ (
          let t = dropped o s in
          (
            overridden (removal o s).0 (result_of o),
            record t {
              audit = t.audit ++ released_event (logged_result o) t ∷ [];
              reads = t.reads + 1;
            },
          ))
  unfolding settle audit ◌>>=◌ pure raise
  settle_lem (exited code) s =
      rw (release_deployment_lem (some code) s)
        (resumed (λ u. pure code) (removal (exited code) s).0 _ (λ t. refl))
  settle_lem timed_out s =
      rw (release_deployment_lem (some (pos 124)) (before_finally timed_out s))
        (resumed (λ u. raise runner_timeout) (removal timed_out s).0 _ (λ t. refl))
  settle_lem failed s =
      rw (release_deployment_lem none s)
        (resumed (λ u. raise os_error) (removal failed s).0 _ (λ t. refl))

  before_finally-lease_at : (o : Outcome) (s : Plane) → (before_finally o s).lease_at ≡ s.lease_at
  before_finally-lease_at (exited code) s = refl
  before_finally-lease_at timed_out s = refl
  before_finally-lease_at failed s = refl

  -- What the `finally` does, by the lease file that it finds.
  pub removal-Dropped :
      (o : Outcome) (s : Plane)
      → validate_environment a.environment ≡ ok tt
      → ((removal o s).0 ≡ dropping (s.lease_at a.environment))
        × Leaves a.environment lease_id
            (s.lease_at a.environment)
            ((removal o s).1.lease_at a.environment)
  unfolding Dropped
  removal-Dropped o s valid =
      drop_own_lease-Dropped a.environment lease_id (before_finally o s) valid
        (s.lease_at a.environment) (ap (λ f. f a.environment) (before_finally-lease_at o s))

module _ (h : Host) (a : ApplyArgs) (artifacts : List (String × String)) (root : String)
    (s : Plane) where
  -- The identifier and the lease of this deployment, and the state in which its command begins.
  abbrev pub own_id : String
  own_id = deployment_id (h.uuid s.ids)

  abbrev pub own_lease : Lease
  own_lease = deployment_lease h a own_id (h.clock s.reads)

  abbrev pub begun : Plane
  begun = record s {
    lease_at = update s.lease_at a.environment (some (readable (obj (lease_fields own_lease))));
    audit =
        s.audit
        ++ (record {
          timestamp = utc_text h (h.clock (s.reads + 1));
          event = "deployment-acquired";
          fields = lease_fields own_lease;
        })
          ∷ [];
    reads = s.reads + 1 + 1;
    ids = s.ids + 1;
    runs = s.runs ++ deploy_argv a artifacts root ∷ [];
  }

  abbrev pub ended : Outcome × Plane
  ended = h.runner (deploy_argv a artifacts root) deploy_timeout_seconds begun

  deploy_lem : deploy h a artifacts root s ≡ settle h a own_id ended.0 ended.1
  unfolding deploy now fresh_id write_lease audit start
  deploy_lem = refl

  -- The deployment command runs with the deployment's lease on disk. Whatever the command returns,
  -- the last line of the audit log is the release with the result. If the command leaves a lease file
  -- that is not undecodable, the result is the command's, and the lease on disk is afterwards not the
  -- deployment's own; an undecodable file stays, and its exception takes the place of the result. The
  -- environment has a valid name.
  pub deploy_lifecycle :
      validate_environment a.environment ≡ ok tt
      → (begun.lease_at a.environment ≡ some (readable (obj (lease_fields own_lease))))
        × ((deploy h a artifacts root s).0
            ≡ overridden (dropping (ended.1.lease_at a.environment)) (result_of ended.0))
        × Leaves a.environment own_id
            (ended.1.lease_at a.environment)
            ((deploy h a artifacts root s).1.lease_at a.environment)
        × ((deploy h a artifacts root s).1.audit
            ≡ (dropped h a own_id ended.0 ended.1).audit
              ++ released_event h a own_id
                  (logged_result ended.0)
                  (dropped h a own_id ended.0 ended.1)
                ∷ [])
  deploy_lifecycle valid =
      let (raised, left) = removal-Dropped h a own_id ended.0 ended.1 valid in
      (
        rw (eq_refl a.environment),
        rw (deploy_lem, settle_lem h a own_id ended.0 ended.1)
            (ap (λ r. overridden r (result_of ended.0)) raised),
        rw (deploy_lem, settle_lem h a own_id ended.0 ended.1) left,
        rw (deploy_lem, settle_lem h a own_id ended.0 ended.1) refl,
      )

check_apply-valid :
    (h : Host) (a : ApplyArgs) (c : List (String × String) × String)
    → check_apply h a ≡ ok c
    → validate_environment a.environment ≡ ok tt
unfolding check_apply validate_apply
check_apply-valid h a c e = ground arith

module _ (h : Host) (a : ApplyArgs) (s : Plane) where
  -- The state under the lock, once no lease is active.
  abbrev pub cleared : Plane
  cleared =
      (expire_or_read h a.environment (record s { locked = update s.locked a.environment true })).1

  apply_lem :
      (c : List (String × String) × String)
      → check_apply h a ≡ ok c
      → IsGranted h a.environment
      → (expire_or_read h a.environment
          (record s { locked = update s.locked a.environment true })).0
        ≡ ok none
      → apply h a s ≡ unlock a.environment (deploy h a c.0 c.1 cleared)
  unfolding apply ◌>>=◌
  apply_lem c passed granted idle = rw passed (
      with_lock-IsGranted h a.environment (apply_locked h a c.0 c.1) s
        (check_apply-valid h a c passed) granted
      ∙ ap (unlock a.environment) (unfold apply_locked in rw idle refl))

  -- Where the checks pass, the lock is granted and no lease is active, `apply` runs the deployment
  -- command, and the lock is released. Unless the command leaves an undecodable lease file, it returns or
  -- raises what the command's outcome says, and the lease file is afterwards not the deployment's own;
  -- an undecodable one stays, and its exception is raised.
  pub apply-idle :
      (c : List (String × String) × String)
      → check_apply h a ≡ ok c
      → IsGranted h a.environment
      → (expire_or_read h a.environment
          (record s { locked = update s.locked a.environment true })).0
        ≡ ok none
      → ((apply h a s).0
          ≡ overridden
              (dropping ((ended h a c.0 c.1 cleared).1.lease_at a.environment))
              (result_of (ended h a c.0 c.1 cleared).0))
        × Leaves a.environment
            (own_id h a c.0 c.1 cleared)
            ((ended h a c.0 c.1 cleared).1.lease_at a.environment)
            ((apply h a s).1.lease_at a.environment)
        × ((apply h a s).1.locked a.environment ≡ false)
  apply-idle c passed granted idle =
      let e = apply_lem c passed granted idle in
      let l = deploy_lifecycle h a c.0 c.1 cleared (check_apply-valid h a c passed) in
      (rw e l.1, rw e l.2, rw (e, eq_refl a.environment))
