-- ===== src/Control/Ops.antt =====
-- scripts/deploy/hermes_deployment_controller.py: the operations of `ControlPlane`.
use Prim.Native.String.{◌++◌}
use hermes_ops.Prelude.{
  ℕ, ◌+◌, ◌*◌, String, not, ◌||◌, Option, none, some, List, [], ◌∷◌, if◌then◌else◌,
}
use hermes_ops.Prelude.Int.{ℤ, pos}
use hermes_ops.Result.{Result, ok, err}
use hermes_ops.Exec.{pure, raise, lift, ◌>>=◌, ◌>>◌}
use hermes_ops.Json.{Json, null, int, str, Fields, is_str, dict}
use hermes_ops.Control.State.{
  Failure, validation, lease_conflict, runner_timeout, os_error, Outcome, exited, timed_out, failed,
  Host, Action, now, utc_text, audit, fresh_id, start, with_lock,
}
use hermes_ops.Control.Artifacts.{artifact, parent}
use hermes_ops.Control.Leases.{Lease, lease_fields, read_lease, unlink, write_lease, expire_or_read}
use hermes_ops.Control.Requests.{
  ApplyArgs, SoakArgs, check_apply, check_acquire, check_release, check_clear,
}

abbrev pub deploy_timeout_seconds : ℕ
deploy_timeout_seconds = 3000

-- `f"deployment-{uuid.uuid4().hex}"`
abbrev pub deployment_id : String → String
deployment_id uuid = "deployment-" ++ uuid

-- The lease that `apply` writes.
unfoldable pub deployment_lease : Host → ApplyArgs → String → ℕ → Lease
unfolding utc_text
deployment_lease h a lease_id acquired = record {
  lease_id = str lease_id;
  kind = str "deployment";
  environment = str a.environment;
  owner = str a.controller;
  controller = str a.controller;
  operation = str a.operation;
  source_sha = str a.source_sha;
  image_digest = str a.digest;
  authorization = str a.authorization;
  run_id = str a.run_id;
  run_attempt = str a.run_attempt;
  acquired_at = str (utc_text h acquired);
  expires_at = str (utc_text h (acquired + 55 * 60 * 1000000));
}

-- The lease that `acquire_soak` writes.
unfoldable pub soak_lease : Host → SoakArgs → ℕ → ℕ → Lease
unfolding utc_text
soak_lease h a ttl acquired = record {
  lease_id = str a.lease_id;
  kind = str "soak";
  environment = str a.environment;
  owner = str a.owner;
  controller = str a.owner;
  operation = str "soak";
  source_sha = str a.source_sha;
  image_digest = str a.digest;
  authorization = str a.authorization;
  run_id = null;
  run_attempt = null;
  acquired_at = str (utc_text h acquired);
  expires_at = str (utc_text h (acquired + ttl * 1000000));
}

abbrev pub blocked_fields : ApplyArgs → Lease → Fields
blocked_fields a l = dict (
    ("environment", str a.environment)
    ∷ ("operation", str a.operation)
    ∷ ("source_sha", str a.source_sha)
    ∷ ("image_digest", str a.digest)
    ∷ ("controller", str a.controller)
    ∷ ("authorization", str a.authorization)
    ∷ ("run_id", str a.run_id)
    ∷ ("run_attempt", str a.run_attempt)
    ∷ ("blocking_lease_id", l.lease_id)
    ∷ ("blocking_kind", l.kind)
    ∷ [])

abbrev pub timeout_fields : ApplyArgs → String → Fields
timeout_fields a lease_id = dict (
    ("environment", str a.environment)
    ∷ ("lease_id", str lease_id)
    ∷ ("operation", str a.operation)
    ∷ ("source_sha", str a.source_sha)
    ∷ ("image_digest", str a.digest)
    ∷ ("timeout_seconds", int (pos deploy_timeout_seconds))
    ∷ [])

abbrev pub result_json : Option ℤ → Json
result_json none = null
result_json (some n) = int n

abbrev pub released_fields : ApplyArgs → String → Option ℤ → Fields
released_fields a lease_id result = dict (
    ("environment", str a.environment)
    ∷ ("lease_id", str lease_id)
    ∷ ("operation", str a.operation)
    ∷ ("source_sha", str a.source_sha)
    ∷ ("image_digest", str a.digest)
    ∷ ("result", result_json result)
    ∷ [])

-- The command line of the deployment.
unfoldable pub deploy_argv : ApplyArgs → List (String × String) → String → List String
deploy_argv a artifacts root =
    artifact "deployer" artifacts
    ∷ a.operation
    ∷ a.environment
    ∷ a.image
    ∷ a.digest
    ∷ a.source_sha
    ∷ root
    ∷ parent (artifact "compose" artifacts)
    ∷ []

-- The lease's removal in the `finally` of `apply`: a file that is refused is this deployment's own,
-- and any other exception is passed on.
unfoldable pub drop_found : String → String → Result Failure (Option Lease) → Action (Unit {0})
drop_found env lease_id (err (validation message)) = unlink env
drop_found env lease_id (err e) = raise e
drop_found env lease_id (ok none) = pure tt
drop_found env lease_id (ok (some l)) = if is_str lease_id l.lease_id then unlink env else pure tt

unfoldable pub drop_own_lease : String → String → Action (Unit {0})
unfolding drop_found
drop_own_lease env lease_id s = drop_found env lease_id (read_lease env s).0 s

module _ (h : Host) where
  -- The `finally` of `apply`, with the value that `result` has by then: the release is logged
  -- whether or not the removal raises.
  unfoldable pub release_deployment : ApplyArgs → String → Option ℤ → Action (Unit {0})
  release_deployment a lease_id result s =
      let (r, t) = drop_own_lease a.environment lease_id s in
      (do audit h "deployment-released" (released_fields a lease_id result); lift r) t

  -- The `try` of `apply`, from the command's outcome on.
  unfoldable pub settle : ApplyArgs → String → Outcome → Action ℤ
  settle a lease_id (exited code) = do release_deployment a lease_id (some code); pure code
  settle a lease_id timed_out = do
    audit h "deployment-timed-out" (timeout_fields a lease_id)
    release_deployment a lease_id (some (pos 124))
    raise runner_timeout
  settle a lease_id failed = do release_deployment a lease_id none; raise os_error

  -- The body of `apply` from the acquisition on.
  unfoldable pub deploy : ApplyArgs → List (String × String) → String → Action ℤ
  deploy a artifacts root = do
    acquired ← now h
    uuid ← fresh_id h
    write_lease a.environment (deployment_lease h a (deployment_id uuid) acquired)
    audit h "deployment-acquired"
        (lease_fields (deployment_lease h a (deployment_id uuid) acquired))
    outcome ← start h (deploy_argv a artifacts root) deploy_timeout_seconds
    settle a (deployment_id uuid) outcome

  -- The body of `apply` under the lock.
  unfoldable pub apply_locked : ApplyArgs → List (String × String) → String → Action ℤ
  apply_locked a artifacts root = do
    blocking ← expire_or_read h a.environment
    elim blocking [
      | none ↦ deploy a artifacts root
      | some l ↦ do
        audit h "deployment-blocked" (blocked_fields a l)
        raise (lease_conflict "active lease blocks the deployment")
    ]

  -- `apply`
  unfoldable pub apply : ApplyArgs → Action ℤ
  apply a = do
    checked ← lift (check_apply h a)
    with_lock h a.environment (apply_locked a checked.0 checked.1)

  unfoldable pub acquire_locked : SoakArgs → ℕ → Action Lease
  acquire_locked a ttl = do
    blocking ← expire_or_read h a.environment
    elim blocking [
      | some l ↦ raise (lease_conflict "active lease already exists")
      | none ↦ do
        acquired ← now h
        write_lease a.environment (soak_lease h a ttl acquired)
        audit h "soak-acquired" (lease_fields (soak_lease h a ttl acquired))
        pure (soak_lease h a ttl acquired)
    ]

  abbrev pub ttl_of : ℤ → ℕ
  ttl_of (pos n) = n
  ttl_of _ = 0

  -- `acquire_soak`
  unfoldable pub acquire_soak : SoakArgs → Action Lease
  acquire_soak a = do
    lift (check_acquire a)
    with_lock h a.environment (acquire_locked a (ttl_of a.ttl_seconds))

  abbrev pub soak_released_fields : String → String → String → String → Fields
  soak_released_fields env lease_id owner authorization = dict (
      ("environment", str env)
      ∷ ("lease_id", str lease_id)
      ∷ ("owner", str owner)
      ∷ ("authorization", str authorization)
      ∷ [])

  unfoldable pub release_locked : String → String → String → String → Action (Unit {0})
  release_locked env lease_id owner authorization = do
    found ← read_lease env
    elim found [
      | none ↦ raise (lease_conflict "matching soak lease does not exist")
      | some l ↦
          if not (is_str "soak" l.kind)
          then raise (lease_conflict "matching soak lease does not exist")
          else if not (is_str lease_id l.lease_id)
              || not (is_str owner l.owner)
              || not (is_str authorization l.authorization)
          then raise (lease_conflict "soak lease identity mismatch")
          else do
            unlink env
            audit h "soak-released" (soak_released_fields env lease_id owner authorization)
    ]

  -- `release_soak`
  unfoldable pub release_soak : String → String → String → String → Action (Unit {0})
  release_soak env lease_id owner authorization = do
    lift (check_release env lease_id owner authorization)
    with_lock h env (release_locked env lease_id owner authorization)

  abbrev pub cleared_fields : String → Lease → String → String → Fields
  cleared_fields env l reason authorization = dict (
      ("environment", str env)
      ∷ ("lease_id", l.lease_id)
      ∷ ("kind", l.kind)
      ∷ ("owner", l.owner)
      ∷ ("reason", str reason)
      ∷ ("authorization", str authorization)
      ∷ [])

  unfoldable pub clear_locked : String → String → String → Action (Unit {0})
  clear_locked env reason authorization = do
    found ← read_lease env
    elim found [
      | none ↦ raise (lease_conflict "no lease exists to clear")
      | some l ↦ do
        unlink env
        audit h "emergency-cleared" (cleared_fields env l reason authorization)
    ]

  -- `emergency_clear`
  unfoldable pub emergency_clear : String → String → String → ℕ → Action (Unit {0})
  emergency_clear env reason authorization euid = do
    lift (check_clear env reason authorization euid)
    with_lock h env (clear_locked env reason authorization)

  -- `status`
  unfoldable pub status : String → Action (Option Lease)
  status env = with_lock h env (expire_or_read h env)
