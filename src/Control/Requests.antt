-- ===== src/Control/Requests.antt =====
-- scripts/deploy/hermes_deployment_controller.py: what each operation is asked for, and the checks
-- that come before it takes the lock.
use Prim.Native.String.{◌++◌}
use hermes_ops.Prelude.{
  ℕ, String, Bool, false, not, ◌||◌, ◌&&◌, [], ◌∷◌, List, ◌==◌, nat_eq, leb, elem,
}
use hermes_ops.Prelude.Int.{ℤ, pos, negsuc}
use hermes_ops.Result.{Result, ok, refuse, ◌>>=◌, ◌>>◌}
use hermes_ops.Control.Formats.{
  image_repository, sha_re, digest_re, identity_re, run_id_re, attempt_re, lease_id_re, reason_re,
}
use hermes_ops.Control.State.{Failure, validation, permission, Host, validate_environment}
use hermes_ops.Control.Artifacts.{verify_artifacts, deploy_root}

pub record ApplyArgs : Type 0 where
  pub environment : String
  pub operation : String
  pub image : String
  pub digest : String
  pub source_sha : String
  pub controller : String
  pub authorization : String
  pub run_id : String
  pub run_attempt : String

pub record SoakArgs : Type 0 where
  pub environment : String
  pub source_sha : String
  pub digest : String
  pub owner : String
  pub authorization : String
  pub ttl_seconds : ℤ
  pub lease_id : String

-- `_validate_identity`
unfoldable pub validate_identity : String → String → Result Failure (Unit {0})
validate_identity label value = refuse (not (identity_re value)) (validation ("invalid " ++ label))

-- `_validate_source_digest`
unfoldable pub validate_source_digest : String → String → Result Failure (Unit {0})
validate_source_digest source_sha digest = do
  refuse (not (sha_re source_sha)) (validation "invalid source SHA")
  refuse (not (digest_re digest)) (validation "invalid image digest")

-- The first part of `apply`, up to the artifacts.
unfoldable pub validate_apply : ApplyArgs → Result Failure (Unit {0})
unfolding validate_environment validate_source_digest validate_identity
validate_apply a = do
  validate_environment a.environment
  refuse (not (elem a.operation ("deploy" ∷ "rollback" ∷ [])))
      (validation "invalid deployment operation")
  refuse (not (a.image == image_repository)) (validation "unexpected image repository")
  validate_source_digest a.source_sha a.digest
  validate_identity "controller" a.controller
  validate_identity "authorization" a.authorization
  refuse (not (run_id_re a.run_id) || not (attempt_re a.run_attempt))
      (validation "invalid workflow run identity")

-- All of `apply` above `with self._control_lock`: the artifacts' paths and the deployment root.
unfoldable pub check_apply : Host → ApplyArgs → Result Failure (List (String × String) × String)
unfolding validate_apply
check_apply h a = do
  validate_apply a
  artifacts ← verify_artifacts h
  root ← deploy_root h a.environment
  ok (artifacts, root)

-- `1 <= ttl_seconds <= 604800`
abbrev pub ttl_in_range : ℤ → Bool
ttl_in_range (pos n) = leb 1 n && leb n 604800
ttl_in_range (negsuc n) = false

unfoldable pub check_acquire : SoakArgs → Result Failure (Unit {0})
unfolding validate_environment validate_source_digest validate_identity
check_acquire a = do
  validate_environment a.environment
  validate_source_digest a.source_sha a.digest
  validate_identity "owner" a.owner
  validate_identity "authorization" a.authorization
  refuse (not (ttl_in_range a.ttl_seconds)) (validation "soak lease TTL must be 1..604800 seconds")
  refuse (not (lease_id_re a.lease_id)) (validation "invalid lease ID")

unfoldable pub check_release : String → String → String → String → Result Failure (Unit {0})
unfolding validate_environment validate_identity
check_release env lease_id owner authorization = do
  validate_environment env
  validate_identity "owner" owner
  validate_identity "authorization" authorization
  refuse (not (lease_id_re lease_id)) (validation "invalid lease ID")

unfoldable pub check_clear : String → String → String → ℕ → Result Failure (Unit {0})
unfolding validate_environment validate_identity
check_clear env reason authorization euid = do
  validate_environment env
  validate_identity "authorization" authorization
  refuse (not (nat_eq euid 0)) (permission "emergency clear requires direct root authorization")
  refuse (not (reason_re reason)) (validation "invalid emergency reason")
