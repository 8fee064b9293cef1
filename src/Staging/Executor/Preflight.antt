-- ===== src/Staging/Executor/Preflight.antt =====
-- scripts/staging/hermes_staging_socket_diagnostic.py: `_preflight`, which compares the host, the
-- metadata and the container with the request before anything is changed.
use hermes_ops.Prelude.{
  String, Bool, false, not, ◌&&◌, none, some, [], ◌∷◌, ◌==◌, all, lines, strip, if◌then◌else◌,
}
use hermes_ops.Result.{Result, ok, err}
use hermes_ops.Exec.{pure, ◌>>=◌, ◌>>◌}
use hermes_ops.Staging.Request.{Failure, diagnostic_error, Request}
use hermes_ops.Staging.Config.{snapshot}
use hermes_ops.Staging.Executor.{
  Outside, Act, give, fail, look, command, inspect_env, inspect_image, inspect_mount, wait_healthy,
  effective,
}
use hermes_ops.Staging.Executor.Metadata.{
  Env, lookup, same_env, exact_env, is_image, is_set, not_yet,
}

-- `if test: raise DiagnosticError`
abbrev pub refuse_run : Bool → Act (Unit {0})
refuse_run test = if test then fail diagnostic_error else pure tt

module _ (o : Outside) where
  unfoldable pub release_env : Request → String → Env
  release_env r image =
      ("HERMES_IMAGE", image)
      ∷ ("HERMES_DEPLOY_ENV", "batumi-staging")
      ∷ ("HERMES_SOURCE_SHA", r.expected_source_sha)
      ∷ []

  -- The image of a release that is the request's, and is an image of the repository.
  unfoldable pub release_image : Request → Env → Result Failure String
  unfolding release_env lookup same_env is_image
  release_image r release = elim (lookup "HERMES_IMAGE" release) [
    | none ↦ err diagnostic_error
    | some image ↦
        if same_env (release_env r image) release && is_image image
        then ok image
        else err diagnostic_error
  ]

  unfoldable pub runtime_env : Env
  runtime_env =
      ("HERMES_DATA_DIR", o.data_root)
      ∷ ("HERMES_UID", o.text_of o.world.expected_uid)
      ∷ ("HERMES_GID", o.text_of o.world.expected_gid)
      ∷ []

  unfoldable pub container_env : Request → Env
  container_env r =
      ("HERMES_SOURCE_SHA", r.expected_source_sha)
      ∷ ("HERMES_DEPLOY_ENV", "batumi-staging")
      ∷ ("HERMES_HOME", "/opt/data")
      ∷ []

  -- The checks of the host and of the metadata: the image of the release.
  unfoldable pub check_host : Request → Act String
  unfolding give release_image exact_env
  check_host r = do
    refuse_run (not (o.hostname == "hermes-staging-01"))
    release ← give (exact_env (o.metadata "release.env"))
    image ← give (release_image r release)
    runtime ← give (exact_env (o.metadata "runtime.env"))
    refuse_run (not (same_env runtime_env runtime))
    pure image

  -- The checks of the container, by what docker says of it.
  unfoldable pub check_container : Request → String → Act (Unit {0})
  unfolding command is_set container_env
  check_container r image = do
    env_output ← command o inspect_env 15
    refuse_run (not (all (is_set (lines env_output)) (container_env r)))
    configured_image ← command o inspect_image 15
    refuse_run (not (strip configured_image == image))
    mount ← command o inspect_mount 15
    refuse_run (not (strip mount == o.data_root))

  -- `_preflight`
  unfoldable pub preflight : Request → Act (Unit {0})
  unfolding check_host check_container not_yet
  preflight r = do
    image ← check_host r
    check_container r image
    wait_healthy o
    effective o false
    value ← look (snapshot o.world)
    give (not_yet o.world.parse value)
