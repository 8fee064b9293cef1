-- ===== src/Acceptance/Tests.antt =====
-- A deployment that is accepted.
use hermes_ops.Prelude.{
  String, ◌≡◌, refl, true, some, [], ◌∷◌, is_some, strip_prefix, size, lines, split_once,
}
use hermes_ops.Prelude.Int.{pos}
use hermes_ops.Result.{ok}
use hermes_ops.Json.{Json, bool, int, str, arr, obj, nil, cons, Fields, dict, items, get}
use hermes_ops.Control.Formats.{image_repository, digest_re, sha_re}
use hermes_ops.Gate.{truthy}
use hermes_ops.Acceptance.{
  Release, Machine, Env, Inspected, lookup, environment_re, exact_lines, exact_env, same_env,
  verify_release_env, runtime_entry, runtime_entries, runtime_env, index, label, inspected,
  is_accepted, verify_inspect, only_object, resolved_root, supervised, accept_running_stack,
}
use hermes_ops.Acceptance.Evidence.{Released, Runs, accept_running_stack-Runs}

abbrev release : Release
release = record {
  environment = "batumi-staging";
  image = image_repository;
  digest = "sha256:0000000000000000000000000000000000000000000000000000000000000000";
  source_sha = "0123456789abcdef0123456789abcdef01234567";
}

abbrev image_text : String
image_text =
    "ghcr.io/batumilove/hermes-agent-deploy@sha256:0000000000000000000000000000000000000000000000000000000000000000"

abbrev state : Json
state = obj (
    dict (
      ("Running", bool true)
      ∷ ("Health", obj (dict (("Status", str "healthy") ∷ [])))
      ∷ ("Pid", int (pos 42))
      ∷ ("StartedAt", str "2026-01-01T00:00:00Z")
      ∷ []))

abbrev config : Json
config = obj (
    dict (
      ("Image", str image_text)
      ∷ ("Labels", obj (dict (("org.opencontainers.image.revision", str release.source_sha) ∷ [])))
      ∷ (
        "Env",
        arr (
            items (
              str "PATH=/bin"
              ∷ str "HERMES_SOURCE_SHA=0123456789abcdef0123456789abcdef01234567"
              ∷ str "HERMES_DEPLOY_ENV=batumi-staging"
              ∷ [])),
      )
      ∷ []))

abbrev container : Fields
container = dict (("Config", config) ∷ ("State", state) ∷ ("RestartCount", int (pos 0)) ∷ [])

abbrev machine : Machine
machine = record {
  absolute = true;
  resolved = some "/srv/staging";
  release_env =
      some
        "HERMES_IMAGE=ghcr.io/batumilove/hermes-agent-deploy@sha256:0000000000000000000000000000000000000000000000000000000000000000\nHERMES_DEPLOY_ENV=batumi-staging\nHERMES_SOURCE_SHA=0123456789abcdef0123456789abcdef01234567\n";
  inspect = some (arr (cons (obj container) nil));
  supervisor = some "up (pid 42) 100 seconds";
}

abbrev seen : Inspected
seen = record {
  image = str image_text;
  config = config;
  env =
      ("HERMES_DEPLOY_ENV", "batumi-staging")
      ∷ ("HERMES_SOURCE_SHA", "0123456789abcdef0123456789abcdef01234567")
      ∷ [];
  running = bool true;
  health = str "healthy";
  restart_count = int (pos 0);
  pid = int (pos 42);
  started_at = str "2026-01-01T00:00:00Z";
}

accepted : accept_running_stack release machine ≡ ok (seen, "up (pid 42) 100 seconds")
unfolding get digest_re sha_re strip_prefix size lines split_once truthy lookup environment_re
    exact_lines exact_env same_env verify_release_env runtime_entry runtime_entries runtime_env
    index label inspected is_accepted verify_inspect only_object resolved_root supervised
    accept_running_stack
accepted = refl

accept_running_stack-Runs_example :
    (environment_re release.environment ≡ true)
    × (release.image ≡ image_repository)
    × (digest_re release.digest ≡ true)
    × (sha_re release.source_sha ≡ true)
    × (env : Env) × (exact_env machine.release_env ≡ ok env)
    × Released release env
    × (d : Fields) × (machine.inspect ≡ some (arr (cons (obj d) nil)))
    × Runs release d
    × (is_some (strip_prefix "up " "up (pid 42) 100 seconds") ≡ true)
accept_running_stack-Runs_example =
    accept_running_stack-Runs release machine seen "up (pid 42) 100 seconds" accepted
