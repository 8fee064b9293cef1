-- ===== src/Control/Tests.antt =====
-- Runs of the controller on a small machine, and the theorems at them.
use mathlib.Core.List.{append-nil}
use hermes_ops.Prelude.{
  ℕ, zero, suc, ◌+◌, ◌*◌, ◌<◌, String, ◌≡◌, ◌≢◌, ◌↔◌, refl, sym, ap, true, false, Option, none,
  some, List, [], ◌∷◌, ◌++◌, arith, size, ◌==◌, ◌||◌, update, if◌then◌else◌,
}
use hermes_ops.Prelude.Int.{pos}
use hermes_ops.Result.{ok, err}
use hermes_ops.Exec.{◌>>=◌}
use hermes_ops.Json.{Json, Fields, int, str, obj, dict, same_keys, get}
use hermes_ops.Control.Formats.{
  env_re, sha_re, digest_re, identity_re, lease_id_re, run_id_re, attempt_re,
}
use hermes_ops.Control.State.{
  readable, undecodable, value_error, Outcome, aware, exited, Plane, Stat, Host, Event,
  validate_environment, now, audit, wait_lock, lock_fuel, locked_run, with_lock, lease_conflict,
  unfinished,
}
use hermes_ops.Control.Artifacts.{
  verify_artifacts, deploy_root, artifact, load_json, manifest_records,
}
use hermes_ops.Control.Leases.{
  Lease, lease_fields, read_lease, check_file, write_lease, expire_or_read,
}
use hermes_ops.Control.Requests.{ApplyArgs, SoakArgs, check_apply, check_acquire, check_release}
use hermes_ops.Control.Ops.{
  apply, deploy, acquire_soak, acquire_locked, release_soak, soak_lease, status,
}
use hermes_ops.Control.Metadata.{
  manifest_path, config_path, audit_path, state_root, leases_root, locks_root,
  verify_production_metadata, assert_installed_root_entrypoint,
}
use hermes_ops.Control.Cli.{main, exits, main-not_root, main-unknown}
use hermes_ops.Control.LeaseFile.{IsActive, check_file-lease_fields}
use hermes_ops.Control.Locking.{IsGranted, Ticks, lock_fuel_enough}
use hermes_ops.Control.Blocking.{relocked, blocked_event, apply-IsActive, acquire_soak-IsActive}
use hermes_ops.Control.Removal.{dropping, Leaves}
use hermes_ops.Control.Cleanup.{
  overridden, result_of, released_event, dropped, own_id, own_lease, begun, ended, cleared,
  deploy_lifecycle, apply-idle,
}
use hermes_ops.Control.Soaks.{
  ReadsBack, soak_end, IsHeld, IsHeld-IsActive, acquired_at, acquire_soak-idle, acquire_soak-apply,
  matches, release_soak-exact,
}
use hermes_ops.Control.Frames.{RunnerKeeps}
use hermes_ops.Control.Integrity.{IsRecorded, verify_artifacts-IsRecorded}
use hermes_ops.Control.Sessions.{
  Op, deploying, soaking, asking, perform, Respects, perform-Respects, history, AllFree,
  history-audit, history-others,
}
use hermes_ops.Control.SoundFiles.{IsSound, RunnerSound}
use hermes_ops.Control.Soundness.{history-IsSound, status-IsSound}

-- A time is written as so many strokes.
strokes : ℕ → String
strokes zero = ""
strokes (suc n) = String.◌∷◌ "|" (strokes n)

size-strokes : (n : ℕ) → size (strokes n) ≡ n
unfolding size strokes
size-strokes zero = refl
size-strokes (suc n) = ap suc (size-strokes n)

abbrev digest : String
digest = "0000000000000000000000000000000000000000000000000000000000000000"

abbrev commit : String
commit = "0123456789abcdef0123456789abcdef01234567"

abbrev listed : String → Json
listed p = obj (dict (("path", str p) ∷ ("sha256", str digest) ∷ []))

abbrev sample_manifest : Json
sample_manifest = obj (
    dict (
      ("version", int (pos 1))
      ∷ ("reviewed_commit", str commit)
      ∷ ("reviewed_tree", str commit)
      ∷ (
        "artifacts",
        obj (
            dict (
              ("acceptance", listed "/opt/accept.py")
              ∷ ("compose", listed "/opt/compose.yml")
              ∷ ("controller", listed "/opt/controller.py")
              ∷ ("deployer", listed "/opt/deploy.sh")
              ∷ ("installer", listed "/opt/install.sh")
              ∷ ("sudoers", listed "/opt/sudoers")
              ∷ [])),
      )
      ∷ []))

abbrev sample_config : Json
sample_config = obj (
    dict (
      ("version", int (pos 1))
      ∷ (
        "environments",
        obj (dict (("batumi-staging", obj (dict (("deploy_root", str "/srv/staging") ∷ []))) ∷ [])),
      )
      ∷ []))

abbrev file : ℕ → Stat
file mode = record {
  regular = true;
  directory = false;
  symlink = false;
  nlink = 1;
  uid = 0;
  gid = 0;
  mode = mode;
}

-- A second passes between two readings of the clock, and 20 milliseconds between two attempts.
abbrev machine : Host
machine = record {
  clock = λ n. n * 1000000;
  uuid = λ n. "abc";
  render = strokes;
  parse = λ s. aware (size s * 1000000);
  flock = λ env n. true;
  monotonic = λ n. n * 20;
  lock_timeout = 5000;
  runner = λ argv timeout s. (exited (pos 0), s);
  config = readable sample_config;
  manifest = readable sample_manifest;
  lstat = λ p. some (
      file
        (if p == "/opt/compose.yml" then 0o644 else if p == "/opt/sudoers" then 0o600 else 0o755));
  exists = λ p. true;
  read_bytes = λ p. some "";
  sha256 = λ s. digest;
  production = true;
  entry_point = "/usr/local/libexec/hermes-deployment-controller";
  euid = 0;
  int_of = λ s. some (pos 60);
}

abbrev empty : Plane
empty = record {
  lease_at = λ env. none;
  audit = [];
  locked = λ env. false;
  reads = 0;
  ids = 0;
  runs = [];
}

abbrev soak : SoakArgs
soak = record {
  environment = "batumi-staging";
  source_sha = commit;
  digest = "sha256:0000000000000000000000000000000000000000000000000000000000000000";
  owner = "ops:alice";
  authorization = "ticket-1";
  ttl_seconds = pos 60;
  lease_id = "soak-2026-01-01-a";
}

abbrev deployment : ApplyArgs
deployment = record {
  environment = "batumi-staging";
  operation = "deploy";
  image = "ghcr.io/batumilove/hermes-agent-deploy";
  digest = "sha256:0000000000000000000000000000000000000000000000000000000000000000";
  source_sha = commit;
  controller = "github:batumilove";
  authorization = "ticket-2";
  run_id = "17";
  run_attempt = "1";
}

ReadsBack-machine : ReadsBack machine
ReadsBack-machine seconds = ap (λ n. aware (n * 1000000)) (size-strokes seconds)

-- Opens the checks of the requests.
program : Unit {0}
unfolding check_acquire check_apply check_release env_re sha_re digest_re identity_re lease_id_re
    run_id_re attempt_re verify_artifacts deploy_root same_keys get validate_environment
program = tt

check_acquire-soak : check_acquire soak ≡ ok tt
unfolding program
check_acquire-soak = refl

abbrev artifacts : List (String × String)
artifacts =
    ("acceptance", "/opt/accept.py")
    ∷ ("compose", "/opt/compose.yml")
    ∷ ("controller", "/opt/controller.py")
    ∷ ("deployer", "/opt/deploy.sh")
    ∷ ("installer", "/opt/install.sh")
    ∷ ("sudoers", "/opt/sudoers")
    ∷ []

check_apply-deployment : check_apply machine deployment ≡ ok (artifacts, "/srv/staging")
unfolding program
check_apply-deployment = refl

check_release-soak :
    check_release "batumi-staging" "soak-2026-01-01-a" "ops:alice" "ticket-1" ≡ ok tt
unfolding program
check_release-soak = refl

validate_environment-staging : validate_environment "batumi-staging" ≡ ok tt
unfolding program
validate_environment-staging = refl

IsGranted-machine : IsGranted machine "batumi-staging"
unfolding wait_lock
IsGranted-machine = refl

Ticks-machine : Ticks machine
Ticks-machine = (omega arith, λ n. omega arith)

lock_fuel_enough_example :
    wait_lock machine "batumi-staging" (lock_fuel machine) 0 5000 ≢ unfinished
lock_fuel_enough_example = lock_fuel_enough machine "batumi-staging" Ticks-machine

-- No lease, and a soak lease that was acquired when the clock read 0.
idle-empty :
    (expire_or_read machine "batumi-staging"
      (record empty { locked = update empty.locked "batumi-staging" true })).0
    ≡ ok none
unfolding expire_or_read read_lease check_file validate_environment env_re ◌>>=◌
idle-empty = refl

acquired_soak :
    ((acquire_soak machine soak empty).0
      ≡ ok (soak_lease machine soak 60 (acquired_at machine soak empty)))
    × IsHeld machine soak 60 (acquired_at machine soak empty) (acquire_soak machine soak empty).1
acquired_soak = acquire_soak-idle machine soak empty check_acquire-soak IsGranted-machine idle-empty

abbrev soaked : Plane
soaked = (acquire_soak machine soak empty).1

early-soaked : machine.clock soaked.reads < soak_end 60 (acquired_at machine soak empty)
unfolding acquire_soak acquire_locked expire_or_read read_lease check_file with_lock locked_run
    wait_lock now audit write_lease program ◌>>=◌
early-soaked = omega arith

acquire_soak-apply_example :
    ((apply machine deployment soaked).0
      ≡ err (lease_conflict "active lease blocks the deployment"))
    × ((apply machine deployment soaked).1.runs ≡ soaked.runs)
    × ((apply machine deployment soaked).1.lease_at ≡ soaked.lease_at)
acquire_soak-apply_example =
    acquire_soak-apply machine soak empty soaked deployment ReadsBack-machine check_acquire-soak
      IsGranted-machine idle-empty refl refl check_apply-deployment early-soaked

IsActive-soaked :
    IsActive machine "batumi-staging"
      (soak_lease machine soak 60 (acquired_at machine soak empty))
      soaked
IsActive-soaked =
    IsHeld-IsActive machine soak 60 (acquired_at machine soak empty) soaked ReadsBack-machine
      validate_environment-staging acquired_soak.1 early-soaked

abbrev the_soak : Lease
the_soak = soak_lease machine soak 60 (acquired_at machine soak empty)

apply-IsActive_example : apply machine deployment soaked ≡ (
  err (lease_conflict "active lease blocks the deployment"),
  record (relocked "batumi-staging" soaked) {
    reads = soaked.reads + 1 + 1;
    audit = soaked.audit ++ blocked_event machine the_soak soaked deployment ∷ [];
  },
)
apply-IsActive_example =
    apply-IsActive machine the_soak soaked deployment check_apply-deployment IsGranted-machine
      IsActive-soaked

acquire_soak-IsActive_example : acquire_soak machine soak soaked ≡ (
  err (lease_conflict "active lease already exists"),
  record (relocked "batumi-staging" soaked) { reads = soaked.reads + 1 },
)
acquire_soak-IsActive_example =
    acquire_soak-IsActive machine the_soak soaked soak check_acquire-soak IsGranted-machine
      IsActive-soaked

apply-idle_example :
    ((apply machine deployment empty).0
      ≡ overridden
          (dropping (
            (ended machine deployment artifacts "/srv/staging"
                (cleared machine deployment empty)).1.lease_at
              "batumi-staging"))
          (result_of
            (ended machine deployment artifacts "/srv/staging"
              (cleared machine deployment empty)).0))
    × Leaves "batumi-staging"
        (own_id machine deployment artifacts "/srv/staging" (cleared machine deployment empty))
        ((ended machine deployment artifacts "/srv/staging"
            (cleared machine deployment empty)).1.lease_at
          "batumi-staging")
        ((apply machine deployment empty).1.lease_at "batumi-staging")
    × ((apply machine deployment empty).1.locked "batumi-staging" ≡ false)
apply-idle_example =
    apply-idle machine deployment empty (artifacts, "/srv/staging") check_apply-deployment
      IsGranted-machine idle-empty

-- A command that writes bytes that are not UTF-8 into the lease file.
abbrev spoiling : Host
spoiling = record machine {
  runner = λ argv timeout s. (
    exited (pos 0),
    record s { lease_at = update s.lease_at "batumi-staging" (some undecodable) },
  );
}

abbrev spoilt : Outcome × Plane
spoilt = ended spoiling deployment artifacts "/srv/staging" empty

deploy_lifecycle_example :
    ((begun spoiling deployment artifacts "/srv/staging" empty).lease_at "batumi-staging"
      ≡ some (
          readable
            (obj (lease_fields (own_lease spoiling deployment artifacts "/srv/staging" empty)))))
    × ((deploy spoiling deployment artifacts "/srv/staging" empty).0 ≡ err value_error)
    × ((deploy spoiling deployment artifacts "/srv/staging" empty).1.lease_at "batumi-staging"
        ≡ some undecodable)
    × ((deploy spoiling deployment artifacts "/srv/staging" empty).1.audit
        ≡ (dropped spoiling deployment "deployment-abc" (exited (pos 0)) spoilt.1).audit
          ++ released_event spoiling deployment "deployment-abc"
              (some (pos 0))
              (dropped spoiling deployment "deployment-abc" (exited (pos 0)) spoilt.1)
            ∷ [])
deploy_lifecycle_example =
    deploy_lifecycle spoiling deployment artifacts "/srv/staging" empty validate_environment-staging

found-soaked : check_file "batumi-staging" (soaked.lease_at "batumi-staging") ≡ ok (some the_soak)
found-soaked =
    rw (acquired_soak.1)
      (check_file-lease_fields "batumi-staging" the_soak (unfold soak_lease in refl))

release_soak-exact_example :
    (((release_soak machine "batumi-staging" "soak-2026-01-01-a" "ops:alice" "ticket-1" soaked).0
        ≡ ok tt)
      ↔ (matches "soak-2026-01-01-a" "ops:alice" "ticket-1" the_soak ≡ true))
    × ((release_soak machine "batumi-staging" "soak-2026-01-01-a" "ops:alice" "ticket-1"
          soaked).1.lease_at
        ≡ (if matches "soak-2026-01-01-a" "ops:alice" "ticket-1" the_soak
            then update soaked.lease_at "batumi-staging" none
            else soaked.lease_at))
release_soak-exact_example =
    release_soak-exact machine "batumi-staging" "soak-2026-01-01-a" "ops:alice" "ticket-1" soaked
      the_soak check_release-soak validate_environment-staging IsGranted-machine found-soaked

RunnerKeeps-machine : (env : String) → RunnerKeeps machine env
RunnerKeeps-machine env a files root s same = record {
  others = λ e ne. refl;
  added = [];
  grows = sym (append-nil s.audit);
  locks = refl;
}

RunnerSound-machine : RunnerSound machine
RunnerSound-machine argv timeout s sound = sound

abbrev calls : List Op
calls = deploying deployment ∷ soaking soak ∷ deploying deployment ∷ asking "batumi-staging" ∷ []

perform-Respects_example :
    Respects "batumi-staging" soaked (perform machine (deploying deployment) soaked)
perform-Respects_example =
    perform-Respects machine (deploying deployment) soaked (RunnerKeeps-machine "batumi-staging")

history-audit_example :
    AllFree (history machine calls empty)
    × ((added : List Event) × ((history machine calls empty).audit ≡ [] ++ added))
history-audit_example = history-audit machine calls empty RunnerKeeps-machine (λ e. refl)

history-others_example : (history machine calls empty).lease_at "batumi-production" ≡ none
history-others_example =
    history-others machine calls empty "batumi-production" RunnerKeeps-machine
      (refl, (refl, (refl, (refl, tt))))

IsSound-empty : IsSound machine empty
unfolding check_file
IsSound-empty env = tt

history-IsSound_example : IsSound machine (history machine calls empty)
history-IsSound_example =
    history-IsSound machine ReadsBack-machine RunnerSound-machine calls empty IsSound-empty

status-IsSound_example :
    (found : Option Lease) × ((status machine "batumi-staging" (history machine calls empty)).0
      ≡ ok found)
status-IsSound_example =
    status-IsSound machine "batumi-staging" (history machine calls empty)
      validate_environment-staging IsGranted-machine history-IsSound_example

verify_artifacts-machine : verify_artifacts machine ≡ ok artifacts
unfolding program
verify_artifacts-machine = refl

verify_artifacts-IsRecorded_example :
    (value : Json) × (records : Fields) × (load_json (readable sample_manifest) ≡ ok value)
    × (manifest_records value ≡ ok records)
    × IsRecorded machine records "deployer" (artifact "deployer" artifacts)
verify_artifacts-IsRecorded_example =
    verify_artifacts-IsRecorded machine artifacts "deployer" verify_artifacts-machine refl

-- The machine with the modes that the production files must have.
abbrev installed : Host
installed = record machine {
  lstat = λ p. some (
      if p == manifest_path || p == config_path || p == audit_path
      then file 0o600
      else if p == state_root || p == leases_root || p == locks_root
      then record (file 0o700) { regular = false; directory = true }
      else file 0o755);
}

root-installed : assert_installed_root_entrypoint installed ≡ ok tt
unfolding assert_installed_root_entrypoint
root-installed = refl

sound-installed : verify_production_metadata installed ≡ ok tt
unfolding verify_production_metadata
sound-installed = refl

main-not_root_example : (main (record machine { euid = 1000 }) ("apply" ∷ []) empty).1 ≡ empty
main-not_root_example =
    main-not_root (record machine { euid = 1000 }) ("apply" ∷ []) empty (omega arith)

main-unknown_example :
    main installed ("remove" ∷ "batumi-staging" ∷ []) empty ≡ (exits (pos 1) none, empty)
main-unknown_example =
    main-unknown installed "remove" ("batumi-staging" ∷ []) empty root-installed sound-installed
      refl
