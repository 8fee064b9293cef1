-- ===== src/Lib.antt =====
-- The scripts that deploy and operate Hermes, as definitions and theorems.
--
-- The program's parts, and the modules that model them. A definition has the name of the function or
-- method that it models, and stands beside the helpers for that function's branches.
--
-- - scripts/deploy/hermes_deployment_controller.py: Control. `ControlPlane` is the record `Plane` of
--   what is on disk (lease files, the audit log, locks) with the number of readings of the clock; its
--   methods are actions on a plane that return or raise. Control/Formats has the regular expressions,
--   State the machine, the audit log and the lock, Leases the lease file (`_read_lease`,
--   `_expire_or_read`), Artifacts the manifest (`_verify_artifacts`, `_deploy_root`), Metadata the
--   ownership checks, Requests the checks before the lock is taken, Ops the operations (`apply`,
--   `acquire_soak`, `release_soak`, `emergency_clear`, `status`) and Cli `main`. The other modules
--   below Control are proofs.
-- - scripts/deploy/evaluate_deployment_gate.py and select_deployment_policy.py: Gate, which decides
--   from the check runs of a commit whether it may be deployed.
-- - scripts/deploy/resolve_ghcr_digest.py: Registry, which finds the digest of an image.
-- - scripts/deploy/verify_image_attestation.py: Attestation, which binds the digest to a commit.
-- - scripts/deploy/verify_running_stack.py: Acceptance, which checks the deployed container.
-- - scripts/staging/hermes_staging_socket_diagnostic.py: Staging has the requests, the store of
--   transactions (`TransactionStore`), the configuration file (`ConfigStore`, with the
--   directories between its moves in Staging/Crashes) and `DiagnosticExecutor` (Staging/Executor).
--   Executor's record `Machine` is the store, the configuration and guard files, the clock, the
--   crash token and the transaction in memory; an action on it returns, raises or is killed. Its
--   modules Lock, Directory, Barrier, Metadata, Preflight, Restore, Run and Recover have the
--   definitions, the others are proofs. Socket has `_aggregate`, which checks the socket events of
--   a log.
-- - plugins/honcho-ops/honcho_ops/queue_diagnostic.py: Queue, which reads the work queue of Honcho:
--   Names (what may be put in a command or a query), Summary and Details (what psql prints).
-- - plugins/honcho-ops/honcho_ops/monitor.py: Monitor, the alerts of a sample (Alerts, Streaks), the
--   state from sample to sample (Samples), and the parsers of the probes (Rows).
--
-- The workflows call these parts one after the other: the gate, the registry and the attestation
-- before a deployment, the controller for it (its command is the deployer, a shell script), and the
-- acceptance after it. A soak or a diagnostic run keeps an environment to itself by a lease.
--
-- Prelude, Result, Exec and Json are shared: tests on numbers and texts, results, actions that change
-- a state and may raise, and the values of `json.loads`.
--
-- Parameters of the definitions are what the scripts do not implement: the clock, `uuid4`, `flock`,
-- the file system's answers (`lstat`, `read_bytes`, `exists`), SHA-256, `datetime.fromisoformat` and
-- `isoformat`, `str.isdigit` and `int`, `json.loads` and `json.dumps`, HTTP replies, the output of
-- docker, of ssh and of psql, the expressions that search a log, and the deployment command, which may
-- change what the controller has on disk.
--
-- Bounds and fuel: numbers are not bounded, as in Python. The wait for the lock of the controller runs
-- on fuel, `lock_timeout / 20 + 2` attempts, since it sleeps 20 milliseconds between two attempts. The
-- wait for a healthy gateway runs on 41 rounds, since each sleeps three seconds and it waits 120, and
-- its wait for the lock on 1201 attempts, since each sleeps 50 milliseconds and it waits 60 seconds. All
-- other loops are recursions on a number of attempts, a list or a text. Times are microseconds after
-- the epoch in the controller, and milliseconds in the executor.
--
-- Not modelled: the byte format of files, `fsync`, file descriptors, the termination of process groups,
-- the creation of directories, messages of exceptions beyond their class (the controller's are kept
-- where they are fixed texts), other processes that act between two steps of one call, argument
-- parsers, the `RecursionError` of deeply nested JSON, errors of the disk while the guard is written,
-- a guard that `write` takes in parts, `command_runner` of the staging diagnostic, the reports of the
-- honcho plugin and its probes, the shell scripts, the container image and the workflows.
pub mod Prelude
pub mod Result
pub mod Exec
pub mod Json
pub mod Acceptance
pub mod Attestation
pub mod Control
pub mod Gate
pub mod Monitor
pub mod Queue
pub mod Registry
pub mod Socket
pub mod Staging
