-- ===== src/Control/Metadata.antt =====
-- scripts/deploy/hermes_deployment_controller.py: the ownership and modes of the controller's own
-- files and directories.
use hermes_ops.Prelude.{String, Bool, not, ◌||◌, ◌&&◌, none, some, nat_eq, ◌==◌, if◌then◌else◌}
use hermes_ops.Result.{Result, ok, err, refuse, ◌>>◌}
use hermes_ops.Control.State.{Failure, artifact_violation, permission, os_error, Stat, Host}

abbrev pub state_root : String
state_root = "/var/lib/hermes-deployment-control"

abbrev pub leases_root : String
leases_root = "/var/lib/hermes-deployment-control/leases"

abbrev pub locks_root : String
locks_root = "/var/lib/hermes-deployment-control/locks"

abbrev pub audit_path : String
audit_path = "/var/lib/hermes-deployment-control/audit.jsonl"

abbrev pub manifest_path : String
manifest_path = "/var/lib/hermes-deployment-control/artifact-manifest.json"

abbrev pub config_path : String
config_path = "/etc/hermes-deployment-control/config.json"

abbrev pub installed_controller : String
installed_controller = "/usr/local/libexec/hermes-deployment-controller"

-- A regular file of root with one name and the mode 0600.
unfoldable pub private_file : Stat → Bool
private_file st =
    st.regular
    && not st.symlink
    && nat_eq st.nlink 1
    && nat_eq st.uid 0
    && nat_eq st.gid 0
    && nat_eq st.mode 0o600

-- A directory of root with the mode 0700.
unfoldable pub private_directory : Stat → Bool
private_directory st =
    st.directory && not st.symlink && nat_eq st.uid 0 && nat_eq st.gid 0 && nat_eq st.mode 0o700

module _ (h : Host) where
  abbrev file_stat : String → Result Failure (Unit {0})
  file_stat p = elim (h.lstat p) [
    | none ↦ err (artifact_violation "unsafe production metadata")
    | some st ↦ refuse (not (private_file st)) (artifact_violation "unsafe production metadata")
  ]

  -- Nothing catches the exception of `lstat` here.
  abbrev directory_stat : String → Result Failure (Unit {0})
  directory_stat p = elim (h.lstat p) [
    | none ↦ err os_error
    | some st ↦
        refuse (not (private_directory st)) (artifact_violation "unsafe production metadata")
  ]

  -- The audit log need not be there yet.
  abbrev audit_stat : Result Failure (Unit {0})
  audit_stat =
      if h.exists audit_path
      then (elim (h.lstat audit_path) [
        | none ↦ err os_error
        | some st ↦ refuse (not (private_file st)) (artifact_violation "unsafe production metadata")
      ])
      else ok tt

  -- `_verify_production_metadata`
  unfoldable pub verify_production_metadata : Result Failure (Unit {0})
  unfolding private_file private_directory
  verify_production_metadata = do
    file_stat manifest_path
    file_stat config_path
    directory_stat state_root
    directory_stat leases_root
    directory_stat locks_root
    audit_stat

  -- `_assert_installed_root_entrypoint`
  unfoldable pub assert_installed_root_entrypoint : Result Failure (Unit {0})
  assert_installed_root_entrypoint = do
    refuse (not (h.entry_point == installed_controller))
        (permission "run only the installed root-owned deployment controller")
    elim (h.lstat h.entry_point) [
      | none ↦ err os_error
      | some st ↦
          refuse
            (not (nat_eq h.euid 0)
              || not (nat_eq st.uid 0)
              || not (nat_eq st.gid 0)
              || not (nat_eq st.nlink 1)
              || not (nat_eq st.mode 0o755))
            (permission "installed deployment controller ownership or mode mismatch")
    ]
