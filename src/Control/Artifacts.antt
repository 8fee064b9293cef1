-- ===== src/Control/Artifacts.antt =====
-- scripts/deploy/hermes_deployment_controller.py: the reviewed artifacts and the deployment roots.
use hermes_ops.Prelude.{
  ◌≡◌, ℕ, String, not, ◌||◌, ◌&&◌, none, some, List, [], ◌∷◌, ◌==◌, nat_eq, strip_prefix, split,
  join, elem, is_some, if◌then◌else◌,
}
use hermes_ops.Prelude.Int.{pos}
use Prim.Native.String.{◌++◌}
use hermes_ops.Result.{Result, ok, err, refuse, ◌>>=◌, ◌>>◌}
use hermes_ops.Json.{Json, null, str, obj, Fields, get_or, same_keys, is_int}
use hermes_ops.Control.Formats.{sha_re, hex64}
use hermes_ops.Control.State.{
  Failure, validation, artifact_violation, value_error, File, readable, unreadable, undecodable,
  Host,
}

-- `_load_json`
unfoldable pub load_json : File → Result Failure Json
load_json (readable value) = ok value
load_json unreadable = err (validation "invalid JSON state")
load_json undecodable = err value_error

-- `isinstance(value, dict)`
abbrev pub as_dict : Failure → Json → Result Failure Fields
as_dict e (obj d) = ok d
as_dict e _ = err e

abbrev pub as_str : Failure → Json → Result Failure String
as_str e (str s) = ok s
as_str e _ = err e

pub as_dict-eq-ok : (e : Failure) (j : Json) {d : Fields} → as_dict e j ≡ ok d → j ≡ obj d
as_dict-eq-ok e (obj d) h = cc
as_dict-eq-ok e null h = cc
as_dict-eq-ok e _ h = cc

pub as_str-eq-ok : (e : Failure) (j : Json) {s : String} → as_str e j ≡ ok s → j ≡ str s
as_str-eq-ok e (str s) h = cc
as_str-eq-ok e null h = cc
as_str-eq-ok e _ h = cc

abbrev pub member : String → Fields → Json
member k d = get_or k null d

-- The components of a path that pathlib keeps: neither empty nor ".".
abbrev kept : List String → List String
kept [] = []
kept (w ∷ ws) = let rest = kept ws in if w == "" || w == "." then rest else w ∷ rest

-- `Path(raw).parts`, less the root.
unfoldable pub parts : String → List String
unfolding split
parts raw = kept (split "/" raw)

-- `str(Path(raw))` of an absolute path: two leading slashes stay two, and more are one.
unfoldable pub path : String → String
unfolding parts join strip_prefix
path raw =
    if is_some (strip_prefix "//" raw) && not (is_some (strip_prefix "///" raw))
    then "//" ++ join "/" (parts raw)
    else "/" ++ join "/" (parts raw)

-- All but the last.
abbrev init : List String → List String
init [] = []
init (w ∷ []) = []
init (w ∷ v ∷ ws) = w ∷ init (v ∷ ws)

-- `str(Path(raw).parent)` of an absolute path, where it has one slash in front.
unfoldable pub parent : String → String
unfolding parts join
parent raw = "/" ++ join "/" (init (parts raw))

-- `_config`
unfoldable pub config : Host → Result Failure Fields
unfolding load_json
config h = do
  value ← load_json h.config
  d ← as_dict (validation "invalid deployment control config schema") value
  refuse
      (not (same_keys ("version" ∷ "environments" ∷ []) d)
        || not (is_int (pos 1) (member "version" d)))
      (validation "invalid deployment control config schema")
  as_dict (validation "invalid environment configuration") (member "environments" d)

-- `_deploy_root`
unfoldable pub deploy_root : Host → String → Result Failure String
unfolding config path parts strip_prefix
deploy_root h env = do
  environments ← config h
  d ← as_dict (validation "unconfigured deployment environment") (member env environments)
  refuse (not (same_keys ("deploy_root" ∷ []) d)) (validation "unconfigured deployment environment")
  raw ← as_str (validation "unsafe deployment root") (member "deploy_root" d)
  refuse (not (is_some (strip_prefix "/" raw)) || raw == "/" || elem ".." (parts raw))
      (validation "unsafe deployment root")
  ok (path raw)

-- `sorted(EXPECTED_ARTIFACTS)`, and `EXPECTED_MODES`.
abbrev pub expected_artifacts : List String
expected_artifacts =
    "acceptance" ∷ "compose" ∷ "controller" ∷ "deployer" ∷ "installer" ∷ "sudoers" ∷ []

unfoldable pub expected_mode : String → ℕ
expected_mode name = if name == "compose" then 0o644 else if name == "sudoers" then 0o600 else 0o755

-- The record of one artifact in the manifest: the raw path and the expected digest.
unfoldable pub artifact_record : Json → Result Failure (String × String)
unfolding strip_prefix hex64
artifact_record (obj d) = do
  refuse (not (same_keys ("path" ∷ "sha256" ∷ []) d)) (artifact_violation "invalid artifact record")
  raw ← as_str (artifact_violation "invalid artifact path") (member "path" d)
  refuse (not (is_some (strip_prefix "/" raw))) (artifact_violation "invalid artifact path")
  expected ← as_str (artifact_violation "invalid artifact digest") (member "sha256" d)
  refuse (not (hex64 expected)) (artifact_violation "invalid artifact digest")
  ok (raw, expected)
artifact_record _ = err (artifact_violation "invalid artifact record")

-- The schema checks of `_verify_artifacts`: the records of the artifacts.
unfoldable pub manifest_records : Json → Result Failure Fields
unfolding sha_re
manifest_records value = do
  d ← as_dict (artifact_violation "invalid artifact manifest schema") value
  refuse
      (not (same_keys ("version" ∷ "reviewed_commit" ∷ "reviewed_tree" ∷ "artifacts" ∷ []) d)
        || not (is_int (pos 1) (member "version" d)))
      (artifact_violation "invalid artifact manifest schema")
  commit ←
      as_str (artifact_violation "invalid artifact manifest schema") (member "reviewed_commit" d)
  refuse (not (sha_re commit)) (artifact_violation "invalid artifact manifest schema")
  tree ← as_str (artifact_violation "invalid artifact manifest schema") (member "reviewed_tree" d)
  refuse (not (sha_re tree)) (artifact_violation "invalid artifact manifest schema")
  records ← as_dict (artifact_violation "invalid artifact manifest set") (member "artifacts" d)
  refuse (not (same_keys expected_artifacts records))
      (artifact_violation "invalid artifact manifest set")
  ok records

module _ (h : Host) where
  -- The file checks of one artifact, whose path is `p` and expected digest is `expected`.
  unfoldable pub check_artifact_file : String → String → String → Result Failure (Unit {0})
  unfolding expected_mode
  check_artifact_file name p expected = elim (h.lstat p) [
    | none ↦ err (artifact_violation "missing artifact")
    | some st ↦ elim (h.read_bytes p) [
      | none ↦ err (artifact_violation "missing artifact")
      | some content ↦ do
        refuse (not st.regular || not (nat_eq st.nlink 1) || st.symlink)
            (artifact_violation "unsafe artifact")
        refuse (not (h.sha256 content == expected)) (artifact_violation "artifact digest mismatch")
        refuse
            (h.production && (not (nat_eq st.uid 0) || not (nat_eq st.mode (expected_mode name))))
            (artifact_violation "artifact ownership or mode mismatch")
    ]
  ]

  -- One round of the loop of `_verify_artifacts`.
  unfoldable pub check_artifact : Fields → String → Result Failure (String × String)
  unfolding artifact_record check_artifact_file path
  check_artifact records name = do
    listed ← artifact_record (member name records)
    check_artifact_file name (path listed.0) listed.1
    ok (name, path listed.0)

  unfoldable pub check_artifacts : Fields → List String → Result Failure (List (String × String))
  unfolding check_artifact
  check_artifacts records [] = ok []
  check_artifacts records (name ∷ names) =
      let rest = check_artifacts records names in
      do checked ← check_artifact records name; others ← rest; ok (checked ∷ others)

-- `_verify_artifacts`
unfoldable pub verify_artifacts : Host → Result Failure (List (String × String))
unfolding check_artifacts manifest_records load_json
verify_artifacts h = do
  value ← load_json h.manifest
  records ← manifest_records value
  check_artifacts h records expected_artifacts

-- `paths[name]`
unfoldable pub artifact : String → List (String × String) → String
artifact name [] = ""
artifact name ((n, p) ∷ rest) = if n == name then p else artifact name rest
