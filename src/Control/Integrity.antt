-- ===== src/Control/Integrity.antt =====
-- scripts/deploy/hermes_deployment_controller.py: what `_verify_artifacts` establishes of the files
-- that a deployment runs.
use mathlib.Core.Path.{ap₂}
use hermes_ops.Prelude.{
  String, ◌≡◌, refl, subst, inl, inr, Bool-cases, Option-cases, true, false, some, List, [], ◌∷◌,
  All, map, arith, eq_iff, elem, ◌==◌, is_some, strip_prefix,
}
use hermes_ops.Result.{ok, >>=-eq-ok, ok-injective}
use hermes_ops.Json.{Json, null, str, obj, Fields}
use hermes_ops.Control.State.{Stat, Host}
use hermes_ops.Control.Artifacts.{
  member, path, load_json, manifest_records, check_artifact_file, check_artifact, artifact_record,
  check_artifacts, expected_artifacts, expected_mode, artifact, verify_artifacts,
}

-- The file at `p` is a regular file with one name that is no symbolic link, its content has the
-- digest `expected`, and in production it belongs to root and has the mode of the artifact `name`.
pub record IsIntact (h : Host) (name p expected : String) : Type 0 where
  pub stat : Stat
  pub content : String
  pub found : h.lstat p ≡ some stat
  pub read : h.read_bytes p ≡ some content
  pub regular : stat.regular ≡ true
  pub linked_once : stat.nlink ≡ 1
  pub no_symlink : stat.symlink ≡ false
  pub digest : h.sha256 content ≡ expected
  pub owned : h.production ≡ true → (stat.uid ≡ 0) × (stat.mode ≡ expected_mode name)

check_artifact_file-IsIntact :
    (h : Host) (name p expected : String)
    → check_artifact_file h name p expected ≡ ok tt
    → IsIntact h name p expected
unfolding check_artifact_file
check_artifact_file-IsIntact h name p expected passed = elim (Option-cases (h.lstat p)) [
  | inl missing ↦ absurd (ground arith)
  | inr (st, found) ↦ elim (Option-cases (h.read_bytes p)) [
    | inl unreadable ↦ absurd (ground arith)
    | inr (content, read) ↦ record {
      stat = st;
      content = content;
      found = found;
      read = read;
      regular = ground arith;
      linked_once = ground arith;
      no_symlink = ground arith;
      digest = ground (arith, eq_iff (h.sha256 content) expected);
      owned = ground arith;
    }
  ]
]

-- The manifest lists the artifact `name` with an absolute path, which is `p` once it is normalised,
-- and the file there has the digest that the manifest expects.
pub record IsRecorded (h : Host) (records : Fields) (name p : String) : Type 0 where
  pub fields : Fields
  pub raw : String
  pub expected : String
  pub listed : member name records ≡ obj fields
  pub raw_path : member "path" fields ≡ str raw
  pub digest : member "sha256" fields ≡ str expected
  pub absolute : is_some (strip_prefix "/" raw) ≡ true
  pub normal : p ≡ path raw
  pub intact : IsIntact h name p expected

abbrev Listed : Json → String × String → Type 0
Listed j (raw, expected) =
    (d : Fields) × (j ≡ obj d)
    × (member "path" d ≡ str raw)
    × (member "sha256" d ≡ str expected)
    × (is_some (strip_prefix "/" raw) ≡ true)

artifact_record-Listed :
    (j : Json) (raw expected : String)
    → artifact_record j ≡ ok (raw, expected)
    → Listed j (raw, expected)
unfolding artifact_record
artifact_record-Listed (obj d) raw expected e = (d, refl, ground arith, ground arith, ground arith)
artifact_record-Listed null raw expected e = cc
artifact_record-Listed _ raw expected e = cc

recorded :
    (h : Host) (records : Fields) (name raw expected : String)
    → artifact_record (member name records) ≡ ok (raw, expected)
    → check_artifact_file h name (path raw) expected ≡ ok tt
    → IsRecorded h records name (path raw)
recorded h records name raw expected listed file =
    let (d, found, raw_path, digest, absolute) = artifact_record-Listed _ raw expected listed in
    record {
      fields = d;
      raw = raw;
      expected = expected;
      listed = found;
      raw_path = raw_path;
      digest = digest;
      absolute = absolute;
      normal = refl;
      intact = check_artifact_file-IsIntact h name (path raw) expected file;
    }

check_artifact-IsRecorded :
    (h : Host) (records : Fields) (name : String) (q : String × String)
    → check_artifact h records name ≡ ok q
    → (q.0 ≡ name) × IsRecorded h records name q.1
unfolding check_artifact
check_artifact-IsRecorded h records name q passed =
    let ((raw, expected), listed, k1) =
      >>=-eq-ok (artifact_record (member name records)) _ passed in
    let (u, file, k2) = >>=-eq-ok (check_artifact_file h name (path raw) expected) _ k1 in
    rw (← ok-injective k2) (refl, recorded h records name raw expected listed file)

check_artifacts-All :
    (h : Host) (records : Fields) (names : List String) (ps : List (String × String))
    → check_artifacts h records names ≡ ok ps
    → (map (λ (q : String × String). q.0) ps ≡ names) × All (λ q. IsRecorded h records q.0 q.1) ps
unfolding check_artifacts
check_artifacts-All h records [] ps passed = rw (← ok-injective passed) (refl, tt)
check_artifacts-All h records (name ∷ names) ps passed =
    let (q, first, k1) = >>=-eq-ok (check_artifact h records name) _ passed in
    let (others, rest, k2) = >>=-eq-ok (check_artifacts h records names) _ k1 in
    let (named, recorded) = check_artifact-IsRecorded h records name q first in
    let (listed, all_recorded) = check_artifacts-All h records names others rest in
    rw (← ok-injective k2) (ap₂ (λ n ns. n ∷ ns) named listed, (rw named recorded, all_recorded))

-- The first entry of a name is found.
artifact-All {ℓ} :
    (P : String → String → Type ℓ) (name : String) (ps : List (String × String))
    → elem name (map (λ (q : String × String). q.0) ps) ≡ true
    → All (λ q. P q.0 q.1) ps
    → P name (artifact name ps)
unfolding artifact
artifact-All P name [] listed all_hold = cc
artifact-All P name (q ∷ ps) listed (first, rest) = elim (Bool-cases (q.0 == name)) [
  | inl here ↦ rw here (subst (λ n. P n q.1) ((eq_iff q.0 name).0 here) first)
  | inr there ↦ rw there (artifact-All P name ps (rw there at listed) rest)
]

-- The manifest that `_verify_artifacts` accepts lists every expected artifact. The path that is
-- returned for an artifact is the listed one, and the file there is regular, has one name, is no
-- symbolic link and has the listed digest; in production root owns it, and it has the expected mode.
pub verify_artifacts-IsRecorded :
    (h : Host) (ps : List (String × String)) (name : String)
    → verify_artifacts h ≡ ok ps
    → elem name expected_artifacts ≡ true
    → (value : Json) × (records : Fields) × (load_json h.manifest ≡ ok value)
      × (manifest_records value ≡ ok records)
      × IsRecorded h records name (artifact name ps)
unfolding verify_artifacts
verify_artifacts-IsRecorded h ps name passed expected =
    let (value, loaded, k1) = >>=-eq-ok (load_json h.manifest) _ passed in
    let (records, checked, k2) = >>=-eq-ok (manifest_records value) _ k1 in
    let (listed, all_recorded) = check_artifacts-All h records expected_artifacts ps k2 in
    (
      value,
      records,
      loaded,
      checked,
      artifact-All (IsRecorded h records) name ps (rw listed expected) all_recorded,
    )
