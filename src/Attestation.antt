-- ===== src/Attestation.antt =====
-- scripts/deploy/verify_image_attestation.py: `verify_attestation_payload`, which accepts a list of
-- attestations if one of them binds an image digest to a source commit.
pub mod Evidence
pub mod Complete
mod Tests
use hermes_ops.Prelude.{
  String, Bool, true, false, not, ◌&&◌, Option, none, some, List, [], ◌∷◌, ◌==◌, any, strip_prefix,
  is_some, if◌then◌else◌,
}
use hermes_ops.Result.{Result, ok, err, refuse, ◌>>=◌, ◌>>◌}
use hermes_ops.Json.{Json, null, arr, obj, Items, nil, Fields, end, get, get_or, entries, is_str}
use hermes_ops.Control.Formats.{digest_re, sha_re}

-- `ValueError`, and the `AttributeError` of a value that has no `get`.
pub data Rejection : Type 0 where
  value_error attribute_error : Rejection

-- What is looked for.
pub record Expected : Type 0 where
  pub repository : String
  pub digest : String
  pub source_sha : String
  pub source_uri : String

abbrev pub provenance : String
provenance = "https://slsa.dev/provenance/v1"

-- `digest.removeprefix("sha256:")`
unfoldable pub expected_hex : Expected → String
unfolding strip_prefix
expected_hex x = elim (strip_prefix "sha256:" x.digest) [ none ↦ x.digest | some hex ↦ hex ]

-- `isinstance(value, dict) and value.get(algorithm) == hash`
unfoldable pub has_hash : String → String → Json → Bool
has_hash algorithm hash (obj d) = is_str hash (get_or algorithm null d)
has_hash algorithm hash _ = false

-- A dictionary `value` has `text` under `key`, and a dictionary "digest" with `hash` under `algorithm`.
unfoldable pub names_digest : String → String → String → String → Json → Bool
unfolding has_hash
names_digest key text algorithm hash (obj value) =
    is_str text (get_or key null value) && has_hash algorithm hash (get_or "digest" null value)
names_digest key text algorithm hash _ = false

-- `isinstance(values, list) and any(...)`
unfoldable pub any_names : String → String → String → String → Json → Bool
any_names key text algorithm hash (arr values) =
    any (names_digest key text algorithm hash) (entries values)
any_names key text algorithm hash _ = false

-- From `build_definition.get` on: both lists are searched.
unfoldable pub definition_binds : Expected → Fields → Json → Bool
unfolding any_names
definition_binds x statement (obj build_definition) =
    any_names "name" x.repository "sha256" (expected_hex x) (get_or "subject" (arr nil) statement)
    && any_names "uri" x.source_uri "gitCommit" x.source_sha
        (get_or "resolvedDependencies" (arr nil) build_definition)
definition_binds x statement _ = false

unfoldable pub predicate_binds : Expected → Fields → Json → Bool
unfolding definition_binds
predicate_binds x statement (obj predicate) =
    definition_binds x statement (get_or "buildDefinition" (obj end) predicate)
predicate_binds x statement _ = false

-- The body of the loop from `isinstance(statement, dict)` on.
unfoldable pub statement_binds : Expected → Json → Bool
unfolding predicate_binds
statement_binds x (obj statement) =
    is_str provenance (get_or "predicateType" null statement)
    && predicate_binds x statement (get_or "predicate" (obj end) statement)
statement_binds x _ = false

-- `entry.get("verificationResult", {}).get("statement", {})`
unfoldable pub statement_of : Json → Result Rejection Json
statement_of (obj verified) = ok (get_or "statement" (obj end) verified)
statement_of _ = err attribute_error

-- One round of the loop: does it return?
unfoldable pub entry_binds : Expected → Json → Result Rejection Bool
unfolding statement_of statement_binds
entry_binds x (obj entry) = do
  statement ← statement_of (get_or "verificationResult" (obj end) entry)
  ok (statement_binds x statement)
entry_binds x _ = ok false

-- The loop.
unfoldable pub search_entries : Expected → List Json → Result Rejection (Unit {0})
search_entries x [] = err value_error
search_entries x (entry ∷ rest) =
    let later = search_entries x rest in
    do bound ← entry_binds x entry; if bound then ok tt else later

unfoldable pub verify_entries : Expected → Json → Result Rejection (Unit {0})
verify_entries x (arr values) = search_entries x (entries values)
verify_entries x _ = err value_error

-- `verify_attestation_payload`
unfoldable pub verify_attestation_payload : Expected → Json → Result Rejection (Unit {0})
verify_attestation_payload x evidence = do
  refuse (not (digest_re x.digest)) value_error
  refuse (not (sha_re x.source_sha)) value_error
  refuse (not (is_some (strip_prefix "ghcr.io/" x.repository))) value_error
  refuse (not (is_some (strip_prefix "git+https://github.com/" x.source_uri))) value_error
  verify_entries x evidence
