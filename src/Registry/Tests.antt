-- ===== src/Registry/Tests.antt =====
-- A tag that the registry does not know.
use hermes_ops.Prelude.{String, ◌≡◌, refl, none, some, [], ◌∷◌, strip_prefix, split}
use hermes_ops.Result.{ok}
use hermes_ops.Json.{str, arr, obj, nil, cons, dict, get}
use hermes_ops.Gate.{truthy}
use hermes_ops.Registry.{
  Reply, http_error, response, Query, tag_re, check_query, token_of, registry_token,
  is_unknown_manifest, is_definitive, manifest_digest, resolve_manifest_digest,
}
use hermes_ops.Registry.Absence.{Answered, resolve_manifest_digest-Answered}

abbrev query : Query
query = record {
  repository = "ghcr.io/batumilove/image";
  reference = "sha-0123";
  username = "ops";
  password = "secret";
}

abbrev token : Reply
token = response (some (obj (dict (("token", str "t") ∷ [])))) none

abbrev unknown_tag : Reply
unknown_tag = http_error 404 (
    some (
      obj (
        dict
          (("errors", arr (cons (obj (dict (("code", str "MANIFEST_UNKNOWN") ∷ []))) nil)) ∷ []))))

absent_tag : resolve_manifest_digest query token (λ t. unknown_tag) ≡ ok none
unfolding get strip_prefix split truthy tag_re check_query token_of registry_token
    is_unknown_manifest is_definitive manifest_digest resolve_manifest_digest
absent_tag = refl

resolve_manifest_digest-Answered_example :
    (check_query query ≡ ok tt)
    × (t : String) × (registry_token token ≡ ok t)
    × Answered unknown_tag none
resolve_manifest_digest-Answered_example =
    resolve_manifest_digest-Answered query token (λ t. unknown_tag) none absent_tag
