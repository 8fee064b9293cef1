-- ===== src/Attestation/Tests.antt =====
-- One attestation of an image, behind an entry that is not a dictionary.
use hermes_ops.Prelude.{
  String, ◌≡◌, inl, inr, refl, true, false, [], ◌∷◌, All, is_some, strip_prefix,
}
use hermes_ops.Result.{ok}
use hermes_ops.Json.{Json, null, str, arr, obj, Items, get, entries, dict, items}
use hermes_ops.Control.Formats.{digest_re, sha_re}
use hermes_ops.Attestation.{
  Expected, provenance, expected_hex, has_hash, names_digest, any_names, definition_binds,
  predicate_binds, statement_of, statement_binds, entry_binds, search_entries, verify_entries,
  verify_attestation_payload,
}
use hermes_ops.Attestation.Evidence.{
  Among, BoundBy, entry_binds-BoundBy, verify_attestation_payload-BoundBy,
}
use hermes_ops.Attestation.Complete.{IsSearched, verify_attestation_payload_complete}

abbrev image : Expected
image = record {
  repository = "ghcr.io/batumilove/hermes-agent-deploy";
  digest = "sha256:0000000000000000000000000000000000000000000000000000000000000000";
  source_sha = "0123456789abcdef0123456789abcdef01234567";
  source_uri = "git+https://github.com/batumilove/hermes-agent@refs/heads/main";
}

abbrev named : String → String → String → String → Json
named key text algorithm hash =
    obj (dict ((key, str text) ∷ ("digest", obj (dict ((algorithm, str hash) ∷ []))) ∷ []))

abbrev attestation : Json
attestation = obj (
    dict (
      (
        "verificationResult",
        obj (
            dict (
              (
                "statement",
                obj (
                    dict (
                      ("predicateType", str provenance)
                      ∷ (
                        "subject",
                        arr (
                            items (
                              named "name" image.repository "sha256"
                                "0000000000000000000000000000000000000000000000000000000000000000"
                              ∷ [])),
                      )
                      ∷ (
                        "predicate",
                        obj (
                            dict (
                              (
                                "buildDefinition",
                                obj (
                                    dict (
                                      (
                                        "resolvedDependencies",
                                        arr (
                                            items (
                                              named "uri" image.source_uri "gitCommit"
                                                image.source_sha
                                              ∷ [])),
                                      )
                                      ∷ [])),
                              )
                              ∷ [])),
                      )
                      ∷ [])),
              )
              ∷ [])),
      )
      ∷ []))

abbrev evidence : Items
evidence = items (null ∷ attestation ∷ [])

program : Unit {0}
unfolding get digest_re sha_re strip_prefix has_hash names_digest any_names definition_binds
    predicate_binds statement_of statement_binds entry_binds search_entries verify_entries
    verify_attestation_payload expected_hex
program = tt

accepted : verify_attestation_payload image (arr evidence) ≡ ok tt
unfolding program
accepted = refl

verify_attestation_payload-BoundBy_example :
    (digest_re image.digest ≡ true)
    × (sha_re image.source_sha ≡ true)
    × (vs : Items) × (w : Json) × (arr evidence ≡ arr vs)
    × Among w (entries vs)
    × BoundBy image w
verify_attestation_payload-BoundBy_example =
    verify_attestation_payload-BoundBy image (arr evidence) accepted

searched : All (IsSearched image) (entries evidence)
unfolding program
searched = ((false, refl), ((true, refl), tt))

BoundBy-attestation : BoundBy image attestation
unfolding program
BoundBy-attestation = entry_binds-BoundBy image attestation refl

formats :
    (digest_re image.digest ≡ true)
    × (sha_re image.source_sha ≡ true)
    × (is_some (strip_prefix "ghcr.io/" image.repository) ≡ true)
    × (is_some (strip_prefix "git+https://github.com/" image.source_uri) ≡ true)
unfolding program
formats = (refl, refl, refl, refl)

verify_attestation_payload_complete_example :
    verify_attestation_payload image (arr evidence) ≡ ok tt
verify_attestation_payload_complete_example =
    verify_attestation_payload_complete image evidence attestation formats.0 formats.1 formats.2
      formats.3 searched (inr (inl refl)) BoundBy-attestation
