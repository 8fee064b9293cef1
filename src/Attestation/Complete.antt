-- ===== src/Attestation/Complete.antt =====
-- scripts/deploy/verify_image_attestation.py: evidence that binds the image is accepted.
use hermes_ops.Prelude.{
  String, ◌≡◌, inl, inr, refl, sym, ap, subst, ◌∙◌, Bool, true, false, ◌||◌, List, [], ◌∷◌, All,
  any, is_some, strip_prefix, Bool-cases, eq_refl,
}
use hermes_ops.Result.{ok}
use hermes_ops.Json.{Json, arr, Items, entries}
use hermes_ops.Control.Formats.{digest_re, sha_re}
use hermes_ops.Attestation.{
  Expected, expected_hex, has_hash, names_digest, any_names, definition_binds, predicate_binds,
  statement_of, statement_binds, entry_binds, search_entries, verify_entries,
  verify_attestation_payload,
}
use hermes_ops.Attestation.Evidence.{Among, Names, SomeNames, BoundBy}

module _ (key text algorithm hash : String) where
  Names-names_digest :
      (v : Json) → Names key text algorithm hash v → names_digest key text algorithm hash v ≡ true
  unfolding names_digest has_hash
  Names-names_digest v n =
      rw (n.is_dict, n.has_text, n.has_digest, n.has_hash, eq_refl text, eq_refl hash) refl

  Among-any :
      (w : Json) (vs : List Json)
      → Among w vs
      → names_digest key text algorithm hash w ≡ true
      → any (names_digest key text algorithm hash) vs ≡ true
  Among-any w [] among e = absurd among
  Among-any w (v ∷ vs) (inl same) e =
      subst
        (λ u.
          (names_digest key text algorithm hash u || any (names_digest key text algorithm hash) vs)
          ≡ true)
        same (rw e refl)
  Among-any w (v ∷ vs) (inr later) e = elim (Bool-cases (names_digest key text algorithm hash v)) [
    | inl here ↦ rw here refl
    | inr elsewhere ↦ rw (elsewhere, Among-any w vs later e) refl
  ]

  SomeNames-any_names :
      (v : Json) → SomeNames key text algorithm hash v → any_names key text algorithm hash v ≡ true
  unfolding any_names
  SomeNames-any_names v (vs, w, list, among, names) =
      rw list (Among-any w (entries vs) among (Names-names_digest w names))

BoundBy-entry_binds : (x : Expected) (v : Json) → BoundBy x v → entry_binds x v ≡ ok true
unfolding entry_binds statement_of statement_binds predicate_binds definition_binds
BoundBy-entry_binds x v b =
    rw
      (
        b.is_entry,
        b.has_result,
        b.has_statement,
        b.is_provenance,
        b.has_predicate,
        b.has_definition,
        SomeNames-any_names "name" x.repository "sha256" (expected_hex x) _ b.subject,
        SomeNames-any_names "uri" x.source_uri "gitCommit" x.source_sha _ b.dependency,
      )
      refl

-- The loop gets past the entry: its "verificationResult", if it has one, is a dictionary.
abbrev pub IsSearched : Expected → Json → Type 0
IsSearched x v = (b : Bool) × (entry_binds x v ≡ ok b)

search_entries_complete :
    (x : Expected) (w : Json) (vs : List Json)
    → All (IsSearched x) vs
    → Among w vs
    → entry_binds x w ≡ ok true
    → search_entries x vs ≡ ok tt
unfolding search_entries
search_entries_complete x w [] read among e = absurd among
search_entries_complete x w (v ∷ vs) read (inl same) e = rw (sym (ap (entry_binds x) same) ∙ e) refl
search_entries_complete x w (v ∷ vs) ((true, at), read) (inr later) e = rw at refl
search_entries_complete x w (v ∷ vs) ((false, at), read) (inr later) e =
    rw (at, search_entries_complete x w vs read later e) refl

-- Evidence is accepted where the four parameters are well formed, an attestation of the list binds
-- the image to the source, and no attestation of the list has a "verificationResult" without `get`.
pub verify_attestation_payload_complete :
    (x : Expected) (vs : Items) (w : Json)
    → digest_re x.digest ≡ true
    → sha_re x.source_sha ≡ true
    → is_some (strip_prefix "ghcr.io/" x.repository) ≡ true
    → is_some (strip_prefix "git+https://github.com/" x.source_uri) ≡ true
    → All (IsSearched x) (entries vs)
    → Among w (entries vs)
    → BoundBy x w
    → verify_attestation_payload x (arr vs) ≡ ok tt
unfolding verify_attestation_payload verify_entries
verify_attestation_payload_complete x vs w digest source repository uri read among by =
    rw
      (
        digest,
        source,
        repository,
        uri,
        search_entries_complete x w (entries vs) read among (BoundBy-entry_binds x w by),
      )
      refl
