-- ===== src/Attestation/Evidence.antt =====
-- scripts/deploy/verify_image_attestation.py: what an accepted list of attestations contains.
use hermes_ops.Prelude.{
  &&-both, String, ◌≡◌, ◌⊎◌, inl, inr, refl, ap, ◌∙◌, true, ◌||◌, subst, List, [], ◌∷◌, any,
  is_some, strip_prefix, Bool-cases, if◌then◌else◌,
}
use hermes_ops.Result.{ok, refuse-not-eq-ok, >>=-eq-ok, ok-injective}
use hermes_ops.Json.Reading.{is_str-eq}
use hermes_ops.Json.{Json, null, str, arr, obj, Items, nil, Fields, end, get_or, entries, is_str}
use hermes_ops.Control.Formats.{digest_re, sha_re}
use hermes_ops.Attestation.{
  value_error, Expected, provenance, expected_hex, has_hash, names_digest, any_names,
  definition_binds, predicate_binds, statement_of, statement_binds, entry_binds, search_entries,
  verify_entries, verify_attestation_payload,
}

-- An element of a JSON list.
abbrev pub Among : Json → List Json → Type 0
Among v [] = ⊥
Among v (w ∷ ws) = (v ≡ w) ⊎ Among v ws

-- A dictionary with `text` under `key` and `hash` under the algorithm of its digest.
pub record Names (key text algorithm hash : String) (v : Json) : Type 0 where
  pub named : Fields
  pub digests : Fields
  pub is_dict : v ≡ obj named
  pub has_text : get_or key null named ≡ str text
  pub has_digest : get_or "digest" null named ≡ obj digests
  pub has_hash : get_or algorithm null digests ≡ str hash

has_hash-obj :
    (algorithm hash : String) (v : Json)
    → has_hash algorithm hash v ≡ true
    → (d : Fields) × (v ≡ obj d) × (get_or algorithm null d ≡ str hash)
unfolding has_hash
has_hash-obj algorithm hash (obj d) e = (d, refl, is_str-eq hash _ e)
has_hash-obj algorithm hash null e = cc
has_hash-obj algorithm hash _ e = cc

names_digest-Names :
    (key text algorithm hash : String) (v : Json)
    → names_digest key text algorithm hash v ≡ true
    → Names key text algorithm hash v
unfolding names_digest
names_digest-Names key text algorithm hash (obj d) e =
    let (t, h) = &&-both (is_str text (get_or key null d)) _ e in
    let (digests, is_digest, has) = has_hash-obj algorithm hash (get_or "digest" null d) h in
    record {
      named = d;
      digests = digests;
      is_dict = refl;
      has_text = is_str-eq text _ t;
      has_digest = is_digest;
      has_hash = has;
    }
names_digest-Names key text algorithm hash null e = cc
names_digest-Names key text algorithm hash _ e = cc

-- The value is a list, and one of its elements names the text with the digest.
abbrev pub SomeNames : String → String → String → String → Json → Type 0
SomeNames key text algorithm hash v =
    (vs : Items) × (w : Json) × (v ≡ arr vs)
    × Among w (entries vs)
    × Names key text algorithm hash w

any-Names :
    (key text algorithm hash : String) (ws : List Json)
    → any (names_digest key text algorithm hash) ws ≡ true
    → (w : Json) × Among w ws × Names key text algorithm hash w
any-Names key text algorithm hash [] e = cc
any-Names key text algorithm hash (w ∷ ws) e =
    elim (Bool-cases (names_digest key text algorithm hash w)) [
      | inl here ↦ (w, inl refl, names_digest-Names key text algorithm hash w here)
      | inr elsewhere ↦
          let (v, among, names) = any-Names key text algorithm hash ws (
            subst (λ b. (b || any (names_digest key text algorithm hash) ws) ≡ true) elsewhere e) in
          (v, inr among, names)
    ]

any_names-SomeNames :
    (key text algorithm hash : String) (v : Json)
    → any_names key text algorithm hash v ≡ true
    → SomeNames key text algorithm hash v
unfolding any_names
any_names-SomeNames key text algorithm hash (arr vs) e =
    let (w, among, names) = any-Names key text algorithm hash (entries vs) e in
    (vs, w, refl, among, names)
any_names-SomeNames key text algorithm hash null e = cc
any_names-SomeNames key text algorithm hash _ e = cc

-- A provenance statement of the entry names the image with its digest, and the source with its commit.
pub record BoundBy (x : Expected) (v : Json) : Type 0 where
  pub entry : Fields
  pub verified : Fields
  pub statement : Fields
  pub predicate : Fields
  pub definition : Fields
  pub is_entry : v ≡ obj entry
  pub has_result : get_or "verificationResult" (obj end) entry ≡ obj verified
  pub has_statement : get_or "statement" (obj end) verified ≡ obj statement
  pub is_provenance : get_or "predicateType" null statement ≡ str provenance
  pub has_predicate : get_or "predicate" (obj end) statement ≡ obj predicate
  pub has_definition : get_or "buildDefinition" (obj end) predicate ≡ obj definition
  pub subject :
      SomeNames "name" x.repository "sha256" (expected_hex x) (get_or "subject" (arr nil) statement)
  pub dependency :
      SomeNames "uri" x.source_uri "gitCommit" x.source_sha
        (get_or "resolvedDependencies" (arr nil) definition)

definition_binds-obj :
    (x : Expected) (statement : Fields) (v : Json)
    → definition_binds x statement v ≡ true
    → (d : Fields) × (v ≡ obj d)
      × SomeNames "name" x.repository "sha256"
          (expected_hex x)
          (get_or "subject" (arr nil) statement)
      × SomeNames "uri" x.source_uri "gitCommit" x.source_sha
          (get_or "resolvedDependencies" (arr nil) d)
unfolding definition_binds
definition_binds-obj x statement (obj d) e =
    let (s, r) =
      &&-both
        (any_names "name" x.repository "sha256" (expected_hex x)
          (get_or "subject" (arr nil) statement))
        _ e in
    (
      d,
      refl,
      any_names-SomeNames "name" x.repository "sha256" (expected_hex x) _ s,
      any_names-SomeNames "uri" x.source_uri "gitCommit" x.source_sha _ r,
    )
definition_binds-obj x statement null e = cc
definition_binds-obj x statement _ e = cc

predicate_binds-obj :
    (x : Expected) (statement : Fields) (v : Json)
    → predicate_binds x statement v ≡ true
    → (p : Fields) × (v ≡ obj p)
      × (definition_binds x statement (get_or "buildDefinition" (obj end) p) ≡ true)
unfolding predicate_binds
predicate_binds-obj x statement (obj p) e = (p, refl, e)
predicate_binds-obj x statement null e = cc
predicate_binds-obj x statement _ e = cc

statement_binds-obj :
    (x : Expected) (v : Json)
    → statement_binds x v ≡ true
    → (s : Fields) × (v ≡ obj s)
      × (get_or "predicateType" null s ≡ str provenance)
      × (predicate_binds x s (get_or "predicate" (obj end) s) ≡ true)
unfolding statement_binds
statement_binds-obj x (obj s) e =
    let (t, p) = &&-both (is_str provenance (get_or "predicateType" null s)) _ e in
    (s, refl, is_str-eq provenance _ t, p)
statement_binds-obj x null e = cc
statement_binds-obj x _ e = cc

statement_of-obj :
    (v statement : Json)
    → statement_of v ≡ ok statement
    → (d : Fields) × (v ≡ obj d) × (get_or "statement" (obj end) d ≡ statement)
unfolding statement_of
statement_of-obj (obj d) statement e = (d, refl, ok-injective e)
statement_of-obj null statement e = cc
statement_of-obj _ statement e = cc

pub entry_binds-BoundBy : (x : Expected) (v : Json) → entry_binds x v ≡ ok true → BoundBy x v
unfolding entry_binds
entry_binds-BoundBy x (obj entry) e =
    let (found, of, bound) =
      >>=-eq-ok (statement_of (get_or "verificationResult" (obj end) entry)) _ e in
    let (verified, has_result, inside) = statement_of-obj _ found of in
    let (s, is_s, is_provenance, binds) = statement_binds-obj x found (ok-injective bound) in
    let (p, has_predicate, defined) = predicate_binds-obj x s _ binds in
    let (d, has_definition, subject, dependency) = definition_binds-obj x s _ defined in
    record {
      entry = entry;
      verified = verified;
      statement = s;
      predicate = p;
      definition = d;
      is_entry = refl;
      has_result = has_result;
      has_statement = inside ∙ is_s;
      is_provenance = is_provenance;
      has_predicate = has_predicate;
      has_definition = has_definition;
      subject = subject;
      dependency = dependency;
    }
entry_binds-BoundBy x null e = cc
entry_binds-BoundBy x _ e = cc

search_entries-BoundBy :
    (x : Expected) (vs : List Json)
    → search_entries x vs ≡ ok tt
    → (v : Json) × Among v vs × BoundBy x v
unfolding search_entries
search_entries-BoundBy x [] e = cc
search_entries-BoundBy x (v ∷ vs) e =
    let (bound, at, next) = >>=-eq-ok (entry_binds x v) _ e in
    elim (Bool-cases bound) [
      | inl binds ↦ (v, inl refl, entry_binds-BoundBy x v (at ∙ ap ok binds))
      | inr lacks ↦
          let (w, among, by) =
            search_entries-BoundBy x vs
              (subst (λ b. (if b then ok tt else search_entries x vs) ≡ ok tt) lacks next) in
          (w, inr among, by)
    ]

verify_entries-BoundBy :
    (x : Expected) (v : Json)
    → verify_entries x v ≡ ok tt
    → (vs : Items) × (w : Json) × (v ≡ arr vs) × Among w (entries vs) × BoundBy x w
unfolding verify_entries
verify_entries-BoundBy x (arr vs) e =
    let (w, among, by) = search_entries-BoundBy x (entries vs) e in (vs, w, refl, among, by)
verify_entries-BoundBy x null e = cc
verify_entries-BoundBy x _ e = cc

-- Evidence is accepted only for a well-formed digest and commit, and only if it is a list with an
-- attestation whose provenance statement has the expected repository with the expected digest among
-- its subjects, and the expected source with the expected commit among its resolved dependencies.
pub verify_attestation_payload-BoundBy :
    (x : Expected) (evidence : Json)
    → verify_attestation_payload x evidence ≡ ok tt
    → (digest_re x.digest ≡ true)
      × (sha_re x.source_sha ≡ true)
      × (vs : Items) × (w : Json) × (evidence ≡ arr vs)
      × Among w (entries vs)
      × BoundBy x w
unfolding verify_attestation_payload
verify_attestation_payload-BoundBy x evidence e =
    let (digest, e1) = refuse-not-eq-ok (digest_re x.digest) value_error _ e in
    let (source, e2) = refuse-not-eq-ok (sha_re x.source_sha) value_error _ e1 in
    let (repository, e3) =
      refuse-not-eq-ok (is_some (strip_prefix "ghcr.io/" x.repository)) value_error _ e2 in
    let (uri, e4) =
      refuse-not-eq-ok (is_some (strip_prefix "git+https://github.com/" x.source_uri)) value_error _
        e3 in
    let (vs, w, list, among, by) = verify_entries-BoundBy x evidence e4 in
    (digest, source, vs, w, list, among, by)
