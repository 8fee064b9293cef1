-- ===== src/Registry/Absence.antt =====
-- scripts/deploy/resolve_ghcr_digest.py: what a result says about the registry's answer.
use hermes_ops.Prelude.{ℕ, refl, subst, String, ◌≡◌, sym, true, Option, none, some, arith, nat_eq}
use hermes_ops.Result.{ok, >>=-eq-ok, refuse-not-eq-ok, ok-injective}
use hermes_ops.Json.{Json, null, str, arr, obj, nil, cons, Fields, get, get_or}
use hermes_ops.Json.Reading.{is_str-eq, get_or-text, get_or-list}
use hermes_ops.Control.Formats.{digest_re}
use hermes_ops.Registry.{
  runtime_error, Reply, http_error, url_error, response, Query, check_query, registry_token,
  is_unknown_manifest, is_definitive, manifest_digest, resolve_manifest_digest,
}

-- What a result says about the answer to the manifest request.
pub data Answered : Reply → Option String → Type 0 where
  absent :
      (payload entry : Fields)
      → get "errors" payload ≡ some (arr (cons (obj entry) nil))
      → get "code" entry ≡ some (str "MANIFEST_UNKNOWN")
      → Answered (http_error 404 (some (obj payload))) none
  present :
      (body : Option Json) (digest : String)
      → digest_re digest ≡ true
      → Answered (response body (some digest)) (some digest)

nat_eq-404 : (code : ℕ) → nat_eq code 404 ≡ true → code ≡ 404
nat_eq-404 code e = ground arith

-- The one error of a list that is definitive.
is_unknown_manifest-one :
    (v : Json)
    → is_unknown_manifest v ≡ true
    → (entry : Fields) × (v ≡ arr (cons (obj entry) nil))
      × (get "code" entry ≡ some (str "MANIFEST_UNKNOWN"))
unfolding is_unknown_manifest
is_unknown_manifest-one (arr (cons (obj entry) nil)) e = (
  entry,
  refl,
  get_or-text "code" "MANIFEST_UNKNOWN" entry
      (is_str-eq "MANIFEST_UNKNOWN" (get_or "code" null entry) e),
)
is_unknown_manifest-one _ e = cc

is_definitive-absent :
    (body : Option Json) → is_definitive body ≡ true → Answered (http_error 404 body) none
unfolding is_definitive
is_definitive-absent (some (obj payload)) e =
    let (entry, errors, code) = is_unknown_manifest-one (get_or "errors" (arr nil) payload) e in
    absent payload entry (get_or-list "errors" (obj entry) nil payload errors) code
is_definitive-absent _ e = cc

manifest_digest-Answered :
    (reply : Reply) (result : Option String)
    → manifest_digest reply ≡ ok result
    → Answered reply result
unfolding manifest_digest
manifest_digest-Answered (response body none) result e = cc
manifest_digest-Answered url_error result e = cc
manifest_digest-Answered (response body (some digest)) result e =
    let (valid, e1) = refuse-not-eq-ok (digest_re digest) runtime_error _ e in
    subst (Answered (response body (some digest))) (ok-injective e1) (present body digest valid)
manifest_digest-Answered (http_error code body) result e =
    let (missing, e1) = refuse-not-eq-ok (nat_eq code 404) runtime_error _ e in
    let (definitive, e2) = refuse-not-eq-ok (is_definitive body) runtime_error _ e1 in
    subst (Answered (http_error code body)) (ok-injective e2) (
      subst (λ c. Answered (http_error c body) none) (sym (nat_eq-404 code missing))
        (is_definitive-absent body definitive))

-- A result is given only for a well-formed query and a registry token. A tag is said to be absent only
-- after a 404 whose body is a dictionary with a list of one error, whose code is MANIFEST_UNKNOWN, and a digest is only one that the header
-- of a successful response has, of the form of a SHA-256.
pub resolve_manifest_digest-Answered :
    (q : Query) (token_reply : Reply) (manifest_reply : String → Reply) (result : Option String)
    → resolve_manifest_digest q token_reply manifest_reply ≡ ok result
    → (check_query q ≡ ok tt)
      × (token : String) × (registry_token token_reply ≡ ok token)
      × Answered (manifest_reply token) result
unfolding resolve_manifest_digest
resolve_manifest_digest-Answered q token_reply manifest_reply result e =
    let (u, checked, e1) = >>=-eq-ok (check_query q) _ e in
    let (token, given, e2) = >>=-eq-ok (registry_token token_reply) _ e1 in
    (checked, token, given, manifest_digest-Answered (manifest_reply token) result e2)
