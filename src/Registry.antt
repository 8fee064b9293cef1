-- ===== src/Registry.antt =====
-- scripts/deploy/resolve_ghcr_digest.py: the digest of an image tag, or its definite absence.
pub mod Absence
mod Tests
use Prim.Native.String.{◌++◌}
use hermes_ops.Prelude.{
  ℕ, ◌+◌, String, Bool, true, false, not, ◌&&◌, ◌||◌, Option, none, some, List, [], ◌∷◌, ◌==◌,
  nat_eq, ltb, alnum, head_then, is_some, strip_prefix, length, split, if◌then◌else◌,
}
use hermes_ops.Result.{Result, ok, err, refuse, ◌>>=◌, ◌>>◌}
use hermes_ops.Json.{Json, null, str, arr, obj, Items, nil, cons, Fields, get_or, is_str}
use hermes_ops.Control.Formats.{digest_re}
use hermes_ops.Gate.{truthy}

-- `ValueError`, `RuntimeError`, and the `AttributeError` of a payload that is no dictionary.
pub data Refusal : Type 0 where
  value_error runtime_error attribute_error : Refusal

-- What `_open` meets: an HTTP status with the JSON value of its body, if it is one, another network
-- error, or a response with such a body and the header of the digest, if it has one.
pub data Reply : Type 0 where
  http_error : ℕ → Option Json → Reply
  url_error : Reply
  response : Option Json → Option String → Reply

abbrev pub word_char : ℕ → Bool
word_char c = alnum c || nat_eq c 95

abbrev pub tag_char : ℕ → Bool
tag_char c = word_char c || nat_eq c 46 || nat_eq c 45

-- `_TAG`
unfoldable pub tag_re : String → Bool
unfolding head_then
tag_re = head_then word_char tag_char 0 127

-- What `resolve_manifest_digest` is called with.
pub record Query : Type 0 where
  pub repository : String
  pub reference : String
  pub username : String
  pub password : String

-- The three checks of the arguments. A text with two slashes splits into three parts.
unfoldable pub check_query : Query → Result Refusal (Unit {0})
unfolding tag_re strip_prefix split
check_query q = do
  refuse
      (not (is_some (strip_prefix "ghcr.io/" q.repository))
        || ltb (length (split "/" q.repository)) 3)
      value_error
  refuse (not (tag_re q.reference)) value_error
  refuse (q.username == "" || q.password == "") value_error

-- `token_payload.get("token") or token_payload.get("access_token")`
abbrev pub token_value : Fields → Json
token_value d =
    if truthy (get_or "token" null d) then get_or "token" null d else get_or "access_token" null d

-- The registry token, which is a text that is not empty.
unfoldable pub token_of : Json → Result Refusal String
token_of (str token) = if token == "" then err runtime_error else ok token
token_of _ = err runtime_error

unfoldable pub registry_token : Reply → Result Refusal String
unfolding truthy token_of
registry_token (response (some (obj d)) header) = token_of (token_value d)
registry_token (response (some _) header) = err attribute_error
registry_token (response none header) = err runtime_error
registry_token (http_error code body) = err runtime_error
registry_token url_error = err runtime_error

-- The list of errors has one entry, a dictionary with the code of an unknown manifest.
unfoldable pub is_unknown_manifest : Json → Bool
is_unknown_manifest (arr (cons (obj entry) nil)) =
    is_str "MANIFEST_UNKNOWN" (get_or "code" null entry)
is_unknown_manifest _ = false

-- The body of a 404.
unfoldable pub is_definitive : Option Json → Bool
unfolding is_unknown_manifest
is_definitive (some (obj payload)) = is_unknown_manifest (get_or "errors" (arr nil) payload)
is_definitive _ = false

-- From the manifest request on.
unfoldable pub manifest_digest : Reply → Result Refusal (Option String)
manifest_digest (response body none) = err runtime_error
manifest_digest (response body (some digest)) = do
  refuse (not (digest_re digest)) runtime_error
  ok (some digest)
manifest_digest url_error = err runtime_error
manifest_digest (http_error code body) = do
  refuse (not (nat_eq code 404)) runtime_error
  refuse (not (is_definitive body)) runtime_error
  ok none

-- `resolve_manifest_digest`, where the registry's answer to a token is a parameter.
unfoldable pub resolve_manifest_digest :
    Query → Reply → (String → Reply) → Result Refusal (Option String)
resolve_manifest_digest q token_reply manifest_reply = do
  check_query q
  token ← registry_token token_reply
  manifest_digest (manifest_reply token)

-- The text that `write_github_output` writes.
unfoldable pub github_output : Option String → String
github_output none = "exists=false\ndigest=\n"
github_output (some digest) =
    if digest == "" then "exists=false\ndigest=\n" else "exists=true\ndigest=" ++ digest ++ "\n"
