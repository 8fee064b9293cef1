-- ===== src/Staging/Request.antt =====
-- scripts/staging/hermes_staging_socket_diagnostic.py: the exceptions, who may call the helper, and
-- what a request is.
use hermes_ops.Prelude.{
  ℕ, String, Bool, not, ◌&&◌, ◌||◌, Option, none, some, List, [], ◌∷◌, ◌==◌, nat_eq, is_some,
  repeats, head_then, digit, nonzero_digit, alnum, hex, if◌then◌else◌,
}
use hermes_ops.Prelude.Int.{pos}
use hermes_ops.Result.{Result, ok, err, ◌>>=◌}
use hermes_ops.Json.{Json, null, int, str, obj, Fields, get_or, same_keys}

-- The subclasses of `DiagnosticError`, the class itself, and what is none of them.
pub data Failure : Type 0 where
  diagnostic_error request_error authorization_error config_error config_drift_error state_error
        transaction_conflict_error command_error other_error :
      Failure

-- `exit_code`, and 1 for every other exception.
unfoldable pub exit_code : Failure → ℕ
exit_code request_error = 64
exit_code authorization_error = 77
exit_code _ = 1

abbrev pub nonce_char : ℕ → Bool
nonce_char c = alnum c || nat_eq c 95 || nat_eq c 45

unfoldable pub sha : String → Bool
unfolding repeats
sha = repeats hex 40 40

-- `_DECIMAL`
unfoldable pub decimal : String → Bool
unfolding head_then
decimal s = s == "0" || head_then nonzero_digit digit 0 19 s

unfoldable pub nonce_re : String → Bool
unfolding repeats
nonce_re = repeats nonce_char 16 64

pub record Request : Type 0 where
  pub expected_source_sha : String
  pub observation_seconds : ℕ
  pub run_id : String
  pub run_attempt : String
  pub nonce : String

-- `type(duration) is int`, and one of the three values.
unfoldable pub duration : Json → Result Failure ℕ
duration (int (pos n)) =
    if nat_eq n 60 || nat_eq n 90 || nat_eq n 120 then ok n else err request_error
duration _ = err request_error

-- A string that passes a test.
unfoldable pub text_that : (String → Bool) → Json → Result Failure String
text_that test (str s) = if test s then ok s else err request_error
text_that test _ = err request_error

abbrev pub request_keys : List String
request_keys =
    "expected_source_sha" ∷ "observation_seconds" ∷ "run_id" ∷ "run_attempt" ∷ "nonce" ∷ []

unfoldable pub request_of : Fields → Result Failure Request
unfolding sha decimal nonce_re duration text_that
request_of d = do
  expected_source_sha ← text_that sha (get_or "expected_source_sha" null d)
  observation_seconds ← duration (get_or "observation_seconds" null d)
  run_id ← text_that (λ s. decimal s && not (s == "0")) (get_or "run_id" null d)
  run_attempt ← text_that (λ s. decimal s && not (s == "0")) (get_or "run_attempt" null d)
  nonce ← text_that nonce_re (get_or "nonce" null d)
  ok (record {
    expected_source_sha = expected_source_sha;
    observation_seconds = observation_seconds;
    run_id = run_id;
    run_attempt = run_attempt;
    nonce = nonce;
  })

-- What `raw_decode` makes of the bytes, if they are text without a duplicate key and nothing but
-- white space follows the value.
pub data Decoded : Type 0 where
  oversized not_utf8 duplicate_key not_json trailing_data : Decoded
  decoded : Json → Decoded

-- `parse_request`
unfoldable pub parse_request : Decoded → Result Failure Request
unfolding request_of
parse_request (decoded (obj d)) =
    if same_keys request_keys d then request_of d else err request_error
parse_request _ = err request_error

pub data Mode : Type 0 where
  recovery observation : Mode

-- `parse_cli`, with the value of SUDO_UID.
unfoldable pub parse_cli : List String → Option String → ℕ → Result Failure Mode
parse_cli [] sudo_uid euid = ok observation
parse_cli (argument ∷ []) sudo_uid euid =
    if not (argument == "--recover")
    then err request_error
    else if not (nat_eq euid 0) || is_some sudo_uid
    then err authorization_error
    else ok recovery
parse_cli (a ∷ b ∷ rest) sudo_uid euid = err request_error

-- `authorize_caller`
unfoldable pub authorize_caller : Option String → ℕ → Result Failure (Unit {0})
authorize_caller none euid = err authorization_error
authorize_caller (some uid) euid =
    if not (nat_eq euid 0) || not (uid == "1002") then err authorization_error else ok tt
