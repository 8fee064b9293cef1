-- ===== src/Staging/Executor/Barrier.antt =====
-- scripts/staging/hermes_staging_socket_diagnostic.py: `CrashBarrier`, which kills the helper after one
-- transition, once, where its operator left a token for that.
use hermes_ops.Prelude.{
  String, Bool, true, false, not, ◌||◌, Option, none, some, List, [], ◌∷◌, elem, if◌then◌else◌,
}
use hermes_ops.Prelude.Int.{eq_ℤ, pos}
use hermes_ops.Result.{Result, ok, err, ◌>>=◌}
use hermes_ops.Json.{Json, null, str, obj, Fields, get_or, same_keys, is_str, int}
use hermes_ops.Control.Formats.{hex64}
use hermes_ops.Staging.Request.{Failure, state_error, Decoded, decoded}
use hermes_ops.Staging.Transactions.{Transaction, holds, put}
use hermes_ops.Staging.Executor.{Outside, Token, Machine, Act, killed, fail}

abbrev token_keys : List String
token_keys = "version" ∷ "transaction" ∷ "target" ∷ "helper_sha256" ∷ "expected_source_sha" ∷ []

-- `_TARGETS`
abbrev targets : List String
targets = "ARMED" ∷ "MUTATED" ∷ "ENABLED" ∷ "OBSERVING" ∷ "RESTORING" ∷ []

-- The token's text, if it is an object with these keys.
unfoldable pub token_fields : Decoded → Result Failure Fields
token_fields (decoded (obj d)) = if same_keys token_keys d then ok d else err state_error
token_fields _ = err state_error

-- A text that passes a test.
abbrev text_ok : (String → Bool) → Json → Bool
text_ok test (str s) = test s
text_ok test _ = false

-- `type(value) is int and value == 1`
abbrev is_one : Json → Bool
is_one (int n) = eq_ℤ n (pos 1)
is_one _ = false

module _ (o : Outside) where
  -- The token is bound to the transaction, the commit and the helper.
  unfoldable pub is_bound : Transaction → Fields → Result Failure Bool
  is_bound tx d =
      if not (is_one (get_or "version" null d))
        || not (text_ok (λ t. elem t targets) (get_or "target" null d))
        || not (is_str tx.path (get_or "transaction" null d))
        || not (is_str tx.record_of.expected_source_sha (get_or "expected_source_sha" null d))
        || not (text_ok hex64 (get_or "helper_sha256" null d))
      then ok false
      else (do helper ← o.helper_sha256; ok (is_str helper (get_or "helper_sha256" null d)))

  -- The token is removed, the record is written, and the process ends.
  abbrev pub consumed : Machine → Machine
  consumed m = record m { token = none; store = put m.tx.path (holds m.tx.record_of) m.store }

  unfoldable pub strike : String → Fields → Bool → Act (Unit {0})
  unfolding fail
  strike state_name d false m = fail state_error m
  strike state_name d true m =
      if is_str state_name (get_or "target" null d) then (err killed, consumed m) else (ok tt, m)

  unfoldable pub check_token : String → Result Failure (Fields × Bool) → Act (Unit {0})
  unfolding fail strike
  check_token state_name (err e) m = fail e m
  check_token state_name (ok (d, bound)) m = strike state_name d bound m

  unfoldable pub read_token : Transaction → Token → Result Failure (Fields × Bool)
  unfolding token_fields is_bound
  read_token tx t =
      if not t.is_safe
      then err state_error
      else (do d ← token_fields t.text; bound ← is_bound tx d; ok (d, bound))

  unfoldable pub after_token : String → Option Token → Act (Unit {0})
  unfolding check_token read_token
  after_token state_name none m = (ok tt, m)
  after_token state_name (some t) m = check_token state_name (read_token m.tx t) m

  -- `_after_forward_transition`, and `after_transition` where there is a barrier.
  unfoldable pub after_forward_transition : String → Act (Unit {0})
  unfolding after_token
  after_forward_transition state_name m =
      if o.has_barrier then after_token state_name m.token m else (ok tt, m)
