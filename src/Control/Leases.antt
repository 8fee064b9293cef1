-- ===== src/Control/Leases.antt =====
-- scripts/deploy/hermes_deployment_controller.py: the lease file of an environment.
use hermes_ops.Prelude.{
  ℕ, String, not, ◌||◌, Option, none, some, List, [], ◌∷◌, ltb, update, if◌then◌else◌,
}
use hermes_ops.Prelude.Int.{pos}
use hermes_ops.Result.{Result, ok, err}
use hermes_ops.Exec.{pure, lift, ◌>>=◌, ◌>>◌}
use hermes_ops.Json.{Json, null, int, str, obj, Fields, get_or, same_keys, is_str, is_int, dict}
use hermes_ops.Control.State.{
  Failure, validation, value_error, File, readable, unreadable, undecodable, malformed, naive,
  aware, Host, Action, now, audit, validate_environment,
}

-- The values of a lease file that has passed the schema check. Its `version` is 1.
pub record Lease : Type 0 where
  pub lease_id : Json
  pub kind : Json
  pub environment : Json
  pub owner : Json
  pub controller : Json
  pub operation : Json
  pub source_sha : Json
  pub image_digest : Json
  pub authorization : Json
  pub run_id : Json
  pub run_attempt : Json
  pub acquired_at : Json
  pub expires_at : Json

unfoldable pub lease_fields : Lease → Fields
lease_fields l = dict (
    ("version", int (pos 1))
    ∷ ("lease_id", l.lease_id)
    ∷ ("kind", l.kind)
    ∷ ("environment", l.environment)
    ∷ ("owner", l.owner)
    ∷ ("controller", l.controller)
    ∷ ("operation", l.operation)
    ∷ ("source_sha", l.source_sha)
    ∷ ("image_digest", l.image_digest)
    ∷ ("authorization", l.authorization)
    ∷ ("run_id", l.run_id)
    ∷ ("run_attempt", l.run_attempt)
    ∷ ("acquired_at", l.acquired_at)
    ∷ ("expires_at", l.expires_at)
    ∷ [])

abbrev pub required : List String
required =
    "version" ∷ "lease_id" ∷ "kind" ∷ "environment" ∷ "owner" ∷ "controller" ∷ "operation"
    ∷ "source_sha" ∷ "image_digest" ∷ "authorization" ∷ "run_id" ∷ "run_attempt" ∷ "acquired_at"
    ∷ "expires_at" ∷ []

-- The dictionary that passed the check, read field by field.
unfoldable pub lease_of : Fields → Lease
lease_of d = record {
  lease_id = get_or "lease_id" null d;
  kind = get_or "kind" null d;
  environment = get_or "environment" null d;
  owner = get_or "owner" null d;
  controller = get_or "controller" null d;
  operation = get_or "operation" null d;
  source_sha = get_or "source_sha" null d;
  image_digest = get_or "image_digest" null d;
  authorization = get_or "authorization" null d;
  run_id = get_or "run_id" null d;
  run_attempt = get_or "run_attempt" null d;
  acquired_at = get_or "acquired_at" null d;
  expires_at = get_or "expires_at" null d;
}

-- The checks of `_read_lease` on the decoded value.
unfoldable pub check_lease : String → Json → Result Failure Lease
unfolding lease_of
check_lease env (obj d) =
    if not (same_keys required d) || not (is_int (pos 1) (get_or "version" null d))
    then err (validation "invalid lease schema")
    else if not (is_str env (get_or "environment" null d))
    then err (validation "lease environment mismatch")
    else ok (lease_of d)
check_lease env _ = err (validation "invalid lease schema")

unfoldable pub check_file : String → Option File → Result Failure (Option Lease)
check_file env none = ok none
check_file env (some unreadable) = err (validation "invalid JSON state")
check_file env (some undecodable) = err value_error
check_file env (some (readable value)) = elim (check_lease env value) [
  | ok l ↦ ok (some l)
  | err e ↦ err e
]

-- `_read_lease`
unfoldable pub read_lease : String → Action (Option Lease)
unfolding check_file ◌>>=◌
read_lease env = do lift (validate_environment env); λ s. (check_file env (s.lease_at env), s)

-- `_parse_utc`
unfoldable pub parse_utc : Host → Json → Result Failure ℕ
parse_utc h (str text) = elim (h.parse text) [
  | aware t ↦ ok t
  | naive ↦ err (validation "lease timestamp must be timezone-aware")
  | malformed ↦ err (validation "invalid lease timestamp")
]
parse_utc h _ = err (validation "invalid lease timestamp")

-- `self.lease_path(environment).unlink()`
unfoldable pub unlink : String → Action (Unit {0})
unlink env s = (ok tt, record s { lease_at = update s.lease_at env none })

-- `_atomic_json(self.lease_path(environment), lease)`
unfoldable pub write_lease : String → Lease → Action (Unit {0})
write_lease env l s =
    (ok tt, record s { lease_at = update s.lease_at env (some (readable (obj (lease_fields l)))) })

module _ (h : Host) (env : String) where
  abbrev pub expired_fields : Lease → Fields
  expired_fields l = dict (
      ("environment", str env)
      ∷ ("lease_id", l.lease_id)
      ∷ ("kind", l.kind)
      ∷ ("owner", l.owner)
      ∷ [])

  -- The rest of `_expire_or_read`, once a lease was read.
  unfoldable pub expire_lease : Lease → Action (Option Lease)
  expire_lease l = do
    expires ← lift (parse_utc h l.expires_at)
    t ← now h
    if ltb t expires
        then pure (some l)
        else do audit h "lease-expired" (expired_fields l); unlink env; pure none

  -- `_expire_or_read`
  unfoldable pub expire_or_read : Action (Option Lease)
  expire_or_read = do
    found ← read_lease env
    elim found [ none ↦ pure none | some l ↦ expire_lease l ]
