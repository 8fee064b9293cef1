-- ===== src/Acceptance.antt =====
-- scripts/deploy/verify_running_stack.py: the acceptance of a deployed gateway.
pub mod Inspection
pub mod Evidence
mod Tests
use Prim.Native.String.{◌++◌}
use hermes_ops.Prelude.{
  ℕ, String, Bool, true, false, not, ◌&&◌, ◌||◌, Option, none, some, List, [], ◌∷◌, ◌==◌, nat_eq,
  elem, leb, size, lower, digit, head_then, lines, split_once, strip_prefix, is_some, if◌then◌else◌,
}
use hermes_ops.Prelude.Int.{ℤ, pos}
use hermes_ops.Result.{Result, ok, err, refuse, ◌>>=◌, ◌>>◌}
use hermes_ops.Json.{
  Json, null, bool, int, float, str, arr, obj, Items, nil, cons, Fields, end, field, get, get_or,
  entries, is_str,
}
use hermes_ops.Control.Formats.{image_repository, digest_re, sha_re}
use hermes_ops.Gate.{truthy}

-- `AcceptanceError`, and an exception that is not caught.
pub data Rejection : Type 0 where
  acceptance_error attribute_error : Rejection

-- What the deployment must be.
pub record Release : Type 0 where
  pub environment : String
  pub image : String
  pub digest : String
  pub source_sha : String

-- A dictionary of texts, in the order of its keys.
abbrev pub Env : Type 0
Env = List (String × String)

unfoldable pub lookup : String → Env → Option String
lookup k [] = none
lookup k ((j, v) ∷ rest) = if j == k then some v else lookup k rest

abbrev pub alnum_dash : ℕ → Bool
alnum_dash c = lower c || digit c || nat_eq c 45

-- `_ENVIRONMENT`
unfoldable pub environment_re : String → Bool
unfolding head_then
environment_re = head_then lower alnum_dash 1 31

-- The loop of `_exact_env`, with the dictionary so far.
unfoldable pub exact_lines : List String → Env → Result Rejection Env
unfolding lookup split_once
exact_lines [] found = ok found
exact_lines (line ∷ rest) found = elim (split_once "=" line) [
  | none ↦ err acceptance_error
  | some (key, value) ↦
      if key == "" || is_some (lookup key found)
      then err acceptance_error
      else exact_lines rest ((key, value) ∷ found)
]

-- `_exact_env`
unfoldable pub exact_env : Option String → Result Rejection Env
unfolding exact_lines lines
exact_env none = err acceptance_error
exact_env (some text) = exact_lines (lines text) []

-- `f"{image}@{digest}"`
abbrev pub reference : Release → String
reference r = r.image ++ "@" ++ r.digest

abbrev pub expected_env : Release → Env
expected_env r =
    ("HERMES_IMAGE", reference r)
    ∷ ("HERMES_DEPLOY_ENV", r.environment)
    ∷ ("HERMES_SOURCE_SHA", r.source_sha)
    ∷ []

abbrev pub has_value : String → String → Env → Bool
has_value k v env = elim (lookup k env) [ none ↦ false | some found ↦ found == v ]

-- `actual != expected`: the keys of `actual` are distinct.
unfoldable pub same_env : Release → Env → Bool
unfolding lookup
same_env r env =
    has_value "HERMES_IMAGE" (reference r) env
    && has_value "HERMES_DEPLOY_ENV" r.environment env
    && has_value "HERMES_SOURCE_SHA" r.source_sha env
    && nat_eq (hermes_ops.Prelude.length env) 3

-- `verify_release_env`
unfoldable pub verify_release_env : Option String → Release → Result Rejection Env
unfolding same_env exact_env
verify_release_env text r = do
  actual ← exact_env text
  refuse (not (same_env r actual)) acceptance_error
  ok actual

abbrev pub is_runtime_key : String → Bool
is_runtime_key key = key == "HERMES_SOURCE_SHA" || key == "HERMES_DEPLOY_ENV"

-- An entry of the container's environment.
unfoldable pub runtime_entry : String → Env → Result Rejection Env
unfolding lookup split_once
runtime_entry text found = elim (split_once "=" text) [
  | none ↦ ok found
  | some (key, value) ↦
      if not (is_runtime_key key)
      then ok found
      else if is_some (lookup key found)
      then err acceptance_error
      else ok ((key, value) ∷ found)
]

unfoldable pub runtime_entries : List Json → Env → Result Rejection Env
unfolding runtime_entry
runtime_entries [] found = ok found
runtime_entries (str text ∷ rest) found =
    runtime_entry text found >>= λ next. runtime_entries rest next
runtime_entries (_ ∷ rest) found = runtime_entries rest found

-- `_runtime_env`
unfoldable pub runtime_env : Json → Result Rejection Env
unfolding runtime_entries
runtime_env (arr values) = runtime_entries (entries values) []
runtime_env _ = err acceptance_error

-- `value[key]`: a `KeyError`, or the `TypeError` of a value that is no dictionary.
unfoldable pub index : String → Json → Result Rejection Json
index key (obj d) = elim (get key d) [ none ↦ err acceptance_error | some v ↦ ok v ]
index key _ = err acceptance_error

-- `config.get("Labels") or {}`, and then `labels.get(key)`.
unfoldable pub label : String → Json → Result Rejection Json
unfolding truthy
label key (obj config) =
    let labels = get_or "Labels" null config in
    if not (truthy labels)
    then ok null
    else (elim labels [ obj d ↦ ok (get_or key null d) | _ ↦ err attribute_error ])
label key _ = err attribute_error

-- `running is not True`
abbrev pub is_true : Json → Bool
is_true (bool b) = b
is_true _ = false

-- An integer that is no Boolean, and 0.
abbrev pub is_zero : Json → Bool
is_zero (int (pos n)) = nat_eq n 0
is_zero _ = false

abbrev pub is_positive : Json → Bool
is_positive (int (pos n)) = leb 1 n
is_positive _ = false

abbrev pub is_text : Json → Bool
is_text (str s) = not (s == "")
is_text _ = false

-- What `verify_inspect` reads in its `try`.
pub record Inspected : Type 0 where
  pub image : Json
  pub config : Json
  pub env : Env
  pub running : Json
  pub health : Json
  pub restart_count : Json
  pub pid : Json
  pub started_at : Json

-- The `try` of `verify_inspect`; the labels are read below it.
unfoldable pub inspected : Json → Result Rejection Inspected
unfolding index runtime_env
inspected value = do
  config ← index "Config" value
  state ← index "State" value
  image ← index "Image" config
  env_value ← index "Env" config
  env ← runtime_env env_value
  running ← index "Running" state
  health_value ← index "Health" state
  health ← index "Status" health_value
  restart_count ← index "RestartCount" value
  pid ← index "Pid" state
  started_at ← index "StartedAt" state
  ok (record {
    image = image;
    config = config;
    env = env;
    running = running;
    health = health;
    restart_count = restart_count;
    pid = pid;
    started_at = started_at;
  })

-- The checks of `verify_inspect`, of which each raises the same exception.
unfoldable pub is_accepted : Release → Inspected → Bool
is_accepted r i =
    has_value "HERMES_SOURCE_SHA" r.source_sha i.env
    && has_value "HERMES_DEPLOY_ENV" r.environment i.env
    && is_true i.running
    && is_str "healthy" i.health
    && is_zero i.restart_count
    && is_positive i.pid
    && is_text i.started_at

-- `verify_inspect`
unfoldable pub verify_inspect : Json → Release → Result Rejection Inspected
unfolding inspected is_accepted label
verify_inspect value r = do
  i ← inspected value
  refuse (not (is_str (reference r) i.image)) acceptance_error
  revision ← label "org.opencontainers.image.revision" i.config
  refuse (not (is_str r.source_sha revision)) acceptance_error
  refuse (not (is_accepted r i)) acceptance_error
  ok i

-- What the machine answers: the root after `resolve`, release.env in it, `docker inspect`, and the
-- output of `s6-svstat` without white space around it.
pub record Machine : Type 0 where
  pub absolute : Bool
  pub resolved : Option String
  pub release_env : Option String
  pub inspect : Option Json
  pub supervisor : Option String

-- The list that `docker inspect` prints, with its only element.
unfoldable pub only_object : Option Json → Result Rejection Json
only_object (some (arr (cons (obj d) nil))) = ok (obj d)
only_object _ = err acceptance_error

unfoldable pub resolved_root : Option String → Result Rejection (Unit {0})
resolved_root none = err acceptance_error
resolved_root (some root) = refuse (root == "/") acceptance_error

unfoldable pub supervised : Option String → Result Rejection String
unfolding strip_prefix
supervised none = err acceptance_error
supervised (some text) = do
  refuse (not (is_some (strip_prefix "up " text))) acceptance_error
  ok text

-- `accept_running_stack`
unfoldable pub accept_running_stack : Release → Machine → Result Rejection (Inspected × String)
unfolding verify_release_env verify_inspect only_object
accept_running_stack r m = do
  refuse (not (environment_re r.environment)) acceptance_error
  refuse (not (r.image == image_repository)) acceptance_error
  refuse (not (digest_re r.digest)) acceptance_error
  refuse (not (sha_re r.source_sha)) acceptance_error
  refuse (not m.absolute) acceptance_error
  resolved_root m.resolved
  verify_release_env m.release_env r
  value ← only_object m.inspect
  i ← verify_inspect value r
  supervisor ← supervised m.supervisor
  ok (i, supervisor)
