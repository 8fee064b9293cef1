-- ===== src/Staging/Executor/Metadata.antt =====
-- scripts/staging/hermes_staging_socket_diagnostic.py: what `_preflight` reads of the metadata files,
-- of the container's environment and of the configuration.
use Prim.Native.String.{◌++◌}
use hermes_ops.Prelude.{
  not, String, Bool, false, ◌&&◌, ◌||◌, Option, none, some, List, [], ◌∷◌, ◌==◌, nat_eq, all,
  is_some, length, lines, strip_prefix, split_once, repeats, hex, if◌then◌else◌,
}
use hermes_ops.Result.{Result, refuse, ok, err, ◌>>=◌}
use hermes_ops.Json.{Json, bool, obj, end, get_or}
use hermes_ops.Staging.Request.{Failure, diagnostic_error, config_error, other_error}
use hermes_ops.Staging.Snapshots.{Snapshot, dict_or}

-- A dictionary of texts.
abbrev pub Env : Type 0
Env = List (String × String)

unfoldable pub lookup : String → Env → Option String
lookup k [] = none
lookup k ((j, v) ∷ rest) = if j == k then some v else lookup k rest

abbrev holds_text : Option String → String → Bool
holds_text none v = false
holds_text (some u) v = u == v

-- `d == expected`, where no key is in either twice.
unfoldable pub same_env : Env → Env → Bool
unfolding lookup
same_env expected d =
    nat_eq (length d) (length expected) && all (λ p. holds_text (lookup p.0 d) p.1) expected

-- One line of a metadata file that is no comment.
unfoldable pub add_pair : Option (String × String) → Env → Result Failure Env
unfolding lookup
add_pair none d = err diagnostic_error
add_pair (some (key, value)) d =
    if is_some (lookup key d) then err diagnostic_error else ok ((key, value) ∷ d)

-- An empty line or a comment is passed over.
abbrev pub add_line : String → Env → Result Failure Env
add_line line d =
    if line == "" || is_some (strip_prefix "#" line) then ok d else add_pair (split_once "=" line) d

unfoldable pub read_env : List String → Env → Result Failure Env
unfolding add_pair strip_prefix split_once
read_env [] d = ok d
read_env (line ∷ rest) d = do more ← add_line line d; read_env rest more

-- `_exact_env`, where the file's text can be read.
unfoldable pub exact_env : Result Failure String → Result Failure Env
unfolding read_env lines
exact_env (err e) = err e
exact_env (ok raw) = read_env (lines raw) []

-- `_IMAGE`
unfoldable pub is_image : String → Bool
unfolding strip_prefix repeats
is_image s = elim (strip_prefix "ghcr.io/batumilove/hermes-agent-deploy@sha256:" s) [
  | none ↦ false
  | some digest ↦ repeats hex 64 64 digest
]

-- The lines of the container's environment that set a name.
unfoldable pub settings : String → List String → List String
unfolding strip_prefix
settings p [] = []
settings p (l ∷ ls) =
    let rest = settings p ls in if is_some (strip_prefix p l) then l ∷ rest else rest

abbrev same_lines : List String → String → Bool
same_lines (l ∷ []) v = l == v
same_lines _ v = false

unfoldable pub is_set : List String → String × String → Bool
unfolding settings
is_set env_lines (name, value) =
    same_lines (settings (name ++ "=") env_lines) (name ++ "=" ++ value)

abbrev is_true : Json → Bool
is_true (bool b) = b
is_true _ = false

-- The value that the chain of `get` finds is `True`; a value on the way that is no dictionary raises.
unfoldable pub on_disk : Json → Result Failure Bool
on_disk parsed = do
  root ← dict_or other_error parsed
  platforms ← dict_or other_error (get_or "platforms" (obj end) root)
  telegram ← dict_or other_error (get_or "telegram" (obj end) platforms)
  extra ← dict_or other_error (get_or "extra" (obj end) telegram)
  ok (is_true (get_or "socket_diagnostics" (bool false) extra))

-- `json.loads`, whose exception is no `DiagnosticError`.
abbrev parsed_or : Option Json → Result Failure Json
parsed_or none = err other_error
parsed_or (some parsed) = ok parsed

-- The end of `_preflight`: the configuration must not have the diagnostics already.
unfoldable pub not_yet : (String → Option Json) → Snapshot → Result Failure (Unit {0})
unfolding on_disk
not_yet parse value = if not value.existed then ok tt else (do
  parsed ← parsed_or (parse value.content)
  already ← on_disk parsed
  refuse already config_error)
