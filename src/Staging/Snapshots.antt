-- ===== src/Staging/Snapshots.antt =====
-- scripts/staging/hermes_staging_socket_diagnostic.py: what is read of a configuration file, and the
-- text that the diagnostic puts in its place.
use hermes_ops.Prelude.{
  ℕ, ◌*◌, String, Bool, true, false, not, ◌&&◌, ◌||◌, Option, none, some, ◌==◌, nat_eq, ltb, size,
  if◌then◌else◌,
}
use hermes_ops.Result.{Result, ok, err, ◌>>=◌}
use hermes_ops.Json.{Json, bool, obj, Fields, end, field, get_or}
use hermes_ops.Staging.Request.{Failure, config_error, other_error}

-- What `fstat` and `read` show of a file.
pub record Node : Type 0 where
  pub regular : Bool
  pub nlink : ℕ
  pub mode : ℕ
  pub uid : ℕ
  pub gid : ℕ
  pub content : String

-- `ConfigSnapshot`
pub record Snapshot : Type 0 where
  pub existed : Bool
  pub content : String
  pub mode : ℕ
  pub uid : ℕ
  pub gid : ℕ
  pub sha256 : String

-- The owner of the files, the process's own identity, the state of the data directory, SHA-256 and the
-- JSON library, whose text ends with a line feed here.
pub record World : Type 0 where
  pub expected_uid : ℕ
  pub expected_gid : ℕ
  pub euid : ℕ
  pub egid : ℕ
  pub directory_safe : Bool
  pub sha : String → String
  pub parse : String → Option Json
  pub render : Json → String

abbrev pub max_config_bytes : ℕ
max_config_bytes = 1024 * 1024

-- `left == right` for two Booleans.
abbrev pub same_bool : Bool → Bool → Bool
same_bool true b = b
same_bool false b = not b

-- `_same_snapshot`
unfoldable pub same_snapshot : Snapshot → Snapshot → Bool
same_snapshot left right =
    same_bool left.existed right.existed
    && left.sha256 == right.sha256
    && nat_eq left.mode right.mode
    && nat_eq left.uid right.uid
    && nat_eq left.gid right.gid

-- The guard as `_write_named` leaves it.
abbrev pub written : Snapshot → Node
written value = record {
  regular = true;
  nlink = 1;
  mode = value.mode;
  uid = value.uid;
  gid = value.gid;
  content = value.content;
}

-- `data[key] = value`
abbrev pub set_field : String → Json → Fields → Fields
set_field k v end = field k v end
set_field k v (field j w fs) = if j == k then field j v fs else field j w (set_field k v fs)

-- `isinstance(value, dict)`
abbrev pub dict_or : Failure → Json → Result Failure Fields
dict_or e (obj d) = ok d
dict_or e _ = err e

module _ (w : World) where
  abbrev pub absent : Snapshot
  absent = record {
    existed = false;
    content = "";
    mode = 0o600;
    uid = w.expected_uid;
    gid = w.expected_gid;
    sha256 = w.sha "";
  }

  abbrev pub snapshot_of : Node → Snapshot
  snapshot_of n = record {
    existed = true;
    content = n.content;
    mode = n.mode;
    uid = n.uid;
    gid = n.gid;
    sha256 = w.sha n.content;
  }

  -- The content is the text of a JSON object.
  abbrev pub is_object : Option Json → Bool
  is_object (some (obj d)) = true
  is_object _ = false

  -- `_read_named`
  unfoldable pub read_named : Bool → Option Node → Result Failure Snapshot
  read_named allow_absent none = if allow_absent then ok absent else err config_error
  read_named allow_absent (some n) =
      if not n.regular
        || not (nat_eq n.nlink 1)
        || ltb max_config_bytes (size n.content)
        || not (nat_eq n.uid w.expected_uid && nat_eq n.gid w.expected_gid)
        || not (is_object (w.parse n.content))
      then err config_error
      else ok (snapshot_of n)

  -- `json.loads` of a content that exists.
  unfoldable pub loaded : Snapshot → Result Failure Json
  loaded value =
      if value.existed
      then (elim (w.parse value.content) [ none ↦ err other_error | some parsed ↦ ok parsed ])
      else ok (obj end)

  -- From `setdefault("platforms", {})` on.
  unfoldable pub with_diagnostics : Json → Result Failure Json
  with_diagnostics value = do
    root ← dict_or other_error value
    platforms ← dict_or config_error (get_or "platforms" (obj end) root)
    telegram ← dict_or config_error (get_or "telegram" (obj end) platforms)
    extra ← dict_or config_error (get_or "extra" (obj end) telegram)
    ok (
        obj (
          set_field "platforms"
            (obj (
              set_field "telegram"
                (obj (
                  set_field "extra" (obj (set_field "socket_diagnostics" (bool true) extra))
                    telegram))
                platforms))
            root))

  -- `enabled_payload`
  unfoldable pub enabled_payload : Snapshot → Result Failure String
  enabled_payload value = do
    parsed ← loaded value
    changed ← with_diagnostics parsed
    ok (w.render changed)
