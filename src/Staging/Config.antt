-- ===== src/Staging/Config.antt =====
-- scripts/staging/hermes_staging_socket_diagnostic.py: `ConfigStore`, which replaces gateway.json
-- and puts it back by way of a guard file beside it. No other process acts between two steps here.
use hermes_ops.Prelude.{
  List, [], ◌∷◌, String, Bool, true, false, not, ◌&&◌, ◌||◌, Option, none, some, is_some,
  if◌then◌else◌,
}
use hermes_ops.Result.{Result, ok, err, refuse}
use hermes_ops.Exec.{Exec, pure, raise, lift, ◌>>=◌, ◌>>◌}
use hermes_ops.Staging.Request.{Failure, config_error, config_drift_error, other_error}
use hermes_ops.Staging.Snapshots.{Node, Snapshot, World, same_snapshot, read_named, enabled_payload}

-- gateway.json and the guard in the data directory, and the guard in the transaction's directory.
pub record Dir : Type 0 where
  pub current : Option Node
  pub guard : Option Node
  pub quarantine : Option Node

abbrev pub Action : Type 0 → Type 0
Action A = Exec Dir Failure A

module _ (w : World) where
  -- `_open_dir`
  unfoldable pub open_dir : Result Failure (Unit {0})
  open_dir = if w.directory_safe then ok tt else err config_error

  unfoldable pub read_current : Bool → Action Snapshot
  read_current allow_absent s = (read_named w allow_absent s.current, s)

  unfoldable pub read_guard : Bool → Action Snapshot
  read_guard allow_absent s = (read_named w allow_absent s.guard, s)

  unfoldable pub read_quarantine : Bool → Action Snapshot
  read_quarantine allow_absent s = (read_named w allow_absent s.quarantine, s)

  -- `snapshot`
  unfoldable pub snapshot : Action Snapshot
  snapshot = do lift open_dir; read_current true

  -- `_rename_exchange` of the guard and gateway.json: both must be there.
  unfoldable pub exchange : Action (Unit {0})
  exchange s =
      if is_some s.current && is_some s.guard
      then (ok tt, record s { current = s.guard; guard = s.current })
      else (err other_error, s)

  -- An `OSError` is passed over.
  abbrev pub try_exchange : Dir → Dir
  try_exchange s = (exchange s).1

  -- `_exchange_checked`
  unfoldable pub exchange_checked : Snapshot → Snapshot → Action (Unit {0})
  exchange_checked expected_current expected_guard = do
    exchange
    current ← read_current false
    guard ← read_guard false
    if same_snapshot current expected_guard && same_snapshot guard expected_current
        then pure tt
        else λ s. (err config_drift_error, try_exchange s)

  -- `_rename_noreplace` of the guard to the transaction's directory: nothing may be there.
  unfoldable pub quarantine_guard : Action (Unit {0})
  quarantine_guard s =
      if is_some s.quarantine
      then (err config_drift_error, s)
      else (ok tt, record s { quarantine = s.guard; guard = none })

  -- The way back, where an `OSError` is passed over.
  abbrev pub unquarantine : Dir → Dir
  unquarantine s =
      if is_some s.guard then s else record s { guard = s.quarantine; quarantine = none }

  -- `_cleanup_guard`, from the check of what is quarantined on.
  unfoldable pub discard : Snapshot → Snapshot → Action (Unit {0})
  discard quarantined expected =
      if not quarantined.existed
      then pure tt
      else if not (same_snapshot quarantined expected)
      then (λ s. (err config_drift_error, unquarantine s))
      else do
        λ s. (ok tt, record s { quarantine = none })
        late ← read_guard true
        if late.existed then raise config_drift_error else pure tt

  -- `_cleanup_guard`
  unfoldable pub cleanup_guard : Snapshot → Action (Unit {0})
  cleanup_guard expected = do
    in_data ← read_guard true
    quarantined ← read_quarantine true
    if in_data.existed && quarantined.existed
        then raise config_drift_error
        else if in_data.existed
        then (do quarantine_guard; taken ← read_quarantine false; discard taken expected)
        else discard quarantined expected

  -- `os.open` of the guard, which must be absent: an empty file of the process.
  unfoldable pub create_guard : Action (Unit {0})
  create_guard s = if is_some s.guard then (err other_error, s) else (
    ok tt,
    record s {
      guard = some (record {
        regular = true;
        nlink = 1;
        mode = 0o600;
        uid = w.euid;
        gid = w.egid;
        content = "";
      });
    },
  )

  -- `fchown`, `fchmod` or `write` on the guard's descriptor.
  unfoldable pub change_guard : (Node → Node) → Action (Unit {0})
  change_guard f s = elim s.guard [
    | none ↦ (err other_error, s)
    | some n ↦ (ok tt, record s { guard = some (f n) })
  ]

  -- The system calls of `_write_named` for the guard.
  unfoldable pub guard_calls : Snapshot → List (Action (Unit {0}))
  guard_calls value =
      create_guard
      ∷ change_guard (λ n. record n { uid = value.uid; gid = value.gid })
      ∷ change_guard (λ n. record n { mode = value.mode })
      ∷ change_guard (λ n. record n { content = value.content })
      ∷ []

  unfoldable pub in_order : List (Action (Unit {0})) → Action (Unit {0})
  in_order [] = pure tt
  in_order (call ∷ calls) = do call; in_order calls

  -- `_write_named` of the guard.
  unfoldable pub write_guard : Snapshot → Action (Unit {0})
  unfolding in_order guard_calls
  write_guard value = in_order (guard_calls value)

  -- `_rename_noreplace` of the guard to gateway.json.
  unfoldable pub install : Action (Unit {0})
  install s =
      if is_some s.current || not (is_some s.guard)
      then (err config_drift_error, s)
      else (ok tt, record s { current = s.guard; guard = none })

  -- `_rename_noreplace` of gateway.json to the guard.
  unfoldable pub remove : Action (Unit {0})
  remove s =
      if is_some s.guard || not (is_some s.current)
      then (err config_drift_error, s)
      else (ok tt, record s { current = none; guard = s.current })

  abbrev pub replacement : Snapshot → String → Snapshot
  replacement value content = record {
    existed = true;
    content = content;
    mode = value.mode;
    uid = value.uid;
    gid = value.gid;
    sha256 = w.sha content;
  }

  -- The new file is moved to where none was.
  unfoldable pub place_absent : Snapshot → Action (Unit {0})
  place_absent new = do
    install
    installed ← read_current false
    if same_snapshot installed new then pure tt else raise config_drift_error

  -- The two ways to put the new file in place.
  unfoldable pub put_in_place : Snapshot → Snapshot → Action (Unit {0})
  put_in_place value new = if value.existed then exchange_checked value new else place_absent new

  -- `enable`
  unfoldable pub enable : Snapshot → Action String
  enable value = do
    content ← lift (enabled_payload w value)
    lift open_dir
    current ← read_current true
    lift (refuse (not (same_snapshot current value)) config_drift_error)
    guard ← read_guard true
    lift (refuse guard.existed config_drift_error)
    write_guard (replacement value content)
    put_in_place value (replacement value content)
    pure (w.sha content)

  abbrev pub expected_mutated : Snapshot → String → Snapshot
  expected_mutated value hash = record {
    existed = true;
    content = "";
    mode = value.mode;
    uid = value.uid;
    gid = value.gid;
    sha256 = hash;
  }

  -- The part of `restore` for a configuration file that was there.
  unfoldable pub bring_back : Snapshot → Snapshot → Snapshot → Snapshot → Action (Unit {0})
  bring_back value mutated current guard =
      if same_snapshot current value
      then (if guard.existed && not (same_snapshot guard mutated)
          then raise config_drift_error
          else pure tt)
      else if same_snapshot current mutated && same_snapshot guard value
      then (do exchange_checked mutated value; read_current false; read_guard false; pure tt)
      else raise config_drift_error

  -- The part of `restore` for one that was not.
  unfoldable pub take_away : Snapshot → Snapshot → Snapshot → Action (Unit {0})
  take_away mutated current guard =
      if not current.existed
      then (if guard.existed && not (same_snapshot guard mutated)
          then raise config_drift_error
          else pure tt)
      else if same_snapshot current mutated && not guard.existed
      then (do
        remove
        left ← read_current true
        taken ← read_guard false
        if left.existed || not (same_snapshot taken mutated)
            then raise config_drift_error
            else pure tt)
      else raise config_drift_error

  -- The end of `restore`: the check, and the cleanup.
  unfoldable pub verify_and_clean : Snapshot → String → Action (Unit {0})
  verify_and_clean value hash = do
    restored ← read_current true
    lift (refuse (not (same_snapshot restored value)) config_drift_error)
    cleanup_guard (expected_mutated value hash)

  -- `restore`
  unfoldable pub restore : Snapshot → String → Action (Unit {0})
  restore value hash = do
    lift open_dir
    current ← read_current true
    guard ← read_guard true
    if value.existed
        then bring_back value (expected_mutated value hash) current guard
        else take_away (expected_mutated value hash) current guard
    verify_and_clean value hash

  -- `matches`
  unfoldable pub matches : Snapshot → Action Bool
  matches value = do lift open_dir; current ← read_current true; pure (same_snapshot current value)
