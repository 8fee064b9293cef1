-- ===== src/Staging/Crashes.antt =====
-- scripts/staging/hermes_staging_socket_diagnostic.py: the directories that `ConfigStore` leaves
-- between its moves of gateway.json, where a killed process may have stopped.
pub mod Readings
pub mod Restoring
pub mod Outcomes
pub mod Recovery
pub mod Writing
mod Tests
use hermes_ops.Prelude.{
  &&-both, Bool-cases, ◌||◌, subst, arith, ℕ, nat_eq, eq_refl, ◌≡◌, refl, sym, ap, ◌∙◌, String,
  Bool, true, false, not, ◌&&◌, Option, none, some, is_some, if◌then◌else◌, ◌⊎◌, inl, inr,
}
use hermes_ops.Result.{Result, ok, err, refuse}
use hermes_ops.Exec.{pure, raise, lift, ◌>>=◌}
use hermes_ops.Staging.Request.{Failure}
use hermes_ops.Staging.Snapshots.{
  Node, Snapshot, World, absent, snapshot_of, same_snapshot, written, read_named, enabled_payload,
  same_bool,
}
use hermes_ops.Staging.Config.{
  Dir, open_dir, read_current, read_guard, read_quarantine, exchange, exchange_checked,
  quarantine_guard, discard, cleanup_guard, write_guard, install, remove, replacement, put_in_place,
  enable, expected_mutated, bring_back, take_away, verify_and_clean, restore, matches,
}

-- The file as it was and the file that the diagnostic writes, with what the code knows of them.
pub record Swap (w : World) : Type 0 where
  pub original : Option Node
  pub value : Snapshot
  pub content : String
  pub safe : open_dir w ≡ ok tt
  pub taken : read_named w true original ≡ ok value
  pub payload : enabled_payload w value ≡ ok content
  pub readable :
      (b : Bool)
      → read_named w b (some (written (replacement w value content)))
        ≡ ok (snapshot_of w (written (replacement w value content)))
  pub changed : same_snapshot (snapshot_of w (written (replacement w value content))) value ≡ false

module _ {w : World} (x : Swap w) where
  abbrev pub new : Node
  new = written (replacement w x.value x.content)

  abbrev pub clean : Dir
  clean = record { current = x.original; guard = none; quarantine = none }

  abbrev pub guarded : Dir
  guarded = record { current = x.original; guard = some new; quarantine = none }

  abbrev pub replaced : Dir
  replaced = record { current = some new; guard = x.original; quarantine = none }

  abbrev pub quarantined : Dir
  quarantined = record { current = x.original; guard = none; quarantine = some new }

  -- The directories from which a restoration starts.
  pub data Stage : Dir → Type 0 where
    is_clean : Stage clean
    is_guarded : Stage guarded
    is_replaced : Stage replaced
    is_quarantined : Stage quarantined
