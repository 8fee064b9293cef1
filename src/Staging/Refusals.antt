-- ===== src/Staging/Refusals.antt =====
-- scripts/staging/hermes_staging_socket_diagnostic.py: when `ConfigStore.restore` and `enable` refuse,
-- and that they then change nothing.
use hermes_ops.Prelude.{
  ◌≡◌, refl, inl, inr, String, Bool, true, false, not, ◌||◌, Bool-cases, if◌then◌else◌,
}
use hermes_ops.Result.{ok, err}
use hermes_ops.Exec.{raise, lift, ◌>>=◌}
use hermes_ops.Staging.Request.{config_drift_error}
use hermes_ops.Staging.Snapshots.{Snapshot, World, same_snapshot, read_named, enabled_payload}
use hermes_ops.Staging.Config.{
  Dir, open_dir, read_current, read_guard, expected_mutated, bring_back, take_away, enable, restore,
}

neither : (a b : Bool) → a ≡ true → b ≡ false → (not a || b) ≡ true → ⊥
neither true true e f g = cc
neither true false e f g = cc
neither false b e f g = cc

module _ (w : World) (value : Snapshot) (s : Dir) where
  branch-drift :
      (hash : String) (current guard : Snapshot) (b : Bool)
      → current.existed ≡ true
      → same_snapshot current value ≡ false
      → same_snapshot current (expected_mutated w value hash) ≡ false
      → (if b
            then bring_back w value (expected_mutated w value hash) current guard
            else take_away w (expected_mutated w value hash) current guard)
          s
        ≡ (err config_drift_error, s)
  unfolding bring_back take_away raise
  branch-drift hash current guard true there other unknown = rw (other, unknown) refl
  branch-drift hash current guard false there other unknown = rw (unknown, there) refl

  -- In a safe directory, a restoration refuses a configuration file that is there, can be read and is
  -- neither the snapshot nor the file that the diagnostic wrote. It changes nothing, whatever the
  -- guard is, if this can be read.
  pub restore-drift :
      (hash : String) (current guard : Snapshot)
      → open_dir w ≡ ok tt
      → read_named w true s.current ≡ ok current
      → read_named w true s.guard ≡ ok guard
      → current.existed ≡ true
      → same_snapshot current value ≡ false
      → same_snapshot current (expected_mutated w value hash) ≡ false
      → restore w value hash s ≡ (err config_drift_error, s)
  unfolding restore read_current read_guard ◌>>=◌ lift
  restore-drift hash current guard safe here beside there other unknown =
      rw (safe, here, beside, branch-drift hash current guard value.existed there other unknown)
        refl

  -- The diagnostic is not enabled, and nothing is changed, where the configuration file is not the
  -- snapshot that was taken, or where a readable guard is there already; the directory is safe and the
  -- new text can be made.
  pub enable-refuses :
      (content : String) (current guard : Snapshot)
      → enabled_payload w value ≡ ok content
      → open_dir w ≡ ok tt
      → read_named w true s.current ≡ ok current
      → read_named w true s.guard ≡ ok guard
      → (not (same_snapshot current value) || guard.existed) ≡ true
      → enable w value s ≡ (err config_drift_error, s)
  unfolding enable read_current read_guard ◌>>=◌ lift
  enable-refuses content current guard payload safe here beside bad =
      elim (Bool-cases (same_snapshot current value)) [
        | inr other ↦ rw (payload, safe, here, other) refl
        | inl same ↦ elim (Bool-cases guard.existed) [
          | inl blocked ↦ rw (payload, safe, here, same, beside, blocked) refl
          | inr free ↦ absurd (neither (same_snapshot current value) guard.existed same free bad)
        ]
      ]
