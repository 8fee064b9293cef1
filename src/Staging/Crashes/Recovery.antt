-- ===== src/Staging/Crashes/Recovery.antt =====
-- scripts/staging/hermes_staging_socket_diagnostic.py: what a later `ConfigStore.restore` makes of
-- a directory that a killed process left.
use hermes_ops.Prelude.{eq_refl, ◌≡◌, refl, ap, true, false, not, none, some}
use hermes_ops.Result.{ok}
use hermes_ops.Exec.{pure, lift, ◌>>=◌}
use hermes_ops.Staging.Snapshots.{World, absent, snapshot_of, same_snapshot}
use hermes_ops.Staging.Config.{
  Dir, read_current, read_guard, replacement, enable, expected_mutated, restore,
}
use hermes_ops.Staging.Crashes.{
  Swap, new, clean, replaced, Stage, is_clean, is_guarded, is_replaced, is_quarantined,
}
use hermes_ops.Staging.Crashes.Readings.{same_snapshot_refl, nat_eq_refl, read-nothing}
use hermes_ops.Staging.Crashes.Restoring.{
  cleanup_guard-guarded, cleanup_guard-quarantined, cleanup_guard-clean, restore-settled,
  restore-replaced, put_in_place-replaces,
}
use hermes_ops.Staging.Crashes.Outcomes.{write_guard-absent}

module _ {w : World} (x : Swap w) where
  mutated-new :
      same_snapshot (snapshot_of w (new x)) (expected_mutated w x.value (w.sha x.content)) ≡ true
  unfolding same_snapshot
  mutated-new =
      rw
        (
          eq_refl (w.sha x.content),
          nat_eq_refl x.value.mode,
          nat_eq_refl x.value.uid,
          nat_eq_refl x.value.gid,
        )
        refl

  -- `restore` brings the directory back to what it was, gateway.json as the original file or absent as
  -- it was and no guard left, from each of four directories: that one itself; with the complete new
  -- file as the guard; with the new file in place and the original, if there was one, as the guard; and
  -- with the new file as the quarantined guard. The directory is safe, both files can be read, and the
  -- new one differs from the snapshot.
  pub restore-Stage :
      {s : Dir} → Stage x s → restore w x.value (w.sha x.content) s ≡ (ok tt, clean x)
  restore-Stage is_clean =
      restore-settled w x.value (w.sha x.content) (new x) x.safe (x.readable true)
        (x.readable false) x.changed mutated-new x.original none none (absent w) x.taken
        (read-nothing w) refl
        (cleanup_guard-clean w x.value (w.sha x.content) (new x) x.safe (x.readable true)
          (x.readable false) x.changed mutated-new x.original)
  restore-Stage is_guarded =
      restore-settled w x.value (w.sha x.content) (new x) x.safe (x.readable true)
        (x.readable false) x.changed mutated-new x.original (some (new x)) none
        (snapshot_of w (new x)) x.taken (x.readable true) (ap not mutated-new)
        (cleanup_guard-guarded w x.value (w.sha x.content) (new x) x.safe (x.readable true)
          (x.readable false) x.changed mutated-new x.original)
  restore-Stage is_replaced =
      restore-replaced w x.value (w.sha x.content) (new x) x.safe (x.readable true)
        (x.readable false) x.changed mutated-new x.original x.taken
  restore-Stage is_quarantined =
      restore-settled w x.value (w.sha x.content) (new x) x.safe (x.readable true)
        (x.readable false) x.changed mutated-new x.original none (some (new x)) (absent w) x.taken
        (read-nothing w) refl
        (cleanup_guard-quarantined w x.value (w.sha x.content) (new x) x.safe (x.readable true)
          (x.readable false) x.changed mutated-new x.original)

  -- On a clean directory, whose file is the snapshot, `enable` returns the hash of the new text and
  -- leaves the new file with the original beside it as the guard; `restore` with that hash undoes it
  -- exactly. The directory is safe, both files can be read, and the new one differs from the snapshot.
  pub restore-enable :
      (enable w x.value (clean x) ≡ (ok (w.sha x.content), replaced x))
      × (restore w x.value (w.sha x.content) (replaced x) ≡ (ok tt, clean x))
  unfolding enable read_current read_guard ◌>>=◌ lift pure
  restore-enable = (
    rw
        (
          x.payload,
          x.safe,
          x.taken,
          same_snapshot_refl x.value,
          read-nothing w,
          write_guard-absent w (replacement w x.value x.content) (clean x) refl,
          put_in_place-replaces w x.value x.content (x.readable false) x.original x.taken,
        )
        refl,
    restore-Stage is_replaced,
  )
