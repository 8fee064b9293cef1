-- ===== src/Staging/Crashes/Restoring.antt =====
-- scripts/staging/hermes_staging_socket_diagnostic.py: `ConfigStore.restore` and `enable` on the
-- directories that a killed process can leave.
use hermes_ops.Prelude.{
  ◌≡◌, refl, sym, ◌∙◌, String, Bool, true, false, not, ◌&&◌, Option, none, some, if◌then◌else◌,
}
use hermes_ops.Result.{ok}
use hermes_ops.Exec.{pure, lift, ◌>>=◌}
use hermes_ops.Staging.Snapshots.{
  Node, Snapshot, World, snapshot_of, same_snapshot, written, read_named,
}
use hermes_ops.Staging.Config.{
  Dir, open_dir, read_current, read_guard, read_quarantine, exchange, exchange_checked,
  quarantine_guard, discard, cleanup_guard, install, remove, replacement, put_in_place,
  place_absent, expected_mutated, bring_back, take_away, verify_and_clean, restore,
}
use hermes_ops.Staging.Crashes.Readings.{
  true-false, same_snapshot_refl, beside, read-absent, read-there, read-strict, read-nothing,
}

module _ (w : World) where
  -- What is known of a snapshot and of the file that replaces it.
  module _ (value : Snapshot) (hash : String) (new : Node) (safe : open_dir w ≡ ok tt)
      (loose : read_named w true (some new) ≡ ok (snapshot_of w new))
      (strict : read_named w false (some new) ≡ ok (snapshot_of w new))
      (changed : same_snapshot (snapshot_of w new) value ≡ false)
      (mutated : same_snapshot (snapshot_of w new) (expected_mutated w value hash) ≡ true) where
    -- The guard is set aside and removed.
    pub cleanup_guard-guarded :
        (o : Option Node)
        → cleanup_guard w (expected_mutated w value hash) (beside o (some new) none)
          ≡ (ok tt, beside o none none)
    unfolding cleanup_guard quarantine_guard discard read_guard read_quarantine ◌>>=◌ pure
    cleanup_guard-guarded o = rw (loose, read-nothing w, strict, mutated, read-nothing w) refl

    pub cleanup_guard-quarantined :
        (o : Option Node)
        → cleanup_guard w (expected_mutated w value hash) (beside o none (some new))
          ≡ (ok tt, beside o none none)
    unfolding cleanup_guard discard read_guard read_quarantine ◌>>=◌ pure
    cleanup_guard-quarantined o = rw (read-nothing w, loose, mutated, read-nothing w) refl

    pub cleanup_guard-clean :
        (o : Option Node)
        → cleanup_guard w (expected_mutated w value hash) (beside o none none)
          ≡ (ok tt, beside o none none)
    unfolding cleanup_guard discard read_guard read_quarantine ◌>>=◌ pure
    cleanup_guard-clean o = rw (read-nothing w, read-nothing w) refl

    verify_and_clean-over :
        (o g q : Option Node)
        → read_named w true o ≡ ok value
        → cleanup_guard w (expected_mutated w value hash) (beside o g q)
          ≡ (ok tt, beside o none none)
        → verify_and_clean w value hash (beside o g q) ≡ (ok tt, beside o none none)
    unfolding verify_and_clean read_current ◌>>=◌ lift
    verify_and_clean-over o g q taken cleaned = rw (taken, same_snapshot_refl value, cleaned) refl

    -- Nothing is moved where the configuration file is the snapshot.
    branch-settled :
        (b : Bool) (guard : Snapshot) (s : Dir)
        → value.existed ≡ b
        → (guard.existed && not (same_snapshot guard (expected_mutated w value hash))) ≡ false
        → (if b
              then bring_back w value (expected_mutated w value hash) value guard
              else take_away w (expected_mutated w value hash) value guard)
            s
          ≡ (ok tt, s)
    unfolding bring_back take_away pure
    branch-settled true guard s e fine = rw (same_snapshot_refl value, fine) refl
    branch-settled false guard s e fine = rw (e, fine) refl

    pub restore-settled :
        (o g q : Option Node) (guard : Snapshot)
        → read_named w true o ≡ ok value
        → read_named w true g ≡ ok guard
        → (guard.existed && not (same_snapshot guard (expected_mutated w value hash))) ≡ false
        → cleanup_guard w (expected_mutated w value hash) (beside o g q)
          ≡ (ok tt, beside o none none)
        → restore w value hash (beside o g q) ≡ (ok tt, beside o none none)
    unfolding restore read_current read_guard ◌>>=◌ lift
    restore-settled o g q guard taken read fine cleaned =
        rw
          (
            safe,
            taken,
            read,
            branch-settled value.existed guard (beside o g q) refl fine,
            verify_and_clean-over o g q taken cleaned,
          )
          refl

    -- The new file is exchanged with the old one, or taken away where there was none.
    branch-replaced :
        (o : Option Node) (b : Bool)
        → value.existed ≡ b
        → read_named w true o ≡ ok value
        → (if b
              then bring_back w value (expected_mutated w value hash) (snapshot_of w new) value
              else take_away w (expected_mutated w value hash) (snapshot_of w new) value)
            (beside (some new) o none)
          ≡ (ok tt, beside o (some new) none)
    unfolding bring_back take_away exchange exchange_checked remove read_current read_guard ◌>>=◌
        pure
    branch-replaced none true e taken = absurd (true-false (sym e ∙ read-absent w value taken))
    branch-replaced none false e taken = rw (mutated, e, read-nothing w, strict, mutated) refl
    branch-replaced (some n) true e taken =
        rw
          (
            changed,
            mutated,
            same_snapshot_refl value,
            read-strict w n value taken,
            strict,
            same_snapshot_refl value,
            mutated,
            read-strict w n value taken,
            strict,
          )
          refl
    branch-replaced (some n) false e taken =
        absurd (true-false (sym (read-there w n value taken) ∙ e))

    pub restore-replaced :
        (o : Option Node)
        → read_named w true o ≡ ok value
        → restore w value hash (beside (some new) o none) ≡ (ok tt, beside o none none)
    unfolding restore read_current read_guard ◌>>=◌ lift
    restore-replaced o taken =
        rw
          (
            safe,
            loose,
            taken,
            branch-replaced o value.existed refl taken,
            verify_and_clean-over o (some new) none taken (cleanup_guard-guarded o),
          )
          refl

  -- The two ways to put the new file in place end in the same directory.
  module _ (value : Snapshot) (content : String)
      (strict : read_named w false (some (written (replacement w value content)))
        ≡ ok (replacement w value content)) where
    placed :
        (o : Option Node) (b : Bool)
        → value.existed ≡ b
        → read_named w true o ≡ ok value
        → (if b
              then exchange_checked w value (replacement w value content)
              else place_absent w (replacement w value content))
            (beside o (some (written (replacement w value content))) none)
          ≡ (ok tt, beside (some (written (replacement w value content))) o none)
    unfolding place_absent exchange_checked exchange install read_current read_guard ◌>>=◌ pure
    placed none true e taken = absurd (true-false (sym e ∙ read-absent w value taken))
    placed none false e taken = rw (strict, same_snapshot_refl (replacement w value content)) refl
    placed (some n) true e taken =
        rw
          (
            strict,
            read-strict w n value taken,
            same_snapshot_refl (replacement w value content),
            same_snapshot_refl value,
          )
          refl
    placed (some n) false e taken = absurd (true-false (sym (read-there w n value taken) ∙ e))

    pub put_in_place-replaces :
        (o : Option Node)
        → read_named w true o ≡ ok value
        → put_in_place w value
            (replacement w value content)
            (beside o (some (written (replacement w value content))) none)
          ≡ (ok tt, beside (some (written (replacement w value content))) o none)
    unfolding put_in_place
    put_in_place-replaces o taken = placed o value.existed refl taken
