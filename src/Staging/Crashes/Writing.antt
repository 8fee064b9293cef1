-- ===== src/Staging/Crashes/Writing.antt =====
-- scripts/staging/hermes_staging_socket_diagnostic.py: a process that is killed while it writes the guard.
use hermes_ops.Prelude.{
  ℕ, zero, suc, ◌≤◌, ◌≡◌, refl, ◌⊎◌, inl, inr, Bool, true, false, ◌||◌, some, List, [], ◌∷◌, arith,
}
use hermes_ops.Result.{ok, err}
use hermes_ops.Exec.{pure, lift, ◌>>=◌, ◌>>◌}
use hermes_ops.Staging.Request.{config_error}
use hermes_ops.Staging.Snapshots.{Node, World, is_object, read_named}
use hermes_ops.Staging.Config.{
  Dir, Action, read_current, read_guard, create_guard, change_guard, guard_calls, replacement,
  enable, restore,
}
use hermes_ops.Staging.Crashes.{Swap, clean, is_clean, is_guarded}
use hermes_ops.Staging.Crashes.Readings.{same_snapshot_refl}
use hermes_ops.Staging.Crashes.Recovery.{restore-Stage}

-- The first calls of a sequence, after which the process is killed.
pub killed_after : ℕ → List (Action (Unit {0})) → Action (Unit {0})
killed_after zero calls = pure tt
killed_after (suc n) [] = pure tt
killed_after (suc n) (call ∷ calls) = do call; killed_after n calls

or_true : (b : Bool) → (b || true) ≡ true
or_true true = refl
or_true false = refl

-- A file that is still empty is refused, whoever owns it.
read_named-empty :
    (w : World) (n : Node)
    → is_object w (w.parse n.content) ≡ false
    → read_named w true (some n) ≡ err config_error
unfolding read_named
read_named-empty w n empty = rw (empty, or_true) refl

module _ {w : World} (x : Swap w) where
  -- The directory after so many calls of `_write_named`.
  abbrev pub left_after : ℕ → Dir
  left_after n = (killed_after n (guard_calls w (replacement w x.value x.content)) (clean x)).1

  -- `restore` brings the directory back.
  abbrev pub IsRestorable : Dir → Type 0
  IsRestorable s = restore w x.value (w.sha x.content) s ≡ (ok tt, clean x)

  -- Neither `restore` nor `enable` gets past the guard, and both change nothing.
  abbrev pub IsStuck : Dir → Type 0
  IsStuck s =
      (restore w x.value (w.sha x.content) s ≡ (err config_error, s))
      × (enable w x.value s ≡ (err config_error, s))

  unreadable-IsStuck :
      (n : Node)
      → is_object w (w.parse n.content) ≡ false
      → IsStuck (record (clean x) { guard = some n })
  unfolding restore enable read_current read_guard ◌>>=◌ lift
  unreadable-IsStuck n empty = (
    rw (x.safe, x.taken, read_named-empty w n empty) refl,
    rw (x.payload, x.safe, x.taken, same_snapshot_refl x.value, read_named-empty w n empty) refl,
  )

  -- Killed before the first of the four system calls that write the guard, or after the last, the
  -- diagnostic leaves a directory that `restore` brings back to what it was. Killed after one, two or
  -- three of them, it leaves one on which `restore` and `enable` both raise `ConfigError` and change
  -- nothing. No guard was there before, the one write takes the whole content, the directory is safe,
  -- both files can be read, the new one differs from the snapshot, and an empty text is no JSON object.
  pub restore-left_after :
      is_object w (w.parse "") ≡ false
      → (n : ℕ)
      → (IsRestorable (left_after n) × ((n ≡ 0) ⊎ (4 ≤ n)))
        ⊎ (IsStuck (left_after n) × (1 ≤ n) × (n ≤ 3))
  unfolding killed_after guard_calls create_guard change_guard ◌>>=◌ pure
  restore-left_after empty zero = inl (restore-Stage x is_clean, inl refl)
  restore-left_after empty (suc zero) = inr (unreadable-IsStuck _ empty, omega arith, omega arith)
  restore-left_after empty (suc (suc zero)) =
      inr (unreadable-IsStuck _ empty, omega arith, omega arith)
  restore-left_after empty (suc (suc (suc zero))) =
      inr (unreadable-IsStuck _ empty, omega arith, omega arith)
  restore-left_after empty (suc (suc (suc (suc n)))) = inl (restored n, inr (omega arith))
    where
      restored : (n : ℕ) → IsRestorable (left_after (suc (suc (suc (suc n)))))
      restored zero = restore-Stage x is_guarded
      restored (suc n) = restore-Stage x is_guarded
