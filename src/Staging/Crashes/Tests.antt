-- ===== src/Staging/Crashes/Tests.antt =====
-- A configuration file that is changed by a process that is killed.
use hermes_ops.Prelude.{ℕ, ◌≤◌, false, ◌⊎◌, ◌≡◌, refl, some, size}
use hermes_ops.Json.{get}
use hermes_ops.Result.{ok}
use hermes_ops.Staging.Snapshots.{
  is_object, same_snapshot, read_named, loaded, with_diagnostics, enabled_payload,
}
use hermes_ops.Staging.Config.{open_dir, enable, restore}
use hermes_ops.Staging.Crashes.{Swap, clean, guarded, replaced, is_guarded}
use hermes_ops.Staging.Crashes.Recovery.{restore-Stage, restore-enable}
use hermes_ops.Staging.Crashes.Writing.{left_after, IsRestorable, IsStuck, restore-left_after}
use hermes_ops.Staging.Crashes.Outcomes.{IsOldOrNew, enable-current}
use hermes_ops.Staging.Tests.{world, node, original}

change : Swap world
unfolding open_dir size get read_named loaded with_diagnostics enabled_payload same_snapshot
change = record {
  original = some (node "{}");
  value = original;
  content = "{on}";
  safe = refl;
  taken = refl;
  payload = refl;
  readable = λ b. refl;
  changed = refl;
}

restore-Stage_example : restore world original "{on}" (guarded change) ≡ (ok tt, clean change)
unfolding change
restore-Stage_example = restore-Stage change is_guarded

-- The process is killed when the guard exists and is still empty.
empty-world : is_object world (world.parse "") ≡ false
empty-world = refl

restore-left_after_example :
    (IsRestorable change (left_after change 1) × ((◌≡◌ {A = ℕ} 1 0) ⊎ (4 ≤ 1)))
    ⊎ (IsStuck change (left_after change 1) × (1 ≤ 1) × (1 ≤ 3))
restore-left_after_example = restore-left_after change empty-world 1

-- The file is exchanged for the new one.
enable-current_example :
    IsOldOrNew world original (clean change) (enable world original (clean change)).1
enable-current_example = enable-current world original (clean change)

restore-enable_example :
    (enable world original (clean change) ≡ (ok "{on}", replaced change))
    × (restore world original "{on}" (replaced change) ≡ (ok tt, clean change))
unfolding change
restore-enable_example = restore-enable change
