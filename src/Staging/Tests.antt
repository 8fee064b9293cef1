-- ===== src/Staging/Tests.antt =====
-- A transaction, and a configuration file that is changed and restored.
use hermes_ops.Prelude.{
  strip_prefix, ◌≤◌, ◌≡◌, refl, String, true, false, none, some, [], ◌==◌, size, arith,
  if◌then◌else◌,
}
use hermes_ops.Result.{ok, err}
use hermes_ops.Exec.{pure, raise, lift, ◌>>=◌}
use hermes_ops.Json.{obj, end, get}
use hermes_ops.Staging.Request.{Request, config_drift_error}
use hermes_ops.Control.Formats.{hex64}
use hermes_ops.Staging.Transactions.{
  Transaction, fresh_record, prefix, guard_of, guard_name_re, digits_then_swap, load_guard_name,
  prepare,
}
use hermes_ops.Staging.Counting.{active}
use hermes_ops.Staging.Active.{prepares, Step-active}
use hermes_ops.Staging.Snapshots.{
  Node, Snapshot, World, same_snapshot, read_named, enabled_payload, loaded, with_diagnostics,
}
use hermes_ops.Staging.Config.{
  Dir, open_dir, read_current, read_guard, read_quarantine, expected_mutated, exchange,
  exchange_checked, quarantine_guard, discard, cleanup_guard, create_guard, change_guard,
  guard_calls, in_order, write_guard, install, remove, place_absent, put_in_place, enable,
  bring_back, take_away, verify_and_clean, restore,
}
use hermes_ops.Staging.Restoration.{restore-exact}
use hermes_ops.Staging.Refusals.{restore-drift, enable-refuses}

abbrev pub request : Request
request = record {
  expected_source_sha = "0123456789abcdef0123456789abcdef01234567";
  observation_seconds = 60;
  run_id = "17";
  run_attempt = "1";
  nonce = "abcdefghijklmnop";
}

Step-active_example : active (prepare (λ r. r.nonce) request []).1 ≤ 1
Step-active_example =
    Step-active (λ r. r.nonce) [] (prepare (λ r. r.nonce) request []).1 (prepares request)
      (unfold active in omega arith)

-- A text is its own hash here.
abbrev pub world : World
world = record {
  expected_uid = 1001;
  expected_gid = 1001;
  euid = 0;
  egid = 0;
  directory_safe = true;
  sha = λ s. s;
  parse = λ s. if s == "" then none else some (obj end);
  render = λ j. "{on}";
}

abbrev pub node : String → Node
node content = record {
  regular = true;
  nlink = 1;
  mode = 0o600;
  uid = 1001;
  gid = 1001;
  content = content;
}

abbrev pub original : Snapshot
original = record {
  existed = true;
  content = "{}";
  mode = 0o600;
  uid = 1001;
  gid = 1001;
  sha256 = "{}";
}

abbrev clean : Dir
clean = record { current = some (node "{}"); guard = none; quarantine = none }

program : Unit {0}
unfolding get size same_snapshot read_named enabled_payload loaded with_diagnostics open_dir
    read_current read_guard read_quarantine exchange exchange_checked quarantine_guard discard
    cleanup_guard create_guard change_guard guard_calls in_order write_guard install remove
    place_absent put_in_place enable bring_back take_away verify_and_clean restore pure raise lift
    ◌>>=◌
program = tt

abbrev enabled : Dir
enabled = record { current = some (node "{on}"); guard = some (node "{}"); quarantine = none }

test_enable : enable world original clean ≡ (ok "{on}", enabled)
unfolding program
test_enable = refl

test_restore : restore world original "{on}" enabled ≡ (ok tt, clean)
unfolding program
test_restore = refl

restore-exact_example :
    (found : Snapshot) × (read_named world true clean.current ≡ ok found)
    × (same_snapshot found original ≡ true)
restore-exact_example = restore-exact world original "{on}" enabled clean test_restore

abbrev drifted : Dir
drifted = record { current = some (node "{other}"); guard = some (node "{}"); quarantine = none }

abbrev seen : String → Snapshot
seen content = record {
  existed = true;
  content = content;
  mode = 0o600;
  uid = 1001;
  gid = 1001;
  sha256 = content;
}

safe : open_dir world ≡ ok tt
unfolding program
safe = refl

readings :
    (read_named world true drifted.current ≡ ok (seen "{other}"))
    × (read_named world true drifted.guard ≡ ok (seen "{}"))
    × (same_snapshot (seen "{other}") original ≡ false)
    × (same_snapshot (seen "{other}") (expected_mutated world original "{on}") ≡ false)
    × (enabled_payload world original ≡ ok "{on}")
unfolding program
readings = (refl, refl, refl, refl, refl)

restore-drift_example : restore world original "{on}" drifted ≡ (err config_drift_error, drifted)
restore-drift_example =
    restore-drift world original drifted "{on}" (seen "{other}") (seen "{}") safe readings.0
      readings.1 refl readings.2 readings.3

enable-refuses_example : enable world original drifted ≡ (err config_drift_error, drifted)
unfolding same_snapshot
enable-refuses_example =
    enable-refuses world original drifted "{on}" (seen "{other}") (seen "{}") readings.4 safe
      readings.0 readings.1 refl

abbrev pub request_hash : String
request_hash = "0123456789abcdef0123456789abcdef0123456789abcdef0123456789abcdef"

abbrev guard_name : String
guard_name = ".gateway.json.tx-0123456789abcdef0123456789abcdef.swap"

abbrev saved_transaction : Transaction
saved_transaction = record {
  path = "17-1-abcdefghijklmnop";
  record_of = record (fresh_record request request_hash) { config_guard = some guard_name };
}

named : guard_of request_hash ≡ some guard_name
unfolding guard_of prefix hex64 size
named = refl

test_load : load_guard_name saved_transaction ≡ ok guard_name
unfolding load_guard_name guard_name_re digits_then_swap strip_prefix
test_load = refl
