-- ===== src/Staging/Executor/Tests.antt =====
-- A run of the diagnostic on one host, a run that is killed after the change, and the recovery.
use Prim.Native.String.{◌++◌}
use hermes_ops.Prelude.{
  ℕ, ◌+◌, ◌*◌, ◌≤◌, ◌≡◌, refl, String, true, false, none, some, List, [], ◌∷◌, ◌==◌, arith,
  if◌then◌else◌,
}
use hermes_ops.Result.{Result, ok, err}
use hermes_ops.Staging.Request.{Failure, decoded}
use hermes_ops.Json.{str, obj, dict, int}
use hermes_ops.Prelude.Int.{pos}
use hermes_ops.Staging.Snapshots.{
  same_snapshot, read_named, loaded, with_diagnostics, enabled_payload,
}
use hermes_ops.Staging.Config.{
  open_dir, read_current, read_guard, read_quarantine, snapshot, exchange, exchange_checked,
  quarantine_guard, discard, cleanup_guard, create_guard, change_guard, write_guard, install,
  remove, place_absent, put_in_place, enable, bring_back, take_away, verify_and_clean, restore,
  matches,
}
use hermes_ops.Staging.Transactions.{
  observing, find, put, read_entry, write, transactions, replay, create, create_from, prepare_at,
  prepare, set_state, transition_to, transition, fail_restore, begin_restore_from, begin_restore,
  abort_prepared, prefix, guard_of, save_snapshot, record_mutated_hash, digits_then_swap,
  guard_name_re, load_guard_name, load_snapshot, Transaction, Record, fresh_record, restored, holds,
  is_terminal,
}
use hermes_ops.Staging.Executor.{
  give, fail, catch_with, catch, stored, with_tx, with_dir, look, start_deadline, remaining, issue,
  command, sleep, health_status, poll, wait_healthy, effective, restart, start_again, stop,
  ends_in_z, identity_ok, container_identity, sleep_bounded, Outside, Machine, Command, Token,
  killed, inspect_env, inspect_image, inspect_mount, inspect_health, inspect_identity,
  check_effective,
}
use hermes_ops.Staging.Executor.Lock.{
  is_lock, flock, held_until, acquire, wait_for_lock, lock_it, open_lock,
}
use hermes_ops.Staging.Executor.Barrier.{
  token_fields, is_bound, strike, check_token, read_token, after_token, after_forward_transition,
}
use hermes_ops.Staging.Executor.Metadata.{
  lookup, same_env, add_pair, read_env, exact_env, is_image, settings, is_set, on_disk, not_yet,
}
use hermes_ops.Staging.Executor.Preflight.{
  release_env, release_image, runtime_env, container_env, check_host, check_container, preflight,
}
use hermes_ops.Staging.Executor.Directory.{is_own, opened_as, open_transaction}
use hermes_ops.Staging.Executor.Restore.{
  the_tx, guard_name, settle, restore_settled, restore_stopped, attempts, is_settled,
  settled_or_stopped, give_up, barrier_if, restore_tx,
}
use hermes_ops.Staging.Executor.Run.{
  count_log, advance, same_container, since, mutate, observe, forward, finally_restore,
  forward_then_restore, write_result, save_original, check_device, run_prepared, run_from, run,
  counted,
}
use hermes_ops.Staging.Executor.Recover.{
  start_recovery, loaded_as, load, mutated_hash, recover_body, mark_failed, recover_active,
  recover_one, recover_all, stored_transactions, recover,
}
use hermes_ops.Json.{get, keys, same_keys}
use hermes_ops.Exec.{pure, raise, lift, ◌>>=◌}
use hermes_ops.Prelude.{
  size, every, contains, strip_prefix, repeats, head_then, lines, split_once, lstrip, rstrip, strip,
}
use hermes_ops.Socket.{
  Kind, request_started, response_created, response_closed, Port, port, no_port, given, Line, event,
  RequestKey, bump, balance, set_balance, request_event, port_effect, numbered_event, port_event,
  take_event, take_lines, check_tally, aggregate,
}
use hermes_ops.Control.Formats.{
  sha_re, hex64, digest_re, env_re, identity_re, run_id_re, attempt_re, lease_id_re, reason_re,
}
use hermes_ops.Staging.Tests.{world, node, original, request, request_hash}
use hermes_ops.Staging.Executor.Settled.{IsRestored}
use hermes_ops.Staging.Executor.Restored.{restore_tx-IsRestored}
use hermes_ops.Staging.Executor.Recovered.{recover-is_terminal}
use hermes_ops.Staging.Executor.Observed.{IsAsBefore, run-IsAsBefore}
use hermes_ops.Staging.Executor.Deadlines.{remaining-bounds, wait_healthy-poll}

abbrev response : Kind → Port → Line
response k p = event (record {
  kind = k;
  owner = "general";
  route = "primary";
  route_ok = true;
  request_id = given "3";
  local_port = p;
})

abbrev log : List Line
log =
    response request_started no_port
    ∷ response response_created (port "41000" 41000)
    ∷ response response_closed (port "41000" 41000)
    ∷ []

abbrev counts : List (RequestKey × ℕ)
counts =
    (("general", "primary", "request-started"), 1)
    ∷ (("general", "primary", "response-created"), 1)
    ∷ (("general", "primary", "response-closed"), 1)
    ∷ []

abbrev image : String
image =
    "ghcr.io/batumilove/hermes-agent-deploy@sha256:0123456789abcdef0123456789abcdef0123456789abcdef0123456789abcdef"

abbrev answer_to : Command → String
answer_to inspect_env =
    "HERMES_SOURCE_SHA=0123456789abcdef0123456789abcdef01234567\nHERMES_DEPLOY_ENV=batumi-staging\nHERMES_HOME=/opt/data\n"
answer_to inspect_image = image
answer_to inspect_mount = "/data"
answer_to inspect_health = "healthy"
answer_to inspect_identity = request_hash ++ " 2026-01-01T00:00:00Z"
answer_to (check_effective true) = "true"
answer_to (check_effective false) = "false"
answer_to _ = ""

abbrev file_of : String → Result Failure String
file_of name =
    if name == "release.env"
    then ok (
        "HERMES_IMAGE=" ++ image
        ++ "\n# the release\nHERMES_DEPLOY_ENV=batumi-staging\nHERMES_SOURCE_SHA=0123456789abcdef0123456789abcdef01234567\n")
    else ok "HERMES_DATA_DIR=/data\nHERMES_UID=1001\nHERMES_GID=1001\n"

abbrev host : Outside
host = record {
  world = world;
  digest_of = λ r. request_hash;
  runner = λ n c timeout. ok (answer_to c);
  lag = λ n. 5;
  lock_file = some (record { regular = true; nlink = 1; uid = 0; mode = 0o660; same_file = true });
  lock_uid = 0;
  busy = λ n. false;
  lock_kept = true;
  transaction_dir = λ path events. some (record {
    directory = true;
    named_link = false;
    same_file = true;
    uid = 0;
    gid = 0;
    mode = 0o700;
  });
  hostname = "hermes-staging-01";
  metadata = file_of;
  data_root = "/data";
  text_of = λ n. "1001";
  same_device = true;
  has_barrier = true;
  helper_sha256 = ok request_hash;
  log_lines = λ raw. log;
  timestamp = λ n. "2026-01-01T00:00:00.000000Z";
}

abbrev idle : Transaction
idle = record { path = ""; record_of = fresh_record request "" }

abbrev at_rest : Machine
at_rest = record {
  store = [];
  current = some (node "{}");
  guards = λ name. none;
  quarantines = λ path. none;
  originals = λ path. none;
  token = none;
  tx = idle;
  deadline = 0;
  now = 1000;
  events = 0;
}

everything : Unit {0}
unfolding is_lock flock held_until acquire wait_for_lock lock_it open_lock same_snapshot read_named
    loaded with_diagnostics enabled_payload open_dir read_current read_guard read_quarantine
    snapshot exchange exchange_checked quarantine_guard discard cleanup_guard create_guard
    change_guard write_guard install remove place_absent put_in_place enable bring_back take_away
    verify_and_clean restore matches find put read_entry write transactions replay create
    create_from prepare_at prepare set_state transition_to transition fail_restore
    begin_restore_from begin_restore abort_prepared prefix guard_of save_snapshot
    record_mutated_hash digits_then_swap guard_name_re load_guard_name load_snapshot give fail
    catch_with catch stored with_tx with_dir look start_deadline remaining issue command sleep
    health_status poll wait_healthy effective restart start_again stop ends_in_z identity_ok
    container_identity sleep_bounded token_fields is_bound strike check_token read_token after_token
    after_forward_transition lookup same_env add_pair read_env exact_env is_image settings is_set
    on_disk not_yet release_env release_image runtime_env container_env check_host check_container
    preflight the_tx guard_name is_own opened_as open_transaction settle restore_settled
    restore_stopped attempts is_settled settled_or_stopped give_up barrier_if restore_tx count_log
    advance same_container since mutate observe forward finally_restore forward_then_restore
    write_result save_original check_device run_prepared run_from run start_recovery loaded_as load
    mutated_hash recover_body mark_failed recover_active recover_one recover_all stored_transactions
    recover get keys same_keys pure raise lift ◌>>=◌ size every contains strip_prefix repeats
    head_then lines split_once lstrip rstrip strip bump balance set_balance request_event
    port_effect numbered_event port_event take_event take_lines check_tally aggregate sha_re hex64
    digest_re env_re identity_re run_id_re attempt_re lease_id_re reason_re
everything = tt

abbrev ended : Machine
ended = (run host request at_rest).1

run_ends : run host request at_rest ≡ (ok (counted counts), ended)
unfolding everything
run_ends = refl

-- gateway.json is back, and its guard is gone.
ends_clean : ended.current ≡ some (node "{}")
unfolding everything
ends_clean = refl

run-IsAsBefore_example : IsAsBefore host at_rest ended
run-IsAsBefore_example = run-IsAsBefore host request (counted counts) at_rest ended run_ends

-- The operator's token that kills the helper after the change.
abbrev token : Token
token = record {
  is_safe = true;
  text = decoded (
      obj (
        dict (
          ("version", int (pos 1))
          ∷ ("transaction", str "17-1-abcdefghijklmnop")
          ∷ ("target", str "MUTATED")
          ∷ ("helper_sha256", str request_hash)
          ∷ ("expected_source_sha", str "0123456789abcdef0123456789abcdef01234567")
          ∷ [])));
}

abbrev interrupted : Machine
interrupted = (run host request (record at_rest { token = some token })).1

test_killed : (run host request (record at_rest { token = some token })).0 ≡ err killed
unfolding everything
test_killed = refl

test_changed : interrupted.current ≡ some (node "{on}")
unfolding everything
test_changed = refl

-- The restoration alone, of a configuration that was changed.
abbrev observed : Transaction
observed = record {
  path = "17-1-abcdefghijklmnop";
  record_of = record (fresh_record request request_hash) {
    state = observing;
    config_guard = some ".gateway.json.tx-0123456789abcdef0123456789abcdef.swap";
  };
}

abbrev changed : Machine
changed = record at_rest {
  store = (observed.path, holds observed.record_of) ∷ [];
  current = some (node "{on}");
  guards = λ name.
      if name == ".gateway.json.tx-0123456789abcdef0123456789abcdef.swap"
      then some (node "{}")
      else none;
  tx = observed;
  deadline = 240000;
}

abbrev restored_machine : Machine
restored_machine = (restore_tx host original "{on}" false changed).1

restores : restore_tx host original "{on}" false changed ≡ (ok tt, restored_machine)
unfolding everything
restores = refl

restore_tx-IsRestored_example : IsRestored host original restored_machine
restore_tx-IsRestored_example =
    restore_tx-IsRestored host original "{on}" false changed restored_machine restores

fits : remaining host 241000 1000 15 ≡ ok 15
unfolding remaining
fits = refl

remaining-bounds_example : (1 ≤ 15) × (15 ≤ 15) × (1000 + 15 * 1000 ≤ 241000)
remaining-bounds_example = remaining-bounds host 241000 1000 15 15 fits (omega arith)

wait_healthy-poll_example : wait_healthy host changed ≡ poll host 61 121000 changed
wait_healthy-poll_example = wait_healthy-poll host 60 changed (omega arith)

-- What a killed run left: the original file is saved.
abbrev observed_record : Record
observed_record = record observed.record_of {
  snapshot = some (record { existed = true; mode = 0o600; uid = 1001; gid = 1001; sha256 = "{}" });
}

abbrev left_behind : Machine
left_behind = record changed {
  store = (observed.path, holds observed_record) ∷ [];
  originals = λ path. some "{}";
}

abbrev recovered : Machine
recovered = (recover host left_behind).1

recovery :
    recover host left_behind ≡ (ok (record { recovered = 1; aborted = 0; failed = 0 }), recovered)
unfolding everything
recovery = refl

found :
    find observed.path recovered.store ≡ some (holds (record observed_record { state = restored }))
unfolding everything
found = refl

recover-is_terminal_example : is_terminal restored ≡ true
recover-is_terminal_example =
    recover-is_terminal host left_behind recovered
      (record { recovered = 1; aborted = 0; failed = 0 }) observed.path
      (record observed_record { state = restored }) recovery found
