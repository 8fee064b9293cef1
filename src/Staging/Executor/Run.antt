-- ===== src/Staging/Executor/Run.antt =====
-- scripts/staging/hermes_staging_socket_diagnostic.py: `run` of `DiagnosticExecutor`.
-- The deadlines are 600 seconds, and 240 for the restoration.
use hermes_ops.Prelude.{ℕ, String, true, not, none, some, List, ◌==◌, update, if◌then◌else◌}
use hermes_ops.Result.{Result, ok, err}
use hermes_ops.Exec.{pure, ◌>>=◌, ◌>>◌}
use hermes_ops.Socket.{RequestKey, aggregate}
use hermes_ops.Staging.Request.{diagnostic_error, state_error, transaction_conflict_error, Request}
use hermes_ops.Staging.Snapshots.{Snapshot, enabled_payload}
use hermes_ops.Staging.Transactions.{
  State, prepared, armed, mutated, enabled, observing, restored, same_state, Saved, Transaction,
  holds, put, prepare, transition, abort_prepared, save_snapshot, record_mutated_hash,
}
use hermes_ops.Staging.Config.{snapshot, enable}
use hermes_ops.Staging.Executor.{
  Outside, Machine, Stop, killed, Act, give, fail, with_tx, with_dir, look, start_deadline, command,
  logs_since, effective, restart, stop, container_identity, sleep_bounded,
}
use hermes_ops.Staging.Executor.Barrier.{after_forward_transition}
use hermes_ops.Staging.Executor.Preflight.{preflight, refuse_run}
use hermes_ops.Staging.Executor.Lock.{open_lock}
use hermes_ops.Staging.Executor.Directory.{open_transaction}
use hermes_ops.Staging.Executor.Restore.{the_tx, guard_name, restore_tx}

-- The counts of `_aggregate`, or `{"replayed": True}`.
pub data Answer : Type 0 where
  counted : List (RequestKey × ℕ) → Answer
  replayed : Answer

abbrev pub Counts : Type 0
Counts = List (RequestKey × ℕ)

abbrev pub saved_of : Snapshot → Saved
saved_of value = record {
  existed = value.existed;
  mode = value.mode;
  uid = value.uid;
  gid = value.gid;
  sha256 = value.sha256;
}

module _ (o : Outside) where
  -- `_aggregate` of the log.
  unfoldable pub count_log : String → Act Counts
  unfolding give fail
  count_log raw m = elim (aggregate (o.log_lines raw)) [
    | ok counts ↦ (ok counts, m)
    | err e ↦ fail diagnostic_error m
  ]

  unfoldable pub advance : State → String → Act (Unit {0})
  advance next name = do with_tx (λ tx. transition tx next); after_forward_transition o name

  unfoldable pub same_container : String → Act (Unit {0})
  same_container known = do found ← container_identity o; refuse_run (not (found == known))

  unfoldable pub since : Act String
  since m = (ok (o.timestamp m.now), m)

  -- The body of `try` in `run`, to the change of the configuration.
  unfoldable pub mutate : Snapshot → String → String → Act (Unit {0})
  unfolding fail
  mutate value hash guard = do
    stop o
    actual ← with_dir guard (enable o.world value)
    if actual == hash then pure tt else fail state_error
    with_tx (λ tx. record_mutated_hash tx hash)
    advance mutated "MUTATED"

  -- The rest of it: the observation.
  unfoldable pub observe : Request → Act Counts
  unfolding advance same_container since count_log
  observe r = do
    observation_since ← since
    restart o
    advance enabled "ENABLED"
    effective o true
    identity ← container_identity o
    advance observing "OBSERVING"
    sleep_bounded o r.observation_seconds
    same_container identity
    stop o
    same_container identity
    raw ← command o (logs_since observation_since) 60
    same_container identity
    count_log raw

  unfoldable pub forward : Request → Snapshot → String → String → Act Counts
  unfolding mutate observe
  forward r value hash guard = do mutate value hash guard; observe r

  -- `finally`: the restoration, whose exception takes the place of the body's.
  unfoldable pub finally_restore :
      Snapshot → String → Result Stop Counts × Machine → Result Stop Counts × Machine
  unfolding start_deadline restore_tx
  finally_restore value hash (err killed, m) = (err killed, m)
  finally_restore value hash (r, m) =
      (do start_deadline o 240; restore_tx o value hash true; λ t. (r, t)) m

  unfoldable pub forward_then_restore : Request → Snapshot → String → String → Act Counts
  unfolding forward finally_restore
  forward_then_restore r value hash guard m =
      finally_restore value hash (forward r value hash guard m)

  -- `tx.record["result"] = result`, and `_write`.
  unfoldable pub write_result : Counts → Act (Unit {0})
  write_result counts m =
      let tx : Transaction = record m.tx {
        record_of = record m.tx.record_of { result = some counts };
      } in
      (ok tt, record m { tx = tx; store = put tx.path (holds tx.record_of) m.store })

  -- gateway.json.original, which `save_snapshot` writes first.
  unfoldable pub save_original : Snapshot → Act (Unit {0})
  save_original value m =
      if value.existed
      then (ok tt, record m { originals = update m.originals m.tx.path (some value.content) })
      else (ok tt, m)

  unfoldable pub check_device : Act (Unit {0})
  unfolding fail
  check_device = if o.same_device then pure tt else (do with_tx abort_prepared; fail state_error)

  -- `run`, from the snapshot on.
  unfoldable pub run_prepared : Request → Act Answer
  unfolding give look save_original check_device forward_then_restore write_result
  run_prepared r = do
    value ← look (snapshot o.world)
    save_original value
    with_tx (λ tx. save_snapshot tx (saved_of value))
    guard ← guard_name
    open_transaction o
    check_device
    advance armed "ARMED"
    content ← give (enabled_payload o.world value)
    counts ← forward_then_restore r value (o.world.sha content) guard
    write_result counts
    pure (counted counts)

  unfoldable pub run_from : Request → Transaction → Act Answer
  unfolding fail run_prepared
  run_from r tx =
      if same_state tx.record_of.state restored
      then pure (elim tx.record_of.result [ none ↦ replayed | some counts ↦ counted counts ])
      else if not (same_state tx.record_of.state prepared)
      then fail transaction_conflict_error
      else run_prepared r

  -- `run`
  unfoldable pub run : Request → Act Answer
  unfolding give preflight run_from
  run r = do
    start_deadline o 600
    open_lock o
    preflight o r
    with_tx (λ tx. prepare o.digest_of r)
    tx ← the_tx
    run_from r tx
