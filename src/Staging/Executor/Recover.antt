-- ===== src/Staging/Executor/Recover.antt =====
-- scripts/staging/hermes_staging_socket_diagnostic.py: `recover` of `DiagnosticExecutor`.
use hermes_ops.Prelude.{
  ℕ, suc, String, Bool, true, false, Option, none, some, List, [], ◌∷◌, ◌==◌, ltb, if◌then◌else◌,
}
use hermes_ops.Result.{Result, ok, err}
use hermes_ops.Exec.{pure, ◌>>=◌, ◌>>◌}
use hermes_ops.Staging.Request.{Failure, diagnostic_error, other_error}
use hermes_ops.Staging.Snapshots.{Snapshot, enabled_payload}
use hermes_ops.Staging.Transactions.{
  prepared, restore_failed, is_terminal, same_state, Saved, Transaction, transactions, fail_restore,
  abort_prepared, load_snapshot,
}
use hermes_ops.Staging.Executor.{Outside, Act, give, fail, catch, with_tx, start_deadline}
use hermes_ops.Staging.Executor.Lock.{open_lock}
use hermes_ops.Staging.Executor.Restore.{the_tx, restore_tx}

-- `recovered`, `aborted` and `failed`.
pub record Tally : Type 0 where
  pub recovered : ℕ
  pub aborted : ℕ
  pub failed : ℕ

abbrev pub is_diagnostic : Failure → Bool
is_diagnostic other_error = false
is_diagnostic _ = true

abbrev pub snapshot_from : Saved × String → Snapshot
snapshot_from (saved, content) = record {
  existed = saved.existed;
  content = content;
  mode = saved.mode;
  uid = saved.uid;
  gid = saved.gid;
  sha256 = saved.sha256;
}

module _ (o : Outside) where
  unfoldable pub start_recovery : Transaction → Act (Unit {0})
  start_recovery tx m = (ok tt, record m { tx = tx })

  unfoldable pub loaded_as : Result Failure (Saved × String) → Act Snapshot
  unfolding fail
  loaded_as (err e) m = fail e m
  loaded_as (ok found) m = (ok (snapshot_from found), m)

  -- `load_snapshot` of the transaction.
  unfoldable pub load : Act Snapshot
  unfolding loaded_as
  load m = loaded_as (load_snapshot o.world.sha (m.originals m.tx.path) m.tx) m

  -- The hash in the record, or that of the text that would be written.
  unfoldable pub mutated_hash : Snapshot → Option String → Act String
  mutated_hash value none = do
    content ← give (enabled_payload o.world value)
    pure (o.world.sha content)
  mutated_hash value (some hash) =
      if hash == ""
      then (do content ← give (enabled_payload o.world value); pure (o.world.sha content))
      else pure hash

  -- The `try` of `recover`.
  unfoldable pub recover_body : Act (Unit {0})
  unfolding load mutated_hash restore_tx
  recover_body = do
    value ← load
    tx ← the_tx
    hash ← mutated_hash value tx.record_of.mutated_sha256
    restore_tx o value hash false

  unfoldable pub mark_failed : Act (Unit {0})
  mark_failed = do
    tx ← the_tx
    if same_state tx.record_of.state restore_failed then pure tt else with_tx fail_restore

  -- A transaction that is neither over nor prepared: whether it was restored.
  unfoldable pub recover_active : Act Bool
  unfolding catch recover_body mark_failed
  recover_active =
      catch (do recover_body; pure true)
        λ e. if is_diagnostic e then (do mark_failed; pure false) else fail e

  unfoldable pub recover_one : Transaction → Tally → Act Tally
  unfolding recover_active start_recovery
  recover_one tx n =
      if is_terminal tx.record_of.state
      then pure n
      else if same_state tx.record_of.state prepared
      then (do
        start_recovery tx
        with_tx abort_prepared
        pure (record n { aborted = suc n.aborted }))
      else (do
        start_recovery tx
        good ← recover_active
        pure (
            if good
            then record n { recovered = suc n.recovered }
            else record n { failed = suc n.failed }))

  unfoldable pub recover_all : List Transaction → Tally → Act Tally
  unfolding recover_one
  recover_all [] n = pure n
  recover_all (tx ∷ rest) n = do more ← recover_one tx n; recover_all rest more

  unfoldable pub stored_transactions : Act (List Transaction)
  unfolding give
  stored_transactions m = give (transactions m.store) m

  -- `recover`
  unfoldable pub recover : Act Tally
  unfolding give recover_all stored_transactions
  recover = do
    start_deadline o 240
    open_lock o
    found ← stored_transactions
    n ← recover_all found (record { recovered = 0; aborted = 0; failed = 0 })
    if ltb 0 n.failed then fail diagnostic_error else pure n
