-- ===== src/Staging/Executor/Restore.antt =====
-- scripts/staging/hermes_staging_socket_diagnostic.py: `_restore` of `DiagnosticExecutor`.
use hermes_ops.Prelude.{
  ℕ, zero, suc, String, Bool, true, false, Option, none, some, ◌==◌, ltb, if◌then◌else◌,
}
use hermes_ops.Result.{ok}
use hermes_ops.Exec.{pure, ◌>>=◌, ◌>>◌}
use hermes_ops.Staging.Request.{diagnostic_error}
use hermes_ops.Staging.Snapshots.{Snapshot}
use hermes_ops.Staging.Transactions.{
  restored, Transaction, transition, fail_restore, begin_restore, load_guard_name,
}
use hermes_ops.Staging.Config.{restore, matches}
use hermes_ops.Staging.Executor.{
  Outside, Act, give, fail, catch, with_tx, with_dir, look, health_status, effective, start_again,
  stop, sleep_bounded,
}
use hermes_ops.Staging.Executor.Directory.{open_transaction}
use hermes_ops.Staging.Executor.Barrier.{after_forward_transition}

-- `tx` as it is now.
unfoldable pub the_tx : Act Transaction
the_tx m = (ok m.tx, m)

unfoldable pub guard_name : Act String
unfolding give
guard_name m = give (load_guard_name m.tx) m

module _ (o : Outside) where
  -- The end of every restoration that succeeds.
  unfoldable pub settle : Act (Unit {0})
  settle = do effective o false; with_tx (λ tx. transition tx restored)

  -- The attempt that leaves the container running.
  unfoldable pub restore_settled : Snapshot → String → String → Act (Unit {0})
  unfolding settle
  restore_settled value hash guard = do with_dir guard (restore o.world value hash); settle

  -- One of the three attempts that stop the container.
  unfoldable pub restore_stopped : Snapshot → String → String → Act (Unit {0})
  unfolding settle
  restore_stopped value hash guard = do
    stop o
    with_dir guard (restore o.world value hash)
    start_again o
    settle

  -- The attempts that are left: `true` when one has succeeded.
  unfoldable pub attempts : ℕ → Snapshot → String → String → Act Bool
  unfolding catch restore_stopped
  attempts zero value hash guard = pure false
  attempts (suc n) value hash guard =
      catch (do restore_stopped value hash guard; pure true)
        λ e. do if ltb 0 n then sleep_bounded o 3 else pure tt; attempts n value hash guard

  -- The `try` that decides whether the configuration is in place: `none` for an exception.
  unfoldable pub is_settled : Snapshot → Act (Option Bool)
  unfolding catch look
  is_settled value =
      catch
        (do
          same ← look (matches o.world value)
          if same
              then (do status ← health_status o; pure (some (status == "healthy")))
              else pure (some false))
        λ e. pure none

  -- The `try` and its `else`.
  unfoldable pub settled_or_stopped : Option Bool → Snapshot → String → String → Act Bool
  unfolding catch attempts restore_settled
  settled_or_stopped none value hash guard = pure false
  settled_or_stopped (some false) value hash guard = attempts 3 value hash guard
  settled_or_stopped (some true) value hash guard = do
    done ← catch (do restore_settled value hash guard; pure true) λ e. pure false
    if done then pure true else attempts 3 value hash guard

  -- `fail_restore`, and the exception.
  unfoldable pub give_up : Act (Unit {0})
  unfolding fail
  give_up = do with_tx fail_restore; fail diagnostic_error

  unfoldable pub barrier_if : Bool → Act (Unit {0})
  barrier_if allow_crash = if allow_crash then after_forward_transition o "RESTORING" else pure tt

  -- `_restore`
  unfoldable pub restore_tx : Snapshot → String → Bool → Act (Unit {0})
  unfolding barrier_if guard_name is_settled settled_or_stopped give_up
  restore_tx value hash allow_crash = do
    with_tx begin_restore
    barrier_if allow_crash
    guard ← guard_name
    open_transaction o
    settled ← is_settled value
    done ← settled_or_stopped settled value hash guard
    if done then pure tt else give_up
