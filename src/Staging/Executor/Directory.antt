-- ===== src/Staging/Executor/Directory.antt =====
-- scripts/staging/hermes_staging_socket_diagnostic.py: `open_transaction`, the directory of the
-- transaction. Its path is a name in the state root here, so the first test of the code holds.
use hermes_ops.Prelude.{Bool, not, ◌&&◌, Option, none, some, nat_eq, if◌then◌else◌}
use hermes_ops.Result.{Result, ok, err}
use hermes_ops.Staging.Request.{Failure, state_error}
use hermes_ops.Staging.Executor.{Outside, OwnDir, Act, give}

module _ (o : Outside) where
  unfoldable pub is_own : OwnDir → Bool
  is_own d =
      d.directory
      && not d.named_link
      && d.same_file
      && nat_eq d.uid o.world.euid
      && nat_eq d.gid o.world.egid
      && nat_eq d.mode 0o700

  unfoldable pub opened_as : Option OwnDir → Result Failure (Unit {0})
  unfolding is_own
  opened_as none = err state_error
  opened_as (some d) = if is_own d then ok tt else err state_error

  -- `open_transaction`
  unfoldable pub open_transaction : Act (Unit {0})
  unfolding opened_as give
  open_transaction m = give (opened_as (o.transaction_dir m.tx.path m.events)) m
