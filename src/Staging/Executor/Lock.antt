-- ===== src/Staging/Executor/Lock.antt =====
-- scripts/staging/hermes_staging_socket_diagnostic.py: `_open_lock`, the deployment lock.
use hermes_ops.Prelude.{
  ℕ, zero, suc, ◌+◌, Bool, not, ◌&&◌, Option, none, some, nat_eq, leb, if◌then◌else◌,
}
use hermes_ops.Result.{ok}
use hermes_ops.Exec.{pure, ◌>>=◌, ◌>>◌}
use hermes_ops.Staging.Request.{diagnostic_error}
use hermes_ops.Staging.Executor.{Outside, LockFile, Act, fail, passed, sleep}

module _ (o : Outside) where
  unfoldable pub is_lock : LockFile → Bool
  is_lock f =
      f.regular && nat_eq f.nlink 1 && nat_eq f.uid o.lock_uid && nat_eq f.mode 0o660 && f.same_file

  -- One `flock`, whose answer is known when it returns.
  unfoldable pub flock : Act Bool
  flock m = (ok (o.busy m.events), passed o 0 m)

  -- After an attempt that found the lock held.
  unfoldable pub held_until : ℕ → Act (Unit {0}) → Act (Unit {0})
  unfolding fail sleep
  held_until until again m =
      if leb until m.now then fail diagnostic_error m else (sleep o 50 >>= λ _. again) m

  -- The loop, for so many attempts at most.
  unfoldable pub acquire : ℕ → ℕ → Act (Unit {0})
  unfolding flock held_until
  acquire zero until = fail diagnostic_error
  acquire (suc n) until = do
    held ← flock
    if held then held_until until (acquire n until) else pure tt

  -- `LOCK_WAIT_SECONDS`: 1200 sleeps of 50 milliseconds fill the 60 seconds.
  unfoldable pub wait_for_lock : Act (Unit {0})
  unfolding acquire
  wait_for_lock m =
      acquire 1201 (if leb m.deadline (m.now + 60000) then m.deadline else m.now + 60000) m

  unfoldable pub lock_it : Option LockFile → Act (Unit {0})
  unfolding wait_for_lock is_lock
  lock_it none = fail diagnostic_error
  lock_it (some f) =
      if not (is_lock f)
      then fail diagnostic_error
      else (do wait_for_lock; if o.lock_kept then pure tt else fail diagnostic_error)

  -- `_open_lock`
  unfoldable pub open_lock : Act (Unit {0})
  unfolding lock_it
  open_lock = lock_it o.lock_file
