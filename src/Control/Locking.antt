-- ===== src/Control/Locking.antt =====
-- scripts/deploy/hermes_deployment_controller.py: `_control_lock`.
use hermes_ops.Prelude.{
  ℕ, zero, suc, ◌+◌, ◌*◌, ◌/◌, ◌<◌, ◌≤◌, String, ◌≡◌, ◌≢◌, true, arith, update,
}
use hermes_ops.Result.{ok}
use hermes_ops.Exec.{◌>>=◌}
use hermes_ops.Control.State.{
  Plane, Host, Action, acquired, unfinished, wait_lock, lock_fuel, validate_environment, unlock,
  locked_run, with_lock,
}

-- The lock of the environment is taken before the deadline.
abbrev pub IsGranted : Host → String → Type 0
IsGranted h env = wait_lock h env (lock_fuel h) 0 (h.monotonic 0 + h.lock_timeout) ≡ acquired

-- For a valid environment whose lock is taken before the deadline, the body runs with the lock held,
-- and the lock is released whether the body returns or raises.
pub with_lock-IsGranted :
    {A : Type 0} (h : Host) (env : String) (body : Action A) (s : Plane)
    → validate_environment env ≡ ok tt
    → IsGranted h env
    → with_lock h env body s ≡ unlock env (body (record s { locked = update s.locked env true }))
unfolding with_lock locked_run ◌>>=◌
with_lock-IsGranted h env body s valid granted = rw (valid, locked_run, granted)

-- The clock does not run back before the first attempt has failed, and from then on its readings are
-- at least 20 milliseconds apart: the loop sleeps between them.
abbrev pub Ticks : Host → Type 0
Ticks h =
    (h.monotonic 0 ≤ h.monotonic 1)
    × ((n : ℕ) → h.monotonic (suc n) + 20 ≤ h.monotonic (suc (suc n)))

wait_lock_ends :
    (h : Host) (env : String)
    → Ticks h
    → (fuel n deadline : ℕ) → deadline < h.monotonic (suc n) + 20 * fuel
    → wait_lock h env (suc fuel) n deadline ≢ unfinished
unfolding wait_lock
wait_lock_ends h env ticks zero n deadline room = ground arith
wait_lock_ends h env ticks (suc fuel) n deadline room =
    ground (arith, ticks.1 n, wait_lock_ends h env ticks fuel (suc n) deadline)

-- Where the readings of the clock after two failed attempts are at least 20 milliseconds apart, and
-- the first of them is not before the one that sets the deadline, the wait for the lock ends within
-- `lock_timeout / 20 + 2` attempts: it gets the lock, or gives up.
pub lock_fuel_enough :
    (h : Host) (env : String)
    → Ticks h
    → wait_lock h env (lock_fuel h) 0 (h.monotonic 0 + h.lock_timeout) ≢ unfinished
lock_fuel_enough h env ticks =
    wait_lock_ends h env ticks (suc (h.lock_timeout / 20)) 0 (h.monotonic 0 + h.lock_timeout)
      (let first = ticks.0 in omega arith)
