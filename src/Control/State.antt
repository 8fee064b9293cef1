-- ===== src/Control/State.antt =====
-- scripts/deploy/hermes_deployment_controller.py: what the controller keeps on disk, what the
-- machine gives it, its exceptions, the audit log and the lock.
use hermes_ops.Prelude.{
  ℕ, zero, suc, ◌+◌, ◌/◌, String, Bool, true, false, Option, List, [], ◌∷◌, ◌++◌, leb, update,
  if◌then◌else◌,
}
use hermes_ops.Prelude.Int.{ℤ}
use hermes_ops.Result.{Result, ok, err}
use hermes_ops.Exec.{Exec, lift, ◌>>=◌, ◌>>◌}
use hermes_ops.Json.{Json, Fields}
use hermes_ops.Control.Formats.{env_re}

-- The exception classes. An `OSError` stands for what the program does not catch.
pub data Failure : Type 0 where
  validation lease_conflict artifact_violation permission : String → Failure
  runner_timeout value_error os_error lock_unfinished : Failure

-- A JSON file: the value that its text decodes to, a file that cannot be read or whose text is no
-- JSON, or one on which reading or decoding raises a `ValueError` of another class: bytes that are
-- not UTF-8, or an integer of too many digits.
pub data File : Type 0 where
  readable : Json → File
  unreadable undecodable : File

-- `datetime.fromisoformat`: microseconds since the epoch, in UTC.
pub data Timestamp : Type 0 where
  malformed naive : Timestamp
  aware : ℕ → Timestamp

-- One line of audit.jsonl.
pub record Event : Type 0 where
  pub timestamp : String
  pub event : String
  pub fields : Fields

-- What a deployment command did: an exit status, a timeout, or another exception.
pub data Outcome : Type 0 where
  exited : ℤ → Outcome
  timed_out failed : Outcome

-- `lease_at` is the file leases/<environment>.json. `reads` and `ids` count the calls of the clock
-- and of `uuid4`; `runs` is the command lines that were started.
pub record Plane : Type 0 where
  pub lease_at : String → Option File
  pub audit : List Event
  pub locked : String → Bool
  pub reads : ℕ
  pub ids : ℕ
  pub runs : List (List String)

pub record Stat : Type 0 where
  pub regular : Bool
  pub directory : Bool
  pub symlink : Bool
  pub nlink : ℕ
  pub uid : ℕ
  pub gid : ℕ
  pub mode : ℕ

-- The machine: clocks, random identifiers, locks of other processes, files that the controller only
-- reads, and the deployment command, which may change what is on disk.
pub record Host : Type 0 where
  pub clock : ℕ → ℕ
  pub uuid : ℕ → String
  pub render : ℕ → String
  pub parse : String → Timestamp
  pub flock : String → ℕ → Bool
  pub monotonic : ℕ → ℕ
  pub lock_timeout : ℕ
  pub runner : List String → ℕ → Plane → Outcome × Plane
  pub config : File
  pub manifest : File
  pub lstat : String → Option Stat
  pub exists : String → Bool
  pub read_bytes : String → Option String
  pub sha256 : String → String
  pub production : Bool
  pub entry_point : String
  pub euid : ℕ
  pub int_of : String → Option ℤ

abbrev pub Action : Type 0 → Type 0
Action A = Exec Plane Failure A

module _ (h : Host) where
  -- `self.now()`
  unfoldable pub now : Action ℕ
  now s = (ok (h.clock s.reads), record s { reads = s.reads + 1 })

  -- `_utc_text`: the microseconds are dropped.
  unfoldable pub utc_text : ℕ → String
  utc_text t = h.render (t / 1000000)

  -- `_audit`
  unfoldable pub audit : String → Fields → Action (Unit {0})
  unfolding now utc_text ◌>>=◌
  audit name fields = do
    t ← now
    λ s. (
      ok tt,
      record s {
        audit = s.audit ++ (record { timestamp = utc_text t; event = name; fields = fields }) ∷ [];
      },
    )

  -- `uuid.uuid4().hex`
  unfoldable pub fresh_id : Action String
  fresh_id s = (ok (h.uuid s.ids), record s { ids = s.ids + 1 })

  -- `self.runner(argv, timeout)`, and what the command does to the controller's files meanwhile.
  unfoldable pub start : List String → ℕ → Action Outcome
  start argv timeout s =
      let (outcome, t) = h.runner argv timeout (record s { runs = s.runs ++ argv ∷ [] }) in
      (ok outcome, t)

-- `_validate_environment`
unfoldable pub validate_environment : String → Result Failure (Unit {0})
validate_environment value =
    if env_re value then ok tt else err (validation "invalid deployment environment")

pub data Waited : Type 0 where
  acquired busy unfinished : Waited

-- The loop of `_control_lock`: `n` attempts were made, and each failed one reads the clock.
unfoldable pub wait_lock : Host → String → ℕ → ℕ → ℕ → Waited
wait_lock h env zero n deadline = unfinished
wait_lock h env (suc fuel) n deadline =
    let rest = wait_lock h env fuel (suc n) deadline in
    if h.flock env n then acquired else if leb deadline (h.monotonic (suc n)) then busy else rest

-- Attempts are 20 milliseconds apart at least.
abbrev pub lock_fuel : Host → ℕ
lock_fuel h = suc (suc (h.lock_timeout / 20))

module _ {A : Type 0} where
  -- The `finally` of `_control_lock`.
  abbrev pub unlock : String → Result Failure A × Plane → Result Failure A × Plane
  unlock env (r, s) = (r, record s { locked = update s.locked env false })

  -- What follows the wait for the lock.
  unfoldable pub granted_run : String → Action A → Waited → Action A
  granted_run env body acquired s =
      unlock env (body (record s { locked = update s.locked env true }))
  granted_run env body busy s = (err (lease_conflict "deployment control lock busy"), s)
  granted_run env body unfinished s = (err lock_unfinished, s)

  unfoldable pub locked_run : Host → String → Action A → Action A
  unfolding granted_run
  locked_run h env body =
      granted_run env body (wait_lock h env (lock_fuel h) 0 (h.monotonic 0 + h.lock_timeout))

  -- `with self._control_lock(env): body`
  unfoldable pub with_lock : Host → String → Action A → Action A
  with_lock h env body = do lift (validate_environment env); locked_run h env body
