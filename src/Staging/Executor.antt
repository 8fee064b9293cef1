-- ===== src/Staging/Executor.antt =====
-- scripts/staging/hermes_staging_socket_diagnostic.py: `DiagnosticExecutor`. Its machine is the store,
-- the configuration files, the clock and the transaction that is worked on; docker is a parameter.
pub mod Lock
pub mod Directory
pub mod Barrier
pub mod Metadata
pub mod Preflight
pub mod Restore
pub mod Run
pub mod Recover
pub mod Frames
pub mod Settled
pub mod Restored
pub mod Paths
pub mod Left
pub mod Done
pub mod Recovered
pub mod Observed
pub mod Deadlines
mod Tests
use hermes_ops.Prelude.{
  ℕ, zero, suc, ◌+◌, ◌-◌, ◌*◌, ◌/◌, String, Bool, true, false, not, ◌&&◌, Option, none, some, List,
  ◌==◌, nat_eq, ltb, leb, update, strip, head_then, split_once, repeats, hex, if◌then◌else◌,
}
use hermes_ops.Result.{Result, ok, err}
use hermes_ops.Exec.{Exec, pure, raise, ◌>>=◌, ◌>>◌}
use hermes_ops.Json.{Json}
use hermes_ops.Socket.{Line}
use hermes_ops.Staging.Request.{
  Failure, diagnostic_error, command_error, other_error, Request, Decoded,
}
use hermes_ops.Staging.Snapshots.{Node, World}
use hermes_ops.Staging.Transactions.{Store, Transaction, load_guard_name}
use hermes_ops.Staging.Config.{Dir}

-- The commands of docker that the helper issues for the container.
pub data Command : Type 0 where
  inspect_env inspect_image inspect_mount inspect_health inspect_identity : Command
  restart_it start_it stop_it : Command
  check_effective : Bool → Command
  logs_since : String → Command

-- What `fstat` shows of the lock, and whether its name still leads to it.
pub record LockFile : Type 0 where
  pub regular : Bool
  pub nlink : ℕ
  pub uid : ℕ
  pub mode : ℕ
  pub same_file : Bool

-- What `fstat` shows of a transaction's directory, and what its name leads to.
pub record OwnDir : Type 0 where
  pub directory : Bool
  pub named_link : Bool
  pub same_file : Bool
  pub uid : ℕ
  pub gid : ℕ
  pub mode : ℕ

-- What the program finds outside: each command's result, by the number of events before it and the
-- timeout it is given, whether another process holds the lock, the directory of a transaction by the
-- number of events before it is opened, the milliseconds that an event takes, files and names that it
-- only reads.
pub record Outside : Type 0 where
  pub world : World
  pub digest_of : Request → String
  pub runner : ℕ → Command → ℕ → Result Failure String
  pub lag : ℕ → ℕ
  pub lock_file : Option LockFile
  pub lock_uid : ℕ
  pub busy : ℕ → Bool
  pub lock_kept : Bool
  pub transaction_dir : String → ℕ → Option OwnDir
  pub hostname : String
  pub metadata : String → Result Failure String
  pub data_root : String
  pub text_of : ℕ → String
  pub same_device : Bool
  pub has_barrier : Bool
  pub helper_sha256 : Result Failure String
  pub log_lines : String → List Line
  pub timestamp : ℕ → String

-- The file of the crash barrier: whether `fstat` shows a safe one, and its text.
pub record Token : Type 0 where
  pub is_safe : Bool
  pub text : Decoded

-- The guards are named by the transactions; `originals` and `quarantines` stand in their directories.
pub record Machine : Type 0 where
  pub store : Store
  pub current : Option Node
  pub guards : String → Option Node
  pub quarantines : String → Option Node
  pub originals : String → Option String
  pub token : Option Token
  pub tx : Transaction
  pub deadline : ℕ
  pub now : ℕ
  pub events : ℕ

-- How a method ends before its `return`: by an exception, or with the process.
pub data Stop : Type 0 where
  raised : Failure → Stop
  killed : Stop

abbrev pub Act : Type 0 → Type 0
Act A = Exec Machine Stop A

-- A value, or an exception of this program.
unfoldable pub give : {A : Type 0} → Result Failure A → Act A
give (ok a) m = (ok a, m)
give (err e) m = (err (raised e), m)

unfoldable pub fail : {A : Type 0} → Failure → Act A
fail e m = (err (raised e), m)

-- `except BaseException`, which a kill does not reach.
unfoldable pub catch_with :
    {A : Type 0} → (Failure → Act A) → Result Stop A × Machine → Result Stop A × Machine
catch_with handler (ok a, m) = (ok a, m)
catch_with handler (err (raised e), m) = handler e m
catch_with handler (err killed, m) = (err killed, m)

unfoldable pub catch : {A : Type 0} → Act A → (Failure → Act A) → Act A
unfolding catch_with
catch body handler m = catch_with handler (body m)

-- A method of the store that changes the transaction.
unfoldable pub stored : Result Failure Transaction × Store → Act (Unit {0})
stored (ok tx, s) m = (ok tt, record m { store = s; tx = tx })
stored (err e, s) m = (err (raised e), record m { store = s })

unfoldable pub with_tx : (Transaction → Store → Result Failure Transaction × Store) → Act (Unit {0})
unfolding stored
with_tx method m = stored (method m.tx m.store) m

-- The files that a method of the configuration works on.
abbrev pub dir_of : String → Machine → Dir
dir_of guard m = record {
  current = m.current;
  guard = m.guards guard;
  quarantine = m.quarantines m.tx.path;
}

abbrev pub put_dir : String → Dir → Machine → Machine
put_dir guard d m = record m {
  current = d.current;
  guards = update m.guards guard d.guard;
  quarantines = update m.quarantines m.tx.path d.quarantine;
}

unfoldable pub with_dir : {A : Type 0} → String → (Dir → Result Failure A × Dir) → Act A
unfolding give
with_dir guard method m = let (r, d) = method (dir_of guard m) in give r (put_dir guard d m)

-- A method of the configuration that changes nothing and reads gateway.json only.
unfoldable pub look : {A : Type 0} → (Dir → Result Failure A × Dir) → Act A
unfolding give
look method m = give (method (record { current = m.current; guard = none; quarantine = none })).0 m

module _ (o : Outside) where
  -- `_start_deadline`
  unfoldable pub start_deadline : ℕ → Act (Unit {0})
  start_deadline seconds m = (ok tt, record m { deadline = m.now + seconds * 1000 })

  -- `_remaining`, in seconds.
  unfoldable pub remaining : ℕ → ℕ → ℕ → Result Failure ℕ
  remaining deadline now cap =
      if nat_eq deadline 0
      then err command_error
      else if nat_eq ((deadline - now) / 1000) 0
      then err command_error
      else if leb cap ((deadline - now) / 1000)
      then ok (if nat_eq cap 0 then 1 else cap)
      else ok ((deadline - now) / 1000)

  -- The time that an event takes.
  abbrev pub passed : ℕ → Machine → Machine
  passed waited m = record m { now = m.now + (waited + o.lag m.events); events = suc m.events }

  unfoldable pub issue : Command → Result Failure ℕ → Act String
  unfolding give fail
  issue c (err e) m = fail e m
  issue c (ok timeout) m = give (o.runner m.events c timeout) (passed 0 m)

  -- `_command`
  unfoldable pub command : Command → ℕ → Act String
  unfolding issue remaining
  command c cap m = issue c (remaining m.deadline m.now cap) m

  -- `self.sleep`, which waits that long at least.
  unfoldable pub sleep : ℕ → Act (Unit {0})
  sleep milliseconds m = (ok tt, passed milliseconds m)

  -- `_health_status`
  unfoldable pub health_status : Act String
  unfolding strip
  health_status = do output ← command inspect_health 15; pure (strip output)

  -- The loop of `_wait_healthy`, for so many rounds at most.
  unfoldable pub poll : ℕ → ℕ → Act (Unit {0})
  poll zero until m = fail command_error m
  poll (suc n) until m =
      if ltb m.now until
      then ((do
        status ← health_status
        if status == "healthy" then pure tt else (do sleep 3000; poll n until))
          m)
      else fail command_error m

  -- `_wait_healthy`: 40 rounds of three seconds at least fill the 120 seconds.
  unfoldable pub wait_healthy : Act (Unit {0})
  wait_healthy m =
      poll 41 (if leb m.deadline (m.now + 120000) then m.deadline else m.now + 120000) m

  -- `_effective`
  unfoldable pub effective : Bool → Act (Unit {0})
  unfolding strip
  effective enabled = do
    output ← command (check_effective enabled) 60
    if strip output == (if enabled then "true" else "false") then pure tt else fail command_error

  -- `_restart`, `_start`, `_stop`
  unfoldable pub restart : Act (Unit {0})
  restart = do command restart_it 120; wait_healthy

  unfoldable pub start_again : Act (Unit {0})
  start_again = do command start_it 120; wait_healthy

  unfoldable pub stop : Act (Unit {0})
  stop = do command stop_it 120; pure tt

  -- `value.endswith("Z")`
  unfoldable pub ends_in_z : String → Bool
  ends_in_z String.[] = false
  ends_in_z (String.◌∷◌ c s) =
      let rest = ends_in_z s in if s == "" then String.◌∷◌ c "" == "Z" else rest

  unfoldable pub identity_ok : Option (String × String) → Bool
  unfolding ends_in_z repeats
  identity_ok none = false
  identity_ok (some (container_id, started_at)) =
      repeats hex 64 64 container_id && ends_in_z started_at

  -- `_container_identity`
  unfoldable pub container_identity : Act String
  unfolding identity_ok split_once strip
  container_identity = do
    output ← command inspect_identity 15
    if identity_ok (split_once " " (strip output)) then pure (strip output) else fail command_error

  -- `_sleep_bounded`
  unfoldable pub sleep_bounded : ℕ → Act (Unit {0})
  sleep_bounded seconds m =
      if leb m.deadline (m.now + seconds * 1000)
      then fail command_error m
      else sleep (seconds * 1000) m
