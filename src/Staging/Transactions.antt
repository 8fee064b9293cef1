-- ===== src/Staging/Transactions.antt =====
-- scripts/staging/hermes_staging_socket_diagnostic.py: `TransactionStore`, one directory with a
-- state.json for each transaction.
use Prim.Native.Char.{code}
use Prim.Native.String.{◌++◌}
use hermes_ops.Prelude.{
  zero, suc, hex, strip_prefix, ◌&&◌, ℕ, String, Bool, true, false, not, Option, none, some, List,
  [], ◌∷◌, ◌==◌, any, if◌then◌else◌,
}
use hermes_ops.Result.{Result, ok, err}
use hermes_ops.Exec.{Exec, pure, raise, ◌>>◌}
use hermes_ops.Socket.{RequestKey}
use hermes_ops.Control.Formats.{hex64}
use hermes_ops.Staging.Request.{
  Failure, state_error, transaction_conflict_error, other_error, Request,
}

-- `STATE_ORDER`, and the two states that are not in it.
pub data State : Type 0 where
  prepared armed mutated enabled observing restoring restored restore_failed aborted : State

-- `TERMINAL_STATES`
abbrev pub is_terminal : State → Bool
is_terminal restored = true
is_terminal aborted = true
is_terminal _ = false

-- `_TRANSITIONS`
abbrev pub successor : State → Option State
successor prepared = some armed
successor armed = some mutated
successor mutated = some enabled
successor enabled = some observing
successor observing = some restoring
successor restoring = some restored
successor _ = none

abbrev pub same_state : State → State → Bool
same_state prepared prepared = true
same_state armed armed = true
same_state mutated mutated = true
same_state enabled enabled = true
same_state observing observing = true
same_state restoring restoring = true
same_state restored restored = true
same_state restore_failed restore_failed = true
same_state aborted aborted = true
same_state _ _ = false

-- The metadata of the saved configuration file.
pub record Saved : Type 0 where
  pub existed : Bool
  pub mode : ℕ
  pub uid : ℕ
  pub gid : ℕ
  pub sha256 : String

-- state.json, as far as the helper reads it again.
pub record Record : Type 0 where
  pub state : State
  pub request_digest : String
  pub expected_source_sha : String
  pub snapshot : Option Saved
  pub config_guard : Option String
  pub mutated_sha256 : Option String
  pub result : Option (List (RequestKey × ℕ))

-- A directory entry: not a directory, a directory without state.json, or with one that cannot be
-- read or has an unknown state, or with a good one.
pub data Entry : Type 0 where
  unsafe bare corrupt : Entry
  holds : Record → Entry

-- The entries of the state root, in the order of their names.
abbrev pub Store : Type 0
Store = List (String × Entry)

abbrev pub Action : Type 0 → Type 0
Action A = Exec Store Failure A

-- `Transaction`
pub record Transaction : Type 0 where
  pub path : String
  pub record_of : Record

unfoldable pub find : String → Store → Option Entry
find path [] = none
find path ((p, e) ∷ rest) = if p == path then some e else find path rest

-- The entry takes the place of the one with its name, or is new.
unfoldable pub put : String → Entry → Store → Store
put path e [] = (path, e) ∷ []
put path e ((p, f) ∷ rest) =
    let later = put path e rest in if p == path then (p, e) ∷ rest else (p, f) ∷ later

-- `_read`, where the directory is there.
unfoldable pub read_entry : String → Entry → Result Failure Transaction
read_entry path (holds r) = ok (record { path = path; record_of = r })
read_entry path _ = err state_error

-- `_write`
unfoldable pub write : String → Record → Action (Unit {0})
unfolding put
write path r s = (ok tt, put path (holds r) s)

-- `result.append`
abbrev pub prepend :
    Transaction → Result Failure (List Transaction) → Result Failure (List Transaction)
prepend tx (ok ts) = ok (tx ∷ ts)
prepend tx (err e) = err e

-- `transactions`
unfoldable pub transactions : Store → Result Failure (List Transaction)
transactions [] = ok []
transactions ((p, unsafe) ∷ rest) = err state_error
transactions ((p, corrupt) ∷ rest) = err state_error
transactions ((p, bare) ∷ rest) = transactions rest
transactions ((p, holds r) ∷ rest) =
    prepend (record { path = p; record_of = r }) (transactions rest)

-- `f"{request.run_id}-{request.run_attempt}-{request.nonce}"`
abbrev pub identity : Request → String
identity r = r.run_id ++ "-" ++ r.run_attempt ++ "-" ++ r.nonce

abbrev pub is_active : Transaction → Bool
is_active tx = not (is_terminal tx.record_of.state)

abbrev pub fresh_record : Request → String → Record
fresh_record r digest = record {
  state = prepared;
  request_digest = digest;
  expected_source_sha = r.expected_source_sha;
  snapshot = none;
  config_guard = none;
  mutated_sha256 = none;
  result = none;
}

module _ (digest_of : Request → String) where
  -- `prepare` where there is an entry with the request's name.
  unfoldable pub replay : Request → Entry → Result Failure Transaction
  unfolding read_entry
  replay r (holds found) =
      if found.request_digest == digest_of r
      then ok (record { path = identity r; record_of = found })
      else err transaction_conflict_error
  replay r _ = err state_error

  -- The rest of `prepare`.
  unfoldable pub create : Request → List Transaction → Action Transaction
  create r existing s = if any is_active existing then (err transaction_conflict_error, s) else (
    ok (record { path = identity r; record_of = fresh_record r (digest_of r) }),
    put (identity r) (holds (fresh_record r (digest_of r))) s,
  )

  unfoldable pub create_from : Request → Result Failure (List Transaction) → Action Transaction
  create_from r (ok existing) s = create r existing s
  create_from r (err e) s = (err e, s)

  unfoldable pub prepare_at : Request → Option Entry → Action Transaction
  unfolding replay
  prepare_at r (some e) s = (replay r e, s)
  prepare_at r none s = create_from r (transactions s) s

  -- `prepare`
  unfoldable pub prepare : Request → Action Transaction
  prepare r s = prepare_at r (find (identity r) s) s

-- The transaction in another state.
abbrev pub moved : State → Transaction → Transaction
moved next tx = record tx { record_of = record tx.record_of { state = next } }

-- `tx.record["state"] = next`, and `_write`.
unfoldable pub set_state : State → Transaction → Action Transaction
set_state next tx = do write tx.path (moved next tx).record_of; pure (moved next tx)

unfoldable pub transition_to : Option State → Transaction → State → Action Transaction
transition_to none tx next = raise state_error
transition_to (some expected) tx next =
    if same_state next expected then set_state next tx else raise state_error

-- `transition`
unfoldable pub transition : Transaction → State → Action Transaction
unfolding transition_to
transition tx next = transition_to (successor tx.record_of.state) tx next

-- `fail_restore`
unfoldable pub fail_restore : Transaction → Action Transaction
fail_restore tx = set_state restore_failed tx

-- `begin_restore`, by the state of the transaction.
unfoldable pub begin_restore_from : State → Transaction → Action Transaction
begin_restore_from restoring tx = pure tx
begin_restore_from prepared tx = raise state_error
begin_restore_from restored tx = raise state_error
begin_restore_from aborted tx = raise state_error
begin_restore_from _ tx = set_state restoring tx

unfoldable pub begin_restore : Transaction → Action Transaction
unfolding begin_restore_from
begin_restore tx = begin_restore_from tx.record_of.state tx

-- `abort_prepared`
unfoldable pub abort_prepared : Transaction → Action Transaction
abort_prepared tx =
    if same_state tx.record_of.state prepared then set_state aborted tx else raise state_error

-- The text's first characters.
unfoldable pub prefix : ℕ → String → String
prefix zero s = ""
prefix (suc n) String.[] = ""
prefix (suc n) (String.◌∷◌ c s) = String.◌∷◌ c (prefix n s)

-- The guard's name, by the digest of the request.
unfoldable pub guard_of : String → Option String
unfolding prefix
guard_of digest =
    if hex64 digest then some (".gateway.json.tx-" ++ (prefix 32 digest ++ ".swap")) else none

-- The rest of `save_snapshot`, with the guard's name.
unfoldable pub save_named : Transaction → Saved → Option String → Action Transaction
save_named tx saved none = raise state_error
save_named tx saved (some guard) = do
  write tx.path (record tx.record_of { snapshot = some saved; config_guard = some guard })
  pure (record tx {
    record_of = record tx.record_of { snapshot = some saved; config_guard = some guard };
  })

-- `save_snapshot`
unfoldable pub save_snapshot : Transaction → Saved → Action Transaction
unfolding guard_of save_named
save_snapshot tx saved =
    if not (same_state tx.record_of.state prepared)
    then raise state_error
    else save_named tx saved (guard_of tx.record_of.request_digest)

-- `record_mutated_hash`
unfoldable pub record_mutated_hash : Transaction → String → Action Transaction
record_mutated_hash tx digest = do
  write tx.path (record tx.record_of { mutated_sha256 = some digest })
  pure (record tx { record_of = record tx.record_of { mutated_sha256 = some digest } })

-- So many hexadecimal digits, and ".swap".
unfoldable pub digits_then_swap : ℕ → String → Bool
digits_then_swap zero rest = rest == ".swap"
digits_then_swap (suc n) String.[] = false
digits_then_swap (suc n) (String.◌∷◌ c rest) =
    let later = digits_then_swap n rest in hex (code c) && later

-- The name of a guard: the expression of `_validate_guard_name` and of `load_guard_name`.
unfoldable pub guard_name_re : String → Bool
unfolding strip_prefix digits_then_swap
guard_name_re name = elim (strip_prefix ".gateway.json.tx-" name) [
  | none ↦ false
  | some rest ↦ digits_then_swap 32 rest
]

-- `load_guard_name`
unfoldable pub load_guard_name : Transaction → Result Failure String
unfolding guard_name_re
load_guard_name tx = elim tx.record_of.config_guard [
  | none ↦ err state_error
  | some name ↦ if guard_name_re name then ok name else err state_error
]

-- `load_snapshot`, with the bytes of gateway.json.original, if it can be read.
unfoldable pub load_snapshot :
    (String → String) → Option String → Transaction → Result Failure (Saved × String)
load_snapshot sha original tx = elim tx.record_of.snapshot [
  | none ↦ err state_error
  | some saved ↦
      if not saved.existed
      then (if sha "" == saved.sha256 then ok (saved, "") else err state_error)
      else (elim original [
        | none ↦ err other_error
        | some content ↦
            if sha content == saved.sha256 then ok (saved, content) else err state_error
      ])
]
