-- ===== src/Staging/Active.antt =====
-- scripts/staging/hermes_staging_socket_diagnostic.py: at most one transaction is active.
use hermes_ops.Prelude.{
  ℕ, ◌≤◌, ◌≡◌, refl, ap, subst, inl, inr, String, true, false, not, Option, none, some, List, any,
  arith, Bool-cases, if◌then◌else◌,
}
use hermes_ops.Result.{Result, ok, err}
use hermes_ops.Exec.{pure, raise, ◌>>=◌}
use hermes_ops.Socket.{RequestKey}
use hermes_ops.Staging.Request.{Failure, Request}
use hermes_ops.Staging.Transactions.{
  State, prepared, armed, mutated, enabled, observing, restoring, restored, restore_failed, aborted,
  is_terminal, successor, same_state, Record, Entry, holds, Store, Transaction, find, put, write,
  transactions, identity, is_active, fresh_record, create, create_from, prepare_at, prepare, moved,
  set_state, transition, transition_to, fail_restore, begin_restore_from, begin_restore,
  abort_prepared, Saved, save_named, save_snapshot, record_mutated_hash, guard_of,
}
use hermes_ops.Staging.Counting.{
  weight, active, active-put, active-put_new, active-none, weight_le_one, find-put,
}

-- One call of the store, or what the executor does with it, for a transaction as it is on disk. A
-- failed restoration is recorded after `begin_restore` has returned.
pub data Step (digest_of : Request → String) (s : Store) : Store → Type 0 where
  prepares : (r : Request) → Step digest_of s (prepare digest_of r s).1
  transitions :
      (tx : Transaction) (next : State)
      → find tx.path s ≡ some (holds tx.record_of)
      → Step digest_of s (transition tx next s).1
  restores :
      (tx : Transaction)
      → find tx.path s ≡ some (holds tx.record_of)
      → Step digest_of s (begin_restore tx s).1
  fails :
      (tx begun : Transaction) (u : Store)
      → find tx.path s ≡ some (holds tx.record_of)
      → begin_restore tx s ≡ (ok begun, u)
      → Step digest_of s (fail_restore begun u).1
  saves :
      (tx : Transaction) (saved : Saved)
      → find tx.path s ≡ some (holds tx.record_of)
      → Step digest_of s (save_snapshot tx saved s).1
  hashes :
      (tx : Transaction) (digest : String)
      → find tx.path s ≡ some (holds tx.record_of)
      → Step digest_of s (record_mutated_hash tx digest s).1
  reports :
      (tx : Transaction) (counts : List (RequestKey × ℕ))
      → find tx.path s ≡ some (holds tx.record_of)
      → Step digest_of s (write tx.path (record tx.record_of { result = some counts }) s).1
  aborts :
      (tx : Transaction)
      → find tx.path s ≡ some (holds tx.record_of)
      → Step digest_of s (abort_prepared tx s).1

-- An active transaction, in whatever state it is written again, counts once at most.
set_state-active :
    (next : State) (tx : Transaction) (s : Store)
    → find tx.path s ≡ some (holds tx.record_of)
    → is_terminal tx.record_of.state ≡ false
    → active (set_state next tx s).1 ≤ active s
unfolding set_state write ◌>>=◌ pure
set_state-active next tx s at going =
    let w = active-put tx.path (holds (moved next tx).record_of) (holds tx.record_of) s at in
    let one : weight (holds tx.record_of) ≡ 1 = rw going refl in
    let most : weight (holds (moved next tx).record_of) ≤ 1 =
      weight_le_one (holds (moved next tx).record_of) in
    omega arith

successor-some : (st next : State) → successor st ≡ some next → is_terminal st ≡ false
successor-some restored next e = cc
successor-some aborted next e = cc
successor-some prepared next e = refl
successor-some _ next e = refl

transition_to-active :
    (expected : Option State) (tx : Transaction) (next : State) (s : Store)
    → successor tx.record_of.state ≡ expected
    → find tx.path s ≡ some (holds tx.record_of)
    → active (transition_to expected tx next s).1 ≤ active s
unfolding transition_to raise
transition_to-active none tx next s e at = omega arith
transition_to-active (some expected) tx next s e at = elim (Bool-cases (same_state next expected)) [
  | inl right ↦
      rw right (set_state-active next tx s at (successor-some tx.record_of.state expected e))
  | inr wrong ↦ rw wrong (omega arith)
]

begin_restore-active :
    (st : State) (tx : Transaction) (s : Store)
    → tx.record_of.state ≡ st
    → find tx.path s ≡ some (holds tx.record_of)
    → active (begin_restore_from st tx s).1 ≤ active s
unfolding begin_restore_from raise pure
begin_restore-active restoring tx s e at = omega arith
begin_restore-active prepared tx s e at = omega arith
begin_restore-active restored tx s e at = omega arith
begin_restore-active aborted tx s e at = omega arith
begin_restore-active armed tx s e at = set_state-active restoring tx s at (rw e refl)
begin_restore-active mutated tx s e at = set_state-active restoring tx s at (rw e refl)
begin_restore-active enabled tx s e at = set_state-active restoring tx s at (rw e refl)
begin_restore-active observing tx s e at = set_state-active restoring tx s at (rw e refl)
begin_restore-active restore_failed tx s e at = set_state-active restoring tx s at (rw e refl)

-- What `begin_restore` returns is on disk, and not over.
Begun : Result Failure Transaction → Store → Type 0
Begun (ok tx) u =
    (find tx.path u ≡ some (holds tx.record_of)) × (is_terminal tx.record_of.state ≡ false)
Begun (err e) u = Unit {0}

set_state-Begun :
    (tx : Transaction) (s : Store) → Begun (set_state restoring tx s).0 (set_state restoring tx s).1
unfolding set_state write ◌>>=◌ pure Begun
set_state-Begun tx s = (find-put tx.path (holds (moved restoring tx).record_of) s, refl)

begin_restore-Begun :
    (st : State) (tx : Transaction) (s : Store)
    → tx.record_of.state ≡ st
    → find tx.path s ≡ some (holds tx.record_of)
    → Begun (begin_restore_from st tx s).0 (begin_restore_from st tx s).1
unfolding begin_restore_from raise pure Begun
begin_restore-Begun restoring tx s e at = (at, ap is_terminal e)
begin_restore-Begun prepared tx s e at = tt
begin_restore-Begun restored tx s e at = tt
begin_restore-Begun aborted tx s e at = tt
begin_restore-Begun armed tx s e at = set_state-Begun tx s
begin_restore-Begun mutated tx s e at = set_state-Begun tx s
begin_restore-Begun enabled tx s e at = set_state-Begun tx s
begin_restore-Begun observing tx s e at = set_state-Begun tx s
begin_restore-Begun restore_failed tx s e at = set_state-Begun tx s

-- A record that is written again in the same state.
rewritten-active :
    (tx : Transaction) (r : Record) (s : Store)
    → find tx.path s ≡ some (holds tx.record_of)
    → r.state ≡ tx.record_of.state
    → active (put tx.path (holds r) s) ≡ active s
rewritten-active tx r s at same =
    let w = active-put tx.path (holds r) (holds tx.record_of) s at in
    let equal : weight (holds r) ≡ weight (holds tx.record_of) =
      ap (λ st. if is_terminal st then 0 else 1) same in
    omega arith

save_named-active :
    (tx : Transaction) (saved : Saved) (guard : Option String) (s : Store)
    → find tx.path s ≡ some (holds tx.record_of)
    → active (save_named tx saved guard s).1 ≤ active s
unfolding save_named write raise ◌>>=◌ pure
save_named-active tx saved none s at = omega arith
save_named-active tx saved (some guard) s at =
    let e =
      rewritten-active tx (record tx.record_of { snapshot = some saved; config_guard = some guard })
        s at refl in
    omega arith

save_snapshot-active :
    (tx : Transaction) (saved : Saved) (s : Store)
    → find tx.path s ≡ some (holds tx.record_of)
    → active (save_snapshot tx saved s).1 ≤ active s
unfolding save_snapshot raise
save_snapshot-active tx saved s at =
    elim (Bool-cases (not (same_state tx.record_of.state prepared))) [
      | inl other ↦ rw other (omega arith)
      | inr right ↦
          rw right (save_named-active tx saved (guard_of tx.record_of.request_digest) s at)
    ]

same_state-prepared : (st : State) → same_state st prepared ≡ true → is_terminal st ≡ false
same_state-prepared restored e = cc
same_state-prepared aborted e = cc
same_state-prepared prepared e = refl
same_state-prepared _ e = refl

abort_prepared-active :
    (tx : Transaction) (s : Store)
    → find tx.path s ≡ some (holds tx.record_of)
    → active (abort_prepared tx s).1 ≤ active s
unfolding abort_prepared raise
abort_prepared-active tx s at = elim (Bool-cases (same_state tx.record_of.state prepared)) [
  | inl right ↦
      rw right (set_state-active aborted tx s at (same_state-prepared tx.record_of.state right))
  | inr wrong ↦ rw wrong (omega arith)
]

create-active :
    (digest_of : Request → String) (r : Request) (existing : List Transaction) (s : Store)
    → transactions s ≡ ok existing
    → find (identity r) s ≡ none
    → active s ≤ 1
    → active (create digest_of r existing s).1 ≤ 1
unfolding create
create-active digest_of r existing s read new most = elim (Bool-cases (any is_active existing)) [
  | inl busy ↦ rw busy most
  | inr idle ↦
      let zero_active = active-none s existing read idle in
      let w = active-put_new (identity r) (holds (fresh_record r (digest_of r))) s new in
      rw idle (omega arith)
]

create_from-active :
    (digest_of : Request → String) (r : Request) (existing : Result Failure (List Transaction))
    (s : Store)
    → transactions s ≡ existing
    → find (identity r) s ≡ none
    → active s ≤ 1
    → active (create_from digest_of r existing s).1 ≤ 1
unfolding create_from
create_from-active digest_of r (ok existing) s read new most =
    create-active digest_of r existing s read new most
create_from-active digest_of r (err e) s read new most = most

prepare_at-active :
    (digest_of : Request → String) (r : Request) (found : Option Entry) (s : Store)
    → find (identity r) s ≡ found
    → active s ≤ 1
    → active (prepare_at digest_of r found s).1 ≤ 1
unfolding prepare_at
prepare_at-active digest_of r (some e) s at most = most
prepare_at-active digest_of r none s new most =
    create_from-active digest_of r (transactions s) s refl new most

-- No call that writes to the store makes a second transaction active where one at most was: not
-- `prepare`, `transition`, `begin_restore`, `abort_prepared`, `save_snapshot` and `record_mutated_hash`,
-- nor the writing of a result, nor `begin_restore` followed by `fail_restore`. But for `prepare`, the
-- transaction is as it is on disk.
pub Step-active :
    (digest_of : Request → String) (s t : Store) → Step digest_of s t → active s ≤ 1 → active t ≤ 1
unfolding begin_restore fail_restore prepare transition record_mutated_hash write ◌>>=◌ pure Begun
Step-active digest_of s t (prepares r) most =
    prepare_at-active digest_of r (find (identity r) s) s refl most
Step-active digest_of s t (transitions tx next at) most =
    let less = transition_to-active (successor tx.record_of.state) tx next s refl at in omega arith
Step-active digest_of s t (restores tx at) most =
    let less = begin_restore-active tx.record_of.state tx s refl at in omega arith
Step-active digest_of s t (fails tx begun u at done) most =
    let less = begin_restore-active tx.record_of.state tx s refl at in
    let same : active (begin_restore_from tx.record_of.state tx s).1 ≡ active u =
      ap (λ p. active p.1) done in
    let (there, going) =
      subst (λ p. Begun p.0 p.1) done (begin_restore-Begun tx.record_of.state tx s refl at) in
    let failed = set_state-active restore_failed begun u there going in omega arith
Step-active digest_of s t (saves tx saved at) most =
    let less = save_snapshot-active tx saved s at in omega arith
Step-active digest_of s t (hashes tx digest at) most =
    let same =
      rewritten-active tx (record tx.record_of { mutated_sha256 = some digest }) s at refl in
    omega arith
Step-active digest_of s t (reports tx counts at) most =
    let same = rewritten-active tx (record tx.record_of { result = some counts }) s at refl in
    omega arith
Step-active digest_of s t (aborts tx at) most =
    let less = abort_prepared-active tx s at in omega arith
