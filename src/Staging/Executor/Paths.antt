-- ===== src/Staging/Executor/Paths.antt =====
-- scripts/staging/hermes_staging_socket_diagnostic.py: a restoration writes the directory of its own
-- transaction only.
use hermes_ops.Prelude.{
  ℕ, zero, suc, ◌≡◌, refl, ap, ◌∙◌, inl, inr, String, Bool, true, false, Option, none, some, [],
  ◌∷◌, ◌==◌, ltb, Bool-cases, eq_iff, if◌then◌else◌,
}
use hermes_ops.Result.{Result, ok, err}
use hermes_ops.Exec.{raise, pure, ◌>>=◌}
use hermes_ops.Exec.Keeps.{IsPreorder, Keeps, Keeps-pure, Keeps-if, Keeps-bind}
use hermes_ops.Staging.Request.{Failure, diagnostic_error}
use hermes_ops.Staging.Snapshots.{Snapshot}
use hermes_ops.Staging.Transactions.{
  State, prepared, armed, mutated, enabled, observing, restoring, restored, restore_failed, aborted,
  successor, same_state, Entry, Store, Transaction, find, put, write, set_state, transition_to,
  transition, begin_restore_from, begin_restore, fail_restore,
}
use hermes_ops.Staging.Config.{Dir, matches}
use hermes_ops.Staging.Executor.{Outside, Machine, Act, give, stored, with_tx, with_dir, look}
use hermes_ops.Staging.Executor.Directory.{open_transaction}
use hermes_ops.Staging.Executor.Restore.{
  guard_name, settle, restore_settled, restore_stopped, attempts, is_settled, settled_or_stopped,
  give_up, barrier_if, restore_tx,
}
use hermes_ops.Staging.Executor.Frames.{
  SameFiles, Keeps-fail, Keeps-catch, health_status-SameFiles, effective-SameFiles,
  start_again-SameFiles, stop-SameFiles, sleep_bounded-SameFiles,
}

-- The transaction keeps its directory, and every other directory is what it was.
abbrev pub OnlyOwn : Machine → Machine → Type 0
OnlyOwn s t =
    (t.tx.path ≡ s.tx.path)
    × ((q : String) → (s.tx.path == q) ≡ false → find q t.store ≡ find q s.store)

pub OnlyOwn-order : IsPreorder OnlyOwn
OnlyOwn-order = record {
  same = λ s. (refl, λ q e. refl);
  compose = λ s t u f g. (g.0 ∙ f.0, λ q e. g.1 q (ap (λ p. p == q) f.0 ∙ e) ∙ f.1 q e);
}

same-OnlyOwn : (s t : Machine) → t.store ≡ s.store → t.tx ≡ s.tx → OnlyOwn s t
same-OnlyOwn s t e f = (ap (λ x. x.path) f, λ q h. ap (find q) e)

quiet : {A : Type 0} (m : Act A) → Keeps SameFiles m → Keeps OnlyOwn m
quiet m k = record { at = λ s. same-OnlyOwn s (m s).1 (k.at s).0 (k.at s).2 }

pub find-put_other :
    (p q : String) (e : Entry) (s : Store) → (p == q) ≡ false → find q (put p e s) ≡ find q s
unfolding find put
find-put_other p q e [] h = rw h refl
find-put_other p q e ((x, f) ∷ rest) h = elim (Bool-cases (x == p)) [
  | inl here ↦ let missed = ap (λ y. y == q) ((eq_iff x p).0 here) ∙ h in rw (here, missed) refl
  | inr elsewhere ↦
      rw elsewhere (ap (λ r. if x == q then some f else r) (find-put_other p q e rest h))
]

-- A method of the store, called for a transaction, that writes its directory only.
abbrev IsOwn : Result Failure Transaction × Store → Transaction → Store → Type 0
IsOwn out tx s =
    ((now : Transaction) → out.0 ≡ ok now → now.path ≡ tx.path)
    × ((q : String) → (tx.path == q) ≡ false → find q out.1 ≡ find q s)

ok-path : {a b : Transaction} → ◌≡◌ {A = Result Failure Transaction} (ok a) (ok b) → b.path ≡ a.path
ok-path e = cc

pub set_state-IsOwn :
    (next : State) (tx : Transaction) (s : Store) → IsOwn (set_state next tx s) tx s
unfolding set_state write ◌>>=◌ pure
set_state-IsOwn next tx s = (λ now e. ok-path e, λ q e. find-put_other tx.path q _ s e)

raise-IsOwn : (e : Failure) (tx : Transaction) (s : Store) → IsOwn (raise e s) tx s
unfolding raise
raise-IsOwn e tx s = (λ now f. cc, λ q h. refl)

transition_to-IsOwn :
    (expected : Option State) (tx : Transaction) (next : State) (s : Store)
    → IsOwn (transition_to expected tx next s) tx s
unfolding transition_to
transition_to-IsOwn none tx next s = raise-IsOwn _ tx s
transition_to-IsOwn (some expected) tx next s = elim (Bool-cases (same_state next expected)) [
  | inl right ↦ rw right (set_state-IsOwn next tx s)
  | inr wrong ↦ rw wrong (raise-IsOwn _ tx s)
]

begin_restore-IsOwn :
    (st : State) (tx : Transaction) (s : Store) → IsOwn (begin_restore_from st tx s) tx s
unfolding begin_restore_from pure
begin_restore-IsOwn restoring tx s = (λ now e. ok-path e, λ q e. refl)
begin_restore-IsOwn prepared tx s = raise-IsOwn _ tx s
begin_restore-IsOwn restored tx s = raise-IsOwn _ tx s
begin_restore-IsOwn aborted tx s = raise-IsOwn _ tx s
begin_restore-IsOwn armed tx s = set_state-IsOwn restoring tx s
begin_restore-IsOwn mutated tx s = set_state-IsOwn restoring tx s
begin_restore-IsOwn enabled tx s = set_state-IsOwn restoring tx s
begin_restore-IsOwn observing tx s = set_state-IsOwn restoring tx s
begin_restore-IsOwn restore_failed tx s = set_state-IsOwn restoring tx s

stored-OnlyOwn :
    (r : Result Failure Transaction) (st : Store) (m : Machine)
    → IsOwn (r, st) m.tx m.store
    → OnlyOwn m (stored (r, st) m).1
unfolding stored
stored-OnlyOwn (ok now) st m own = (own.0 now refl, own.1)
stored-OnlyOwn (err e) st m own = (refl, own.1)

with_tx-OnlyOwn :
    (method : Transaction → Store → Result Failure Transaction × Store)
    → ((tx : Transaction) (s : Store) → IsOwn (method tx s) tx s)
    → Keeps OnlyOwn (with_tx method)
unfolding with_tx
with_tx-OnlyOwn method own = record {
  at = λ m. stored-OnlyOwn (method m.tx m.store).0 _ m (own m.tx m.store);
}

pub given-OnlyOwn :
    {A : Type 0} (r : Result Failure A) (s t : Machine) → OnlyOwn s t → OnlyOwn s (give r t).1
unfolding give
given-OnlyOwn (ok a) s t h = h
given-OnlyOwn (err e) s t h = h

with_dir-OnlyOwn :
    {A : Type 0} (guard : String) (method : Dir → Result Failure A × Dir)
    → Keeps OnlyOwn (with_dir guard method)
unfolding with_dir
with_dir-OnlyOwn guard method = record {
  at = λ s. given-OnlyOwn (method _).0 s _ (refl, λ q e. refl);
}

look-OnlyOwn : {A : Type 0} (method : Dir → Result Failure A × Dir) → Keeps OnlyOwn (look method)
unfolding look
look-OnlyOwn method = record { at = λ s. given-OnlyOwn (method _).0 s s (refl, λ q e. refl) }

guard_name-OnlyOwn : Keeps OnlyOwn guard_name
unfolding guard_name
guard_name-OnlyOwn = record { at = λ s. given-OnlyOwn _ s s (refl, λ q e. refl) }

open_transaction-OnlyOwn : (o : Outside) → Keeps OnlyOwn (open_transaction o)
unfolding open_transaction
open_transaction-OnlyOwn o = record { at = λ s. given-OnlyOwn _ s s (refl, λ q e. refl) }

module _ (o : Outside) where
  settle-OnlyOwn : Keeps OnlyOwn (settle o)
  unfolding settle transition
  settle-OnlyOwn = Keeps-bind OnlyOwn-order _ _ (quiet _ (effective-SameFiles o false)) λ _.
      with_tx-OnlyOwn _ λ tx s. transition_to-IsOwn (successor tx.record_of.state) tx restored s

  restore_settled-OnlyOwn :
      (value : Snapshot) (hash guard : String) → Keeps OnlyOwn (restore_settled o value hash guard)
  unfolding restore_settled
  restore_settled-OnlyOwn value hash guard =
      Keeps-bind OnlyOwn-order _ _ (with_dir-OnlyOwn guard _) λ _. settle-OnlyOwn

  restore_stopped-OnlyOwn :
      (value : Snapshot) (hash guard : String) → Keeps OnlyOwn (restore_stopped o value hash guard)
  unfolding restore_stopped
  restore_stopped-OnlyOwn value hash guard =
      Keeps-bind OnlyOwn-order _ _ (quiet _ (stop-SameFiles o)) λ _.
        Keeps-bind OnlyOwn-order _ _ (with_dir-OnlyOwn guard _)
          λ _. Keeps-bind OnlyOwn-order _ _ (quiet _ (start_again-SameFiles o)) λ _. settle-OnlyOwn

  attempts-OnlyOwn :
      (n : ℕ) (value : Snapshot) (hash guard : String)
      → Keeps OnlyOwn (attempts o n value hash guard)
  unfolding attempts
  attempts-OnlyOwn zero value hash guard = Keeps-pure OnlyOwn-order false
  attempts-OnlyOwn (suc n) value hash guard =
      Keeps-catch OnlyOwn-order _ _
        (Keeps-bind OnlyOwn-order _ _ (restore_stopped-OnlyOwn value hash guard)
          λ _. Keeps-pure OnlyOwn-order true)
        λ e.
          Keeps-bind OnlyOwn-order _ _
            (Keeps-if OnlyOwn-order (ltb 0 n) _ _ (quiet _ (sleep_bounded-SameFiles o 3))
              (Keeps-pure OnlyOwn-order tt))
            λ _. attempts-OnlyOwn n value hash guard

  is_settled-OnlyOwn : (value : Snapshot) → Keeps OnlyOwn (is_settled o value)
  unfolding is_settled
  is_settled-OnlyOwn value =
      Keeps-catch OnlyOwn-order _ _
        (Keeps-bind OnlyOwn-order _ _ (look-OnlyOwn (matches o.world value)) λ same.
          Keeps-if OnlyOwn-order same _ _
            (Keeps-bind OnlyOwn-order _ _ (quiet _ (health_status-SameFiles o))
              λ status. Keeps-pure OnlyOwn-order (some (status == "healthy")))
            (Keeps-pure OnlyOwn-order (some false)))
        λ e. Keeps-pure OnlyOwn-order none

  settled_or_stopped-OnlyOwn :
      (settled : Option Bool) (value : Snapshot) (hash guard : String)
      → Keeps OnlyOwn (settled_or_stopped o settled value hash guard)
  unfolding settled_or_stopped
  settled_or_stopped-OnlyOwn none value hash guard = Keeps-pure OnlyOwn-order false
  settled_or_stopped-OnlyOwn (some false) value hash guard = attempts-OnlyOwn 3 value hash guard
  settled_or_stopped-OnlyOwn (some true) value hash guard =
      Keeps-bind OnlyOwn-order _ _
        (Keeps-catch OnlyOwn-order _ _
          (Keeps-bind OnlyOwn-order _ _ (restore_settled-OnlyOwn value hash guard)
            λ _. Keeps-pure OnlyOwn-order true)
          λ e. Keeps-pure OnlyOwn-order false)
        λ done.
          Keeps-if OnlyOwn-order done _ _ (Keeps-pure OnlyOwn-order true)
            (attempts-OnlyOwn 3 value hash guard)

  give_up-OnlyOwn : Keeps OnlyOwn (give_up o)
  unfolding give_up fail_restore
  give_up-OnlyOwn =
      Keeps-bind OnlyOwn-order _ _ (with_tx-OnlyOwn _ λ tx s. set_state-IsOwn restore_failed tx s)
        λ _. Keeps-fail OnlyOwn-order diagnostic_error

  pub restore_tx-OnlyOwn :
      (value : Snapshot) (hash : String) → Keeps OnlyOwn (restore_tx o value hash false)
  unfolding restore_tx begin_restore barrier_if
  restore_tx-OnlyOwn value hash =
      Keeps-bind OnlyOwn-order _ _
        (with_tx-OnlyOwn _ λ tx s. begin_restore-IsOwn tx.record_of.state tx s)
        λ _. Keeps-bind OnlyOwn-order _ _ (Keeps-pure OnlyOwn-order tt) λ _.
          Keeps-bind OnlyOwn-order _ _ guard_name-OnlyOwn λ guard.
            Keeps-bind OnlyOwn-order _ _ (open_transaction-OnlyOwn o) λ u.
              Keeps-bind OnlyOwn-order _ _ (is_settled-OnlyOwn value) λ settled.
                Keeps-bind OnlyOwn-order _ _ (settled_or_stopped-OnlyOwn settled value hash guard)
                  λ done.
                    Keeps-if OnlyOwn-order done _ _ (Keeps-pure OnlyOwn-order tt) give_up-OnlyOwn
