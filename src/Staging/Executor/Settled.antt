-- ===== src/Staging/Executor/Settled.antt =====
-- scripts/staging/hermes_staging_socket_diagnostic.py: what one attempt of `_restore` guarantees.
use hermes_ops.Prelude.{
  ◌≡◌, refl, sym, ap, ◌∙◌, subst, ◌⊎◌, inl, inr, String, true, false, Option, none, some,
  Bool-cases,
}
use hermes_ops.Result.{Result, ok, err}
use hermes_ops.Exec.{raise, pure, ◌>>=◌}
use hermes_ops.Staging.Request.{Failure}
use hermes_ops.Staging.Snapshots.{Snapshot, same_snapshot, read_named}
use hermes_ops.Staging.Transactions.{
  State, restored, successor, same_state, holds, Store, Transaction, find, write, moved, set_state,
  transition_to, transition,
}
use hermes_ops.Staging.Config.{Dir, restore}
use hermes_ops.Staging.Counting.{find-put}
use hermes_ops.Staging.Restoration.{returned, restore-exact}
use hermes_ops.Staging.Executor.{
  Outside, Machine, Stop, raised, killed, Act, give, catch_with, stored, with_tx, dir_of, put_dir,
  with_dir, effective, start_again, stop,
}
use hermes_ops.Staging.Executor.Restore.{settle, restore_settled, restore_stopped}
use hermes_ops.Staging.Executor.Frames.{effective-SameFiles, start_again-SameFiles}

-- gateway.json is the snapshot again.
abbrev IsBack : Outside → Snapshot → Machine → Type 0
IsBack o value m =
    (found : Snapshot) × (read_named o.world true m.current ≡ ok found)
    × (same_snapshot found value ≡ true)

-- The transaction is RESTORED, on disk too.
abbrev pub IsOver : Machine → Type 0
IsOver m =
    (m.tx.record_of.state ≡ restored) × (find m.tx.path m.store ≡ some (holds m.tx.record_of))

abbrev pub IsRestored : Outside → Snapshot → Machine → Type 0
IsRestored o value m = IsBack o value m × IsOver m

pub err-ok : {E A : Type 0} {x : E} {a : A} → ◌≡◌ {A = Result E A} (err x) (ok a) → ⊥
err-ok e = cc

pub ok-same : {E A : Type 0} {a b : A} → ◌≡◌ {A = Result E A} (ok a) (ok b) → a ≡ b
ok-same e = cc

-- What a `try` that ends well has done.
pub caught-eq-ok :
    {A : Type 0} (handler : Failure → Act A) (r : Result Stop A) (u : Machine) {a : A} {t : Machine}
    → catch_with handler (r, u) ≡ (ok a, t)
    → (◌≡◌ {A = Result Stop A × Machine} (r, u) (ok a, t))
      ⊎ ((e : Failure) × (r ≡ err (raised e)) × (handler e u ≡ (ok a, t)))
unfolding catch_with
caught-eq-ok handler (ok b) u h = inl h
caught-eq-ok handler (err (raised e)) u h = inr (e, refl, h)
caught-eq-ok handler (err killed) u h = inl h

moved-restored :
    (tx now : Transaction) (s t : Store)
    → set_state restored tx s ≡ (ok now, t)
    → (now.record_of.state ≡ restored) × (find now.path t ≡ some (holds now.record_of))
unfolding set_state write ◌>>=◌ pure
moved-restored tx now s t h =
    subst
      (λ p. elim p.0 [
        | ok x ↦ (x.record_of.state ≡ restored) × (find x.path p.1 ≡ some (holds x.record_of))
        | err e ↦ Unit
      ])
      h (refl, find-put tx.path (holds (moved restored tx).record_of) s)

transition_to-restored :
    (expected : Option State) (tx now : Transaction) (s t : Store)
    → transition_to expected tx restored s ≡ (ok now, t)
    → (now.record_of.state ≡ restored) × (find now.path t ≡ some (holds now.record_of))
unfolding transition_to raise
transition_to-restored none tx now s t h = absurd (err-ok (ap (λ p. p.0) h))
transition_to-restored (some expected) tx now s t h =
    elim (Bool-cases (same_state restored expected)) [
      | inl right ↦ moved-restored tx now s t (rw right at h)
      | inr wrong ↦ absurd (err-ok (ap (λ p. p.0) (rw wrong at h)))
    ]

stored-eq-ok :
    (r : Result Failure Transaction) (s : Store) (m : Machine) {t : Machine}
    → stored (r, s) m ≡ (ok tt, t)
    → (now : Transaction) × (r ≡ ok now) × (record m { store = s; tx = now } ≡ t)
unfolding stored
stored-eq-ok (ok now) s m h = (now, refl, ap (λ p. p.1) h)
stored-eq-ok (err e) s m h = absurd (err-ok (ap (λ p. p.0) h))

module _ (o : Outside) where
  transition-IsOver :
      (m t : Machine)
      → with_tx (λ tx. transition tx restored) m ≡ (ok tt, t)
      → IsOver t × (t.current ≡ m.current)
  unfolding with_tx transition
  transition-IsOver m t h =
      let (now, r, same) = stored-eq-ok (transition m.tx restored m.store).0 _ m h in
      let over =
        transition_to-restored (successor m.tx.record_of.state) m.tx now m.store
          (transition m.tx restored m.store).1
          (ap (λ q. (q, (transition m.tx restored m.store).1)) r) in
      (subst IsOver same over, sym (ap (λ u. u.current) same))

  settle-IsOver : (m t : Machine) → settle o m ≡ (ok tt, t) → IsOver t × (t.current ≡ m.current)
  unfolding settle
  settle-IsOver m t h =
      let (u, a, e) = returned (effective o false) _ m h in
      let (over, same) = transition-IsOver (effective o false m).1 t e in
      (over, same ∙ ((effective-SameFiles o false).at m).1)

  IsBack-same :
      (value : Snapshot) (m t : Machine)
      → t.current ≡ m.current
      → IsBack o value m
      → IsBack o value t
  IsBack-same value m t e (found, read, same) = (found, ap (read_named o.world true) e ∙ read, same)

  IsBack-given :
      (value : Snapshot) (hash guard : String) (m : Machine) (r : Result Failure (Unit {0}))
      (d : Dir)
      → restore o.world value hash (dir_of guard m) ≡ (r, d)
      → (give r (put_dir guard d m)).0 ≡ ok tt
      → IsBack o value (give r (put_dir guard d m)).1
  unfolding give
  IsBack-given value hash guard m (ok u) d e h =
      restore-exact o.world value hash (dir_of guard m) d e
  IsBack-given value hash guard m (err x) d e h = absurd (err-ok h)

  with_dir-IsBack :
      (value : Snapshot) (hash guard : String) (m : Machine)
      → (with_dir guard (restore o.world value hash) m).0 ≡ ok tt
      → IsBack o value (with_dir guard (restore o.world value hash) m).1
  unfolding with_dir
  with_dir-IsBack value hash guard m h =
      IsBack-given value hash guard m (restore o.world value hash (dir_of guard m)).0
        (restore o.world value hash (dir_of guard m)).1 refl h

  settle-IsRestored :
      (value : Snapshot) (m t : Machine)
      → IsBack o value m
      → settle o m ≡ (ok tt, t)
      → IsRestored o value t
  settle-IsRestored value m t back h =
      let (over, same) = settle-IsOver m t h in (IsBack-same value m t same back, over)

  pub restore_settled-IsRestored :
      (value : Snapshot) (hash guard : String) (m t : Machine)
      → restore_settled o value hash guard m ≡ (ok tt, t)
      → IsRestored o value t
  unfolding restore_settled
  restore_settled-IsRestored value hash guard m t h =
      let (u, a, e) = returned (with_dir guard (restore o.world value hash)) _ m h in
      settle-IsRestored value _ t (with_dir-IsBack value hash guard m a) e

  start_again-IsBack :
      (value : Snapshot) (m : Machine) → IsBack o value m → IsBack o value (start_again o m).1
  start_again-IsBack value m back =
      IsBack-same value m (start_again o m).1 ((start_again-SameFiles o).at m).1 back

  pub restore_stopped-IsRestored :
      (value : Snapshot) (hash guard : String) (m t : Machine)
      → restore_stopped o value hash guard m ≡ (ok tt, t)
      → IsRestored o value t
  unfolding restore_stopped
  restore_stopped-IsRestored value hash guard m t h =
      let (u, a, e) = returned (stop o) _ m h in
      let (u2, a2, e2) = returned (with_dir guard (restore o.world value hash)) _ _ e in
      let back = with_dir-IsBack value hash guard _ a2 in
      let (u3, a3, e3) = returned (start_again o) _ _ e2 in
      settle-IsRestored value _ t (start_again-IsBack value _ back) e3
