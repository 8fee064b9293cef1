-- ===== src/Staging/Executor/Done.antt =====
-- scripts/staging/hermes_staging_socket_diagnostic.py: what the recovery of one transaction leaves on disk.
use hermes_ops.Prelude.{
  ◌≡◌, sym, ap, ◌∙◌, subst, inl, inr, String, Bool, true, false, Option, none, some, ◌==◌,
  if◌then◌else◌,
}
use hermes_ops.Result.{Result, ok, err}
use hermes_ops.Exec.{pure, ◌>>=◌}
use hermes_ops.Exec.Keeps.{Keeps, Keeps-pure, Keeps-if, Keeps-bind}
use hermes_ops.Staging.Request.{Failure}
use hermes_ops.Staging.Snapshots.{Snapshot, enabled_payload}
use hermes_ops.Staging.Transactions.{
  Saved, prepared, aborted, is_terminal, same_state, holds, Store, Transaction, put, write, moved,
  set_state, abort_prepared, load_snapshot,
}
use hermes_ops.Staging.Restoration.{returned}
use hermes_ops.Staging.Executor.{Outside, Machine, give, fail, catch, stored, with_tx}
use hermes_ops.Staging.Executor.Restore.{the_tx}
use hermes_ops.Staging.Executor.Recover.{
  loaded_as, load, mutated_hash, recover_body, mark_failed, is_diagnostic, recover_active,
}
use hermes_ops.Staging.Counting.{find-put}
use hermes_ops.Staging.Executor.Settled.{IsOver, err-ok, ok-same, caught-eq-ok}
use hermes_ops.Staging.Executor.Restored.{restore_tx-IsRestored}
use hermes_ops.Staging.Executor.Paths.{
  OnlyOwn, OnlyOwn-order, find-put_other, given-OnlyOwn, restore_tx-OnlyOwn,
}
use hermes_ops.Staging.Executor.Left.{true-false, IsDone, same-record, over-IsDone}

the_tx-OnlyOwn : Keeps OnlyOwn the_tx
unfolding the_tx
the_tx-OnlyOwn = record { at = λ s. OnlyOwn-order.same s }

give-OnlyOwn : {A : Type 0} (r : Result Failure A) → Keeps OnlyOwn (give r)
give-OnlyOwn r = record { at = λ s. given-OnlyOwn r s s (OnlyOwn-order.same s) }

module _ (o : Outside) where
  loaded-OnlyOwn :
      (r : Result Failure (Saved × String)) (m : Machine) → OnlyOwn m (loaded_as o r m).1
  unfolding loaded_as fail
  loaded-OnlyOwn (ok found) m = OnlyOwn-order.same m
  loaded-OnlyOwn (err e) m = OnlyOwn-order.same m

  load-OnlyOwn : Keeps OnlyOwn (load o)
  unfolding load
  load-OnlyOwn = record {
    at = λ m. loaded-OnlyOwn (load_snapshot o.world.sha (m.originals m.tx.path) m.tx) m;
  }

  text_hash-OnlyOwn :
      (value : Snapshot)
      → Keeps OnlyOwn
          (give (enabled_payload o.world value) >>= λ content. pure (o.world.sha content))
  text_hash-OnlyOwn value =
      Keeps-bind OnlyOwn-order _ _ (give-OnlyOwn (enabled_payload o.world value))
        λ content. Keeps-pure OnlyOwn-order (o.world.sha content)

  mutated_hash-OnlyOwn :
      (value : Snapshot) (known : Option String) → Keeps OnlyOwn (mutated_hash o value known)
  unfolding mutated_hash
  mutated_hash-OnlyOwn value none = text_hash-OnlyOwn value
  mutated_hash-OnlyOwn value (some hash) =
      Keeps-if OnlyOwn-order (hash == "") _ _ (text_hash-OnlyOwn value)
        (Keeps-pure OnlyOwn-order hash)

  recover_body-OnlyOwn : Keeps OnlyOwn (recover_body o)
  unfolding recover_body
  recover_body-OnlyOwn = Keeps-bind OnlyOwn-order _ _ load-OnlyOwn λ value.
      Keeps-bind OnlyOwn-order _ _ the_tx-OnlyOwn λ tx.
        Keeps-bind OnlyOwn-order _ _ (mutated_hash-OnlyOwn value tx.record_of.mutated_sha256)
          λ hash. restore_tx-OnlyOwn o value hash

  recover_body-IsOver : (m t : Machine) → recover_body o m ≡ (ok tt, t) → IsOver t
  unfolding recover_body
  recover_body-IsOver m t h =
      let (value, a1, e1) = returned (load o) _ m h in
      let (tx, a2, e2) = returned the_tx _ _ e1 in
      let (hash, a3, e3) = returned (mutated_hash o value tx.record_of.mutated_sha256) _ _ e2 in
      (restore_tx-IsRestored o value hash false _ t e3).1

  recover_body-IsDone :
      (m t : Machine) → recover_body o m ≡ (ok tt, t) → IsDone m.tx.path m.store t.store
  recover_body-IsDone m t h =
      over-IsDone m t (recover_body-IsOver m t h)
        (subst (OnlyOwn m) (ap (λ p. p.1) h) (recover_body-OnlyOwn.at m))

  then-IsDone :
      (m t : Machine)
      → (recover_body o >>= λ _. pure true) m ≡ (ok true, t)
      → IsDone m.tx.path m.store t.store
  unfolding pure
  then-IsDone m t h =
      let (u, a, e) = returned (recover_body o) _ m h in
      recover_body-IsDone m t (ap (λ r. (r, (recover_body o m).1)) a ∙ ap (λ p. (ok tt, p.1)) e)

  never :
      (diagnostic : Bool) (e : Failure) (m t : Machine)
      → (if diagnostic then (mark_failed o >>= λ _. pure false) else fail e) m ≡ (ok true, t)
      → ⊥
  unfolding pure fail
  never true e m t h =
      let (u, a, f) = returned (mark_failed o) (λ _. pure false) m h in
      true-false (sym (ok-same (ap (λ p. p.0) f)))
  never false e m t h = err-ok (ap (λ p. p.0) h)

  pub recover_active-IsDone :
      (m t : Machine) → recover_active o m ≡ (ok true, t) → IsDone m.tx.path m.store t.store
  unfolding recover_active catch
  recover_active-IsDone m t h = elim (caught-eq-ok _ _ _ h) [
    | inl done ↦ then-IsDone m t done
    | inr (e, r, later) ↦ absurd (never (is_diagnostic e) e _ t later)
  ]

put-IsDone :
    (tx : Transaction) (s : Store)
    → IsDone tx.path s (put tx.path (holds (moved aborted tx).record_of) s)
put-IsDone tx s = (
  λ r f.
      let same = same-record (sym (find-put tx.path (holds (moved aborted tx).record_of) s) ∙ f) in
      sym (ap (λ x. is_terminal x.state) same),
  λ q e. find-put_other tx.path q (holds (moved aborted tx).record_of) s e,
)

pub aborted-IsDone :
    (tx : Transaction) (m t : Machine)
    → same_state tx.record_of.state prepared ≡ true
    → with_tx abort_prepared (record m { tx = tx }) ≡ (ok tt, t)
    → IsDone tx.path m.store t.store
unfolding with_tx stored abort_prepared set_state write ◌>>=◌ pure
aborted-IsDone tx m t e h =
    subst (IsDone tx.path m.store) (ap (λ p. p.1.store) (rw e at h)) (put-IsDone tx m.store)
