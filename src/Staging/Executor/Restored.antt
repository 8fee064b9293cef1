-- ===== src/Staging/Executor/Restored.antt =====
-- scripts/staging/hermes_staging_socket_diagnostic.py: what `_restore` guarantees where it returns.
use hermes_ops.Prelude.{
  ℕ, zero, suc, ◌≡◌, refl, ap, ◌∙◌, inl, inr, String, Bool, true, false, Option, none, some, ltb,
  Bool-cases, if◌then◌else◌,
}
use hermes_ops.Result.{Result, ok}
use hermes_ops.Exec.{pure, ◌>>=◌}
use hermes_ops.Staging.Request.{diagnostic_error}
use hermes_ops.Staging.Snapshots.{Snapshot}
use hermes_ops.Staging.Transactions.{begin_restore, fail_restore}
use hermes_ops.Staging.Restoration.{returned}
use hermes_ops.Staging.Executor.{Outside, Machine, Stop, Act, fail, catch, with_tx, sleep_bounded}
use hermes_ops.Staging.Executor.Restore.{
  restore_settled, restore_stopped, attempts, is_settled, settled_or_stopped, give_up, barrier_if,
  restore_tx, guard_name,
}
use hermes_ops.Staging.Executor.Directory.{open_transaction}
use hermes_ops.Staging.Executor.Settled.{
  IsRestored, err-ok, ok-same, caught-eq-ok, restore_settled-IsRestored, restore_stopped-IsRestored,
}

module _ (o : Outside) where
  true-not-false : ◌≡◌ {A = Bool} false true → ⊥
  true-not-false e = cc

  -- A value that says so at the end of a `try` that cannot say `true` otherwise.
  then-true :
      (value : Snapshot) (body : Act (Unit {0})) (m t : Machine)
      → ((u : Machine) → body m ≡ (ok tt, u) → IsRestored o value u)
      → (body >>= λ _. pure true) m ≡ (ok true, t)
      → IsRestored o value t
  unfolding pure
  then-true value body m t k h =
      let (u, a, e) = returned body _ m h in
      k t (ap (λ r. (r, (body m).1)) a ∙ ap (λ p. (ok tt, p.1)) e)

  whole :
      {p : Result Stop Bool × Machine} {t : Machine}
      → p.0 ≡ ok true
      → ◌≡◌ {A = Result Stop Bool × Machine} (ok true, p.1) (ok true, t)
      → p ≡ (ok true, t)
  whole {p} first last = ap (λ r. (r, p.1)) first ∙ last

  attempts-IsRestored :
      (n : ℕ) (value : Snapshot) (hash guard : String) (m t : Machine)
      → attempts o n value hash guard m ≡ (ok true, t)
      → IsRestored o value t
  unfolding attempts pure catch
  attempts-IsRestored zero value hash guard m t h =
      absurd (true-not-false (ok-same (ap (λ p. p.0) h)))
  attempts-IsRestored (suc n) value hash guard m t h = elim (caught-eq-ok _ _ _ h) [
    | inl done ↦
        then-true value (restore_stopped o value hash guard) m t
          (λ u. restore_stopped-IsRestored o value hash guard m u) done
    | inr (e, r, later) ↦
        let (u, a, e1) = returned (if ltb 0 n then sleep_bounded o 3 else pure tt) _ _ later in
        attempts-IsRestored n value hash guard _ t e1
  ]

  -- The first attempt has succeeded, and nothing comes after it.
  once :
      (value : Snapshot) (hash guard : String) (m t : Machine)
      → (catch (restore_settled o value hash guard >>= λ _. pure true) (λ x. pure false) m).0
        ≡ ok true
      → pure {E = Stop} true
          (catch (restore_settled o value hash guard >>= λ _. pure true) (λ x. pure false) m).1
        ≡ (ok true, t)
      → IsRestored o value t
  unfolding pure catch
  once value hash guard m t first last = elim (caught-eq-ok _ _ _ (whole first last)) [
    | inl done ↦
        then-true value (restore_settled o value hash guard) m t
          (λ u. restore_settled-IsRestored o value hash guard m u) done
    | inr (e, r, later) ↦ absurd (true-not-false (ok-same (ap (λ p. p.0) later)))
  ]

  settled_or_stopped-IsRestored :
      (settled : Option Bool) (value : Snapshot) (hash guard : String) (m t : Machine)
      → settled_or_stopped o settled value hash guard m ≡ (ok true, t)
      → IsRestored o value t
  unfolding settled_or_stopped pure
  settled_or_stopped-IsRestored none value hash guard m t h =
      absurd (true-not-false (ok-same (ap (λ p. p.0) h)))
  settled_or_stopped-IsRestored (some false) value hash guard m t h =
      attempts-IsRestored 3 value hash guard m t h
  settled_or_stopped-IsRestored (some true) value hash guard m t h =
      let (done, a, e) =
        returned (catch (restore_settled o value hash guard >>= λ _. pure true) λ x. pure false)
          (λ b. if b then pure true else attempts o 3 value hash guard) m h in
      elim (Bool-cases done) [
        | inl finished ↦ once value hash guard m t (a ∙ ap ok finished) (rw finished at e)
        | inr unfinished ↦ attempts-IsRestored 3 value hash guard _ t (rw unfinished at e)
      ]

  done-or-not :
      (done : Bool) (m t : Machine)
      → (if done then pure tt else give_up o) m ≡ (ok tt, t)
      → (done ≡ true) × (m ≡ t)
  unfolding give_up pure fail with_tx
  done-or-not true m t h = (refl, ap (λ p. p.1) h)
  done-or-not false m t h =
      let (u, a, e) = returned (with_tx fail_restore) (λ _. fail diagnostic_error) m h in
      absurd (err-ok (ap (λ p. p.0) e))

  decided-IsRestored :
      (settled : Option Bool) (value : Snapshot) (hash guard : String) (m t : Machine)
      → (settled_or_stopped o settled value hash guard >>= λ done.
            if done then pure tt else give_up o)
          m
        ≡ (ok tt, t)
      → IsRestored o value t
  decided-IsRestored settled value hash guard m t h =
      let u : Machine = (settled_or_stopped o settled value hash guard m).1 in
      let (done, a, e) =
        returned (settled_or_stopped o settled value hash guard)
          (λ b. if b then pure tt else give_up o) m h in
      let (finished, same) = done-or-not done u t e in
      settled_or_stopped-IsRestored settled value hash guard m t
        (ap (λ r. (r, u)) (a ∙ ap ok finished) ∙ ap (λ v. (ok true, v)) same)

  -- A restoration that returns leaves gateway.json, readable, the same as the snapshot (or absent as
  -- it was), and the transaction RESTORED, in memory and on disk, whichever attempt succeeded.
  pub restore_tx-IsRestored :
      (value : Snapshot) (hash : String) (allow_crash : Bool) (m t : Machine)
      → restore_tx o value hash allow_crash m ≡ (ok tt, t)
      → IsRestored o value t
  unfolding restore_tx
  restore_tx-IsRestored value hash allow_crash m t h =
      let (u1, a1, e1) = returned (with_tx begin_restore) _ m h in
      let (u2, a2, e2) = returned (barrier_if o allow_crash) _ _ e1 in
      let (guard, a3, e3) = returned guard_name _ _ e2 in
      let (u4, a4, e4) = returned (open_transaction o) _ _ e3 in
      let (settled, a5, e5) = returned (is_settled o value) _ _ e4 in
      decided-IsRestored settled value hash guard _ t e5
