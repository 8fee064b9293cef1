-- ===== src/Staging/Executor/Recovered.antt =====
-- scripts/staging/hermes_staging_socket_diagnostic.py: what `recover` guarantees where it returns.
use hermes_ops.Prelude.{
  ℕ, suc, ◌≡◌, refl, ap, ◌∙◌, subst, inl, inr, String, Bool, true, false, Option, none, some, List,
  [], ◌∷◌, ltb, arith, Bool-cases, if◌then◌else◌,
}
use hermes_ops.Result.{Result, ok, err}
use hermes_ops.Exec.{pure, ◌>>=◌}
use hermes_ops.Staging.Request.{Failure, diagnostic_error}
use hermes_ops.Staging.Transactions.{
  prepared, is_terminal, same_state, Record, holds, Store, Transaction, find, transactions,
  abort_prepared,
}
use hermes_ops.Staging.Restoration.{returned}
use hermes_ops.Staging.Executor.{Outside, Machine, Stop, give, fail, with_tx, start_deadline}
use hermes_ops.Staging.Executor.Lock.{open_lock}
use hermes_ops.Staging.Executor.Recover.{
  start_recovery, Tally, recover_active, recover_one, recover_all, stored_transactions, recover,
}
use hermes_ops.Staging.Executor.Settled.{err-ok, ok-same}
use hermes_ops.Staging.Executor.Left.{
  first, AreLeft, IsDone, over-left, terminal-IsDone, found-first,
}
use hermes_ops.Staging.Executor.Done.{recover_active-IsDone, aborted-IsDone}

none-some : {r : Record} → ◌≡◌ {A = Option Record} none (some r) → ⊥
none-some e = cc

one-more : {n : ℕ} → suc n ≡ 0 → ⊥
one-more e = omega arith

module _ (o : Outside) where
  counts-left :
      (good : Bool) (n : Tally) (m t : Machine) {final : Tally}
      → pure {E = Stop}
          (if good
            then record n { recovered = suc n.recovered }
            else record n { failed = suc n.failed })
          m
        ≡ (ok final, t)
      → final.failed ≡ 0
      → (good ≡ true) × (n.failed ≡ 0) × (m ≡ t)
  unfolding pure
  counts-left true n m t {final} h e =
      (refl, ap (λ x. x.failed) (ok-same (ap (λ p. p.0) h)) ∙ e, ap (λ p. p.1) h)
  counts-left false n m t {final} h e =
      let more : suc n.failed ≡ final.failed = ap (λ x. x.failed) (ok-same (ap (λ p. p.0) h)) in
      absurd (one-more (more ∙ e))

  active-left :
      (tx : Transaction) (n final : Tally) (m t : Machine)
      → (start_recovery o tx >>= λ _. recover_active o >>= λ good. pure (
            if good
            then record n { recovered = suc n.recovered }
            else record n { failed = suc n.failed }))
          m
        ≡ (ok final, t)
      → final.failed ≡ 0
      → (n.failed ≡ 0) × IsDone tx.path m.store t.store
  unfolding start_recovery
  active-left tx n final m t h e =
      let (u1, a1, e1) = returned (start_recovery o tx) _ m h in
      let (good, a2, e2) = returned (recover_active o) _ (record m { tx = tx }) e1 in
      let (fine, zero_failed, same) =
        counts-left good n (recover_active o (record m { tx = tx })).1 t e2 e in
      (
        zero_failed,
        recover_active-IsDone o (record m { tx = tx }) t
            (ap (λ r. (r, (recover_active o (record m { tx = tx })).1)) (a2 ∙ ap ok fine)
              ∙ ap (λ v. (ok true, v)) same),
      )

  prepared-left :
      (tx : Transaction) (n final : Tally) (m t : Machine)
      → same_state tx.record_of.state prepared ≡ true
      → (start_recovery o tx >>= λ _.
            with_tx abort_prepared >>= λ _. pure (record n { aborted = suc n.aborted }))
          m
        ≡ (ok final, t)
      → final.failed ≡ 0
      → (n.failed ≡ 0) × IsDone tx.path m.store t.store
  unfolding start_recovery pure
  prepared-left tx n final m t st h e =
      let (u1, a1, e1) = returned (start_recovery o tx) _ m h in
      let (u2, a2, e2) = returned (with_tx abort_prepared) _ (record m { tx = tx }) e1 in
      (
        ap (λ x. x.failed) (ok-same (ap (λ p. p.0) e2)) ∙ e,
        aborted-IsDone tx m t st (
            ap (λ r. (r, (with_tx abort_prepared (record m { tx = tx })).1)) a2
            ∙ ap (λ p. (ok tt, p.1)) e2),
      )

  one-left :
      (tx : Transaction) (rest : List Transaction) (n final : Tally) (m t : Machine)
      → recover_one o tx n m ≡ (ok final, t)
      → final.failed ≡ 0
      → (n.failed ≡ 0) × (AreLeft m.store (tx ∷ rest) → AreLeft t.store rest)
  unfolding recover_one pure
  one-left tx rest n final m t h e = elim (Bool-cases (is_terminal tx.record_of.state)) [
    | inl ended ↦
        let same = rw ended at h in
        (
          ap (λ x. x.failed) (ok-same (ap (λ p. p.0) same)) ∙ e,
          λ left.
              subst (λ v. AreLeft v.store rest) (ap (λ p. p.1) same)
                (over-left tx rest m.store m.store left
                  (terminal-IsDone tx rest m.store left ended)),
        )
    | inr going ↦ elim (Bool-cases (same_state tx.record_of.state prepared)) [
      | inl st ↦
          let (zero_failed, done) = prepared-left tx n final m t st (rw (going, st) at h) e in
          (zero_failed, λ left. over-left tx rest m.store t.store left done)
      | inr st ↦
          let (zero_failed, done) = active-left tx n final m t (rw (going, st) at h) e in
          (zero_failed, λ left. over-left tx rest m.store t.store left done)
    ]
  ]

  all-left :
      (ts : List Transaction) (n final : Tally) (m t : Machine)
      → recover_all o ts n m ≡ (ok final, t)
      → final.failed ≡ 0
      → (n.failed ≡ 0) × (AreLeft m.store ts → AreLeft t.store [])
  unfolding recover_all pure
  all-left [] n final m t h e = (
    ap (λ x. x.failed) (ok-same (ap (λ p. p.0) h)) ∙ e,
    subst (λ v. AreLeft m.store [] → AreLeft v.store []) (ap (λ p. p.1) h) (λ left. left),
  )
  all-left (tx ∷ rest) n final m t h e =
      let (more, a, h1) = returned (recover_one o tx n) _ m h in
      let u : Machine = (recover_one o tx n m).1 in
      let (zero_more, later) = all-left rest more final u t h1 e in
      let (zero_failed, now) = one-left tx rest n more m u (ap (λ r. (r, u)) a) zero_more in
      (zero_failed, λ left. later (now left))

  not-positive : (k : ℕ) → ltb 0 k ≡ false → k ≡ 0
  not-positive k e = ground arith

  fine-or-not :
      (n final : Tally) (m t : Machine)
      → (if ltb 0 n.failed then fail diagnostic_error else pure n) m ≡ (ok final, t)
      → (n.failed ≡ 0) × (m ≡ t)
  unfolding fail pure
  fine-or-not n final m t h = elim (Bool-cases (ltb 0 n.failed)) [
    | inl bad ↦ absurd (err-ok (ap (λ p. p.0) (rw bad at h)))
    | inr good ↦ (not-positive n.failed good, ap (λ p. p.1) (rw good at h))
  ]

  none-left :
      (s : Store)
      → AreLeft s []
      → (q : String) (r : Record) → find q s ≡ some (holds r)
      → is_terminal r.state ≡ true
  unfolding first
  none-left s left q r h = elim (Bool-cases (is_terminal r.state)) [
    | inl over ↦ over
    | inr going ↦ absurd (none-some (left q r h going))
  ]

  give-eq-ok :
      {A : Type 0} (r : Result Failure A) (m : Machine) {a : A}
      → (give r m).0 ≡ ok a
      → (r ≡ ok a) × ((give r m).1 ≡ m)
  unfolding give
  give-eq-ok (ok b) m e = (ap ok (ok-same e), refl)
  give-eq-ok (err x) m e = absurd (err-ok e)

  abbrev nothing_done : Tally
  nothing_done = record { recovered = 0; aborted = 0; failed = 0 }

  counted-left :
      (ts : List Transaction) (n : Tally) (m t : Machine)
      → (recover_all o ts nothing_done >>= λ k.
            if ltb 0 k.failed then fail diagnostic_error else pure k)
          m
        ≡ (ok n, t)
      → AreLeft m.store ts
      → AreLeft t.store []
  counted-left ts n m t h =
      let (k, a, e) =
        returned (recover_all o ts nothing_done)
          (λ k. if ltb 0 k.failed then fail diagnostic_error else pure k) m h in
      let u : Machine = (recover_all o ts nothing_done m).1 in
      let (zero_failed, same) = fine-or-not k n u t e in
      let (start, later) = all-left ts nothing_done k m u (ap (λ r. (r, u)) a) zero_failed in
      λ left. subst (λ v. AreLeft v.store []) same (later left)

  stored-left :
      (n : Tally) (m t : Machine)
      → (stored_transactions o >>= λ found. recover_all o found nothing_done >>= λ k.
            if ltb 0 k.failed then fail diagnostic_error else pure k)
          m
        ≡ (ok n, t)
      → AreLeft t.store []
  unfolding stored_transactions
  stored-left n m t h =
      let (found, a, e) = returned (stored_transactions o) _ m h in
      let (read, same) = give-eq-ok (transactions m.store) m a in
      counted-left found n m t
        (subst
          (λ v.
            (recover_all o found nothing_done >>= λ k.
            if ltb 0 k.failed then fail diagnostic_error else pure k)
              v
            ≡ (ok n, t))
          same e)
        λ q r there going. found-first q r m.store found read there

  -- A recovery that returns leaves no transaction that is not over: each record on disk that can be
  -- found by its directory's name is RESTORED or ABORTED.
  pub recover-is_terminal :
      (m t : Machine) (n : Tally) (q : String) (r : Record)
      → recover o m ≡ (ok n, t)
      → find q t.store ≡ some (holds r)
      → is_terminal r.state ≡ true
  unfolding recover
  recover-is_terminal m t n q r h there =
      let (u1, a1, e1) = returned (start_deadline o 240) _ m h in
      let (u2, a2, e2) = returned (open_lock o) _ _ e1 in
      none-left t.store (stored-left n _ t e2) q r there
