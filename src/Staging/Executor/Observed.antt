-- ===== src/Staging/Executor/Observed.antt =====
-- scripts/staging/hermes_staging_socket_diagnostic.py: what `run` guarantees where it returns.
use hermes_ops.Prelude.{
  ◌≡◌, refl, sym, ap, ◌∙◌, subst, ◌⊎◌, inl, inr, String, Bool, true, false, none, Bool-cases,
}
use hermes_ops.Result.{Result, ok, err}
use hermes_ops.Exec.{pure, lift, ◌>>=◌}
use hermes_ops.Exec.Keeps.{IsPreorder, Keeps, Keeps-pure, Keeps-if, Keeps-bind}
use hermes_ops.Staging.Request.{Failure, diagnostic_error, Request}
use hermes_ops.Staging.Snapshots.{Snapshot, read_named, enabled_payload}
use hermes_ops.Staging.Transactions.{
  prepared, armed, restored, same_state, Store, Transaction, prepare, save_snapshot,
}
use hermes_ops.Staging.Config.{Dir, open_dir, read_current, snapshot}
use hermes_ops.Staging.Restoration.{returned}
use hermes_ops.Staging.Executor.{
  Outside, Machine, Stop, raised, killed, Act, give, fail, stored, with_tx, look, start_deadline,
  inspect_env, inspect_image, inspect_mount,
}
use hermes_ops.Staging.Executor.Lock.{open_lock}
use hermes_ops.Staging.Executor.Metadata.{not_yet}
use hermes_ops.Staging.Executor.Preflight.{refuse_run, check_host, check_container, preflight}
use hermes_ops.Staging.Executor.Directory.{open_transaction}
use hermes_ops.Staging.Executor.Restore.{the_tx, guard_name, restore_tx}
use hermes_ops.Staging.Executor.Run.{
  Counts, Answer, counted, forward, finally_restore, forward_then_restore, write_result, saved_of,
  save_original, check_device, advance, run_prepared, run_from, run,
}
use hermes_ops.Staging.Executor.Frames.{
  open_lock-SameFiles, SameFiles, SameFiles-order, Keeps-give, Keeps-fail, command-SameFiles,
  wait_healthy-SameFiles, effective-SameFiles,
}
use hermes_ops.Staging.Counting.{find-put}
use hermes_ops.Staging.Executor.Settled.{IsRestored, err-ok, ok-same}
use hermes_ops.Staging.Executor.Restored.{restore_tx-IsRestored}

-- gateway.json is untouched.
abbrev SameCurrent : Machine → Machine → Type 0
SameCurrent s t = t.current ≡ s.current

SameCurrent-order : IsPreorder SameCurrent
SameCurrent-order = record { same = λ s. refl; compose = λ s t u f g. g ∙ f }

files-current : {A : Type 0} (m : Act A) → Keeps SameFiles m → Keeps SameCurrent m
files-current m k = record { at = λ s. (k.at s).1 }

refuse_run-SameFiles : (test : Bool) → Keeps SameFiles (refuse_run test)
refuse_run-SameFiles test =
    Keeps-if SameFiles-order test _ _ (Keeps-fail SameFiles-order diagnostic_error)
      (Keeps-pure SameFiles-order tt)

stored-SameCurrent :
    (r : Result Failure Transaction) (s : Store) (m : Machine) → SameCurrent m (stored (r, s) m).1
unfolding stored
stored-SameCurrent (ok tx) s m = refl
stored-SameCurrent (err e) s m = refl

with_tx-SameCurrent :
    (method : Transaction → Store → Result Failure Transaction × Store)
    → Keeps SameCurrent (with_tx method)
unfolding with_tx
with_tx-SameCurrent method = record { at = λ m. stored-SameCurrent (method m.tx m.store).0 _ m }

give-same : {A : Type 0} (r : Result Failure A) (m : Machine) → (give r m).1 ≡ m
unfolding give
give-same (ok a) m = refl
give-same (err e) m = refl

given-ok :
    {A : Type 0} (r : Result Failure A) (m : Machine) {a : A} → (give r m).0 ≡ ok a → r ≡ ok a
unfolding give
given-ok (ok b) m e = ap ok (ok-same e)
given-ok (err x) m e = absurd (err-ok e)

look-SameFiles :
    {A : Type 0} (method : Dir → Result Failure A × Dir) → Keeps SameFiles (look method)
unfolding look
look-SameFiles method = record {
  at = λ m. subst (SameFiles m) (sym (give-same _ m)) (refl, refl, refl);
}

module _ (o : Outside) where
  check_host-SameFiles : (r : Request) → Keeps SameFiles (check_host o r)
  unfolding check_host
  check_host-SameFiles r = Keeps-bind SameFiles-order _ _ (refuse_run-SameFiles _) λ _.
      Keeps-bind SameFiles-order _ _ (Keeps-give SameFiles-order _) λ release.
        Keeps-bind SameFiles-order _ _ (Keeps-give SameFiles-order _) λ image.
          Keeps-bind SameFiles-order _ _ (Keeps-give SameFiles-order _) λ runtime.
            Keeps-bind SameFiles-order _ _ (refuse_run-SameFiles _)
              λ _. Keeps-pure SameFiles-order image

  check_container-SameFiles :
      (r : Request) (image : String) → Keeps SameFiles (check_container o r image)
  unfolding check_container
  check_container-SameFiles r image =
      Keeps-bind SameFiles-order _ _ (command-SameFiles o inspect_env 15) λ env_output.
        Keeps-bind SameFiles-order _ _ (refuse_run-SameFiles _) λ _.
          Keeps-bind SameFiles-order _ _ (command-SameFiles o inspect_image 15) λ configured.
            Keeps-bind SameFiles-order _ _ (refuse_run-SameFiles _) λ _.
              Keeps-bind SameFiles-order _ _ (command-SameFiles o inspect_mount 15)
                λ mount. refuse_run-SameFiles _

  preflight-SameFiles : (r : Request) → Keeps SameFiles (preflight o r)
  unfolding preflight
  preflight-SameFiles r = Keeps-bind SameFiles-order _ _ (check_host-SameFiles r) λ image.
      Keeps-bind SameFiles-order _ _ (check_container-SameFiles r image) λ _.
        Keeps-bind SameFiles-order _ _ (wait_healthy-SameFiles o) λ _.
          Keeps-bind SameFiles-order _ _ (effective-SameFiles o false) λ _.
            Keeps-bind SameFiles-order _ _ (look-SameFiles (snapshot o.world))
              λ value. Keeps-give SameFiles-order (not_yet o.world.parse value)

  snapshot-read :
      (value : Snapshot) (m : Machine)
      → (look (snapshot o.world) m).0 ≡ ok value
      → read_named o.world true m.current ≡ ok value
  unfolding look snapshot read_current lift ◌>>=◌
  snapshot-read value m h =
      let d : Dir = record { current = m.current; guard = none; quarantine = none } in
      let r = given-ok (snapshot o.world d).0 m h in
      let (u, a, e) =
        returned (lift (open_dir o.world)) _ d (ap (λ q. (q, (snapshot o.world d).1)) r) in
      ap (λ p. p.0) e

  ended :
      (value : Snapshot) (hash : String) (r : Result Stop Counts) (c : Counts) (m t : Machine)
      → (start_deadline o 240 >>= λ _. restore_tx o value hash true >>= λ _. λ u. (r, u)) m
        ≡ (ok c, t)
      → IsRestored o value t
  ended value hash r c m t h =
      let (u1, a1, e1) = returned (start_deadline o 240) _ m h in
      let u : Machine = (start_deadline o 240 m).1 in
      let (u2, a2, e2) = returned (restore_tx o value hash true) (λ _ v. (r, v)) u e1 in
      restore_tx-IsRestored o value hash true u t
        (ap (λ q. (q, (restore_tx o value hash true u).1)) a2 ∙ ap (λ p. (ok tt, p.1)) e2)

  finally-IsRestored :
      (value : Snapshot) (hash : String) (p : Result Stop Counts × Machine) (c : Counts)
      (t : Machine)
      → finally_restore o value hash p ≡ (ok c, t)
      → IsRestored o value t
  unfolding finally_restore
  finally-IsRestored value hash (err killed, m) c t h = absurd (err-ok (ap (λ p. p.0) h))
  finally-IsRestored value hash (err (raised e), m) c t h = ended value hash _ c m t h
  finally-IsRestored value hash (ok d, m) c t h = ended value hash _ c m t h

  write_result-IsRestored :
      (value : Snapshot) (c : Counts) (m : Machine)
      → IsRestored o value m
      → IsRestored o value (write_result o c m).1
  unfolding write_result
  write_result-IsRestored value c m (back, over) = (back, (over.0, find-put m.tx.path _ m.store))

  reported :
      (r : Request) (value : Snapshot) (hash guard : String) (answer : Answer) (m t : Machine)
      → (forward_then_restore o r value hash guard >>= λ counts.
            write_result o counts >>= λ _. pure (counted counts))
          m
        ≡ (ok answer, t)
      → IsRestored o value t
  unfolding forward_then_restore pure
  reported r value hash guard answer m t h =
      let (counts, a, e) = returned (forward_then_restore o r value hash guard) _ m h in
      let u : Machine = (forward_then_restore o r value hash guard m).1 in
      let back =
        finally-IsRestored value hash (forward o r value hash guard m) counts u
          (ap (λ q. (q, u)) a) in
      let (v, a2, e2) = returned (write_result o counts) (λ _. pure (counted counts)) u e in
      subst (IsRestored o value) (ap (λ p. p.1) e2) (write_result-IsRestored value counts u back)

  run_prepared-IsRestored :
      (r : Request) (answer : Answer) (m t : Machine)
      → run_prepared o r m ≡ (ok answer, t)
      → (value : Snapshot) × (read_named o.world true m.current ≡ ok value) × IsRestored o value t
  unfolding run_prepared
  run_prepared-IsRestored r answer m t h =
      let (value, a1, e1) = returned (look (snapshot o.world)) _ m h in
      let (u2, a2, e2) = returned (save_original o value) _ _ e1 in
      let (u3, a3, e3) = returned (with_tx (λ tx. save_snapshot tx (saved_of value))) _ _ e2 in
      let (guard, a4, e4) = returned guard_name _ _ e3 in
      let (u0, a0, e0) = returned (open_transaction o) _ _ e4 in
      let (u5, a5, e5) = returned (check_device o) _ _ e0 in
      let (u6, a6, e6) = returned (advance o armed "ARMED") _ _ e5 in
      let (content, a7, e7) = returned (give (enabled_payload o.world value)) _ _ e6 in
      (value, snapshot-read value m a1, reported r value (o.world.sha content) guard answer _ t e7)

  -- gateway.json is untouched, or it is the snapshot of what it was and the transaction is RESTORED.
  abbrev pub IsAsBefore : Machine → Machine → Type 0
  IsAsBefore m t =
      (t.current ≡ m.current)
      ⊎ ((value : Snapshot) × (read_named o.world true m.current ≡ ok value) × IsRestored o value t)

  run_from-IsAsBefore :
      (r : Request) (tx : Transaction) (answer : Answer) (m t : Machine)
      → run_from o r tx m ≡ (ok answer, t)
      → IsAsBefore m t
  unfolding run_from pure fail
  run_from-IsAsBefore r tx answer m t h =
      elim (Bool-cases (same_state tx.record_of.state restored)) [
        | inl over ↦ inl (sym (ap (λ p. p.1.current) (rw over at h)))
        | inr new ↦ elim (Bool-cases (same_state tx.record_of.state prepared)) [
          | inl ready ↦ inr (run_prepared-IsRestored r answer m t (rw (new, ready) at h))
          | inr busy ↦ absurd (err-ok (ap (λ p. p.0) (rw (new, busy) at h)))
        ]
      ]

  before-IsAsBefore : (m u t : Machine) → u.current ≡ m.current → IsAsBefore u t → IsAsBefore m t
  before-IsAsBefore m u t e (inl same) = inl (same ∙ e)
  before-IsAsBefore m u t e (inr (value, read, back)) =
      inr (value, ap (read_named o.world true) (sym e) ∙ read, back)

  -- A run that returns, whatever was observed, leaves gateway.json untouched (an answer that was
  -- recorded before), or leaves the transaction RESTORED and gateway.json, readable, the same as the
  -- snapshot of what it was when the run began, or absent as it was.
  pub run-IsAsBefore :
      (r : Request) (answer : Answer) (m t : Machine) → run o r m ≡ (ok answer, t) → IsAsBefore m t
  unfolding run the_tx start_deadline
  run-IsAsBefore r answer m t h =
      let (u1, a1, e1) = returned (start_deadline o 600) _ m h in
      let (u2, a2, e2) = returned (open_lock o) _ _ e1 in
      let (u3, a3, e3) = returned (preflight o r) _ _ e2 in
      let (u4, a4, e4) = returned (with_tx (λ tx. prepare o.digest_of r)) _ _ e3 in
      let (tx, a5, e5) = returned the_tx (run_from o r) _ e4 in
      let m1 : Machine = (start_deadline o 600 m).1 in
      let m2 : Machine = (open_lock o m1).1 in
      let m3 : Machine = (preflight o r m2).1 in
      let m4 : Machine = (with_tx (λ x. prepare o.digest_of r) m3).1 in
      let same : m4.current ≡ m.current =
        (with_tx-SameCurrent (λ x. prepare o.digest_of r)).at m3
        ∙ ((preflight-SameFiles r).at m2).1
        ∙ ((open_lock-SameFiles o).at m1).1 in
      before-IsAsBefore m m4 t same (run_from-IsAsBefore r tx answer m4 t e5)
