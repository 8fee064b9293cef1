-- ===== src/Staging/Restoration.antt =====
-- scripts/staging/hermes_staging_socket_diagnostic.py: what `ConfigStore.restore` guarantees.
use hermes_ops.Prelude.{
  ◌≡◌, refl, sym, ap, ◌∙◌, String, Bool, true, false, not, ◌&&◌, arith, if◌then◌else◌,
}
use hermes_ops.Result.{Result, ok, err, refuse, refuse-eq-ok}
use hermes_ops.Exec.{Exec, resume, pure, raise, lift, ◌>>=◌}
use hermes_ops.Exec.Keeps.{IsPreorder, Keeps, Keeps-raise, Keeps-if, Keeps-bind}
use hermes_ops.Staging.Request.{config_drift_error}
use hermes_ops.Staging.Snapshots.{Snapshot, World, same_snapshot, read_named}
use hermes_ops.Staging.Config.{
  Dir, open_dir, read_current, read_guard, read_quarantine, quarantine_guard, discard,
  cleanup_guard, expected_mutated, bring_back, take_away, verify_and_clean, restore,
}

err-ok : {E A : Type 0} {x : E} {a : A} → ◌≡◌ {A = Result E A} (err x) (ok a) → ⊥
err-ok e = cc

module _ {S E A B : Type 0} where
  resume-eq-ok :
      (f : A → Exec S E B) (r : Result E A) (u : S) {b : B} {t : S}
      → resume f r u ≡ (ok b, t)
      → (a : A) × (r ≡ ok a) × (f a u ≡ (ok b, t))
  resume-eq-ok f (ok a) u e = (a, refl, e)
  resume-eq-ok f (err x) u e = absurd (err-ok (ap (λ p. p.0) e))

  -- A statement that returned was followed by the rest.
  pub returned :
      (m : Exec S E A) (f : A → Exec S E B) (s : S) {b : B} {t : S}
      → (m >>= f) s ≡ (ok b, t)
      → (a : A) × ((m s).0 ≡ ok a) × (f a (m s).1 ≡ (ok b, t))
  unfolding ◌>>=◌
  returned m f s e = resume-eq-ok f (m s).0 (m s).1 e

-- The configuration file is the same before and after.
abbrev SameCurrent : Dir → Dir → Type 0
SameCurrent s t = t.current ≡ s.current

SameCurrent-order : IsPreorder SameCurrent
SameCurrent-order = record { same = λ s. refl; compose = λ s t u f g. g ∙ f }

not-false : (b : Bool) → not b ≡ false → b ≡ true
not-false true e = refl
not-false false e = cc

module _ (w : World) where
  read_guard-SameCurrent : (b : Bool) → Keeps SameCurrent (read_guard w b)
  unfolding read_guard
  read_guard-SameCurrent b = record { at = λ s. refl }

  read_quarantine-SameCurrent : (b : Bool) → Keeps SameCurrent (read_quarantine w b)
  unfolding read_quarantine
  read_quarantine-SameCurrent b = record { at = λ s. refl }

  quarantine_guard-SameCurrent : Keeps SameCurrent (quarantine_guard w)
  unfolding quarantine_guard
  quarantine_guard-SameCurrent = record { at = λ s. ground arith }

  discard-SameCurrent :
      (quarantined expected : Snapshot) → Keeps SameCurrent (discard w quarantined expected)
  unfolding discard read_guard ◌>>=◌ raise pure
  discard-SameCurrent quarantined expected = record { at = λ s. ground arith }

  -- The cleanup does not touch the configuration file.
  cleanup_guard-SameCurrent : (expected : Snapshot) → Keeps SameCurrent (cleanup_guard w expected)
  unfolding cleanup_guard
  cleanup_guard-SameCurrent expected =
      Keeps-bind SameCurrent-order _ _ (read_guard-SameCurrent true) λ in_data.
        Keeps-bind SameCurrent-order _ _ (read_quarantine-SameCurrent true) λ quarantined.
          Keeps-if SameCurrent-order (in_data.existed && quarantined.existed) _ _
            (Keeps-raise SameCurrent-order _)
            (Keeps-if SameCurrent-order in_data.existed _ _
              (Keeps-bind SameCurrent-order _ _ quarantine_guard-SameCurrent λ _.
                Keeps-bind SameCurrent-order _ _ (read_quarantine-SameCurrent false)
                  λ taken. discard-SameCurrent taken expected)
              (discard-SameCurrent quarantined expected))

  verify_and_clean-exact :
      (value : Snapshot) (hash : String) (s t : Dir)
      → verify_and_clean w value hash s ≡ (ok tt, t)
      → (found : Snapshot) × (read_named w true t.current ≡ ok found)
        × (same_snapshot found value ≡ true)
  unfolding verify_and_clean read_current lift
  verify_and_clean-exact value hash s t e =
      let (found, read, e1) = returned (read_current w true) _ s e in
      let (u, passed, e2) =
        returned (lift (refuse (not (same_snapshot found value)) config_drift_error)) _ s e1 in
      let same = refuse-eq-ok (not (same_snapshot found value)) config_drift_error passed in
      let kept : t.current ≡ s.current =
        sym (ap (λ p. p.1.current) e2)
        ∙ (cleanup_guard-SameCurrent (expected_mutated w value hash)).at s in
      (found, ap (read_named w true) kept ∙ read, not-false (same_snapshot found value) same)

  -- A restoration that returns leaves a configuration file that can be read and that is the same as
  -- the snapshot: both are absent, or they have the same hash, mode and owner.
  pub restore-exact :
      (value : Snapshot) (hash : String) (s t : Dir)
      → restore w value hash s ≡ (ok tt, t)
      → (found : Snapshot) × (read_named w true t.current ≡ ok found)
        × (same_snapshot found value ≡ true)
  unfolding restore
  restore-exact value hash s t e =
      let (u1, a1, e1) = returned (lift (open_dir w)) _ s e in
      let (current, a2, e2) = returned (read_current w true) _ _ e1 in
      let (guard, a3, e3) = returned (read_guard w true) _ _ e2 in
      let (u4, a4, e4) =
        returned
          (if value.existed
            then bring_back w value (expected_mutated w value hash) current guard
            else take_away w (expected_mutated w value hash) current guard)
          _ _ e3 in
      verify_and_clean-exact value hash _ t e4
