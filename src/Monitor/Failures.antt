-- ===== src/Monitor/Failures.antt =====
-- plugins/honcho-ops/honcho_ops/monitor.py: what the monitor does while the transport to the host fails.
use hermes_ops.Prelude.{
  ℕ, ◌+◌, ◌≡◌, refl, ap, ◌∙◌, Bool, true, false, ◌&&◌, Option, none, some, List, [], ◌∷◌, ◌++◌,
  is_some, length, all, arith, &&-both, if◌then◌else◌,
}
use hermes_ops.Monitor.{Limits, Remote, Snapshot, Saved}
use hermes_ops.Monitor.Alerts.{
  is_false, disk_alerts, ssh_alerts, observer_service_alerts, build_alerts,
}
use hermes_ops.Monitor.Samples.{
  restored_as, restore_last_valid_remote_sample, collected, keep_remote,
  preserve_last_valid_probe_state, next_state, reported, watch,
}

-- A sample whose transport failed, and with it the probe of the database.
abbrev pub is_lost : Snapshot → Bool
is_lost s = is_false s.services.ssh_ok && is_false s.remote.db.probe_ok

false-true : ◌≡◌ {A = Bool} false true → ⊥
false-true e = cc

kept : {A : Type 0} (o d : Option A) (a : A) → o ≡ some a → (if is_some o then o else d) ≡ some a
kept none d a e = cc
kept (some x) d a e = e

lost-kept :
    (b c : Bool) (p current : Saved) (r : Remote) (documents messages : ℕ)
    → b ≡ true
    → c ≡ true
    → p.remote ≡ some r
    → p.documents_total ≡ some documents
    → p.messages_total ≡ some messages
    → let q = preserve_last_valid_probe_state c (some p) (keep_remote b (some p) current) in
      (q.ssh_failure_streak ≡ p.ssh_failure_streak + 1)
      × (q.remote ≡ some r)
      × (q.documents_total ≡ some documents)
      × (q.messages_total ≡ some messages)
unfolding keep_remote preserve_last_valid_probe_state
lost-kept true true p current r documents messages b c re de me = (
  refl,
  kept p.remote current.remote r re,
  kept p.documents_total current.documents_total documents de,
  kept p.messages_total current.messages_total messages me,
)
lost-kept true false p current r documents messages b c re de me = absurd (false-true c)
lost-kept false c p current r documents messages b d re de me = absurd (false-true b)

module _ (l : Limits) where
  -- One such sample adds one to the streak and keeps what was known.
  lost-next_state :
      (s : Snapshot) (p : Saved) (r : Remote) (documents messages : ℕ)
      → is_lost s ≡ true
      → p.remote ≡ some r
      → p.documents_total ≡ some documents
      → p.messages_total ≡ some messages
      → ((next_state l s (some p)).ssh_failure_streak ≡ p.ssh_failure_streak + 1)
        × ((next_state l s (some p)).remote ≡ some r)
        × ((next_state l s (some p)).documents_total ≡ some documents)
        × ((next_state l s (some p)).messages_total ≡ some messages)
  unfolding next_state
  lost-next_state s p r documents messages lost re de me =
      let (transport, probe) =
        &&-both (is_false s.services.ssh_ok) (is_false s.remote.db.probe_ok) lost in
      lost-kept (is_false s.services.ssh_ok) (is_false s.remote.db.probe_ok) p
        (collected l s (some p)) r documents messages transport probe re de me

  -- While the transport fails, sample after sample, the state keeps the last remote sample and the
  -- last totals, and its streak is the number of the failures.
  outage :
      (samples : List Snapshot) (p : Saved) (r : Remote) (documents messages : ℕ)
      → all is_lost samples ≡ true
      → p.remote ≡ some r
      → p.documents_total ≡ some documents
      → p.messages_total ≡ some messages
      → ((watch l samples p).ssh_failure_streak ≡ p.ssh_failure_streak + length samples)
        × ((watch l samples p).remote ≡ some r)
        × ((watch l samples p).documents_total ≡ some documents)
        × ((watch l samples p).messages_total ≡ some messages)
  unfolding watch
  outage [] p r documents messages lost re de me = (omega arith, re, de, me)
  outage (s ∷ rest) p r documents messages lost re de me =
      let (now, later) = &&-both (is_lost s) (all is_lost rest) lost in
      let (streak, re1, de1, me1) = lost-next_state s p r documents messages now re de me in
      let (sum, re2, de2, me2) =
        outage rest (next_state l s (some p)) r documents messages later re1 de1 me1 in
      (omega arith, re2, de2, me2)

  alerts-failed :
      (s : Snapshot) (p : Saved)
      → is_false s.services.ssh_ok ≡ true
      → build_alerts l s (some p)
        ≡ disk_alerts s.observer ++ ssh_alerts l (p.ssh_failure_streak + 1)
  unfolding build_alerts observer_service_alerts
  alerts-failed s p e = rw e refl

  restored-services :
      (b : Bool) (s : Snapshot) (o : Option Remote)
      → ((restored_as b s o).services ≡ s.services) × ((restored_as b s o).observer ≡ s.observer)
  unfolding restored_as
  restored-services true s none = (refl, refl)
  restored-services true s (some r) = (refl, refl)
  restored-services false s o = (refl, refl)

  reported-lost :
      (s : Snapshot) (p : Saved)
      → is_lost s ≡ true
      → reported l s (some p) ≡ disk_alerts s.observer ++ ssh_alerts l (p.ssh_failure_streak + 1)
  unfolding reported restore_last_valid_remote_sample
  reported-lost s p lost =
      let transport =
        (&&-both (is_false s.services.ssh_ok) (is_false s.remote.db.probe_ok) lost).0 in
      let shown : Snapshot = restored_as (is_false s.services.ssh_ok) s p.remote in
      let (services, observer) = restored-services (is_false s.services.ssh_ok) s p.remote in
      alerts-failed shown p (ap (λ v. is_false v.ssh_ok) services ∙ transport)
      ∙ ap (λ v. disk_alerts v ++ ssh_alerts l (p.ssh_failure_streak + 1)) observer

  -- While the transport and the probe of the database fail, sample after sample, the saved state keeps
  -- the last remote sample and the last totals, and the next such sample is reported with the number
  -- of failures in a row, from the threshold on; beside it only a full disk is an alert. The state
  -- before had a remote sample and both totals.
  pub reported-watch :
      (samples : List Snapshot) (s : Snapshot) (p : Saved) (r : Remote) (documents messages : ℕ)
      → all is_lost samples ≡ true
      → is_lost s ≡ true
      → p.remote ≡ some r
      → p.documents_total ≡ some documents
      → p.messages_total ≡ some messages
      → ((watch l samples p).remote ≡ some r)
        × ((watch l samples p).documents_total ≡ some documents)
        × ((watch l samples p).messages_total ≡ some messages)
        × (reported l s (some (watch l samples p))
            ≡ disk_alerts s.observer ++ ssh_alerts l (p.ssh_failure_streak + length samples + 1))
  reported-watch samples s p r documents messages lost now re de me =
      let (streak, re1, de1, me1) = outage samples p r documents messages lost re de me in
      (
        re1,
        de1,
        me1,
        reported-lost s (watch l samples p) now
            ∙ ap (λ n. disk_alerts s.observer ++ ssh_alerts l (n + 1)) streak,
      )
