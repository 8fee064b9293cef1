-- ===== src/Staging/Crashes/Outcomes.antt =====
-- scripts/staging/hermes_staging_socket_diagnostic.py: what gateway.json is after `enable`, however it
-- ends.
use hermes_ops.Prelude.{
  ◌≡◌, refl, sym, ◌∙◌, String, Bool, true, false, not, ◌&&◌, ◌||◌, Option, none, some, is_some,
  subst, Bool-cases, ◌⊎◌, inl, inr, if◌then◌else◌,
}
use hermes_ops.Result.{Result, ok, err, Result-cases}
use hermes_ops.Exec.{resume, pure, raise, lift, ◌>>=◌}
use hermes_ops.Staging.Request.{Failure}
use hermes_ops.Staging.Snapshots.{
  Node, Snapshot, World, same_snapshot, written, read_named, enabled_payload,
}
use hermes_ops.Staging.Config.{
  Dir, open_dir, read_current, read_guard, exchange, exchange_checked, create_guard, change_guard,
  guard_calls, in_order, write_guard, install, replacement, place_absent, put_in_place, enable,
}
use hermes_ops.Staging.Crashes.Readings.{true-false, read-there}

-- The guard that is written is complete in the end.
pub write_guard-absent :
    (w : World) (v : Snapshot) (s : Dir)
    → s.guard ≡ none
    → write_guard w v s ≡ (ok tt, record s { guard = some (written v) })
unfolding write_guard guard_calls in_order create_guard change_guard ◌>>=◌ pure
write_guard-absent w v s e = rw e refl

module _ (w : World) (old new : Option Node) where
  -- gateway.json is one of two files.
  abbrev Either : Dir → Type 0
  Either t = (t.current ≡ old) ⊎ (t.current ≡ new)

  -- The two files are exchanged, and exchanged back where they are not the expected ones.
  exchange_checked-Either :
      (a b : Snapshot) (q : Option Node)
      → Either (exchange_checked w a b (record { current = old; guard = new; quarantine = q })).1
  unfolding exchange_checked exchange read_current read_guard ◌>>=◌ pure
  exchange_checked-Either a b q = elim (Bool-cases (is_some old && is_some new)) [
    | inr stays ↦ rw stays (inl refl)
    | inl both ↦ elim (Result-cases (read_named w false new)) [
      | inr (e, bad) ↦ rw (both, bad) (inr refl)
      | inl (current, fine) ↦ elim (Result-cases (read_named w false old)) [
        | inr (e, bad) ↦ rw (both, fine, bad) (inr refl)
        | inl (guard, good) ↦ elim (Bool-cases (same_snapshot current b && same_snapshot guard a)) [
          | inl same ↦ rw (both, fine, good, same) (inr refl)
          | inr other ↦ rw (both, fine, good, other) (back both)
        ]
      ]
    ]
  ]
    where
      back :
          (is_some old && is_some new) ≡ true
          → Either (exchange w (record { current = new; guard = old; quarantine = q })).1
      back both = elim (Bool-cases (is_some new && is_some old)) [
        | inl again ↦ rw again (inl refl)
        | inr never ↦ rw never (inr refl)
      ]

  place_absent-Either :
      (b : Snapshot) (q : Option Node)
      → Either (place_absent w b (record { current = old; guard = new; quarantine = q })).1
  unfolding place_absent install read_current ◌>>=◌ pure raise
  place_absent-Either b q = elim (Bool-cases (is_some old || not (is_some new))) [
    | inl stays ↦ rw stays (inl refl)
    | inr free ↦ elim (Result-cases (read_named w false new)) [
      | inr (e, bad) ↦ rw (free, bad) (inr refl)
      | inl (current, fine) ↦ elim (Bool-cases (same_snapshot current b)) [
        | inl same ↦ rw (free, fine, same) (inr refl)
        | inr other ↦ rw (free, fine, other) (inr refl)
      ]
    ]
  ]

  put_in_place-Either :
      (a b : Snapshot) (q : Option Node)
      → Either (put_in_place w a b (record { current = old; guard = new; quarantine = q })).1
  unfolding put_in_place
  put_in_place-Either a b q = chosen a.existed
    where
      chosen :
          (c : Bool)
          → Either
              ((if c then exchange_checked w a b else place_absent w b)
                (record { current = old; guard = new; quarantine = q })).1
      chosen true = exchange_checked-Either a b q
      chosen false = place_absent-Either b q

no-guard :
    (w : World) (o : Option Node) (v : Snapshot)
    → read_named w true o ≡ ok v
    → v.existed ≡ false
    → o ≡ none
no-guard w none v e f = refl
no-guard w (some n) v e f = absurd (true-false (sym (read-there w n v e) ∙ f))

-- A value that is returned at the end changes nothing.
resumed-state :
    {A : Type 0} (a : A) (r : Result Failure (Unit {0})) (t : Dir)
    → (resume (λ (u : Unit {0}). pure {E = Failure} a) r t).1 ≡ t
unfolding pure
resumed-state a (ok u) t = refl
resumed-state a (err e) t = refl

module _ (w : World) (value : Snapshot) (s : Dir) where
  -- gateway.json is what it was, or the complete new file.
  pub data IsOldOrNew (t : Dir) : Type 0 where
    kept : t.current ≡ s.current → IsOldOrNew t
    renewed :
        (content : String)
        → enabled_payload w value ≡ ok content
        → t.current ≡ some (written (replacement w value content))
        → IsOldOrNew t

  from_write-IsOldOrNew :
      (content : String)
      → enabled_payload w value ≡ ok content
      → s.guard ≡ none
      → IsOldOrNew
          ((write_guard w (replacement w value content) >>= λ u.
              put_in_place w value (replacement w value content) >>= λ v. pure (w.sha content))
            s).1
  unfolding ◌>>=◌
  from_write-IsOldOrNew content payload free =
      let new = replacement w value content in
      let t : Dir = record s { guard = some (written new) } in
      let placed = put_in_place w value new t in
      rw (write_guard-absent w new s free) (
        subst IsOldOrNew (sym (resumed-state (w.sha content) placed.0 placed.1))
          (elim (put_in_place-Either w s.current (some (written new)) value new s.quarantine) [
            | inl same ↦ kept same
            | inr put ↦ renewed content payload put
          ]))

  -- However `enable` ends, and wherever it starts, gateway.json is afterwards exactly what it was before,
  -- or the complete new file with the new text and the snapshot's mode and owner: no branch leaves
  -- anything else in its place, and none takes it away. No other process acts.
  pub enable-current : IsOldOrNew (enable w value s).1
  unfolding enable read_current read_guard ◌>>=◌ lift
  enable-current = elim (Result-cases (enabled_payload w value)) [
    | inr (e, bad) ↦ rw bad (kept refl)
    | inl (content, payload) ↦ elim (Result-cases (open_dir w)) [
      | inr (e, unsafe) ↦ rw (payload, unsafe) (kept refl)
      | inl (u, safe) ↦ elim (Result-cases (read_named w true s.current)) [
        | inr (e, unread) ↦ rw (payload, safe, unread) (kept refl)
        | inl (current, read) ↦ elim (Bool-cases (not (same_snapshot current value))) [
          | inl other ↦ rw (payload, safe, read, other) (kept refl)
          | inr same ↦ elim (Result-cases (read_named w true s.guard)) [
            | inr (e, unread) ↦ rw (payload, safe, read, same, unread) (kept refl)
            | inl (guard, beside) ↦ elim (Bool-cases guard.existed) [
              | inl there ↦ rw (payload, safe, read, same, beside, there) (kept refl)
              | inr free ↦
                  rw (payload, safe, read, same, beside, free)
                    (from_write-IsOldOrNew content payload (no-guard w s.guard guard beside free))
            ]
          ]
        ]
      ]
    ]
  ]
