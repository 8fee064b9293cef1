-- ===== src/Monitor/Samples.antt =====
-- plugins/honcho-ops/honcho_ops/monitor.py: what `main` makes of a sample and of the state before it. A
-- state file has the whole remote sample or, when it is empty, none of it.
use hermes_ops.Prelude.{
  ◌+◌, Bool, true, false, ◌||◌, Option, none, some, List, [], ◌∷◌, is_some, if◌then◌else◌,
}
use hermes_ops.Monitor.{Limits, Remote, Snapshot, Saved}
use hermes_ops.Monitor.Streaks.{next_dream_contention_streak, next_representation_stall_streak}
use hermes_ops.Monitor.Alerts.{Alert, is_false, build_alerts}

abbrev kept_remote : Option Saved → Option Remote
kept_remote none = none
kept_remote (some p) = p.remote

-- The sample that is shown, where the transport failed and there is one to show.
unfoldable pub restored_as : Bool → Snapshot → Option Remote → Snapshot
restored_as false s kept = s
restored_as true s none = s
restored_as true s (some r) = record s { remote = r }

-- `restore_last_valid_remote_sample`
unfoldable pub restore_last_valid_remote_sample : Snapshot → Option Saved → Snapshot
unfolding restored_as
restore_last_valid_remote_sample s previous =
    restored_as (is_false s.services.ssh_ok) s (kept_remote previous)

-- The state that `collect_snapshot` returns, and the streaks.
unfoldable pub collected : Limits → Snapshot → Option Saved → Saved
unfolding next_dream_contention_streak next_representation_stall_streak
collected l s previous = record {
  remote = some s.remote;
  documents_total = some s.remote.db.documents_total;
  messages_total = some s.remote.db.messages_total;
  dream_contention_streak = next_dream_contention_streak l s previous;
  representation_stall_streak = next_representation_stall_streak l s previous;
  ssh_failure_streak = 0;
}

-- The branch of `main` for a transport that failed.
unfoldable pub keep_remote : Bool → Option Saved → Saved → Saved
keep_remote false previous current = record current { ssh_failure_streak = 0 }
keep_remote true none current = record current { ssh_failure_streak = 1 }
keep_remote true (some p) current = record current {
  ssh_failure_streak = p.ssh_failure_streak + 1;
  remote = if is_some p.remote then p.remote else current.remote;
}

-- `preserve_last_valid_probe_state`
unfoldable pub preserve_last_valid_probe_state : Bool → Option Saved → Saved → Saved
preserve_last_valid_probe_state true (some p) current = record current {
  documents_total =
      if is_some p.documents_total then p.documents_total else current.documents_total;
  messages_total = if is_some p.messages_total then p.messages_total else current.messages_total;
}
preserve_last_valid_probe_state _ previous current = current

-- The state that `main` saves.
unfoldable pub next_state : Limits → Snapshot → Option Saved → Saved
unfolding collected keep_remote preserve_last_valid_probe_state
next_state l s previous =
    preserve_last_valid_probe_state (is_false s.remote.db.probe_ok) previous
      (keep_remote (is_false s.services.ssh_ok) previous (collected l s previous))

-- The alerts of `should_emit_report` in `main`.
unfoldable pub reported : Limits → Snapshot → Option Saved → List Alert
unfolding restore_last_valid_remote_sample build_alerts
reported l s previous = build_alerts l (restore_last_valid_remote_sample s previous) previous

abbrev has_any : List Alert → Bool
has_any [] = false
has_any (a ∷ rest) = true

-- `should_emit_report`, with the operator's override.
unfoldable pub should_emit_report : Bool → Limits → Snapshot → Option Saved → Bool
unfolding build_alerts
should_emit_report always_print l s previous = always_print || has_any (build_alerts l s previous)

-- Several runs of `main`, one after the other.
unfoldable pub watch : Limits → List Snapshot → Saved → Saved
unfolding next_state
watch l [] p = p
watch l (s ∷ rest) p = watch l rest (next_state l s (some p))
