-- ===== src/Monitor/Streaks.antt =====
-- plugins/honcho-ops/honcho_ops/monitor.py: the streaks of dream contention and of a stalled deriver. An
-- empty state file counts as no state before.
use hermes_ops.Prelude.{
  ℕ, ◌-◌, ◌+◌, Bool, true, false, not, ◌&&◌, ◌||◌, Option, none, some, nat_eq, ltb,
}
use hermes_ops.Monitor.{
  TypeCounts, Limits, Deriver, Remote, Snapshot, Saved, counts_of, done_of, pending_of, saved_types,
  total_or,
}

-- `SPARK_CHAT_DEGRADED_SECONDS`, in milliseconds.
abbrev pub spark_chat_degraded : ℕ
spark_chat_degraded = 5000

-- A dream is active and not stale.
abbrev pub fresh_dream : Limits → Deriver → Bool
fresh_dream l d =
    ltb 0 d.active_dream_count && ltb d.active_dream_oldest_age_s l.dream_stale_active_seconds

-- `_has_fresh_dream_contention`
unfoldable pub has_fresh_dream_contention : Limits → Snapshot → Bool
has_fresh_dream_contention l s =
    s.spark.is_ok
    && not s.spark.thinking
    && ltb spark_chat_degraded s.spark.latency_ms
    && fresh_dream l s.remote.deriver

abbrev pub next_streak : Bool → Option ℕ → ℕ
next_streak false previous = 0
next_streak true none = 1
next_streak true (some n) = n + 1

-- `next_dream_contention_streak`
unfoldable pub next_dream_contention_streak : Limits → Snapshot → Option Saved → ℕ
unfolding has_fresh_dream_contention
next_dream_contention_streak l s none = next_streak (has_fresh_dream_contention l s) none
next_dream_contention_streak l s (some p) =
    next_streak (has_fresh_dream_contention l s) (some p.dream_contention_streak)

abbrev pub active_representation_count : Deriver → ℕ
active_representation_count d = elim d.active_representation [
  | none ↦ d.active_count
  | some (count, age) ↦ count
]

-- The only worker is busy with something else that is not stale.
unfoldable pub sole_worker_busy : Limits → Remote → Bool
sole_worker_busy l r =
    nat_eq r.pipeline.workers 1
    && (fresh_dream l r.deriver
        || (ltb 0 r.deriver.active_other_count
            && ltb r.deriver.active_other_oldest_age_s l.deriver_stale_active_seconds))

-- The documents since the sample before.
abbrev pub docs_delta : Snapshot → Saved → ℕ
docs_delta s p =
    s.remote.db.documents_total - total_or p.documents_total s.remote.db.documents_total

-- `_has_representation_stall_candidate`, by the representation counts before.
unfoldable pub stall_since : Limits → Snapshot → Saved → Option TypeCounts → Bool
unfolding counts_of done_of pending_of sole_worker_busy total_or
stall_since l s p none = false
stall_since l s p (some before) =
    not (ltb 0 s.remote.deriver.runs_15m)
    && nat_eq (active_representation_count s.remote.deriver) 0
    && not (sole_worker_busy l s.remote)
    && ltb 0 (pending_of (counts_of "representation" s.remote.queue_by_type))
    && ltb 0 before.pending
    && nat_eq (done_of (counts_of "representation" s.remote.queue_by_type) - before.done) 0
    && nat_eq (docs_delta s p) 0

unfoldable pub has_representation_stall_candidate : Limits → Snapshot → Option Saved → Bool
unfolding stall_since counts_of saved_types
has_representation_stall_candidate l s none = false
has_representation_stall_candidate l s (some p) =
    stall_since l s p (counts_of "representation" (saved_types p.remote))

-- `next_representation_stall_streak`
unfoldable pub next_representation_stall_streak : Limits → Snapshot → Option Saved → ℕ
unfolding has_representation_stall_candidate
next_representation_stall_streak l s none = 0
next_representation_stall_streak l s (some p) =
    next_streak (has_representation_stall_candidate l s (some p))
      (some p.representation_stall_streak)
