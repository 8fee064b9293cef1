-- ===== src/Monitor/Alerts.antt =====
-- plugins/honcho-ops/honcho_ops/monitor.py: `build_alerts`. An alert keeps the numbers of its message.
use hermes_ops.Prelude.{
  ℕ, ◌+◌, ◌-◌, ◌*◌, ◌^◌, String, Bool, true, false, not, ◌&&◌, ◌||◌, Option, none, some, List, [],
  ◌∷◌, ◌++◌, ◌==◌, ltb, leb, strip, split_once, if◌then◌else◌,
}
use hermes_ops.Queue.Details.{has_text}
use hermes_ops.Monitor.{
  TypeCounts, Limits, Observer, Services, Db, Ingestion, Deriver, Remote, Snapshot, Saved, no_dims,
  counts_of, done_of, saved_types, total_or,
}
use hermes_ops.Monitor.Streaks.{
  spark_chat_degraded, fresh_dream, docs_delta, has_representation_stall_candidate,
}

pub data Alert : Type 0 where
  disk_low : ℕ → ℕ → Alert
  ssh_failed : ℕ → Alert
  down : String → Alert
  stats_failed embedding_missing embedding_fallback dimensions_missing : Alert
  document_mismatch message_mismatch recent_errors : Alert
  spark_failed spark_thinking spark_degraded : Alert
  spark_contention : ℕ → Alert
  ingestion_stale : ℕ → Alert
  queue_ahead deriver_stalled : Alert
  work_stale : String → ℕ → ℕ → Alert

-- `if test: alerts.append(alert)`
abbrev pub when : Bool → Alert → List Alert
when test a = if test then a ∷ [] else []

abbrev pub streak_of : (Saved → ℕ) → Option Saved → ℕ
streak_of f none = 0
streak_of f (some p) = f p

-- `LOCAL_DISK_MIN_FREE_BYTES`
abbrev pub disk_min_free : ℕ
disk_min_free = 10 * 1024 ^ 3

unfoldable pub disk_alerts : Option Observer → List Alert
disk_alerts none = []
disk_alerts (some o) =
    when (ltb o.disk_free_bytes disk_min_free || leb 95 o.disk_used_percent)
      (disk_low o.disk_free_bytes o.disk_used_percent)

unfoldable pub service_alerts : Services → List Alert
service_alerts v =
    when (not v.api_ok) (down "API")
    ++ when (not v.deriver_up) (down "Deriver")
    ++ when (not v.db_ok) (down "DB")
    ++ when (not v.redis_ok) (down "Redis")

-- `value is False`
abbrev pub is_false : Option Bool → Bool
is_false (some false) = true
is_false _ = false

-- The alert of a failed transport, by the streak with this sample.
unfoldable pub ssh_alerts : Limits → ℕ → List Alert
ssh_alerts l streak = when (leb l.ssh_failure_alert_threshold streak) (ssh_failed streak)

-- `_observer_service_alerts`: the alerts, and whether the others are looked for.
unfoldable pub observer_service_alerts : Limits → Snapshot → Option Saved → List Alert × Bool
unfolding disk_alerts service_alerts ssh_alerts
observer_service_alerts l s previous =
    if is_false s.services.ssh_ok
    then (
      disk_alerts s.observer ++ ssh_alerts l (streak_of (λ p. p.ssh_failure_streak) previous + 1),
      false,
    )
    else if s.services.db_ok && is_false s.remote.db.probe_ok
    then (disk_alerts s.observer ++ service_alerts s.services ++ (stats_failed ∷ []), false)
    else (disk_alerts s.observer ++ service_alerts s.services, true)

-- The dimensions of both tables, which are the same.
abbrev pub db_dims_consistent : Db → Bool
db_dims_consistent d =
    not (no_dims d.documents_dims)
    && not (no_dims d.messages_dims)
    && d.documents_dims == d.messages_dims

-- Dimensions that are known, and others than those that are configured.
abbrev pub mismatch : String → String → Bool
mismatch configured found =
    not (configured == "") && not (no_dims found) && not (found == configured)

-- `_embedding_alerts`
unfoldable pub embedding_alerts : Remote → List Alert
unfolding strip has_text
embedding_alerts r =
    let configured = strip r.pipeline.vector_dimensions in
    (if r.pipeline.model == "" || r.pipeline.base_url == ""
      then embedding_missing ∷ []
      else if has_text "api.openai.com" r.pipeline.base_url
          || r.pipeline.model == "text-embedding-3-small"
      then embedding_fallback ∷ []
      else when (configured == "" && not (db_dims_consistent r.db)) dimensions_missing)
    ++ when (mismatch configured r.db.documents_dims) document_mismatch
    ++ when (mismatch configured r.db.messages_dims) message_mismatch
    ++ when (ltb 0 r.errors.save_representation || ltb 0 r.errors.four_oh_one) recent_errors

-- The alert of a slow chat: contention with a dream is one from the second sample, or where critical.
unfoldable pub latency_alerts : Limits → Snapshot → ℕ → List Alert
latency_alerts l s previous_streak =
    if fresh_dream l s.remote.deriver
    then when (leb 30000 s.spark.latency_ms || leb 1 previous_streak)
        (spark_contention s.spark.latency_ms)
    else spark_degraded ∷ []

-- `_spark_alerts`
unfoldable pub spark_alerts : Limits → Snapshot → Option Saved → List Alert
unfolding latency_alerts
spark_alerts l s previous =
    if s.spark.skipped
    then []
    else if not s.spark.is_ok
    then spark_failed ∷ []
    else if s.spark.thinking
    then spark_thinking ∷ []
    else if ltb spark_chat_degraded s.spark.latency_ms
    then latency_alerts l s (streak_of (λ p. p.dream_contention_streak) previous)
    else []

-- `_ingestion_alerts`
unfoldable pub ingestion_alerts : Limits → Ingestion → List Alert
ingestion_alerts l i =
    if i.status == "unknown"
    then []
    else when (i.source_fresh && not i.downstream_fresh && ltb l.ingestion_stale_seconds i.drift_s)
        (ingestion_stale i.drift_s)

-- The comparison with the sample before, by its representation counts.
unfoldable pub progress_alerts : Limits → Snapshot → Saved → Option TypeCounts → List Alert
unfolding counts_of done_of total_or has_representation_stall_candidate
progress_alerts l s p none = []
progress_alerts l s p (some before) =
    let rep_delta = done_of (counts_of "representation" s.remote.queue_by_type) - before.done in
    when (leb 5 rep_delta && ltb (docs_delta s p + 1) rep_delta) queue_ahead
    ++ when (has_representation_stall_candidate l s (some p) && leb 1 p.representation_stall_streak)
        deriver_stalled

unfoldable pub since_alerts : Limits → Snapshot → Option Saved → List Alert
unfolding progress_alerts saved_types
since_alerts l s none = []
since_alerts l s (some p) =
    progress_alerts l s p (counts_of "representation" (saved_types p.remote))

abbrev pub stale : String → ℕ → ℕ → ℕ → List Alert
stale label count age threshold =
    when (ltb 0 count && leb threshold age) (work_stale label count age)

-- `active_work_unit_key.partition(":")[0] == "dream"`
unfoldable pub is_dream : String → Bool
unfolding split_once
is_dream key = elim (split_once ":" key) [
  | none ↦ key == "dream"
  | some (kind, rest) ↦ kind == "dream"
]

-- Work that is active for too long, per task or in all.
unfoldable pub active_alerts : Limits → Deriver → Option (ℕ × ℕ) → List Alert
unfolding is_dream
active_alerts l d (some (count, age)) =
    stale "Representation" count age l.deriver_stale_active_seconds
    ++ stale "Dream" d.active_dream_count d.active_dream_oldest_age_s l.dream_stale_active_seconds
    ++ stale "Other" d.active_other_count d.active_other_oldest_age_s l.deriver_stale_active_seconds
active_alerts l d none =
    if is_dream d.active_oldest_work_unit_key
    then stale "Dream" d.active_count d.active_oldest_age_s l.dream_stale_active_seconds
    else stale "Deriver" d.active_count d.active_oldest_age_s l.deriver_stale_active_seconds

-- `_deriver_alerts`
unfoldable pub deriver_alerts : Limits → Snapshot → Option Saved → List Alert
unfolding since_alerts active_alerts
deriver_alerts l s previous =
    since_alerts l s previous
    ++ active_alerts l s.remote.deriver s.remote.deriver.active_representation

unfoldable pub more_alerts : Limits → Snapshot → Option Saved → List Alert
unfolding embedding_alerts spark_alerts ingestion_alerts deriver_alerts
more_alerts l s previous =
    embedding_alerts s.remote
    ++ spark_alerts l s previous
    ++ ingestion_alerts l s.ingestion
    ++ deriver_alerts l s previous

-- `build_alerts`
unfoldable pub build_alerts : Limits → Snapshot → Option Saved → List Alert
unfolding observer_service_alerts more_alerts
build_alerts l s previous =
    let (first, goes_on) = observer_service_alerts l s previous in
    if goes_on then first ++ more_alerts l s previous else first
