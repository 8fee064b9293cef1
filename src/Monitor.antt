-- ===== src/Monitor.antt =====
-- plugins/honcho-ops/honcho_ops/monitor.py: what a sample of the Honcho hosts holds, what is kept of the
-- sample before it, and the alerts. Latencies are in milliseconds; a missing number of a dictionary is
-- the default that the code takes for it.
pub mod Streaks
pub mod Alerts
pub mod Samples
pub mod Rows
pub mod Failures
mod Tests
use hermes_ops.Prelude.{
  ℕ, String, Bool, Option, List, [], ◌∷◌, ◌==◌, ◌||◌, if◌then◌else◌, some, none,
}

-- The counts of one type of task.
pub record TypeCounts : Type 0 where
  pub pending : ℕ
  pub done : ℕ

-- The entries with which `_monitor_int` may replace the constants.
pub record Limits : Type 0 where
  pub ssh_failure_alert_threshold : ℕ
  pub ingestion_stale_seconds : ℕ
  pub deriver_stale_active_seconds : ℕ
  pub dream_stale_active_seconds : ℕ

pub record Observer : Type 0 where
  pub disk_free_bytes : ℕ
  pub disk_used_percent : ℕ

pub record Services : Type 0 where
  pub ssh_ok : Option Bool
  pub ssh_error : String
  pub api_ok : Bool
  pub deriver_up : Bool
  pub db_ok : Bool
  pub redis_ok : Bool

-- `pipeline`: the embedding's variables, and the number of the deriver's workers (0 where that is none).
pub record Pipeline : Type 0 where
  pub model : String
  pub base_url : String
  pub vector_dimensions : String
  pub workers : ℕ

-- Dimensions are texts, empty where there are none.
pub record Db : Type 0 where
  pub probe_ok : Option Bool
  pub documents_dims : String
  pub messages_dims : String
  pub documents_total : ℕ
  pub messages_total : ℕ

pub record Errors : Type 0 where
  pub save_representation : ℕ
  pub four_oh_one : ℕ

pub record Spark : Type 0 where
  pub skipped : Bool
  pub is_ok : Bool
  pub thinking : Bool
  pub latency_ms : ℕ

pub record Ingestion : Type 0 where
  pub status : String
  pub source_fresh : Bool
  pub downstream_fresh : Bool
  pub drift_s : ℕ

-- `active_representation` is there where the sample has counts per task.
pub record Deriver : Type 0 where
  pub runs_15m : ℕ
  pub active_count : ℕ
  pub active_oldest_age_s : ℕ
  pub active_representation : Option (ℕ × ℕ)
  pub active_dream_count : ℕ
  pub active_dream_oldest_age_s : ℕ
  pub active_other_count : ℕ
  pub active_other_oldest_age_s : ℕ
  pub active_oldest_work_unit_key : String

-- What the remote host says: main keeps these together.
pub record Remote : Type 0 where
  pub pipeline : Pipeline
  pub db : Db
  pub queue : TypeCounts
  pub queue_by_type : List (String × TypeCounts)
  pub errors : Errors
  pub deriver : Deriver

-- `HonchoSnapshot`
pub record Snapshot : Type 0 where
  pub services : Services
  pub remote : Remote
  pub spark : Spark
  pub ingestion : Ingestion
  pub observer : Option Observer

-- The state file: the totals stand beside the remote sample.
pub record Saved : Type 0 where
  pub remote : Option Remote
  pub documents_total : Option ℕ
  pub messages_total : Option ℕ
  pub dream_contention_streak : ℕ
  pub representation_stall_streak : ℕ
  pub ssh_failure_streak : ℕ

-- `value in (None, "", 0, "0")`
abbrev pub no_dims : String → Bool
no_dims s = s == "" || s == "0"

unfoldable pub counts_of : String → List (String × TypeCounts) → Option TypeCounts
counts_of t [] = none
counts_of t ((u, c) ∷ rest) = if u == t then some c else counts_of t rest

-- `d.get(t, {}).get("done", 0)`
unfoldable pub done_of : Option TypeCounts → ℕ
done_of none = 0
done_of (some c) = c.done

unfoldable pub pending_of : Option TypeCounts → ℕ
pending_of none = 0
pending_of (some c) = c.pending

-- `previous_state.get("queue_by_type", {})`
unfoldable pub saved_types : Option Remote → List (String × TypeCounts)
saved_types none = []
saved_types (some r) = r.queue_by_type

unfoldable pub total_or : Option ℕ → ℕ → ℕ
total_or none d = d
total_or (some n) d = n
