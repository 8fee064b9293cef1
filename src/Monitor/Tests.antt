-- ===== src/Monitor/Tests.antt =====
-- Samples of a monitor whose transport fails twice.
use hermes_ops.Prelude.{
  ℕ, if◌then◌else◌, ◌≡◌, refl, true, false, some, none, [], ◌∷◌, size, lines, split, strip, lstrip,
  rstrip, String,
}
use hermes_ops.Queue.{is_digits, int_from, lower_is}
use hermes_ops.Prelude.{every}
use hermes_ops.Monitor.{Limits, Deriver, Remote, Snapshot, Saved}
use hermes_ops.Monitor.Alerts.{
  ssh_failed, disk_alerts, ssh_alerts, observer_service_alerts, build_alerts,
}
use hermes_ops.Monitor.Samples.{restored_as, restore_last_valid_remote_sample, reported, watch}
use hermes_ops.Monitor.Rows.{
  processed_of, queue_row, queue_rows, parse_queue_raw, count_type, type_row, type_rows,
  parse_queue_by_type_raw, mask, stars, first_of,
}
use hermes_ops.Monitor.Failures.{reported-watch}

abbrev limits : Limits
limits = record {
  ssh_failure_alert_threshold = 2;
  ingestion_stale_seconds = 3600;
  deriver_stale_active_seconds = 600;
  dream_stale_active_seconds = 1800;
}

abbrev no_deriver : Deriver
no_deriver = record {
  runs_15m = 0;
  active_count = 0;
  active_oldest_age_s = 0;
  active_representation = none;
  active_dream_count = 0;
  active_dream_oldest_age_s = 0;
  active_other_count = 0;
  active_other_oldest_age_s = 0;
  active_oldest_work_unit_key = "";
}

abbrev nothing : Remote
nothing = record {
  pipeline = record { model = ""; base_url = ""; vector_dimensions = ""; workers = 0 };
  db = record {
    probe_ok = some false;
    documents_dims = "";
    messages_dims = "";
    documents_total = 0;
    messages_total = 0;
  };
  queue = record { pending = 0; done = 0 };
  queue_by_type = [];
  errors = record { save_representation = 0; four_oh_one = 0 };
  deriver = no_deriver;
}

abbrev lost : Snapshot
lost = record {
  services = record {
    ssh_ok = some false;
    ssh_error = "__SSH_ERROR__ timeout";
    api_ok = false;
    deriver_up = false;
    db_ok = false;
    redis_ok = false;
  };
  remote = nothing;
  spark = record { skipped = true; is_ok = false; thinking = false; latency_ms = 0 };
  ingestion = record {
    status = "unknown";
    source_fresh = false;
    downstream_fresh = false;
    drift_s = 0;
  };
  observer = none;
}

abbrev known : Remote
known = record nothing {
  db = record {
    probe_ok = some true;
    documents_dims = "1024";
    messages_dims = "1024";
    documents_total = 41;
    messages_total = 97;
  };
}

abbrev before : Saved
before = record {
  remote = some known;
  documents_total = some 41;
  messages_total = some 97;
  dream_contention_streak = 0;
  representation_stall_streak = 0;
  ssh_failure_streak = 0;
}

reported-watch_example :
    ((watch limits (lost ∷ []) before).remote ≡ some known)
    × ((watch limits (lost ∷ []) before).documents_total ≡ some 41)
    × ((watch limits (lost ∷ []) before).messages_total ≡ some 97)
    × (reported limits lost (some (watch limits (lost ∷ []) before)) ≡ ssh_failed 2 ∷ [])
unfolding disk_alerts ssh_alerts
reported-watch_example =
    reported-watch limits (lost ∷ []) lost before known 41 97 refl refl refl refl refl

test_first : reported limits lost (some before) ≡ []
unfolding reported restore_last_valid_remote_sample restored_as build_alerts observer_service_alerts
    disk_alerts ssh_alerts
test_first = refl

abbrev ascii_or_zero : String → ℕ
ascii_or_zero s = if is_digits s then int_from 0 s else 0

abbrev rows : String
rows = "dream|t|3\nrepresentation|f|4\nrepresentation| TRUE |2\nf|5"

test_rows : parse_queue_raw ascii_or_zero rows ≡ record { pending = 9; done = 5 }
unfolding parse_queue_raw queue_rows queue_row processed_of lower_is strip lstrip rstrip lines split
    is_digits int_from every
test_rows = refl

test_types :
    parse_queue_by_type_raw ascii_or_zero rows
    ≡ ("dream", record { pending = 0; done = 3 })
      ∷ ("representation", record { pending = 4; done = 2 })
      ∷ []
unfolding parse_queue_by_type_raw type_rows type_row count_type processed_of lower_is strip lstrip
    rstrip lines split is_digits int_from every
test_types = refl

test_mask : mask "sk-12345678" ≡ "sk-1*******"
unfolding mask stars first_of size
test_mask = refl
