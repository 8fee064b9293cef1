-- ===== src/Monitor/Rows.antt =====
-- plugins/honcho-ops/honcho_ops/monitor.py: what the outputs of the probes are read as. `int`, the
-- regular expressions, `urlsplit` and the time library are parameters.
use Prim.Native.String.{◌++◌}
use hermes_ops.Prelude.{
  ℕ, zero, suc, ◌+◌, ◌-◌, String, Bool, true, false, not, ◌&&◌, ◌||◌, Option, none, some, List, [],
  ◌∷◌, ◌==◌, nat_eq, leb, ltb, any, is_some, size, lines, split, strip, strip_prefix, if◌then◌else◌,
}
use hermes_ops.Prelude.Int.{ℤ, pos, negsuc}
use hermes_ops.Queue.{lower_is}
use hermes_ops.Monitor.{TypeCounts, Errors}

-- A row's state, stripped and in lower case.
pub data Processed : Type 0 where
  yes_done no_pending neither : Processed

unfoldable pub processed_of : String → Processed
unfolding lower_is strip
processed_of text =
    if lower_is (strip text) "f" || lower_is (strip text) "false"
    then no_pending
    else if lower_is (strip text) "t" || lower_is (strip text) "true"
    then yes_done
    else neither

abbrev pub add_processed : Processed → ℕ → TypeCounts → TypeCounts
add_processed no_pending n c = record c { pending = c.pending + n }
add_processed yes_done n c = record c { done = c.done + n }
add_processed neither n c = c

abbrev pub none_counted : TypeCounts
none_counted = record { pending = 0; done = 0 }

module _ (int_or_zero : String → ℕ) where
  -- A row of two columns, or of three and more.
  unfoldable pub queue_row : List String → TypeCounts → TypeCounts
  unfolding processed_of
  queue_row (state ∷ count ∷ []) c = add_processed (processed_of state) (int_or_zero count) c
  queue_row (kind ∷ state ∷ count ∷ more) c =
      add_processed (processed_of state) (int_or_zero count) c
  queue_row _ c = c

  unfoldable pub queue_rows : List String → TypeCounts → TypeCounts
  unfolding queue_row split
  queue_rows [] c = c
  queue_rows (row ∷ rest) c = queue_rows rest (queue_row (split "|" row) c)

  -- `parse_queue_raw`
  unfoldable pub parse_queue_raw : String → TypeCounts
  unfolding queue_rows lines
  parse_queue_raw raw = queue_rows (lines raw) none_counted

  -- `setdefault(task_type, …)`, and the row's count.
  unfoldable pub count_type :
      String → Processed → ℕ → List (String × TypeCounts) → List (String × TypeCounts)
  count_type t state n [] = (t, add_processed state n none_counted) ∷ []
  count_type t state n ((u, c) ∷ rest) =
      let later = count_type t state n rest in
      if u == t then (u, add_processed state n c) ∷ rest else (u, c) ∷ later

  unfoldable pub type_row : List String → List (String × TypeCounts) → List (String × TypeCounts)
  unfolding count_type processed_of
  type_row (kind ∷ state ∷ count ∷ more) types =
      count_type kind (processed_of state) (int_or_zero count) types
  type_row _ types = types

  unfoldable pub type_rows : List String → List (String × TypeCounts) → List (String × TypeCounts)
  unfolding type_row split
  type_rows [] types = types
  type_rows (row ∷ rest) types = type_rows rest (type_row (split "|" row) types)

  -- `parse_queue_by_type_raw`
  unfoldable pub parse_queue_by_type_raw : String → List (String × TypeCounts)
  unfolding type_rows lines
  parse_queue_by_type_raw raw = type_rows (lines raw) []

-- `data[key] = value`
unfoldable pub put_text : String → String → List (String × String) → List (String × String)
put_text k v [] = (k, v) ∷ []
put_text k v ((j, w) ∷ rest) =
    let later = put_text k v rest in if j == k then (j, v) ∷ rest else (j, w) ∷ later

unfoldable pub kv_row : List String → List (String × String) → List (String × String)
unfolding put_text
kv_row (key ∷ value ∷ []) d = put_text key value d
kv_row _ d = d

unfoldable pub kv_rows : List String → List (String × String) → List (String × String)
unfolding kv_row split
kv_rows [] d = d
kv_rows (line ∷ rest) d = kv_rows rest (kv_row (split "|" line) d)

-- `_parse_kv_lines`
unfoldable pub parse_kv_lines : String → List (String × String)
unfolding kv_rows lines
parse_kv_lines raw = kv_rows (lines raw) []

-- What the expressions say of a line of the log: the message of an error record, an exception of the
-- client at its start, and the two signals.
pub record Signals : Type 0 where
  pub error_message : String → Option String
  pub is_exception : String → Bool
  pub saves : String → Bool
  pub unauthorized : String → Bool

module _ (x : Signals) where
  abbrev one_if : Bool → ℕ
  one_if true = 1
  one_if false = 0

  unfoldable pub error_line : String → Option String → Errors → Errors
  error_line line (some message) e = record {
    save_representation = e.save_representation + one_if (x.saves message);
    four_oh_one = e.four_oh_one + one_if (x.unauthorized message);
  }
  error_line line none e = record e {
    four_oh_one = e.four_oh_one + one_if (x.is_exception line && x.unauthorized line);
  }

  unfoldable pub error_lines : List String → Errors → Errors
  unfolding error_line
  error_lines [] e = e
  error_lines (line ∷ rest) e = error_lines rest (error_line line (x.error_message line) e)

  -- `parse_deriver_error_counts`
  unfoldable pub parse_deriver_error_counts : String → Errors
  unfolding error_lines lines
  parse_deriver_error_counts raw =
      error_lines (lines raw) (record { save_representation = 0; four_oh_one = 0 })

  -- `collect_recent_deriver_errors`, from what ssh prints.
  unfoldable pub collect_recent_deriver_errors : String → Errors
  unfolding parse_deriver_error_counts strip_prefix
  collect_recent_deriver_errors raw =
      if is_some (strip_prefix "__SSH_ERROR__" raw)
      then record { save_representation = 0; four_oh_one = 0 }
      else parse_deriver_error_counts raw

-- The status and the reason of `classify_local_ingestion_activity`, by the roles of the rows.
unfoldable pub classify_local_ingestion_activity : List String → Bool → String × String
classify_local_ingestion_activity roles true = ("unknown", "activity_window_truncated")
classify_local_ingestion_activity [] false = ("idle", "no_recent_activity")
classify_local_ingestion_activity (r ∷ rest) false =
    if any (λ role. role == "assistant") (r ∷ rest)
    then ("unknown", "completion_binding_unavailable")
    else ("unknown", "activity_present_completion_unproven")

-- `mask`: the first four characters.
unfoldable pub stars : ℕ → String
stars zero = ""
stars (suc n) = "*" ++ stars n

unfoldable pub first_of : ℕ → String → String
first_of zero s = ""
first_of (suc n) String.[] = ""
first_of (suc n) (String.◌∷◌ c s) = String.◌∷◌ c (first_of n s)

unfoldable pub mask : String → String
unfolding stars first_of size
mask value = if ltb (size value) 8 then "****" else first_of 4 value ++ stars (size value - 4)

-- A stage of the pipeline: its address and its model, empty where there is none.
pub record Stage : Type 0 where
  pub base_url : String
  pub model : String

module _ (is_spark : String → Bool) where
  abbrev routed : List Stage → List Stage
  routed [] = []
  routed (s ∷ rest) = if is_spark s.base_url then s ∷ routed rest else routed rest

  unfoldable pub first_model : List Stage → String
  first_model [] = ""
  first_model (s ∷ rest) = let later = first_model rest in if s.model == "" then later else s.model

  abbrev or_default : List Stage → String
  or_default [] = "aeon-ultimate"
  or_default (s ∷ rest) = first_model (s ∷ rest)

  -- `select_spark_model`, with the deriver's stage, if there is one.
  unfoldable pub select_spark_model : Option Stage → List Stage → String
  unfolding first_model
  select_spark_model none stages = or_default (routed stages)
  select_spark_model (some d) stages =
      if is_spark d.base_url && not (d.model == "") then d.model else or_default (routed stages)

-- The seconds of `build_ingestion_status`: ages that may be negative.
pub record IngestionStatus : Type 0 where
  pub status : String
  pub source_age_s : Option ℤ
  pub downstream_age_s : Option ℤ
  pub drift_s : Option ℤ
  pub source_fresh : Bool
  pub downstream_fresh : Bool

-- `int((a - b).total_seconds())` for whole seconds.
unfoldable pub minus : ℕ → ℕ → ℤ
minus a b = if leb b a then pos (a - b) else negsuc (b - a - 1)

abbrev at_most : ℕ → Option ℤ → Bool
at_most limit none = false
at_most limit (some (pos n)) = leb n limit
at_most limit (some (negsuc n)) = true

abbrev age : ℕ → Option ℕ → Option ℤ
age now none = none
age now (some t) = some (minus now t)

abbrev drift : Option ℕ → Option ℕ → Option ℤ
drift (some a) (some b) = some (minus a b)
drift _ _ = none

-- `build_ingestion_status`, in whole seconds since the epoch: a local time of zero counts as none.
unfoldable pub build_ingestion_status : ℕ → Option ℕ → Option ℕ → ℕ → IngestionStatus
unfolding minus
build_ingestion_status limit local honcho now =
    let local_dt : Option ℕ = elim local [
      | none ↦ none
      | some t ↦ if nat_eq t 0 then none else some t
    ] in
    record {
      status = if is_some local && is_some honcho then "aggregate_only" else "unknown";
      source_age_s = age now local_dt;
      downstream_age_s = age now honcho;
      drift_s = drift local_dt honcho;
      source_fresh = at_most limit (age now local_dt);
      downstream_fresh = at_most limit (age now honcho);
    }
