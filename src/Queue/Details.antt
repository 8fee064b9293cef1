-- ===== src/Queue/Details.antt =====
-- plugins/honcho-ops/honcho_ops/queue_diagnostic.py: the work units, their sessions and what is added
-- to them. The expressions that search the log, and `fromisoformat`, are parameters.
use Prim.Native.String.{◌++◌}
use hermes_ops.Prelude.{
  ℕ, zero, suc, ltb, length, strip_prefix, String, Bool, ◌||◌, Option, none, some, List, [], ◌∷◌,
  ◌==◌, nat_eq, is_some, lines, split, if◌then◌else◌,
}
use hermes_ops.Result.{Result, ok, err, ◌>>=◌}
use hermes_ops.Queue.{
  Trouble, honcho_error, index_error, Reading, int_or_zero, int_or_none, text_or_none, is_yes,
}
use hermes_ops.Queue.Names.{escape_sql}

-- What `ssh` returns: the code, and the text that it printed, stripped.
pub record Reply : Type 0 where
  pub returncode : ℕ
  pub stdout : String

-- `_ssh`
unfoldable pub ssh : Reply → Result Trouble String
ssh r = if nat_eq r.returncode 0 then ok r.stdout else err honcho_error

-- `needle in s`
unfoldable pub has_text : String → String → Bool
unfolding strip_prefix
has_text needle String.[] = needle == ""
has_text needle (String.◌∷◌ c s) =
    let later = has_text needle s in is_some (strip_prefix needle (String.◌∷◌ c s)) || later

-- `_psql`, from what `ssh` returns.
unfoldable pub psql : Reply → Result Trouble String
unfolding ssh has_text
psql r = do
  output ← ssh r
  if has_text "ERROR:" output || has_text "FATAL:" output then err honcho_error else ok output

module _ (Time : Type 0) where
  -- `QueueWorkUnit`
  pub record QueueWorkUnit : Type 0 where
    pub work_unit_id : ℕ
    pub work_unit_key : Option String
    pub task_type : String
    pub session_id : Option String
    pub message_id : Option ℕ
    pub processed : Bool
    pub error : Option String
    pub created_at : Option Time

pub data Phase : Type 0 where
  errored done pending : Phase

-- What the search of the log finds, and all that is known of a work unit.
pub record Performance : Type 0 where
  pub log_excerpt : Option String
  pub llm_duration_ms : Option ℕ
  pub observation_count : Option ℕ

pub record SessionCounts : Type 0 where
  pub messages : ℕ
  pub documents : ℕ

pub record ActiveSession : Type 0 where
  pub id : String
  pub work_unit_key : Option String
  pub last_updated : Option String
  pub session_id : Option String

abbrev column : ℕ → List String → String
column n [] = ""
column zero (c ∷ cs) = c
column (suc n) (c ∷ cs) = column n cs

module _ (read : String → Reading) where
  -- The rest of `collect_session_counts`: a second column must be there.
  unfoldable pub second_count : ℕ → List String → Result Trouble SessionCounts
  unfolding int_or_zero
  second_count messages [] = err index_error
  second_count messages (documents ∷ rest) = do
    n ← int_or_zero (read documents)
    ok (record { messages = messages; documents = n })

  -- `collect_session_counts`, from what psql prints.
  unfoldable pub session_counts : List String → Result Trouble SessionCounts
  unfolding int_or_zero second_count
  session_counts [] = err index_error
  session_counts (messages ∷ rest) = do n ← int_or_zero (read messages); second_count n rest

-- A row of `collect_active_sessions`.
unfoldable pub active_row : List String → List ActiveSession → List ActiveSession
active_row (i ∷ key ∷ updated ∷ []) rows =
    record {
      id = i;
      work_unit_key = text_or_none key;
      last_updated = text_or_none updated;
      session_id = none;
    }
    ∷ rows
active_row (i ∷ key ∷ updated ∷ session ∷ more) rows =
    record {
      id = i;
      work_unit_key = text_or_none key;
      last_updated = text_or_none updated;
      session_id = some session;
    }
    ∷ rows
active_row _ rows = rows

unfoldable pub active_rows : List String → List ActiveSession
unfolding active_row split
active_rows [] = []
active_rows (row ∷ rest) = active_row (split "|" row) (active_rows rest)

unfoldable pub keep_lines : List String → List String
keep_lines [] = []
keep_lines (l ∷ ls) = let rest = keep_lines ls in if l == "" then rest else l ∷ rest

abbrev pub peer_query : String → String
peer_query session =
    "SELECT DISTINCT m.peer_name FROM messages m JOIN sessions s ON m.session_name = s.name WHERE s.id = '"
    ++ (escape_sql (some session) ++ "';")

abbrev pub count_query : String → String
count_query session =
    "SELECT (SELECT count(*)::text FROM messages m  JOIN sessions s ON m.session_name = s.name WHERE s.id = '"
    ++ (escape_sql (some session)
        ++ ("'), (SELECT count(*)::text FROM documents d  JOIN sessions s ON d.session_name = s.name WHERE s.id = '"
            ++ (escape_sql (some session) ++ "' AND d.deleted_at IS NULL);")))

module _ {Time : Type 0} (read : String → Reading) (parse_iso : String → Option Time) where
  -- `phase`
  unfoldable pub phase : QueueWorkUnit Time → Phase
  phase u = if is_some u.error then errored else if u.processed then done else pending

  -- One row of `collect_queue_detail`, filled up to eight columns.
  unfoldable pub work_unit : List String → Result Trouble (QueueWorkUnit Time)
  unfolding int_or_zero int_or_none is_yes
  work_unit parts = do
    id ← int_or_zero (read (column 0 parts))
    message ← int_or_none (read (column 2 parts))
    ok (record {
      work_unit_id = id;
      session_id = text_or_none (column 1 parts);
      message_id = message;
      task_type = column 3 parts;
      processed = is_yes (column 4 parts);
      error = text_or_none (column 5 parts);
      created_at = if column 6 parts == "" then none else parse_iso (column 6 parts);
      work_unit_key = text_or_none (column 7 parts);
    })

  unfoldable pub detail_rows : List String → Result Trouble (List (QueueWorkUnit Time))
  unfolding work_unit split
  detail_rows [] = ok []
  detail_rows (row ∷ rest) =
      let later = detail_rows rest in
      if ltb (length (split "|" row)) 7
      then later
      else (do u ← work_unit (split "|" row); us ← later; ok (u ∷ us))

  -- The world: psql by its query, the log, and the search of the log.
  module _ (answer : String → Reply) (log : Reply) (search : String → String → Performance)
      (detail_query : String) where
    -- `collect_queue_detail`
    unfoldable pub collect_queue_detail : Result Trouble (List (QueueWorkUnit Time))
    unfolding psql detail_rows lines
    collect_queue_detail = do raw ← psql (answer detail_query); detail_rows (lines raw)

    -- `collect_peer_refs`
    unfoldable pub collect_peer_refs : String → Result Trouble (List String)
    unfolding psql keep_lines lines
    collect_peer_refs session = do
      raw ← psql (answer (peer_query session))
      ok (keep_lines (lines raw))

    -- `collect_session_counts`
    unfoldable pub collect_session_counts : String → Result Trouble SessionCounts
    unfolding psql session_counts split
    collect_session_counts session = do
      raw ← psql (answer (count_query session))
      session_counts read (split "|" raw)

    -- `WorkUnitDiagnostics`
    pub record WorkUnitDiagnostics : Type 0 where
      pub unit : QueueWorkUnit Time
      pub peer_refs : List String
      pub counts : Option SessionCounts
      pub performance : Performance

    -- The session's part of `enrich_work_unit`: an empty name counts as none.
    unfoldable pub of_session : Option String → Result Trouble (List String × Option SessionCounts)
    unfolding collect_peer_refs collect_session_counts
    of_session none = ok ([], none)
    of_session (some session) = if session == "" then ok ([], none) else (do
      counts ← collect_session_counts session
      peers ← collect_peer_refs session
      ok (peers, some counts))

    abbrev nothing_found : Performance
    nothing_found = record { log_excerpt = none; llm_duration_ms = none; observation_count = none }

    -- `_parse_performance_for_work_unit`
    abbrev performance_of : Option String → String → Performance
    performance_of none logs = nothing_found
    performance_of (some key) logs = if key == "" then nothing_found else search key logs

    -- `enrich_work_unit`
    unfoldable pub enrich_work_unit : QueueWorkUnit Time → Result Trouble WorkUnitDiagnostics
    unfolding of_session ssh
    enrich_work_unit u = do
      (peers, counts) ← of_session u.session_id
      logs ← (if is_some u.created_at then ssh log else ok "")
      ok (record {
        unit = u;
        peer_refs = peers;
        counts = counts;
        performance = performance_of u.work_unit_key logs;
      })

    unfoldable pub enrich_all :
        List (QueueWorkUnit Time) → Result Trouble (List WorkUnitDiagnostics)
    unfolding enrich_work_unit
    enrich_all [] = ok []
    enrich_all (u ∷ us) = do d ← enrich_work_unit u; ds ← enrich_all us; ok (d ∷ ds)

    -- `collect_enriched_queue`
    unfoldable pub collect_enriched_queue : Result Trouble (List WorkUnitDiagnostics)
    unfolding collect_queue_detail enrich_all
    collect_enriched_queue = do units ← collect_queue_detail; enrich_all units

    -- `collect_active_sessions`
    unfoldable pub collect_active_sessions : String → Result Trouble (List ActiveSession)
    unfolding psql active_rows lines
    collect_active_sessions query = do raw ← psql (answer query); ok (active_rows (lines raw))
