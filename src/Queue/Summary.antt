-- ===== src/Queue/Summary.antt =====
-- plugins/honcho-ops/honcho_ops/queue_diagnostic.py: `collect_queue_summary`.
use hermes_ops.Prelude.{ℕ, ◌+◌, String, Bool, List, [], ◌∷◌, ◌==◌, lines, split, if◌then◌else◌}
use hermes_ops.Result.{Result, ok, ◌>>=◌}
use hermes_ops.Queue.{Trouble, Reading, int_or_zero, is_yes}

-- The counts of the whole queue, or of one type.
pub record Counts : Type 0 where
  pub total : ℕ
  pub pending : ℕ
  pub done : ℕ
  pub errored : ℕ

abbrev pub no_counts : Counts
no_counts = record { total = 0; pending = 0; done = 0; errored = 0 }

pub record Summary : Type 0 where
  pub whole : Counts
  pub by_type : List (String × Counts)

-- What a row adds.
abbrev pub add_counts : Bool → ℕ → ℕ → Counts → Counts
add_counts processed count errors c = record {
  total = c.total + count;
  pending = if processed then c.pending else c.pending + count;
  done = if processed then c.done + count else c.done;
  errored = if processed then c.errored + errors else c.errored;
}

-- `setdefault(task_type, …)`, and the row's counts.
unfoldable pub add_type : String → Bool → ℕ → ℕ → List (String × Counts) → List (String × Counts)
add_type t processed count errors [] = (t, add_counts processed count errors no_counts) ∷ []
add_type t processed count errors ((u, c) ∷ rest) =
    let later = add_type t processed count errors rest in
    if u == t then (u, add_counts processed count errors c) ∷ rest else (u, c) ∷ later

abbrev pub add_counted : String → Bool → ℕ → ℕ → Summary → Summary
add_counted t processed count errors s = record {
  whole = add_counts processed count errors s.whole;
  by_type = add_type t processed count errors s.by_type;
}

-- `str.isdigit` and `int` are Python's.
module _ (read : String → Reading) where
  -- A row that has not four columns is passed over.
  unfoldable pub add_row : List String → Summary → Result Trouble Summary
  unfolding add_type int_or_zero is_yes
  add_row (task_type ∷ processed ∷ count ∷ errors ∷ []) s = do
    n ← int_or_zero (read count)
    e ← int_or_zero (read errors)
    ok (add_counted task_type (is_yes processed) n e s)
  add_row _ s = ok s

  unfoldable pub add_rows : List String → Summary → Result Trouble Summary
  unfolding add_row split
  add_rows [] s = ok s
  add_rows (row ∷ rest) s = add_row (split "|" row) s >>= add_rows rest

  -- `collect_queue_summary`, from what psql prints.
  unfoldable pub collect_queue_summary : String → Result Trouble Summary
  unfolding add_rows lines
  collect_queue_summary raw = add_rows (lines raw) (record { whole = no_counts; by_type = [] })
