-- ===== src/Queue/Totals.antt =====
-- plugins/honcho-ops/honcho_ops/queue_diagnostic.py: the counts of `collect_queue_summary` agree.
use hermes_ops.Prelude.{ℕ, ◌+◌, ◌≡◌, String, List, [], ◌∷◌}
use hermes_ops.Result.{Result, ok, err}
use hermes_ops.Queue.{Trouble, value_error, Reading, refused}
use hermes_ops.Queue.Summary.{Counts, Summary}

-- The sum of a count over the types.
pub sum_over : (Counts → ℕ) → List (String × Counts) → ℕ
sum_over f [] = 0
sum_over f ((t, c) ∷ rest) = f c + sum_over f rest

-- Each count of the whole queue is the sum over the types, and the total is what is pending and done.
abbrev pub AgreesWith : Summary → Type 0
AgreesWith s =
    (s.whole.total ≡ s.whole.pending + s.whole.done)
    × (s.whole.total ≡ sum_over (λ c. c.total) s.by_type)
    × (s.whole.pending ≡ sum_over (λ c. c.pending) s.by_type)
    × (s.whole.done ≡ sum_over (λ c. c.done) s.by_type)
    × (s.whole.errored ≡ sum_over (λ c. c.errored) s.by_type)

module _ (read : String → Reading) where
  -- The counts agree, or a text of digits was met that `int` refuses.
  abbrev pub Agrees : Result Trouble Summary → Type 0
  Agrees (ok s) = AgreesWith s
  Agrees (err e) = (e ≡ value_error) × ((text : String) × (read text ≡ refused))
