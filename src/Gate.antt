-- ===== src/Gate.antt =====
-- scripts/deploy/evaluate_deployment_gate.py and scripts/deploy/select_deployment_policy.py: which
-- check run decides whether a commit may be deployed.
pub mod Latest
pub mod Decision
mod Tests
use hermes_ops.Prelude.{
  ℕ, String, Bool, true, false, not, ◌&&◌, Option, none, some, List, [], ◌∷◌, ◌==◌, leb, nat_eq,
  if◌then◌else◌,
}
use hermes_ops.Prelude.Int.{ℤ, pos, negsuc}
use hermes_ops.Result.{Result, ok, err, refuse, ◌>>=◌, ◌>>◌}
use hermes_ops.Json.{
  Json, null, bool, int, float, str, arr, obj, Items, nil, cons, Fields, end, field, get_or,
  entries, is_str, is_int,
}

-- `ValueError`
pub data Refusal : Type 0 where
  stale_deployment invalid_payload invalid_started_at unknown_lane : Refusal

-- `datetime.fromisoformat`, after a final "Z" was replaced: no offset, or a time in UTC.
pub data Started : Type 0 where
  unreadable naive : Started
  aware : ℕ → Started

abbrev pub github_actions_app_id : ℤ
github_actions_app_id = pos 15368

-- Python's truth of a value.
unfoldable pub truthy : Json → Bool
truthy null = false
truthy (bool b) = b
truthy (int (pos n)) = not (nat_eq n 0)
truthy (int (negsuc n)) = true
truthy (float (some (pos n))) = not (nat_eq n 0)
truthy (float _) = true
truthy (str s) = not (s == "")
truthy (arr nil) = false
truthy (arr (cons v vs)) = true
truthy (obj end) = false
truthy (obj (field k v fs)) = true

-- The app of a check run is the expected one.
unfoldable pub from_app : ℤ → Json → Bool
from_app app_id (obj app) = is_int app_id (get_or "id" null app)
from_app app_id _ = false

-- The condition of the comprehension `matching_runs`, at a check run that is a dictionary.
unfoldable pub matching : String → ℤ → Fields → Bool
unfolding from_app
matching context app_id run =
    is_str context (get_or "name" null run) && from_app app_id (get_or "app" null run)

unfoldable pub matching_runs : String → ℤ → List Json → List Fields
unfolding matching
matching_runs context app_id [] = []
matching_runs context app_id (obj run ∷ runs) =
    let rest = matching_runs context app_id runs in
    if matching context app_id run then run ∷ rest else rest
matching_runs context app_id (_ ∷ runs) = matching_runs context app_id runs

-- A check run with the time at which it started.
abbrev pub Timed : Type 0
Timed = ℕ × Fields

module _ (parse : String → Started) where
  -- `started_at`
  unfoldable pub started_at : Fields → Result Refusal ℕ
  started_at run = elim (get_or "started_at" null run) [
    | str value ↦ elim (parse value) [ aware t ↦ ok t | _ ↦ err invalid_started_at ]
    | _ ↦ err invalid_started_at
  ]

  -- The keys of `sort`: every run's, before any two are compared.
  unfoldable pub timed : List Fields → Result Refusal (List Timed)
  unfolding started_at
  timed [] = ok []
  timed (run ∷ runs) =
      let rest = timed runs in do t ← started_at run; others ← rest; ok ((t, run) ∷ others)

-- `sort` is stable: equal keys stay in order.
unfoldable pub insert : Timed → List Timed → List Timed
insert x [] = x ∷ []
insert x (y ∷ ys) = let rest = insert x ys in if leb x.0 y.0 then x ∷ y ∷ ys else y ∷ rest

unfoldable pub sort : List Timed → List Timed
unfolding insert
sort [] = []
sort (x ∷ xs) = insert x (sort xs)

-- `matching_runs[-1]`
unfoldable pub last : List Timed → Option Timed
last [] = none
last (x ∷ []) = some x
last (x ∷ y ∷ ys) = last (y ∷ ys)

-- The two parts of the text that is printed, "<status>:<conclusion>".
unfoldable pub verdict : Option Timed → Json × Json
unfolding truthy
verdict none = (str "missing", str "pending")
verdict (some (t, run)) =
    let conclusion = get_or "conclusion" null run in
    (get_or "status" (str "missing") run, if truthy conclusion then conclusion else str "pending")

-- The value of "check_runs" must be a list.
unfoldable pub judge : (String → Started) → String → ℤ → Json → Result Refusal (Json × Json)
unfolding matching_runs timed sort last verdict
judge parse context app_id (arr check_runs) = do
  runs ← timed parse (matching_runs context app_id (entries check_runs))
  ok (verdict (last (sort runs)))
judge parse context app_id _ = err invalid_payload

-- `evaluate_gate`
unfoldable pub evaluate_gate :
    (String → Started) → String → String → String → Fields → ℤ → Result Refusal (Json × Json)
unfolding judge
evaluate_gate parse expected_sha actual_sha context payload app_id =
    if not (actual_sha == expected_sha)
    then err stale_deployment
    else judge parse context app_id (get_or "check_runs" null payload)

-- `select_policy`: the source branch and the required check.
unfoldable pub select_policy : String → Result Refusal (String × String)
select_policy lane =
    if lane == "live"
    then ok ("batumi/live", "shadow / shadow")
    else if lane == "candidate"
    then ok ("rebuild/batumi-live", "shadow / shadow")
    else err unknown_lane
