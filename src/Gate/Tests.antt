-- ===== src/Gate/Tests.antt =====
-- Verdicts on two runs of one check, of which the later one failed.
use hermes_ops.Prelude.{◌≡◌, refl, String, true, [], ◌∷◌, ◌==◌, arith, if◌then◌else◌}
use hermes_ops.Result.{ok}
use hermes_ops.Json.{
  Json, null, int, str, arr, obj, Fields, Items, dict, items, entries, get, get_or,
}
use hermes_ops.Gate.{
  Started, aware, unreadable, github_actions_app_id, matching_runs, matching, started_at,
  evaluate_gate,
}
use hermes_ops.Gate.Decision.{Judged, NoLater, evaluate_gate-Judged, evaluate_gate-total}

abbrev clock : String → Started
clock s = if s == "early" then aware 1 else if s == "late" then aware 2 else unreadable

abbrev run : String → String → Fields
run conclusion started = dict (
    ("name", str "shadow / shadow")
    ∷ ("app", obj (dict (("id", int github_actions_app_id) ∷ [])))
    ∷ ("status", str "completed")
    ∷ ("conclusion", str conclusion)
    ∷ ("started_at", str started)
    ∷ [])

abbrev check_runs : Items
check_runs = items (
    obj (run "failure" "late")
    ∷ null
    ∷ obj (run "success" "early")
    ∷ obj (dict (("name", str "lint") ∷ []))
    ∷ [])

abbrev payload : Fields
payload = dict (("check_runs", arr check_runs) ∷ [])

program : Unit {0}
unfolding evaluate_gate matching_runs matching get
program = tt

test_failure :
    evaluate_gate clock "abc" "abc" "shadow / shadow" payload github_actions_app_id
    ≡ ok (str "completed", str "failure")
unfolding program
test_failure = refl

evaluate_gate-Judged_example :
    (("abc" == "abc") ≡ true)
    × (vs : Items) × (get_or "check_runs" null payload ≡ arr vs)
    × Judged clock "shadow / shadow" github_actions_app_id
        (entries vs)
        (str "completed", str "failure")
evaluate_gate-Judged_example =
    evaluate_gate-Judged clock "abc" "abc" "shadow / shadow" payload github_actions_app_id
      (str "completed", str "failure") test_failure

list_payload : get_or "check_runs" null payload ≡ arr check_runs
unfolding program
list_payload = refl

readable_payload :
    NoLater clock 2 (matching_runs "shadow / shadow" github_actions_app_id (entries check_runs))
unfolding program started_at
readable_payload = ((2, refl, omega arith), ((1, refl, omega arith), tt))

evaluate_gate-total_example :
    (printed : Json × Json) × (evaluate_gate clock "abc" "abc" "shadow / shadow" payload
        github_actions_app_id
      ≡ ok printed)
evaluate_gate-total_example =
    evaluate_gate-total clock "abc" "abc" "shadow / shadow" payload github_actions_app_id check_runs
      2 refl list_payload readable_payload
