-- ===== src/Gate/Decision.antt =====
-- scripts/deploy/evaluate_deployment_gate.py: what a printed verdict says about the check runs.
use hermes_ops.Prelude.{
  ℕ, ◌≤◌, ◌≡◌, ◌⊎◌, inl, inr, refl, sym, ap, subst, ◌∙◌, String, Bool, true, false, not, some, List,
  [], ◌∷◌, All, Bool-cases, ◌==◌, if◌then◌else◌,
}
use hermes_ops.Prelude.Int.{ℤ}
use hermes_ops.Result.{Result, ok, err, ok-injective, >>=-eq-ok}
use hermes_ops.Json.{Json, null, bool, int, float, str, arr, obj, Items, Fields, entries, get_or}
use hermes_ops.Gate.{
  Started, Refusal, stale_deployment, Timed, matching, matching_runs, started_at, timed, sort, last,
  verdict, judge, evaluate_gate,
}
use hermes_ops.Gate.Latest.{Holds, IsLatest, last-sort}

-- The run is a dictionary of the payload, of the right name and app.
abbrev pub Listed : Fields → List Json → Type 0
Listed run [] = ⊥
Listed run (v ∷ vs) = (v ≡ obj run) ⊎ Listed run vs

abbrev pub InRuns : Fields → List Fields → Type 0
InRuns run [] = ⊥
InRuns run (r ∷ rs) = (run ≡ r) ⊎ InRuns run rs

matching-hit :
    (context : String) (app_id : ℤ) (r : Fields) (vs : List Json)
    → matching context app_id r ≡ true
    → matching_runs context app_id (obj r ∷ vs) ≡ r ∷ matching_runs context app_id vs
unfolding matching_runs
matching-hit context app_id r vs e = rw e refl

matching-miss :
    (context : String) (app_id : ℤ) (r : Fields) (vs : List Json)
    → matching context app_id r ≡ false
    → matching_runs context app_id (obj r ∷ vs) ≡ matching_runs context app_id vs
unfolding matching_runs
matching-miss context app_id r vs e = rw e refl

-- What the comprehension keeps is a check run of the payload with the name and the app.
abbrev pub Kept : String → ℤ → Fields → List Json → Type 0
Kept context app_id run vs = Listed run vs × (matching context app_id run ≡ true)

behind :
    (context : String) (app_id : ℤ) (run : Fields) (v : Json) (vs : List Json)
    → Kept context app_id run vs
    → Kept context app_id run (v ∷ vs)
behind context app_id run v vs (a, b) = (inr a, b)

matching-InRuns :
    (context : String) (app_id : ℤ) (run : Fields) (vs : List Json)
    → InRuns run (matching_runs context app_id vs)
    → Kept context app_id run vs
unfolding matching_runs
matching-InRuns context app_id run [] h = absurd h
matching-InRuns context app_id run (null ∷ vs) h =
    behind context app_id run null vs (matching-InRuns context app_id run vs h)
matching-InRuns context app_id run (bool x ∷ vs) h =
    behind context app_id run (bool x) vs (matching-InRuns context app_id run vs h)
matching-InRuns context app_id run (int x ∷ vs) h =
    behind context app_id run (int x) vs (matching-InRuns context app_id run vs h)
matching-InRuns context app_id run (float x ∷ vs) h =
    behind context app_id run (float x) vs (matching-InRuns context app_id run vs h)
matching-InRuns context app_id run (str x ∷ vs) h =
    behind context app_id run (str x) vs (matching-InRuns context app_id run vs h)
matching-InRuns context app_id run (arr x ∷ vs) h =
    behind context app_id run (arr x) vs (matching-InRuns context app_id run vs h)
matching-InRuns context app_id run (obj r ∷ vs) h = elim (Bool-cases (matching context app_id r)) [
  | inl hit ↦ elim (subst (InRuns run) (matching-hit context app_id r vs hit) h) [
    | inl same ↦
        (inl (ap obj (sym same)), subst (λ q. matching context app_id q ≡ true) (sym same) hit)
    | inr later ↦ behind context app_id run (obj r) vs (matching-InRuns context app_id run vs later)
  ]
  | inr miss ↦ behind context app_id run (obj r) vs (
      matching-InRuns context app_id run vs
        (subst (InRuns run) (matching-miss context app_id r vs miss) h))
]

gate-expected :
    (same : Bool) (m : Result Refusal (Json × Json)) (printed : Json × Json)
    → (if not same then err stale_deployment else m) ≡ ok printed
    → (same ≡ true) × (m ≡ ok printed)
gate-expected true m printed e = (refl, e)
gate-expected false m printed e = cc

module _ (parse : String → Started) where
  -- The runs and their times, side by side.
  abbrev IsTimed : List Fields → List Timed → Type 0
  IsTimed [] [] = Unit
  IsTimed (run ∷ runs) ((t, r) ∷ ts) = (r ≡ run) × (started_at parse run ≡ ok t) × IsTimed runs ts
  IsTimed _ _ = ⊥

  timed-IsTimed :
      (runs : List Fields) (ts : List Timed) → timed parse runs ≡ ok ts → IsTimed runs ts
  unfolding timed
  timed-IsTimed [] [] e = tt
  timed-IsTimed [] (t ∷ ts) e = cc
  timed-IsTimed (run ∷ runs) ts e =
      let (t, et, e1) = >>=-eq-ok (started_at parse run) _ e in
      let (others, eo, e2) = >>=-eq-ok (timed parse runs) _ e1 in
      subst (IsTimed (run ∷ runs)) (ok-injective e2) (refl, et, timed-IsTimed runs others eo)

  -- No check run of the list started after the time `t`, and all have a readable time.
  abbrev pub NoLater : ℕ → List Fields → Type 0
  NoLater t runs = All (λ q. (u : ℕ) × (started_at parse q ≡ ok u) × (u ≤ t)) runs

  IsTimed-NoLater :
      (t : ℕ) (runs : List Fields) (ts : List Timed)
      → IsTimed runs ts
      → All (λ q. q.0 ≤ t) ts
      → NoLater t runs
  IsTimed-NoLater t [] [] i h = tt
  IsTimed-NoLater t [] (x ∷ ts) i h = absurd i
  IsTimed-NoLater t (run ∷ runs) [] i h = absurd i
  IsTimed-NoLater t (run ∷ runs) ((u, r) ∷ ts) (e, et, i) (le, h) =
      ((u, et, le), IsTimed-NoLater t runs ts i h)

  IsTimed-Holds :
      (t : ℕ) (run : Fields) (runs : List Fields) (ts : List Timed)
      → IsTimed runs ts
      → Holds (t, run) ts
      → InRuns run runs × (started_at parse run ≡ ok t)
  IsTimed-Holds t run [] [] i h = absurd h
  IsTimed-Holds t run [] (x ∷ ts) i h = absurd i
  IsTimed-Holds t run (r ∷ runs) [] i h = absurd i
  IsTimed-Holds t run (r ∷ runs) ((u, q) ∷ ts) (e, et, i) (inl same) =
      let same_run = ap (λ p. p.1) same ∙ e in
      (inl same_run, ap (started_at parse) same_run ∙ et ∙ ap ok (sym (ap (λ p. p.0) same)))
  IsTimed-Holds t run (r ∷ runs) ((u, q) ∷ ts) (e, et, i) (inr later) =
      let (a, b) = IsTimed-Holds t run runs ts i later in (inr a, b)

  -- What is known of a verdict on the list of check runs `vs`: there is no matching run and the
  -- verdict is "missing:pending", or it is the one of a matching run that no other started after.
  pub data Judged (context : String) (app_id : ℤ) (vs : List Json) : Json × Json → Type 0 where
    missing :
        matching_runs context app_id vs ≡ []
        → Judged context app_id vs (str "missing", str "pending")
    judged :
        (t : ℕ) (run : Fields)
        → Kept context app_id run vs
        → started_at parse run ≡ ok t
        → NoLater t (matching_runs context app_id vs)
        → Judged context app_id vs (verdict (some (t, run)))

  IsTimed-nil : (runs : List Fields) → IsTimed runs [] → runs ≡ []
  IsTimed-nil [] i = refl
  IsTimed-nil (r ∷ runs) i = absurd i

  Judged-latest :
      (context : String) (app_id : ℤ) (vs : List Json) (ts : List Timed) (m : Timed)
      → IsTimed (matching_runs context app_id vs) ts
      → IsLatest m ts
      → Judged context app_id vs (verdict (some m))
  Judged-latest context app_id vs ts (t, run) i l =
      let (among, et) = IsTimed-Holds t run (matching_runs context app_id vs) ts i l.there in
      judged t run (matching-InRuns context app_id run vs among) et
        (IsTimed-NoLater t (matching_runs context app_id vs) ts i l.latest)

  Judged-runs :
      (context : String) (app_id : ℤ) (vs : List Json) (ts : List Timed)
      → IsTimed (matching_runs context app_id vs) ts
      → Judged context app_id vs (verdict (last (sort ts)))
  unfolding verdict last sort
  Judged-runs context app_id vs [] i = missing (IsTimed-nil (matching_runs context app_id vs) i)
  Judged-runs context app_id vs (x ∷ xs) i =
      let (m, e, l) = last-sort x xs in
      subst (λ o. Judged context app_id vs (verdict o)) (sym e)
        (Judged-latest context app_id vs (x ∷ xs) m i l)

  judge-Judged :
      (context : String) (app_id : ℤ) (value : Json) (printed : Json × Json)
      → judge parse context app_id value ≡ ok printed
      → (vs : Items) × (value ≡ arr vs) × Judged context app_id (entries vs) printed
  unfolding judge
  judge-Judged context app_id (arr vs) printed e =
      let (ts, et, e1) = >>=-eq-ok (timed parse (matching_runs context app_id (entries vs))) _ e in
      (
        vs,
        refl,
        subst (Judged context app_id (entries vs)) (ok-injective e1) (
            Judged-runs context app_id (entries vs) ts
              (timed-IsTimed (matching_runs context app_id (entries vs)) ts et)),
      )
  judge-Judged context app_id null printed e = cc
  judge-Judged context app_id (bool b) printed e = cc
  judge-Judged context app_id (int n) printed e = cc
  judge-Judged context app_id (float n) printed e = cc
  judge-Judged context app_id (str s) printed e = cc
  judge-Judged context app_id (obj fs) printed e = cc

  timed-total :
      (t : ℕ) (runs : List Fields) → NoLater t runs → (ts : List Timed) × (timed parse runs ≡ ok ts)
  unfolding timed
  timed-total t [] h = ([], refl)
  timed-total t (run ∷ runs) ((u, e, le), h) =
      let (ts, es) = timed-total t runs h in ((u, run) ∷ ts, rw (e, es) refl)

  -- A verdict is printed only for the expected commit and a list of check runs whose matching ones
  -- have readable times; it is "missing:pending" where no run matches, and otherwise the verdict of a
  -- matching run of the payload that no other matching run started after.
  pub evaluate_gate-Judged :
      (expected_sha actual_sha context : String) (payload : Fields) (app_id : ℤ)
      (printed : Json × Json)
      → evaluate_gate parse expected_sha actual_sha context payload app_id ≡ ok printed
      → ((actual_sha == expected_sha) ≡ true)
        × (vs : Items) × (get_or "check_runs" null payload ≡ arr vs)
        × Judged context app_id (entries vs) printed
  unfolding evaluate_gate
  evaluate_gate-Judged expected_sha actual_sha context payload app_id printed e =
      let (same, e1) = gate-expected (actual_sha == expected_sha) _ printed e in
      let (vs, list, j) =
        judge-Judged context app_id (get_or "check_runs" null payload) printed e1 in
      (same, vs, list, j)

  -- Conversely, a verdict is printed whenever the commit is the expected one and every matching run
  -- of the list has a readable time.
  pub evaluate_gate-total :
      (expected_sha actual_sha context : String) (payload : Fields) (app_id : ℤ) (vs : Items)
      (t : ℕ)
      → (actual_sha == expected_sha) ≡ true
      → get_or "check_runs" null payload ≡ arr vs
      → NoLater t (matching_runs context app_id (entries vs))
      → (printed : Json × Json) × (evaluate_gate parse expected_sha actual_sha context payload
            app_id
          ≡ ok printed)
  unfolding evaluate_gate
  evaluate_gate-total expected_sha actual_sha context payload app_id vs t same list readable =
      let (ts, es) = timed-total t (matching_runs context app_id (entries vs)) readable in
      (verdict (last (sort ts)), rw (same, list, es) refl)
