-- ===== src/Acceptance/Inspection.antt =====
-- scripts/deploy/verify_running_stack.py: what the checks of `verify_inspect` say of the values that
-- it reads.
use hermes_ops.Prelude.{
  ℕ, ◌≤◌, ◌≢◌, false, not, nat_eq, arith, inl, inr, Bool-cases, &&-both, String, ◌≡◌, refl, sym, ap,
  subst, ◌∙◌, true, Option, none, some, ◌==◌, eq_iff,
}
use hermes_ops.Result.{Result, ok, err, >>=-eq-ok, ok-injective}
use hermes_ops.Prelude.Int.{pos}
use hermes_ops.Json.{Json, null, bool, int, float, str, arr, obj, Fields, get, get_or, is_str}
use hermes_ops.Json.Reading.{is_str-eq, get_or-text}
use hermes_ops.Gate.{truthy}
use hermes_ops.Acceptance.{
  Rejection, acceptance_error, attribute_error, Release, Env, lookup, has_value, runtime_env, index,
  is_true, is_zero, is_positive, is_text, label, Inspected, inspected, is_accepted,
}

obj-same : {c d : Fields} → obj c ≡ obj d → c ≡ d
obj-same e = cc

null-text : {t : String} → null ≡ str t → ⊥
null-text e = cc

nat_eq-zero : (n : ℕ) → nat_eq n 0 ≡ true → n ≡ 0
nat_eq-zero n e = ground arith

pub nat_eq-three : (n : ℕ) → nat_eq n 3 ≡ true → n ≡ 3
nat_eq-three n e = ground arith

not-empty : (t : String) → not (t == "") ≡ true → t ≡ "" → ⊥
not-empty t e same = ground (arith, eq_iff t "")

pub index-obj :
    (key : String) (v x : Json)
    → index key v ≡ ok x
    → (d : Fields) × (v ≡ obj d) × (get key d ≡ some x)
unfolding index
index-obj key (obj d) x e = (d, refl, found (get key d) e)
  where
    found :
        (o : Option Json)
        → ◌≡◌ {A = Result Rejection Json}
            (elim o [ none ↦ err acceptance_error | some v ↦ ok v ])
            (ok x)
        → o ≡ some x
    found none e = cc
    found (some v) e = ap some (ok-injective e)
index-obj key null x e = cc
index-obj key (bool b) x e = cc
index-obj key (int i) x e = cc
index-obj key (float i) x e = cc
index-obj key (str t) x e = cc
index-obj key (arr l) x e = cc

-- A key of a value that is known to be a dictionary.
pub index-get :
    (key : String) (v x : Json) {d : Fields} → v ≡ obj d → index key v ≡ ok x → get key d ≡ some x
index-get key v x {d} same e =
    let (c, is_c, found) = index-obj key v x e in
    subst (λ f. get key f ≡ some x) (obj-same (sym is_c ∙ same)) found

pub has_value-lookup : (k v : String) (env : Env) → has_value k v env ≡ true → lookup k env ≡ some v
has_value-lookup k v env e = found (lookup k env) e
  where
    found :
        (o : Option String) → (elim o [ none ↦ false | some text ↦ text == v ]) ≡ true → o ≡ some v
    found none e = cc
    found (some text) e = ap some ((eq_iff text v).0 e)

is_true-eq : (v : Json) → is_true v ≡ true → v ≡ bool true
is_true-eq (bool b) e = ap bool e
is_true-eq _ e = cc

is_zero-eq : (v : Json) → is_zero v ≡ true → v ≡ int (pos 0)
is_zero-eq (int (pos n)) e = ap (λ k. int (pos k)) (nat_eq-zero n e)
is_zero-eq _ e = cc

is_positive-eq : (v : Json) → is_positive v ≡ true → (n : ℕ) × (v ≡ int (pos n)) × (1 ≤ n)
is_positive-eq (int (pos n)) e = (n, refl, ground arith)
is_positive-eq _ e = cc

is_text-eq : (v : Json) → is_text v ≡ true → (t : String) × (v ≡ str t) × (t ≢ "")
is_text-eq (str t) e = (t, refl, λ same. not-empty t e same)
is_text-eq _ e = cc

-- The labels are a dictionary, and the revision is in it.
pub label-revision :
    (key text : String) (config : Fields) (found : Json)
    → label key (obj config) ≡ ok found
    → found ≡ str text
    → (labels : Fields) × (get_or "Labels" null config ≡ obj labels)
      × (get key labels ≡ some (str text))
unfolding label
label-revision key text config found e same =
    elim (Bool-cases (truthy (get_or "Labels" null config))) [
      | inl there ↦
          let (labels, is_labels, at) = inside (get_or "Labels" null config) (rw there at e) in
          (labels, is_labels, get_or-text key text labels (at ∙ same))
      | inr missing ↦ absurd (null-text (ok-injective (rw missing at e) ∙ same))
    ]
  where
    inside :
        (v : Json)
        → ◌≡◌ {A = Result Rejection Json}
            (elim v [ obj d ↦ ok (get_or key null d) | _ ↦ err attribute_error ])
            (ok found)
        → (labels : Fields) × (v ≡ obj labels) × (get_or key null labels ≡ found)
    inside (obj d) e = (d, refl, ok-injective e)
    inside _ e = cc

-- What the `try` of `verify_inspect` has read.
pub record Read (value : Json) (i : Inspected) : Type 0 where
  pub state : Json
  pub health_value : Json
  pub env_value : Json
  pub at_config : index "Config" value ≡ ok i.config
  pub at_state : index "State" value ≡ ok state
  pub at_image : index "Image" i.config ≡ ok i.image
  pub at_env : index "Env" i.config ≡ ok env_value
  pub read_env : runtime_env env_value ≡ ok i.env
  pub at_running : index "Running" state ≡ ok i.running
  pub at_health : index "Health" state ≡ ok health_value
  pub at_status : index "Status" health_value ≡ ok i.health
  pub at_restarts : index "RestartCount" value ≡ ok i.restart_count
  pub at_pid : index "Pid" state ≡ ok i.pid
  pub at_started : index "StartedAt" state ≡ ok i.started_at

pub inspected-Read : (value : Json) (i : Inspected) → inspected value ≡ ok i → Read value i
unfolding inspected
inspected-Read value i e =
    let (config, c, r1) = >>=-eq-ok (index "Config" value) _ e in
    let (state, s, r2) = >>=-eq-ok (index "State" value) _ r1 in
    let (image, im, r3) = >>=-eq-ok (index "Image" config) _ r2 in
    let (env_value, ev, r4) = >>=-eq-ok (index "Env" config) _ r3 in
    let (env, en, r5) = >>=-eq-ok (runtime_env env_value) _ r4 in
    let (running, ru, r6) = >>=-eq-ok (index "Running" state) _ r5 in
    let (health_value, hv, r7) = >>=-eq-ok (index "Health" state) _ r6 in
    let (health, he, r8) = >>=-eq-ok (index "Status" health_value) _ r7 in
    let (restarts, re, r9) = >>=-eq-ok (index "RestartCount" value) _ r8 in
    let (pid, pi, r10) = >>=-eq-ok (index "Pid" state) _ r9 in
    let (started, st, r11) = >>=-eq-ok (index "StartedAt" state) _ r10 in
    subst (Read value) (ok-injective r11) (record {
      state = state;
      health_value = health_value;
      env_value = env_value;
      at_config = c;
      at_state = s;
      at_image = im;
      at_env = ev;
      read_env = en;
      at_running = ru;
      at_health = hv;
      at_status = he;
      at_restarts = re;
      at_pid = pi;
      at_started = st;
    })

-- The checks below the `try`, one by one.
pub record Checked (r : Release) (i : Inspected) : Type 0 where
  pub source : lookup "HERMES_SOURCE_SHA" i.env ≡ some r.source_sha
  pub environment : lookup "HERMES_DEPLOY_ENV" i.env ≡ some r.environment
  pub running : i.running ≡ bool true
  pub healthy : i.health ≡ str "healthy"
  pub restarts : i.restart_count ≡ int (pos 0)
  pub pid : (n : ℕ) × (i.pid ≡ int (pos n)) × (1 ≤ n)
  pub started : (t : String) × (i.started_at ≡ str t) × (t ≢ "")

pub is_accepted-Checked : (r : Release) (i : Inspected) → is_accepted r i ≡ true → Checked r i
unfolding is_accepted
is_accepted-Checked r i e =
    let (a1, text) = &&-both _ (is_text i.started_at) e in
    let (a2, positive) = &&-both _ (is_positive i.pid) a1 in
    let (a3, zeroed) = &&-both _ (is_zero i.restart_count) a2 in
    let (a4, healthy) = &&-both _ (is_str "healthy" i.health) a3 in
    let (a5, up) = &&-both _ (is_true i.running) a4 in
    let (source, environment) = &&-both _ (has_value "HERMES_DEPLOY_ENV" r.environment i.env) a5 in
    record {
      source = has_value-lookup "HERMES_SOURCE_SHA" r.source_sha i.env source;
      environment = has_value-lookup "HERMES_DEPLOY_ENV" r.environment i.env environment;
      running = is_true-eq i.running up;
      healthy = is_str-eq "healthy" i.health healthy;
      restarts = is_zero-eq i.restart_count zeroed;
      pid = is_positive-eq i.pid positive;
      started = is_text-eq i.started_at text;
    }
