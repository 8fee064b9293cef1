-- ===== src/Acceptance/Evidence.antt =====
-- scripts/deploy/verify_running_stack.py: what is known of a deployment that was accepted.
use hermes_ops.Prelude.{
  ℕ, ◌≤◌, ◌≢◌, length, &&-both, String, ◌≡◌, refl, sym, ap, ◌∙◌, true, Option, none, some, ◌==◌,
  is_some, strip_prefix, eq_iff,
}
use hermes_ops.Result.{ok, >>=-eq-ok, refuse-not-eq-ok, ok-injective}
use hermes_ops.Prelude.Int.{pos}
use hermes_ops.Json.{Json, null, bool, int, str, arr, obj, nil, cons, Fields, get, get_or, is_str}
use hermes_ops.Json.Reading.{is_str-eq}
use hermes_ops.Control.Formats.{image_repository, digest_re, sha_re}
use hermes_ops.Acceptance.{
  acceptance_error, Release, Env, lookup, runtime_env, environment_re, exact_env, same_env,
  reference, verify_release_env, label, Inspected, inspected, is_accepted, verify_inspect, Machine,
  only_object, resolved_root, supervised, accept_running_stack,
}
use hermes_ops.Acceptance.Inspection.{
  Read, Checked, index-obj, index-get, has_value-lookup, label-revision, inspected-Read,
  is_accepted-Checked, nat_eq-three,
}

-- release.env has the three values of the release, and nothing else.
pub record Released (r : Release) (env : Env) : Type 0 where
  pub image : lookup "HERMES_IMAGE" env ≡ some (reference r)
  pub environment : lookup "HERMES_DEPLOY_ENV" env ≡ some r.environment
  pub source : lookup "HERMES_SOURCE_SHA" env ≡ some r.source_sha
  pub three : length env ≡ 3

-- What `docker inspect` shows of a container that runs the release.
pub record Runs (r : Release) (d : Fields) : Type 0 where
  pub config : Fields
  pub state : Fields
  pub health : Fields
  pub labels : Fields
  pub env_value : Json
  pub env : Env
  pub pid : ℕ
  pub started : String
  pub at_config : get "Config" d ≡ some (obj config)
  pub at_state : get "State" d ≡ some (obj state)
  pub image : get "Image" config ≡ some (str (reference r))
  pub at_labels : get_or "Labels" null config ≡ obj labels
  pub revision : get "org.opencontainers.image.revision" labels ≡ some (str r.source_sha)
  pub at_env : get "Env" config ≡ some env_value
  pub read_env : runtime_env env_value ≡ ok env
  pub source : lookup "HERMES_SOURCE_SHA" env ≡ some r.source_sha
  pub environment : lookup "HERMES_DEPLOY_ENV" env ≡ some r.environment
  pub running : get "Running" state ≡ some (bool true)
  pub at_health : get "Health" state ≡ some (obj health)
  pub healthy : get "Status" health ≡ some (str "healthy")
  pub restarts : get "RestartCount" d ≡ some (int (pos 0))
  pub at_pid : get "Pid" state ≡ some (int (pos pid))
  pub positive : 1 ≤ pid
  pub at_started : get "StartedAt" state ≡ some (str started)
  pub not_empty : started ≢ ""

same_env-Released : (r : Release) (env : Env) → same_env r env ≡ true → Released r env
unfolding same_env
same_env-Released r env e =
    let (e1, three) = &&-both _ _ e in
    let (e2, source) = &&-both _ _ e1 in
    let (image, environment) = &&-both _ _ e2 in
    record {
      image = has_value-lookup _ _ env image;
      environment = has_value-lookup _ _ env environment;
      source = has_value-lookup _ _ env source;
      three = nat_eq-three (length env) three;
    }

module _ (d : Fields) (r : Release) (i : Inspected) (revision : Json) where
  Read-Runs :
      Read (obj d) i
      → Checked r i
      → i.image ≡ str (reference r)
      → label "org.opencontainers.image.revision" i.config ≡ ok revision
      → revision ≡ str r.source_sha
      → Runs r d
  Read-Runs read fine image labelled same =
      let (config, is_config, at_image) = index-obj "Image" i.config i.image read.at_image in
      let (state, is_state, at_running) =
        index-obj "Running" read.state i.running read.at_running in
      let (health, is_health, at_status) =
        index-obj "Status" read.health_value i.health read.at_status in
      let (n, is_pid, one) = fine.pid in
      let (t, is_started, filled) = fine.started in
      let (labels, is_labels, at_revision) =
        label-revision "org.opencontainers.image.revision" r.source_sha config revision
          (ap (label "org.opencontainers.image.revision") (sym is_config) ∙ labelled) same in
      record {
        config = config;
        state = state;
        health = health;
        labels = labels;
        env_value = read.env_value;
        env = i.env;
        pid = n;
        started = t;
        at_config = index-get "Config" (obj d) i.config refl read.at_config ∙ ap some is_config;
        at_state = index-get "State" (obj d) read.state refl read.at_state ∙ ap some is_state;
        image = at_image ∙ ap some image;
        at_labels = is_labels;
        revision = at_revision;
        at_env = index-get "Env" i.config read.env_value is_config read.at_env;
        read_env = read.read_env;
        source = fine.source;
        environment = fine.environment;
        running = at_running ∙ ap some fine.running;
        at_health =
            index-get "Health" read.state read.health_value is_state read.at_health
            ∙ ap some is_health;
        healthy = at_status ∙ ap some fine.healthy;
        restarts =
            index-get "RestartCount" (obj d) i.restart_count refl read.at_restarts
            ∙ ap some fine.restarts;
        at_pid = index-get "Pid" read.state i.pid is_state read.at_pid ∙ ap some is_pid;
        positive = one;
        at_started =
            index-get "StartedAt" read.state i.started_at is_state read.at_started
            ∙ ap some is_started;
        not_empty = filled;
      }

verify_inspect-Runs :
    (d : Fields) (r : Release) (i : Inspected) → verify_inspect (obj d) r ≡ ok i → Runs r d
unfolding verify_inspect
verify_inspect-Runs d r i e =
    let (j, read, e1) = >>=-eq-ok (inspected (obj d)) _ e in
    let (image, e2) = refuse-not-eq-ok (is_str (reference r) j.image) acceptance_error _ e1 in
    let (revision, labelled, e3) =
      >>=-eq-ok (label "org.opencontainers.image.revision" j.config) _ e2 in
    let (same, e4) = refuse-not-eq-ok (is_str r.source_sha revision) acceptance_error _ e3 in
    let (accepted, e5) = refuse-not-eq-ok (is_accepted r j) acceptance_error _ e4 in
    Read-Runs d r j revision (inspected-Read (obj d) j read) (is_accepted-Checked r j accepted)
      (is_str-eq (reference r) j.image image) labelled (is_str-eq r.source_sha revision same)

only_object-one :
    (o : Option Json) (value : Json)
    → only_object o ≡ ok value
    → (d : Fields) × (o ≡ some (arr (cons (obj d) nil))) × (value ≡ obj d)
unfolding only_object
only_object-one (some (arr (cons (obj d) nil))) value e = (d, refl, sym (ok-injective e))
only_object-one none value e = cc
only_object-one _ value e = cc

supervised-up :
    (o : Option String) (text : String)
    → supervised o ≡ ok text
    → is_some (strip_prefix "up " text) ≡ true
unfolding supervised
supervised-up none text e = cc
supervised-up (some found) text e =
    let (up, e1) = refuse-not-eq-ok (is_some (strip_prefix "up " found)) acceptance_error _ e in
    ap (λ q. is_some (strip_prefix "up " q)) (sym (ok-injective e1)) ∙ up

-- A deployment is accepted only if its names and digests are well formed, release.env has exactly the
-- three values of the release, and `docker inspect` shows one container, whose fields have the release's
-- image, the commit as a label, commit and environment among its variables, "Running" true, "Status"
-- healthy, a "RestartCount" of 0, a positive "Pid" and a "StartedAt" that is not empty, and the
-- supervisor says that the gateway is up.
pub accept_running_stack-Runs :
    (r : Release) (m : Machine) (i : Inspected) (supervisor : String)
    → accept_running_stack r m ≡ ok (i, supervisor)
    → (environment_re r.environment ≡ true)
      × (r.image ≡ image_repository)
      × (digest_re r.digest ≡ true)
      × (sha_re r.source_sha ≡ true)
      × (env : Env) × (exact_env m.release_env ≡ ok env)
      × Released r env
      × (d : Fields) × (m.inspect ≡ some (arr (cons (obj d) nil)))
      × Runs r d
      × (is_some (strip_prefix "up " supervisor) ≡ true)
unfolding accept_running_stack verify_release_env
accept_running_stack-Runs r m i supervisor e =
    let (environment, e1) = refuse-not-eq-ok (environment_re r.environment) acceptance_error _ e in
    let (image, e2) = refuse-not-eq-ok (r.image == image_repository) acceptance_error _ e1 in
    let (digest, e3) = refuse-not-eq-ok (digest_re r.digest) acceptance_error _ e2 in
    let (source, e4) = refuse-not-eq-ok (sha_re r.source_sha) acceptance_error _ e3 in
    let (absolute, e5) = refuse-not-eq-ok m.absolute acceptance_error _ e4 in
    let (u, rooted, e6) = >>=-eq-ok (resolved_root m.resolved) _ e5 in
    let (env, released, e7) = >>=-eq-ok (verify_release_env m.release_env r) _ e6 in
    let (actual, parsed, r1) = >>=-eq-ok (exact_env m.release_env) _ released in
    let (same, r2) = refuse-not-eq-ok (same_env r actual) acceptance_error _ r1 in
    let (value, only, e8) = >>=-eq-ok (only_object m.inspect) _ e7 in
    let (d, shown, is_d) = only_object-one m.inspect value only in
    let (j, checked, e9) = >>=-eq-ok (verify_inspect value r) _ e8 in
    let (text, up, e10) = >>=-eq-ok (supervised m.supervisor) _ e9 in
    let pair = ok-injective e10 in
    (
      environment,
      (eq_iff r.image image_repository).0 image,
      digest,
      source,
      actual,
      parsed,
      same_env-Released r actual same,
      d,
      shown,
      verify_inspect-Runs d r i
          (ap (λ v. verify_inspect v r) (sym is_d) ∙ checked ∙ ap ok (ap (λ p. p.0) pair)),
      ap (λ q. is_some (strip_prefix "up " q)) (sym (ap (λ p. p.1) pair))
          ∙ supervised-up m.supervisor text up,
    )
