-- ===== src/Control/Frames.antt =====
-- scripts/deploy/hermes_deployment_controller.py: what every operation leaves alone. Whatever branch
-- it takes, an operation for one environment keeps the lease files of the others, only appends to
-- the audit log, and holds no lock when it ends.
use mathlib.Core.List.{append_assoc, append-nil}
use hermes_ops.Prelude.{
  ℕ, String, ◌≡◌, refl, sym, ◌∙◌, ap, Bool, false, List, [], ◌∷◌, ◌++◌, arith, ◌==◌, Option, none,
  some, if◌then◌else◌,
}
use hermes_ops.Prelude.Int.{ℤ}
use hermes_ops.Result.{Result, ok, err}
use hermes_ops.Exec.{pure, raise, lift, ◌>>=◌}
use hermes_ops.Exec.Keeps.{
  IsPreorder, Keeps, Keeps-pure, Keeps-raise, Keeps-lift, Keeps-if, Keeps-option, Keeps-bind,
}
use hermes_ops.Json.{Fields}
use hermes_ops.Control.State.{
  Failure, validation, Event, Outcome, exited, timed_out, failed, Plane, Host, Action, now, audit,
  fresh_id, start,
}
use hermes_ops.Control.Leases.{Lease, read_lease, unlink, write_lease, expire_lease, expire_or_read}
use hermes_ops.Control.LeaseFile.{read_lease-same}
use hermes_ops.Control.Requests.{ApplyArgs, SoakArgs}
use hermes_ops.Control.Ops.{
  deploy_timeout_seconds, deployment_id, deploy_argv, released_fields, drop_found, drop_own_lease,
  release_deployment, settle, deploy, apply_locked, acquire_locked, release_locked, clear_locked,
}

pub record Frame (env : String) (s t : Plane) : Type 0 where
  pub others : (e : String) → (env == e) ≡ false → t.lease_at e ≡ s.lease_at e
  pub added : List Event
  pub grows : t.audit ≡ s.audit ++ added
  pub locks : t.locked ≡ s.locked

-- The command of a deployment of `env` keeps the frame of `env`. Nothing is said of the commands of
-- the deployments of other environments.
abbrev pub RunnerKeeps : Host → String → Type 0
RunnerKeeps h env =
    (a : ApplyArgs) (artifacts : List (String × String)) (root : String) (s : Plane)
    → a.environment ≡ env
    → Frame env s (h.runner (deploy_argv a artifacts root) deploy_timeout_seconds s).1

-- What changes neither a lease file, nor the audit log, nor a lock.
Frame-quiet :
    (env : String) (s t : Plane)
    → t.lease_at ≡ s.lease_at
    → t.audit ≡ s.audit
    → t.locked ≡ s.locked
    → Frame env s t
Frame-quiet env s t files log locks = record {
  others = λ e ne. ap (λ f. f e) files;
  added = [];
  grows = log ∙ sym (append-nil s.audit);
  locks = locks;
}

module _ (env : String) where
  pub Frame-order : IsPreorder (Frame env)
  Frame-order = record {
    same = λ s. Frame-quiet env s s refl refl refl;
    compose = λ s t u f g. record {
      others = λ e ne. g.others e ne ∙ f.others e ne;
      added = f.added ++ g.added;
      grows = g.grows ∙ ap (λ l. l ++ g.added) f.grows ∙ append_assoc s.audit f.added g.added;
      locks = g.locks ∙ f.locks;
    };
  }

  unlink-Frame : Keeps (Frame env) (unlink env)
  unfolding unlink
  unlink-Frame = record {
    at = λ s. record {
      others = λ e ne. ground arith;
      added = [];
      grows = sym (append-nil s.audit);
      locks = refl;
    };
  }

  write_lease-Frame : (l : Lease) → Keeps (Frame env) (write_lease env l)
  unfolding write_lease
  write_lease-Frame l = record {
    at = λ s. record {
      others = λ e ne. ground arith;
      added = [];
      grows = sym (append-nil s.audit);
      locks = refl;
    };
  }

  read_lease-Frame : Keeps (Frame env) (read_lease env)
  read_lease-Frame = record {
    at = λ s.
        let e = read_lease-same env s in
        Frame-quiet env s _ (ap (λ t. t.lease_at) e) (ap (λ t. t.audit) e) (ap (λ t. t.locked) e);
  }

module _ (h : Host) (env : String) where
  now-Frame : Keeps (Frame env) (now h)
  unfolding now
  now-Frame = record { at = λ s. Frame-quiet env s _ refl refl refl }

  fresh_id-Frame : Keeps (Frame env) (fresh_id h)
  unfolding fresh_id
  fresh_id-Frame = record { at = λ s. Frame-quiet env s _ refl refl refl }

  audit-Frame : (name : String) (fields : Fields) → Keeps (Frame env) (audit h name fields)
  unfolding audit
  audit-Frame name fields = record {
    at = λ s. record { others = λ e ne. refl; added = _; grows = refl; locks = refl };
  }

  -- Starting the command changes the list of runs, and then what the command changes.
  start-Frame :
      (argv : List String) (timeout : ℕ)
      → ((s : Plane) → Frame env s (h.runner argv timeout s).1)
      → Keeps (Frame env) (start h argv timeout)
  unfolding start
  start-Frame argv timeout keeps = record {
    at = λ s.
        let f = keeps (record s { runs = s.runs ++ argv ∷ [] }) in
        record { others = f.others; added = f.added; grows = f.grows; locks = f.locks };
  }

module _ {A : Type 0} (env : String) where
  Frame-pure : (a : A) → Keeps (Frame env) (pure {E = Failure} a)
  Frame-pure = Keeps-pure (Frame-order env)

  Frame-raise : (e : Failure) → Keeps (Frame env) (raise {A = A} e)
  Frame-raise = Keeps-raise (Frame-order env)

  Frame-lift : (r : Result Failure A) → Keeps (Frame env) (lift r)
  Frame-lift = Keeps-lift (Frame-order env)

module _ {A B : Type 0} (env : String) where
  Frame-bind :
      (m : Action A) (f : A → Action B)
      → Keeps (Frame env) m
      → ((a : A) → Keeps (Frame env) (f a))
      → Keeps (Frame env) (m >>= f)
  Frame-bind = Keeps-bind (Frame-order env)

  Frame-option :
      (o : Option A) (m : Action B) (f : A → Action B)
      → Keeps (Frame env) m
      → ((a : A) → Keeps (Frame env) (f a))
      → Keeps (Frame env) (elim o [ none ↦ m | some a ↦ f a ])
  Frame-option = Keeps-option (Frame-order env)

Frame-if :
    {A : Type 0} (env : String) (b : Bool) (m n : Action A)
    → Keeps (Frame env) m
    → Keeps (Frame env) n
    → Keeps (Frame env) (if b then m else n)
Frame-if env = Keeps-if (Frame-order env)

ruleset frame_rules = (
  Frame-pure, Frame-raise, Frame-lift, Frame-bind, Frame-option, Frame-if, now-Frame,
  fresh_id-Frame, audit-Frame, unlink-Frame, write_lease-Frame, read_lease-Frame,
)

module _ (h : Host) (env : String) where
  expire_lease-Frame : (l : Lease) → Keeps (Frame env) (expire_lease h env l)
  unfolding expire_lease
  expire_lease-Frame l = search frame_rules depth 9

  pub expire_or_read-Frame : Keeps (Frame env) (expire_or_read h env)
  unfolding expire_or_read
  expire_or_read-Frame =
      Frame-bind env _ _ (read_lease-Frame env)
        λ found. Frame-option env found _ _ (Frame-pure env none) expire_lease-Frame

  drop_found-Frame :
      (lease_id : String) (r : Result Failure (Option Lease))
      → Keeps (Frame env) (drop_found env lease_id r)
  unfolding drop_found
  drop_found-Frame lease_id (err (validation m)) = unlink-Frame env
  drop_found-Frame lease_id (err e) = Frame-raise env e
  drop_found-Frame lease_id (ok none) = Frame-pure env tt
  drop_found-Frame lease_id (ok (some l)) = search frame_rules

  drop_own_lease-Frame : (lease_id : String) → Keeps (Frame env) (drop_own_lease env lease_id)
  unfolding drop_own_lease
  drop_own_lease-Frame lease_id = record {
    at = λ s. (drop_found-Frame lease_id (read_lease env s).0).at s;
  }

module _ (h : Host) (env : String) where
  pub release_locked-Frame :
      (lease_id owner authorization : String)
      → Keeps (Frame env) (release_locked h env lease_id owner authorization)
  unfolding release_locked
  release_locked-Frame lease_id owner authorization =
      Frame-bind env _ _ (read_lease-Frame env)
        λ found. Frame-option env found _ _ (Frame-raise env _) λ l. search frame_rules depth 9

  pub clear_locked-Frame :
      (reason authorization : String) → Keeps (Frame env) (clear_locked h env reason authorization)
  unfolding clear_locked
  clear_locked-Frame reason authorization =
      Frame-bind env _ _ (read_lease-Frame env)
        λ found. Frame-option env found _ _ (Frame-raise env _) λ l. search frame_rules depth 9

pub acquire_locked-Frame :
    (h : Host) (a : SoakArgs) (ttl : ℕ) → Keeps (Frame a.environment) (acquire_locked h a ttl)
unfolding acquire_locked
acquire_locked-Frame h a ttl =
    Frame-bind a.environment _ _ (expire_or_read-Frame h a.environment) λ found.
      Frame-option a.environment found _ _ (search frame_rules depth 9)
        λ l. Frame-raise a.environment _

module _ (h : Host) (a : ApplyArgs) where
  release_deployment-Frame :
      (lease_id : String) (result : Option ℤ)
      → Keeps (Frame a.environment) (release_deployment h a lease_id result)
  unfolding release_deployment
  release_deployment-Frame lease_id result = record {
    at = λ s.
        let t = drop_own_lease a.environment lease_id s in
        let logged : Keeps (Frame a.environment)
            (audit h "deployment-released" (released_fields a lease_id result) >>= λ _. lift t.0) =
          search frame_rules in
        (Frame-order a.environment).compose _ _ _
          ((drop_own_lease-Frame h a.environment lease_id).at s) (logged.at t.1);
  }

  settle-Frame :
      (lease_id : String) (o : Outcome) → Keeps (Frame a.environment) (settle h a lease_id o)
  unfolding settle
  settle-Frame lease_id (exited code) = search (frame_rules, release_deployment-Frame) depth 9
  settle-Frame lease_id timed_out = search (frame_rules, release_deployment-Frame) depth 9
  settle-Frame lease_id failed = search (frame_rules, release_deployment-Frame) depth 9

  run-Frame :
      RunnerKeeps h a.environment
      → (artifacts : List (String × String)) (root : String)
      → Keeps (Frame a.environment) (start h (deploy_argv a artifacts root) deploy_timeout_seconds)
  run-Frame keeps artifacts root =
      start-Frame h a.environment _ _ λ s. keeps a artifacts root s refl

  deploy-Frame :
      RunnerKeeps h a.environment
      → (artifacts : List (String × String)) (root : String)
      → Keeps (Frame a.environment) (deploy h a artifacts root)
  unfolding deploy
  deploy-Frame keeps artifacts root =
      Frame-bind a.environment _ _ (now-Frame h a.environment) λ acquired.
        Frame-bind a.environment _ _ (fresh_id-Frame h a.environment) λ uuid.
          Frame-bind a.environment _ _ (write_lease-Frame a.environment _) λ u.
            Frame-bind a.environment _ _ (audit-Frame h a.environment _ _) λ v.
              Frame-bind a.environment _ _ (run-Frame keeps artifacts root)
                λ outcome. settle-Frame (deployment_id uuid) outcome

  pub apply_locked-Frame :
      RunnerKeeps h a.environment
      → (artifacts : List (String × String)) (root : String)
      → Keeps (Frame a.environment) (apply_locked h a artifacts root)
  unfolding apply_locked
  apply_locked-Frame keeps artifacts root =
      Frame-bind a.environment _ _ (expire_or_read-Frame h a.environment) λ found.
        Frame-option a.environment found _ _ (deploy-Frame keeps artifacts root)
          λ l. search frame_rules depth 9
