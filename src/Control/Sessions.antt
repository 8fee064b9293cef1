-- ===== src/Control/Sessions.antt =====
-- scripts/deploy/hermes_deployment_controller.py: any operation, and any sequence of operations, with
-- what all of them respect.
use mathlib.Core.List.{append_assoc, append-nil}
use hermes_ops.Prelude.{
  ℕ, String, ◌≡◌, refl, sym, ◌∙◌, ap, Bool, true, false, List, [], All, ◌∷◌, ◌++◌, arith, eq_iff,
  ◌==◌, update,
}
use hermes_ops.Result.{Result, ok, err}
use hermes_ops.Exec.{lift, ◌>>=◌}
use hermes_ops.Exec.Keeps.{Keeps}
use hermes_ops.Control.State.{
  Failure, Event, Plane, Host, Action, Waited, acquired, busy, unfinished, validate_environment,
  granted_run, locked_run, with_lock,
}
use hermes_ops.Control.Requests.{
  ApplyArgs, SoakArgs, check_apply, check_acquire, check_release, check_clear,
}
use hermes_ops.Control.Ops.{apply, acquire_soak, release_soak, emergency_clear, status, ttl_of}
use hermes_ops.Control.Frames.{
  Frame, RunnerKeeps, expire_or_read-Frame, apply_locked-Frame, acquire_locked-Frame,
  release_locked-Frame, clear_locked-Frame,
}

-- One call of the controller.
pub data Op : Type 0 where
  deploying : ApplyArgs → Op
  soaking : SoakArgs → Op
  releasing : (env lease_id owner authorization : String) → Op
  clearing : (env reason authorization : String) → ℕ → Op
  asking : String → Op

abbrev pub env_of : Op → String
env_of (deploying a) = a.environment
env_of (soaking a) = a.environment
env_of (releasing env _ _ _) = env
env_of (clearing env _ _ _) = env
env_of (asking env) = env

-- The state that a call leaves.
unfoldable pub perform : Host → Op → Plane → Plane
perform h (deploying a) s = (apply h a s).1
perform h (soaking a) s = (acquire_soak h a s).1
perform h (releasing env lease_id owner authorization) s =
    (release_soak h env lease_id owner authorization s).1
perform h (clearing env reason authorization euid) s =
    (emergency_clear h env reason authorization euid s).1
perform h (asking env) s = (status h env s).1

-- What a call for `env` respects: the leases of the other environments, the lines of the audit log,
-- and the locks, if it finds its own free.
pub record Respects (env : String) (s t : Plane) : Type 0 where
  pub others : (e : String) → (env == e) ≡ false → t.lease_at e ≡ s.lease_at e
  pub added : List Event
  pub grows : t.audit ≡ s.audit ++ added
  pub locks : s.locked env ≡ false → (e : String) → t.locked e ≡ s.locked e

Respects-same : (env : String) (s : Plane) → Respects env s s
Respects-same env s = record {
  others = λ e ne. refl;
  added = [];
  grows = sym (append-nil s.audit);
  locks = λ free e. refl;
}

update_back :
    (f : String → Bool) (k j : String) → f k ≡ false → update (update f k true) k false j ≡ f j
update_back f k j e = ground (arith, eq_iff k j)

-- The checks of an operation come before anything changes.
checked-Respects :
    {A B : Type 0} (env : String) (r : Result Failure B) (m : B → Action A)
    → ((b : B) (s : Plane) → Respects env s (m b s).1)
    → (s : Plane) → Respects env s ((lift r >>= m) s).1
unfolding ◌>>=◌
checked-Respects env (ok b) m h s = h b s
checked-Respects env (err e) m h s = Respects-same env s

module _ {A : Type 0} (h : Host) (env : String) (body : Action A)
    (keeps : Keeps (Frame env) body) where
  granted_run-Respects : (w : Waited) (s : Plane) → Respects env s (granted_run env body w s).1
  unfolding granted_run
  granted_run-Respects acquired s =
      let f = keeps.at (record s { locked = update s.locked env true }) in
      record {
        others = f.others;
        added = f.added;
        grows = f.grows;
        locks = λ free e.
            ap (λ (l : String → Bool). update l env false e) f.locks
            ∙ update_back s.locked env e free;
      }
  granted_run-Respects busy s = Respects-same env s
  granted_run-Respects unfinished s = Respects-same env s

  with_lock-Respects : (s : Plane) → Respects env s (with_lock h env body s).1
  unfolding with_lock locked_run
  with_lock-Respects =
      checked-Respects env (validate_environment env) (λ _. locked_run h env body)
        (λ _. granted_run-Respects _)

-- Every call respects what is not its own, whatever it is asked for and however it ends: where the
-- commands of the deployments of its environment do so too, the leases of the other environments stay, the audit log only
-- grows, and a lock that was free is free again.
pub perform-Respects :
    (h : Host) (op : Op) (s : Plane)
    → RunnerKeeps h (env_of op)
    → Respects (env_of op) s (perform h op s)
unfolding perform apply acquire_soak release_soak emergency_clear status
perform-Respects h (deploying a) s keeps =
    checked-Respects a.environment (check_apply h a) _
      (λ c. with_lock-Respects h a.environment _ (apply_locked-Frame h a keeps c.0 c.1)) s
perform-Respects h (soaking a) s keeps =
    checked-Respects a.environment (check_acquire a) _
      (λ _.
        with_lock-Respects h a.environment _ (acquire_locked-Frame h a (ttl_of h a.ttl_seconds)))
      s
perform-Respects h (releasing env lease_id owner authorization) s keeps =
    checked-Respects env (check_release env lease_id owner authorization) _
      (λ _. with_lock-Respects h env _ (release_locked-Frame h env lease_id owner authorization)) s
perform-Respects h (clearing env reason authorization euid) s keeps =
    checked-Respects env (check_clear env reason authorization euid) _
      (λ _. with_lock-Respects h env _ (clear_locked-Frame h env reason authorization)) s
perform-Respects h (asking env) s keeps = with_lock-Respects h env _ (expire_or_read-Frame h env) s

-- Calls one after the other.
unfoldable pub history : Host → List Op → Plane → Plane
history h [] s = s
history h (op ∷ ops) s = history h ops (perform h op s)

abbrev pub AllFree : Plane → Type 0
AllFree s = (e : String) → s.locked e ≡ false

-- After any calls, from a state in which no lock is held, no lock is held, and the audit log that was
-- there before is the beginning of the audit log. Each command of a deployment changes no lock of the
-- controller, only appends to its audit log, and leaves the lease files of the other environments.
pub history-audit :
    (h : Host) (ops : List Op) (s : Plane)
    → ((env : String) → RunnerKeeps h env)
    → AllFree s
    → AllFree (history h ops s)
      × ((added : List Event) × ((history h ops s).audit ≡ s.audit ++ added))
unfolding history
history-audit h [] s keeps free = (free, ([], sym (append-nil s.audit)))
history-audit h (op ∷ ops) s keeps free =
    let r = perform-Respects h op s (keeps (env_of op)) in
    let (idle, (more, log)) =
      history-audit h ops (perform h op s) keeps λ e. r.locks (free (env_of op)) e ∙ free e in
    (idle, (r.added ++ more, log ∙ ap (λ l. l ++ more) r.grows ∙ append_assoc s.audit r.added more))

-- The lease file of an environment is not changed by calls for other environments. Each command of a
-- deployment leaves the lease files of the environments other than its own, changes no lock of the
-- controller, and only appends to its audit log.
pub history-others :
    (h : Host) (ops : List Op) (s : Plane) (e : String)
    → ((env : String) → RunnerKeeps h env)
    → All (λ op. (env_of op == e) ≡ false) ops
    → (history h ops s).lease_at e ≡ s.lease_at e
unfolding history
history-others h [] s e keeps other = refl
history-others h (op ∷ ops) s e keeps other =
    history-others h ops (perform h op s) e keeps other.1
    ∙ (perform-Respects h op s (keeps (env_of op))).others e other.0
