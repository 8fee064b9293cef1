-- ===== src/Control/Soundness.antt =====
-- scripts/deploy/hermes_deployment_controller.py: the lease files that the controller writes are
-- always well formed, so the controller never fails on a file of its own.
use hermes_ops.Prelude.{
  ℕ, ◌+◌, ◌*◌, ◌/◌, String, ◌≡◌, refl, true, Option, none, some, List, [], ◌∷◌, arith, update, ltb,
  if◌then◌else◌,
}
use hermes_ops.Result.{Result, ok, err}
use hermes_ops.Exec.{lift, ◌>>=◌}
use hermes_ops.Exec.Keeps.{Keeps}
use hermes_ops.Control.State.{
  Failure, Outcome, exited, timed_out, failed, Plane, Host, Action, Waited, acquired, busy,
  unfinished, now, audit, validate_environment, granted_run, locked_run, with_lock, validation,
}
use hermes_ops.Control.Leases.{
  Lease, check_file, parse_utc, read_lease, unlink, write_lease, expire_lease, expire_or_read,
}
use hermes_ops.Control.Requests.{
  ApplyArgs, SoakArgs, check_apply, check_acquire, check_release, check_clear,
}
use hermes_ops.Prelude.Int.{ℤ}
use hermes_ops.Control.Ops.{
  released_fields, deployment_lease, soak_lease, drop_found, drop_own_lease, release_deployment,
  settle, deploy, apply_locked, apply, acquire_locked, acquire_soak, release_locked, release_soak,
  clear_locked, emergency_clear, status, ttl_of,
}
use hermes_ops.Control.Locking.{IsGranted, with_lock-IsGranted}
use hermes_ops.Control.Soaks.{ReadsBack}
use hermes_ops.Control.Sessions.{
  Op, deploying, soaking, releasing, clearing, asking, perform, history,
}
use hermes_ops.Control.SoundFiles.{
  IsGood, IsSound, RunnerSound, Stays, unlink-Stays, write_lease-Stays, read_lease-Stays,
  start-Stays, Stays-pure, Stays-raise, Stays-lift, Stays-bind, Stays-option, stays_rules,
}

module _ (h : Host) where
  expire_lease-Stays : (env : String) (l : Lease) → Keeps (Stays h) (expire_lease h env l)
  unfolding expire_lease
  expire_lease-Stays env l = search stays_rules depth 9

  expire_or_read-Stays : (env : String) → Keeps (Stays h) (expire_or_read h env)
  unfolding expire_or_read
  expire_or_read-Stays env =
      Stays-bind h _ _ (read_lease-Stays h env)
        λ found. Stays-option h found _ _ (Stays-pure h none) (expire_lease-Stays env)

  drop_found-Stays :
      (env lease_id : String) (r : Result Failure (Option Lease))
      → Keeps (Stays h) (drop_found env lease_id r)
  unfolding drop_found
  drop_found-Stays env lease_id (err (validation m)) = unlink-Stays h env
  drop_found-Stays env lease_id (err e) = Stays-raise h e
  drop_found-Stays env lease_id (ok none) = Stays-pure h tt
  drop_found-Stays env lease_id (ok (some l)) = search stays_rules

  drop_own_lease-Stays : (env lease_id : String) → Keeps (Stays h) (drop_own_lease env lease_id)
  unfolding drop_own_lease
  drop_own_lease-Stays env lease_id = record {
    at = λ s. (drop_found-Stays env lease_id (read_lease env s).0).at s;
  }

  release_locked-Stays :
      (env lease_id owner authorization : String)
      → Keeps (Stays h) (release_locked h env lease_id owner authorization)
  unfolding release_locked
  release_locked-Stays env lease_id owner authorization =
      Stays-bind h _ _ (read_lease-Stays h env)
        λ found. Stays-option h found _ _ (Stays-raise h _) λ l. search stays_rules depth 9

  clear_locked-Stays :
      (env reason authorization : String)
      → Keeps (Stays h) (clear_locked h env reason authorization)
  unfolding clear_locked
  clear_locked-Stays env reason authorization =
      Stays-bind h _ _ (read_lease-Stays h env)
        λ found. Stays-option h found _ _ (Stays-raise h _) λ l. search stays_rules depth 9

  release_deployment-Stays :
      (a : ApplyArgs) (lease_id : String) (result : Option ℤ)
      → Keeps (Stays h) (release_deployment h a lease_id result)
  unfolding release_deployment
  release_deployment-Stays a lease_id result = record {
    at = λ s.
        let t = drop_own_lease a.environment lease_id s in
        let logged : Keeps (Stays h)
            (audit h "deployment-released" (released_fields a lease_id result) >>= λ _. lift t.0) =
          search stays_rules in
        λ good. logged.at t.1 ((drop_own_lease-Stays a.environment lease_id).at s good);
  }

  settle-Stays :
      (a : ApplyArgs) (lease_id : String) (o : Outcome) → Keeps (Stays h) (settle h a lease_id o)
  unfolding settle
  settle-Stays a lease_id (exited code) = search (stays_rules, release_deployment-Stays) depth 9
  settle-Stays a lease_id timed_out = search (stays_rules, release_deployment-Stays) depth 9
  settle-Stays a lease_id failed = search (stays_rules, release_deployment-Stays) depth 9

module _ (h : Host) (back : ReadsBack h) where
  write_deployment-Stays :
      (a : ApplyArgs) (lease_id : String) (t : ℕ)
      → Keeps (Stays h) (write_lease a.environment (deployment_lease h a lease_id t))
  unfolding deployment_lease
  write_deployment-Stays a lease_id t =
      write_lease-Stays h a.environment (deployment_lease h a lease_id t)
        ((t + 55 * 60 * 1000000) / 1000000 * 1000000) refl
        (unfold parse_utc in rw (back ((t + 55 * 60 * 1000000) / 1000000)))

  write_soak-Stays :
      (a : SoakArgs) (ttl t : ℕ)
      → Keeps (Stays h) (write_lease a.environment (soak_lease h a ttl t))
  unfolding soak_lease
  write_soak-Stays a ttl t =
      write_lease-Stays h a.environment (soak_lease h a ttl t)
        ((t + ttl * 1000000) / 1000000 * 1000000) refl
        (unfold parse_utc in rw (back ((t + ttl * 1000000) / 1000000)))

  acquire_locked-Stays : (a : SoakArgs) (ttl : ℕ) → Keeps (Stays h) (acquire_locked h a ttl)
  unfolding acquire_locked
  acquire_locked-Stays a ttl = Stays-bind h _ _ (expire_or_read-Stays h a.environment) λ found.
      Stays-option h found _ _ (search (stays_rules, write_soak-Stays) depth 9) λ l. Stays-raise h _

  deploy-Stays :
      RunnerSound h
      → (a : ApplyArgs) (artifacts : List (String × String)) (root : String)
      → Keeps (Stays h) (deploy h a artifacts root)
  unfolding deploy
  deploy-Stays sound a artifacts root =
      search (stays_rules, write_deployment-Stays, start-Stays h sound, settle-Stays) depth 12

  apply_locked-Stays :
      RunnerSound h
      → (a : ApplyArgs) (artifacts : List (String × String)) (root : String)
      → Keeps (Stays h) (apply_locked h a artifacts root)
  unfolding apply_locked
  apply_locked-Stays sound a artifacts root =
      Stays-bind h _ _ (expire_or_read-Stays h a.environment) λ found.
        Stays-option h found _ _ (deploy-Stays sound a artifacts root)
          λ l. search stays_rules depth 9

  granted_run-Stays :
      {A : Type 0} (env : String) (body : Action A) (w : Waited)
      → Keeps (Stays h) body
      → Keeps (Stays h) (granted_run env body w)
  unfolding granted_run
  granted_run-Stays env body acquired keeps = record { at = λ s good. keeps.at _ good }
  granted_run-Stays env body busy keeps = record { at = λ s good. good }
  granted_run-Stays env body unfinished keeps = record { at = λ s good. good }

  with_lock-Stays :
      {A : Type 0} (env : String) (body : Action A)
      → Keeps (Stays h) body
      → Keeps (Stays h) (with_lock h env body)
  unfolding with_lock locked_run
  with_lock-Stays env body keeps = search (stays_rules, granted_run-Stays)

  perform-IsSound : RunnerSound h → (op : Op) (s : Plane) → IsSound h s → IsSound h (perform h op s)
  unfolding perform apply acquire_soak release_soak emergency_clear status
  perform-IsSound sound (deploying a) s =
      (Stays-bind h _ _ (Stays-lift h (check_apply h a))
          λ c. with_lock-Stays a.environment _ (apply_locked-Stays sound a c.0 c.1)).at
        s
  perform-IsSound sound (soaking a) s =
      (Stays-bind h _ _ (Stays-lift h (check_acquire a))
          λ _. with_lock-Stays a.environment _ (acquire_locked-Stays a (ttl_of h a.ttl_seconds))).at
        s
  perform-IsSound sound (releasing env lease_id owner authorization) s =
      (Stays-bind h _ _ (Stays-lift h (check_release env lease_id owner authorization))
          λ _. with_lock-Stays env _ (release_locked-Stays h env lease_id owner authorization)).at
        s
  perform-IsSound sound (clearing env reason authorization euid) s =
      (Stays-bind h _ _ (Stays-lift h (check_clear env reason authorization euid))
          λ _. with_lock-Stays env _ (clear_locked-Stays h env reason authorization)).at
        s
  perform-IsSound sound (asking env) s = (with_lock-Stays env _ (expire_or_read-Stays h env)).at s

  -- After any calls every lease file is absent, or holds a lease of its environment that is accepted
  -- and whose time of expiry can be read, if this was so before, the deployment commands keep it so,
  -- and times read back as written.
  pub history-IsSound :
      RunnerSound h → (ops : List Op) (s : Plane) → IsSound h s → IsSound h (history h ops s)
  unfolding history
  history-IsSound sound [] s good = good
  history-IsSound sound (op ∷ ops) s good =
      history-IsSound sound ops (perform h op s) (perform-IsSound sound op s good)

module _ (h : Host) (env : String) (s : Plane) where
  expire_lease-returns :
      (l : Lease) (t : ℕ)
      → parse_utc h l.expires_at ≡ ok t
      → (expire_lease h env l s).0 ≡ ok (if ltb (h.clock s.reads) t then some l else none)
  unfolding expire_lease now audit unlink ◌>>=◌
  expire_lease-returns l t parsed = rw parsed (ground arith)

  IsGood-expire_or_read :
      (r : Result Failure (Option Lease))
      → validate_environment env ≡ ok tt
      → check_file env (s.lease_at env) ≡ r
      → IsGood h r
      → (found : Option Lease) × ((expire_or_read h env s).0 ≡ ok found)
  unfolding expire_or_read read_lease ◌>>=◌
  IsGood-expire_or_read (ok none) valid read good = (none, rw (valid, read) refl)
  IsGood-expire_or_read (ok (some l)) valid read good = (
    (if ltb (h.clock s.reads) good.0 then some l else none),
    rw (valid, read) (expire_lease-returns l good.0 good.1),
  )
  IsGood-expire_or_read (err e) valid read good = absurd good

-- With sound lease files `status` answers for every environment that has a valid name, if it gets the
-- lock: it never fails on a file.
pub status-IsSound :
    (h : Host) (env : String) (s : Plane)
    → validate_environment env ≡ ok tt
    → IsGranted h env
    → IsSound h s
    → (found : Option Lease) × ((status h env s).0 ≡ ok found)
unfolding status
status-IsSound h env s valid granted sound =
    let (found, e) =
      IsGood-expire_or_read h env (record s { locked = update s.locked env true }) _ valid refl
        (sound env) in
    (found, rw (with_lock-IsGranted h env (expire_or_read h env) s valid granted) e)
