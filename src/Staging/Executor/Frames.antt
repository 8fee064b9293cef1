-- ===== src/Staging/Executor/Frames.antt =====
-- scripts/staging/hermes_staging_socket_diagnostic.py: what the steps of `DiagnosticExecutor` leave
-- alone.
use hermes_ops.Prelude.{
  ℕ, zero, suc, ◌+◌, ◌*◌, ◌≡◌, refl, ◌∙◌, Bool, true, false, not, Option, none, some, ◌==◌, ltb,
  leb, if◌then◌else◌,
}
use hermes_ops.Result.{Result, ok, err}
use hermes_ops.Exec.{pure, ◌>>=◌}
use hermes_ops.Exec.Keeps.{IsPreorder, Keeps, Keeps-pure, Keeps-if, Keeps-bind}
use hermes_ops.Staging.Request.{Failure, command_error, diagnostic_error}
use hermes_ops.Staging.Executor.Lock.{
  flock, held_until, acquire, wait_for_lock, is_lock, lock_it, open_lock,
}
use hermes_ops.Staging.Executor.{
  Outside, LockFile, Command, inspect_health, start_it, stop_it, check_effective, Machine, Stop,
  raised, killed, Act, give, fail, catch_with, catch, remaining, issue, command, sleep,
  health_status, poll, wait_healthy, effective, start_again, stop, sleep_bounded,
}

-- The files of the store, gateway.json and the transaction are the same before and after.
abbrev pub SameFiles : Machine → Machine → Type 0
SameFiles s t = (t.store ≡ s.store) × (t.current ≡ s.current) × (t.tx ≡ s.tx)

pub SameFiles-order : IsPreorder SameFiles
SameFiles-order = record {
  same = λ s. (refl, refl, refl);
  compose = λ s t u f g. (g.0 ∙ f.0, g.1 ∙ f.1, g.2 ∙ f.2);
}

module _ {R : Machine → Machine → Type 0} (p : IsPreorder R) where
  pub Keeps-give : {A : Type 0} (r : Result Failure A) → Keeps R (give r)
  unfolding give
  Keeps-give (ok a) = record { at = λ s. p.same s }
  Keeps-give (err e) = record { at = λ s. p.same s }

  pub Keeps-fail : {A : Type 0} (e : Failure) → Keeps R (fail {A = A} e)
  unfolding fail
  Keeps-fail e = record { at = λ s. p.same s }

  -- A test of the state itself.
  pub Keeps-test :
      {A : Type 0} (b : Bool) (m n : Act A) (s : Machine)
      → Keeps R m
      → Keeps R n
      → R s ((if b then m s else n s).1)
  Keeps-test true m n s km kn = km.at s
  Keeps-test false m n s km kn = kn.at s

  caught-keeps :
      {A : Type 0} (handler : Failure → Act A) (r : Result Stop A) (s u : Machine)
      → ((e : Failure) → Keeps R (handler e))
      → R s u
      → R s (catch_with handler (r, u)).1
  unfolding catch_with
  caught-keeps handler (ok a) s u k h = h
  caught-keeps handler (err (raised e)) s u k h = p.compose s u _ h ((k e).at u)
  caught-keeps handler (err killed) s u k h = h

  pub Keeps-catch :
      {A : Type 0} (body : Act A) (handler : Failure → Act A)
      → Keeps R body
      → ((e : Failure) → Keeps R (handler e))
      → Keeps R (catch body handler)
  unfolding catch
  Keeps-catch body handler kb kh = record {
    at = λ s. caught-keeps handler (body s).0 s (body s).1 kh (kb.at s);
  }

given-same :
    {A : Type 0} (r : Result Failure A) (s t : Machine) → SameFiles s t → SameFiles s (give r t).1
unfolding give
given-same (ok a) s t h = h
given-same (err e) s t h = h

module _ (o : Outside) where
  issue-SameFiles : (c : Command) (timeout : Result Failure ℕ) → Keeps SameFiles (issue o c timeout)
  unfolding issue give fail
  issue-SameFiles c (err e) = record { at = λ s. (refl, refl, refl) }
  issue-SameFiles c (ok timeout) = record {
    at = λ s. given-same (o.runner s.events c timeout) s _ (refl, refl, refl);
  }

  pub command-SameFiles : (c : Command) (cap : ℕ) → Keeps SameFiles (command o c cap)
  unfolding command
  command-SameFiles c cap = record {
    at = λ s. (issue-SameFiles c (remaining o s.deadline s.now cap)).at s;
  }

  pub sleep-SameFiles : (ms : ℕ) → Keeps SameFiles (sleep o ms)
  unfolding sleep
  sleep-SameFiles ms = record { at = λ s. (refl, refl, refl) }

  pub health_status-SameFiles : Keeps SameFiles (health_status o)
  unfolding health_status
  health_status-SameFiles =
      Keeps-bind SameFiles-order _ _ (command-SameFiles inspect_health 15)
        λ output. Keeps-pure SameFiles-order _

  round-SameFiles :
      (n until : ℕ)
      → Keeps SameFiles (poll o n until)
      → Keeps SameFiles (
          health_status o >>= λ status.
          if status == "healthy" then pure tt else (sleep o 3000 >>= λ _. poll o n until))
  round-SameFiles n until k = Keeps-bind SameFiles-order _ _ health_status-SameFiles λ status.
      Keeps-if SameFiles-order (status == "healthy") _ _ (Keeps-pure SameFiles-order tt)
        (Keeps-bind SameFiles-order _ _ (sleep-SameFiles 3000) λ _. k)

  poll-SameFiles : (n until : ℕ) → Keeps SameFiles (poll o n until)
  unfolding poll fail
  poll-SameFiles zero until = record { at = λ s. (refl, refl, refl) }
  poll-SameFiles (suc n) until = record {
    at = λ s.
        Keeps-test SameFiles-order (ltb s.now until) _ (fail command_error) s
          (round-SameFiles n until (poll-SameFiles n until))
          (Keeps-fail SameFiles-order command_error);
  }

  pub wait_healthy-SameFiles : Keeps SameFiles (wait_healthy o)
  unfolding wait_healthy
  wait_healthy-SameFiles = record { at = λ s. (poll-SameFiles 41 _).at s }

  pub effective-SameFiles : (enabled : Bool) → Keeps SameFiles (effective o enabled)
  unfolding effective
  effective-SameFiles enabled =
      Keeps-bind SameFiles-order _ _ (command-SameFiles (check_effective enabled) 60) λ output.
        Keeps-if SameFiles-order _ _ _ (Keeps-pure SameFiles-order tt)
          (Keeps-fail SameFiles-order command_error)

  pub start_again-SameFiles : Keeps SameFiles (start_again o)
  unfolding start_again
  start_again-SameFiles =
      Keeps-bind SameFiles-order _ _ (command-SameFiles start_it 120) λ _. wait_healthy-SameFiles

  pub stop-SameFiles : Keeps SameFiles (stop o)
  unfolding stop
  stop-SameFiles =
      Keeps-bind SameFiles-order _ _ (command-SameFiles stop_it 120)
        λ _. Keeps-pure SameFiles-order tt

  pub sleep_bounded-SameFiles : (seconds : ℕ) → Keeps SameFiles (sleep_bounded o seconds)
  unfolding sleep_bounded
  sleep_bounded-SameFiles seconds = record {
    at = λ s.
        Keeps-test SameFiles-order (leb s.deadline (s.now + seconds * 1000)) (fail command_error)
          (sleep o (seconds * 1000)) s (Keeps-fail SameFiles-order command_error)
          (sleep-SameFiles (seconds * 1000));
  }

  held-SameFiles :
      (until : ℕ) (again : Act (Unit {0}))
      → Keeps SameFiles again
      → Keeps SameFiles (held_until o until again)
  unfolding held_until
  held-SameFiles until again k = record {
    at = λ s.
        Keeps-test SameFiles-order (leb until s.now) (fail diagnostic_error)
          (sleep o 50 >>= λ _. again) s (Keeps-fail SameFiles-order diagnostic_error)
          (Keeps-bind SameFiles-order _ _ (sleep-SameFiles 50) λ _. k);
  }

  flock-SameFiles : Keeps SameFiles (flock o)
  unfolding flock
  flock-SameFiles = record { at = λ s. (refl, refl, refl) }

  acquire-SameFiles : (n until : ℕ) → Keeps SameFiles (acquire o n until)
  unfolding acquire
  acquire-SameFiles zero until = Keeps-fail SameFiles-order diagnostic_error
  acquire-SameFiles (suc n) until = Keeps-bind SameFiles-order _ _ flock-SameFiles λ held.
      Keeps-if SameFiles-order held _ _
        (held-SameFiles until (acquire o n until) (acquire-SameFiles n until))
        (Keeps-pure SameFiles-order tt)

  wait_for_lock-SameFiles : Keeps SameFiles (wait_for_lock o)
  unfolding wait_for_lock
  wait_for_lock-SameFiles = record { at = λ s. (acquire-SameFiles 1201 _).at s }

  lock_it-SameFiles : (f : Option LockFile) → Keeps SameFiles (lock_it o f)
  unfolding lock_it
  lock_it-SameFiles none = Keeps-fail SameFiles-order diagnostic_error
  lock_it-SameFiles (some f) =
      Keeps-if SameFiles-order (not (is_lock o f)) _ _ (Keeps-fail SameFiles-order diagnostic_error)
        (Keeps-bind SameFiles-order _ _ wait_for_lock-SameFiles λ _.
          Keeps-if SameFiles-order o.lock_kept _ _ (Keeps-pure SameFiles-order tt)
            (Keeps-fail SameFiles-order diagnostic_error))

  -- Taking the lock changes no file.
  pub open_lock-SameFiles : Keeps SameFiles (open_lock o)
  unfolding open_lock
  open_lock-SameFiles = lock_it-SameFiles o.lock_file
