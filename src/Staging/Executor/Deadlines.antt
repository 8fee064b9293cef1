-- ===== src/Staging/Executor/Deadlines.antt =====
-- scripts/staging/hermes_staging_socket_diagnostic.py: the time that `DiagnosticExecutor` gives its
-- commands, and how long it waits for a healthy gateway.
use hermes_ops.Prelude.{
  ℕ, zero, suc, ◌+◌, ◌*◌, ◌≤◌, ◌≡◌, refl, sym, inl, inr, Bool, true, false, ◌==◌, ltb, leb, arith,
  String, strip, Bool-cases, if◌then◌else◌,
}
use hermes_ops.Result.{Result, ok, err}
use hermes_ops.Exec.{resume, pure, ◌>>=◌}
use hermes_ops.Staging.Request.{Failure}
use hermes_ops.Staging.Executor.{
  Outside, Machine, inspect_health, remaining, issue, command, sleep, health_status, poll,
  wait_healthy, give, fail, Stop, Act,
}

module _ (o : Outside) where
  -- A command that is issued has at least one second, no more than its cap, which is not zero,
  -- and ends by the deadline.
  pub remaining-bounds :
      (deadline now cap timeout : ℕ)
      → remaining o deadline now cap ≡ ok timeout
      → 1 ≤ cap
      → (1 ≤ timeout) × (timeout ≤ cap) × (now + timeout * 1000 ≤ deadline)
  unfolding remaining
  remaining-bounds deadline now cap timeout e positive = ground arith

  given-later :
      {A : Type 0} (r : Result Failure A) (m t : Machine) → m.now ≤ t.now → m.now ≤ (give r t).1.now
  unfolding give
  given-later (ok a) m t h = h
  given-later (err e) m t h = h

  issue-later :
      (timeout : Result Failure ℕ) (m : Machine) → m.now ≤ (issue o inspect_health timeout m).1.now
  unfolding issue fail
  issue-later (err e) m = omega arith
  issue-later (ok timeout) m =
      given-later (o.runner m.events inspect_health timeout) m _ (omega arith)

  pure-now :
      (r : Result Stop String) (t : Machine) → (resume (λ output. pure (strip output)) r t).1 ≡ t
  unfolding pure
  pure-now (ok a) t = refl
  pure-now (err e) t = refl

  health_status-later : (m : Machine) → m.now ≤ (health_status o m).1.now
  unfolding health_status command ◌>>=◌
  health_status-later m =
      rw (pure-now (command o inspect_health 15 m).0 (command o inspect_health 15 m).1)
        (issue-later (remaining o m.deadline m.now 15) m)

  resume-same :
      {A B : Type 0} (f g : A → Act B) (r : Result Stop A) (t : Machine)
      → ((a : A) → f a t ≡ g a t)
      → resume f r t ≡ resume g r t
  resume-same f g (ok a) t h = h a
  resume-same f g (err e) t h = refl

  bind-same :
      {A B : Type 0} (m : Act A) (f g : A → Act B) (s : Machine)
      → ((a : A) → f a (m s).1 ≡ g a (m s).1)
      → (m >>= f) s ≡ (m >>= g) s
  unfolding ◌>>=◌
  bind-same m f g s h = resume-same f g (m s).0 (m s).1 h

  if-same :
      (b : Bool) (x y z : Act (Unit {0})) (s : Machine)
      → y s ≡ z s
      → (if b then x else y) s ≡ (if b then x else z) s
  if-same true x y z s h = refl
  if-same false x y z s h = h

  one-round :
      (n until : ℕ) (m : Machine)
      → until ≤ m.now + 3000 * suc n
      → until ≤ (sleep o 3000 (health_status o m).1).1.now + 3000 * n
  unfolding sleep
  one-round n until m h = let later = health_status-later m in omega arith

  not-ltb : (a b : ℕ) → b ≤ a + 0 → ltb a b ≡ false
  not-ltb a b h = ground arith

  no-less : (n : ℕ) → suc n ≤ 0 → ⊥
  no-less n h = omega arith

  poll-fuel :
      (n k until : ℕ) (m : Machine)
      → n ≤ k
      → until ≤ m.now + 3000 * n
      → poll o (suc k) until m ≡ poll o (suc n) until m
  unfolding poll
  poll-fuel zero k until m le h = rw (not-ltb m.now until h) refl
  poll-fuel (suc n) zero until m le h = absurd (no-less n le)
  poll-fuel (suc n) (suc k) until m le h = elim (Bool-cases (ltb m.now until)) [
    | inr late ↦ rw late refl
    | inl early ↦ rw early (
        bind-same (health_status o) _ _ m λ status. if-same (status == "healthy") _ _ _ _ (
          bind-same (sleep o 3000) _ _ (health_status o m).1 λ u.
            poll-fuel n k until (sleep o 3000 (health_status o m).1).1 (omega arith)
              (one-round n until m h)))
  ]

  -- The 41 rounds of the wait for a healthy gateway are enough: with more of them it ends the same
  -- way, since each sleeps three seconds at least and it waits 120 at most.
  pub wait_healthy-poll :
      (rounds : ℕ) (m : Machine)
      → 40 ≤ rounds
      → wait_healthy o m
        ≡ poll o
            (suc rounds)
            (if leb m.deadline (m.now + 120000) then m.deadline else m.now + 120000)
            m
  unfolding wait_healthy
  wait_healthy-poll rounds m more = sym (poll-fuel 40 rounds _ m more (ground arith))
