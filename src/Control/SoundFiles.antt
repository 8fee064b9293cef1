-- ===== src/Control/SoundFiles.antt =====
-- scripts/deploy/hermes_deployment_controller.py: well-formed lease files, and the single steps that
-- keep them so.
use hermes_ops.Prelude.{
  ℕ, String, ◌≡◌, subst, inl, inr, Bool-cases, Bool, Option, none, some, List, eq_iff, update, ◌==◌,
  if◌then◌else◌,
}
use hermes_ops.Result.{Result, ok, err}
use hermes_ops.Exec.{pure, raise, lift, ◌>>=◌}
use hermes_ops.Exec.Keeps.{
  IsPreorder, Keeps, Keeps-pure, Keeps-raise, Keeps-lift, Keeps-if, Keeps-option, Keeps-bind,
}
use hermes_ops.Json.{Fields, str}
use hermes_ops.Control.State.{Failure, File, Plane, Host, Action, now, audit, fresh_id, start}
use hermes_ops.Control.Leases.{Lease, check_file, parse_utc, read_lease, unlink, write_lease}
use hermes_ops.Control.LeaseFile.{check_file-lease_fields, read_lease-same}

-- A lease that is read has a time of expiry, and nothing else is on disk.
abbrev pub IsGood : Host → Result Failure (Option Lease) → Type 0
IsGood h (ok none) = Unit {0}
IsGood h (ok (some l)) = (t : ℕ) × (parse_utc h l.expires_at ≡ ok t)
IsGood h (err e) = ⊥

abbrev pub IsSound : Host → Plane → Type 0
IsSound h s = (env : String) → IsGood h (check_file env (s.lease_at env))

-- The deployment command leaves sound lease files, if it finds such.
abbrev pub RunnerSound : Host → Type 0
RunnerSound h =
    (argv : List String) (timeout : ℕ) (s : Plane)
    → IsSound h s
    → IsSound h (h.runner argv timeout s).1

module _ (h : Host) where
  abbrev pub Stays : Plane → Plane → Type 0
  Stays s t = IsSound h s → IsSound h t

  Stays-order : IsPreorder Stays
  Stays-order = record { same = λ s good. good; compose = λ s t u f g good. g (f good) }

  IsSound-update :
      (s : Plane) (env : String) (file : Option File)
      → IsGood h (check_file env file)
      → IsSound h s
      → IsSound h (record s { lease_at = update s.lease_at env file })
  IsSound-update s env file good sound e = elim (Bool-cases (env == e)) [
    | inl same ↦ rw same (subst (λ k. IsGood h (check_file k file)) ((eq_iff env e).0 same) good)
    | inr other ↦ rw other (sound e)
  ]

  pub unlink-Stays : (env : String) → Keeps Stays (unlink env)
  unfolding unlink
  unlink-Stays env = record { at = λ s. IsSound-update s env none (unfold check_file in tt) }

  pub write_lease-Stays :
      (env : String) (l : Lease) (t : ℕ)
      → l.environment ≡ str env
      → parse_utc h l.expires_at ≡ ok t
      → Keeps Stays (write_lease env l)
  unfolding write_lease
  write_lease-Stays env l t named parsed = record {
    at = λ s. IsSound-update s env _ (rw (check_file-lease_fields env l named) (t, parsed));
  }

  pub read_lease-Stays : (env : String) → Keeps Stays (read_lease env)
  read_lease-Stays env = record { at = λ s good. rw (read_lease-same env s) good }

  pub now-Stays : Keeps Stays (now h)
  unfolding now
  now-Stays = record { at = λ s good. good }

  pub fresh_id-Stays : Keeps Stays (fresh_id h)
  unfolding fresh_id
  fresh_id-Stays = record { at = λ s good. good }

  pub audit-Stays : (name : String) (fields : Fields) → Keeps Stays (audit h name fields)
  unfolding audit
  audit-Stays name fields = record { at = λ s good. good }

  pub start-Stays :
      RunnerSound h → (argv : List String) (timeout : ℕ) → Keeps Stays (start h argv timeout)
  unfolding start
  start-Stays sound argv timeout = record { at = λ s good. sound argv timeout _ good }

  pub Stays-pure : {A : Type 0} (a : A) → Keeps Stays (pure {E = Failure} a)
  Stays-pure = Keeps-pure Stays-order

  pub Stays-raise : {A : Type 0} (e : Failure) → Keeps Stays (raise {A = A} e)
  Stays-raise = Keeps-raise Stays-order

  pub Stays-lift : {A : Type 0} (r : Result Failure A) → Keeps Stays (lift r)
  Stays-lift = Keeps-lift Stays-order

  pub Stays-if :
      {A : Type 0} (b : Bool) (m n : Action A)
      → Keeps Stays m
      → Keeps Stays n
      → Keeps Stays (if b then m else n)
  Stays-if = Keeps-if Stays-order

  pub Stays-bind :
      {A B : Type 0} (m : Action A) (f : A → Action B)
      → Keeps Stays m
      → ((a : A) → Keeps Stays (f a))
      → Keeps Stays (m >>= f)
  Stays-bind = Keeps-bind Stays-order

  pub Stays-option :
      {A B : Type 0} (o : Option A) (m : Action B) (f : A → Action B)
      → Keeps Stays m
      → ((a : A) → Keeps Stays (f a))
      → Keeps Stays (elim o [ none ↦ m | some a ↦ f a ])
  Stays-option = Keeps-option Stays-order

pub ruleset stays_rules = (
  Stays-pure, Stays-raise, Stays-lift, Stays-bind, Stays-option, Stays-if, now-Stays,
  fresh_id-Stays, audit-Stays, unlink-Stays, read_lease-Stays,
)
