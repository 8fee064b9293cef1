-- ===== src/Control/Cli.antt =====
-- scripts/deploy/hermes_deployment_controller.py: `main`.
use hermes_ops.Prelude.{
  ℕ, String, ◌≡◌, ◌≢◌, refl, Bool, false, ◌||◌, ◌&&◌, Option, none, some, List, [], ◌∷◌, ◌==◌,
  nat_eq, length, arith, inl, inr, if◌then◌else◌,
}
use hermes_ops.Prelude.Int.{ℤ, pos}
use hermes_ops.Result.{Result, ok, err, Result-cases}
use hermes_ops.Exec.{pure, raise, lift, ◌>>=◌, ◌>>◌}
use hermes_ops.Json.{Json, null, obj}
use hermes_ops.Control.State.{
  Failure, validation, value_error, os_error, lock_unfinished, Plane, Host, Action,
}
use hermes_ops.Control.Metadata.{verify_production_metadata, assert_installed_root_entrypoint}
use hermes_ops.Control.Leases.{Lease, lease_fields}
use hermes_ops.Control.Ops.{apply, acquire_soak, release_soak, emergency_clear, status}

-- How the program ends: with an exit status and what it printed, or by an exception that `main` does
-- not catch.
pub data Ending : Type 0 where
  exits : ℤ → Option Json → Ending
  crashes : Failure → Ending

-- `except (ControlError, PermissionError, ValueError)`
unfoldable pub ending : Result Failure (ℤ × Option Json) → Ending
ending (ok (code, output)) = exits code output
ending (err os_error) = crashes os_error
ending (err lock_unfinished) = crashes lock_unfinished
ending (err e) = exits (pos 1) none

-- `int(text)`
unfoldable pub int_of : Host → String → Result Failure ℤ
int_of h text = elim (h.int_of text) [ none ↦ err value_error | some n ↦ ok n ]

abbrev lease_json : Option Lease → Json
lease_json none = null
lease_json (some l) = obj (lease_fields l)

-- The commands, by the number of their arguments.
unfoldable pub dispatch : Host → String → List String → Action (ℤ × Option Json)
dispatch h command (a0 ∷ []) =
    if command == "status"
    then (do found ← status h a0; pure (pos 0, some (lease_json found)))
    else raise (validation "invalid command or argument count")
dispatch h command (a0 ∷ a1 ∷ a2 ∷ []) =
    if command == "emergency-clear"
    then (do emergency_clear h a0 a1 a2 h.euid; pure (pos 0, none))
    else raise (validation "invalid command or argument count")
dispatch h command (a0 ∷ a1 ∷ a2 ∷ a3 ∷ []) =
    if command == "soak-release"
    then (do release_soak h a0 a1 a2 a3; pure (pos 0, none))
    else raise (validation "invalid command or argument count")
dispatch h command (a0 ∷ a1 ∷ a2 ∷ a3 ∷ a4 ∷ a5 ∷ a6 ∷ []) =
    if command == "soak-acquire"
    then (do
      ttl ← lift (int_of h a5)
      lease ← acquire_soak h (record {
        environment = a0;
        source_sha = a1;
        digest = a2;
        owner = a3;
        authorization = a4;
        ttl_seconds = ttl;
        lease_id = a6;
      })
      pure (pos 0, some (obj (lease_fields lease))))
    else raise (validation "invalid command or argument count")
dispatch h command (a0 ∷ a1 ∷ a2 ∷ a3 ∷ a4 ∷ a5 ∷ a6 ∷ a7 ∷ a8 ∷ []) =
    if command == "apply"
    then (do
      code ← apply h (record {
        environment = a0;
        operation = a1;
        image = a2;
        digest = a3;
        source_sha = a4;
        controller = a5;
        authorization = a6;
        run_id = a7;
        run_attempt = a8;
      })
      pure (code, none))
    else raise (validation "invalid command or argument count")
dispatch h command _ = raise (validation "invalid command or argument count")

-- `args.pop(0) if args else ""`
unfoldable pub run_command : Host → List String → Action (ℤ × Option Json)
run_command h [] = dispatch h "" []
run_command h (command ∷ args) = dispatch h command args

unfoldable pub run_main : Host → List String → Action (ℤ × Option Json)
run_main h args = do
  lift (assert_installed_root_entrypoint h)
  lift (verify_production_metadata h)
  run_command h args

-- `main`
unfoldable pub main : Host → List String → Plane → Ending × Plane
main h args s = let (r, t) = run_main h args s in (ending r, t)

assert-root : (h : Host) → assert_installed_root_entrypoint h ≡ ok tt → h.euid ≡ 0
unfolding assert_installed_root_entrypoint
assert-root h e = ground arith

-- Unless it runs as root, the controller changes nothing, whatever its arguments are.
pub main-not_root : (h : Host) (args : List String) (s : Plane) → h.euid ≢ 0 → (main h args s).1 ≡ s
unfolding main run_main ◌>>=◌
main-not_root h args s e = elim (Result-cases (assert_installed_root_entrypoint h)) [
  | inl (u, passed) ↦ absurd (e (assert-root h passed))
  | inr (x, refused) ↦ rw refused
]

abbrev pub is_known : String → ℕ → Bool
is_known command n =
    (command == "apply" && nat_eq n 9)
    || (command == "soak-acquire" && nat_eq n 7)
    || (command == "soak-release" && nat_eq n 4)
    || (command == "status" && nat_eq n 1)
    || (command == "emergency-clear" && nat_eq n 3)

dispatch-unknown :
    (h : Host) (command : String) (args : List String) (s : Plane)
    → is_known command (length args) ≡ false
    → dispatch h command args s ≡ (err (validation "invalid command or argument count"), s)
unfolding dispatch ◌>>=◌
dispatch-unknown h command [] s e = refl
dispatch-unknown h command (a ∷ []) s e = ground arith
dispatch-unknown h command (a ∷ b ∷ []) s e = ground arith
dispatch-unknown h command (a ∷ b ∷ c ∷ []) s e = ground arith
dispatch-unknown h command (a ∷ b ∷ c ∷ d ∷ []) s e = ground arith
dispatch-unknown h command (a ∷ b ∷ c ∷ d ∷ x ∷ []) s e = ground arith
dispatch-unknown h command (a ∷ b ∷ c ∷ d ∷ x ∷ f ∷ []) s e = ground arith
dispatch-unknown h command (a ∷ b ∷ c ∷ d ∷ x ∷ f ∷ g ∷ []) s e = ground arith
dispatch-unknown h command (a ∷ b ∷ c ∷ d ∷ x ∷ f ∷ g ∷ y ∷ []) s e = ground arith
dispatch-unknown h command (a ∷ b ∷ c ∷ d ∷ x ∷ f ∷ g ∷ y ∷ i ∷ []) s e = ground arith
dispatch-unknown h command (a ∷ b ∷ c ∷ d ∷ f ∷ g ∷ i ∷ j ∷ k ∷ l ∷ m) s e = refl

-- A command that is not one of the five, or that has another number of arguments, ends with status 1
-- and changes nothing, where the installation is sound.
pub main-unknown :
    (h : Host) (command : String) (args : List String) (s : Plane)
    → assert_installed_root_entrypoint h ≡ ok tt
    → verify_production_metadata h ≡ ok tt
    → is_known command (length args) ≡ false
    → main h (command ∷ args) s ≡ (exits (pos 1) none, s)
unfolding main run_main run_command ending ◌>>=◌
main-unknown h command args s root sound unknown =
    rw (root, sound, dispatch-unknown h command args s unknown)
