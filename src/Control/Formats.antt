-- ===== src/Control/Formats.antt =====
-- scripts/deploy/hermes_deployment_controller.py: the formats of what the operators pass in.
use hermes_ops.Prelude.{
  ℕ, String, ◌≡◌, refl, Bool, true, false, ◌&&◌, ◌||◌, none, some, nat_eq, repeats, head_then,
  strip_prefix, digit, nonzero_digit, alnum, hex, elem, [], ◌∷◌,
}

abbrev pub image_repository : String
image_repository = "ghcr.io/batumilove/hermes-agent-deploy"

unfoldable pub sha_re : String → Bool
unfolding repeats
sha_re = repeats hex 40 40

unfoldable pub hex64 : String → Bool
unfolding repeats
hex64 = repeats hex 64 64

unfoldable pub digest_re : String → Bool
unfolding hex64 strip_prefix
digest_re s = elim (strip_prefix "sha256:" s) [ none ↦ false | some rest ↦ hex64 rest ]

unfoldable pub env_re : String → Bool
env_re s = elem s ("batumi-staging" ∷ "batumi-production" ∷ [])

abbrev pub identity_char : ℕ → Bool
identity_char c =
    alnum c
    || nat_eq c b'_'
    || nat_eq c b'.'
    || nat_eq c b':'
    || nat_eq c b'/'
    || nat_eq c b'@'
    || nat_eq c b'-'

unfoldable pub identity_re : String → Bool
unfolding head_then
identity_re = head_then alnum identity_char 1 159

unfoldable pub run_id_re : String → Bool
unfolding head_then
run_id_re = head_then nonzero_digit digit 0 19

unfoldable pub attempt_re : String → Bool
unfolding head_then
attempt_re = head_then nonzero_digit digit 0 5

abbrev pub lease_id_char : ℕ → Bool
lease_id_char c = alnum c || nat_eq c b'_' || nat_eq c b'.' || nat_eq c b':' || nat_eq c b'-'

unfoldable pub lease_id_re : String → Bool
unfolding head_then
lease_id_re = head_then alnum lease_id_char 15 127

abbrev pub reason_char : ℕ → Bool
reason_char c = identity_char c || nat_eq c b' '

unfoldable pub reason_re : String → Bool
unfolding head_then
reason_re = head_then alnum reason_char 5 159

test_formats :
    (sha_re "0123456789abcdef0123456789abcdef01234567"
      && run_id_re "17"
      && identity_re "ci:batumi"
      && env_re "batumi-staging")
    ≡ true
unfolding sha_re run_id_re identity_re env_re
test_formats = refl

test_rejects :
    (run_id_re "017" || identity_re "-rf" || env_re "batumi-test" || digest_re "sha256:00") ≡ false
unfolding run_id_re identity_re env_re digest_re
test_rejects = refl
