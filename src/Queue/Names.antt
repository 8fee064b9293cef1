-- ===== src/Queue/Names.antt =====
-- plugins/honcho-ops/honcho_ops/queue_diagnostic.py: which hosts and containers may be named, and how a
-- value stands in a query.
use Prim.Native.Char.{code}
use hermes_ops.Prelude.{
  ℕ, String, Bool, false, not, ◌&&◌, ◌||◌, Option, none, some, ◌==◌, nat_eq, all, length, every,
  contains, split, split_once, repeats, alnum, if◌then◌else◌,
}
use hermes_ops.Result.{Result, ok, err}
use hermes_ops.Queue.{Trouble, honcho_error}

-- `[A-Za-z0-9_.-]`
abbrev pub name_char : ℕ → Bool
name_char c = alnum c || nat_eq c 95 || nat_eq c 46 || nat_eq c 45

-- The full match of `[first][rest]*`.
unfoldable pub starts_then : (ℕ → Bool) → (ℕ → Bool) → String → Bool
unfolding every
starts_then first rest String.[] = false
starts_then first rest (String.◌∷◌ c s) = first (code c) && every rest s

-- `_CONTAINER_NAME_RE`
unfoldable pub is_container : String → Bool
unfolding starts_then
is_container = starts_then alnum name_char

-- `_validate_container_name`
unfoldable pub validate_container_name : String → Result Trouble String
unfolding is_container
validate_container_name name = if is_container name then ok name else err honcho_error

-- The classes `\w` and `\d` of Python's `re`, which have more than ASCII.
module _ (word decimal : ℕ → Bool) where
  -- `\d{1,3}(\.\d{1,3}){3}`
  unfoldable pub is_address : String → Bool
  unfolding split repeats
  is_address s = nat_eq (length (split "." s)) 4 && all (repeats decimal 1 3) (split "." s)

  unfoldable pub is_host : String → Bool
  unfolding starts_then is_address
  is_host s = starts_then alnum name_char s || is_address s

  -- `[A-Za-z0-9_][\w.-]*`
  unfoldable pub is_user : String → Bool
  unfolding starts_then
  is_user = starts_then (λ c. alnum c || nat_eq c 95) (λ c. word c || nat_eq c 46 || nat_eq c 45)

  -- `_SSH_HOST_RE`: no class has `@`.
  unfoldable pub is_destination : String → Bool
  unfolding split_once is_host is_user
  is_destination s = elim (split_once "@" s) [
    | none ↦ is_host s
    | some (user, host) ↦ is_user user && is_host host
  ]

  -- A bar, a line feed or a null character.
  abbrev pub forbidden : ℕ → Bool
  forbidden c = nat_eq c 124 || nat_eq c 10 || nat_eq c 0

  -- `_validate_ssh_host`
  unfoldable pub validate_ssh_host : String → Result Trouble String
  unfolding contains is_destination
  validate_ssh_host host =
      if host == "" || contains forbidden host
      then err honcho_error
      else if not (is_destination host)
      then err honcho_error
      else ok host

-- `value.replace("'", "''")`
unfoldable pub double_quotes : String → String
double_quotes String.[] = ""
double_quotes (String.◌∷◌ c s) =
    let rest = double_quotes s in
    if nat_eq (code c) 39 then String.◌∷◌ c (String.◌∷◌ c rest) else String.◌∷◌ c rest

-- `_escape_sql`
unfoldable pub escape_sql : Option String → String
unfolding double_quotes
escape_sql none = ""
escape_sql (some value) = double_quotes value
