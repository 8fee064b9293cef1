-- ===== src/Queue.antt =====
-- plugins/honcho-ops/honcho_ops/queue_diagnostic.py: `HonchoQueueDiagnostic`, which reads the queue of
-- Honcho through psql on another host. The command that reaches it is a parameter.
pub mod Names
pub mod Summary
pub mod Details
pub mod Totals
pub mod Literals
pub mod Hosts
mod Tests
use Prim.Native.Char.{Char, code}
use Prim.Native.String.{◌++◌}
use hermes_ops.Result.{Result, ok, err}
use hermes_ops.Prelude.{
  ℕ, ◌+◌, ◌*◌, ◌-◌, String, Bool, true, false, ◌&&◌, ◌||◌, Option, none, some, ◌==◌, nat_eq, leb,
  size, every, digit, upper, if◌then◌else◌,
}

-- What leaves a function: `HonchoDiagnosticError`, or an exception of Python's own.
pub data Trouble : Type 0 where
  honcho_error index_error value_error : Trouble

-- What `s.isdigit()` and `int(s)` say of a text: no digits, a number, or digits that `int` refuses, as
-- it does superscripts.
pub data Reading : Type 0 where
  no_digits refused : Reading
  number : ℕ → Reading

-- The digits of ASCII.
unfoldable pub is_digits : String → Bool
unfolding every
is_digits String.[] = false
is_digits (String.◌∷◌ c s) = every digit (String.◌∷◌ c s)

unfoldable pub int_from : ℕ → String → ℕ
int_from n String.[] = n
int_from n (String.◌∷◌ c s) = int_from (n * 10 + (code c - 48)) s

-- The reading of a text in ASCII.
unfoldable pub read_ascii : String → Reading
unfolding is_digits int_from
read_ascii s = if is_digits s then number (int_from 0 s) else no_digits

-- `int(s) if s.isdigit() else 0`
unfoldable pub int_or_zero : Reading → Result Trouble ℕ
int_or_zero no_digits = ok 0
int_or_zero (number n) = ok n
int_or_zero refused = err value_error

-- `int(s) if s.isdigit() else None`
unfoldable pub int_or_none : Reading → Result Trouble (Option ℕ)
int_or_none no_digits = ok none
int_or_none (number n) = ok (some n)
int_or_none refused = err value_error

-- `s or None`
abbrev pub text_or_none : String → Option String
text_or_none s = if s == "" then none else some s

-- `c.lower()` for ASCII, as its code.
abbrev pub lower_code : Char → ℕ
lower_code c = if upper (code c) then code c + 32 else code c

-- `s.lower() == t`
unfoldable pub lower_is : String → String → Bool
lower_is String.[] String.[] = true
lower_is String.[] (String.◌∷◌ d t) = false
lower_is (String.◌∷◌ c s) String.[] = false
lower_is (String.◌∷◌ c s) (String.◌∷◌ d t) = nat_eq (lower_code c) (code d) && lower_is s t

-- `s.lower() in ("t", "true", "1")`
unfoldable pub is_yes : String → Bool
unfolding lower_is
is_yes s = lower_is s "t" || lower_is s "true" || lower_is s "1"
