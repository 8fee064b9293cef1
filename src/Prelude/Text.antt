-- ===== src/Prelude/Text.antt =====
-- What the scripts use of Python's `str`, and of its regular expressions: classes of characters
-- and repetitions between two bounds.
use Prim.Native.Nat.{ℕ, suc}
use Prim.Native.Char.{Char, code}
use Prim.Native.String.{String, ◌++◌}
use mathlib.Core.List.{List, [], ◌∷◌}
use mathlib.Core.Bool.{Bool, true, false, ◌&&◌, ◌||◌}
use mathlib.Core.Option.{Option, none, some}
use hermes_ops.Prelude.Tests.{leb, nat_eq, if◌then◌else◌}

-- `len(s)`, in characters.
unfoldable pub size : String → ℕ
size String.[] = 0
size (String.◌∷◌ c s) = suc (size s)

-- Every character lies in the class.
unfoldable pub every : (ℕ → Bool) → String → Bool
every p String.[] = true
every p (String.◌∷◌ c s) = p (code c) && every p s

-- A character lies in the class.
unfoldable pub contains : (ℕ → Bool) → String → Bool
contains p String.[] = false
contains p (String.◌∷◌ c s) = p (code c) || contains p s

-- `s.removeprefix(p)` where `s.startswith(p)`.
unfoldable pub strip_prefix : String → String → Option String
strip_prefix String.[] s = some s
strip_prefix (String.◌∷◌ c p) String.[] = none
strip_prefix (String.◌∷◌ c p) (String.◌∷◌ d s) =
    let rest = strip_prefix p s in if nat_eq (code c) (code d) then rest else none

-- The full match of `[class]{lo,hi}`.
unfoldable pub repeats : (ℕ → Bool) → ℕ → ℕ → String → Bool
unfolding size every
repeats p lo hi s = every p s && leb lo (size s) && leb (size s) hi

-- The full match of `[first][rest]{lo,hi}`.
unfoldable pub head_then : (ℕ → Bool) → (ℕ → Bool) → ℕ → ℕ → String → Bool
unfolding repeats
head_then first rest lo hi String.[] = false
head_then first rest lo hi (String.◌∷◌ c s) = first (code c) && repeats rest lo hi s

abbrev pub digit : ℕ → Bool
digit c = leb 48 c && leb c 57

abbrev pub nonzero_digit : ℕ → Bool
nonzero_digit c = leb 49 c && leb c 57

abbrev pub lower : ℕ → Bool
lower c = leb 97 c && leb c 122

abbrev pub upper : ℕ → Bool
upper c = leb 65 c && leb c 90

abbrev pub alnum : ℕ → Bool
alnum c = upper c || lower c || digit c

abbrev pub hex : ℕ → Bool
hex c = digit c || (leb 97 c && leb c 102)

-- `sep.join(words)`, with a separator of one character.
unfoldable pub join : Char → List String → String
join sep [] = ""
join sep (w ∷ []) = w
join sep (w ∷ v ∷ ws) = w ++ String.◌∷◌ sep (join sep (v ∷ ws))

-- One more character in front of the first word.
abbrev pub onto_first : Char → List String → List String
onto_first c [] = String.◌∷◌ c "" ∷ []
onto_first c (w ∷ ws) = String.◌∷◌ c w ∷ ws

-- `s.split(sep)`, with a separator of one character.
unfoldable pub split : Char → String → List String
split sep String.[] = "" ∷ []
split sep (String.◌∷◌ c s) =
    let rest = split sep s in if nat_eq (code c) (code sep) then "" ∷ rest else onto_first c rest

-- Where `str.splitlines` ends a line.
abbrev pub line_break : ℕ → Bool
line_break c =
    (leb 10 c && leb c 13)
    || (leb 28 c && leb c 30)
    || nat_eq c 133
    || nat_eq c 8232
    || nat_eq c 8233

-- `s.splitlines()`: a carriage return and the line feed behind it are one line break.
unfoldable pub lines : String → List String
lines String.[] = []
lines (String.◌∷◌ c String.[]) = if line_break (code c) then "" ∷ [] else String.◌∷◌ c "" ∷ []
lines (String.◌∷◌ c (String.◌∷◌ d s)) =
    let rest = lines (String.◌∷◌ d s) in
    let skipped = lines s in
    if nat_eq (code c) 13 && nat_eq (code d) 10
    then "" ∷ skipped
    else if line_break (code c)
    then "" ∷ rest
    else onto_first c rest

abbrev pub push_first : Char → Option (String × String) → Option (String × String)
push_first c none = none
push_first c (some (k, v)) = some (String.◌∷◌ c k, v)

-- `s.split(sep, 1)` where `sep in s`.
unfoldable pub split_once : Char → String → Option (String × String)
split_once sep String.[] = none
split_once sep (String.◌∷◌ c s) =
    let rest = split_once sep s in
    if nat_eq (code c) (code sep) then some ("", s) else push_first c rest

-- `str.isspace` for one character.
abbrev pub white : ℕ → Bool
white c =
    (leb 9 c && leb c 13)
    || (leb 28 c && leb c 32)
    || nat_eq c 133
    || nat_eq c 160
    || nat_eq c 5760
    || (leb 8192 c && leb c 8202)
    || nat_eq c 8232
    || nat_eq c 8233
    || nat_eq c 8239
    || nat_eq c 8287
    || nat_eq c 12288

unfoldable pub lstrip : String → String
lstrip String.[] = ""
lstrip (String.◌∷◌ c s) = let rest = lstrip s in if white (code c) then rest else String.◌∷◌ c s

-- One more character in front of a text that is stripped on the right.
abbrev pub before : Char → String → String
before c String.[] = if white (code c) then "" else String.◌∷◌ c ""
before c (String.◌∷◌ d s) = String.◌∷◌ c (String.◌∷◌ d s)

unfoldable pub rstrip : String → String
rstrip String.[] = ""
rstrip (String.◌∷◌ c s) = before c (rstrip s)

-- `s.strip()`
unfoldable pub strip : String → String
unfolding lstrip rstrip
strip s = rstrip (lstrip s)
