-- ===== src/Queue/Literals.antt =====
-- plugins/honcho-ops/honcho_ops/queue_diagnostic.py: a value that `_escape_sql` prepares cannot leave
-- its literal in a query.
use Prim.Native.Char.{Char, code}
use Prim.Native.String.append
use Prim.Native.String.{◌++◌}
use hermes_ops.Prelude.{
  ◌≡◌, refl, sym, ap, ◌∙◌, inl, inr, String, Bool, true, false, Option, none, some, nat_eq,
  Bool-cases, if◌then◌else◌,
}
use hermes_ops.Queue.Names.{double_quotes, escape_sql}

abbrev is_quote : Char → Bool
is_quote c = nat_eq (code c) 39

abbrev push : Char → Option (String × String) → Option (String × String)
push c none = none
push c (some (v, rest)) = some (String.◌∷◌ c v, rest)

-- How SQL reads a literal from behind its opening quote: two quotes stand for one, and a single one
-- ends it. The value, and what follows.
pub read_literal : String → Option (String × String)
read_literal String.[] = none
read_literal (String.◌∷◌ c String.[]) = if is_quote c then some ("", "") else none
read_literal (String.◌∷◌ c (String.◌∷◌ d s)) =
    let later = read_literal s in
    let rest = read_literal (String.◌∷◌ d s) in
    if is_quote c
    then (if is_quote d then push d later else some ("", String.◌∷◌ d s))
    else push c rest

-- The text does not go on with a quote.
unfoldable pub IsOver : String → Type 0
IsOver String.[] = Unit
IsOver (String.◌∷◌ c s) = is_quote c ≡ false

closed :
    (q : Char) (rest : String)
    → is_quote q ≡ true
    → IsOver rest
    → read_literal (String.◌∷◌ q rest) ≡ some ("", rest)
unfolding read_literal IsOver
closed q String.[] e over = rw e refl
closed q (String.◌∷◌ c s) e over = rw (e, over) refl

-- A character that is no quote, before a text that is not empty.
plain :
    (c : Char) (s : String) (out : Option (String × String))
    → is_quote c ≡ false
    → read_literal s ≡ out
    → read_literal (String.◌∷◌ c s) ≡ push c out
unfolding read_literal
plain c String.[] out e h = rw (e, sym h) refl
plain c (String.◌∷◌ d s) out e h = rw e (ap (push c) h)

double :
    (c : Char) (s : String) (out : Option (String × String))
    → is_quote c ≡ true
    → read_literal s ≡ out
    → read_literal (String.◌∷◌ c (String.◌∷◌ c s)) ≡ push c out
unfolding read_literal
double c s out e h = rw e (ap (push c) h)

nil_append : (t : String) → ("" ++ t) ≡ t
nil_append t = λ i. append.nil t i

cons_append : (c : Char) (s t : String) → (String.◌∷◌ c s ++ t) ≡ String.◌∷◌ c (s ++ t)
cons_append c s t = λ i. append.cons c s t i

module _ (rest : String) (over : IsOver rest) where
  literal-double_quotes :
      (v : String) → read_literal (double_quotes v ++ ("'" ++ rest)) ≡ some (v, rest)
  unfolding double_quotes
  literal-double_quotes String.[] =
      ap read_literal
        (nil_append ("'" ++ rest) ∙ cons_append "'" "" rest ∙ ap (String.◌∷◌ "'") (nil_append rest))
      ∙ closed "'" rest refl over
  literal-double_quotes (String.◌∷◌ c v) = elim (Bool-cases (is_quote c)) [
    | inl quote ↦ rw quote (
        ap read_literal (
          cons_append c (String.◌∷◌ c (double_quotes v)) ("'" ++ rest)
          ∙ ap (String.◌∷◌ c) (cons_append c (double_quotes v) ("'" ++ rest)))
        ∙ double c _ _ quote (literal-double_quotes v))
    | inr other ↦ rw other (
        ap read_literal (cons_append c (double_quotes v) ("'" ++ rest))
        ∙ plain c _ _ other (literal-double_quotes v))
  ]

  -- A value that is escaped and put between quotes is read by SQL as that value, and the literal ends
  -- where its closing quote stands, whatever the value is; no quote follows directly.
  pub read_literal-escape_sql :
      (v : String) → read_literal (escape_sql (some v) ++ ("'" ++ rest)) ≡ some (v, rest)
  unfolding escape_sql
  read_literal-escape_sql v = literal-double_quotes v
