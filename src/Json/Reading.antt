-- ===== src/Json/Reading.antt =====
-- The values of `json.loads`, where a test on one of them holds.
use hermes_ops.Prelude.{String, ◌≡◌, ap, true, Option, none, some, eq_iff}
use hermes_ops.Json.{
  Json, null, bool, int, float, str, arr, obj, Items, nil, cons, Fields, get, get_or, is_str,
}

-- A value that equals a text is that text.
pub is_str-eq : (s : String) (v : Json) → is_str s v ≡ true → v ≡ str s
is_str-eq s (str t) e = ap str ((eq_iff t s).0 e)
is_str-eq s null e = cc
is_str-eq s (bool b) e = cc
is_str-eq s (int i) e = cc
is_str-eq s (float i) e = cc
is_str-eq s (arr l) e = cc
is_str-eq s (obj d) e = cc

-- A key whose value equals a text is there.
pub get_or-text :
    (key text : String) (d : Fields) → get_or key null d ≡ str text → get key d ≡ some (str text)
get_or-text key text d e = found (get key d) e
  where
    found :
        (o : Option Json) → (elim o [ none ↦ null | some v ↦ v ]) ≡ str text → o ≡ some (str text)
    found none e = cc
    found (some v) e = ap some e

-- A key whose value is a list that is not empty is there.
pub get_or-list :
    (key : String) (first : Json) (rest : Items) (d : Fields)
    → get_or key (arr nil) d ≡ arr (cons first rest)
    → get key d ≡ some (arr (cons first rest))
get_or-list key first rest d e = found (get key d) e
  where
    found :
        (o : Option Json)
        → (elim o [ none ↦ arr nil | some v ↦ v ]) ≡ arr (cons first rest)
        → o ≡ some (arr (cons first rest))
    found none e = cc
    found (some v) e = ap some e
