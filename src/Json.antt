-- ===== src/Json.antt =====
-- The values that `json.loads` returns. A float keeps the integer that it is equal to, if there is
-- one: no test of the scripts asks for more of it.
pub mod Reading
use hermes_ops.Prelude.{
  String, Bool, true, false, ◌&&◌, Option, none, some, List, [], ◌∷◌, ◌==◌, all, if◌then◌else◌,
  elem,
}
use hermes_ops.Prelude.Int.{ℤ, eq_ℤ, pos}

mutual
  pub data Json : Type 0 where
    null : Json
    bool : Bool → Json
    int : ℤ → Json
    float : Option ℤ → Json
    str : String → Json
    arr : Items → Json
    obj : Fields → Json

  pub data Items : Type 0 where
    nil : Items
    cons : Json → Items → Items

  pub data Fields : Type 0 where
    end : Fields
    field : String → Json → Fields → Fields

-- `value.get(key)`, and `value[key]` where the key is there.
unfoldable pub get : String → Fields → Option Json
get k end = none
get k (field j v fs) = if j == k then some v else get k fs

abbrev pub get_or : String → Json → Fields → Json
get_or k d fs = elim (get k fs) [ none ↦ d | some v ↦ v ]

unfoldable pub keys : Fields → List String
keys end = []
keys (field j v fs) = j ∷ keys fs

-- `set(value) == names`
unfoldable pub same_keys : List String → Fields → Bool
unfolding keys
same_keys names fs = all (λ n. elem n (keys fs)) names && all (λ k. elem k names) (keys fs)

abbrev pub entries : Items → List Json
entries nil = []
entries (cons v vs) = v ∷ entries vs

abbrev pub items : List Json → Items
items [] = nil
items (v ∷ vs) = cons v (items vs)

-- `value == text`
abbrev pub is_str : String → Json → Bool
is_str s (str t) = t == s
is_str s _ = false

-- `value == number`: in Python `True == 1`, `False == 0`, and `1.0 == 1`.
abbrev pub is_int : ℤ → Json → Bool
is_int n (int k) = eq_ℤ k n
is_int n (float (some k)) = eq_ℤ k n
is_int n (bool true) = eq_ℤ (pos 1) n
is_int n (bool false) = eq_ℤ (pos 0) n
is_int n _ = false

-- A dictionary display, and `{**first, **second}` where no key is in both.
abbrev pub dict : List (String × Json) → Fields
dict [] = end
dict ((k, v) ∷ rest) = field k v (dict rest)
