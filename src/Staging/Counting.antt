-- ===== src/Staging/Counting.antt =====
-- scripts/staging/hermes_staging_socket_diagnostic.py: how many transactions of the store are active.
use hermes_ops.Prelude.{
  ℕ, ◌+◌, ◌≤◌, ◌≡◌, refl, sym, ap, subst, ◌∙◌, inl, inr, String, Bool, true, false, not, ◌||◌,
  Option, none, some, List, [], ◌∷◌, ◌==◌, any, arith, eq_refl, Bool-cases, if◌then◌else◌,
}
use hermes_ops.Result.{Result, ok, err, ok-injective}
use hermes_ops.Staging.Request.{Failure}
use hermes_ops.Staging.Transactions.{
  is_terminal, Record, Entry, unsafe, bare, corrupt, holds, Store, Transaction, find, put, prepend,
  transactions, is_active,
}

-- 1 for an entry whose transaction is not over, and 0 for every other one.
abbrev pub weight : Entry → ℕ
weight (holds r) = if is_terminal r.state then 0 else 1
weight _ = 0

-- The number of active transactions.
unfoldable pub active : Store → ℕ
active [] = 0
active ((p, e) ∷ rest) = weight e + active rest

find-hit :
    (path p : String) (f : Entry) (rest : Store)
    → (p == path) ≡ true
    → find path ((p, f) ∷ rest) ≡ some f
unfolding find
find-hit path p f rest e = rw e refl

find-miss :
    (path p : String) (f : Entry) (rest : Store)
    → (p == path) ≡ false
    → find path ((p, f) ∷ rest) ≡ find path rest
unfolding find
find-miss path p f rest e = rw e refl

found-same : {f old : Entry} → ◌≡◌ {A = Option Entry} (some f) (some old) → f ≡ old
found-same e = cc

weight-some : (f old : Entry) → ◌≡◌ {A = Option Entry} (some f) (some old) → weight f ≡ weight old
weight-some f old e = ap weight (found-same e)

pub active-put :
    (path : String) (e old : Entry) (s : Store)
    → find path s ≡ some old
    → active (put path e s) + weight old ≡ active s + weight e
unfolding active find put
active-put path e old [] h = cc
active-put path e old ((p, f) ∷ rest) h = elim (Bool-cases (p == path)) [
  | inl here ↦
      let w = weight-some f old (sym (find-hit path p f rest here) ∙ h) in rw here (omega arith)
  | inr elsewhere ↦
      let later = active-put path e old rest (sym (find-miss path p f rest elsewhere) ∙ h) in
      rw elsewhere (omega arith)
]

none-hit : {f : Entry} → ◌≡◌ {A = Option Entry} none (some f) → ⊥
none-hit e = cc

pub active-put_new :
    (path : String) (e : Entry) (s : Store)
    → find path s ≡ none
    → active (put path e s) ≡ active s + weight e
unfolding active find put
active-put_new path e [] h = omega arith
active-put_new path e ((p, f) ∷ rest) h = elim (Bool-cases (p == path)) [
  | inl here ↦ absurd (none-hit (sym h ∙ find-hit path p f rest here))
  | inr elsewhere ↦
      let later = active-put_new path e rest (sym (find-miss path p f rest elsewhere) ∙ h) in
      rw elsewhere (omega arith)
]

pub prepend-eq-ok :
    (tx : Transaction) (r : Result Failure (List Transaction)) (ts : List Transaction)
    → prepend tx r ≡ ok ts
    → (others : List Transaction) × (r ≡ ok others) × (tx ∷ others ≡ ts)
prepend-eq-ok tx (ok others) ts e = (others, refl, ok-injective e)
prepend-eq-ok tx (err x) ts e = cc

no_more :
    (r : Record) (b : Bool)
    → (not (is_terminal r.state) || b) ≡ false
    → (weight (holds r) ≡ 0) × (b ≡ false)
no_more r b e = ground arith

-- Where every directory is good and no transaction is active, none is counted.
pub active-none :
    (s : Store) (ts : List Transaction)
    → transactions s ≡ ok ts
    → any is_active ts ≡ false
    → active s ≡ 0
unfolding active transactions
active-none [] ts e h = refl
active-none ((p, unsafe) ∷ rest) ts e h = cc
active-none ((p, corrupt) ∷ rest) ts e h = cc
active-none ((p, bare) ∷ rest) ts e h = let w = active-none rest ts e h in omega arith
active-none ((p, holds r) ∷ rest) ts e h =
    let (others, read, whole) = prepend-eq-ok _ (transactions rest) ts e in
    let (here, later) =
      no_more r (any is_active others) (subst (λ l. any is_active l ≡ false) (sym whole) h) in
    let w = active-none rest others read later in omega arith

pub weight_le_one : (e : Entry) → weight e ≤ 1
weight_le_one (holds r) = ground arith
weight_le_one unsafe = omega arith
weight_le_one _ = omega arith

pub find-put : (path : String) (e : Entry) (s : Store) → find path (put path e s) ≡ some e
unfolding find put
find-put path e [] = rw (eq_refl path) refl
find-put path e ((p, f) ∷ rest) = elim (Bool-cases (p == path)) [
  | inl here ↦ rw (here, here) refl
  | inr elsewhere ↦ rw (elsewhere, elsewhere) (find-put path e rest)
]
