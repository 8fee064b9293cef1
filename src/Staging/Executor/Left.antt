-- ===== src/Staging/Executor/Left.antt =====
-- scripts/staging/hermes_staging_socket_diagnostic.py: which transactions of the store `recover` has
-- still to bring to an end.
use hermes_ops.Prelude.{
  ◌≡◌, refl, sym, ap, ◌∙◌, subst, inl, inr, String, Bool, true, false, Option, none, some, List, [],
  ◌∷◌, ◌==◌, Bool-cases, eq_refl, eq_iff, if◌then◌else◌,
}
use hermes_ops.Result.{ok}
use hermes_ops.Staging.Transactions.{
  is_terminal, Record, Entry, unsafe, bare, corrupt, holds, Store, Transaction, find, transactions,
}
use hermes_ops.Staging.Counting.{prepend-eq-ok}
use hermes_ops.Staging.Executor.{Machine}
use hermes_ops.Staging.Executor.Settled.{IsOver}
use hermes_ops.Staging.Executor.Paths.{OnlyOwn}

-- The record of the first transaction with a path.
unfoldable pub first : String → List Transaction → Option Record
first q [] = none
first q (tx ∷ rest) = if tx.path == q then some tx.record_of else first q rest

-- An active transaction on disk is one of those that are left.
abbrev pub AreLeft : Store → List Transaction → Type 0
AreLeft s rest =
    (q : String) (r : Record)
    → find q s ≡ some (holds r)
    → is_terminal r.state ≡ false
    → first q rest ≡ some r

pub same-record : {x r : Record} → ◌≡◌ {A = Option Entry} (some (holds x)) (some (holds r)) → x ≡ r
same-record e = cc

bare-record : {r : Record} → ◌≡◌ {A = Option Entry} (some bare) (some (holds r)) → ⊥
bare-record e = cc

pub true-false : ◌≡◌ {A = Bool} true false → ⊥
true-false e = cc

module _ (q : String) (r : Record) where
  first-hit :
      (p : String) (x : Record) (rest : Store) (others : List Transaction)
      → find q ((p, holds x) ∷ rest) ≡ some (holds r)
      → (find q rest ≡ some (holds r) → first q others ≡ some r)
      → first q (record { path = p; record_of = x } ∷ others) ≡ some r
  unfolding find first
  first-hit p x rest others h later = elim (Bool-cases (p == q)) [
    | inl here ↦ rw here (ap some (same-record (rw here at h)))
    | inr elsewhere ↦ rw elsewhere (later (rw elsewhere at h))
  ]

  pub found-first :
      (s : Store) (ts : List Transaction)
      → transactions s ≡ ok ts
      → find q s ≡ some (holds r)
      → first q ts ≡ some r
  unfolding transactions find
  found-first [] ts e h = cc
  found-first ((p, unsafe) ∷ rest) ts e h = cc
  found-first ((p, corrupt) ∷ rest) ts e h = cc
  found-first ((p, bare) ∷ rest) ts e h = elim (Bool-cases (p == q)) [
    | inl here ↦ absurd (bare-record (rw here at h))
    | inr elsewhere ↦ found-first rest ts e (rw elsewhere at h)
  ]
  found-first ((p, holds x) ∷ rest) ts e h =
      let (others, read, whole) = prepend-eq-ok _ (transactions rest) ts e in
      subst (λ l. first q l ≡ some r) whole
        (first-hit p x rest others h (found-first rest others read))

-- The transaction of a directory is over, and every other directory is what it was.
abbrev pub IsDone : String → Store → Store → Type 0
IsDone p s t =
    ((r : Record) → find p t ≡ some (holds r) → is_terminal r.state ≡ true)
    × ((q : String) → (p == q) ≡ false → find q t ≡ find q s)

first-miss :
    (q : String) (tx : Transaction) (rest : List Transaction)
    → (tx.path == q) ≡ false
    → first q (tx ∷ rest) ≡ first q rest
unfolding first
first-miss q tx rest e = rw e refl

-- A transaction that is over leaves the others to do.
pub over-left :
    (tx : Transaction) (rest : List Transaction) (s t : Store)
    → AreLeft s (tx ∷ rest)
    → IsDone tx.path s t
    → AreLeft t rest
over-left tx rest s t left (over, others) q r h going = elim (Bool-cases (tx.path == q)) [
  | inl here ↦
      let at_path = ap (λ p. find p t) ((eq_iff tx.path q).0 here) ∙ h in
      absurd (true-false (sym (over r at_path) ∙ going))
  | inr elsewhere ↦
      sym (first-miss q tx rest elsewhere) ∙ left q r (sym (others q elsewhere) ∙ h) going
]

first_self :
    (tx : Transaction) (rest : List Transaction) → first tx.path (tx ∷ rest) ≡ some tx.record_of
unfolding first
first_self tx rest = rw (eq_refl tx.path) refl

some-same : {a b : Record} → ◌≡◌ {A = Option Record} (some a) (some b) → a ≡ b
some-same e = cc

-- One that was over is over on disk.
pub terminal-IsDone :
    (tx : Transaction) (rest : List Transaction) (s : Store)
    → AreLeft s (tx ∷ rest)
    → is_terminal tx.record_of.state ≡ true
    → IsDone tx.path s s
terminal-IsDone tx rest s left ended = (
  λ r h. elim (Bool-cases (is_terminal r.state)) [
    | inl over ↦ over
    | inr going ↦
        let same = some-same (sym (first_self tx rest) ∙ left tx.path r h going) in
        sym (ap (λ x. is_terminal x.state) same) ∙ ended
  ],
  λ q e. refl,
)

pub over-IsDone : (m t : Machine) → IsOver t → OnlyOwn m t → IsDone m.tx.path m.store t.store
over-IsDone m t (state, there) (path, others) = (
  λ r h.
      let same = same-record (sym there ∙ ap (λ p. find p t.store) path ∙ h) in
      sym (ap (λ x. is_terminal x.state) same) ∙ ap is_terminal state,
  others,
)
