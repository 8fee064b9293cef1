-- ===== src/Gate/Latest.antt =====
-- scripts/deploy/evaluate_deployment_gate.py: the last run after the sort is the latest one.
use hermes_ops.Prelude.{
  ◌≤◌, ◌≡◌, ◌⊎◌, inl, inr, refl, some, List, [], ◌∷◌, All, arith, leb, Bool-cases,
}
use hermes_ops.Gate.{Timed, insert, sort, last}

-- `x` is one of the runs.
abbrev pub Holds : Timed → List Timed → Type 0
Holds x [] = ⊥
Holds x (y ∷ ys) = (x ≡ y) ⊎ Holds x ys

-- `m` is one of the runs, and no run started after it.
pub record IsLatest (m : Timed) (runs : List Timed) : Type 0 where
  pub there : Holds m runs
  pub latest : All (λ q. q.0 ≤ m.0) runs

insert-All :
    (P : Timed → Type 0) (x : Timed) (ys : List Timed) → P x → All P ys → All P (insert x ys)
unfolding insert
insert-All P x [] px pys = (px, tt)
insert-All P x (y ∷ ys) px (py, pys) = elim (Bool-cases (leb x.0 y.0)) [
  | inl before ↦ rw before (px, (py, pys))
  | inr behind ↦ rw behind (py, insert-All P x ys px pys)
]

-- An insertion is not empty.
last-insert_cons : (x y : Timed) (ys : List Timed) → last (y ∷ insert x ys) ≡ last (insert x ys)
unfolding insert last
last-insert_cons x y [] = refl
last-insert_cons x y (z ∷ ys) = ground arith

-- A new run is last only if it is later than all others.
last-insert :
    (x : Timed) (ys : List Timed) (m : Timed)
    → last ys ≡ some m
    → All (λ q. q.0 ≤ m.0) ys
    → ((last (insert x ys) ≡ some m) × (x.0 ≤ m.0)) ⊎ ((last (insert x ys) ≡ some x) × (m.0 ≤ x.0))
unfolding insert last
last-insert x [] m e h = cc
last-insert x (y ∷ []) m e h = ground arith
last-insert x (y ∷ z ∷ ys) m e (hy, hs) = elim (Bool-cases (leb x.0 y.0)) [
  | inl before ↦ rw before (inl (e, ground arith))
  | inr behind ↦ rw (behind, last-insert_cons x y (z ∷ ys)) (last-insert x (z ∷ ys) m e hs)
]

Holds-insert : (x : Timed) (ys : List Timed) → Holds x (insert x ys)
unfolding insert
Holds-insert x [] = inl refl
Holds-insert x (y ∷ ys) = elim (Bool-cases (leb x.0 y.0)) [
  | inl before ↦ rw before (inl refl)
  | inr behind ↦ rw behind (inr (Holds-insert x ys))
]

All-weaken :
    (m n : Timed) (runs : List Timed)
    → m.0 ≤ n.0
    → All (λ q. q.0 ≤ m.0) runs
    → All (λ q. q.0 ≤ n.0) runs
All-weaken m n [] le h = tt
All-weaken m n (r ∷ runs) le (h, hs) = (omega arith, All-weaken m n runs le hs)

-- A sorted list has the same runs, so the bounds on its last one are bounds on all.
last-All :
    (x m : Timed) (ys : List Timed)
    → last (sort ys) ≡ some m
    → All (λ q. q.0 ≤ m.0) (sort ys)
    → IsLatest m ys
    → (n : Timed) × (last (sort (x ∷ ys)) ≡ some n)
      × All (λ q. q.0 ≤ n.0) (sort (x ∷ ys))
      × IsLatest n (x ∷ ys)
unfolding sort
last-All x m ys e h i = elim (last-insert x (sort ys) m e h) [
  | inl (kept, le) ↦ (
    m,
    kept,
    insert-All (λ q. q.0 ≤ m.0) x (sort ys) le h,
    record { there = inr i.there; latest = (le, i.latest) },
  )
  | inr (new, le) ↦ (
    x,
    new,
    insert-All (λ q. q.0 ≤ x.0) x (sort ys) (omega arith) (All-weaken m x (sort ys) le h),
    record { there = inl refl; latest = (omega arith, All-weaken m x ys le i.latest) },
  )
]

last-sort-All :
    (x : Timed) (ys : List Timed)
    → (n : Timed) × (last (sort (x ∷ ys)) ≡ some n)
      × All (λ q. q.0 ≤ n.0) (sort (x ∷ ys))
      × IsLatest n (x ∷ ys)
unfolding sort insert last
last-sort-All x [] =
    (x, refl, (omega arith, tt), record { there = inl refl; latest = (omega arith, tt) })
last-sort-All x (y ∷ ys) = let (m, e, h, i) = last-sort-All y ys in last-All x m (y ∷ ys) e h i

-- Of the runs that were sorted, the last one is one of them and started after all others.
pub last-sort :
    (x : Timed) (ys : List Timed)
    → (n : Timed) × (last (sort (x ∷ ys)) ≡ some n) × IsLatest n (x ∷ ys)
last-sort x ys = let (n, e, h, i) = last-sort-All x ys in (n, e, i)
