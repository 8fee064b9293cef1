-- ===== src/Socket/Lookup.antt =====
-- scripts/staging/hermes_staging_socket_diagnostic.py: the dictionary `balances` of `_aggregate`.
use hermes_ops.Prelude.{
  ℕ, suc, ◌+◌, ◌-◌, ◌<◌, ◌≡◌, inl, inr, refl, ap, subst, ◌∙◌, true, false, ◌&&◌, List, [], ◌∷◌,
  ◌==◌, nat_eq, &&-both, eq_iff, eq_refl, arith, Bool-cases, if◌then◌else◌,
}
use hermes_ops.Socket.{PortKey, same_port, balance, set_balance}

same_port-eq : (a b : PortKey) → same_port a b ≡ true → a ≡ b
same_port-eq (p, q, r, s, t) (p', q', r', s', t') e =
    let (e3, et) = &&-both (p == p' && q == q' && r == r' && s == s') _ e in
    let (e2, es) = &&-both (p == p' && q == q' && r == r') _ e3 in
    let (e1, er) = &&-both (p == p' && q == q') _ e2 in
    let (ep, eq) = &&-both (p == p') _ e1 in
    rw
      (
        (eq_iff p p').0 ep,
        (eq_iff q q').0 eq,
        (eq_iff r r').0 er,
        (eq_iff s s').0 es,
        (eq_iff t t').0 et,
      )
      refl

same_port_refl : (a : PortKey) → same_port a a ≡ true
same_port_refl a = rw (eq_refl a.0, eq_refl a.1, eq_refl a.2, eq_refl a.3, eq_refl a.4) refl

-- What is written under a key is read under it.
balance-set_balance :
    (k : PortKey) (n : ℕ) (bs : List (PortKey × ℕ)) → balance k (set_balance k n bs) ≡ n
unfolding balance set_balance
balance-set_balance k n [] = rw (same_port_refl k) refl
balance-set_balance k n ((j, m) ∷ bs) = elim (Bool-cases (same_port j k)) [
  | inl here ↦ rw (here) (unfold balance in rw here refl)
  | inr other ↦ rw other (unfold balance in rw (other, balance-set_balance k n bs) refl)
]

-- And nothing else is read under another key.
balance-set_balance_other :
    (k l : PortKey) (n : ℕ) (bs : List (PortKey × ℕ))
    → same_port l k ≡ false
    → balance k (set_balance l n bs) ≡ balance k bs
unfolding balance set_balance
balance-set_balance_other k l n [] e = rw e refl
balance-set_balance_other k l n ((j, m) ∷ bs) e = elim (Bool-cases (same_port j l)) [
  | inl here ↦
      rw here (unfold balance in rw (ap (λ q. same_port q k) (same_port-eq j l here) ∙ e) refl)
  | inr other ↦ rw other (unfold balance in rw (balance-set_balance_other k l n bs e) refl)
]

balance-set_balance_same :
    (l k : PortKey) (n : ℕ) (bs : List (PortKey × ℕ))
    → same_port l k ≡ true
    → balance k (set_balance l n bs) ≡ n
balance-set_balance_same l k n bs same =
    subst (λ q. balance q (set_balance l n bs) ≡ n) (same_port-eq l k same)
      (balance-set_balance l n bs)

nat_eq-zero : (n : ℕ) → nat_eq n 0 ≡ false → 0 < n
nat_eq-zero n e = ground arith

pub set_balance-up :
    (l k : PortKey) (bs : List (PortKey × ℕ))
    → balance k (set_balance l (suc (balance l bs)) bs)
      ≡ balance k bs + (if same_port l k then 1 else 0)
set_balance-up l k bs = elim (Bool-cases (same_port l k)) [
  | inl same ↦
      let read = balance-set_balance_same l k (suc (balance l bs)) bs same in
      let here = ap (λ q. balance q bs) (same_port-eq l k same) in rw same (omega arith)
  | inr other ↦
      let read = balance-set_balance_other k l (suc (balance l bs)) bs other in
      rw other (omega arith)
]

pub set_balance-down :
    (l k : PortKey) (bs : List (PortKey × ℕ))
    → nat_eq (balance l bs) 0 ≡ false
    → balance k (set_balance l (balance l bs - 1) bs) + (if same_port l k then 1 else 0)
      ≡ balance k bs
set_balance-down l k bs some_left = elim (Bool-cases (same_port l k)) [
  | inl same ↦
      let read = balance-set_balance_same l k (balance l bs - 1) bs same in
      let here = ap (λ q. balance q bs) (same_port-eq l k same) in
      let left = nat_eq-zero (balance l bs) some_left in rw same (omega arith)
  | inr other ↦
      let read = balance-set_balance_other k l (balance l bs - 1) bs other in rw other (omega arith)
]
