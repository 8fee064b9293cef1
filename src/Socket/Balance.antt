-- ===== src/Socket/Balance.antt =====
-- scripts/staging/hermes_staging_socket_diagnostic.py: in a log that `_aggregate` accepts, each
-- resource was closed as often as it was opened.
use hermes_ops.Prelude.{
  ℕ, ◌+◌, String, ◌≡◌, ◌⊎◌, inl, inr, refl, sym, ap, subst, Bool, true, false, not, ◌&&◌, ◌||◌,
  List, [], ◌∷◌, ◌==◌, nat_eq, ltb, leb, any, length, arith, Bool-cases, if◌then◌else◌,
}
use hermes_ops.Result.{Result, ok, err, refuse, >>=-eq-ok, refuse-eq-ok, ok-injective}
use hermes_ops.Socket.{
  Complaint, causally_incomplete, Effect, opens, checks, closes, Port, no_port, unknown, port,
  Event, Line, other_text, broken, event, effect, is_request, PortKey, RequestKey, same_port,
  port_key, Tally, no_lines, balance, request_event, port_effect, numbered_event, port_event,
  is_missing, is_literal, is_close_start, is_start, is_no_port, same_request, request_key,
  malformed, no_events, bound_exceeded, incomplete, take_event, take_lines, is_open, check_tally,
  aggregate,
}
use hermes_ops.Socket.Lookup.{set_balance-up, set_balance-down}

-- Does the line open or close the resource of the key?
abbrev hits : Effect → Effect → Bool
hits opens opens = true
hits closes closes = true
hits _ _ = false

abbrev changes : Effect → PortKey → Event → Port → Bool
changes f k e (port text n) =
    not (is_request e.kind) && hits f (effect e.kind) && same_port (port_key e text) k
changes f k e _ = false

-- The number of lines that open (or close) the resource of the key.
unfoldable pub times : Effect → PortKey → List Line → ℕ
times f k [] = 0
times f k (event e ∷ rest) = (if changes f k e e.local_port then 1 else 0) + times f k rest
times f k (_ ∷ rest) = times f k rest

-- The balance of a key after an event, with what the event closes, is the one before it, with what it
-- opens.
abbrev Kept : Effect → PortKey → PortKey → Tally → Tally → Type 0
Kept f l k t u =
    balance k u.balances + (if hits closes f && same_port l k then 1 else 0)
    ≡ balance k t.balances + (if hits opens f && same_port l k then 1 else 0)

test-err :
    (b : Bool) {t u : Tally}
    → (if b then err causally_incomplete else ok t) ≡ ok u
    → (b ≡ false) × (t ≡ u)
test-err true e = cc
test-err false e = (refl, ok-injective e)

port_effect-balance :
    (f : Effect) (l k : PortKey) (t u : Tally) → port_effect f l t ≡ ok u → Kept f l k t u
unfolding port_effect
port_effect-balance checks l k t u e =
    let (b, same) = test-err (nat_eq (balance l t.balances) 0) e in
    subst (Kept checks l k t) same refl
port_effect-balance opens l k t u e =
    let up = set_balance-up l k t.balances in
    subst (Kept opens l k t) (ok-injective e) (omega arith)
port_effect-balance closes l k t u e =
    let (b, same) = test-err (nat_eq (balance l t.balances) 0) e in
    let down = set_balance-down l k t.balances b in subst (Kept closes l k t) same (omega arith)

test-pass :
    (b : Bool) (c : Complaint) (m : Result Complaint Tally) {u : Tally}
    → (if b then err c else m) ≡ ok u
    → m ≡ ok u
test-pass true c m e = cc
test-pass false c m e = e

numbered_event-balance :
    (e : Event) (text : String) (n : ℕ) (k : PortKey) (t u : Tally)
    → numbered_event e text n t ≡ ok u
    → Kept (effect e.kind) (port_key e text) k t u
unfolding numbered_event
numbered_event-balance e text n k t u h =
    port_effect-balance (effect e.kind) (port_key e text) k t u (
      test-pass
        (not (is_missing e.request_id) && not (any (same_request (request_key e)) t.requests))
        causally_incomplete _ (test-pass (not (leb 1 n && leb n 65535)) malformed _ h))

-- The same for any event, by its port.
abbrev Balanced : PortKey → Event → Port → Tally → Tally → Type 0
Balanced k e p t u =
    balance k u.balances + (if changes closes k e p then 1 else 0)
    ≡ balance k t.balances + (if changes opens k e p then 1 else 0)

err-ok : {c : Complaint} {u : Tally} → ◌≡◌ {A = Result Complaint Tally} (err c) (ok u) → ⊥
err-ok e = cc

port_event-balance :
    (e : Event) (p : Port) (k : PortKey) (t u : Tally)
    → is_request e.kind ≡ false
    → port_event e p t ≡ ok u
    → Balanced k e p t u
unfolding port_event
port_event-balance e no_port k t u other h = cc
port_event-balance e unknown k t u other h =
    absurd (err-ok (test-pass (is_close_start e.kind && is_missing e.request_id) malformed _ h))
port_event-balance e (port text n) k t u other h = rw other (
    numbered_event-balance e text n k t u
      (test-pass (is_close_start e.kind && is_missing e.request_id) malformed _ h))

start-cases :
    (starts known : Bool) (t v u : Tally)
    → (if starts
        then (if known then err causally_incomplete else ok v)
        else if known
        then ok t
        else err causally_incomplete)
      ≡ ok u
    → (v ≡ u) ⊎ (t ≡ u)
start-cases true true t v u e = cc
start-cases true false t v u e = inl (ok-injective e)
start-cases false true t v u e = inr (ok-injective e)
start-cases false false t v u e = cc

request_event-balance :
    (e : Event) (k : PortKey) (t u : Tally)
    → request_event e t ≡ ok u
    → balance k u.balances ≡ balance k t.balances
unfolding request_event
request_event-balance e k t u h =
    let known = any (same_request (request_key e)) t.requests in
    elim (start-cases (is_start e.kind) known t (record t { requests = request_key e ∷ t.requests })
      u (test-pass (is_missing e.request_id || not (is_no_port e.local_port)) malformed _ h)) [
        | inl started ↦ ap (λ v. balance k v.balances) (sym started)
        | inr same ↦ ap (λ v. balance k v.balances) (sym same)
      ]

changes-request :
    (f : Effect) (k : PortKey) (e : Event) (p : Port)
    → is_request e.kind ≡ true
    → changes f k e p ≡ false
changes-request f k e no_port r = refl
changes-request f k e unknown r = refl
changes-request f k e (port text n) r = rw r refl

branch-balance :
    (e : Event) (k : PortKey) (t v : Tally) (b : Bool)
    → is_request e.kind ≡ b
    → (if b then request_event e t else port_event e e.local_port t) ≡ ok v
    → Balanced k e e.local_port t v
branch-balance e k t v true r h =
    let same = request_event-balance e k t v h in
    rw (changes-request closes k e e.local_port r, changes-request opens k e e.local_port r)
      (omega arith)
branch-balance e k t v false r h = port_event-balance e e.local_port k t v r h

take_event-balance :
    (e : Event) (k : PortKey) (t u : Tally) → take_event e t ≡ ok u → Balanced k e e.local_port t u
unfolding take_event
take_event-balance e k t u h =
    let (a, passed, h1) = >>=-eq-ok (refuse (is_literal e.request_id) malformed) _ h in
    let (b, routed, h2) =
      >>=-eq-ok (refuse (not (e.route == "primary") && not e.route_ok) malformed) _ h1 in
    let (v, went, h3) =
      >>=-eq-ok (if is_request e.kind then request_event e t else port_event e e.local_port t) _
        h2 in
    subst (Balanced k e e.local_port t) (ok-injective h3)
      (branch-balance e k t v (is_request e.kind) refl went)

take_lines-balance :
    (k : PortKey) (ls : List Line) (t u : Tally)
    → take_lines ls t ≡ ok u
    → balance k u.balances + times closes k ls ≡ balance k t.balances + times opens k ls
unfolding take_lines times
take_lines-balance k [] t u e =
    let same = ok-injective e in ap (λ v. balance k v.balances + 0) (sym same)
take_lines-balance k (other_text ∷ ls) t u e = take_lines-balance k ls t u e
take_lines-balance k (broken ∷ ls) t u e = absurd (err-ok e)
take_lines-balance k (event v ∷ ls) t u e =
    let (w, took, rest) = >>=-eq-ok (take_event v t) _ e in
    let here = take_event-balance v k t w took in
    let later = take_lines-balance k ls w u rest in omega arith

||-neither : (a b : Bool) → (a || b) ≡ false → (a ≡ false) × (b ≡ false)
||-neither false false e = (refl, refl)
||-neither false true e = cc
||-neither true b e = cc

not-nat_eq : (n : ℕ) → not (nat_eq n 0) ≡ false → n ≡ 0
not-nat_eq n e = ground arith

any-balance : (k : PortKey) (bs : List (PortKey × ℕ)) → any is_open bs ≡ false → balance k bs ≡ 0
unfolding balance
any-balance k [] e = refl
any-balance k ((j, n) ∷ bs) e =
    let (closed, rest) = ||-neither (not (nat_eq n 0)) (any is_open bs) e in
    elim (Bool-cases (same_port j k)) [
      | inl here ↦ rw here (not-nat_eq n closed)
      | inr other ↦ rw other (any-balance k bs rest)
    ]

check_tally-closed : (t : Tally) → check_tally t ≡ ok tt → any is_open t.balances ≡ false
unfolding check_tally
check_tally-closed t e =
    let (a, counted_some, e1) = >>=-eq-ok (refuse (nat_eq (length t.counts) 0) no_events) _ e in
    let (b, bounded, e2) =
      >>=-eq-ok
        (refuse
          (ltb 256 (length t.counts)
            || ltb 4096 (length t.balances)
            || ltb 4096 (length t.requests))
          bound_exceeded)
        _ e1 in
    (||-neither (nat_eq t.total_opened 0) (any is_open t.balances) (refuse-eq-ok _ incomplete e2)).1

-- In a log that is accepted, every socket and every response (by owner, route, request and port) has
-- as many closing lines as opening ones.
pub aggregate-times :
    (k : PortKey) (ls : List Line) (found : List (RequestKey × ℕ))
    → aggregate ls ≡ ok found
    → times closes k ls ≡ times opens k ls
unfolding aggregate balance
aggregate-times k ls found e =
    let (t, took, e1) = >>=-eq-ok (take_lines ls no_lines) _ e in
    let (x, checked, e2) = >>=-eq-ok (check_tally t) _ e1 in
    let closed = any-balance k t.balances (check_tally-closed t checked) in
    let whole = take_lines-balance k ls no_lines t took in omega arith
