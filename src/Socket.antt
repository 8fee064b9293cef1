-- ===== src/Socket.antt =====
-- scripts/staging/hermes_staging_socket_diagnostic.py: `_aggregate`, which counts the socket events of
-- a log and checks that each end has a beginning.
pub mod Lookup
pub mod Balance
mod Tests
use hermes_ops.Prelude.{
  ℕ, zero, suc, ◌+◌, ◌-◌, String, Bool, true, false, not, ◌&&◌, ◌||◌, Option, none, some, List, [],
  ◌∷◌, ◌==◌, nat_eq, leb, ltb, length, any, if◌then◌else◌,
}
use hermes_ops.Result.{Result, ok, err, refuse, ◌>>=◌, ◌>>◌}

-- The messages of the `DiagnosticError`.
pub data Complaint : Type 0 where
  malformed causally_incomplete unknown_port no_events bound_exceeded incomplete : Complaint

pub data Kind : Type 0 where
  request_started request_cancelled request_failed socket_opened socket_close_started socket_closed
        socket_close_error response_created response_closed response_close_error :
      Kind

-- "none", "unknown", or the digits of a number, and the number.
pub data Port : Type 0 where
  no_port unknown : Port
  port : String → ℕ → Port

-- No field, the text "none", or a number.
pub data RequestId : Type 0 where
  missing literal_none : RequestId
  given : String → RequestId

-- The groups of `_EVENT`, and what `ipaddress` says of a route that is not "primary".
pub record Event : Type 0 where
  pub kind : Kind
  pub owner : String
  pub route : String
  pub route_ok : Bool
  pub request_id : RequestId
  pub local_port : Port

-- A line of the log.
pub data Line : Type 0 where
  other_text broken : Line
  event : Event → Line

-- `opening_events`, `terminal_events` and `checkpoint_events`, by what they do to the balance.
pub data Effect : Type 0 where
  opens checks closes : Effect

abbrev pub resource : Kind → String
resource socket_opened = "socket"
resource socket_closed = "socket"
resource socket_close_error = "socket"
resource socket_close_started = "socket"
resource _ = "response"

abbrev pub effect : Kind → Effect
effect socket_opened = opens
effect response_created = opens
effect socket_close_started = checks
effect response_close_error = checks
effect _ = closes

abbrev pub is_request : Kind → Bool
is_request request_started = true
is_request request_cancelled = true
is_request request_failed = true
is_request _ = false

abbrev pub is_start : Kind → Bool
is_start request_started = true
is_start _ = false

abbrev pub is_close_start : Kind → Bool
is_close_start socket_close_started = true
is_close_start _ = false

-- `request_id or ""`
abbrev pub id_text : RequestId → String
id_text (given n) = n
id_text _ = ""

abbrev pub is_missing : RequestId → Bool
is_missing missing = true
is_missing _ = false

abbrev pub is_literal : RequestId → Bool
is_literal literal_none = true
is_literal _ = false

abbrev pub is_no_port : Port → Bool
is_no_port no_port = true
is_no_port _ = false

-- `request_key`
abbrev pub RequestKey : Type 0
RequestKey = String × String × String

-- `port_key`
abbrev pub PortKey : Type 0
PortKey = String × String × String × String × String

abbrev pub same_request : RequestKey → RequestKey → Bool
same_request a b = a.0 == b.0 && a.1 == b.1 && a.2 == b.2

abbrev pub same_port : PortKey → PortKey → Bool
same_port a b = a.0 == b.0 && a.1 == b.1 && a.2 == b.2 && a.3 == b.3 && a.4 == b.4

abbrev pub request_key : Event → RequestKey
request_key e = (e.owner, e.route, id_text e.request_id)

abbrev pub port_key : Event → String → PortKey
port_key e text = (resource e.kind, e.owner, e.route, id_text e.request_id, text)

-- The variables of the loop; `counts` has the number of lines for each key.
pub record Tally : Type 0 where
  pub counts : List (RequestKey × ℕ)
  pub balances : List (PortKey × ℕ)
  pub requests : List RequestKey
  pub total_opened : ℕ

abbrev pub no_lines : Tally
no_lines = record { counts = []; balances = []; requests = []; total_opened = 0 }

abbrev pub kind_text : Kind → String
kind_text request_started = "request-started"
kind_text request_cancelled = "request-cancelled"
kind_text request_failed = "request-failed"
kind_text socket_opened = "socket-opened"
kind_text socket_close_started = "socket-close-started"
kind_text socket_closed = "socket-closed"
kind_text socket_close_error = "socket-close-error"
kind_text response_created = "response-created"
kind_text response_closed = "response-closed"
kind_text response_close_error = "response-close-error"

abbrev pub max_count : ℕ
max_count = 2147483647

-- `counts[key] = min(counts.get(key, 0) + 1, 2**31 - 1)`
unfoldable pub bump : RequestKey → List (RequestKey × ℕ) → List (RequestKey × ℕ)
bump k [] = (k, 1) ∷ []
bump k ((j, n) ∷ rest) =
    let later = bump k rest in
    if same_request j k
    then (j, if ltb n max_count then suc n else max_count) ∷ rest
    else (j, n) ∷ later

-- `balances.get(key, 0)`
unfoldable pub balance : PortKey → List (PortKey × ℕ) → ℕ
balance k [] = 0
balance k ((j, n) ∷ rest) = if same_port j k then n else balance k rest

-- `balances[key] = n`
unfoldable pub set_balance : PortKey → ℕ → List (PortKey × ℕ) → List (PortKey × ℕ)
set_balance k n [] = (k, n) ∷ []
set_balance k n ((j, m) ∷ rest) =
    let later = set_balance k n rest in if same_port j k then (j, n) ∷ rest else (j, m) ∷ later

-- The branch for the events of a request.
unfoldable pub request_event : Event → Tally → Result Complaint Tally
request_event e t =
    let known = any (same_request (request_key e)) t.requests in
    if is_missing e.request_id || not (is_no_port e.local_port)
    then err malformed
    else if is_start e.kind
    then (if known
        then err causally_incomplete
        else ok (record t { requests = request_key e ∷ t.requests }))
    else if known
    then ok t
    else err causally_incomplete

-- The last test of the branch for the events of a port.
unfoldable pub port_effect : Effect → PortKey → Tally → Result Complaint Tally
unfolding balance set_balance
port_effect opens k t = ok (record t {
  balances = set_balance k (suc (balance k t.balances)) t.balances;
  total_opened = suc t.total_opened;
})
port_effect checks k t = if nat_eq (balance k t.balances) 0 then err causally_incomplete else ok t
port_effect closes k t =
    if nat_eq (balance k t.balances) 0
    then err causally_incomplete
    else ok (record t { balances = set_balance k (balance k t.balances - 1) t.balances })

-- The branch for the events of a port, from the test of the number on.
unfoldable pub numbered_event : Event → String → ℕ → Tally → Result Complaint Tally
unfolding port_effect
numbered_event e text n t =
    if not (leb 1 n && leb n 65535)
    then err malformed
    else if not (is_missing e.request_id) && not (any (same_request (request_key e)) t.requests)
    then err causally_incomplete
    else port_effect (effect e.kind) (port_key e text) t

unfoldable pub port_event : Event → Port → Tally → Result Complaint Tally
unfolding numbered_event
port_event e no_port t = err malformed
port_event e unknown t =
    if is_close_start e.kind && is_missing e.request_id then err malformed else err unknown_port
port_event e (port text n) t =
    if is_close_start e.kind && is_missing e.request_id
    then err malformed
    else numbered_event e text n t

-- `counts[key]`, at the end of a round.
abbrev pub counted : Event → Tally → Tally
counted e t = record t { counts = bump (e.owner, e.route, kind_text e.kind) t.counts }

-- One round of the loop, for a line that matches.
unfoldable pub take_event : Event → Tally → Result Complaint Tally
unfolding request_event port_event
take_event e t = do
  refuse (is_literal e.request_id) malformed
  refuse (not (e.route == "primary") && not e.route_ok) malformed
  u ← if is_request e.kind then request_event e t else port_event e e.local_port t
  ok (counted e u)

-- The loop.
unfoldable pub take_lines : List Line → Tally → Result Complaint Tally
unfolding take_event
take_lines [] t = ok t
take_lines (other_text ∷ rest) t = take_lines rest t
take_lines (broken ∷ rest) t = err malformed
take_lines (event e ∷ rest) t = take_event e t >>= λ u. take_lines rest u

abbrev pub is_open : PortKey × ℕ → Bool
is_open q = not (nat_eq q.1 0)

-- The checks after the loop.
unfoldable pub check_tally : Tally → Result Complaint (Unit {0})
check_tally t = do
  refuse (nat_eq (length t.counts) 0) no_events
  refuse (ltb 256 (length t.counts) || ltb 4096 (length t.balances) || ltb 4096 (length t.requests))
      bound_exceeded
  refuse (nat_eq t.total_opened 0 || any is_open t.balances) incomplete

-- `_aggregate`
unfoldable pub aggregate : List Line → Result Complaint (List (RequestKey × ℕ))
unfolding take_lines check_tally
aggregate lines = do t ← take_lines lines no_lines; check_tally t; ok t.counts
