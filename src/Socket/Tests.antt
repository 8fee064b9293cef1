-- ===== src/Socket/Tests.antt =====
-- A request that opens a socket and closes it.
use hermes_ops.Prelude.{ℕ, ◌≡◌, refl, true, List, [], ◌∷◌}
use hermes_ops.Result.{ok}
use hermes_ops.Socket.{
  Kind, request_started, socket_opened, socket_closed, Port, port, no_port, given, Line, event,
  other_text, opens, closes, RequestKey, PortKey, bump, balance, set_balance, request_event,
  port_effect, numbered_event, port_event, take_event, take_lines, check_tally, aggregate,
}
use hermes_ops.Socket.Balance.{times, aggregate-times}

abbrev line : Kind → Port → Line
line k p = event (record {
  kind = k;
  owner = "polling";
  route = "primary";
  route_ok = true;
  request_id = given "7";
  local_port = p;
})

abbrev log : List Line
log =
    line request_started no_port
    ∷ other_text
    ∷ line socket_opened (port "40000" 40000)
    ∷ line socket_closed (port "40000" 40000)
    ∷ []

abbrev counts : List (RequestKey × ℕ)
counts =
    (("polling", "primary", "request-started"), 1)
    ∷ (("polling", "primary", "socket-opened"), 1)
    ∷ (("polling", "primary", "socket-closed"), 1)
    ∷ []

accepted : aggregate log ≡ ok counts
unfolding aggregate take_lines take_event request_event port_event numbered_event port_effect
    balance set_balance bump check_tally
accepted = refl

abbrev key : PortKey
key = ("socket", "polling", "primary", "7", "40000")

aggregate-times_example : times closes key log ≡ times opens key log
aggregate-times_example = aggregate-times key log counts accepted
