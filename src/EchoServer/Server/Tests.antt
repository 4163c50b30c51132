-- ===== src/EchoServer/Server/Tests.antt =====
-- The server's theorems at runs with two visitors.
use boost_beast_websocket_ec.Prelude.{
  ℕ, ◌+◌, ◌-◌, ◌≤◌, ◌≡◌, refl, Bool, true, [], ◌∷◌, ◌++◌, success, is_error, if◌then◌else◌, length,
  Returns, some, arith,
}
use boost_beast_websocket_ec.Prelude.Text.{codes, to_string}
use boost_beast_websocket_ec.Prelude.Endpoint.{Endpoint, same_endpoint, text_eq}
use boost_beast_websocket_ec.Prelude.Table.{lookup, occurrences, assign}
use boost_beast_websocket_ec.EchoServer.Connection
use boost_beast_websocket_ec.EchoServer.Server.{
  Server, runs, server, handle_run, handle_accept, app_handle_run, handle_signal, greetings,
  send_all,
}
use boost_beast_websocket_ec.EchoServer.Server.Laws.{
  accepted, stopped, step, Reach, start, next, IsValid, server-IsValid, accepted_serves, stops_of,
  stop_reaches_all, perform_all, greeting_waits,
}

abbrev home : ℕ → Endpoint
home port = record { address = codes "127.0.0.1"; port = port }

abbrev everyone : ℕ → Bool
everyone p = true

first_visitor : Server
unfolding step handle_run server
first_visitor = step (handle_run server) (accepted success (home 5000))

two_visitors : Server
unfolding first_visitor
two_visitors = step first_visitor (accepted success (home 5001))

two_visitors-Reach : Reach two_visitors
unfolding two_visitors handle_accept same_endpoint text_eq
two_visitors-Reach =
    next (accepted success (home 5001)) (next (accepted success (home 5000)) start refl) refl

-- The second visitor is told its number.
second_greeting :
    greetings (home 5001) (length two_visitors.connections)
    ≡ codes "Welcome to my websocket server!\n"
      ∷ codes "You are visitor number 2\n"
      ∷ codes "You connected from 127.0.0.1:5001\n"
      ∷ codes "Be good!\n"
      ∷ []
unfolding two_visitors handle_accept assign same_endpoint text_eq lookup to_string
second_greeting = refl

-- The application starts the server, and a signal stops it.
signalled :
    let a = app_handle_run (record { server = server; signal_waits = 0 }) in
    is_error (handle_signal everyone a success).server.ec ≡ true
unfolding app_handle_run handle_signal
signalled = refl

server-IsValid_example : IsValid two_visitors
server-IsValid_example = server-IsValid two_visitors-Reach

accepted_serves_case :
    let s' = step first_visitor (accepted success (home 5001)) in
    (s'.accepts ≡ first_visitor.accepts)
    × (lookup (home 5000) s'.connections ≡ (
        if same_endpoint (home 5001) (home 5000)
        then some first_visitor.created
        else lookup (home 5000) first_visitor.connections))
    × (s'.calls
        ≡ first_visitor.calls
          ++ (first_visitor.created, runs)
            ∷ send_all first_visitor.created (greetings (home 5001) (length s'.connections)))
unfolding first_visitor handle_accept
accepted_serves_case = accepted_serves first_visitor (home 5001) (home 5000) refl (omega arith)

stop_reaches_all_case :
    let s' = step two_visitors (stopped everyone) in
    (stops_of 0 s'.calls ≡ stops_of 0 two_visitors.calls + occurrences 0 two_visitors.connections)
    × (occurrences 0 two_visitors.connections ≤ 1)
    × (step s' (accepted success (home 1)) ≡ record s' { accepts = s'.accepts - 1 })
stop_reaches_all_case = stop_reaches_all everyone two_visitors 0 success (home 1) two_visitors-Reach

greeting_waits_case :
    Returns
      (λ c.
        (c.tx_queue ≡ greetings (home 5001) 2)
        × (c.writes ≡ [])
        × (c.accepts ≡ 1)
        × (c.waits ≡ 1)
        × (c.state ≡ Connection.handshaking))
      (perform_all Connection.connection_impl ((1, runs) ∷ send_all 1 (greetings (home 5001) 2)))
greeting_waits_case = greeting_waits 1 2 (home 5001)
