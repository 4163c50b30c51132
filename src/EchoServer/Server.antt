-- ===== src/EchoServer/Server.antt =====
-- pre-cxx20/echo_server/server.hpp and server.cpp, and app.cpp above them. Connections are numbered
-- in the order of their creation; what the server calls on them stands in `calls`, in order.
pub mod Hasher
pub mod Laws
mod Tests
use boost_beast_websocket_ec.Prelude.{
  ℕ, suc, ◌+◌, ◌-◌, Bool, true, false, ◌&&◌, not, List, [], ◌∷◌, ◌++◌, ErrorCode, success,
  operation_aborted, is_error, is_connection_aborted, is_operation_aborted, if◌then◌else◌, length,
}
use boost_beast_websocket_ec.Prelude.Text.{Text, codes, to_string}
use boost_beast_websocket_ec.Prelude.Endpoint.{Endpoint}
use boost_beast_websocket_ec.Prelude.Table.{Table, assign}

-- The public functions of connection_impl.
pub data Call : Type 0 where
  runs stops : Call
  sends : Text → Call

-- server: `accepts` counts the operations on acceptor_ that have not completed, and `cancels` the
-- calls of its cancel; `created` counts the connections made.
pub record Server : Type 0 where
  pub connections : Table
  pub ec : ErrorCode
  pub accepts : ℕ
  pub cancels : ℕ
  pub created : ℕ
  pub calls : List (ℕ × Call)

-- server::server; the acceptor listens on port 4321
unfoldable pub server : Server
server = record {
  connections = [];
  ec = success;
  accepts = 0;
  cancels = 0;
  created = 0;
  calls = [];
}

abbrev initiate_accept : Server → Server
initiate_accept s = record s { accepts = s.accepts + 1 }

unfoldable pub handle_run : Server → Server
handle_run s = initiate_accept (record s { ec = success })

-- The messages for a new connection from `ep`, the `n`th in the table.
abbrev pub greetings : Endpoint → ℕ → List Text
greetings ep n =
    codes "Welcome to my websocket server!\n"
    ∷ (codes "You are visitor number " ++ (to_string n ++ codes "\n"))
    ∷ (codes "You connected from "
        ++ (ep.address ++ (codes ":" ++ (to_string ep.port ++ codes "\n"))))
    ∷ codes "Be good!\n"
    ∷ []

abbrev pub send_all : ℕ → List Text → List (ℕ × Call)
send_all p [] = []
send_all p (m ∷ ms) = (p, sends m) ∷ send_all p ms

-- The completion of async_accept with `ec` and a socket whose remote endpoint is `ep`. An exception of
-- remote_endpoint, which would end the io_context and with it every run, is left out.
unfoldable pub handle_accept : Server → ErrorCode → Endpoint → Server
handle_accept s ec ep =
    if is_error s.ec
    then s
    else if is_connection_aborted ec
    then initiate_accept s
    else if is_operation_aborted ec
    then s
    else if is_error ec
    then s
    else (let conn = s.created in
        let connections = assign ep conn s.connections in
        record (initiate_accept s) {
          created = suc s.created;
          connections = connections;
          calls = s.calls ++ ((conn, runs) ∷ send_all conn (greetings ep (length connections)));
        })

-- The loop of handle_stop: `alive p` says whether the weak pointer to `p` can be locked.
abbrev pub stop_all : (ℕ → Bool) → Table → List (ℕ × Call)
stop_all alive [] = []
stop_all alive ((ep, p) ∷ t) =
    let rest = stop_all alive t in if alive p then (p, stops) ∷ rest else rest

unfoldable pub handle_stop : (ℕ → Bool) → Server → Server
handle_stop alive s = record s {
  ec = operation_aborted;
  cancels = s.cancels + 1;
  calls = s.calls ++ stop_all alive s.connections;
  connections = [];
}

-- app of app.cpp: the server, and the waits on signals_ that have not completed
pub record App : Type 0 where
  pub server : Server
  pub signal_waits : ℕ

unfoldable pub app_handle_run : App → App
unfolding handle_run
app_handle_run a = record { server = handle_run a.server; signal_waits = a.signal_waits + 1 }

-- The function passed to signals_.async_wait.
unfoldable pub handle_signal : (ℕ → Bool) → App → ErrorCode → App
unfolding handle_stop
handle_signal alive a ec =
    let a' : App = record a { signal_waits = a.signal_waits - 1 } in
    if not (is_error ec) then record a' { server = handle_stop alive a'.server } else a'
