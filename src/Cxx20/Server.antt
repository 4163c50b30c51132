-- ===== src/Cxx20/Server.antt =====
-- cxx20/server.hpp and server.cpp, and app.cpp above them. The coroutine handle_run is resumed when its
-- accept completes. What it says to a connection is word for word what the server of
-- pre-cxx20/echo_server says, so the calls on connections and the greetings are taken from there.
pub mod Laws
mod Tests
use boost_beast_websocket_ec.Prelude.{
  ℕ, suc, ◌+◌, ◌-◌, Bool, true, false, not, List, [], ◌∷◌, ◌++◌, ErrorCode, success,
  operation_aborted, is_error, is_connection_aborted, if◌then◌else◌, length,
}
use boost_beast_websocket_ec.Prelude.Endpoint.{Endpoint}
use boost_beast_websocket_ec.Prelude.Table.{Table, assign}
use boost_beast_websocket_ec.EchoServer.Server.{Call, runs, greetings, send_all, stop_all}

-- server: `accepts` counts the operations on acceptor_ that have not completed, and `cancels` the
-- calls of its cancel; `created` counts the connections made, which are numbered in that order.
pub record Server : Type 0 where
  pub connections : Table
  pub ec : ErrorCode
  pub accepts : ℕ
  pub cancels : ℕ
  pub created : ℕ
  pub calls : List (ℕ × Call)

-- server::server
unfoldable pub server : Server
server = record {
  connections = [];
  ec = success;
  accepts = 0;
  cancels = 0;
  created = 0;
  calls = [];
}

-- What an accept comes to: an error, a socket whose remote_endpoint throws an error, or a socket with
-- its remote endpoint.
pub data Accepted : Type 0 where
  failed : ErrorCode → Accepted
  lost : ErrorCode → Accepted
  connected : Endpoint → Accepted

-- `while (!ec_)` and the start of async_accept; where the condition fails the coroutine ends
unfoldable pub accept_next : Server → Server
accept_next s = if not (is_error s.ec) then record s { accepts = s.accepts + 1 } else s

-- the coroutine that server::run spawns
unfoldable pub handle_run : Server → Server
unfolding accept_next
handle_run s = accept_next s

-- the `catch` of the loop; an error that is thrown on ends the coroutine, which is detached
unfoldable pub caught : Server → ErrorCode → Server
unfolding accept_next
caught s ec = if not (is_connection_aborted ec) then s else accept_next s

-- the body of the loop after async_accept
unfoldable pub serve : Server → Endpoint → Server
unfolding accept_next
serve s ep =
    let conn = s.created in
    let connections = assign ep conn s.connections in
    accept_next (record s {
      created = suc s.created;
      connections = connections;
      calls = s.calls ++ ((conn, runs) ∷ send_all conn (greetings ep (length connections)));
    })

unfoldable pub accepted : Server → Accepted → Server
unfolding caught serve
accepted s (failed ec) = caught s ec
accepted s (lost ec) = caught s ec
accepted s (connected ep) = serve s ep

-- `alive p` says whether the weak pointer to `p` can be locked.
unfoldable pub handle_stop : (ℕ → Bool) → Server → Server
handle_stop alive s = record s {
  ec = operation_aborted;
  cancels = s.cancels + 1;
  calls = s.calls ++ stop_all alive s.connections;
  connections = [];
}

-- app of app.cpp: the server, and the waits on signals_ that have not completed
pub record App : Type 0 where
  pub server : Server
  pub signal_waits : ℕ

unfoldable pub app_handle_run : App → App
unfolding handle_run
app_handle_run a = record { server = handle_run a.server; signal_waits = a.signal_waits + 1 }

-- The function passed to signals_.async_wait.
unfoldable pub handle_signal : (ℕ → Bool) → App → ErrorCode → App
unfolding handle_stop
handle_signal alive a ec =
    let a' : App = record a { signal_waits = a.signal_waits - 1 } in
    if not (is_error ec) then record a' { server = handle_stop alive a'.server } else a'
