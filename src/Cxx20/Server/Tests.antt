-- ===== src/Cxx20/Server/Tests.antt =====
-- A server with one visitor, and its theorems.
use boost_beast_websocket_ec.Prelude.{
  ℕ, ◌≡◌, refl, Bool, true, List, [], ◌∷◌, ◌++◌, success, is_error, length, some, other,
  connection_aborted,
}
use boost_beast_websocket_ec.Prelude.Text.{codes}
use boost_beast_websocket_ec.Prelude.Endpoint.{Endpoint}
use boost_beast_websocket_ec.Prelude.Table.{lookup}
use boost_beast_websocket_ec.EchoServer.Server as Echo
use boost_beast_websocket_ec.EchoServer.Server.{runs, greetings, send_all}
use boost_beast_websocket_ec.Cxx20.Server.{
  Server, server, lost, connected, handle_run, accepted, handle_stop, app_handle_run, handle_signal,
}
use boost_beast_websocket_ec.Cxx20.Server.Laws.{
  accepts, stopped, step, Reach, start, next, here, lost_client_ends, late_accept_serves,
  as_callbacks, Result, error, socket, coroutine_run, callback_run, same_as_callbacks,
}

abbrev home : ℕ → Endpoint
home port = record { address = codes "127.0.0.1"; port = port }

abbrev everyone : ℕ → Bool
everyone p = true

visited : Server
unfolding step handle_run server
visited = step (handle_run server) (accepts (connected (home 5000)))

visited-Reach : Reach visited
unfolding visited
visited-Reach = next (accepts (connected (home 5000))) start refl

stopped_server : Server
unfolding step
stopped_server = step visited (stopped everyone)

stopped-Reach : Reach stopped_server
unfolding stopped_server
stopped-Reach = next (stopped everyone) visited-Reach refl

lost_client_ends_example :
    let s' = step visited (accepts (lost (other 107))) in
    (s'.ec ≡ visited.ec) × (s'.connections ≡ visited.connections) × (s'.accepts ≡ 0)
unfolding visited accepted
lost_client_ends_example = lost_client_ends (other 107) visited-Reach refl refl here

late_accept_serves_case :
    let s' = step stopped_server (accepts (connected (home 5001))) in
    (lookup (home 5001) s'.connections ≡ some 1)
    × (s'.calls
        ≡ stopped_server.calls
          ++ (1, runs) ∷ send_all 1 (greetings (home 5001) (length s'.connections)))
    × (s'.accepts ≡ 0)
unfolding stopped_server visited accepted handle_stop
late_accept_serves_case = late_accept_serves (home 5001) stopped-Reach refl refl

abbrev results : List Result
results = error connection_aborted ∷ socket (home 5000) ∷ []

same_as_callbacks_example :
    (as_callbacks (coroutine_run (handle_run server) results)
      ≡ callback_run (home 0) (Echo.handle_run Echo.server) results)
    × (as_callbacks (handle_stop everyone (coroutine_run (handle_run server) results))
        ≡ Echo.handle_stop everyone (callback_run (home 0) (Echo.handle_run Echo.server) results))
same_as_callbacks_example = same_as_callbacks (home 0) everyone results (refl, (refl, tt))

-- The application starts the server, and a signal stops it.
signalled :
    let a = app_handle_run (record { server = server; signal_waits = 0 }) in
    let b = handle_signal everyone a success in
    (a.server.accepts ≡ 1) × (is_error b.server.ec ≡ true) × (b.signal_waits ≡ 0)
unfolding app_handle_run server handle_signal
signalled = (refl, refl, refl)
