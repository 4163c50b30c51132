-- ===== src/EchoServer/System/Tests.antt =====
-- A visitor comes up, and the server is stopped.
use boost_beast_websocket_ec.Prelude.{
  ℕ, ◌-◌, ◌≡◌, refl, Bool, true, some, success, is_error, length, done, assert_failed, Returns,
  arith,
}
use boost_beast_websocket_ec.Prelude.Text.{codes}
use boost_beast_websocket_ec.Prelude.Endpoint.{Endpoint}
use boost_beast_websocket_ec.Prelude.Table.{lookup, assign}
use boost_beast_websocket_ec.EchoServer.Connection.{
  Connection, closing, handle_run, handle_send, connection_impl, handle_stop,
}
use boost_beast_websocket_ec.EchoServer.Server
use boost_beast_websocket_ec.EchoServer.Server.Laws as ServerLaws
use boost_beast_websocket_ec.EchoServer.System.{
  System, peer_at, server_goes, performs, serve, step, perform_first, Event, Leads, stays, goes,
  started,
}
use boost_beast_websocket_ec.EchoServer.System.Embeds.{Embeds}
use boost_beast_websocket_ec.EchoServer.System.Performs.{system_safe}
use boost_beast_websocket_ec.EchoServer.System.Stops.{stop_closes}

-- The system after an event, or as it is if an assertion fails.
after : System → Event → System
after x e = elim (step x e) [ assert_failed ↦ x | done z ↦ z ]

abbrev home : Endpoint
home = record { address = codes "127.0.0.1"; port = 5000 }

abbrev everyone : ℕ → Bool
everyone p = true

visited : System
unfolding after started step serve ServerLaws.step Server.handle_accept Server.handle_run
    Server.server
visited = after started (server_goes (ServerLaws.accepted success home))

visited-Leads : Leads started visited
unfolding visited
visited-Leads = goes (server_goes (ServerLaws.accepted success home)) visited stays refl refl

-- The connection is run, and a greeting is queued.
greeted : System
unfolding visited perform_first ServerLaws.perform handle_run handle_send connection_impl
greeted = after (after visited performs) performs

greeted-Leads : Leads started greeted
unfolding greeted
greeted-Leads = goes performs greeted (goes performs _ visited-Leads refl refl) refl refl

system_safe_example :
    Embeds greeted
    × Returns (λ z. length z.pending ≡ length greeted.pending - 1) (step greeted performs)
system_safe_example = system_safe greeted-Leads

-- The server is stopped, and the calls that are pending are performed.
stopped : System
unfolding greeted serve ServerLaws.step Server.handle_stop assign lookup
stopped = serve greeted (ServerLaws.stopped everyone)

over : System
unfolding stopped handle_stop step perform_first ServerLaws.perform
over = after (after (after (after stopped performs) performs) performs) performs

over-Leads : Leads stopped over
unfolding over
over-Leads =
    goes performs over
      (goes performs _ (goes performs _ (goes performs _ stays refl refl) refl refl) refl refl) refl
      refl

stop_closes_example :
    (c : Connection) × ((peer_at 0 over.peers ≡ some c)
      × (c.state ≡ closing)
      × (is_error c.ec ≡ true))
unfolding over assign lookup
stop_closes_example = stop_closes 0 everyone greeted-Leads refl (omega arith) over-Leads refl
