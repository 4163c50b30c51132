-- ===== src/EchoLoop.antt =====
-- A connection of pre-cxx20/echo_server and one of pre-cxx20/chatterbox, joined by their websocket. A
-- message that is being written goes out whole, or its write fails: its write succeeds after it has gone
-- out, and does not fail then. Messages that have gone out arrive in order, if at all.
pub mod Ends
pub mod Conserves
mod Tests
use boost_beast_websocket_ec.Prelude.{
  empty, ltb, take, ◌≡◌, Bool, true, false, ◌&&◌, not, List, [], ◌∷◌, ◌++◌, success, is_error,
  Outcome, done, ◌>>=◌,
}
use boost_beast_websocket_ec.Prelude.Text.{Text}
use boost_beast_websocket_ec.EchoServer.Connection as Server
use boost_beast_websocket_ec.EchoServer.Connection.Steps as ServerSteps
use boost_beast_websocket_ec.EchoServer.Connection.Sending as ServerSending
use boost_beast_websocket_ec.Chatterbox.Connection as Client
use boost_beast_websocket_ec.Chatterbox.Connection.Steps as ClientSteps
use boost_beast_websocket_ec.Chatterbox.Connection.Sending as ClientSending

pub record Loop : Type 0 where
  pub server : Server.Connection
  pub client : Client.Connection
  -- the messages on their way to the client, and to the server
  pub down : List Text
  pub up : List Text
  -- the message that the server is writing has gone out, and the one that the client is
  pub server_gone : Bool
  pub client_gone : Bool

-- An event of one end that is not the arrival of a message, an arrival, or that the message which an
-- end is writing goes out.
pub data Event : Type 0 where
  at_server : ServerSteps.Event → Event
  at_client : ClientSteps.Event → Event
  arrives_down arrives_up goes_down goes_up : Event

-- The client's program sends nothing but echoes.
abbrev pub is_own_server : ServerSteps.Event → Bool
is_own_server (ServerSteps.received ec bytes) = is_error ec
is_own_server _ = true

abbrev pub is_own_client : ClientSteps.Event → Bool
is_own_client (ClientSteps.received ec bytes) = is_error ec
is_own_client (ClientSteps.sends m) = false
is_own_client _ = true

pub serve : Loop → ServerSteps.Event → Outcome Loop
unfolding ServerSteps.step
serve l e = do
  s ← ServerSteps.step l.server e
  done (record l { server = s; server_gone = ServerSending.still_gone l.server_gone e })

pub visit : Loop → ClientSteps.Event → Outcome Loop
unfolding ClientSteps.step
visit l e = do
  c ← ClientSteps.step l.client e
  done (record l { client = c; client_gone = ClientSending.still_gone l.client_gone e })

-- The first message on its way completes a read.
pub arrive_down : List Text → Loop → Outcome Loop
unfolding visit
arrive_down [] l = done l
arrive_down (m ∷ ms) l = visit (record l { down = ms }) (ClientSteps.received success m)

pub arrive_up : List Text → Loop → Outcome Loop
unfolding serve
arrive_up [] l = done l
arrive_up (m ∷ ms) l = serve (record l { up = ms }) (ServerSteps.received success m)

unfoldable pub step : Loop → Event → Outcome Loop
unfolding serve visit arrive_down arrive_up
step l (at_server e) = serve l e
step l (at_client e) = visit l e
step l arrives_down = arrive_down l.down l
step l arrives_up = arrive_up l.up l
step l goes_down = done (record l { down = l.down ++ l.server.writes; server_gone = true })
step l goes_up = done (record l { up = l.up ++ l.client.writes; client_gone = true })

abbrev pub enabled : Loop → Event → Bool
enabled l (at_server e) =
    is_own_server e && ServerSteps.enabled l.server e && ServerSending.tells l.server_gone e
enabled l (at_client e) =
    is_own_client e && ClientSteps.enabled l.client e && ClientSending.tells l.client_gone e
enabled l arrives_down = not (empty l.down) && ltb 0 l.client.reads
enabled l arrives_up = not (empty l.up) && ltb 0 l.server.reads
enabled l goes_down = not (empty l.server.writes) && not l.server_gone
enabled l goes_up = not (empty l.client.writes) && not l.client_gone

-- The messages that an event queues at the server, and those that come back to it.
abbrev pub sent : Loop → Event → List Text
sent l (at_server e) = ServerSteps.queued l.server e
sent l (at_client e) = []
sent l arrives_down = []
sent l arrives_up = take 1 l.up
sent l goes_down = []
sent l goes_up = []

abbrev pub returned : Loop → Event → List Text
returned l (at_server e) = []
returned l (at_client e) = []
returned l arrives_down = []
returned l arrives_up = take 1 l.up
returned l goes_down = []
returned l goes_up = []

-- The states that any order of events leads to with no failed assertion. Its indices: all messages
-- queued at the server, and all that came back to it.
pub data Reach : List Text → List Text → Loop → Type 0 where
  start :
      (s : Server.Connection)
      → Server.handle_run Server.connection_impl ≡ done s
      → Reach [] [] (record {
        server = s;
        client = Client.handle_run Client.connection_impl;
        down = [];
        up = [];
        server_gone = false;
        client_gone = false;
      })
  next :
      {qs bs : List Text} {l : Loop} (e : Event) (l' : Loop)
      → Reach qs bs l
      → enabled l e ≡ true
      → step l e ≡ done l'
      → Reach (qs ++ sent l e) (bs ++ returned l e) l'
