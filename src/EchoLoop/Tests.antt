-- ===== src/EchoLoop/Tests.antt =====
-- A greeting that goes once round.
use boost_beast_websocket_ec.Prelude.{
  false, ◌≡◌, refl, List, [], ◌∷◌, ◌++◌, success, fault, Outcome, done, assert_failed,
}
use boost_beast_websocket_ec.Prelude.Text.{Text, codes}
use boost_beast_websocket_ec.EchoServer.Connection as Server
use boost_beast_websocket_ec.EchoServer.Connection.Steps as ServerSteps
use boost_beast_websocket_ec.Chatterbox.Connection as Client
use boost_beast_websocket_ec.Chatterbox.Connection.Steps as ClientSteps
use boost_beast_websocket_ec.EchoLoop.{
  Loop, Event, at_server, at_client, arrives_down, arrives_up, goes_down, goes_up, step, Reach,
  start, next,
}
use boost_beast_websocket_ec.EchoLoop.Ends.{outstanding}
use boost_beast_websocket_ec.EchoLoop.Conserves.{loop_in_order}

abbrev hello : Text
hello = codes "hello"

abbrev result : Outcome Server.Connection → Server.Connection
result (done c) = c
result assert_failed = Server.connection_impl

abbrev loop_result : Outcome Loop → Loop → Loop
loop_result (done l) old = l
loop_result assert_failed old = old

first : Loop
unfolding Server.handle_run Server.connection_impl Client.handle_run Client.connection_impl
first = record {
  server = result (Server.handle_run Server.connection_impl);
  client = Client.handle_run Client.connection_impl;
  down = [];
  up = [];
  server_gone = false;
  client_gone = false;
}

runs : Loop → List Event → Loop
unfolding step Server.handle_send Server.handle_accept Server.handle_rx Server.handle_tx
    Client.handle_connect Client.handle_handshake Client.handle_rx
runs l [] = l
runs l (e ∷ es) = runs (loop_result (step l e) l) es

-- It is written by the client, and on its way back.
half : Loop
unfolding first runs
half = runs first (
    at_server (ServerSteps.sends hello)
    ∷ at_server (ServerSteps.accepted success)
    ∷ at_client (ClientSteps.connected success)
    ∷ at_client (ClientSteps.shaken success)
    ∷ goes_down
    ∷ arrives_down
    ∷ goes_up
    ∷ [])

half_up : half.up ≡ hello ∷ []
unfolding half
half_up = refl

half-Reach : Reach (hello ∷ []) [] half
unfolding half step
half-Reach =
    next goes_up _
      (next arrives_down _
        (next goes_down _
          (next (at_client (ClientSteps.shaken success)) _
            (next (at_client (ClientSteps.connected success)) _
              (next (at_server (ServerSteps.accepted success)) _
                (next (at_server (ServerSteps.sends hello)) _ (start first.server refl) refl refl)
                refl refl)
              refl refl)
            refl refl)
          refl refl)
        refl refl)
      refl refl

whole : Loop
unfolding half
whole = runs half (arrives_up ∷ [])

whole-Reach : Reach (hello ∷ (hello ∷ [])) (hello ∷ []) whole
unfolding whole
whole-Reach = next arrives_up _ half-Reach refl refl

loop_in_order_example : hello ∷ (hello ∷ []) ≡ (hello ∷ []) ++ outstanding whole
loop_in_order_example = loop_in_order whole-Reach

-- The server's second write fails: its message stays with the server, and nothing follows it.
failed : Loop
unfolding half
failed = runs half (
    at_server (ServerSteps.wrote success)
    ∷ at_server (ServerSteps.sends hello)
    ∷ at_server (ServerSteps.wrote fault)
    ∷ at_server (ServerSteps.sends hello)
    ∷ [])

failed_held : (failed.server.tx_queue ≡ hello ∷ (hello ∷ [])) × (failed.server.writes ≡ [])
unfolding failed
failed_held = (refl, refl)
