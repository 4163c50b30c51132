-- ===== src/Chatterbox/Connection/Tests.antt =====
-- Runs of a client's connection, and its theorems at them.
use boost_beast_websocket_ec.Prelude.{
  ◌+◌, ◌≤◌, ◌≡◌, refl, ◌↔◌, true, [], ◌∷◌, ◌++◌, success, is_error, done, assert_failed, length,
}
use boost_beast_websocket_ec.Prelude.Text.{Text, codes}
use boost_beast_websocket_ec.Chatterbox.Connection.{
  Connection, connection_impl, handle_run, handle_connect, handle_handshake, handle_stop, send,
  handle_rx, handle_tx,
}
use boost_beast_websocket_ec.Chatterbox.Connection.Steps.{
  stops, connected, shaken, received, wrote, step, is_late_read, Reach, start, next,
}
use boost_beast_websocket_ec.Chatterbox.Connection.Invariant.{IsValid}
use boost_beast_websocket_ec.Chatterbox.Connection.Safety.{
  late_message_asserts, client-IsValid, client_written, each_stop_closes, stopped_quiet,
}

-- The connect and the handshake succeed.
chat : Connection
unfolding handle_run handle_connect connection_impl step handle_handshake
chat =
    elim (step (handle_connect (record connection_impl { connects = 0 }) success)
      (shaken success)) [ assert_failed ↦ connection_impl | done c ↦ c ]

chat-Reach : Reach [] [] 0 chat
unfolding chat
chat-Reach = next (shaken success) _ (next (connected success) _ start refl refl) refl refl

abbrev hello : Text
hello = codes "hello"

-- A message arrives, and its echo is written.
echoed-Reach : Reach (hello ∷ []) (hello ∷ []) 0 chat
unfolding chat handle_rx handle_tx send
echoed-Reach =
    next (wrote success) _ (next (received success hello) _ chat-Reach refl refl) refl refl

-- The connection is stopped twice, and each time the stream is closed.
stopped : Connection
unfolding chat handle_stop
stopped = handle_stop (handle_stop chat)

stopped-Reach : Reach [] [] 2 stopped
unfolding stopped step
stopped-Reach = next stops _ (next stops _ chat-Reach refl refl) refl refl

closed_twice : stopped.closes ≡ 2
unfolding stopped
closed_twice = refl

late_message :
    (step stopped (received success hello) ≡ assert_failed)
    ↔ (is_late_read stopped (received success hello) ≡ true)
unfolding stopped
late_message =
    late_message_asserts stopped (received success hello) (client-IsValid stopped-Reach) refl

client-IsValid_example : IsValid chat
client-IsValid_example = client-IsValid echoed-Reach

echo_written : (hello ∷ []) ++ chat.tx_queue ≡ hello ∷ []
echo_written = client_written echoed-Reach

each_stop_closes_case : stopped.closes + stopped.cancels ≡ 2
each_stop_closes_case = each_stop_closes stopped-Reach

stopped_quiet_case :
    (is_error (handle_stop stopped).ec ≡ true)
    × ((handle_stop stopped).reads ≤ stopped.reads)
    × (length (handle_stop stopped).writes ≤ length stopped.writes)
    × ((handle_stop stopped).state ≡ stopped.state)
unfolding stopped step
stopped_quiet_case = stopped_quiet stopped stops (handle_stop stopped) refl refl
