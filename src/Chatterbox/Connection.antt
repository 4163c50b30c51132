-- ===== src/Chatterbox/Connection.antt =====
-- pre-cxx20/chatterbox/connection.hpp and connection.cpp. A handler takes the connection and gives the
-- connection that it leaves, or `assert_failed`. Operations that it starts on stream_ are counted in
-- the last fields until they complete. delay_timer_ is used by no function of the class.
pub mod Steps
pub mod Invariant
pub mod Safety
pub mod Sending
mod Tests
use boost_beast_websocket_ec.Prelude.{
  ℕ, ◌+◌, Bool, true, false, ◌||◌, not, List, [], ◌∷◌, ◌++◌, ErrorCode, success, operation_aborted,
  is_error, Outcome, done, require, ◌>>=◌, ◌>>◌, if◌then◌else◌, empty, pop_front, length, drop,
}
use boost_beast_websocket_ec.Prelude.Text.{Text}

pub data State : Type 0 where
  handshaking chatting : State

abbrev pub is_chatting : State → Bool
is_chatting handshaking = false
is_chatting chatting = true

pub data SendingState : Type 0 where
  send_idle sending : SendingState

abbrev pub is_sending : SendingState → Bool
is_sending send_idle = false
is_sending sending = true

-- connection_impl
pub record Connection : Type 0 where
  pub rxbuffer : Text
  pub tx_queue : List Text
  pub ec : ErrorCode
  pub state : State
  pub sending_state : SendingState
  -- stream_: connects, handshakes and reads that have not completed, the buffers being written, the
  -- close handshakes begun with going_away, and the calls of cancel on the socket
  pub connects : ℕ
  pub handshakes : ℕ
  pub reads : ℕ
  pub writes : List Text
  pub closes : ℕ
  pub cancels : ℕ

-- connection_impl::connection_impl
unfoldable pub connection_impl : Connection
connection_impl = record {
  rxbuffer = [];
  tx_queue = [];
  ec = success;
  state = handshaking;
  sending_state = send_idle;
  connects = 0;
  handshakes = 0;
  reads = 0;
  writes = [];
  closes = 0;
  cancels = 0;
}

unfoldable pub handle_run : Connection → Connection
handle_run c = record c { connects = c.connects + 1 }

unfoldable pub initiate_handshake : Connection → Connection
initiate_handshake c = record c { handshakes = c.handshakes + 1 }

unfoldable pub handle_connect : Connection → ErrorCode → Connection
unfolding initiate_handshake
handle_connect c ec = if not (is_error ec) then initiate_handshake c else c

unfoldable pub initiate_rx : Connection → Outcome Connection
initiate_rx c = do
  require (is_chatting c.state)
  require (not (is_error c.ec))
  done (record c { reads = c.reads + 1 })

-- async_write(net::buffer(tx_queue_.front()), …)
abbrev write_front : Connection → List Text → Connection
write_front c [] = c
write_front c (m ∷ ms) = record c { writes = c.writes ++ m ∷ [] }

unfoldable pub initiate_tx : Connection → Outcome Connection
initiate_tx c = do
  require (not (is_sending c.sending_state))
  require (not (is_error c.ec))
  require (not (empty c.tx_queue))
  done (write_front (record c { sending_state = sending }) c.tx_queue)

unfoldable pub maybe_send_next : Connection → Outcome Connection
unfolding initiate_tx
maybe_send_next c =
    if is_error c.ec || not (is_chatting c.state) || is_sending c.sending_state || empty c.tx_queue
    then done c
    else initiate_tx c

unfoldable pub handle_handshake : Connection → ErrorCode → Outcome Connection
unfolding initiate_rx maybe_send_next
handle_handshake c ec =
    if is_error c.ec
    then done c
    else if is_error ec
    then done c
    else do c' ← initiate_rx (record c { state = chatting }); maybe_send_next c'

-- the branches of handle_stop on state_
abbrev close_stream : State → Connection → Connection
close_stream handshaking c = record c { cancels = c.cancels + 1 }
close_stream chatting c = record c { closes = c.closes + 1 }

unfoldable pub handle_stop : Connection → Connection
handle_stop c = close_stream c.state (record c { ec = operation_aborted })

-- The function that send dispatches.
unfoldable pub send : Connection → Text → Outcome Connection
unfolding maybe_send_next
send c msg = maybe_send_next (record c { tx_queue = c.tx_queue ++ msg ∷ [] })

-- The call of send runs at once: this handler is on the executor that it dispatches to.
unfoldable pub handle_rx : Connection → ErrorCode → Outcome Connection
unfolding initiate_rx send
handle_rx c ec = if is_error ec then done c else do
  let message = c.rxbuffer
  c' ← initiate_rx (record c { rxbuffer = drop (length message) c.rxbuffer })
  send c' message

unfoldable pub handle_tx : Connection → ErrorCode → Outcome Connection
unfolding maybe_send_next
handle_tx c ec =
    if is_error ec
    then done c
    else maybe_send_next (record c { tx_queue = pop_front c.tx_queue; sending_state = send_idle })
