-- ===== src/EchoServer/Connection.antt =====
-- pre-cxx20/echo_server/connection.hpp and connection.cpp. A handler takes the connection and gives
-- the connection that it leaves, or `assert_failed`. Operations that it starts on stream_ and
-- session_timer_ are counted in the last fields until they complete.
pub mod Steps
pub mod Invariant
pub mod Safety
pub mod Sending
mod Tests
use boost_beast_websocket_ec.Prelude.{
  ℕ, ◌+◌, ◌-◌, min, Bool, true, false, ◌&&◌, ◌||◌, not, List, [], ◌∷◌, ◌++◌, ErrorCode, success,
  operation_aborted, is_error, Outcome, done, require, ◌>>=◌, ◌>>◌, if◌then◌else◌, ◌==◌, empty,
  pop_front, length, drop,
}
use boost_beast_websocket_ec.Prelude.Text.{Text, codes, to_string}

pub data State : Type 0 where
  handshaking chatting closing : State

abbrev pub is_chatting : State → Bool
is_chatting handshaking = false
is_chatting chatting = true
is_chatting closing = false

pub data SendingState : Type 0 where
  send_idle sending : SendingState

abbrev pub is_sending : SendingState → Bool
is_sending send_idle = false
is_sending sending = true

-- websocket::close_reason with close_code::going_away
pub data CloseReason : Type 0 where
  going_away : Text → CloseReason

-- connection_impl
pub record Connection : Type 0 where
  pub time_remaining : ℕ
  pub rxbuffer : Text
  pub tx_queue : List Text
  pub ec : ErrorCode
  pub state : State
  pub sending_state : SendingState
  -- stream_: accepts and reads that have not completed, the buffers being written, the close
  -- handshakes begun, and whether the socket below is open
  pub accepts : ℕ
  pub reads : ℕ
  pub writes : List Text
  pub closes : List CloseReason
  pub socket_open : Bool
  -- session_timer_: waits that have not completed, the last expiry, and the calls of cancel
  pub waits : ℕ
  pub expiry : ℕ
  pub cancels : ℕ

-- connection_impl::connection_impl
unfoldable pub connection_impl : Connection
connection_impl = record {
  time_remaining = 30;
  rxbuffer = [];
  tx_queue = [];
  ec = success;
  state = handshaking;
  sending_state = send_idle;
  accepts = 0;
  reads = 0;
  writes = [];
  closes = [];
  socket_open = true;
  waits = 0;
  expiry = 0;
  cancels = 0;
}

unfoldable pub initiate_timer : Connection → Outcome Connection
initiate_timer c = do
  require (not (c.time_remaining == 0))
  let delta = min c.time_remaining 5
  done (record c { time_remaining = c.time_remaining - delta; expiry = delta; waits = c.waits + 1 })

unfoldable pub handle_run : Connection → Outcome Connection
unfolding initiate_timer
handle_run c = initiate_timer (record c { accepts = c.accepts + 1 })

unfoldable pub initiate_rx : Connection → Outcome Connection
initiate_rx c = do
  require (is_chatting c.state)
  require (not (is_error c.ec))
  done (record c { reads = c.reads + 1 })

-- async_write(net::buffer(tx_queue_.front()), …)
abbrev write_front : Connection → List Text → Connection
write_front c [] = c
write_front c (m ∷ ms) = record c { writes = c.writes ++ m ∷ [] }

unfoldable pub initiate_tx : Connection → Outcome Connection
initiate_tx c = do
  require (not (is_sending c.sending_state))
  require (not (is_error c.ec))
  require (not (empty c.tx_queue))
  done (write_front (record c { sending_state = sending }) c.tx_queue)

unfoldable pub maybe_send_next : Connection → Outcome Connection
unfolding initiate_tx
maybe_send_next c =
    if is_error c.ec || not (is_chatting c.state) || is_sending c.sending_state || empty c.tx_queue
    then done c
    else initiate_tx c

unfoldable pub handle_accept : Connection → ErrorCode → Outcome Connection
unfolding initiate_rx maybe_send_next
handle_accept c ec =
    if is_error c.ec
    then done c
    else if is_error ec
    then done c
    else do c' ← initiate_rx (record c { state = chatting }); maybe_send_next c'

unfoldable pub handle_send : Connection → Text → Outcome Connection
unfolding maybe_send_next
handle_send c msg = maybe_send_next (record c { tx_queue = c.tx_queue ++ msg ∷ [] })

-- The call of send runs at once: this handler is on the executor that it dispatches to.
unfoldable pub handle_rx : Connection → ErrorCode → Outcome Connection
unfolding initiate_rx handle_send
handle_rx c ec = if is_error ec then done c else do
  let message = c.rxbuffer
  c' ← initiate_rx (record c { rxbuffer = drop (length message) c.rxbuffer })
  handle_send c' message

unfoldable pub handle_tx : Connection → ErrorCode → Outcome Connection
unfolding maybe_send_next
handle_tx c ec =
    if is_error ec
    then done c
    else maybe_send_next (record c { tx_queue = pop_front c.tx_queue; sending_state = send_idle })

-- the branches of handle_stop on state_
abbrev close_stream : State → CloseReason → Connection → Connection
close_stream handshaking reason c = record c { socket_open = false }
close_stream chatting reason c = record c { closes = c.closes ++ reason ∷ [] }
close_stream closing reason c = c

unfoldable pub handle_stop : Connection → CloseReason → Connection
handle_stop c reason =
    let c' : Connection = record c { ec = operation_aborted; cancels = c.cancels + 1 } in
    record (close_stream c.state reason c') { state = closing }

abbrev pub seconds_remaining : ℕ → Text
seconds_remaining n = to_string n ++ codes " seconds remaining"

abbrev pub timed_out : CloseReason
timed_out = going_away (codes "session timed out")

unfoldable pub handle_timer : Connection → Outcome Connection
unfolding handle_send initiate_timer handle_stop
handle_timer c =
    if is_error c.ec
    then done c
    else if not (c.time_remaining == 0)
    then (do c' ← handle_send c (seconds_remaining c.time_remaining); initiate_timer c')
    else done (handle_stop c timed_out)
