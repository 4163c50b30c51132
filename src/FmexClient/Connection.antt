-- ===== src/FmexClient/Connection.antt =====
-- pre-cxx20/fmex_client/connection_base.hpp and connection_base.cpp, connect_transport_op.hpp, and the class
-- derived in fmex_connection.hpp. One record holds the members of both classes and of the state_data of
-- connect_transport_op. The JSON library is a parameter: what a frame reads as, and the text of the
-- frames that are sent.
pub mod Steps
pub mod Invariant
pub mod Safety
mod Tests
use boost_beast_websocket_ec.Prelude.{
  ℕ, ◌+◌, Bool, true, false, not, Option, none, some, List, [], ◌∷◌, ◌++◌, ErrorCode, success,
  fault, is_error, Outcome, done, assert_failed, require, ◌>>=◌, ◌>>◌, if◌then◌else◌, empty,
  pop_front,
}
use boost_beast_websocket_ec.Prelude.Text.{Text}
use boost_beast_websocket_ec.FmexClient.StopRegister
use boost_beast_websocket_ec.FmexClient.StopRegister.{
  StopRegister, StopToken, stop_register, no_token, register, notify_all,
}

pub data SendState : Type 0 where
  send_idle send_sending : SendState

abbrev pub is_idle : SendState → Bool
is_idle send_idle = true
is_idle send_sending = false

pub data PingState : Type 0 where
  ping_not_active ping_waiting_timer ping_exited : PingState

abbrev pub is_not_active : PingState → Bool
is_not_active ping_not_active = true
is_not_active ping_waiting_timer = false
is_not_active ping_exited = false

-- The functions that are added to stop_register_.
pub data Stop : Type 0 where
  cancel_resolver cancel_socket initiates_close : Stop

-- Where connect_transport_op goes on when the operation that it has begun completes.
pub data Stage : Type 0 where
  resolving connecting ssl_handshaking websocket_handshaking : Stage

-- What json::parse and the look-ups in the frame give: a frame of a type, or an exception.
pub data Parsed : Type 0 where
  hello other_type other_exception : Parsed
  system_error : ErrorCode → Parsed

pub record Connection : Type 0 where
  pub buffer : Text
  pub tx_queue : List Text
  pub send_state : SendState
  pub stop_register : StopRegister Stop
  pub my_stop_token : StopToken
  pub ping_state : PingState
  -- the operation of connect_transport_op that is going on, and the token in its state_data
  pub stage : Option Stage
  pub op_token : StopToken
  -- reads, frames being written, waits of ping_timer_ and closes that have not completed
  pub reads : ℕ
  pub writes : List Text
  pub waits : ℕ
  pub closes : ℕ
  -- the calls of cancel on the resolver, the socket and the timer, the closes begun, and the errors
  -- that on_error was called with
  pub resolver_cancels : ℕ
  pub socket_cancels : ℕ
  pub timer_cancels : ℕ
  pub closes_begun : ℕ
  pub errors : List ErrorCode

-- ConnectionBase::ConnectionBase and ExchangeConnection::ExchangeConnection
unfoldable pub exchange_connection : Connection
exchange_connection = record {
  buffer = [];
  tx_queue = [];
  send_state = send_idle;
  stop_register = stop_register;
  my_stop_token = no_token;
  ping_state = ping_not_active;
  stage = none;
  op_token = no_token;
  reads = 0;
  writes = [];
  waits = 0;
  closes = 0;
  resolver_cancels = 0;
  socket_cancels = 0;
  timer_cancels = 0;
  closes_begun = 0;
  errors = [];
}

-- state.stop_token_ = state.stop_register_.add(…)
unfoldable pub register_op : Connection → Stop → Connection
unfolding register
register_op c f =
    let (t, r) = register c.stop_register c.op_token f in
    record c { op_token = t; stop_register = r }

-- state.stop_token_.reset(), and what destroying state_data does
unfoldable pub reset_op : Connection → Connection
reset_op c =
    let (t, r) = StopRegister.reset c.stop_register c.op_token in
    record c { op_token = t; stop_register = r }

-- ConnectionBase::notify_connect, with the first part of connect_transport_op::operator()
unfoldable pub notify_connect : Connection → Connection
unfolding register_op
notify_connect c = record (register_op c cancel_resolver) { stage = some resolving }

-- the `switch` of ping_stop
ping_stop_in : PingState → Connection → Connection
ping_stop_in ping_not_active c = c
ping_stop_in ping_exited c = c
ping_stop_in ping_waiting_timer c = record c { timer_cancels = c.timer_cancels + 1 }

unfoldable pub ping_stop : Connection → Connection
unfolding ping_stop_in
ping_stop c = record (ping_stop_in c.ping_state c) { ping_state = ping_exited }

unfoldable pub on_error : Connection → ErrorCode → Connection
unfolding ping_stop
on_error c ec = ping_stop (record c { errors = c.errors ++ ec ∷ [] })

-- ConnectionBase::fail; the overload without an error code passes `fault`
unfoldable pub fail : Connection → ErrorCode → Connection
unfolding on_error
fail c ec = on_error c ec

unfoldable pub ping_enter_waiting_state : Connection → Connection
ping_enter_waiting_state c = record c { ping_state = ping_waiting_timer; waits = c.waits + 1 }

-- ping_start, which on_transport_up calls
unfoldable pub ping_start : Connection → Outcome Connection
unfolding ping_enter_waiting_state
ping_start c = do require (is_not_active c.ping_state); done (ping_enter_waiting_state c)

unfoldable pub enter_read_state : Connection → Connection
enter_read_state c = record c { reads = c.reads + 1 }

-- the handler in notify_connect
unfoldable pub connected : Connection → ErrorCode → Outcome Connection
unfolding fail ping_start register enter_read_state
connected c ec = if is_error ec then done (fail c ec) else do
  c' ← ping_start c
  let (t, r) = register c'.stop_register c'.my_stop_token initiates_close
  done (enter_read_state (record c' { my_stop_token = t; stop_register = r }))

-- self.complete(ec): the handler runs, and state_data is destroyed
unfoldable pub complete : Connection → ErrorCode → Outcome Connection
unfolding connected reset_op
complete c ec = do c' ← connected (record c { stage = none }) ec; done (reset_op c')

-- the coroutine goes on; `sni` is the error of SSL_set_tlsext_host_name
resume : Option ErrorCode → Stage → Connection → Outcome Connection
unfolding register_op complete reset_op
resume sni resolving c = done (record (register_op c cancel_socket) { stage = some connecting })
resume sni connecting c = elim sni [
  | some e ↦ complete c e
  | none ↦ done (record c { stage = some ssl_handshaking })
]
resume sni ssl_handshaking c = done (record c { stage = some websocket_handshaking })
resume sni websocket_handshaking c = complete (reset_op c) success

unfoldable pub connect_transport_op :
    Option ErrorCode → Stage → Connection → ErrorCode → Outcome Connection
unfolding resume complete
connect_transport_op sni stage c ec = if is_error ec then complete c ec else resume sni stage c

-- async_write(buffer(tx_queue_.front()), …)
abbrev write_front : Connection → List Text → Connection
write_front c [] = c
write_front c (m ∷ ms) = record c { writes = c.writes ++ m ∷ [] }

unfoldable pub initiate_send : Connection → Outcome Connection
initiate_send c = do
  require (is_idle c.send_state)
  require (not (empty c.tx_queue))
  done (write_front (record c { send_state = send_sending }) c.tx_queue)

unfoldable pub notify_send : Connection → Text → Outcome Connection
unfolding initiate_send
notify_send c frame =
    let c' : Connection = record c { tx_queue = c.tx_queue ++ frame ∷ [] } in
    if is_idle c.send_state then initiate_send c' else done c'

unfoldable pub on_write : Connection → ErrorCode → Outcome Connection
unfolding fail initiate_send
on_write c ec = do
  require (not (empty c.tx_queue))
  let c' : Connection = record c { send_state = send_idle; tx_queue = pop_front c.tx_queue }
  if is_error ec
      then done (fail c' ec)
      else if not (empty c'.tx_queue)
      then initiate_send c'
      else done c'

-- buffer.consume(buffer.size()), and the next read
abbrev pub consumed : Connection → Connection
consumed c = record c { buffer = []; reads = c.reads + 1 }

-- on_text_frame and what follows it in the `try` of on_read, or the handler of its exception
unfoldable pub on_text_frame : Text → Connection → Parsed → Outcome Connection
unfolding notify_send fail on_error
on_text_frame subscribe c hello = do c' ← notify_send c subscribe; done (consumed c')
on_text_frame subscribe c other_type = done (consumed c)
on_text_frame subscribe c (system_error e) = done (on_error (fail c e) e)
on_text_frame subscribe c other_exception = done (on_error (fail c fault) fault)

unfoldable pub on_read : (Text → Parsed) → Text → Connection → ErrorCode → Outcome Connection
unfolding fail on_text_frame
on_read parse subscribe c ec =
    if is_error ec then done (fail c ec) else on_text_frame subscribe c (parse c.buffer)

unfoldable pub initiate_close : Connection → Connection
initiate_close c = record c { closes = c.closes + 1; closes_begun = c.closes_begun + 1 }

unfoldable pub on_close : Connection → ErrorCode → Connection
unfolding fail
on_close c ec = if is_error ec then fail c ec else c

-- What a function of the register does when it is called.
run_stop : Connection → Stop → Connection
unfolding initiate_close
run_stop c cancel_resolver = record c { resolver_cancels = c.resolver_cancels + 1 }
run_stop c cancel_socket = record c { socket_cancels = c.socket_cancels + 1 }
run_stop c initiates_close = initiate_close c

pub run_stops : Connection → List Stop → Connection
unfolding run_stop
run_stops c [] = c
run_stops c (f ∷ fs) = run_stops (run_stop c f) fs

-- ConnectionBase::stop; `order` is the order in which the map is iterated
unfoldable pub stop : (List (ℕ × Stop) → List (ℕ × Stop)) → Connection → Connection
unfolding notify_all run_stops
stop order c =
    let (r, fs) = notify_all order c.stop_register in run_stops (record c { stop_register = r }) fs

-- `frame` is the ping that is sent
unfoldable pub ping_on_timer : Connection → ErrorCode → Text → Outcome Connection
unfolding fail notify_send ping_enter_waiting_state
ping_on_timer c ec frame =
    if is_error ec
    then done (fail (record c { ping_state = ping_exited }) ec)
    else do c' ← notify_send c frame; done (ping_enter_waiting_state c')
