-- ===== src/Blog/Transport.antt =====
-- pre-cxx20/blog-2020-09/wss_transport.hpp and wss_transport.cpp, with the class derived from it in
-- fmex_connection.hpp and fmex_connection.cpp. One record holds the members of both; operations
-- started and not yet completed are counted in its last fields. The JSON library is a parameter: what
-- a frame reads as, and the text of the frames that are sent.
pub mod Steps
pub mod Laws
mod Tests
use boost_beast_websocket_ec.Prelude.{
  ℕ, suc, ◌+◌, Bool, true, false, ◌&&◌, not, Option, none, some, List, [], ◌∷◌, ◌++◌, ErrorCode,
  success, is_error, Outcome, done, assert_failed, require, ◌>>=◌, ◌>>◌, if◌then◌else◌, empty,
  pop_front, take, drop,
}
use boost_beast_websocket_ec.Prelude.Text.{Text}

pub data State : Type 0 where
  not_started connecting connected closing finished : State

abbrev pub is_connected : State → Bool
is_connected connected = true
is_connected _ = false

pub data SendState : Type 0 where
  not_sending sending : SendState

abbrev pub is_sending : SendState → Bool
is_sending not_sending = false
is_sending sending = true

pub data PingState : Type 0 where
  ping_not_started ping_wait ping_sending ping_waiting_pong ping_finished : PingState

abbrev pub is_ping_not_started : PingState → Bool
is_ping_not_started ping_not_started = true
is_ping_not_started _ = false

-- Where connect_op, a coroutine, goes on when the operation that it has begun completes.
pub data Stage : Type 0 where
  resolving connecting_tcp ssl_handshaking websocket_handshaking : Stage

pub record Fmex : Type 0 where
  pub state : State
  pub send_state : SendState
  pub send_queue : List Text
  pub rx_buffer : Text
  pub ping_state : PingState
  -- the operation of connect_op that is going on, reads, the frames being written, and the waits of
  -- ping_timer_ that have not completed
  pub stage : Option Stage
  pub reads : ℕ
  pub writes : List Text
  pub waits : ℕ
  -- the calls of on_transport_error
  pub errors : ℕ

-- What json::parse and the look-up of "type" give: a frame of a type, or an exception.
pub data Parsed : Type 0 where
  hello ping ticker other_type not_json : Parsed

-- wss_transport::wss_transport and fmex_connection::fmex_connection
unfoldable pub fmex_connection : Fmex
fmex_connection = record {
  state = not_started;
  send_state = not_sending;
  send_queue = [];
  rx_buffer = [];
  ping_state = ping_not_started;
  stage = none;
  reads = 0;
  writes = [];
  waits = 0;
  errors = 0;
}

-- wss_transport::stop, whose body is empty
unfoldable pub stop : Fmex → Fmex
stop c = c

-- `switch (state_)` of initiate_connect; connect_op begins with async_resolve
initiate_connect : State → Fmex → Fmex
initiate_connect not_started c = record c { state = connecting; stage = some resolving }
initiate_connect connecting c = c
initiate_connect connected c = c
initiate_connect closing c = c
initiate_connect finished c = c

-- fmex_connection::on_start
abbrev on_start : Fmex → Fmex
on_start c = initiate_connect c.state c

-- the function dispatched by start
start_in : State → Fmex → Outcome Fmex
unfolding initiate_connect
start_in not_started c = done (on_start c)
start_in connecting c = assert_failed
start_in connected c = assert_failed
start_in closing c = assert_failed
start_in finished c = assert_failed

unfoldable pub start : Fmex → Outcome Fmex
unfolding start_in
start c = start_in c.state c

-- fmex_connection::on_transport_error
abbrev on_transport_error : Fmex → Fmex
on_transport_error c = record c { errors = suc c.errors }

-- the `switch` of event_transport_error
error_in : State → Fmex → Fmex
error_in not_started c = c
error_in connecting c = on_transport_error (record c { state = finished })
error_in connected c = on_transport_error (record c { state = finished })
error_in closing c = on_transport_error (record c { state = finished })
error_in finished c = c

unfoldable pub event_transport_error : Fmex → Fmex
unfolding error_in
event_transport_error c = error_in c.state c

-- async_write(net::buffer(send_queue_.front()), …)
abbrev write_front : Fmex → List Text → Fmex
write_front c [] = c
write_front c (m ∷ ms) = record c { writes = c.writes ++ m ∷ [] }

unfoldable pub start_sending : Fmex → Fmex
start_sending c =
    if is_connected c.state && (not (is_sending c.send_state) && not (empty c.send_queue))
    then write_front (record c { send_state = sending }) c.send_queue
    else c

unfoldable pub send_text_frame : Fmex → Text → Fmex
unfolding start_sending
send_text_frame c frame =
    if not (is_connected c.state)
    then c
    else start_sending (record c { send_queue = c.send_queue ++ frame ∷ [] })

unfoldable pub handle_send : Fmex → ErrorCode → Fmex
unfolding event_transport_error start_sending
handle_send c ec =
    let c' : Fmex = record c { send_state = not_sending; send_queue = pop_front c.send_queue } in
    if is_error ec then event_transport_error c' else start_sending c'

unfoldable pub start_reading : Fmex → Fmex
start_reading c = if not (is_connected c.state) then c else record c { reads = c.reads + 1 }

unfoldable pub ping_enter_wait : Fmex → Fmex
ping_enter_wait c = record c { ping_state = ping_wait; waits = c.waits + 1 }

unfoldable pub ping_enter_state : Fmex → Outcome Fmex
unfolding ping_enter_wait
ping_enter_state c = do require (is_ping_not_started c.ping_state); done (ping_enter_wait c)

-- fmex_connection::on_transport_up
abbrev on_transport_up : Fmex → Outcome Fmex
on_transport_up c = ping_enter_state c

unfoldable pub event_transport_up : Fmex → Outcome Fmex
unfolding ping_enter_state start_sending start_reading
event_transport_up c = do
  c' ← on_transport_up (record c { state = connected })
  done (start_reading (start_sending c'))

-- The handler of initiate_connect.
unfoldable pub connect_complete : Fmex → ErrorCode → Outcome Fmex
unfolding event_transport_error event_transport_up
connect_complete c ec = if is_error ec then done (event_transport_error c) else event_transport_up c

-- connect_op goes on after one of its operations; `sni` is the error of SSL_set_tlsext_host_name.
connect_on : Option ErrorCode → Stage → Fmex → ErrorCode → Outcome Fmex
unfolding connect_complete
connect_on sni resolving c ec = done (record c { stage = some connecting_tcp })
connect_on sni connecting_tcp c ec = elim sni [
  | some e ↦ connect_complete (record c { stage = none }) e
  | none ↦ done (record c { stage = some ssl_handshaking })
]
connect_on sni ssl_handshaking c ec = done (record c { stage = some websocket_handshaking })
connect_on sni websocket_handshaking c ec = connect_complete (record c { stage = none }) ec

-- connect_op::operator(): after an error the coroutine is completed and goes on.
unfoldable pub connect_op : Option ErrorCode → Stage → Fmex → ErrorCode → Outcome Fmex
unfolding connect_on connect_complete
connect_op sni stage c ec = do
  c' ← (if is_error ec then connect_complete c ec else done c)
  connect_on sni stage c' ec

-- ping_event_timeout; `frame` is the ping that is sent
unfoldable pub ping_event_timeout : Fmex → Text → Fmex
unfolding send_text_frame
ping_event_timeout c frame = send_text_frame (record c { ping_state = ping_waiting_pong }) frame

abbrev ping_event_pong : Fmex → Fmex
ping_event_pong c = ping_enter_wait c

-- request_ticker; `frame` is the subscription that is sent
abbrev request_ticker : Fmex → Text → Fmex
request_ticker c frame = send_text_frame c frame

abbrev on_hello : Fmex → Text → Fmex
on_hello c subscribe = request_ticker c subscribe

-- on_text_frame; `none` is the exception thrown on
unfoldable pub on_text_frame : Text → Fmex → Parsed → Option Fmex
unfolding send_text_frame ping_enter_wait
on_text_frame subscribe c hello = some (on_hello c subscribe)
on_text_frame subscribe c ping = some (ping_event_pong c)
on_text_frame subscribe c ticker = some c
on_text_frame subscribe c other_type = some c
on_text_frame subscribe c not_json = none

-- handle_read of a frame of `n` bytes, which is of text or not
unfoldable pub handle_read : (Text → Parsed) → Text → Fmex → ErrorCode → ℕ → Bool → Fmex
unfolding event_transport_error on_text_frame start_reading
handle_read parse subscribe c ec n is_text =
    if is_error ec
    then event_transport_error c
    else (let taken : Option Fmex =
          if is_text then on_text_frame subscribe c (parse (take n c.rx_buffer)) else some c in
        elim taken [
          | none ↦ event_transport_error c
          | some c' ↦ start_reading (record c' { rx_buffer = drop n c'.rx_buffer })
        ])
