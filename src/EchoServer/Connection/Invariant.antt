-- ===== src/EchoServer/Connection/Invariant.antt =====
-- What holds of a connection between two handlers.
use boost_beast_websocket_ec.Prelude.{
  ◌+◌, ◌%◌, ◌≤◌, ◌<◌, ◌≡◌, Bool, true, false, List, [], ◌∷◌, ◌++◌, is_error, Returns, length,
  drop-length, arith,
}
use boost_beast_websocket_ec.Prelude.Text.{Text}
use boost_beast_websocket_ec.EchoServer.Connection.{
  Connection, State, handshaking, chatting, closing, is_chatting, SendingState, send_idle, sending,
  connection_impl, handle_run, handle_accept, handle_send, handle_rx, handle_tx, handle_stop,
  handle_timer,
}
use boost_beast_websocket_ec.EchoServer.Connection.Steps.{
  Event, sends, stops, accepted, received, wrote, timed, enabled, step, is_late_read,
}

abbrev pub is_closing : State → Bool
is_closing handshaking = false
is_closing chatting = false
is_closing closing = true

-- At most one message is being written: the front of the queue, which keeps it until then.
abbrev pub InFlight : List Text → List Text → SendingState → Type 0
InFlight [] queue s = Unit {0}
InFlight (m ∷ []) [] s = ⊥
InFlight (m ∷ []) (q ∷ queue) s = (m ≡ q) × (s ≡ sending)
InFlight (m ∷ n ∷ ms) queue s = ⊥

pub record IsValid (c : Connection) : Type 0 where
  pub stopped : is_error c.ec ≡ is_closing c.state
  pub one_operation : c.accepts + c.reads ≤ 1
  pub accept_first : is_chatting c.state ≡ true → c.accepts ≡ 0
  pub read_later : c.state ≡ handshaking → c.reads ≡ 0
  pub write_later : c.state ≡ handshaking → c.sending_state ≡ send_idle
  pub in_flight : InFlight c.writes c.tx_queue c.sending_state
  pub idle_empty : is_chatting c.state ≡ true → c.sending_state ≡ send_idle → c.tx_queue ≡ []
  pub clean_buffer : 0 < c.accepts + c.reads → c.rxbuffer ≡ []
  pub whole_waits : c.time_remaining % 5 ≡ 0
  pub one_wait : c.waits ≤ 1
  pub one_close : length c.closes ≤ 1
  pub close_last : is_closing c.state ≡ false → c.closes ≡ []

pub handle_run-IsValid : Returns IsValid (handle_run connection_impl)
unfolding handle_run connection_impl
handle_run-IsValid = ground arith

pub handle_send-IsValid :
    (c : Connection) (m : Text) → IsValid c → Returns IsValid (handle_send c m)
unfolding handle_send
handle_send-IsValid c m v = ground arith

-- Every event keeps the invariant, and no assertion fails, unless a message arrives after the
-- connection has been stopped.
pub step-IsValid :
    (c : Connection) (e : Event)
    → IsValid c
    → enabled c e ≡ true
    → is_late_read c e ≡ false
    → Returns IsValid (step c e)
unfolding step handle_stop handle_accept handle_rx handle_tx handle_timer
step-IsValid c (sends m) v en late = handle_send-IsValid c m v
step-IsValid c stops v en late = ground arith
step-IsValid c (accepted ec) v en late = ground arith
step-IsValid c (received ec bytes) v en late = ground (arith, drop-length (c.rxbuffer ++ bytes))
step-IsValid c (wrote ec) v en late = ground arith
step-IsValid c (timed ec) v en late = ground arith
