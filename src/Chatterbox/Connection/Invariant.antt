-- ===== src/Chatterbox/Connection/Invariant.antt =====
-- What holds of a client's connection between two handlers.
use boost_beast_websocket_ec.Prelude.{
  ◌+◌, ◌≤◌, ◌<◌, ◌≡◌, true, false, List, [], ◌∷◌, ◌++◌, is_error, Returns, assert_failed,
  drop-length, arith,
}
use boost_beast_websocket_ec.Prelude.Text.{Text}
use boost_beast_websocket_ec.Chatterbox.Connection.{
  Connection, handshaking, is_chatting, SendingState, send_idle, sending, connection_impl,
  handle_run, handle_connect, handle_handshake, handle_stop, send, handle_rx, handle_tx,
}
use boost_beast_websocket_ec.Chatterbox.Connection.Steps.{
  Event, sends, stops, connected, shaken, received, wrote, enabled, step, is_late_read,
}

-- At most one message is being written: the front of the queue, which keeps it until then.
abbrev pub InFlight : List Text → List Text → SendingState → Type 0
InFlight [] queue s = Unit {0}
InFlight (m ∷ []) [] s = ⊥
InFlight (m ∷ []) (q ∷ queue) s = (m ≡ q) × (s ≡ sending)
InFlight (m ∷ n ∷ ms) queue s = ⊥

pub record IsValid (c : Connection) : Type 0 where
  pub one_operation : c.connects + c.handshakes + c.reads ≤ 1
  pub opened_first : is_chatting c.state ≡ true → c.connects + c.handshakes ≡ 0
  pub read_later : c.state ≡ handshaking → c.reads ≡ 0
  pub write_later : c.state ≡ handshaking → c.sending_state ≡ send_idle
  pub in_flight : InFlight c.writes c.tx_queue c.sending_state
  pub idle_empty :
      is_error c.ec ≡ false
      → is_chatting c.state ≡ true
      → c.sending_state ≡ send_idle
      → c.tx_queue ≡ []
  pub clean_buffer : 0 < c.connects + c.handshakes + c.reads → c.rxbuffer ≡ []
  pub not_closed : is_error c.ec ≡ false → c.closes + c.cancels ≡ 0

pub handle_run-IsValid : IsValid (handle_run connection_impl)
unfolding handle_run connection_impl
handle_run-IsValid = ground arith

pub step-IsValid :
    (c : Connection) (e : Event)
    → IsValid c
    → enabled c e ≡ true
    → is_late_read c e ≡ false
    → Returns IsValid (step c e)
unfolding step send handle_stop handle_connect handle_handshake handle_rx handle_tx
step-IsValid c (sends m) v en late = ground arith
step-IsValid c stops v en late = ground arith
step-IsValid c (connected ec) v en late = ground arith
step-IsValid c (shaken ec) v en late = ground arith
step-IsValid c (received ec bytes) v en late = ground (arith, drop-length (c.rxbuffer ++ bytes))
step-IsValid c (wrote ec) v en late = ground arith

pub late_read_fails :
    (c : Connection) (e : Event)
    → IsValid c
    → enabled c e ≡ true
    → is_late_read c e ≡ true
    → step c e ≡ assert_failed
unfolding step handle_rx
late_read_fails c (received ec bytes) v en late = ground arith
late_read_fails c (sends m) v en late = cc
late_read_fails c stops v en late = cc
late_read_fails c (connected ec) v en late = cc
late_read_fails c (shaken ec) v en late = cc
late_read_fails c (wrote ec) v en late = cc
