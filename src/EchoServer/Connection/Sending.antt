-- ===== src/EchoServer/Connection/Sending.antt =====
-- Which messages a connection holds, and which it has put on its websocket.
use mathlib.Core.List.{append-nil}
use boost_beast_websocket_ec.Prelude.{
  Bool, not, is_error, ◌≡◌, true, if◌then◌else◌, List, [], ◌∷◌, ◌++◌, done, ap, success, empty,
  false, pop_front, arith,
}
use boost_beast_websocket_ec.Prelude.Text.{Text}
use boost_beast_websocket_ec.EchoServer.Connection.{
  Connection, handle_accept, handle_send, handle_rx, handle_tx, handle_stop, handle_timer,
}
use boost_beast_websocket_ec.EchoServer.Connection.Steps.{
  Event, sends, stops, accepted, received, wrote, timed, enabled, step, queued,
}
use boost_beast_websocket_ec.EchoServer.Connection.Invariant.{IsValid}

-- The messages that the connection holds: those queued but for the one that is being written, once
-- that one has gone out, which `gone` says. A message whose write has failed has not gone out.
abbrev pub held : Bool → Connection → List Text
held gone c = if gone then pop_front c.tx_queue else c.tx_queue

-- Only a message that is being written has gone out and stands in the queue.
abbrev pub Goes : Bool → Connection → Type 0
Goes gone c = gone ≡ true → empty c.writes ≡ false

-- Whether the message that is being written has gone out, after an event.
abbrev pub still_gone : Bool → Event → Bool
still_gone gone (sends m) = gone
still_gone gone stops = gone
still_gone gone (accepted ec) = gone
still_gone gone (received ec bytes) = gone
still_gone gone (wrote ec) = false
still_gone gone (timed ec) = gone

-- A write succeeds when its message has gone out, and fails when it has not.
abbrev pub tells : Bool → Event → Bool
tells gone (sends m) = true
tells gone stops = true
tells gone (accepted ec) = true
tells gone (received ec bytes) = true
tells gone (wrote ec) = if is_error ec then not gone else gone
tells gone (timed ec) = true

pub step-Goes :
    (gone : Bool) (c : Connection) (e : Event) (c' : Connection)
    → IsValid c
    → Goes gone c
    → enabled c e ≡ true
    → step c e ≡ done c'
    → Goes (still_gone gone e) c'
unfolding step handle_send handle_stop handle_accept handle_rx handle_tx handle_timer
step-Goes gone c (sends m) c' v k en st = ground arith
step-Goes gone c stops c' v k en st = ground arith
step-Goes gone c (accepted ec) c' v k en st = ground arith
step-Goes gone c (received ec bytes) c' v k en st = ground arith
step-Goes gone c (wrote ec) c' v k en st = ground arith
step-Goes gone c (timed ec) c' v k en st = ground arith

-- What an event queues is held behind what was held, and what has gone out is held no more.
pub step-held :
    (gone : Bool) (c : Connection) (e : Event) (c' : Connection)
    → IsValid c
    → Goes gone c
    → enabled c e ≡ true
    → tells gone e ≡ true
    → step c e ≡ done c'
    → held (still_gone gone e) c' ≡ held gone c ++ queued c e
unfolding step handle_send handle_stop handle_accept handle_rx handle_tx handle_timer
step-held gone c (sends m) c' v k en t st =
    ground (arith, append-nil c.tx_queue, append-nil (pop_front c.tx_queue))
step-held gone c stops c' v k en t st =
    ground (arith, append-nil c.tx_queue, append-nil (pop_front c.tx_queue))
step-held gone c (accepted ec) c' v k en t st =
    ground (arith, append-nil c.tx_queue, append-nil (pop_front c.tx_queue))
step-held gone c (received ec bytes) c' v k en t st =
    ground (arith, append-nil c.tx_queue, append-nil (pop_front c.tx_queue))
step-held gone c (wrote ec) c' v k en t st =
    ground (arith, append-nil c.tx_queue, append-nil (pop_front c.tx_queue))
step-held gone c (timed ec) c' v k en t st =
    ground (arith, append-nil c.tx_queue, append-nil (pop_front c.tx_queue))

-- The message that is being written is the front of the queue.
pub writes-held :
    (c : Connection) → IsValid c → empty c.writes ≡ false → c.writes ++ held true c ≡ held false c
writes-held c v h = ground (arith, v.in_flight)

-- A message that is received is queued as it is.
pub received-queued :
    (c : Connection) (m : Text)
    → IsValid c
    → enabled c (received success m) ≡ true
    → queued c (received success m) ≡ m ∷ []
received-queued c m v en = ap (λ b. (b ++ m) ∷ []) (v.clean_buffer (ground arith))
