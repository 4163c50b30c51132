-- ===== src/Chatterbox/Connection/Safety.antt =====
-- What holds of every connection of the client that a run reaches.
use mathlib.Core.List.{append-nil, append_assoc}
use boost_beast_websocket_ec.Prelude.{
  Returns-done, ℕ, ◌+◌, ◌≤◌, ◌≡◌, sym, ap, ◌∙◌, ◌↔◌, inl, inr, true, List, ◌++◌, is_error, done,
  assert_failed, Returns, Bool-cases, length, arith,
}
use boost_beast_websocket_ec.Prelude.Text.{Text}
use boost_beast_websocket_ec.Chatterbox.Connection.{
  Connection, connection_impl, handle_run, handle_connect, handle_handshake, handle_stop, send,
  handle_rx, handle_tx,
}
use boost_beast_websocket_ec.Chatterbox.Connection.Steps.{
  Event, sends, stops, connected, shaken, received, wrote, enabled, step, is_late_read, Reach,
  start, next, queued, written, stop_count,
}
use boost_beast_websocket_ec.Chatterbox.Connection.Invariant.{
  IsValid, step-IsValid, handle_run-IsValid, late_read_fails,
}

Returns-passes :
    (c : Connection) (e : Event) → Returns IsValid (step c e) → (step c e ≡ assert_failed) → ⊥
Returns-passes c e r h = ground arith

-- For an enabled event on a connection in good order, an assertion fails exactly when the event is a
-- message that arrives after the connection has been stopped.
pub late_message_asserts :
    (c : Connection) (e : Event)
    → IsValid c
    → enabled c e ≡ true
    → (step c e ≡ assert_failed) ↔ (is_late_read c e ≡ true)
late_message_asserts c e v en = (
  λ h. elim (Bool-cases (is_late_read c e)) [
    | inl late ↦ late
    | inr soon ↦ absurd (Returns-passes c e (step-IsValid c e v en soon) h)
  ],
  late_read_fails c e v en,
)

-- An event that fails no assertion keeps the invariant.
pub done-IsValid :
    (c : Connection) (e : Event) (c' : Connection)
    → IsValid c
    → enabled c e ≡ true
    → step c e ≡ done c'
    → IsValid c'
done-IsValid c e c' v en st = elim (Bool-cases (is_late_read c e)) [
  | inl late ↦ absurd (cc (st, late_read_fails c e v en late))
  | inr soon ↦ Returns-done IsValid _ st (step-IsValid c e v en soon)
]

-- In every connection that a run reaches with no failed assertion one connect, handshake or read at
-- most is going on, one message at most is being written, the front of the queue, and a chat that
-- has not been stopped and is not sending has an empty queue.
pub client-IsValid : {qs ws : List Text} {n : ℕ} {c : Connection} → Reach qs ws n c → IsValid c
client-IsValid start = handle_run-IsValid
client-IsValid (next {c = c} e c' reach en st) = done-IsValid c e c' (client-IsValid reach) en st

step-tx_queue :
    (c : Connection) (e : Event) (c' : Connection)
    → IsValid c
    → enabled c e ≡ true
    → step c e ≡ done c'
    → written c e ++ c'.tx_queue ≡ c.tx_queue ++ queued c e
unfolding step send handle_stop handle_connect handle_handshake handle_rx handle_tx
step-tx_queue c (sends m) c' v en st = ground arith
step-tx_queue c stops c' v en st = ground (arith, append-nil c.tx_queue)
step-tx_queue c (connected ec) c' v en st = ground (arith, append-nil c.tx_queue)
step-tx_queue c (shaken ec) c' v en st = ground (arith, append-nil c.tx_queue)
step-tx_queue c (received ec bytes) c' v en st = ground (arith, append-nil c.tx_queue)
step-tx_queue c (wrote ec) c' v en st = ground (arith, append-nil c.tx_queue)

-- In every reached connection the messages written, followed by those in the queue, are all messages
-- that were queued, in order.
pub client_written :
    {qs ws : List Text} {n : ℕ} {c : Connection} → Reach qs ws n c → ws ++ c.tx_queue ≡ qs
unfolding handle_run connection_impl
client_written start = ground arith
client_written (next {ws = ws} {c = c} e c' reach en st) =
    append_assoc ws (written c e) c'.tx_queue
    ∙ ap (◌++◌ ws) (step-tx_queue c e c' (client-IsValid reach) en st)
    ∙ sym (append_assoc ws c.tx_queue (queued c e))
    ∙ ap (λ xs. xs ++ queued c e) (client_written reach)

step-closes :
    (c : Connection) (e : Event) (c' : Connection)
    → step c e ≡ done c'
    → c'.closes + c'.cancels ≡ c.closes + c.cancels + stop_count e
unfolding step send handle_stop handle_connect handle_handshake handle_rx handle_tx
step-closes c (sends m) c' st = ground arith
step-closes c stops c' st = ground arith
step-closes c (connected ec) c' st = ground arith
step-closes c (shaken ec) c' st = ground arith
step-closes c (received ec bytes) c' st = ground arith
step-closes c (wrote ec) c' st = ground arith

-- In every reached connection the close handshakes begun and the cancels of the socket together are
-- as many as the stops: every stop, also a repeated one, begins one or the other.
pub each_stop_closes :
    {qs ws : List Text} {n : ℕ} {c : Connection} → Reach qs ws n c → c.closes + c.cancels ≡ n
unfolding handle_run connection_impl
each_stop_closes start = ground arith
each_stop_closes (next {c = c} e c' reach en st) =
    omega (arith, each_stop_closes reach, step-closes c e c' st)

-- A step of a stopped connection that fails no assertion leaves it stopped, begins no read and no
-- write, and does not change whether it is chatting.
pub stopped_quiet :
    (c : Connection) (e : Event) (c' : Connection)
    → is_error c.ec ≡ true
    → step c e ≡ done c'
    → (is_error c'.ec ≡ true)
      × (c'.reads ≤ c.reads)
      × (length c'.writes ≤ length c.writes)
      × (c'.state ≡ c.state)
unfolding step send handle_stop handle_connect handle_handshake handle_rx handle_tx
stopped_quiet c (sends m) c' h st = ground arith
stopped_quiet c stops c' h st = ground arith
stopped_quiet c (connected ec) c' h st = ground arith
stopped_quiet c (shaken ec) c' h st = ground arith
stopped_quiet c (received ec bytes) c' h st = ground arith
stopped_quiet c (wrote ec) c' h st = ground arith
