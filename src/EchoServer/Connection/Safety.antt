-- ===== src/EchoServer/Connection/Safety.antt =====
-- What holds of every connection that a run reaches.
use mathlib.Core.List.{append-nil, append_assoc}
use boost_beast_websocket_ec.Prelude.{
  Returns-done, ℕ, ◌+◌, ◌*◌, ◌<◌, ◌≡◌, sym, ap, ◌∙◌, ◌↔◌, inl, inr, true, List, [], ◌∷◌, ◌++◌,
  success, is_error, done, assert_failed, Returns, Bool-cases, drop-length, arith,
}
use boost_beast_websocket_ec.Prelude.Text.{Text}
use boost_beast_websocket_ec.EchoServer.Connection.{
  Connection, closing, is_chatting, send_idle, sending, timed_out, connection_impl, handle_run,
  handle_accept, handle_send, handle_rx, handle_tx, handle_stop, handle_timer,
}
use boost_beast_websocket_ec.EchoServer.Connection.Steps.{
  Event, sends, stops, accepted, received, wrote, timed, enabled, step, is_late_read, Reach, start,
  next, queued, written, expired,
}
use boost_beast_websocket_ec.EchoServer.Connection.Invariant.{
  IsValid, step-IsValid, handle_run-IsValid,
}

-- A message that arrives after the connection has been stopped fails the assertions of
-- initiate_rx, and nothing else that may happen fails an assertion.
pub late_read_asserts :
    (c : Connection) (e : Event)
    → IsValid c
    → enabled c e ≡ true
    → (step c e ≡ assert_failed) ↔ (is_late_read c e ≡ true)
unfolding step handle_send handle_accept handle_rx handle_tx handle_timer
late_read_asserts c (sends m) v en = (λ h. ground arith, λ h. cc)
late_read_asserts c stops v en = (λ h. cc, λ h. cc)
late_read_asserts c (accepted ec) v en = (λ h. ground arith, λ h. cc)
late_read_asserts c (received ec bytes) v en = (λ h. ground arith, λ h. ground arith)
late_read_asserts c (wrote ec) v en = (λ h. ground arith, λ h. cc)
late_read_asserts c (timed ec) v en = (λ h. ground arith, λ h. cc)

-- An event that fails no assertion keeps the invariant.
pub done-IsValid :
    (c : Connection) (e : Event) (c' : Connection)
    → IsValid c
    → enabled c e ≡ true
    → step c e ≡ done c'
    → IsValid c'
done-IsValid c e c' v en st = elim (Bool-cases (is_late_read c e)) [
  | inl late ↦ absurd (cc (st, (late_read_asserts c e v en).1 late))
  | inr soon ↦ Returns-done IsValid _ st (step-IsValid c e v en soon)
]

-- A run that fails no assertion keeps the invariant: one read at most, one write at most, of the
-- front of the queue, and one close handshake at most.
pub Reach-IsValid : {qs ws : List Text} {n : ℕ} {c : Connection} → Reach qs ws n c → IsValid c
Reach-IsValid (start c e) = Returns-done IsValid _ e handle_run-IsValid
Reach-IsValid (next {c = c} e c' reach en st) = done-IsValid c e c' (Reach-IsValid reach) en st

step-tx_queue :
    (c : Connection) (e : Event) (c' : Connection)
    → IsValid c
    → enabled c e ≡ true
    → step c e ≡ done c'
    → written c e ++ c'.tx_queue ≡ c.tx_queue ++ queued c e
unfolding step handle_send handle_stop handle_accept handle_rx handle_tx handle_timer
step-tx_queue c (sends m) c' v en st = ground arith
step-tx_queue c stops c' v en st = ground (arith, append-nil c.tx_queue)
step-tx_queue c (accepted ec) c' v en st = ground (arith, append-nil c.tx_queue)
step-tx_queue c (received ec bytes) c' v en st = ground (arith, append-nil c.tx_queue)
step-tx_queue c (wrote ec) c' v en st = ground (arith, append-nil c.tx_queue)
step-tx_queue c (timed ec) c' v en st = ground (arith, append-nil c.tx_queue)

-- Messages are written in the order in which they were queued, none is lost and none is written
-- twice: those written, followed by those that wait, are all that were queued.
pub written-queued :
    {qs ws : List Text} {n : ℕ} {c : Connection} → Reach qs ws n c → ws ++ c.tx_queue ≡ qs
unfolding handle_run connection_impl
written-queued (start c e) = ground arith
written-queued (next {ws = ws} {c = c} e c' reach en st) =
    append_assoc ws (written c e) c'.tx_queue
    ∙ ap (◌++◌ ws) (step-tx_queue c e c' (Reach-IsValid reach) en st)
    ∙ sym (append_assoc ws c.tx_queue (queued c e))
    ∙ ap (λ xs. xs ++ queued c e) (written-queued reach)

step-timer :
    (c : Connection) (e : Event) (c' : Connection)
    → IsValid c
    → enabled c e ≡ true
    → step c e ≡ done c'
    → 5 * (expired e + c'.waits) + c'.time_remaining ≡ 5 * c.waits + c.time_remaining
unfolding step handle_send handle_stop handle_accept handle_rx handle_tx handle_timer
step-timer c (sends m) c' v en st = ground arith
step-timer c stops c' v en st = ground arith
step-timer c (accepted ec) c' v en st = ground arith
step-timer c (received ec bytes) c' v en st = ground arith
step-timer c (wrote ec) c' v en st = ground arith
step-timer c (timed ec) c' v en st = ground arith

-- Every wait of the session timer takes five of the thirty seconds.
pub session_time :
    {qs ws : List Text} {n : ℕ} {c : Connection}
    → Reach qs ws n c
    → 5 * (n + c.waits) + c.time_remaining ≡ 30
unfolding handle_run connection_impl
session_time (start c e) = ground arith
session_time (next {c = c} e c' reach en st) =
    omega (arith, session_time reach, step-timer c e c' (Reach-IsValid reach) en st)

-- A message that a connection in good order receives is echoed: it is the one that is queued, the
-- buffer is empty for the next read, which has begun, and the write has begun if none was going on.
pub received_echo :
    (c : Connection) (bytes : Text)
    → IsValid c
    → is_chatting c.state ≡ true
    → 0 < c.reads
    → Returns
        (λ c'.
          (c'.tx_queue ≡ c.tx_queue ++ bytes ∷ [])
          × (c'.rxbuffer ≡ [])
          × (c'.reads ≡ 1)
          × (c'.sending_state ≡ sending)
          × (c.sending_state ≡ send_idle → c'.writes ≡ bytes ∷ []))
        (step c (received success bytes))
unfolding step handle_rx
received_echo c bytes v chat r = ground (arith, drop-length bytes)

-- The session lasts for six waits: the sixth to complete closes a chat that is still going on, with
-- the reason "session timed out", and starts no further wait.
pub sixth_wait_closes :
    {qs ws : List Text} {c : Connection}
    → Reach qs ws 5 c
    → is_chatting c.state ≡ true
    → c.waits ≡ 1
    → Returns
        (λ c'.
          (c'.closes ≡ timed_out ∷ [])
          × (c'.state ≡ closing)
          × (is_error c'.ec ≡ true)
          × (c'.waits ≡ 0))
        (step c (timed success))
unfolding step handle_timer
sixth_wait_closes reach chat w = ground (arith, session_time reach, Reach-IsValid reach)
