-- ===== src/EchoServer/Connection/Tests.antt =====
-- Runs of a connection, and its theorems at them.
use boost_beast_websocket_ec.Prelude.{
  ◌+◌, ◌*◌, ◌≡◌, refl, ◌↔◌, true, List, [], ◌∷◌, ◌++◌, success, is_error, done, assert_failed,
  Returns, arith,
}
use boost_beast_websocket_ec.Prelude.Text.{Text, codes, to_string}
use boost_beast_websocket_ec.EchoServer.Connection.{
  Connection, closing, send_idle, sending, timed_out, connection_impl, handle_run, handle_accept,
  handle_send, handle_rx, handle_tx, handle_stop, handle_timer, seconds_remaining,
}
use boost_beast_websocket_ec.EchoServer.Connection.Steps.{
  stops, accepted, received, wrote, timed, step, is_late_read, Reach, start, next,
}
use boost_beast_websocket_ec.EchoServer.Connection.Invariant.{IsValid, step-IsValid}
use boost_beast_websocket_ec.EchoServer.Connection.Safety.{
  late_read_asserts, Reach-IsValid, written-queued, session_time, received_echo, sixth_wait_closes,
}

countdown : to_string 25 ++ codes " seconds remaining" ≡ codes "25 seconds remaining"
unfolding to_string
countdown = refl

-- The handshake succeeds.
chat : Connection
unfolding handle_run connection_impl step handle_accept
chat = elim (handle_run connection_impl) [
  | assert_failed ↦ connection_impl
  | done c ↦ (elim (step c (accepted success)) [ assert_failed ↦ c | done c' ↦ c' ])
]

chat-Reach : Reach [] [] 0 chat
unfolding chat
chat-Reach = next (accepted success) _ (start _ refl) refl refl

-- A message arrives, its echo is written, and the connection is stopped while it reads.
abbrev hello : Text
hello = codes "hello"

echoed-Reach : Reach (hello ∷ []) (hello ∷ []) 0 chat
unfolding chat handle_rx handle_tx handle_send
echoed-Reach =
    next (wrote success) _ (next (received success hello) _ chat-Reach refl refl) refl refl

stopped : Connection
unfolding chat handle_stop
stopped = elim (step chat stops) [ assert_failed ↦ chat | done c ↦ c ]

stopped-Reach : Reach [] [] 0 stopped
unfolding stopped
stopped-Reach = next stops _ chat-Reach refl refl

step-IsValid_case : Returns IsValid (step chat (received success hello))
unfolding chat
step-IsValid_case = step-IsValid chat (received success hello) (Reach-IsValid chat-Reach) refl refl

late_read_asserts_example :
    (step stopped (received success hello) ≡ assert_failed)
    ↔ (is_late_read stopped (received success hello) ≡ true)
unfolding stopped
late_read_asserts_example =
    late_read_asserts stopped (received success hello) (Reach-IsValid stopped-Reach) refl

late_read_fails : step stopped (received success hello) ≡ assert_failed
unfolding stopped
late_read_fails = late_read_asserts_example.1 refl

Reach-IsValid_example : IsValid chat
Reach-IsValid_example = Reach-IsValid echoed-Reach

written-queued_case : (hello ∷ []) ++ chat.tx_queue ≡ hello ∷ []
written-queued_case = written-queued echoed-Reach

session_time_case : 5 * (0 + chat.waits) + chat.time_remaining ≡ 30
session_time_case = session_time echoed-Reach

received_echo_case :
    Returns
      (λ c'.
        (c'.tx_queue ≡ chat.tx_queue ++ hello ∷ [])
        × (c'.rxbuffer ≡ [])
        × (c'.reads ≡ 1)
        × (c'.sending_state ≡ sending)
        × (chat.sending_state ≡ send_idle → c'.writes ≡ hello ∷ []))
      (step chat (received success hello))
unfolding chat
received_echo_case = received_echo chat hello (Reach-IsValid chat-Reach) refl (omega arith)

-- The client is silent, and no write completes.
tick : Connection → Connection
tick c = elim (step c (timed success)) [ assert_failed ↦ c | done d ↦ d ]

last_wait : Connection
unfolding tick step handle_timer chat
last_wait = tick (tick (tick (tick (tick chat))))

abbrev countdowns : List Text
countdowns =
    seconds_remaining 25
    ∷ seconds_remaining 20
    ∷ seconds_remaining 15
    ∷ seconds_remaining 10
    ∷ seconds_remaining 5
    ∷ []

last_wait-Reach : Reach countdowns [] 5 last_wait
unfolding last_wait
last_wait-Reach =
    next (timed success) _
      (next (timed success) _
        (next (timed success) _
          (next (timed success) _ (next (timed success) _ chat-Reach refl refl) refl refl) refl
          refl)
        refl refl)
      refl refl

sixth_wait_closes_case :
    Returns
      (λ c'.
        (c'.closes ≡ timed_out ∷ [])
        × (c'.state ≡ closing)
        × (is_error c'.ec ≡ true)
        × (c'.waits ≡ 0))
      (step last_wait (timed success))
unfolding last_wait chat
sixth_wait_closes_case = sixth_wait_closes last_wait-Reach refl refl
