-- ===== src/FmexClient/Connection/Tests.antt =====
-- A run of the connection: it connects, answers a hello and writes the answer; and its theorems there.
use boost_beast_websocket_ec.Prelude.{
  ℕ, ◌≡◌, refl, none, some, List, [], ◌∷◌, ◌++◌, success, fault, done, assert_failed, Returns,
}
use boost_beast_websocket_ec.Prelude.Text.{Text, codes}
use boost_beast_websocket_ec.Prelude.Slots.{emplace, erase, contains}
use boost_beast_websocket_ec.FmexClient.StopRegister
use boost_beast_websocket_ec.FmexClient.Connection.{
  Connection, connecting, ping_waiting_timer, ping_exited, Stop, Parsed, hello, other_exception,
  exchange_connection, notify_connect, connect_transport_op, on_read, stop,
}
use boost_beast_websocket_ec.FmexClient.Connection.Steps.{
  Event, stops, connect_done, received, wrote, timed, step, Reach, start, next,
}
use boost_beast_websocket_ec.FmexClient.Connection.Invariant.{IsValid}
use boost_beast_websocket_ec.FmexClient.Connection.Safety.{
  exchange_safe, frames_in_order, late_timer_restarts,
}

abbrev all_hello : Text → Parsed
all_hello t = hello

abbrev no_json : Text → Parsed
no_json t = other_exception

abbrev sub : Text
sub = codes "sub"

abbrev in_order : List (ℕ × Stop) → List (ℕ × Stop)
in_order m = m

-- The connection after an event, or as it is if an assertion fails.
after : Connection → Event → Connection
unfolding step
after c e = elim (step all_hello sub in_order c e) [ assert_failed ↦ c | done d ↦ d ]

up : Connection
unfolding after notify_connect exchange_connection connect_transport_op
up =
    after
      (after
        (after (after (notify_connect exchange_connection) (connect_done none success))
          (connect_done none success))
        (connect_done none success))
      (connect_done none success)

up-Reach : Reach all_hello sub in_order [] [] up
unfolding up emplace erase contains StopRegister.stop_register StopRegister.reset
up-Reach =
    next (connect_done none success) _
      (next (connect_done none success) _
        (next (connect_done none success) _ (next (connect_done none success) _ start refl refl)
          refl refl)
        refl refl)
      refl refl

answering : Connection
unfolding after up
answering = after up (received success (codes "hello"))

answering-Reach : Reach all_hello sub in_order (sub ∷ []) [] answering
unfolding answering on_read
answering-Reach = next (received success (codes "hello")) _ up-Reach refl refl

-- A stop begins to close the connection, a second one does nothing.
closed_once : (stop in_order (stop in_order up)).closes_begun ≡ 1
unfolding up emplace erase contains StopRegister.stop_register StopRegister.reset stop
closed_once = refl

exchange_safe_example :
    IsValid answering × Returns IsValid (step all_hello sub in_order answering (wrote success))
unfolding answering on_read
exchange_safe_example =
    exchange_safe all_hello sub in_order (λ w m. refl) (wrote success) answering-Reach refl

frames_in_order_example : [] ++ answering.tx_queue ≡ sub ∷ []
frames_in_order_example = frames_in_order all_hello sub in_order (λ w m. refl) answering-Reach

late_timer_restarts_example :
    Returns
      (λ d.
        (d.ping_state ≡ ping_exited)
        × (d.errors ≡ (answering.errors ++ fault ∷ []) ++ fault ∷ [])
        × Returns
            (λ d'.
              (d'.ping_state ≡ ping_waiting_timer)
              × (d'.waits ≡ 1)
              × (d'.tx_queue ≡ answering.tx_queue ++ codes "ping" ∷ []))
            (step no_json sub in_order d (timed success (codes "ping"))))
      (step no_json sub in_order answering (received success (codes "?")))
unfolding answering on_read
late_timer_restarts_example =
    late_timer_restarts no_json sub (codes "?") (codes "ping") in_order answering
      (exchange_safe all_hello sub in_order (λ w m. refl) (wrote success) answering-Reach refl).0
      refl refl refl

-- A stop that arrives when the resolver has completed, and its handler has not run, is forgotten: the
-- connection goes on to connect, and nothing cancels it.
stop_crosses_resolve :
    let c = after (after (notify_connect exchange_connection) stops) (connect_done none success) in
    (c.stage ≡ some connecting) × (c.resolver_cancels ≡ 1) × (c.socket_cancels ≡ 0)
unfolding after notify_connect exchange_connection connect_transport_op stop emplace erase contains
    StopRegister.stop_register
stop_crosses_resolve = (refl, refl, refl)
