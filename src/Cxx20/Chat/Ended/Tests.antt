-- ===== src/Cxx20/Chat/Ended/Tests.antt =====
-- The lines of a connection that is stopped while it chats, and the texts.
use boost_beast_websocket_ec.Prelude.{
  ◌+◌, ◌≡◌, refl, some, none, [], ◌∷◌, success, closed, other, done, assert_failed, if◌then◌else◌,
}
use boost_beast_websocket_ec.Prelude.Text.{codes}
use boost_beast_websocket_ec.Cxx20.Chat.{
  Chat, connection_impl, dequeue_next, stop_connection, run_state, run_accepted, rx_received,
}
use boost_beast_websocket_ec.Cxx20.Chat.Steps
use boost_beast_websocket_ec.Cxx20.Chat.Steps.{
  Event, stops, runs, accepted, tx_starts, popped, wrote, received, step, Reach, start, next,
}
use boost_beast_websocket_ec.Cxx20.Chat.Ended.{
  run, tx_state, stop, system_error, exception, finished, graceful, spawn_handler, print_line,
  ended, log,
}
use boost_beast_websocket_ec.Cxx20.Chat.Ended.Once.{
  times, run_over, tx_over, stops_called, printed_once,
}
use boost_beast_websocket_ec.Cxx20.Chat.Ended.Errors.{reports, unexpected, errors_printed}

-- The connection after an event, or as it is if an assertion fails.
after : Chat → Event → Chat
unfolding step
after c e = elim (step c e) [ assert_failed ↦ c | done d ↦ d ]

chat : Chat
unfolding after connection_impl run_state run_accepted dequeue_next
chat = after (after (after connection_impl runs) (accepted success)) tx_starts

chat-Reach : Reach [] 0 chat
unfolding chat
chat-Reach =
    next tx_starts _ (next (accepted success) _ (next runs _ start refl refl) refl refl) refl refl

-- It is stopped; then dequeue_send hears of it, the read fails and the close completes.
over : Chat
unfolding chat stop_connection rx_received
over =
    after (after (after (after chat stops) popped) (received (other 2) [])) (Steps.closed success)

over-Reach : Reach [] 1 over
unfolding over
over-Reach =
    next (Steps.closed success) _
      (next (received (other 2) []) _ (next popped _ (next stops _ chat-Reach refl refl) refl refl)
        refl refl)
      refl refl

over_log : log over-Reach ≡ graceful tx_state ∷ (finished run ∷ (finished stop ∷ []))
unfolding log ended spawn_handler over-Reach chat-Reach
over_log = refl

printed_once_example :
    (times run (log over-Reach) ≡ run_over over.state)
    × (times tx_state (log over-Reach) ≡ tx_over over.tx)
    × (times stop (log over-Reach) + over.closes ≡ stops_called over-Reach)
printed_once_example = printed_once over-Reach

errors_printed_example :
    reports (ended (after connection_impl runs) (accepted (other 2)))
    ≡ (if unexpected (other 2) then 1 else 0)
unfolding after connection_impl run_state
errors_printed_example = errors_printed (accepted (other 2)) (next runs _ start refl refl) refl

printed_error :
    print_line (λ ec. codes "no route") (spawn_handler run (some (system_error (other 2))))
    ≡ codes "run: error in run : no route\n"
unfolding print_line spawn_handler
printed_error = refl

printed_exception :
    print_line (λ ec. []) (spawn_handler tx_state (some (exception (codes "bad alloc"))))
    ≡ codes "error in tx_state : bad alloc\n"
unfolding print_line spawn_handler
printed_exception = refl

printed_graceful :
    print_line (λ ec. []) (spawn_handler tx_state (some (system_error closed)))
    ≡ codes "tx_state: graceful shutdown\n"
unfolding print_line spawn_handler
printed_graceful = refl

printed_done : print_line (λ ec. []) (spawn_handler stop none) ≡ codes "stop: done\n"
unfolding print_line spawn_handler
printed_done = refl
