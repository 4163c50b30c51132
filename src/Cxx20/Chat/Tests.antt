-- ===== src/Cxx20/Chat/Tests.antt =====
-- Runs of a connection, and its theorems at them.
use boost_beast_websocket_ec.Prelude.{
  ◌≡◌, refl, List, [], ◌∷◌, ◌++◌, success, done, assert_failed, Returns, ◌>>=◌, other, arith,
}
use boost_beast_websocket_ec.Prelude.Text.{Text, codes}
use boost_beast_websocket_ec.AsyncQueue.Reach.{delivered}
use boost_beast_websocket_ec.Cxx20.Chat.{
  Chat, exit_state, popping, tx_done, connection_impl, send, dequeue_next, stop_connection,
  run_state, run_accepted, rx_received,
}
use boost_beast_websocket_ec.Cxx20.Chat.Steps.{
  Event, sends, stops, runs, accepted, tx_starts, popped, wrote, received, step, Reach, start, next,
}
use boost_beast_websocket_ec.Cxx20.Chat.Invariant.{IsValid}
use boost_beast_websocket_ec.Cxx20.Chat.Composition.{history, QueueReach}
use boost_beast_websocket_ec.Cxx20.Chat.Safety.{
  chat_safe, chat_embeds, chat_written, tx_goes_on, stopped_tx_ends, peer_close_strands,
}

-- The connection after an event, or as it is if an assertion fails.
after : Chat → Event → Chat
unfolding step
after c e = elim (step c e) [ assert_failed ↦ c | done d ↦ d ]

-- The handshake succeeds, and dequeue_send waits for a message.
chat : Chat
unfolding after connection_impl run_state run_accepted dequeue_next
chat = after (after (after connection_impl runs) (accepted success)) tx_starts

chat-Reach : Reach [] 0 chat
unfolding chat
chat-Reach =
    next tx_starts _ (next (accepted success) _ (next runs _ start refl refl) refl refl) refl refl

abbrev hello : Text
hello = codes "hello"

-- A message is sent, and dequeue_send writes it.
writes : Chat
unfolding chat send
writes = after (after chat (sends hello)) popped

writes-Reach : Reach (hello ∷ []) 0 writes
unfolding writes
writes-Reach = next popped _ (next (sends hello) _ chat-Reach refl refl) refl refl

-- The connection is stopped while it writes.
stopped : Chat
unfolding writes stop_connection
stopped = after writes stops

stopped-Reach : Reach (hello ∷ []) 1 stopped
unfolding stopped
stopped-Reach = next stops _ writes-Reach refl refl

-- The client closes the connection while dequeue_send waits for a message.
left : Chat
unfolding chat rx_received
left = after chat (received (other 2) [])

left-Reach : Reach [] 0 left
unfolding left
left-Reach = next (received (other 2) []) _ chat-Reach refl refl

chat_safe_example : IsValid writes × Returns IsValid (step writes (wrote success))
unfolding writes
chat_safe_example = chat_safe (wrote success) writes-Reach refl

chat_embeds_example :
    (hs : List (Unit {0})) × QueueReach hs (hello ∷ []) 0 (history writes.taken writes.queue)
chat_embeds_example = chat_embeds writes-Reach

chat_written_example :
    writes.written ++ (delivered writes.queue.posted ++ writes.queue.values) ≡ hello ∷ []
chat_written_example = chat_written writes-Reach refl

stopped_tx_ends_example :
    Returns
      (λ d. d.tx ≡ tx_done)
      (tx_goes_on success stopped >>= tx_goes_on success >>= tx_goes_on success)
unfolding stopped
stopped_tx_ends_example = stopped_tx_ends success stopped-Reach (omega arith) (ground arith)

peer_close_strands_example :
    Returns
      (λ d. (d.state ≡ exit_state) × (d.tx ≡ popping) × (d.queue.posted ≡ []))
      (step left stops)
unfolding left
peer_close_strands_example = peer_close_strands stops left-Reach refl refl refl refl refl
