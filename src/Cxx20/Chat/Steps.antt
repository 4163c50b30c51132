-- ===== src/Cxx20/Chat/Steps.antt =====
-- What may happen to a connection: its functions are called, or an operation that it awaits completes.
use boost_beast_websocket_ec.Prelude.{
  ℕ, ◌+◌, ◌-◌, ◌≡◌, Bool, true, false, ◌&&◌, not, List, [], ◌∷◌, ◌++◌, ErrorCode, is_error, Outcome,
  done, ltb, empty, if◌then◌else◌,
}
use boost_beast_websocket_ec.Prelude.Text.{Text}
use boost_beast_websocket_ec.AsyncQueue.{Completion}
use boost_beast_websocket_ec.Cxx20.Chat.{
  Chat, State, initial_state, handshaking, chatting, exit_state, is_initial, Tx, spawned, writing,
  connection_impl, send, dequeue_next, dequeue_popped, dequeue_wrote, stop_connection, run_state,
  run_accepted, rx_received,
}

pub data Event : Type 0 where
  sends : Text → Event
  -- the coroutine that connection_impl::stop spawns
  stops : Event
  runs : Event
  accepted : ErrorCode → Event
  -- dequeue_send starts, and goes on
  tx_starts : Event
  popped : Event
  wrote : ErrorCode → Event
  -- a read completes; its bytes are in the buffer
  received : ErrorCode → Text → Event
  closed : ErrorCode → Event

abbrev pub is_spawned : Tx → Bool
is_spawned spawned = true
is_spawned _ = false

abbrev pub is_writing : Tx → Bool
is_writing (writing m) = true
is_writing _ = false

abbrev pub enabled : Chat → Event → Bool
enabled c (sends m) = true
enabled c stops = true
enabled c runs = is_initial c.state
enabled c (accepted ec) = ltb 0 c.accepts
enabled c tx_starts = is_spawned c.tx
enabled c popped = not (empty c.queue.posted)
enabled c (wrote ec) = is_writing c.tx
enabled c (received ec bytes) = ltb 0 c.reads
enabled c (closed ec) = ltb 0 c.closes

-- The handler of the first completion that is posted runs.
pub take_posted : List (Completion Text (Unit {0}) (Unit {0})) → Chat → Chat
unfolding dequeue_popped
take_posted [] c = c
take_posted (k ∷ ks) c =
    dequeue_popped (record c { queue = record c.queue { posted = ks }; taken = c.taken ++ k ∷ [] })
      k.ec k.value

unfoldable pub step : Chat → Event → Outcome Chat
unfolding take_posted
step c (sends m) = done (send c m)
step c stops = stop_connection c
step c runs = run_state c
step c (accepted ec) = done (run_accepted (record c { accepts = c.accepts - 1 }) ec)
step c tx_starts = dequeue_next c
step c popped = done (take_posted c.queue.posted c)
step c (wrote ec) = dequeue_wrote c ec
step c (received ec bytes) =
    done (rx_received (record c { reads = c.reads - 1; rxbuffer = c.rxbuffer ++ bytes }) ec)
step c (closed ec) = done (record c { closes = c.closes - 1 })

-- The messages that an event hands to the queue.
abbrev pub sent : Chat → Event → List Text
sent c (sends m) = m ∷ []
sent c stops = []
sent c runs = []
sent c (accepted ec) = []
sent c tx_starts = []
sent c popped = []
sent c (wrote ec) = []
sent c (received ec bytes) = if is_error ec then [] else (c.rxbuffer ++ bytes) ∷ []
sent c (closed ec) = []

-- How often a stop reaches the queue: the first one, during the handshake or the chat.
abbrev pub active : State → Bool
active initial_state = false
active handshaking = true
active chatting = true
active exit_state = false

abbrev pub queue_stops : Chat → Event → ℕ
queue_stops c stops = if not (is_error c.ec) && active c.state then 1 else 0
queue_stops c (sends m) = 0
queue_stops c runs = 0
queue_stops c (accepted ec) = 0
queue_stops c tx_starts = 0
queue_stops c popped = 0
queue_stops c (wrote ec) = 0
queue_stops c (received ec bytes) = 0
queue_stops c (closed ec) = 0

-- The connections that a run reaches with no failed assertion. Its indices: all messages handed to
-- the queue, and how many stops have reached the queue.
pub data Reach : List Text → ℕ → Chat → Type 0 where
  start : Reach [] 0 connection_impl
  next :
      {ms : List Text} {n : ℕ} {c : Chat} (e : Event) (c' : Chat)
      → Reach ms n c
      → enabled c e ≡ true
      → step c e ≡ done c'
      → Reach (ms ++ sent c e) (n + queue_stops c e) c'
