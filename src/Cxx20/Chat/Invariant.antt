-- ===== src/Cxx20/Chat/Invariant.antt =====
-- What holds of a connection between two events.
use boost_beast_websocket_ec.Prelude.{
  ℕ, ◌≤◌, ◌≡◌, ◌≢◌, true, false, List, [], ◌∷◌, ◌++◌, ErrorCode, success, is_error, Returns, done,
  length, drop-length, arith, ◌⊎◌,
}
use boost_beast_websocket_ec.Prelude.Text.{Text}
use boost_beast_websocket_ec.AsyncQueue.{Completion, waiting, not_waiting}
use boost_beast_websocket_ec.Cxx20.Chat.{
  Chat, Queue, State, initial_state, handshaking, chatting, exit_state, Tx, not_spawned, spawned,
  popping, tx_done, writing, send, dequeue_next, dequeue_wrote, stop_connection, run_state,
  run_accepted, rx_received,
}
use boost_beast_websocket_ec.Cxx20.Chat.Steps.{
  Event, sends, stops, runs, accepted, tx_starts, popped, wrote, received, closed, enabled, step,
  active,
}

-- The queue behind dequeue_send: while that coroutine pops, either its handler waits on an empty queue
-- with no error, or one completion is posted; otherwise neither.
abbrev pub Serves : Tx → Queue → Type 0
Serves popping q =
    ((q.state ≡ waiting) × (q.posted ≡ []) × (q.values ≡ []) × (q.ec ≡ success))
    ⊎ ((q.state ≡ not_waiting) × (length q.posted ≡ 1))
Serves not_spawned q = (q.state ≡ not_waiting) × (q.posted ≡ [])
Serves spawned q = (q.state ≡ not_waiting) × (q.posted ≡ [])
Serves tx_done q = (q.state ≡ not_waiting) × (q.posted ≡ [])
Serves (writing m) q = (q.state ≡ not_waiting) × (q.posted ≡ [])

-- The operations of run_state in each state.
abbrev pub Runs : State → Tx → ℕ → ℕ → ℕ → Type 0
Runs initial_state tx accepts reads closes =
    (tx ≡ not_spawned) × (accepts ≡ 0) × (reads ≡ 0) × (closes ≡ 0)
Runs handshaking tx accepts reads closes =
    (tx ≡ not_spawned) × (accepts ≡ 1) × (reads ≡ 0) × (closes ≡ 0)
Runs chatting tx accepts reads closes =
    (tx ≢ not_spawned) × (accepts ≡ 0) × (reads ≡ 1) × (closes ≤ 1)
Runs exit_state tx accepts reads closes = (accepts ≡ 0) × (reads ≡ 0) × (closes ≤ 1)

pub record IsValid (c : Chat) : Type 0 where
  pub serves : Serves c.tx c.queue
  pub runs_alone : Runs c.state c.tx c.accepts c.reads c.closes
  pub clean_buffer : c.state ≢ exit_state → c.rxbuffer ≡ []
  pub close_last : is_error c.ec ≡ false → c.closes ≡ 0
  pub no_tasks : c.queue.tasks ≡ []

pub step-IsValid :
    (c : Chat) (e : Event) → IsValid c → enabled c e ≡ true → Returns IsValid (step c e)
unfolding step send dequeue_next dequeue_wrote stop_connection run_state run_accepted rx_received
step-IsValid c (sends m) v en = ground arith
step-IsValid c stops v en = ground arith
step-IsValid c runs v en = ground arith
step-IsValid c (accepted ec) v en = ground arith
step-IsValid c tx_starts v en = ground arith
step-IsValid c popped v en = ground arith
step-IsValid c (wrote ec) v en = ground arith
step-IsValid c (received ec bytes) v en = ground (arith, drop-length (c.rxbuffer ++ bytes))
step-IsValid c (closed ec) v en = ground arith

-- A stop has reached the queue, and dequeue_send is told: the completion that is posted is an error, or
-- the one after it will be. A connection whose stop came before the chat does not begin one.
abbrev pub Told : List (Completion Text (Unit {0}) (Unit {0})) → ErrorCode → Type 0
Told [] ec = ⊥
Told (k ∷ ks) ec = (is_error k.ec ≡ true) ⊎ (is_error ec ≡ true)

abbrev pub Stopping : Tx → ErrorCode → Queue → Type 0
Stopping not_spawned ec q = is_error ec ≡ true
Stopping spawned ec q = is_error q.ec ≡ true
Stopping (writing m) ec q = is_error q.ec ≡ true
Stopping tx_done ec q = Unit {0}
Stopping popping ec q = Told q.posted q.ec

pub step-Stopping :
    (c : Chat) (e : Event) (c' : Chat)
    → IsValid c
    → enabled c e ≡ true
    → step c e ≡ done c'
    → Stopping c.tx c.ec c.queue
    → Stopping c'.tx c'.ec c'.queue
unfolding step send dequeue_next dequeue_wrote stop_connection run_state run_accepted rx_received
step-Stopping c (sends m) c' v en st h = ground arith
step-Stopping c stops c' v en st h = ground arith
step-Stopping c runs c' v en st h = ground arith
step-Stopping c (accepted ec) c' v en st h = ground arith
step-Stopping c tx_starts c' v en st h = ground arith
step-Stopping c popped c' v en st h = ground arith
step-Stopping c (wrote ec) c' v en st h = ground arith
step-Stopping c (received ec bytes) c' v en st h = ground arith
step-Stopping c (closed ec) c' v en st h = ground arith

pub stops-Stopping :
    (c c' : Chat)
    → IsValid c
    → is_error c.ec ≡ false
    → active c.state ≡ true
    → step c stops ≡ done c'
    → Stopping c'.tx c'.ec c'.queue
unfolding step stop_connection
stops-Stopping c c' v up a st = ground arith
