-- ===== src/Cxx20/Chat.antt =====
-- cxx20/states.hpp, connection.hpp and connection.cpp. A coroutine is resumed by an event: the completion
-- of the operation that it awaits. All of them run on one executor, where a function that the queue
-- dispatches runs at once. Operations begun on the stream are counted until they complete.
pub mod Steps
pub mod Invariant
pub mod Composition
pub mod Safety
pub mod Ended
mod Tests
use boost_beast_websocket_ec.Prelude.{
  ℕ, ◌+◌, Bool, true, false, not, List, [], ◌∷◌, ◌++◌, ErrorCode, success, operation_aborted,
  is_error, Outcome, done, assert_failed, require, ◌>>=◌, ◌>>◌, if◌then◌else◌, length, drop,
}
use boost_beast_websocket_ec.Prelude.Text.{Text}
use boost_beast_websocket_ec.AsyncQueue
use boost_beast_websocket_ec.AsyncQueue.{Impl, Completion, Task, construct, push, stop, perform}

-- the states of chat_state_base
pub data State : Type 0 where
  initial_state handshaking chatting exit_state : State

abbrev pub is_initial : State → Bool
is_initial initial_state = true
is_initial _ = false

-- Where the coroutine dequeue_send stands: not spawned, spawned and not started, waiting for a
-- message, writing one, or over.
pub data Tx : Type 0 where
  not_spawned spawned popping tx_done : Tx
  writing : Text → Tx

abbrev pub Queue : Type 0
Queue = Impl Text (Unit {0}) (Unit {0})

-- chat_state. `queue.posted` holds the completions that txqueue has posted and that have not run, and
-- `taken` those that have run; `written` holds the messages whose write has begun.
pub record Chat : Type 0 where
  pub ec : ErrorCode
  pub state : State
  pub queue : Queue
  pub taken : List (Completion Text (Unit {0}) (Unit {0}))
  pub tx : Tx
  pub written : List Text
  pub rxbuffer : Text
  -- accepts, reads and closes that have not completed, and the calls of cancel on the socket
  pub accepts : ℕ
  pub reads : ℕ
  pub closes : ℕ
  pub cancels : ℕ

-- connection_impl::connection_impl, chat_state::chat_state
unfoldable pub connection_impl : Chat
unfolding construct
connection_impl = record {
  ec = success;
  state = initial_state;
  queue = construct tt;
  taken = [];
  tx = not_spawned;
  written = [];
  rxbuffer = [];
  accepts = 0;
  reads = 0;
  closes = 0;
  cancels = 0;
}

-- The functions that an operation of the queue has dispatched run at once.
pub run_tasks : Queue → List (Task Text) → Queue
unfolding perform
run_tasks q [] = q
run_tasks q (t ∷ ts) = run_tasks (perform [] q t) ts

unfoldable pub at_once : Queue → Queue
unfolding run_tasks
at_once q = run_tasks (record q { tasks = [] }) q.tasks

-- connection_impl::send
unfoldable pub send : Chat → Text → Chat
unfolding at_once push
send c msg = record c { queue = at_once (push c.queue msg) }

-- txqueue.stop()
unfoldable pub stop_queue : Chat → Chat
unfolding at_once stop
stop_queue c = record c { queue = at_once (stop c.queue) }

-- the loop of dequeue_send, up to the end of txqueue.async_pop()
unfoldable pub dequeue_next : Chat → Outcome Chat
unfolding at_once AsyncQueue.async_pop
dequeue_next c = do
  q ← AsyncQueue.async_pop (λ h e. e) c.queue tt
  done (record c { queue = at_once q; tx = popping })

-- dequeue_send goes on after the pop; an error is thrown, and ends the coroutine
unfoldable pub dequeue_popped : Chat → ErrorCode → Text → Chat
dequeue_popped c ec msg =
    if is_error ec
    then record c { tx = tx_done }
    else record c { tx = writing msg; written = c.written ++ msg ∷ [] }

-- dequeue_send goes on after the write
unfoldable pub dequeue_wrote : Chat → ErrorCode → Outcome Chat
unfolding dequeue_next
dequeue_wrote c ec = if is_error ec then done (record c { tx = tx_done }) else dequeue_next c

-- the `switch` of notify_error
pub notify_in : State → Chat → Chat
unfolding stop_queue
notify_in initial_state c = c
notify_in handshaking c = stop_queue (record c { cancels = c.cancels + 1 })
notify_in chatting c = record (stop_queue c) { closes = c.closes + 1 }
notify_in exit_state c = c

unfoldable pub notify_error : Chat → ErrorCode → Outcome Chat
unfolding notify_in
notify_error c nec = do
  require (is_error nec)
  done (if not (is_error c.ec) then notify_in c.state (record c { ec = nec }) else c)

-- connection_impl::stop
unfoldable pub stop_connection : Chat → Outcome Chat
unfolding notify_error
stop_connection c = notify_error c operation_aborted

-- run_state, up to the end of async_accept; connection_impl::run spawns it
unfoldable pub run_state : Chat → Outcome Chat
run_state c = do
  require (is_initial c.state)
  done (record c { state = handshaking; accepts = c.accepts + 1 })

-- on_connect of connection_impl::run, which spawns dequeue_send
abbrev on_connect : Chat → Chat
on_connect c = record c { tx = spawned }

-- the loop of websocket_rx_state, up to the end of async_read
abbrev rx_next : Chat → Chat
rx_next c = record c { reads = c.reads + 1 }

-- run_state goes on after async_accept
unfoldable pub run_accepted : Chat → ErrorCode → Chat
run_accepted c ec =
    if is_error ec
    then record c { state = exit_state }
    else if is_error c.ec
    then record c { state = exit_state }
    else rx_next (on_connect (record c { state = chatting }))

-- websocket_rx_state goes on after a read; on an error it returns, and run_state with it
unfoldable pub rx_received : Chat → ErrorCode → Chat
unfolding send
rx_received c ec =
    if is_error ec
    then record c { state = exit_state }
    else (let message = c.rxbuffer in
        rx_next (send (record c { rxbuffer = drop (length message) c.rxbuffer }) message))
