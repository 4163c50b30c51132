-- ===== src/Cxx20/Chat/Ended.antt =====
-- cxx20/connection.hpp: what the handler of spawn_handler prints when a coroutine of the connection
-- ends, and which coroutines each event ends. std::exception::what is an argument of what is printed; an
-- exception that is no std::exception, which the handler does not catch, is not modelled.
pub mod Once
pub mod Errors
mod Tests
use boost_beast_websocket_ec.Prelude.{
  ℕ, ◌+◌, Bool, true, false, ◌&&◌, not, Option, none, some, List, [], ◌∷◌, ◌++◌, ErrorCode, success,
  is_error, is_operation_aborted, is_closed, if◌then◌else◌,
}
use boost_beast_websocket_ec.Prelude.Text.{Text, codes}
use boost_beast_websocket_ec.AsyncQueue.{Completion}
use boost_beast_websocket_ec.Cxx20.Chat.{
  Chat, State, initial_state, handshaking, chatting, exit_state,
}
use boost_beast_websocket_ec.Cxx20.Chat.Steps.{
  Event, sends, stops, runs, accepted, tx_starts, popped, wrote, received, closed, Reach, start,
  next,
}

-- the coroutines that run, on_connect and stop spawn, by the context given to spawn_handler
pub data Context : Type 0 where
  run tx_state stop : Context

abbrev pub context_name : Context → Text
context_name run = codes "run"
context_name tx_state = codes "tx_state"
context_name stop = codes "stop"

-- What leaves a coroutine: a system_error, or another std::exception with its text.
pub data Thrown : Type 0 where
  system_error : ErrorCode → Thrown
  exception : Text → Thrown

-- the output statements of the handler
pub data Line : Type 0 where
  finished graceful : Context → Line
  error_in : Context → ErrorCode → Line
  failed_in : Context → Text → Line

-- connection_impl::spawn_handler; none is a null exception_ptr
unfoldable pub spawn_handler : Context → Option Thrown → Line
spawn_handler context none = finished context
spawn_handler context (some (system_error ec)) =
    if not (is_operation_aborted ec) && not (is_closed ec)
    then error_in context ec
    else graceful context
spawn_handler context (some (exception what)) = failed_in context what

-- The text of a line.
unfoldable pub print_line : (ErrorCode → Text) → Line → Text
print_line what (finished c) = context_name c ++ codes ": done\n"
print_line what (graceful c) = context_name c ++ codes ": graceful shutdown\n"
print_line what (error_in c ec) =
    context_name c ++ codes ": error in " ++ context_name c ++ codes " : " ++ what ec ++ codes "\n"
print_line what (failed_in c text) =
    codes "error in " ++ context_name c ++ codes " : " ++ text ++ codes "\n"

-- A co_await that completes with an error throws it.
abbrev pub thrown : ErrorCode → Option Thrown
thrown ec = if is_error ec then some (system_error ec) else none

-- A coroutine that ends only if its operation fails.
abbrev pub ends_failed : Context → ErrorCode → List Line
ends_failed context ec = if is_error ec then spawn_handler context (thrown ec) ∷ [] else []

-- The pop of dequeue_send completes.
abbrev pub ends_popped : List (Completion Text (Unit {0}) (Unit {0})) → List Line
ends_popped [] = []
ends_popped (k ∷ ks) = ends_failed tx_state k.ec

-- notify_error awaits the close of a stream that is chatting, and ends at once otherwise.
abbrev pub awaits_close : State → Bool
awaits_close initial_state = false
awaits_close handshaking = false
awaits_close chatting = true
awaits_close exit_state = false

-- The lines that an event prints. websocket_rx_state catches the error of a read and returns, and run
-- ends as one that is done.
unfoldable pub ended : Chat → Event → List Line
unfolding spawn_handler
ended c (sends m) = []
ended c runs = []
ended c tx_starts = []
ended c stops =
    if not (is_error c.ec) && awaits_close c.state then [] else spawn_handler stop none ∷ []
ended c (closed ec) = spawn_handler stop (thrown ec) ∷ []
ended c (accepted ec) = ends_failed run (if is_error ec then ec else c.ec)
ended c popped = ends_popped c.queue.posted
ended c (wrote ec) = ends_failed tx_state ec
ended c (received ec bytes) = if is_error ec then spawn_handler run none ∷ [] else []

-- All lines that a run has printed.
pub log : {ms : List Text} {n : ℕ} {c : Chat} → Reach ms n c → List Line
unfolding ended
log start = []
log (next {c = c} e c' reach en st) = log reach ++ ended c e
