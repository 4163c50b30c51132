-- ===== src/Cxx20/Chat/Ended/Errors.antt =====
-- Which ends of coroutines are printed as errors.
use boost_beast_websocket_ec.Prelude.{
  ℕ, ◌+◌, ◌≡◌, refl, Bool, true, false, ◌&&◌, not, List, [], ◌∷◌, ErrorCode, success,
  operation_aborted, is_error, is_operation_aborted, is_closed, done, if◌then◌else◌, arith,
}
use boost_beast_websocket_ec.Prelude.Text.{Text}
use boost_beast_websocket_ec.AsyncQueue.{Completion}
use boost_beast_websocket_ec.Cxx20.Chat.{
  Chat, connection_impl, send, dequeue_next, dequeue_wrote, stop_connection, run_state,
  run_accepted, rx_received,
}
use boost_beast_websocket_ec.Cxx20.Chat.Steps.{
  Event, sends, stops, runs, accepted, tx_starts, popped, wrote, received, closed, enabled, step,
  Reach, start, next,
}
use boost_beast_websocket_ec.Cxx20.Chat.Invariant.{IsValid}
use boost_beast_websocket_ec.Cxx20.Chat.Safety.{Reach-IsValid}
use boost_beast_websocket_ec.Cxx20.Chat.Ended.{
  Line, finished, graceful, error_in, failed_in, spawn_handler, ended,
}

-- The lines that report an error.
abbrev pub is_report : Line → Bool
is_report (finished c) = false
is_report (graceful c) = false
is_report (error_in c ec) = true
is_report (failed_in c what) = true

abbrev pub reports : List Line → ℕ
reports [] = 0
reports (l ∷ ls) = (if is_report l then 1 else 0) + reports ls

-- Neither a stop nor the other side's close.
abbrev pub unexpected : ErrorCode → Bool
unexpected ec = is_error ec && (not (is_operation_aborted ec) && not (is_closed ec))

-- The code of an accept, a write or a close that completes.
abbrev pub completed : Event → ErrorCode
completed (accepted ec) = ec
completed (wrote ec) = ec
completed (closed ec) = ec
completed (sends m) = success
completed stops = success
completed runs = success
completed tx_starts = success
completed popped = success
completed (received ec bytes) = success

-- An error that the connection itself makes is operation_aborted.
abbrev pub Aborted : ErrorCode → Type 0
Aborted ec = is_error ec ≡ true → ec ≡ operation_aborted

abbrev pub AllAborted : List (Completion Text (Unit {0}) (Unit {0})) → Type 0
AllAborted [] = Unit {0}
AllAborted (k ∷ ks) = Aborted k.ec × AllAborted ks

record IsAborted (c : Chat) : Type 0 where
  by_stop : Aborted c.ec
  by_queue : Aborted c.queue.ec
  by_pop : AllAborted c.queue.posted

step-IsAborted :
    (c : Chat) (e : Event) (c' : Chat)
    → IsValid c
    → enabled c e ≡ true
    → step c e ≡ done c'
    → IsAborted c
    → IsAborted c'
unfolding step send dequeue_next dequeue_wrote stop_connection run_state run_accepted rx_received
step-IsAborted c (sends m) c' v en st h = ground arith
step-IsAborted c stops c' v en st h = ground arith
step-IsAborted c runs c' v en st h = ground arith
step-IsAborted c (accepted ec) c' v en st h = ground arith
step-IsAborted c tx_starts c' v en st h = ground arith
step-IsAborted c popped c' v en st h = ground arith
step-IsAborted c (wrote ec) c' v en st h = ground arith
step-IsAborted c (received ec bytes) c' v en st h = ground arith
step-IsAborted c (closed ec) c' v en st h = ground arith

Reach-IsAborted : {ms : List Text} {n : ℕ} {c : Chat} → Reach ms n c → IsAborted c
unfolding connection_impl
Reach-IsAborted start = ground arith
Reach-IsAborted (next {c = c} e c' reach en st) =
    step-IsAborted c e c' (Reach-IsValid reach) en st (Reach-IsAborted reach)

-- In a reached connection an event that can happen prints an error if, and only if, it is the completion
-- of the handshake, of a write or of a close with a code other than operation_aborted and closed, and
-- then it prints one; a stop, a stopped queue and a read that fails print none.
pub errors_printed :
    {ms : List Text} {n : ℕ} {c : Chat} (e : Event)
    → Reach ms n c
    → enabled c e ≡ true
    → reports (ended c e) ≡ (if unexpected (completed e) then 1 else 0)
unfolding ended spawn_handler
errors_printed (sends m) reach en = refl
errors_printed stops reach en = ground arith
errors_printed runs reach en = refl
errors_printed {c = c} (accepted ec) reach en = ground (arith, Reach-IsAborted reach)
errors_printed tx_starts reach en = refl
errors_printed {c = c} popped reach en = ground (arith, Reach-IsAborted reach)
errors_printed (wrote ec) reach en = ground arith
errors_printed (received ec bytes) reach en = ground arith
errors_printed (closed ec) reach en = ground arith
