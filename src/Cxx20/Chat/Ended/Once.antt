-- ===== src/Cxx20/Chat/Ended/Once.antt =====
-- Every coroutine is reported once, and an error is reported only where an operation failed.
use boost_beast_websocket_ec.Prelude.{
  ℕ, ◌+◌, ◌≡◌, refl, Bool, true, false, List, [], ◌∷◌, ◌++◌, done, if◌then◌else◌, arith,
}
use boost_beast_websocket_ec.Prelude.Text.{Text}
use boost_beast_websocket_ec.Cxx20.Chat.{
  Chat, State, initial_state, handshaking, chatting, exit_state, Tx, not_spawned, spawned, popping,
  tx_done, writing, connection_impl, send, dequeue_next, dequeue_wrote, stop_connection, run_state,
  run_accepted, rx_received,
}
use boost_beast_websocket_ec.Cxx20.Chat.Steps.{
  Event, sends, stops, runs, accepted, tx_starts, popped, wrote, received, closed, enabled, step,
  Reach, start, next,
}
use boost_beast_websocket_ec.Cxx20.Chat.Invariant.{IsValid}
use boost_beast_websocket_ec.Cxx20.Chat.Safety.{Reach-IsValid}
use boost_beast_websocket_ec.Cxx20.Chat.Ended.{
  Context, run, tx_state, stop, Line, finished, graceful, error_in, failed_in, spawn_handler, ended,
  log,
}

-- The lines about a coroutine.
abbrev pub same_context : Context → Context → Bool
same_context run run = true
same_context run tx_state = false
same_context run stop = false
same_context tx_state run = false
same_context tx_state tx_state = true
same_context tx_state stop = false
same_context stop run = false
same_context stop tx_state = false
same_context stop stop = true

abbrev pub about : Line → Context
about (finished c) = c
about (graceful c) = c
about (error_in c ec) = c
about (failed_in c what) = c

abbrev pub times : Context → List Line → ℕ
times c [] = 0
times c (l ∷ ls) = (if same_context c (about l) then 1 else 0) + times c ls

times-append : (c : Context) (ls ks : List Line) → times c (ls ++ ks) ≡ times c ls + times c ks
times-append c [] ks = omega arith
times-append c (l ∷ ls) ks = omega (arith, times-append c ls ks)

-- Whether run and dequeue_send are over.
abbrev pub run_over : State → ℕ
run_over initial_state = 0
run_over handshaking = 0
run_over chatting = 0
run_over exit_state = 1

abbrev pub tx_over : Tx → ℕ
tx_over not_spawned = 0
tx_over spawned = 0
tx_over popping = 0
tx_over (writing m) = 0
tx_over tx_done = 1

step-times :
    (c : Chat) (e : Event) (c' : Chat)
    → IsValid c
    → enabled c e ≡ true
    → step c e ≡ done c'
    → (run_over c.state + times run (ended c e) ≡ run_over c'.state)
      × (tx_over c.tx + times tx_state (ended c e) ≡ tx_over c'.tx)
unfolding step send dequeue_next dequeue_wrote stop_connection run_state run_accepted rx_received
    ended spawn_handler
step-times c (sends m) c' v en st = ground arith
step-times c stops c' v en st = ground arith
step-times c runs c' v en st = ground arith
step-times c (accepted ec) c' v en st = ground arith
step-times c tx_starts c' v en st = ground arith
step-times c popped c' v en st = ground arith
step-times c (wrote ec) c' v en st = ground arith
step-times c (received ec bytes) c' v en st = ground arith
step-times c (closed ec) c' v en st = ground arith

-- How often connection_impl::stop is called.
abbrev pub stop_called : Event → ℕ
stop_called stops = 1
stop_called (sends m) = 0
stop_called runs = 0
stop_called (accepted ec) = 0
stop_called tx_starts = 0
stop_called popped = 0
stop_called (wrote ec) = 0
stop_called (received ec bytes) = 0
stop_called (closed ec) = 0

pub stops_called : {ms : List Text} {n : ℕ} {c : Chat} → Reach ms n c → ℕ
stops_called start = 0
stops_called (next e c' reach en st) = stops_called reach + stop_called e

step-times-stop :
    (c : Chat) (e : Event) (c' : Chat)
    → IsValid c
    → enabled c e ≡ true
    → step c e ≡ done c'
    → c.closes + stop_called e ≡ times stop (ended c e) + c'.closes
unfolding step send dequeue_next dequeue_wrote stop_connection run_state run_accepted rx_received
    ended spawn_handler
step-times-stop c (sends m) c' v en st = ground arith
step-times-stop c stops c' v en st = ground arith
step-times-stop c runs c' v en st = ground arith
step-times-stop c (accepted ec) c' v en st = ground arith
step-times-stop c tx_starts c' v en st = ground arith
step-times-stop c popped c' v en st = ground arith
step-times-stop c (wrote ec) c' v en st = ground arith
step-times-stop c (received ec bytes) c' v en st = ground arith
step-times-stop c (closed ec) c' v en st = ground arith

-- In every run, whatever has been printed so far: the end of run is printed once if the connection
-- has left the chat, and not before; that of dequeue_send once if it is over, and not before; and each
-- call of stop either has printed its end or still awaits the close it has begun.
pub printed_once :
    {ms : List Text} {n : ℕ} {c : Chat} (reach : Reach ms n c)
    → (times run (log reach) ≡ run_over c.state)
      × (times tx_state (log reach) ≡ tx_over c.tx)
      × (times stop (log reach) + c.closes ≡ stops_called reach)
unfolding log stops_called connection_impl
printed_once start = (refl, refl, refl)
printed_once (next {c = c} e c' reach en st) =
    let v = Reach-IsValid reach in
    omega (
      arith,
      printed_once reach,
      step-times c e c' v en st,
      step-times-stop c e c' v en st,
      times-append run (log reach) (ended c e),
      times-append tx_state (log reach) (ended c e),
      times-append stop (log reach) (ended c e),
    )
