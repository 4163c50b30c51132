-- ===== src/FmexClient/Connection/Invariant.antt =====
-- What holds of the connection between two handlers.
use boost_beast_websocket_ec.Prelude.{
  ℕ, ◌+◌, ◌-◌, ◌≤◌, ◌≡◌, ap, true, Option, none, some, List, [], ◌∷◌, ◌++◌, ErrorCode, Returns,
  pop_front, length, inl, inr, Option-cases, List-cases, arith,
}
use boost_beast_websocket_ec.Prelude.Text.{Text}
use boost_beast_websocket_ec.Prelude.Slots.{emplace, erase, contains, slots_of, total}
use boost_beast_websocket_ec.FmexClient.StopRegister
use boost_beast_websocket_ec.FmexClient.StopRegister.{StopRegister, StopToken}
use boost_beast_websocket_ec.FmexClient.Connection.{
  Connection, SendState, send_idle, send_sending, PingState, ping_not_active, ping_waiting_timer,
  ping_exited, Stop, cancel_resolver, cancel_socket, initiates_close, Stage, resolving, connecting,
  ssl_handshaking, websocket_handshaking, Parsed, exchange_connection, notify_connect,
  connect_transport_op, on_read, on_write, on_close, stop, ping_on_timer, run_stops,
}
use boost_beast_websocket_ec.FmexClient.Connection.Steps.{
  Event, stops, connect_done, received, wrote, closed, timed, enabled, step,
}

-- A frame is being written exactly while the connection is sending: the front of the queue.
abbrev pub InFlight : List Text → List Text → SendState → Type 0
InFlight [] queue s = s ≡ send_idle
InFlight (m ∷ []) [] s = ⊥
InFlight (m ∷ []) (q ∷ queue) s = (m ≡ q) × (s ≡ send_sending)
InFlight (m ∷ n ∷ ms) queue s = ⊥

-- The register holds nothing but `f` under `id`.
abbrev pub Holds : ℕ → Stop → List (ℕ × Stop) → Type 0
Holds id f [] = Unit {0}
Holds id f ((i, g) ∷ []) = (i ≡ id) × (g ≡ f)
Holds id f ((i, g) ∷ (j, h) ∷ m) = ⊥

-- The register during each stage of connecting, with the token of the operation: what a stop would
-- do is to cancel the operation that is going on.
abbrev pub Cancels : Stage → StopRegister Stop → ℕ → Type 0
Cancels resolving r id = (r.next_id ≡ 1) × (id ≡ 1) × Holds 1 cancel_resolver r.map
Cancels connecting r id = (r.next_id ≡ 2) × (id ≡ 2) × Holds 2 cancel_socket r.map
Cancels ssl_handshaking r id = (r.next_id ≡ 2) × (id ≡ 2) × Holds 2 cancel_socket r.map
Cancels websocket_handshaking r id = (r.next_id ≡ 2) × (id ≡ 2) × Holds 2 cancel_socket r.map

-- The same for the whole connection; once connected, a stop closes it, and that once at most.
abbrev pub Stoppable : Option Stage → PingState → StopRegister Stop → ℕ → ℕ → ℕ → Type 0
Stoppable (some g) ping_not_active r id mine n = Cancels g r id × (mine ≡ 0) × (n ≡ 0)
Stoppable (some g) ping_waiting_timer r id mine n = ⊥
Stoppable (some g) ping_exited r id mine n = ⊥
Stoppable none ping_not_active r id mine n = ⊥
Stoppable none ping_waiting_timer r id mine n =
    Holds 3 initiates_close r.map × (n + length r.map ≤ 1)
Stoppable none ping_exited r id mine n = Holds 3 initiates_close r.map × (n + length r.map ≤ 1)

pub record IsValid (c : Connection) : Type 0 where
  pub in_flight : InFlight c.writes c.tx_queue c.send_state
  pub one_read : c.reads ≤ 1
  pub one_wait : c.waits ≤ 1
  pub waiting : c.ping_state ≡ ping_waiting_timer → c.waits ≡ 1
  pub not_up :
      c.ping_state ≡ ping_not_active
      → (c.reads ≡ 0) × (c.waits ≡ 0) × (c.closes ≡ 0) × (c.tx_queue ≡ []) × (c.errors ≡ [])
  pub stoppable :
      Stoppable c.stage c.ping_state c.stop_register c.op_token.id c.my_stop_token.id c.closes_begun

pub start-IsValid : IsValid (notify_connect exchange_connection)
unfolding notify_connect exchange_connection StopRegister.stop_register emplace contains erase
start-IsValid = ground arith

connect-IsValid :
    (sni : Option ErrorCode) (g : Stage) (c : Connection) (ec : ErrorCode)
    → IsValid c
    → c.stage ≡ some g
    → Returns IsValid (connect_transport_op sni g c ec)
unfolding connect_transport_op StopRegister.reset emplace contains erase
connect-IsValid sni resolving c ec v e = ground arith
connect-IsValid sni connecting c ec v e = ground arith
connect-IsValid sni ssl_handshaking c ec v e = ground arith
connect-IsValid sni websocket_handshaking c ec v e = ground arith

write-IsValid :
    (c : Connection) (ec : ErrorCode)
    → IsValid c
    → enabled c (wrote ec) ≡ true
    → Returns IsValid (on_write (record c { writes = pop_front c.writes }) ec)
unfolding on_write
write-IsValid c ec v en = ground arith

read-IsValid :
    (parse : Text → Parsed) (subscribe bytes : Text) (c : Connection) (ec : ErrorCode)
    → IsValid c
    → enabled c (received ec bytes) ≡ true
    → Returns IsValid
        (on_read parse subscribe (record c { reads = c.reads - 1; buffer = c.buffer ++ bytes }) ec)
unfolding on_read
read-IsValid parse subscribe bytes c ec v en = elim (List-cases c.tx_queue) [
  | inl e ↦ ground arith
  | inr (m, ms, e) ↦ ground arith
]

timer-IsValid :
    (c : Connection) (ec : ErrorCode) (frame : Text)
    → IsValid c
    → enabled c (timed ec frame) ≡ true
    → Returns IsValid (ping_on_timer (record c { waits = c.waits - 1 }) ec frame)
unfolding ping_on_timer
timer-IsValid c ec frame v en = elim (List-cases c.tx_queue) [
  | inl e ↦ ground arith
  | inr (m, ms, e) ↦ ground arith
]

close-IsValid :
    (c : Connection) (ec : ErrorCode)
    → IsValid c
    → enabled c (closed ec) ≡ true
    → IsValid (on_close (record c { closes = c.closes - 1 }) ec)
unfolding on_close
close-IsValid c ec v en = ground arith

abbrev closes_of : Stop → ℕ
closes_of cancel_resolver = 0
closes_of cancel_socket = 0
closes_of initiates_close = 1

abbrev resolver_of : Stop → ℕ
resolver_of cancel_resolver = 1
resolver_of cancel_socket = 0
resolver_of initiates_close = 0

abbrev socket_of : Stop → ℕ
socket_of cancel_resolver = 0
socket_of cancel_socket = 1
socket_of initiates_close = 0

run_stops-counts :
    (c : Connection) (fs : List Stop)
    → run_stops c fs ≡ record c {
      closes = c.closes + total closes_of fs;
      closes_begun = c.closes_begun + total closes_of fs;
      resolver_cancels = c.resolver_cancels + total resolver_of fs;
      socket_cancels = c.socket_cancels + total socket_of fs;
    }
unfolding run_stops
run_stops-counts c [] = ground arith
run_stops-counts c (cancel_resolver ∷ fs) =
    ground (arith, run_stops-counts (record c { resolver_cancels = c.resolver_cancels + 1 }) fs)
run_stops-counts c (cancel_socket ∷ fs) =
    ground (arith, run_stops-counts (record c { socket_cancels = c.socket_cancels + 1 }) fs)
run_stops-counts c (initiates_close ∷ fs) = ground (
  arith,
  run_stops-counts (record c { closes = c.closes + 1; closes_begun = c.closes_begun + 1 }) fs,
)

module _ (order : List (ℕ × Stop) → List (ℕ × Stop))
    (iterates : (w : Stop → ℕ) (m : List (ℕ × Stop))
      → total w (slots_of (order m)) ≡ total w (slots_of m)) where
  stop-IsValid : (c : Connection) → IsValid c → IsValid (stop order c)
  unfolding stop
  stop-IsValid c v =
      rw
        (
          run_stops-counts (record c { stop_register = record c.stop_register { map = [] } })
              (slots_of (order c.stop_register.map)),
          stop,
        )
        (ground (arith, iterates closes_of c.stop_register.map))

  -- Every event that can happen keeps the invariant, and no assertion fails.
  pub step-IsValid :
      (parse : Text → Parsed) (subscribe : Text) (c : Connection) (e : Event)
      → IsValid c
      → enabled c e ≡ true
      → Returns IsValid (step parse subscribe order c e)
  unfolding step
  step-IsValid parse subscribe c stops v en = stop-IsValid c v
  step-IsValid parse subscribe c (connect_done sni ec) v en = elim (Option-cases c.stage) [
    | inl e ↦ absurd (ground arith)
    | inr (g, e) ↦ rw (e, step) (connect-IsValid sni g c ec v e)
  ]
  step-IsValid parse subscribe c (received ec bytes) v en =
      read-IsValid parse subscribe bytes c ec v en
  step-IsValid parse subscribe c (wrote ec) v en = write-IsValid c ec v en
  step-IsValid parse subscribe c (closed ec) v en = close-IsValid c ec v en
  step-IsValid parse subscribe c (timed ec frame) v en = timer-IsValid c ec frame v en

pub run_stops-tx_queue : (c : Connection) (fs : List Stop) → (run_stops c fs).tx_queue ≡ c.tx_queue
run_stops-tx_queue c fs = ap (λ d. d.tx_queue) (run_stops-counts c fs)
