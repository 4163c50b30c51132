-- ===== src/FmexClient/Connection/Safety.antt =====
-- What holds of every connection that a run reaches, and the ping region after an error.
use mathlib.Core.List.{append-nil, append_assoc}
use boost_beast_websocket_ec.Prelude.{
  Returns-done, ℕ, ◌≡◌, sym, ap, ◌∙◌, inl, inr, true, Option, List, [], ◌∷◌, ◌++◌, success, fault,
  ErrorCode, done, Returns, Option-cases, List-cases, arith,
}
use boost_beast_websocket_ec.Prelude.Text.{Text}
use boost_beast_websocket_ec.Prelude.Slots.{slots_of, total}
use boost_beast_websocket_ec.FmexClient.Connection.{
  Connection, ping_waiting_timer, ping_exited, Stop, Stage, resolving, connecting, ssl_handshaking,
  websocket_handshaking, Parsed, other_exception, exchange_connection, notify_connect,
  connect_transport_op, on_read, on_write, on_close, stop, ping_on_timer,
}
use boost_beast_websocket_ec.FmexClient.Connection.Steps.{
  Event, stops, connect_done, received, wrote, closed, timed, enabled, step, queued, written, Reach,
  start, next,
}
use boost_beast_websocket_ec.FmexClient.Connection.Invariant.{
  IsValid, start-IsValid, step-IsValid, run_stops-tx_queue,
}

connect-tx_queue :
    (sni : Option ErrorCode) (g : Stage) (c : Connection) (ec : ErrorCode) (c' : Connection)
    → connect_transport_op sni g c ec ≡ done c'
    → c'.tx_queue ≡ c.tx_queue
unfolding connect_transport_op
connect-tx_queue sni resolving c ec c' st = ground arith
connect-tx_queue sni connecting c ec c' st = ground arith
connect-tx_queue sni ssl_handshaking c ec c' st = ground arith
connect-tx_queue sni websocket_handshaking c ec c' st = ground arith

module _ (parse : Text → Parsed) (subscribe : Text)
    (order : List (ℕ × Stop) → List (ℕ × Stop)) where
  step-tx_queue :
      (c : Connection) (e : Event) (c' : Connection)
      → IsValid c
      → enabled c e ≡ true
      → step parse subscribe order c e ≡ done c'
      → written parse subscribe order c e ++ c'.tx_queue
        ≡ c.tx_queue ++ queued parse subscribe order c e
  unfolding step stop on_read on_write on_close ping_on_timer
  step-tx_queue c stops c' v en st = ground (
    arith,
    append-nil c.tx_queue,
    run_stops-tx_queue (record c { stop_register = record c.stop_register { map = [] } })
        (slots_of (order c.stop_register.map)),
  )
  step-tx_queue c (connect_done sni ec) c' v en st = elim (Option-cases c.stage) [
    | inl e ↦ absurd (ground arith)
    | inr (g, e) ↦ connect-tx_queue sni g c ec c' (cc (st, e)) ∙ sym (append-nil c.tx_queue)
  ]
  step-tx_queue c (received ec bytes) c' v en st = elim (List-cases c.tx_queue) [
    | inl e ↦ ground (arith, append-nil c.tx_queue)
    | inr (m, ms, e) ↦ ground (arith, append-nil c.tx_queue)
  ]
  step-tx_queue c (wrote ec) c' v en st = ground (arith, append-nil c.tx_queue)
  step-tx_queue c (closed ec) c' v en st = ground (arith, append-nil c.tx_queue)
  step-tx_queue c (timed ec frame) c' v en st = elim (List-cases c.tx_queue) [
    | inl e ↦ ground (arith, append-nil c.tx_queue)
    | inr (m, ms, e) ↦ ground (arith, append-nil c.tx_queue)
  ]

module _ (parse : Text → Parsed) (subscribe : Text) (order : List (ℕ × Stop) → List (ℕ × Stop))
    (iterates : (w : Stop → ℕ) (m : List (ℕ × Stop))
      → total w (slots_of (order m)) ≡ total w (slots_of m)) where
  Reach-IsValid :
      {qs ws : List Text} {c : Connection} → Reach parse subscribe order qs ws c → IsValid c
  Reach-IsValid start = start-IsValid
  Reach-IsValid (next {c = c} e c' reach en st) =
      Returns-done IsValid _ st
        (step-IsValid order iterates parse subscribe c e (Reach-IsValid reach) en)

  -- In a reached connection one read and one wait of the ping timer at most are going on, one frame at
  -- most is being written, the front of the queue, the register holds at most the function that
  -- cancels what is going on, and one close at most has been begun; every event that can happen
  -- fails no assertion and leaves it so. The iteration of a map visits each entry once.
  pub exchange_safe :
      {qs ws : List Text} {c : Connection} (e : Event)
      → Reach parse subscribe order qs ws c
      → enabled c e ≡ true
      → IsValid c × Returns IsValid (step parse subscribe order c e)
  exchange_safe {c = c} e reach en =
      let v = Reach-IsValid reach in (v, step-IsValid order iterates parse subscribe c e v en)

  -- In a reached connection the frames whose write has completed, followed by those in the queue, are
  -- all frames that were queued, in order. The iteration of a map visits each entry once.
  pub frames_in_order :
      {qs ws : List Text} {c : Connection}
      → Reach parse subscribe order qs ws c
      → ws ++ c.tx_queue ≡ qs
  unfolding notify_connect exchange_connection
  frames_in_order start = ground arith
  frames_in_order (next {ws = ws} {c = c} e c' reach en st) =
      append_assoc ws (written parse subscribe order c e) c'.tx_queue
      ∙ ap (◌++◌ ws) (step-tx_queue parse subscribe order c e c' (Reach-IsValid reach) en st)
      ∙ sym (append_assoc ws c.tx_queue (queued parse subscribe order c e))
      ∙ ap (λ xs. xs ++ queued parse subscribe order c e) (frames_in_order reach)

-- If a frame that is read makes the parser throw while the ping region waits, on_error is called
-- twice and the region exits; when the wait, which had completed before it was cancelled, is handled
-- without error, the region waits again, and the ping stands at the end of the queue.
pub late_timer_restarts :
    (parse : Text → Parsed) (subscribe bytes frame : Text)
    (order : List (ℕ × Stop) → List (ℕ × Stop)) (c : Connection)
    → IsValid c
    → c.ping_state ≡ ping_waiting_timer
    → c.reads ≡ 1
    → parse (c.buffer ++ bytes) ≡ other_exception
    → Returns
        (λ d.
          (d.ping_state ≡ ping_exited)
          × (d.errors ≡ (c.errors ++ fault ∷ []) ++ fault ∷ [])
          × Returns
              (λ d'.
                (d'.ping_state ≡ ping_waiting_timer)
                × (d'.waits ≡ 1)
                × (d'.tx_queue ≡ c.tx_queue ++ frame ∷ []))
              (step parse subscribe order d (timed success frame)))
        (step parse subscribe order c (received success bytes))
unfolding step on_read ping_on_timer
late_timer_restarts parse subscribe bytes frame order c v p r e = elim (List-cases c.tx_queue) [
  | inl q ↦ ground arith
  | inr (m, ms, q) ↦ ground arith
]
