-- ===== src/Blog/Transport/Laws.antt =====
-- What holds of every transport that a run reaches, and what connect_op does after an error.
use boost_beast_websocket_ec.Prelude.{
  ℕ, ◌-◌, ◌≤◌, ◌++◌, not, pop_front, length, Option-cases, ◌≡◌, Bool, true, false, Option, none,
  some, List, [], ◌∷◌, ErrorCode, success, is_error, done, Returns, Returns-done, ltb, empty,
  if◌then◌else◌, is_some, arith, inl, inr,
}
use boost_beast_websocket_ec.Prelude.Text.{Text}
use boost_beast_websocket_ec.Blog.Transport.{
  Fmex, State, not_started, connecting, connected, closing, finished, is_connected, SendState,
  not_sending, sending, Stage, resolving, connecting_tcp, ssl_handshaking, websocket_handshaking,
  Parsed, is_ping_not_started, fmex_connection, start, connect_op, handle_send, handle_read,
  ping_event_timeout,
}
use boost_beast_websocket_ec.Blog.Transport.Steps.{
  Event, starts, connect_done, sent, received, timed, enabled, step, Reach, fresh, next,
}

-- A frame is being written exactly while the transport is sending: the front of the queue.
abbrev pub InFlight : List Text → List Text → SendState → Type 0
InFlight [] queue s = s ≡ not_sending
InFlight (m ∷ []) [] s = ⊥
InFlight (m ∷ []) (q ∷ queue) s = (m ≡ q) × (s ≡ sending)
InFlight (m ∷ n ∷ ms) queue s = ⊥

-- How many errors a state may have seen.
abbrev pub ErrorsSeen : State → ℕ → Type 0
ErrorsSeen not_started n = n ≡ 0
ErrorsSeen connecting n = n ≡ 0
ErrorsSeen connected n = n ≤ 1
ErrorsSeen closing n = ⊥
ErrorsSeen finished n = (1 ≤ n) × (n ≤ 2)

pub record IsValid (c : Fmex) : Type 0 where
  pub in_flight : InFlight c.writes c.send_queue c.send_state
  pub one_read : c.reads ≤ 1
  pub idle_empty : is_connected c.state ≡ true → c.send_state ≡ not_sending → c.send_queue ≡ []
  pub up_once : is_some c.stage ≡ true → is_ping_not_started c.ping_state ≡ true
  pub up_last : is_connected c.state ≡ true → is_ping_not_started c.ping_state ≡ false
  pub not_up :
      is_ping_not_started c.ping_state ≡ true → (c.reads ≡ 0) × (c.waits ≡ 0) × (c.send_queue ≡ [])
  pub before_start :
      c.state ≡ not_started → (c.stage ≡ none) × (is_ping_not_started c.ping_state ≡ true)
  pub seen : ErrorsSeen c.state c.errors
  pub first_error : is_some c.stage ≡ true → c.errors ≤ 1

sent-IsValid :
    (c : Fmex) (ec : ErrorCode)
    → IsValid c
    → not (empty c.writes) ≡ true
    → IsValid (handle_send (record c { writes = pop_front c.writes }) ec)
unfolding handle_send
sent-IsValid c ec v en = ground arith

timed-IsValid :
    (c : Fmex) (ec : ErrorCode) (frame : Text)
    → IsValid c
    → ltb 0 c.waits ≡ true
    → let c' : Fmex = record c { waits = c.waits - 1 } in
      IsValid (if is_error ec then c' else ping_event_timeout c' frame)
unfolding ping_event_timeout
timed-IsValid c ec frame v en = ground arith

module _ (parse : Text → Parsed) (subscribe : Text) where
  connect_op-IsValid :
      (sni : Option ErrorCode) (stage : Stage) (c : Fmex) (ec : ErrorCode)
      → IsValid c
      → c.stage ≡ some stage
      → Returns IsValid (connect_op sni stage c ec)
  unfolding connect_op
  connect_op-IsValid sni resolving c ec v e = ground arith
  connect_op-IsValid sni connecting_tcp c ec v e = ground arith
  connect_op-IsValid sni ssl_handshaking c ec v e = ground arith
  connect_op-IsValid sni websocket_handshaking c ec v e = ground arith

  handle_read-IsValid :
      (c : Fmex) (ec : ErrorCode) (n : ℕ) (is_text : Bool)
      → IsValid (record c { reads = 1 })
      → is_ping_not_started c.ping_state ≡ false
      → c.reads ≡ 0
      → IsValid (handle_read parse subscribe c ec n is_text)
  unfolding handle_read
  handle_read-IsValid c ec n is_text v p r = ground arith

  -- Any event but a second start fails no assertion and keeps the transport in good order.
  pub step_keeps :
      (c : Fmex) (e : Event)
      → IsValid c
      → enabled c e ≡ true
      → (e ≡ starts → c.state ≡ not_started)
      → Returns IsValid (step parse subscribe c e)
  unfolding step start
  step_keeps c starts v en s = ground arith
  step_keeps c (connect_done sni ec) v en s = elim (Option-cases c.stage) [
    | inl e ↦ absurd (ground arith)
    | inr (stage, e) ↦ rw (e, step) (connect_op-IsValid sni stage c ec v e)
  ]
  step_keeps c (sent ec) v en s = sent-IsValid c ec v en
  step_keeps c (received ec bytes is_text) v en s =
      handle_read-IsValid (record c { reads = c.reads - 1; rx_buffer = c.rx_buffer ++ bytes }) ec
        (length bytes) is_text (ground arith) (ground arith) (ground arith)
  step_keeps c (timed ec frame) v en s = timed-IsValid c ec frame v en

  restarted :
      (c : Fmex) (e : Event) (c' : Fmex)
      → step parse subscribe c e ≡ done c'
      → e ≡ starts
      → c.state ≡ not_started
  unfolding step start
  restarted c e c' st h = ground arith

  -- In every state reached with no failed assertion one read at most is going on, one frame at most is
  -- being written, the front of the queue, an idle connected transport has an empty queue, and
  -- on_transport_error has been called twice at most.
  pub transport-IsValid : {c : Fmex} → Reach parse subscribe c → IsValid c
  unfolding fmex_connection
  transport-IsValid fresh = ground arith
  transport-IsValid (next {c = c} e c' reach en st) =
      Returns-done IsValid _ st (step_keeps c e (transport-IsValid reach) en (restarted c e c' st))

  -- After an error in the TLS handshake of a connecting transport it has reported the error
  -- and is finished, yet connect_op has begun its next operation; when the websocket handshake
  -- succeeds after all, the finished transport is connected again.
  pub finished_comes_up :
      (sni : Option ErrorCode) (c : Fmex) (ec : ErrorCode)
      → IsValid c
      → c.state ≡ connecting
      → c.stage ≡ some ssl_handshaking
      → is_error ec ≡ true
      → Returns
          (λ c'.
            (c'.state ≡ finished)
            × (c'.errors ≡ 1)
            × (c'.stage ≡ some websocket_handshaking)
            × Returns
                (λ d. (d.state ≡ connected) × (d.errors ≡ 1) × (d.reads ≡ 1))
                (step parse subscribe c' (connect_done none success)))
          (step parse subscribe c (connect_done sni ec))
  unfolding step connect_op
  finished_comes_up sni c ec v s e h = ground arith
