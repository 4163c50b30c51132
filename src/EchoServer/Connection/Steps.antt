-- ===== src/EchoServer/Connection/Steps.antt =====
-- What may happen to a connection once it runs: a call of its public functions reaches its
-- executor, or an operation completes and its handler runs.
use boost_beast_websocket_ec.Prelude.{
  ℕ, ◌+◌, ◌-◌, ◌≡◌, Bool, true, false, ◌&&◌, not, ◌||◌, List, [], ◌∷◌, ◌++◌, ErrorCode, is_error,
  Outcome, done, ltb, empty, pop_front, if◌then◌else◌, ◌==◌,
}
use boost_beast_websocket_ec.Prelude.Text.{Text}
use boost_beast_websocket_ec.EchoServer.Connection.{
  Connection, going_away, connection_impl, handle_run, handle_accept, handle_send, handle_rx,
  handle_tx, handle_stop, handle_timer, seconds_remaining,
}

pub data Event : Type 0 where
  sends : Text → Event
  stops : Event
  accepted : ErrorCode → Event
  -- a read completes; its bytes are in the buffer
  received : ErrorCode → Text → Event
  wrote : ErrorCode → Event
  timed : ErrorCode → Event

-- An operation completes only if one has begun.
abbrev pub enabled : Connection → Event → Bool
enabled c (sends m) = true
enabled c stops = true
enabled c (accepted ec) = ltb 0 c.accepts
enabled c (received ec bytes) = ltb 0 c.reads
enabled c (wrote ec) = not (empty c.writes)
enabled c (timed ec) = ltb 0 c.waits

-- The functions passed to dispatch and to the asynchronous operations.
unfoldable pub step : Connection → Event → Outcome Connection
step c (sends m) = handle_send c m
step c stops = done (handle_stop c (going_away []))
step c (accepted ec) = handle_accept (record c { accepts = c.accepts - 1 }) ec
step c (received ec bytes) =
    handle_rx (record c { reads = c.reads - 1; rxbuffer = c.rxbuffer ++ bytes }) ec
step c (wrote ec) = handle_tx (record c { writes = pop_front c.writes }) ec
step c (timed ec) =
    let c' : Connection = record c { waits = c.waits - 1 } in
    if is_error ec then done c' else handle_timer c'

-- The messages that an event adds to those to be sent.
abbrev pub queued : Connection → Event → List Text
queued c (sends m) = m ∷ []
queued c stops = []
queued c (accepted ec) = []
queued c (received ec bytes) = if is_error ec then [] else (c.rxbuffer ++ bytes) ∷ []
queued c (wrote ec) = []
queued c (timed ec) =
    if is_error ec || is_error c.ec || c.time_remaining == 0
    then []
    else seconds_remaining c.time_remaining ∷ []

-- The messages whose write an event reports as complete.
abbrev pub written : Connection → Event → List Text
written c (sends m) = []
written c stops = []
written c (accepted ec) = []
written c (received ec bytes) = []
written c (wrote ec) = if is_error ec then [] else c.writes
written c (timed ec) = []

abbrev pub expired : Event → ℕ
expired (sends m) = 0
expired stops = 0
expired (accepted ec) = 0
expired (received ec bytes) = 0
expired (wrote ec) = 0
expired (timed ec) = 1

-- The connections that a run reaches with no failed assertion. Its indices: all messages queued,
-- all messages written, and how many waits for the timer have completed.
pub data Reach : List Text → List Text → ℕ → Connection → Type 0 where
  start : (c : Connection) → handle_run connection_impl ≡ done c → Reach [] [] 0 c
  next :
      {qs ws : List Text} {n : ℕ} {c : Connection} (e : Event) (c' : Connection)
      → Reach qs ws n c
      → enabled c e ≡ true
      → step c e ≡ done c'
      → Reach (qs ++ queued c e) (ws ++ written c e) (n + expired e) c'

-- A read completes with a message although the connection has been stopped.
abbrev pub is_late_read : Connection → Event → Bool
is_late_read c (sends m) = false
is_late_read c stops = false
is_late_read c (accepted ec) = false
is_late_read c (received ec bytes) = not (is_error ec) && is_error c.ec
is_late_read c (wrote ec) = false
is_late_read c (timed ec) = false
